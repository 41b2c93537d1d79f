-- ===== src/Sweep/Report.antt =====
-- `send_request_and_measure` and the result dict of `run_single_experiment`, in
-- tkdgjs/experiment/run_sweep_experiment.py.
use cachegen_plus.Base.{ℕ, Bool, true, false, List, ◌==◌, if◌then◌else◌, length}
use cachegen_plus.Base.Int.{ℤ}
use cachegen_plus.Float.{Float, ◌⊕◌, ◌⊖◌}
use cachegen_plus.Vram.Request.{PostOutcome, post_raised, answered, token_times, first_token}
use cachegen_plus.Sweep.Measure.{Snapshot}

pub record SweepLatency (W : Type 0) : Type 0 where
  pub prompt_tokens : ℕ
  pub output_tokens : ℕ
  pub ttft_sec : W
  pub ttlt_sec : W

-- `(False, {"error": …})` or `(True, …)`
pub data SweepRequest (W : Type 0) : Type 0 where
  sweep_failed : List ℕ → SweepRequest W
  sweep_done : SweepLatency W → SweepRequest W

-- The entry `vram` of a result.
pub record VramReport (W : Type 0) : Type 0 where
  pub idle_used_vram_gb : W
  pub peak_vram_gb : W
  pub peak_vram_increase_gb : W
  pub model_weights_gb : W
  pub vllm_kv_cache_allocated_gb : W
  pub vllm_kv_cache_used_gb : W
  pub vllm_kv_blocks_total : ℕ
  pub vllm_kv_blocks_used : ℤ
  pub vllm_kv_usage_perc : W
  pub vllm_num_running : ℕ
  pub vllm_num_waiting : ℕ
  pub vllm_num_swapped : ℕ
  pub activation_tensors_gb : W
  pub cuda_runtime_gb : W
  pub cachegen_total_gb : W
  pub sum_validated_gb : W
  pub sum_diff_gb : W

-- The entry `vram_at_completion`.
pub record CompletionReport (W : Type 0) : Type 0 where
  pub used_vram_gb : W
  pub vllm_kv_usage_perc : W
  pub vllm_num_running : ℕ
  pub vllm_num_waiting : ℕ
  pub vllm_num_swapped : ℕ

pub record SweepReport (W : Type 0) : Type 0 where
  pub mode : List ℕ
  pub prefill_size : ℕ
  pub gpu_memory_utilization : List ℕ
  pub success : Bool
  pub latency : SweepRequest W
  pub vram : VramReport W
  pub vram_at_completion : CompletionReport W
  pub offloaded_size_mb : W

module _ {W : Type 0} ⦃f : Float W⦄ where
  unfoldable pub sweep_send_request : ℕ → W → PostOutcome W → SweepRequest W
  sweep_send_request prompt_tokens start (post_raised message) = sweep_failed message
  sweep_send_request prompt_tokens start (answered status text lines end_time) =
      let times = token_times lines in
      if status == 200
      then sweep_done (record {
        prompt_tokens = prompt_tokens;
        output_tokens = length times;
        ttft_sec = f.round (first_token start times) 4;
        ttlt_sec = f.round (end_time ⊖ start) 4;
      })
      else sweep_failed text

  abbrev pub sweep_succeeded : SweepRequest W → Bool
  sweep_succeeded (sweep_failed message) = false
  sweep_succeeded (sweep_done latency) = true

  unfoldable pub vram_report : Snapshot W → W → VramReport W
  vram_report s peak = record {
    idle_used_vram_gb = s.used_vram_gb;
    peak_vram_gb = s.used_vram_gb ⊕ peak;
    peak_vram_increase_gb = peak;
    model_weights_gb = s.model_weights_gb;
    vllm_kv_cache_allocated_gb = s.vllm_kv_cache_allocated_gb;
    vllm_kv_cache_used_gb = s.vllm_kv_cache_used_gb;
    vllm_kv_blocks_total = s.vllm_kv_blocks_total;
    vllm_kv_blocks_used = s.vllm_kv_blocks_used;
    vllm_kv_usage_perc = s.vllm_kv_usage_perc;
    vllm_num_running = s.vllm_num_running;
    vllm_num_waiting = s.vllm_num_waiting;
    vllm_num_swapped = s.vllm_num_swapped;
    activation_tensors_gb = s.activation_tensors_gb;
    cuda_runtime_gb = s.cuda_runtime_gb;
    cachegen_total_gb = s.cachegen_total_gb;
    sum_validated_gb = s.sum_validated_gb;
    sum_diff_gb = s.sum_diff_gb;
  }

  unfoldable pub completion_report : Snapshot W → CompletionReport W
  completion_report s = record {
    used_vram_gb = s.used_vram_gb;
    vllm_kv_usage_perc = s.vllm_kv_usage_perc;
    vllm_num_running = s.vllm_num_running;
    vllm_num_waiting = s.vllm_num_waiting;
    vllm_num_swapped = s.vllm_num_swapped;
  }
