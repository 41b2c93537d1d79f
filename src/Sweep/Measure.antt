-- ===== src/Sweep/Measure.antt =====
-- `VRAMSnapshot`, `FullVRAMMonitor.measure` and `set_baseline` of
-- tkdgjs/experiment/run_sweep_experiment.py.
pub mod Regions
use cachegen_plus.Base.{
  ℕ, Bool, true, false, ◌&&◌, Option, none, some, ltb, if◌then◌else◌, or_default,
}
use cachegen_plus.Base.Int.{ℤ, pos}
use cachegen_plus.Float.{Float, ◌⊕◌, ◌⊖◌, ◌⊗◌, max_of, min_of}
use cachegen_plus.Answer.{RunResult, HttpReply}
use cachegen_plus.Vram.Gpu.{GpuMemory, nvidia_smi_memory}
use cachegen_plus.Sweep.Kv.{SweepKvStats, VllmMetrics, sweep_kv_stats, vllm_metrics}

pub record Snapshot (W : Type 0) : Type 0 where
  pub total_vram_gb : W
  pub used_vram_gb : W
  pub free_vram_gb : W
  pub reserved_vram_gb : W
  pub model_weights_gb : W
  pub vllm_kv_cache_allocated_gb : W
  pub vllm_kv_blocks_total : ℕ
  pub vllm_kv_blocks_free : ℕ
  pub vllm_kv_blocks_used : ℤ
  pub vllm_kv_usage_ratio : W
  pub vllm_kv_cache_used_gb : W
  pub vllm_kv_usage_perc : W
  pub vllm_num_running : ℕ
  pub vllm_num_waiting : ℕ
  pub vllm_num_swapped : ℕ
  pub activation_tensors_gb : W
  pub cuda_runtime_gb : W
  pub cachegen_encoder_gb : W
  pub cachegen_decoder_gb : W
  pub cachegen_compressed_kv_gb : W
  pub cachegen_total_gb : W
  pub is_cachegen_mode : Bool
  pub sum_validated_gb : W
  pub sum_diff_gb : W
  pub elapsed_sec : W
  pub timestamp : W

-- What the machine answers during one call of `measure`: the metrics are asked for twice.
pub record SweepReadings : Type 0 where
  pub smi : RunResult
  pub kv_page : HttpReply
  pub metrics_page : HttpReply

-- The regions before the CacheGen buffers.
pub record BaseRegions (W : Type 0) : Type 0 where
  pub model : W
  pub cuda : W
  pub activation : W

pub record Buffers (W : Type 0) : Type 0 where
  pub encoder : W
  pub decoder : W
  pub compressed : W
  pub total : W

module _ {W : Type 0} ⦃f : Float W⦄ where
  abbrev pub weights_estimate : W
  weights_estimate = f.decimal 20 1

  abbrev pub cuda_estimate : W
  cuda_estimate = f.decimal 5 1

  -- The regions of the baseline, or two estimates and the rest, or nothing.
  unfoldable pub regions : Option (Snapshot W) → ℕ → W → W → BaseRegions W
  regions (some base) blocks used kv_used = record {
    model = base.model_weights_gb;
    cuda = base.cuda_runtime_gb;
    activation = base.activation_tensors_gb;
  }
  regions none blocks used kv_used =
      if ltb 0 blocks
      then record {
        model = weights_estimate;
        cuda = cuda_estimate;
        activation = max_of f.nought (used ⊖ kv_used ⊖ weights_estimate ⊖ cuda_estimate);
      }
      else record { model = f.nought; cuda = f.nought; activation = f.nought }

  abbrev pub no_buffers : Buffers W
  no_buffers = record {
    encoder = f.nought;
    decoder = f.nought;
    compressed = f.nought;
    total = f.nought;
  }

  -- The estimates for an increase of the used memory over the baseline.
  abbrev pub estimated_buffers : W → Buffers W
  estimated_buffers increase =
      let compressed = min_of (increase ⊗ f.decimal 5 1) (f.decimal 3 1) in
      record {
        encoder = f.decimal 8 2;
        decoder = f.decimal 6 2;
        compressed = compressed;
        total = f.decimal 8 2 ⊕ f.decimal 6 2 ⊕ compressed;
      }

  -- The buffers, and the CUDA runtime that is left when they are taken out of it.
  unfoldable pub take_buffers : Bool → Option (Snapshot W) → W → W → Buffers W × W
  take_buffers false baseline used cuda = (no_buffers, cuda)
  take_buffers true none used cuda = (no_buffers, cuda)
  take_buffers true (some base) used cuda =
      let increase = used ⊖ base.used_vram_gb in
      let buffers = estimated_buffers increase in
      if f.lt (f.decimal 1 1) increase
      then (buffers, max_of f.nought (cuda ⊖ buffers.total))
      else (no_buffers, cuda)

  -- The snapshot from the answers, already read.
  unfoldable pub sweep_snapshot :
      Option (Snapshot W) → Bool → GpuMemory W → SweepKvStats W → VllmMetrics W → Snapshot W
  sweep_snapshot baseline is_cachegen nvidia kv metrics =
      let r = regions baseline kv.blocks_total nvidia.used kv.used_gb in
      let (buffers, cuda) = take_buffers is_cachegen baseline nvidia.used r.cuda in
      let sum = r.model ⊕ kv.used_gb ⊕ r.activation ⊕ cuda ⊕ buffers.total in
      record {
        total_vram_gb = nvidia.total;
        used_vram_gb = nvidia.used;
        free_vram_gb = nvidia.free;
        reserved_vram_gb = nvidia.reserved;
        model_weights_gb = r.model;
        vllm_kv_cache_allocated_gb = kv.allocated_gb;
        vllm_kv_blocks_total = kv.blocks_total;
        vllm_kv_blocks_free = or_default 0 kv.blocks_free;
        vllm_kv_blocks_used = or_default (pos 0) kv.blocks_used;
        vllm_kv_usage_ratio = kv.usage_ratio;
        vllm_kv_cache_used_gb = kv.used_gb;
        vllm_kv_usage_perc = metrics.kv_usage_perc;
        vllm_num_running = metrics.num_running;
        vllm_num_waiting = metrics.num_waiting;
        vllm_num_swapped = metrics.num_swapped;
        activation_tensors_gb = r.activation;
        cuda_runtime_gb = cuda;
        cachegen_encoder_gb = buffers.encoder;
        cachegen_decoder_gb = buffers.decoder;
        cachegen_compressed_kv_gb = buffers.compressed;
        cachegen_total_gb = buffers.total;
        is_cachegen_mode = is_cachegen;
        sum_validated_gb = sum;
        sum_diff_gb = nvidia.used ⊖ sum;
        elapsed_sec = f.nought;
        timestamp = f.nought;
      }

  unfoldable pub sweep_measure : Option (Snapshot W) → Bool → SweepReadings → Snapshot W
  sweep_measure baseline is_cachegen r =
      sweep_snapshot baseline is_cachegen (nvidia_smi_memory r.smi) (sweep_kv_stats r.kv_page)
        (vllm_metrics r.metrics_page)

-- The fields of `FullVRAMMonitor`.
pub record SweepMonitor (W : Type 0) : Type 0 where
  pub port : ℕ
  pub is_cachegen : Bool
  pub baseline : Option (Snapshot W)

module _ {W : Type 0} ⦃f : Float W⦄ where
  unfoldable pub sweep_set_baseline : SweepMonitor W → SweepReadings → SweepMonitor W × Snapshot W
  sweep_set_baseline m r =
      let s = sweep_measure none m.is_cachegen r in (record m { baseline = some s }, s)
