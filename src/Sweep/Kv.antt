-- ===== src/Sweep/Kv.antt =====
-- `_get_vllm_kv_stats` and `_get_vllm_metrics` of tkdgjs/experiment/run_sweep_experiment.py.
pub mod Blocks
use Prim.Native.String.{String}
use cachegen_plus.Base.{
  ℕ, ◌*◌, ◌^◌, false, List, [], ◌∷◌, ◌++◌, Option, none, some, ◌==◌, if◌then◌else◌, ◌>>=◌,
  or_default,
}
use cachegen_plus.Base.Int.{ℤ, pos, ◌-ℤ◌, ◌*ℤ◌}
use cachegen_plus.Float.{Float, ◌⊘◌}
use cachegen_plus.Text.Pattern.{Piece, one, literal, search_first}
use cachegen_plus.Answer.{HttpReply, unreachable, reply}
use cachegen_plus.Vram.Kv.{
  quoted_number, spaced_number, decimal_digits, usage_pattern, number_or, float_or,
}

-- The dict of `_get_vllm_kv_stats`; three keys are missing from one of them.
pub record SweepKvStats (W : Type 0) : Type 0 where
  pub blocks_total : ℕ
  pub blocks_free : Option ℕ
  pub blocks_used : Option ℤ
  pub block_size : Option ℕ
  pub usage_ratio : W
  pub allocated_gb : W
  pub used_gb : W

-- The dict of `_get_vllm_metrics`.
pub record VllmMetrics (W : Type 0) : Type 0 where
  pub kv_usage_perc : W
  pub num_running : ℕ
  pub num_waiting : ℕ
  pub num_swapped : ℕ

-- `gpu_memory_utilization="(\d+\.?\d*)"`
abbrev pub utilization_pattern : List Piece
utilization_pattern =
    literal "gpu_memory_utilization="
    ++ one false (λ c. c == 34) ∷ decimal_digits
    ++ one false (λ c. c == 34) ∷ []

module _ {W : Type 0} ⦃f : Float W⦄ where
  -- The `try` block on a page; `none` is a `ValueError` of `float`.
  unfoldable pub sweep_page_stats : List ℕ → Option (SweepKvStats W)
  sweep_page_stats text = do
    gpu_util ← float_or (f.decimal 7 1) (search_first utilization_pattern text)
    let total = number_or 0 (search_first (quoted_number "num_gpu_blocks") text)
    let size = number_or 16 (search_first (quoted_number "block_size") text)
    ratio ← float_or f.nought (search_first usage_pattern text)
    let free = number_or 0 (search_first (quoted_number "num_gpu_blocks_free") text)
    let used = pos total -ℤ pos free
    some (record {
      blocks_total = total;
      blocks_free = some free;
      blocks_used = some used;
      block_size = some size;
      usage_ratio = ratio;
      allocated_gb = f.of_int (pos total *ℤ pos size) ⊘ f.of_int (pos (1024 * 1024));
      used_gb = f.of_int (used *ℤ pos size) ⊘ f.of_int (pos (1024 * 1024));
    })

  abbrev pub no_page : SweepKvStats W
  no_page = record {
    blocks_total = 0;
    blocks_free = none;
    blocks_used = none;
    block_size = none;
    usage_ratio = f.nought;
    allocated_gb = f.nought;
    used_gb = f.nought;
  }

  abbrev pub kv_error : SweepKvStats W
  kv_error = record no_page {
    blocks_free = some 0;
    blocks_used = some (pos 0);
    block_size = some 16;
  }

  unfoldable pub sweep_kv_stats : HttpReply → SweepKvStats W
  sweep_kv_stats unreachable = kv_error
  sweep_kv_stats (reply status text) =
      if status == 200 then or_default kv_error (sweep_page_stats text) else no_page

  abbrev pub no_metrics : VllmMetrics W
  no_metrics = record {
    kv_usage_perc = f.nought;
    num_running = 0;
    num_waiting = 0;
    num_swapped = 0;
  }

  unfoldable pub page_metrics : List ℕ → Option (VllmMetrics W)
  page_metrics text = do
    perc ← float_or f.nought (search_first usage_pattern text)
    some (record {
      kv_usage_perc = perc;
      num_running = number_or 0 (search_first (spaced_number "vllm:num_running_requests") text);
      num_waiting = number_or 0 (search_first (spaced_number "vllm:num_waiting_requests") text);
      num_swapped = number_or 0 (search_first (spaced_number "vllm:num_swapped_requests") text);
    })

  unfoldable pub vllm_metrics : HttpReply → VllmMetrics W
  vllm_metrics unreachable = no_metrics
  vllm_metrics (reply status text) =
      if status == 200 then or_default no_metrics (page_metrics text) else no_metrics
