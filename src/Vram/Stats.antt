-- ===== src/Vram/Stats.antt =====
-- `FullVRAMMonitorLoop.get_stats` of tkdgjs/experiment/run_vram_experiment.py.
pub mod Peak
use cachegen_plus.Base.{
  ℕ, zero, suc, Bool, List, [], ◌∷◌, map, Option, none, some, if◌then◌else◌, ◌>>=◌, length,
  get_elem?,
}
use cachegen_plus.Base.Int.{ℤ}
use cachegen_plus.Float.{Float, max_list}
use cachegen_plus.Vram.Measure.{VramSnapshot}
use cachegen_plus.Vram.Loop.{Sample, FullVramMonitorLoop}

pub record IdleStats (W : Type 0) : Type 0 where
  pub used_vram_gb : W
  pub torch_allocated_gb : W
  pub vllm_kv_blocks_total : ℤ
  pub vllm_kv_blocks_used : ℤ
  pub vllm_kv_cache_allocated_gb : W
  pub vllm_kv_cache_used_gb : W

pub record PeakStats (W : Type 0) : Type 0 where
  pub used_vram_gb : W
  pub torch_allocated_gb : W
  pub torch_peak_gb : W
  pub estimated_cachegen_buffer_gb : W
  pub peak_time_sec : W

pub record FinalStats (W : Type 0) : Type 0 where
  pub used_vram_gb : W
  pub torch_allocated_gb : W

pub record Stats (W : Type 0) : Type 0 where
  pub idle : IdleStats W
  pub peak : PeakStats W
  pub final : FinalStats W
  pub sample_count : ℕ

-- `samples[-1]`
abbrev pub last_of {ℓ} : {A : Type ℓ} → A → List A → A
last_of a [] = a
last_of a (b ∷ bs) = last_of b bs

module _ {W : Type 0} ⦃f : Float W⦄ where
  -- `values.index(v)`; `none` is a `ValueError`
  unfoldable pub index_of : W → List W → Option ℕ
  index_of v [] = none
  index_of v (x ∷ xs) =
      let later = index_of v xs in if f.eq x v then some 0 else later >>= λ i. some (suc i)

  -- The dict, from the maximum and the sample at its index.
  abbrev pub summary : VramSnapshot W → Sample W → List (Sample W) → W → Sample W → Stats W
  summary base first rest used at_peak = record {
    idle = record {
      used_vram_gb = base.used_vram_gb;
      torch_allocated_gb = base.torch_allocated_gb;
      vllm_kv_blocks_total = base.vllm_kv_blocks_total;
      vllm_kv_blocks_used = base.vllm_kv_blocks_used;
      vllm_kv_cache_allocated_gb = base.vllm_kv_cache_allocated_gb;
      vllm_kv_cache_used_gb = base.vllm_kv_cache_used_gb;
    };
    peak = record {
      used_vram_gb = used;
      torch_allocated_gb = max_list first.torch_allocated_gb (map (λ s. s.torch_allocated_gb) rest);
      torch_peak_gb = max_list first.torch_peak_gb (map (λ s. s.torch_peak_gb) rest);
      estimated_cachegen_buffer_gb =
          max_list first.estimated_cachegen_buffer_gb
            (map (λ s. s.estimated_cachegen_buffer_gb) rest);
      peak_time_sec = at_peak.elapsed_sec;
    };
    final = record {
      used_vram_gb = (last_of first rest).used_vram_gb;
      torch_allocated_gb = (last_of first rest).torch_allocated_gb;
    };
    sample_count = length (first ∷ rest);
  }

  -- `get_stats` on a list of samples that is not empty
  unfoldable pub stats_of : VramSnapshot W → Sample W → List (Sample W) → Option (Stats W)
  stats_of base first rest = do
    let samples = first ∷ rest
    let used = max_list first.used_vram_gb (map (λ s. s.used_vram_gb) rest)
    peak_idx ← index_of used (map (λ s. s.used_vram_gb) samples)
    at_peak ← get_elem? samples peak_idx
    some (summary base first rest used at_peak)

  abbrev pub stats_from : Option (VramSnapshot W) → List (Sample W) → Option (Option (Stats W))
  stats_from baseline [] = some none
  stats_from none (first ∷ rest) = none
  stats_from (some base) (first ∷ rest) = stats_of base first rest >>= λ s. some (some s)

  -- The outer `none` is an exception, `some none` the empty dict.
  unfoldable pub get_stats : FullVramMonitorLoop W → Option (Option (Stats W))
  get_stats l = stats_from l.baseline l.samples
