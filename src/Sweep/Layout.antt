-- ===== src/Sweep/Layout.antt =====
-- `to_layout_dict` and the bars of `print_layout` of tkdgjs/experiment/run_sweep_experiment.py.
pub mod Total
use cachegen_plus.Base.{ℕ, List, [], ◌∷◌, if◌then◌else◌}
use cachegen_plus.Base.Int.{ℤ, pos, ◌-ℤ◌}
use cachegen_plus.Float.{Float, ◌⊗◌, ◌⊘◌, max_of}
use cachegen_plus.Text.{codes}
use cachegen_plus.Sweep.Measure.{Snapshot}

-- A printed line: the name, the GB, the filled and the empty part of the bar, the percentage.
pub record Bar (W : Type 0) : Type 0 where
  pub name : List ℕ
  pub gb : W
  pub bar_len : ℤ
  pub empty_len : ℤ
  pub pct : W

module _ {W : Type 0} ⦃f : Float W⦄ where
  unfoldable pub to_layout_dict : Snapshot W → List (List ℕ × W)
  to_layout_dict s =
      (codes "Model Weights", s.model_weights_gb)
      ∷ (codes "KV Cache (Allocated)", s.vllm_kv_cache_allocated_gb)
      ∷ (codes "KV Cache (Used)", s.vllm_kv_cache_used_gb)
      ∷ (codes "Activation Tensors", s.activation_tensors_gb)
      ∷ (codes "CUDA Runtime", s.cuda_runtime_gb)
      ∷ (if s.is_cachegen_mode
          then (codes "CacheGen Encoder", s.cachegen_encoder_gb)
            ∷ (codes "CacheGen Decoder", s.cachegen_decoder_gb)
            ∷ (codes "CacheGen Compressed KV", s.cachegen_compressed_kv_gb)
            ∷ []
          else [])

  unfoldable pub bar_of : W → List ℕ → W → Bar W
  bar_of used name gb =
      let n = f.trunc (gb ⊘ max_of used (f.decimal 1 1) ⊗ f.of_int (pos 30)) in
      record {
        name = name;
        gb = gb;
        bar_len = n;
        empty_len = pos 30 -ℤ n;
        pct = if f.lt f.nought used then gb ⊘ used ⊗ f.of_int (pos 100) else f.nought;
      }

  -- The loop of `print_layout`, which leaves out the small regions.
  unfoldable pub layout_bars : W → List (List ℕ × W) → List (Bar W)
  layout_bars used [] = []
  layout_bars used ((name, gb) ∷ rest) =
      let bars = layout_bars used rest in
      if f.lt (f.decimal 1 3) gb then bar_of used name gb ∷ bars else bars

  unfoldable pub print_layout : Snapshot W → List (Bar W)
  print_layout s = layout_bars s.used_vram_gb (to_layout_dict s)
