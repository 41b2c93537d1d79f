-- ===== src/Complete/Graph.antt =====
-- The numbers that `create_breakdown_graph` draws and `send_email` sends, in
-- tkdgjs/experiment/run_sweep_complete.py. `np.mean` is an argument.
pub mod Drawn
pub mod Axis
use cachegen_plus.Base.{
  ℕ, Bool, List, [], ◌∷◌, ◌&&◌, map, Option, none, some, ltb, ◌==◌, if◌then◌else◌, ◌>>=◌, length,
}
use cachegen_plus.Float.{Float, ◌⊖◌, ◌⊘◌}
use cachegen_plus.Text.{codes}
use cachegen_plus.Server.{same_codes}
use cachegen_plus.Complete.Run.{RunRecord}

-- `sorted(list(set(values)))`
unfoldable pub insert_new : ℕ → List ℕ → List ℕ
insert_new n [] = n ∷ []
insert_new n (m ∷ ms) =
    let rest = insert_new n ms in
    if n == m then m ∷ ms else if ltb n m then n ∷ m ∷ ms else m ∷ rest

unfoldable pub sorted_set : List ℕ → List ℕ
sorted_set [] = []
sorted_set (n ∷ ns) = insert_new n (sorted_set ns)

-- The bars of the first three plots at one number of tokens.
pub record Bars (W : Type 0) : Type 0 where
  pub native_vram : Option W
  pub cachegen_vram : Option W
  pub diff : Option W
  pub native_disk : W
  pub cachegen_disk : W

module _ {W : Type 0} ⦃f : Float W⦄ where
  -- `[r for r in results if r['tokens'] == tokens and r['gpu_memory'] == 0.5 and r['mode'] == mode]`
  unfoldable pub chosen : List ℕ → ℕ → List (RunRecord W) → List (RunRecord W)
  chosen mode tokens [] = []
  chosen mode tokens (r ∷ rs) =
      let rest = chosen mode tokens rs in
      if r.tokens == tokens && f.eq r.gpu_memory (f.decimal 5 1) && same_codes r.mode mode
      then r ∷ rest
      else rest

  -- `n[0]['vram_after'] if n else 0`
  abbrev pub vram_bar : List (RunRecord W) → Option W
  vram_bar [] = some f.nought
  vram_bar (r ∷ rs) = r.vram_after

  abbrev pub disk_bar : List (RunRecord W) → W
  disk_bar [] = f.nought
  disk_bar (r ∷ rs) = r.disk_size_mb

  -- `c[0]['vram_after'] - n[0]['vram_after']`, or 0; `none` is a `TypeError`
  abbrev pub difference : List (RunRecord W) → List (RunRecord W) → Option W
  difference (n ∷ ns) (c ∷ cs) = do
    cachegen ← c.vram_after
    native ← n.vram_after
    some (cachegen ⊖ native)
  difference _ _ = some f.nought

  unfoldable pub bars_at : List (RunRecord W) → ℕ → Bars W
  bars_at results tokens =
      let n = chosen (codes "native") tokens results in
      let c = chosen (codes "cachegen") tokens results in
      record {
        native_vram = vram_bar n;
        cachegen_vram = vram_bar c;
        diff = difference n c;
        native_disk = disk_bar n;
        cachegen_disk = disk_bar c;
      }

  unfoldable pub graph_bars : List (RunRecord W) → List (Bars W)
  graph_bars results = map (bars_at results) (sorted_set (map (λ r. r.tokens) results))

-- The statistics of the fourth plot and of the mail.
pub record SweepStats (W : Type 0) : Type 0 where
  pub avg_native_vram : W
  pub avg_cachegen_vram : W
  pub avg_native_disk : W
  pub avg_cachegen_disk : W
  pub compression_ratio : W

module _ {W : Type 0} ⦃f : Float W⦄ (mean : List W → W) where
  abbrev pub of_mode : List ℕ → List (RunRecord W) → List (RunRecord W)
  of_mode mode [] = []
  of_mode mode (r ∷ rs) =
      let rest = of_mode mode rs in if same_codes r.mode mode then r ∷ rest else rest

  abbrev pub measured_values : List (RunRecord W) → Option (List W)
  measured_values [] = some []
  measured_values (r ∷ rs) = do gb ← r.vram_after; rest ← measured_values rs; some (gb ∷ rest)

  -- `np.mean(values) if values else 0`
  abbrev pub mean_or : List W → W
  mean_or [] = f.nought
  mean_or (x ∷ xs) = mean (x ∷ xs)

  -- `none` is a `TypeError` of `np.mean` on a `None`.
  unfoldable pub sweep_stats : List (RunRecord W) → Option (SweepStats W)
  sweep_stats results = do
    let native = of_mode (codes "native") results
    let cachegen = of_mode (codes "cachegen") results
    native_vram ← measured_values native
    cachegen_vram ← measured_values cachegen
    let native_disk = mean_or (map (λ r. r.disk_size_mb) native)
    let cachegen_disk = mean_or (map (λ r. r.disk_size_mb) cachegen)
    some (record {
      avg_native_vram = mean_or native_vram;
      avg_cachegen_vram = mean_or cachegen_vram;
      avg_native_disk = native_disk;
      avg_cachegen_disk = cachegen_disk;
      compression_ratio =
          if f.lt f.nought cachegen_disk then native_disk ⊘ cachegen_disk else f.nought;
    })
