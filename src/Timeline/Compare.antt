-- ===== src/Timeline/Compare.antt =====
-- The summary that `run_sweep` of tkdgjs/experiment/run_full_sweep.py prints. An exception is `none`.
pub mod Shown
use cachegen_plus.Base.{
  ℕ, Bool, true, false, ◌&&◌, List, [], ◌∷◌, Option, none, some, if◌then◌else◌, ◌>>=◌, length,
}
use cachegen_plus.Base.Int.{pos}
use cachegen_plus.Float.{Float, ◌⊕◌, ◌⊘◌}
use cachegen_plus.Text.{codes}
use cachegen_plus.Server.{same_codes}
use cachegen_plus.Timeline.Test.{TestValues, TestResult, tested, not_ready}
use cachegen_plus.Timeline.Plan.{SweepResult, succeeded}

-- The averages of both modes, native first.
pub record Averages (W : Type 0) : Type 0 where
  pub avg_latency_nat : W
  pub avg_latency_cge : W
  pub avg_offload_nat : W
  pub avg_offload_cge : W
  pub avg_ratio_nat : W
  pub avg_ratio_cge : W

module _ {W : Type 0} where
  abbrev pub mode_of : TestResult W → List ℕ
  mode_of (tested c v) = c.mode
  mode_of (not_ready c oom stage vram) = c.mode

  -- `[r for r in results if r["mode"] == mode and r.get("success")]`
  unfoldable pub successes_of : List ℕ → List (SweepResult W) → List (TestResult W)
  successes_of mode [] = []
  successes_of mode (e ∷ es) =
      let rest = successes_of mode es in
      if same_codes (mode_of e.result) mode && succeeded e.result then e.result ∷ rest else rest

  -- `r[key]` of one of the values that only a test whose server answered has
  abbrev pub value_at : (TestValues W → W) → TestResult W → Option W
  value_at field (tested c v) = some (field v)
  value_at field (not_ready c oom stage vram) = none

module _ {W : Type 0} ⦃f : Float W⦄ where
  -- `sum(r[key] for r in results)`, from a start
  unfoldable pub sum_from : (TestValues W → W) → W → List (TestResult W) → Option W
  sum_from field total [] = some total
  sum_from field total (r ∷ rs) = value_at field r >>= λ x. sum_from field (total ⊕ x) rs

  abbrev pub average : (TestValues W → W) → List (TestResult W) → Option W
  average field rs =
      sum_from field (f.of_int (pos 0)) rs >>= λ total. some (total ⊘ f.of_int (pos (length rs)))

  abbrev pub averages : List (TestResult W) → List (TestResult W) → Option (Averages W)
  averages nat cge = average (λ v. v.latency_sec) nat >>= λ latency_nat.
      average (λ v. v.latency_sec) cge >>= λ latency_cge.
      average (λ v. v.disk_offload_mb) nat >>= λ offload_nat.
      average (λ v. v.disk_offload_mb) cge >>= λ offload_cge.
      average (λ v. v.compression_ratio) nat >>= λ ratio_nat.
      average (λ v. v.compression_ratio) cge >>= λ ratio_cge. some (record {
        avg_latency_nat = latency_nat;
        avg_latency_cge = latency_cge;
        avg_offload_nat = offload_nat;
        avg_offload_cge = offload_cge;
        avg_ratio_nat = ratio_nat;
        avg_ratio_cge = ratio_cge;
      })

  -- `if native_results and cachegen_results`; the inner `none` prints nothing.
  abbrev pub table_of : List (TestResult W) → List (TestResult W) → Option (Option (Averages W))
  table_of [] cge = some none
  table_of (n ∷ nat) [] = some none
  table_of (n ∷ nat) (c ∷ cge) = averages (n ∷ nat) (c ∷ cge) >>= λ table. some (some table)

  unfoldable pub compare_modes : List (SweepResult W) → Option (Option (Averages W))
  compare_modes results =
      table_of (successes_of (codes "native") results) (successes_of (codes "cachegen") results)
