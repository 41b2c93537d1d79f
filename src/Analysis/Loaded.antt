-- ===== src/Analysis/Loaded.antt =====
-- Timeline files that a sweep saved, as the analysis reads them.
use cachegen_plus.Base.{ℕ, ◌*◌, ◌≡◌, refl, List, [], ◌∷◌, map, some, length, length-append, arith}
use cachegen_plus.Float.{Float}
use cachegen_plus.Timeline.Test.{Case, TestResult, tested, not_ready, Line}
use cachegen_plus.Timeline.Plan.{timeline_lines}
use cachegen_plus.Analysis.{
  load_lines, load_all_results, case_in, csv_lines, csv_rows, stage_values,
}

module _ (W : Type 0) ⦃f : Float W⦄ where
  abbrev pub saved_lines : Case W × W × TestResult W → List (Line W)
  saved_lines (c, now, r) = timeline_lines c now r

  -- From the timeline files that `run_sweep` wrote, one after each test, `load_all_results` reads the
  -- results of the tests in the order of the files.
  pub load_all_results-saved :
      (saved : List (Case W × W × TestResult W))
      → load_all_results (map saved_lines saved) ≡ some (map (λ s. s.2) saved)
  unfolding load_all_results load_lines timeline_lines
  load_all_results-saved [] = refl
  load_all_results-saved ((c, now, r) ∷ saved) = rw (load_all_results-saved saved) refl

  csv_lines-length :
      (c : Case W) (rows : List (List ℕ × W)) → length (csv_lines c rows) ≡ length rows
  csv_lines-length c [] = refl
  csv_lines-length c ((stage, vram) ∷ rest) = omega (arith, csv_lines-length c rest)

  stage_values-length : (r : TestResult W) → length (stage_values r) ≡ 5
  unfolding stage_values
  stage_values-length (tested c v) = refl
  stage_values-length (not_ready c oom stage vram) = refl

  pub csv_rows-length : (rs : List (TestResult W)) → length (csv_rows rs) ≡ 5 * length rs
  unfolding csv_rows
  csv_rows-length [] = refl
  csv_rows-length (r ∷ rs) =
      let lines = csv_lines (case_in r) (stage_values r) in
      omega (
        arith,
        length-append lines (csv_rows rs),
        csv_lines-length (case_in r) (stage_values r),
        stage_values-length r,
        csv_rows-length rs,
      )
