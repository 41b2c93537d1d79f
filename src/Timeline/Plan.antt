-- ===== src/Timeline/Plan.antt =====
-- `is_experiment_done` and `run_sweep` of tkdgjs/experiment/run_full_sweep.py.
pub mod Done
pub mod Kept
pub mod Ends
pub mod Again
pub mod Servers
pub mod Logs
use cachegen_plus.Base.{
  ℕ, Bool, true, false, List, [], ◌∷◌, ◌++◌, map, Option, none, some, if◌then◌else◌,
}
use cachegen_plus.Float.{Float}
use cachegen_plus.Text.{codes}
use cachegen_plus.Server.{same_codes, experiment_dir}
use cachegen_plus.Timeline.Test.{
  Case, TestValues, TestResult, tested, not_ready, Line, garbled, result_line, metadata_line,
  TimelineAct, paused, World, TimelineAnswers, cleanup_gpu, run_timeline_test,
}

-- An entry of `results`: one that is read from a file has the key "type" too.
pub record SweepResult (W : Type 0) : Type 0 where
  pub typed : Bool
  pub result : TestResult W

module _ {W : Type 0} where
  unfoldable pub timeline_file : Case W → List ℕ
  timeline_file c =
      experiment_dir
      ++ codes "/timeline_"
      ++ c.mode
      ++ codes "_p"
      ++ c.prefill_text
      ++ codes "_gm"
      ++ c.gpu_text
      ++ codes ".jsonl"

  -- `data.get("success", False)`
  abbrev pub succeeded : TestResult W → Bool
  succeeded (tested c v) = v.success
  succeeded (not_ready c oom stage vram) = false

  -- The loop over the lines up to the first result line, where a text that is no JSON raises.
  unfoldable pub first_result : List (Line W) → Option (TestResult W)
  first_result [] = none
  first_result (garbled ∷ lines) = none
  first_result (metadata_line c now ∷ lines) = first_result lines
  first_result (result_line r ∷ lines) = some r

  abbrev pub success_of : Option (TestResult W) → Bool
  success_of none = false
  success_of (some r) = succeeded r

  -- `is_experiment_done`, from what is found at the path
  unfoldable pub is_experiment_done : Option (List (Line W)) → Bool
  is_experiment_done none = false
  is_experiment_done (some lines) = success_of (first_result lines)

  -- The results with that of a file read again, if there is one.
  abbrev pub append_read : Option (TestResult W) → List (SweepResult W) → List (SweepResult W)
  append_read none results = results
  append_read (some r) results = results ++ record { typed = true; result = r } ∷ []

  abbrev pub reread : Option (List (Line W)) → List (SweepResult W) → List (SweepResult W)
  reread none results = results
  reread (some lines) results = append_read (first_result lines) results

  -- The file of a test: its metadata and its result.
  unfoldable pub timeline_lines : Case W → W → TestResult W → List (Line W)
  timeline_lines c now r = metadata_line c now ∷ result_line r ∷ []

  unfoldable pub write_file : List ℕ → List (Line W) → World W → World W
  write_file path lines w = record w {
    files = λ other. if same_codes other path then some lines else w.files other;
  }

  -- What follows a test.
  abbrev pub save_test :
      Case W
      → W
      → List (SweepResult W)
      → World W × Option (TestResult W)
      → World W × Option (List (SweepResult W))
  save_test c now results (w, none) = (w, none)
  save_test c now results (w, some r) =
      let w1 = write_file (timeline_file c) (timeline_lines c now r) w in
      (
        record w1 { acts = paused 3 ∷ w1.acts },
        some (results ++ record { typed = false; result = r } ∷ []),
      )

abbrev pub full_prefill_sizes : List (ℕ × List ℕ)
full_prefill_sizes =
    (128, codes "128")
    ∷ (256, codes "256")
    ∷ (512, codes "512")
    ∷ (1024, codes "1024")
    ∷ (2048, codes "2048")
    ∷ []

module _ {W : Type 0} ⦃f : Float W⦄ where
  -- The body of the innermost loop; `none` is an exception.
  unfoldable pub visit_case :
      Case W
      → TimelineAnswers W
      → World W
      → List (SweepResult W)
      → World W × Option (List (SweepResult W))
  visit_case c a w results =
      if is_experiment_done (w.files (timeline_file c))
      then (w, some (reread (w.files (timeline_file c)) results))
      else save_test c a.saved_at results (run_timeline_test c a w)

  abbrev pub after_visit :
      World W × Option (List (SweepResult W))
      → (World W → List (SweepResult W) → World W × Option (List (SweepResult W)))
      → World W × Option (List (SweepResult W))
  after_visit (w, none) next = (w, none)
  after_visit (w, some results) next = next w results

  -- The loops, over the combinations that are left.
  unfoldable pub visit_cases :
      (Case W → TimelineAnswers W)
      → List (Case W)
      → World W
      → List (SweepResult W)
      → World W × Option (List (SweepResult W))
  visit_cases machine [] w results = (w, some results)
  visit_cases machine (c ∷ cs) w results =
      after_visit (visit_case c (machine c) w results)
        (λ w1 results1. visit_cases machine cs w1 results1)

  abbrev pub gpu_util_values : List (W × List ℕ)
  gpu_util_values =
      (f.decimal 3 1, codes "0.3")
      ∷ (f.decimal 5 1, codes "0.5")
      ∷ (f.decimal 7 1, codes "0.7")
      ∷ (f.decimal 9 1, codes "0.9")
      ∷ []

  abbrev pub case_of : W × List ℕ → ℕ × List ℕ → List ℕ → Case W
  case_of util size mode = record {
    mode = mode;
    prefill_size = size.0;
    gpu_util = util.0;
    prefill_text = size.1;
    gpu_text = util.1;
  }

  abbrev pub cases_of_sizes : W × List ℕ → List (ℕ × List ℕ) → List (Case W)
  cases_of_sizes util [] = []
  cases_of_sizes util (size ∷ sizes) =
      case_of util size (codes "native")
      ∷ case_of util size (codes "cachegen")
      ∷ cases_of_sizes util sizes

  abbrev pub cases_of_utils : List (W × List ℕ) → List (Case W)
  cases_of_utils [] = []
  cases_of_utils (util ∷ utils) = cases_of_sizes util full_prefill_sizes ++ cases_of_utils utils

  -- The combinations in the order of the three loops.
  unfoldable pub full_cases : List (Case W)
  full_cases = cases_of_utils gpu_util_values

  -- Before the loops, both logs are removed.
  unfoldable pub begin_sweep : World W → World W
  begin_sweep w = record w { acts = paused 2 ∷ cleanup_gpu w.acts; vram_rows = []; oom_rows = [] }

  -- `run_sweep` up to the two summary files, which both hold the results.
  unfoldable pub full_sweep :
      (Case W → TimelineAnswers W) → World W → World W × Option (List (SweepResult W))
  full_sweep machine w = visit_cases machine full_cases (begin_sweep w) []
