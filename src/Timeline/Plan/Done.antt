-- ===== src/Timeline/Plan/Done.antt =====
-- Which experiments are done after a sweep of tkdgjs/experiment/run_full_sweep.py.

use cachegen_plus.Base.{
  ℕ, ◌≡◌, refl, sym, ap, Bool, true, false, List, [], ◌∷◌, ◌++◌, if◌then◌else◌, Option, none, some,
  Bool-cases, inl, inr,
}
use cachegen_plus.Float.{Float}
use cachegen_plus.Server.{same_codes}
use cachegen_plus.Disk.{Node}
use cachegen_plus.Timeline.Probe.{clear_disk_cache}
use cachegen_plus.Timeline.Test.{
  Case, TestResult, World, TimelineAnswers, server_ready, after_clear, run_timeline_test,
  log_oom_event, Reading,
}
use cachegen_plus.Timeline.Plan.{
  SweepResult, timeline_file, success_of, is_experiment_done, timeline_lines, write_file, reread,
  save_test, visit_case,
}

module _ (W : Type 0) ⦃f : Float W⦄ where
  -- A machine on which nothing was done yet.
  abbrev pub new_world : World W
  new_world = record { acts = []; vram_rows = []; oom_rows = []; files = λ path. none }

  -- The test of a case returns, with success.
  abbrev pub succeeds : Case W → TimelineAnswers W → Bool
  succeeds c a = success_of (run_timeline_test c a new_world).1

  abbrev pub is_done : World W → List ℕ → Bool
  is_done w path = is_experiment_done (w.files path)

  log_oom_event-files :
      (c : Case W) (r : Reading W) (found : Bool × List ℕ) (w : World W)
      → (log_oom_event c r found w).files ≡ w.files
  log_oom_event-files c r (true, stage) w = refl
  log_oom_event-files c r (false, stage) w = refl

  -- A test leaves the timeline files alone, and its result does not depend on the state.
  after_clear-files :
      (c : Case W) (a : TimelineAnswers W) (w : World W) (left : Option Node)
      → (after_clear c a w left).0.files ≡ w.files
  after_clear-files c a w none = refl
  after_clear-files c a w (some left) = elim (Bool-cases (server_ready a)) [
    | inl up ↦ rw up (log_oom_event-files c a.at_oom _ _)
    | inr down ↦ rw down (log_oom_event-files c a.at_oom _ _)
  ]

  after_clear-result :
      (c : Case W) (a : TimelineAnswers W) (w other : World W) (left : Option Node)
      → (after_clear c a w left).1 ≡ (after_clear c a other left).1
  after_clear-result c a w other none = refl
  after_clear-result c a w other (some left) = elim (Bool-cases (server_ready a)) [
    | inl up ↦ rw up refl
    | inr down ↦ rw down refl
  ]

  pub run_timeline_test-files :
      (c : Case W) (a : TimelineAnswers W) (w : World W)
      → (run_timeline_test c a w).0.files ≡ w.files
  unfolding run_timeline_test
  run_timeline_test-files c a w = after_clear-files c a _ (clear_disk_cache a.disk_found)

  pub run_timeline_test-result :
      (c : Case W) (a : TimelineAnswers W) (w other : World W)
      → (run_timeline_test c a w).1 ≡ (run_timeline_test c a other).1
  unfolding run_timeline_test
  run_timeline_test-result c a w other = after_clear-result c a _ _ (clear_disk_cache a.disk_found)

  -- What a visit comes to: the result is read again, the test raises, or its result is written.
  pub data Visit (c : Case W) (a : TimelineAnswers W) (w : World W) (results : List (SweepResult W))
      (out : World W × Option (List (SweepResult W))) : Type 0 where
    skipped :
        is_done w (timeline_file c) ≡ true
        → out ≡ (w, some (reread (w.files (timeline_file c)) results))
        → Visit c a w results out
    raised :
        is_done w (timeline_file c) ≡ false
        → (run_timeline_test c a new_world).1 ≡ none
        → out.0.files ≡ w.files
        → out.1 ≡ none
        → Visit c a w results out
    wrote :
        (r : TestResult W)
        → is_done w (timeline_file c) ≡ false
        → (run_timeline_test c a new_world).1 ≡ some r
        → out.0.files ≡ (write_file (timeline_file c) (timeline_lines c a.saved_at r) w).files
        → out.1 ≡ some (results ++ record { typed = false; result = r } ∷ [])
        → Visit c a w results out

  save_test-Visit :
      (c : Case W) (a : TimelineAnswers W) (w : World W) (results : List (SweepResult W))
      (t : World W × Option (TestResult W))
      → is_done w (timeline_file c) ≡ false
      → t.0.files ≡ w.files
      → t.1 ≡ (run_timeline_test c a new_world).1
      → Visit c a w results (save_test c a.saved_at results t)
  unfolding write_file
  save_test-Visit c a w results (w1, none) fresh same e = raised fresh (sym e) same refl
  save_test-Visit c a w results (w1, some r) fresh same e =
      wrote r fresh (sym e)
        (ap
          (λ files path.
            if same_codes path (timeline_file c)
            then some (timeline_lines c a.saved_at r)
            else files path)
          same)
        refl

  pub visit_case-Visit :
      (c : Case W) (a : TimelineAnswers W) (w : World W) (results : List (SweepResult W))
      → Visit c a w results (visit_case c a w results)
  unfolding visit_case
  visit_case-Visit c a w results = elim (Bool-cases (is_done w (timeline_file c))) [
    | inl known ↦ rw known (skipped known refl)
    | inr fresh ↦ rw fresh (
        save_test-Visit c a w results (run_timeline_test c a w) fresh
          (run_timeline_test-files c a w) (run_timeline_test-result c a w new_world))
  ]
