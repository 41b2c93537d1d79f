-- ===== src/Timeline/Plan/Servers.antt =====
-- The servers of a whole sweep of tkdgjs/experiment/run_full_sweep.py.
use cachegen_plus.Base.{
  ◌≡◌, refl, List, [], ◌∷◌, Option, none, some, Bool-cases, Option-cases, inl, inr,
}
use cachegen_plus.Float.{Float}
use cachegen_plus.Timeline.Test.{
  Case, TestResult, World, TimelineAnswers, cleanup_gpu, run_timeline_test,
}
use cachegen_plus.Timeline.Test.Servers.{timeline_alive, InTurn, Idle, run_timeline_test-Idle}
use cachegen_plus.Timeline.Plan.{
  SweepResult, timeline_file, is_experiment_done, write_file, save_test, visit_case, visit_cases,
  full_cases, begin_sweep, full_sweep,
}

module _ (W : Type 0) ⦃f : Float W⦄ where
  save_test-Idle :
      (c : Case W) (now : W) (results : List (SweepResult W)) (t : World W × Option (TestResult W))
      → Idle t.0.acts
      → Idle (save_test c now results t).0.acts
  unfolding write_file
  save_test-Idle c now results (w, none) idle = idle
  save_test-Idle c now results (w, some r) idle = idle

  visit_case-Idle :
      (c : Case W) (a : TimelineAnswers W) (w : World W) (results : List (SweepResult W))
      → Idle w.acts
      → Idle (visit_case c a w results).0.acts
  unfolding visit_case
  visit_case-Idle c a w results idle =
      elim (Bool-cases (is_experiment_done (w.files (timeline_file c)))) [
        | inl known ↦ rw known idle
        | inr fresh ↦ rw fresh (
            save_test-Idle c a.saved_at results (run_timeline_test c a w)
              (run_timeline_test-Idle W c a w idle.1))
      ]

  visit_cases-Idle :
      (machine : Case W → TimelineAnswers W) (cs : List (Case W)) (w : World W)
      (results : List (SweepResult W))
      → Idle w.acts
      → Idle (visit_cases machine cs w results).0.acts
  unfolding visit_cases
  visit_cases-Idle machine [] w results idle = idle
  visit_cases-Idle machine (c ∷ cs) w results idle =
      let out = visit_case c (machine c) w results in
      let idle' = visit_case-Idle c (machine c) w results idle in
      elim (Option-cases out.1) [
        | inl raised ↦ rw raised idle'
        | inr (results1, e) ↦ rw e (visit_cases-Idle machine cs out.0 results1 idle')
      ]

  -- Whatever servers a machine runs, if the acts before a sweep were in turn, those of the sweep are:
  -- each server is started and each cache directory is cleared when no server runs, each request is
  -- sent and each server killed when exactly one does. None runs at the end, also if the sweep raises.
  pub full_sweep-servers :
      (machine : Case W → TimelineAnswers W) (w : World W)
      → InTurn w.acts
      → let acts = (full_sweep machine w).0.acts in (timeline_alive acts ≡ 0) × InTurn acts
  unfolding full_sweep begin_sweep cleanup_gpu
  full_sweep-servers machine w fine =
      visit_cases-Idle machine full_cases (begin_sweep w) [] (refl, fine)
