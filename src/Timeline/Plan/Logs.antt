-- ===== src/Timeline/Plan/Logs.antt =====
-- The logs after a sweep of tkdgjs/experiment/run_full_sweep.py against the results that it saves.
use mathlib.Core.Path.{subst}
use mathlib.Core.Option.{some-injective}
use mathlib.Core.List.{append_assoc, append-nil}
use cachegen_plus.Base.{
  ℕ, ◌≡◌, refl, sym, ap, ◌∙◌, true, false, List, [], ◌∷◌, ◌++◌, map, Option, none, some,
  if◌then◌else◌, Bool-cases, Option-cases, inl, inr,
}
use cachegen_plus.Float.{Float}
use cachegen_plus.Timeline.Test.{Case, TestResult, World, TimelineAnswers, run_timeline_test}
use cachegen_plus.Timeline.Test.Samples.{
  sampled, sampled_oom, reported, reported_oom, Adds, run_timeline_test-Adds,
}
use cachegen_plus.Timeline.Plan.{
  SweepResult, timeline_file, is_experiment_done, write_file, save_test, visit_case, visit_cases,
  full_cases, begin_sweep, full_sweep,
}
use cachegen_plus.Timeline.Plan.Ends.{reread-done}

module _ (W : Type 0) ⦃f : Float W⦄ where
  -- The readings of the results whose tests were run, not those that were read again.
  abbrev pub logged : List (SweepResult W) → List (Case W × List ℕ × W)
  logged [] = []
  logged (e ∷ es) = (if e.typed then [] else reported W e.result) ++ logged es

  -- Their errors.
  abbrev pub logged_oom : List (SweepResult W) → List (Case W × List ℕ)
  logged_oom [] = []
  logged_oom (e ∷ es) = (if e.typed then [] else reported_oom W e.result) ++ logged_oom es

  abbrev Agree : World W × List (SweepResult W) → Type 0
  Agree (w, results) =
      (map (sampled W) w.vram_rows ≡ logged results)
      × (map (sampled_oom W) w.oom_rows ≡ logged_oom results)

  logged-append : (xs ys : List (SweepResult W)) → logged (xs ++ ys) ≡ logged xs ++ logged ys
  logged-append [] ys = refl
  logged-append (x ∷ xs) ys =
      rw (logged-append xs ys) (sym (append_assoc _ (logged xs) (logged ys)))

  logged_oom-append :
      (xs ys : List (SweepResult W)) → logged_oom (xs ++ ys) ≡ logged_oom xs ++ logged_oom ys
  logged_oom-append [] ys = refl
  logged_oom-append (x ∷ xs) ys =
      rw (logged_oom-append xs ys) (sym (append_assoc _ (logged_oom xs) (logged_oom ys)))

  reread-Agree :
      (w : World W) (results : List (SweepResult W)) (r : TestResult W)
      → Agree (w, results)
      → Agree (w, results ++ record { typed = true; result = r } ∷ [])
  reread-Agree w results r (rows, ooms) = (
    rows ∙ sym (logged-append results _ ∙ append-nil (logged results)),
    ooms ∙ sym (logged_oom-append results _ ∙ append-nil (logged_oom results)),
  )

  save_test-Agree :
      (c : Case W) (now : W) (w : World W) (results : List (SweepResult W))
      (t : World W × Option (TestResult W)) {left : List (SweepResult W)}
      → ((r : TestResult W) → t.1 ≡ some r → Adds W w (t.0, r))
      → Agree (w, results)
      → (save_test c now results t).1 ≡ some left
      → Agree ((save_test c now results t).0, left)
  unfolding write_file
  save_test-Agree c now w results (w1, none) adds agree ends = cc
  save_test-Agree c now w results (w1, some r) adds (rows, ooms) ends =
      let (more, more_ooms) = adds r refl in
      let one : List (SweepResult W) = record { typed = false; result = r } ∷ [] in
      rw (sym (some-injective _ _ ends)) (
        more
            ∙ ap (λ xs. xs ++ reported W r) rows
            ∙ sym (logged-append results one ∙ ap (λ xs. logged results ++ xs) (append-nil _)),
        more_ooms
            ∙ ap (λ xs. xs ++ reported_oom W r) ooms
            ∙ sym (
                logged_oom-append results one ∙ ap (λ xs. logged_oom results ++ xs) (append-nil _)),
      )

  visit_case-Agree :
      (c : Case W) (a : TimelineAnswers W) (w : World W) (results : List (SweepResult W))
      {left : List (SweepResult W)}
      → Agree (w, results)
      → (visit_case c a w results).1 ≡ some left
      → Agree ((visit_case c a w results).0, left)
  unfolding visit_case
  visit_case-Agree c a w results agree =
      elim (Bool-cases (is_experiment_done (w.files (timeline_file c)))) [
        | inl known ↦
            let (r, read) = reread-done W (w.files (timeline_file c)) known in
            rw (known, read results)
              λ ends.
                subst (λ rs. Agree (w, rs)) (some-injective _ _ ends)
                  (reread-Agree w results r agree)
        | inr fresh ↦ rw fresh (
            save_test-Agree c a.saved_at w results (run_timeline_test c a w)
              (λ r e. run_timeline_test-Adds W c a w e) agree)
      ]

  visit_cases-Agree :
      (machine : Case W → TimelineAnswers W) (cs : List (Case W)) (w : World W)
      (results : List (SweepResult W)) {left : List (SweepResult W)}
      → Agree (w, results)
      → (visit_cases machine cs w results).1 ≡ some left
      → Agree ((visit_cases machine cs w results).0, left)
  unfolding visit_cases
  visit_cases-Agree machine [] w results agree =
      λ ends. subst (λ rs. Agree (w, rs)) (some-injective _ _ ends) agree
  visit_cases-Agree machine (c ∷ cs) w results agree =
      let out = visit_case c (machine c) w results in
      elim (Option-cases out.1) [
        | inl raised ↦ rw raised (λ ends. let impossible = ends in cc impossible)
        | inr (results1, e) ↦ rw e (
            visit_cases-Agree machine cs out.0 results1
              (visit_case-Agree c (machine c) w results agree e))
      ]

  -- After a sweep that does not raise, the two logs belong to its results: the VRAM log has a line
  -- for each reading in the results of the tests that it ran, in their order, and the log of errors
  -- one for each of these results with an error. Lines of earlier sweeps, also those of the results
  -- that are read again, are gone.
  pub full_sweep-logs :
      (machine : Case W → TimelineAnswers W) (w : World W) {left : List (SweepResult W)}
      → (full_sweep machine w).1 ≡ some left
      → (map (sampled W) (full_sweep machine w).0.vram_rows ≡ logged left)
        × (map (sampled_oom W) (full_sweep machine w).0.oom_rows ≡ logged_oom left)
  unfolding full_sweep begin_sweep
  full_sweep-logs machine w ends =
      visit_cases-Agree machine full_cases (begin_sweep w) [] (refl, refl) ends
