-- ===== src/Timeline/Plan/Again.antt =====
-- A sweep of tkdgjs/experiment/run_full_sweep.py after one in which all went well.
use mathlib.Core.Path.{subst}
use mathlib.Core.List.{append-nil, append_assoc, map-append}
use mathlib.Core.Option.{some-injective}
use cachegen_plus.Base.{◌≡◌, refl, sym, ap, ◌∙◌, true, List, [], ◌∷◌, ◌++◌, map, Option, some, All}
use cachegen_plus.Float.{Float}
use cachegen_plus.Server.Paths.{same_codes_iff}
use cachegen_plus.Timeline.Test.{Case, World, TimelineAnswers}
use cachegen_plus.Timeline.Plan.{
  SweepResult, timeline_file, is_experiment_done, first_result, timeline_lines, write_file, reread,
  success_of, visit_case, visit_cases, full_cases, begin_sweep, full_sweep,
}
use cachegen_plus.Timeline.Plan.Done.{
  succeeds, is_done, Visit, skipped, raised, wrote, visit_case-Visit,
}
use cachegen_plus.Timeline.Plan.Kept.{visit_cases-keeps}
use cachegen_plus.Timeline.Plan.Ends.{Clearable, reread-done, Visit-Ends, full_sweep-length}

module _ (W : Type 0) ⦃f : Float W⦄ where
  -- A result as it is read from its file.
  abbrev pub as_read : SweepResult W → SweepResult W
  as_read e = record { typed = true; result = e.result }

  -- What is read from the files of some combinations.
  abbrev reads : World W → List (Case W) → List (SweepResult W)
  reads w [] = []
  reads w (c ∷ cs) = reread (w.files (timeline_file c)) [] ++ reads w cs

  -- Combinations that are done are only read.
  visit_cases-done :
      (machine : Case W → TimelineAnswers W) (cs : List (Case W)) (w : World W)
      (results : List (SweepResult W))
      → All (λ (c : Case W). is_done W w (timeline_file c) ≡ true) cs
      → visit_cases machine cs w results ≡ (w, some (results ++ reads w cs))
  unfolding visit_cases visit_case
  visit_cases-done machine [] w results all = rw append-nil refl
  visit_cases-done machine (c ∷ cs) w results (known, all) =
      let (r, read) = reread-done W (w.files (timeline_file c)) known in
      rw (known, read results, read [])
        (visit_cases-done machine cs w _ all
          ∙ ap (λ rs. (w, some rs)) (append_assoc results _ (reads w cs)))

  Visit-read :
      {c : Case W} {a : TimelineAnswers W} {w : World W} {results left : List (SweepResult W)}
      {out : World W × Option (List (SweepResult W))}
      → Visit W c a w results out
      → succeeds W c a ≡ true
      → out.1 ≡ some left
      → (is_done W out.0 (timeline_file c) ≡ true)
        × (map as_read left ≡ map as_read results ++ reread (out.0.files (timeline_file c)) [])
  unfolding write_file timeline_lines first_result is_experiment_done
  Visit-read {c} {w = w} {results} {left} {out} (skipped known e) well ends =
      let (r, read) = reread-done W (w.files (timeline_file c)) known in
      let same = ap (λ o. o.0.files (timeline_file c)) e in
      let all : left ≡ results ++ record { typed = true; result = r } ∷ [] =
        some-injective _ _ (sym ends ∙ ap (λ o. o.1) e ∙ ap some (read results)) in
      (ap is_experiment_done same ∙ known, rw (all, same, read []) (map-append as_read results _))
  Visit-read (raised _ _ _ e) well ends = let impossible = sym e ∙ ends in cc
  Visit-read {c} {a} {w} {results} {left} (wrote r fresh e same stored) well ends =
      let own = (same_codes_iff (timeline_file c) (timeline_file c)).1 refl in
      let there = ap (λ files. files (timeline_file c)) same in
      let all = some-injective _ _ (sym ends ∙ stored) in
      (
        ap is_experiment_done there ∙ rw own (sym (ap success_of e) ∙ well),
        rw (all, there, own) (map-append as_read results _),
      )

  visit_cases_next :
      (machine : Case W → TimelineAnswers W) (c : Case W) (cs : List (Case W)) (w : World W)
      (results : List (SweepResult W)) {results1 : List (SweepResult W)}
      → (visit_case c (machine c) w results).1 ≡ some results1
      → visit_cases machine (c ∷ cs) w results
        ≡ visit_cases machine cs (visit_case c (machine c) w results).0 results1
  unfolding visit_cases
  visit_cases_next machine c cs w results e = rw e refl

  -- After the sweep of some combinations all are done, and the results are those of the files.
  abbrev Reads :
      List (Case W) → List (SweepResult W) → World W × Option (List (SweepResult W)) → Type 0
  Reads cs results out =
      (left : List (SweepResult W))
      → out.1 ≡ some left
      → All (λ (c : Case W). is_done W out.0 (timeline_file c) ≡ true) cs
        × (map as_read left ≡ map as_read results ++ reads out.0 cs)

  visit_cases-Reads :
      (machine : Case W → TimelineAnswers W) (cs : List (Case W)) (w : World W)
      (results : List (SweepResult W))
      → ((c : Case W) → Clearable W (machine c))
      → All (λ (c : Case W). succeeds W c (machine c) ≡ true) cs
      → Reads cs results (visit_cases machine cs w results)
  unfolding visit_cases
  visit_cases-Reads machine [] w results clear wells =
      λ left ends. (tt, rw (sym (some-injective _ _ ends), append-nil) refl)
  visit_cases-Reads machine (c ∷ cs) w results clear (well, wells) =
      let out = visit_case c (machine c) w results in
      let v = visit_case-Visit W c (machine c) w results in
      let (results1, e) = Visit-Ends W v (clear c) in
      subst (Reads (c ∷ cs) results) (sym (visit_cases_next machine c cs w results e)) λ left ends.
        let (known, first) = Visit-read v well e in
        let (all, rest) = visit_cases-Reads machine cs out.0 results1 clear wells left ends in
        let last = (visit_cases machine cs out.0 results1).0 in
        let kept = visit_cases-keeps W machine cs out.0 results1 (timeline_file c) known in
        (
          (ap is_experiment_done kept ∙ known, all),
          rest
              ∙ ap (λ rs. rs ++ reads last cs) first
              ∙ append_assoc (map as_read results) _ _
              ∙ rw kept refl,
        )

  -- If the cache directory of each test can be cleared and each test would succeed, then the sweep
  -- returns its results, and a second sweep, on any machine, runs no test and returns the same
  -- results as they are read from the timeline files, each with its key "type".
  pub full_sweep-again :
      (machine other : Case W → TimelineAnswers W) (w : World W)
      → ((c : Case W) → Clearable W (machine c))
      → All (λ (c : Case W). succeeds W c (machine c) ≡ true) full_cases
      → (left : List (SweepResult W)) × ((full_sweep machine w).1 ≡ some left)
        × (full_sweep other (full_sweep machine w).0
            ≡ (begin_sweep (full_sweep machine w).0, some (map as_read left)))
  unfolding full_sweep begin_sweep
  full_sweep-again machine other w clear wells =
      let (left, ends, _) = full_sweep-length W machine w clear in
      let (all, same) =
        visit_cases-Reads machine full_cases (begin_sweep w) [] clear wells left ends in
      (
        left,
        ends,
        visit_cases-done other full_cases (begin_sweep (full_sweep machine w).0) [] all
            ∙ ap (λ rs. (begin_sweep (full_sweep machine w).0, some rs)) (sym same),
      )
