-- ===== src/Timeline/Plan/Kept.antt =====
-- What a sweep of tkdgjs/experiment/run_full_sweep.py keeps and what it adds to the done experiments.
use mathlib.Core.Bool.{or-false}
use cachegen_plus.Base.{
  ℕ, ◌≡◌, refl, sym, ap, ◌∙◌, Bool, true, false, ◌&&◌, ◌||◌, List, [], ◌∷◌, Option, some,
  Bool-cases, Option-cases, inl, inr, if◌then◌else◌,
}
use cachegen_plus.Float.{Float}
use cachegen_plus.Server.{same_codes}
use cachegen_plus.Server.Paths.{same_codes_iff}
use cachegen_plus.Timeline.Test.{Case, TestResult, Line, World, TimelineAnswers}
use cachegen_plus.Timeline.Plan.{
  SweepResult, timeline_file, succeeded, is_experiment_done, first_result, timeline_lines,
  write_file, visit_case, visit_cases, full_cases, begin_sweep, full_sweep,
}
use cachegen_plus.Timeline.Plan.Done.{
  succeeds, is_done, Visit, skipped, raised, wrote, visit_case-Visit,
}

module _ (W : Type 0) ⦃f : Float W⦄ where
  -- A path that is done, where the case's own file is not, is another one.
  other_path :
      (w : World W) (path own : List ℕ)
      → is_done W w path ≡ true
      → is_done W w own ≡ false
      → same_codes path own ≡ false
  other_path w path own known fresh = elim (Bool-cases (same_codes path own)) [
    | inr other ↦ other
    | inl same ↦
        let e = sym known ∙ ap (is_done W w) ((same_codes_iff path own).0 same) ∙ fresh in cc
  ]

  files-write_file :
      (w : World W) (path own : List ℕ) (lines : List (Line W))
      → same_codes path own ≡ false
      → (write_file own lines w).files path ≡ w.files path
  unfolding write_file
  files-write_file w path own lines other = rw other

  -- A saved result is read as done exactly if it is a success.
  is_done-write_file :
      (c own : Case W) (now : W) (r : TestResult W) (w : World W) (path : List ℕ)
      → is_done W (write_file (timeline_file own) (timeline_lines c now r) w) path
        ≡ (if same_codes path (timeline_file own) then succeeded r else is_done W w path)
  unfolding write_file timeline_lines is_experiment_done first_result
  is_done-write_file c own now r w path = elim (Bool-cases (same_codes path (timeline_file own))) [
    | inl same ↦ rw same
    | inr other ↦ rw other
  ]

  Visit-keeps :
      {c : Case W} {a : TimelineAnswers W} {w : World W} {results : List (SweepResult W)}
      {out : World W × Option (List (SweepResult W))}
      → Visit W c a w results out
      → (path : List ℕ) → is_done W w path ≡ true
      → out.0.files path ≡ w.files path
  Visit-keeps (skipped known e) path h = ap (λ o. o.0.files path) e
  Visit-keeps (raised fresh _ same _) path h = ap (λ files. files path) same
  Visit-keeps {c} {a} {w} (wrote r fresh _ same _) path h =
      ap (λ files. files path) same
      ∙ files-write_file w path (timeline_file c) _ (other_path w path (timeline_file c) h fresh)

  pub visit_cases-keeps :
      (machine : Case W → TimelineAnswers W) (cs : List (Case W)) (w : World W)
      (results : List (SweepResult W)) (path : List ℕ)
      → is_done W w path ≡ true
      → (visit_cases machine cs w results).0.files path ≡ w.files path
  unfolding visit_cases
  visit_cases-keeps machine [] w results path h = refl
  visit_cases-keeps machine (c ∷ cs) w results path h =
      let out = visit_case c (machine c) w results in
      let kept = Visit-keeps (visit_case-Visit W c (machine c) w results) path h in
      elim (Option-cases out.1) [
        | inl stopped ↦ rw stopped kept
        | inr (results1, e) ↦ rw e (
            visit_cases-keeps machine cs out.0 results1 path (ap is_experiment_done kept ∙ h)
            ∙ kept)
      ]

  -- Whatever fails, also where a cache directory cannot be cleared and the sweep raises, the timeline
  -- file of an experiment that was done is left as it was.
  pub full_sweep-keeps :
      (machine : Case W → TimelineAnswers W) (w : World W) (path : List ℕ)
      → is_done W w path ≡ true
      → (full_sweep machine w).0.files path ≡ w.files path
  unfolding full_sweep begin_sweep
  full_sweep-keeps machine w path h = visit_cases-keeps machine full_cases (begin_sweep w) [] path h

  -- The specification of a sweep: each combination whose test succeeds is done from then on.
  abbrev pub attempt : Case W → TimelineAnswers W → (List ℕ → Bool) → List ℕ → Bool
  attempt c a done path = done path || same_codes path (timeline_file c) && succeeds W c a

  abbrev pub attempts :
      (Case W → TimelineAnswers W) → List (Case W) → (List ℕ → Bool) → List ℕ → Bool
  attempts machine [] done = done
  attempts machine (c ∷ cs) done = attempts machine cs (attempt c (machine c) done)

  Visit-attempt :
      {c : Case W} {a : TimelineAnswers W} {w : World W} {results : List (SweepResult W)}
      {out : World W × Option (List (SweepResult W))} {left : List (SweepResult W)}
      → Visit W c a w results out
      → out.1 ≡ some left
      → (path : List ℕ) → is_done W out.0 path ≡ attempt c a (is_done W w) path
  Visit-attempt {c} {a} {w} (skipped known e) ends path =
      ap (λ o. is_done W o.0 path) e ∙ elim (Bool-cases (same_codes path (timeline_file c))) [
        | inl same ↦
            let h = ap (is_done W w) ((same_codes_iff path (timeline_file c)).0 same) ∙ known in
            rw (same, h)
        | inr other ↦ rw other (sym (or-false _))
      ]
  Visit-attempt (raised _ _ _ e) ends path = let impossible = sym e ∙ ends in cc
  Visit-attempt {c} {a} {w} (wrote r fresh e same _) ends path =
      ap (λ files. is_experiment_done (files path)) same
      ∙ is_done-write_file c c a.saved_at r w path
      ∙ elim (Bool-cases (same_codes path (timeline_file c))) [
        | inl own ↦
            let h = ap (is_done W w) ((same_codes_iff path (timeline_file c)).0 own) ∙ fresh in
            rw (own, h, e)
        | inr other ↦ rw other (sym (or-false _))
      ]

  -- The specification reads a state only through its values.
  attempts-ext :
      (machine : Case W → TimelineAnswers W) (cs : List (Case W)) (d e : List ℕ → Bool)
      → ((path : List ℕ) → d path ≡ e path)
      → (path : List ℕ) → attempts machine cs d path ≡ attempts machine cs e path
  attempts-ext machine [] d e h path = h path
  attempts-ext machine (c ∷ cs) d e h path =
      attempts-ext machine cs (attempt c (machine c) d) (attempt c (machine c) e)
        (λ q. ap (λ b. b || same_codes q (timeline_file c) && succeeds W c (machine c)) (h q)) path

  pub visit_cases-attempts :
      (machine : Case W → TimelineAnswers W) (cs : List (Case W)) (w : World W)
      (results : List (SweepResult W)) {left : List (SweepResult W)}
      → (visit_cases machine cs w results).1 ≡ some left
      → (path : List ℕ)
      → is_done W (visit_cases machine cs w results).0 path ≡ attempts machine cs (is_done W w) path
  unfolding visit_cases
  visit_cases-attempts machine [] w results = λ ends path. refl
  visit_cases-attempts machine (c ∷ cs) w results =
      let out = visit_case c (machine c) w results in
      elim (Option-cases out.1) [
        | inl stopped ↦ rw stopped (λ ends. let impossible = ends in cc impossible)
        | inr (results1, e) ↦ rw e (λ ends path.
            visit_cases-attempts machine cs out.0 results1 ends path
            ∙ attempts-ext machine cs (is_done W out.0) (attempt c (machine c) (is_done W w))
                (Visit-attempt (visit_case-Visit W c (machine c) w results) e) path)
      ]

  -- A sweep that does not raise implements its specification: a timeline file reads as done after it
  -- exactly if it did before or the file is that of a combination whose test succeeds.
  pub full_sweep-attempts :
      (machine : Case W → TimelineAnswers W) (w : World W) {left : List (SweepResult W)}
      → (full_sweep machine w).1 ≡ some left
      → (path : List ℕ)
      → is_done W (full_sweep machine w).0 path ≡ attempts machine full_cases (is_done W w) path
  unfolding full_sweep begin_sweep
  full_sweep-attempts machine w ends path =
      visit_cases-attempts machine full_cases (begin_sweep w) [] ends path
