-- ===== src/Timeline/Plan/Ends.antt =====
-- The results of a sweep of tkdgjs/experiment/run_full_sweep.py, and sweeps that are repeated.
use mathlib.Core.Path.{subst}
use mathlib.Core.Bool.{or-true}
use mathlib.Core.Option.{some-injective}
use cachegen_plus.Base.{
  ℕ, zero, suc, ◌+◌, ◌<◌, ◌≤◌, Bool, ◌≡◌, refl, sym, ap, ◌∙◌, true, List, [], ◌∷◌, ◌++◌, Option,
  none, some, All, All-map, All-each, All-apply, Option-cases, inl, inr, length, length-append,
  arith, dec_lt,
}
use cachegen_plus.Float.{Float}
use cachegen_plus.Disk.{Node}
use cachegen_plus.Server.Paths.{same_codes_iff}
use cachegen_plus.Timeline.Probe.{clear_disk_cache}
use cachegen_plus.Timeline.Test.{Case, TestResult, Line, World, TimelineAnswers, run_timeline_test}
use cachegen_plus.Timeline.Plan.{
  SweepResult, timeline_file, is_experiment_done, first_result, reread, visit_case, visit_cases,
  full_cases, begin_sweep, full_sweep,
}
use cachegen_plus.Timeline.Plan.Done.{
  new_world, succeeds, is_done, Visit, skipped, raised, wrote, visit_case-Visit,
}
use cachegen_plus.Timeline.Plan.Kept.{attempt, attempts, full_sweep-attempts, full_sweep-keeps}

module _ (W : Type 0) ⦃f : Float W⦄ where
  -- The cache directory is a directory or missing.
  abbrev pub Clearable : TimelineAnswers W → Type 0
  Clearable a = (left : Node) × (clear_disk_cache a.disk_found ≡ some left)

  run_timeline_test-Ends :
      (c : Case W) (a : TimelineAnswers W) (w : World W)
      → Clearable a
      → (r : TestResult W) × ((run_timeline_test c a w).1 ≡ some r)
  unfolding run_timeline_test
  run_timeline_test-Ends c a w (left, e) = rw e (_, refl)

  -- A file that is done has a result to be read again.
  pub reread-done :
      (file : Option (List (Line W)))
      → is_experiment_done file ≡ true
      → (r : TestResult W) × ((results : List (SweepResult W))
          → reread file results ≡ results ++ record { typed = true; result = r } ∷ [])
  unfolding is_experiment_done
  reread-done none = λ h. cc
  reread-done (some lines) = elim (Option-cases (first_result lines)) [
    | inl nothing ↦ rw nothing (λ h. cc)
    | inr (r, e) ↦ λ h. (r, λ results. rw e)
  ]

  -- A visit that returns adds one result.
  Visit-length :
      {c : Case W} {a : TimelineAnswers W} {w : World W} {results left : List (SweepResult W)}
      {out : World W × Option (List (SweepResult W))}
      → Visit W c a w results out
      → out.1 ≡ some left
      → length left ≡ length results + 1
  Visit-length {results = results} (skipped known e) ends =
      let (r, read) = reread-done _ known in
      ap length (some-injective _ _ (sym ends ∙ ap (λ o. o.1) e ∙ ap some (read results)))
      ∙ length-append results _
  Visit-length (raised _ _ _ e) ends = let impossible = sym e ∙ ends in cc
  Visit-length {results = results} (wrote r _ _ _ e) ends =
      ap length (some-injective _ _ (sym ends ∙ e)) ∙ length-append results _

  pub Visit-Ends :
      {c : Case W} {a : TimelineAnswers W} {w : World W} {results : List (SweepResult W)}
      {out : World W × Option (List (SweepResult W))}
      → Visit W c a w results out
      → Clearable a
      → (left : List (SweepResult W)) × (out.1 ≡ some left)
  Visit-Ends (skipped known e) clear = (_, ap (λ o. o.1) e)
  Visit-Ends {c} {a} (raised _ e _ _) clear =
      let (r, ends) = run_timeline_test-Ends c a (new_world W) clear in
      let impossible = sym e ∙ ends in cc
  Visit-Ends (wrote r _ _ _ e) clear = (_, e)

  visit_cases-Ends :
      (machine : Case W → TimelineAnswers W)
      → ((c : Case W) → Clearable (machine c))
      → (cs : List (Case W)) (w : World W) (results : List (SweepResult W))
      → (left : List (SweepResult W)) × ((visit_cases machine cs w results).1 ≡ some left)
        × (length left ≡ length results + length cs)
  unfolding visit_cases
  visit_cases-Ends machine clear [] w results = (results, refl, omega arith)
  visit_cases-Ends machine clear (c ∷ cs) w results =
      let v = visit_case-Visit W c (machine c) w results in
      let (results1, e) = Visit-Ends v (clear c) in
      let more = Visit-length v e in
      let (left, ends, long) =
        visit_cases-Ends machine clear cs (visit_case c (machine c) w results).0 results1 in
      rw e (left, ends, omega (arith, more, long))

  -- If no test finds something other than a directory in the place of the cache directory, a sweep
  -- ends without an exception, with one result for each of the 40 combinations, run or read again.
  pub full_sweep-length :
      (machine : Case W → TimelineAnswers W) (w : World W)
      → ((c : Case W) → Clearable (machine c))
      → (left : List (SweepResult W)) × ((full_sweep machine w).1 ≡ some left) × (length left ≡ 40)
  unfolding full_sweep full_cases
  full_sweep-length machine w clear = visit_cases-Ends machine clear full_cases (begin_sweep w) []

  -- What was done or is attempted with success is done.
  attempts-done :
      (machine : Case W → TimelineAnswers W) (cs : List (Case W)) (d : List ℕ → Bool)
      (path : List ℕ)
      → d path ≡ true
      → attempts W machine cs d path ≡ true
  attempts-done machine [] d path h = h
  attempts-done machine (c ∷ cs) d path h =
      attempts-done machine cs (attempt W c (machine c) d) path (rw h refl)

  -- A combination is done once its test succeeds.
  attempts-settle :
      (machine : Case W → TimelineAnswers W) (cs : List (Case W)) (d : List ℕ → Bool)
      → All
          (λ c. succeeds W c (machine c) ≡ true → attempts W machine cs d (timeline_file c) ≡ true)
          cs
  attempts-settle machine [] d = tt
  attempts-settle machine (c ∷ cs) d = (
    λ h.
        attempts-done machine cs (attempt W c (machine c) d) (timeline_file c)
          (rw (h, (same_codes_iff (timeline_file c) (timeline_file c)).1 refl) (or-true _)),
    attempts-settle machine cs (attempt W c (machine c) d),
  )

  -- The state after so many sweeps on machines that may differ.
  abbrev pub sweeps : (ℕ → Case W → TimelineAnswers W) → ℕ → World W → World W
  sweeps machines zero w = w
  sweeps machines (suc n) w = (full_sweep (machines n) (sweeps machines n w)).0

  sweeps-keep :
      (machines : ℕ → Case W → TimelineAnswers W) (w : World W) (path : List ℕ) (i n : ℕ)
      → i ≤ n
      → is_done W (sweeps machines i w) path ≡ true
      → is_done W (sweeps machines n w) path ≡ true
  sweeps-keep machines w path i zero h known = let e : i ≡ 0 = omega arith in rw (← e) known
  sweeps-keep machines w path i (suc n) h known = elim (dec_lt n i) [
    | yes above ↦
        let e : i ≡ suc n = omega arith in
        subst (λ k. is_done W (sweeps machines k w) path ≡ true) e known
    | no below ↦
        let before = sweeps-keep machines w path i n (omega arith) known in
        ap is_experiment_done (full_sweep-keeps W (machines n) (sweeps machines n w) path before)
        ∙ before
  ]

  settles_at :
      (machines : ℕ → Case W → TimelineAnswers W) (w : World W)
      → ((i : ℕ) (c : Case W) → Clearable (machines i c))
      → (i : ℕ)
      → All
          (λ c.
            succeeds W c (machines i c) ≡ true
            → is_done W (sweeps machines (suc i) w) (timeline_file c) ≡ true)
          full_cases
  settles_at machines w clear i =
      let before = sweeps machines i w in
      let (left, ends, _) = full_sweep-length (machines i) before (clear i) in
      All-map _ _ full_cases
        (λ c h well. full_sweep-attempts W (machines i) before ends (timeline_file c) ∙ h well)
        (attempts-settle (machines i) full_cases (is_done W before))

  -- Sweeps that are repeated, on machines that may answer differently each time, where no test finds
  -- something other than a directory in the place of the cache directory: if the test of every
  -- combination would succeed in some one of the first `n` sweeps, then all combinations are done
  -- after `n` sweeps. A test that failed is tried again, and no success is lost.
  pub sweeps_settle :
      (machines : ℕ → Case W → TimelineAnswers W) (w : World W) (n : ℕ) (when : Case W → ℕ)
      → ((i : ℕ) (c : Case W) → Clearable (machines i c))
      → All (λ (c : Case W). (when c < n) × (succeeds W c (machines (when c) c) ≡ true)) full_cases
      → All (λ (c : Case W). is_done W (sweeps machines n w) (timeline_file c) ≡ true) full_cases
  sweeps_settle machines w n when clear wells =
      All-apply _ _ (full_cases {W = W})
        (All-map _ _ (full_cases {W = W})
          (λ (c : Case W) at (before, well).
            sweeps-keep machines w (timeline_file c) (suc (when c)) n (omega arith)
              (at (when c) well))
          (All-each Settles (full_cases {W = W}) (settles_at machines w clear)))
        wells
    where
      Settles : ℕ → Case W → Type 0
      Settles i c =
          succeeds W c (machines i c) ≡ true
          → is_done W (sweeps machines (suc i) w) (timeline_file c) ≡ true
