-- ===== src/Single/Extremes.antt =====
-- The values that the high-frequency test reports, against the samples that it writes.
use mathlib.Core.Path.{subst}
use mathlib.Core.Option.{some-injective}
use cachegen_plus.Base.{
  ℕ, ◌≡◌, refl, sym, ◌&&◌, List, [], ◌∷◌, map, none, some, All, Bool-cases, Option-cases, inl, inr,
  length,
}
use cachegen_plus.Float.{Float, IsOrdered, ◌⊑◌, ◌⊖◌, ◌⊕◌, max_list, max_of, min_of, max_list-bounds}
use cachegen_plus.Text.{codes}
use cachegen_plus.Host.{Log}
use cachegen_plus.Server.{same_codes}
use cachegen_plus.Vram.Legacy.{min_list}
use cachegen_plus.Vram.Legacy.Range.{min_list-bounds}
use cachegen_plus.Sweep.Measure.{Snapshot, sweep_measure}
use cachegen_plus.Sweep.Loop.{sweep_new_loop, sweep_thread_steps, get_snapshot}
use cachegen_plus.Sweep.Loop.Peak.{peak_bounds_from}
use cachegen_plus.Single.Made.{run_test-result}
use cachegen_plus.Single.{
  TestPlan, TestAnswers, Monitored, HighfreqResult, test_stopped, monitored, request_samples,
  extremes, highfreq_result, highfreq_plan, run_highfreq_test,
}

module _ (W : Type 0) ⦃f : Float W⦄ where
  abbrev used : Snapshot W → W
  used s = s.used_vram_gb

  -- The samples that are written to the file.
  abbrev pub written : TestPlan W → List ℕ → TestAnswers W → List (Snapshot W)
  written plan mode a = (sweep_thread_steps a.later (test_stopped plan mode a)).samples

  module _ (laws : IsOrdered W) where
    min_list-greatest :
        (low a : W) (xs : List W) → low ⊑ a → All (λ x. low ⊑ x) xs → low ⊑ min_list a xs
    unfolding min_list
    min_list-greatest low a [] h all = h
    min_list-greatest low a (x ∷ xs) h (k, all) =
        min_list-greatest low (min_of a x) xs
          (elim (Bool-cases (f.lt x a)) [ inl below ↦ rw below k | inr above ↦ rw above h ]) all

    max_list-least :
        (top a : W) (xs : List W) → a ⊑ top → All (λ x. x ⊑ top) xs → max_list a xs ⊑ top
    unfolding max_list
    max_list-least top a [] h all = h
    max_list-least top a (x ∷ xs) h (k, all) =
        max_list-least top (max_of a x) xs
          (elim (Bool-cases (f.lt a x)) [ inl above ↦ rw above k | inr below ↦ rw below h ]) all

    -- Between two values.
    abbrev pub Between : W × W → List (Snapshot W) → Type 0
    Between e ss = All (λ s. (e.0 ⊑ used s) × (used s ⊑ e.1)) ss

    zip_bounds :
        (lo hi : W) (ss : List (Snapshot W))
        → All (λ x. lo ⊑ x) (map used ss)
        → All (λ x. x ⊑ hi) (map used ss)
        → Between (lo, hi) ss
    zip_bounds lo hi [] _ _ = tt
    zip_bounds lo hi (s ∷ ss) (p, ps) (q, qs) = ((p, q), zip_bounds lo hi ss ps qs)

    extremes-Between : (ss : List (Snapshot W)) {e : W × W} → extremes ss ≡ some e → Between e ss
    unfolding extremes
    extremes-Between [] h = cc
    extremes-Between (s ∷ ss) h =
        let (low, lows) = min_list-bounds laws (used s) (map used ss) in
        let (high, highs) = max_list-bounds laws (used s) (map used ss) in
        subst (λ e. Between e (s ∷ ss)) (some-injective _ _ h)
          ((low, high), zip_bounds _ _ ss lows highs)

    lows_of : (e : W × W) (ss : List (Snapshot W)) → Between e ss → All (λ x. e.0 ⊑ x) (map used ss)
    lows_of e [] all = tt
    lows_of e (s ∷ ss) ((p, q), all) = (p, lows_of e ss all)

    highs_of :
        (e : W × W) (ss : List (Snapshot W)) → Between e ss → All (λ x. x ⊑ e.1) (map used ss)
    highs_of e [] all = tt
    highs_of e (s ∷ ss) ((p, q), all) = (q, highs_of e ss all)

    -- What lies between two values has its extremes there.
    extremes-tight :
        (e : W × W) (ss : List (Snapshot W)) {d : W × W}
        → Between e ss
        → extremes ss ≡ some d
        → (e.0 ⊑ d.0) × (d.1 ⊑ e.1)
    unfolding extremes
    extremes-tight e [] all h = let impossible = h in cc impossible
    extremes-tight e (s ∷ ss) ((p, q), all) h =
        subst (λ d. (e.0 ⊑ d.0) × (d.1 ⊑ e.1)) (some-injective _ _ h)
          (
            min_list-greatest e.0 (used s) (map used ss) p (lows_of e ss all),
            max_list-least e.1 (used s) (map used ss) q (highs_of e ss all),
          )

    request_samples-Between :
        (from to : W) (e : W × W) (ss : List (Snapshot W))
        → Between e ss
        → Between e (request_samples from to ss)
    unfolding request_samples
    request_samples-Between from to e [] all = tt
    request_samples-Between from to e (s ∷ ss) (b, all) =
        elim (Bool-cases (f.le from s.timestamp && f.le s.timestamp (to ⊕ f.decimal 2 0))) [
          | inl inside ↦ rw inside (b, request_samples-Between from to e ss all)
          | inr outside ↦ rw outside (request_samples-Between from to e ss all)
        ]

    -- What a result says of the samples.
    abbrev pub Reports : Snapshot W → List (Snapshot W) → HighfreqResult W → Type 0
    Reports base ss r =
        Between (r.min_vram, r.max_vram) ss
        × (r.vram_range ≡ r.max_vram ⊖ r.min_vram)
        × (r.sample_count ≡ length ss)
        × (f.nought ⊑ r.peak_vram)
        × All (λ s. used s ⊖ used base ⊑ r.peak_vram) ss
        × ((d : W × W) → r.during ≡ some d → (r.min_vram ⊑ d.0) × (d.1 ⊑ r.max_vram))

    highfreq_result-Reports :
        (a : TestAnswers W) (base : Snapshot W) (m : Monitored W) {r : HighfreqResult W}
        → f.nought ⊑ m.peak_vram
        → All (λ s. used s ⊖ used base ⊑ m.peak_vram) m.samples
        → highfreq_result a m ≡ some r
        → Reports base m.samples r
    unfolding highfreq_result
    highfreq_result-Reports a base m above all = elim (Option-cases (extremes m.samples)) [
      | inl none_there ↦ rw none_there (λ h. let impossible = h in cc impossible)
      | inr (e, eq) ↦ rw eq λ h.
          let inside = extremes-Between m.samples eq in
          subst (Reports base m.samples) (some-injective _ _ h) (
            inside,
            refl,
            refl,
            above,
            all,
            (λ d during.
                extremes-tight e (request_samples a.request_start a.request_end m.samples)
                  (request_samples-Between a.request_start a.request_end e m.samples inside)
                  during),
          )
    ]

    -- What is read from the monitor.
    abbrev Read : TestPlan W → List ℕ → TestAnswers W → Monitored W → Type 0
    Read plan mode a m =
        let seen = sweep_thread_steps a.later (test_stopped plan mode a) in
        (m.samples ≡ written plan mode a)
        × (m.peak_vram ≡ (sweep_thread_steps a.latest seen).peak_vram_gb)

    monitored-Read :
        (plan : TestPlan W) (mode : List ℕ) (size : ℕ) (a : TestAnswers W) {m : Monitored W}
        → monitored plan mode size a ≡ some m
        → Read plan mode a m
    unfolding monitored
    monitored-Read plan mode size a =
        elim (Option-cases (get_snapshot (test_stopped plan mode a))) [
          | inl nothing ↦ rw nothing (λ h. let impossible = h in cc impossible)
          | inr (s, e) ↦ rw e λ h. subst (Read plan mode a) (some-injective _ _ h) (refl, refl)
        ]

    -- With ordered floats: if `run_highfreq_test` returns a result, then its `min_vram` and
    -- `max_vram` enclose the used memory of every sample that it writes, `vram_range` is their
    -- difference, `samples` is the number of these samples, and `peak_vram` is at least 0 and at
    -- least the increase of each of them over the idle baseline. The extremes that it prints for the
    -- samples during the request lie within.
    pub run_highfreq_test-Reports :
        (mode : List ℕ) (size : ℕ) (gm : List ℕ) (a : TestAnswers W) (log : Log)
        {r : HighfreqResult W}
        → (run_highfreq_test mode size gm a log).1 ≡ some (some r)
        → Reports
            (sweep_measure none (same_codes mode (codes "cachegen")) a.idle)
            (written (highfreq_plan mode) mode a)
            r
    unfolding run_highfreq_test test_stopped sweep_new_loop
    run_highfreq_test-Reports mode size gm a log {r} e =
        let plan = highfreq_plan mode in
        let (m, seen, made) = run_test-result W plan (highfreq_result a) mode size gm a log e in
        let (samples, peak) = monitored-Read plan mode size a seen in
        let (above, all) =
          peak_bounds_from laws a.start_time a.idle
            (sweep_new_loop plan.interval 8000 (same_codes mode (codes "cachegen"))) a.work a.late
            a.later a.latest in
        let base : Snapshot W = sweep_measure none (same_codes mode (codes "cachegen")) a.idle in
        let last =
          sweep_thread_steps a.latest (sweep_thread_steps a.later (test_stopped plan mode a)) in
        let above' = subst (λ p. f.nought ⊑ p) (sym peak) above in
        let all' =
          subst (λ p. All (λ s. used s ⊖ used base ⊑ p) m.samples) (sym peak)
            (subst (λ ss. All (λ s. used s ⊖ used base ⊑ last.peak_vram_gb) ss) (sym samples)
              all) in
        subst (λ ss. Reports base ss r) samples (highfreq_result-Reports a base m above' all' made)
