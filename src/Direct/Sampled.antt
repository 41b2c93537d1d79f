-- ===== src/Direct/Sampled.antt =====
-- `monitor_vram` of tkdgjs/experiment/direct_vram_test.py ends, and when it loses its samples.
use mathlib.Core.Path.{subst}
use mathlib.Core.Option.{some-injective}
use cachegen_plus.Base.{
  ℕ, zero, suc, ◌+◌, ◌-◌, ◌*◌, ◌≤◌, ◌<◌, ◌≡◌, refl, true, false, ◌⊎◌, inl, inr, List, Option, none,
  some, Option-cases, Bool-cases, ltb, ltb→lt, arith, ◌==◌, All, All-append, All-map, length,
  length-append,
}
use cachegen_plus.Float.{Float}
use cachegen_plus.Text.{strip}
use cachegen_plus.Answer.{RunResult, run_raised, exited}
use cachegen_plus.Direct.{DirectSample, DirectAnswers, added, polled, monitor_from, monitor_vram}

module _ (W : Type 0) ⦃f : Float W⦄ where
  -- No sample has a time above `top`, and with 5 ms for each the samples fit in `left` and one round.
  abbrev pub Within : ℕ → ℕ → List (DirectSample W) → Type 0
  Within top left ss = All (λ s. s.time ≤ top) ss × (5 * length ss < left + 5)

  polled-Within :
      (time : ℕ) (r : RunResult) {ss : List (DirectSample W)}
      → polled time r ≡ some ss
      → All (λ s. s.time ≤ time) ss × (length ss ≤ 1)
  unfolding polled
  polled-Within time run_raised = λ h. let impossible = h in cc impossible
  polled-Within time (exited code out) {ss} = elim (Bool-cases (code == 0)) [
    | inl well ↦ elim (Option-cases (f.parse (strip out))) [
      | inl bad ↦ rw (well, bad) (λ h. let impossible = h in cc impossible)
      | inr (mb, e) ↦
          rw (well, e)
            λ h.
              let same = some-injective _ _ h in
              subst (λ xs. All (λ s. s.time ≤ time) xs × (length xs ≤ 1)) same
                ((omega arith, tt), omega arith)
    ]
    | inr ill ↦ rw ill λ h.
        subst (λ xs. All (λ s. s.time ≤ time) xs × (length xs ≤ 1)) (some-injective _ _ h)
          (tt, omega arith)
  ]

  -- How the loop ends from a round on: with samples, or with an exception.
  abbrev Ends : ℕ → ℕ → Option (Option (List (DirectSample W))) → Type 0
  Ends top left none = ⊥
  Ends top left (some none) = Unit
  Ends top left (some (some ss)) = Within top left ss

  added-Ends :
      (top left left' time : ℕ) (o : Option (List (DirectSample W)))
      (later : Option (Option (List (DirectSample W))))
      → time ≤ top
      → 0 < left
      → left' ≤ left - 5
      → ((ss : List (DirectSample W)) → o ≡ some ss → All (λ s. s.time ≤ time) ss × (length ss ≤ 1))
      → Ends top left' later
      → Ends top left (added o later)
  added-Ends top left left' time none later le some_left gap here rest = tt
  added-Ends top left left' time (some xs) none le some_left gap here rest = rest
  added-Ends top left left' time (some xs) (some none) le some_left gap here rest = tt
  added-Ends top left left' time (some xs) (some (some ys)) le some_left gap here (early, few) =
      let (times, one) = here xs refl in
      let all_early =
        All-map (λ s. s.time ≤ time) (λ s. s.time ≤ top) xs (λ s h. omega (arith, h, le)) times in
      (
        All-append (λ s. s.time ≤ top) xs ys all_early early,
        omega (arith, length-append xs ys, few, one, some_left, gap),
      )

  added-none :
      (o : Option (List (DirectSample W))) {later : Option (Option (List (DirectSample W)))}
      → later ≡ some none
      → added o later ≡ some none
  added-none none e = refl
  added-none (some xs) e = rw e refl

  Ends-cases :
      (left : ℕ) (o : Option (Option (List (DirectSample W))))
      → left ≤ 20000
      → Ends 21000 left o
      → (o ≡ some none)
        ⊎ ((ss : List (DirectSample W)) × (o ≡ some (some ss))
            × All (λ s. s.time ≤ 21000) ss
            × (length ss ≤ 4000))
  Ends-cases left none le h = elim h [ ]
  Ends-cases left (some none) le h = inl refl
  Ends-cases left (some (some ss)) le (early, few) = inr (ss, refl, early, omega (arith, few, le))

  module _ (clock taken : ℕ → ℕ) (polls : ℕ → RunResult) (start duration : ℕ)
      (sleeps : (k : ℕ) → clock k + 5 ≤ clock (suc k)) where
    -- Each call of nvidia-smi ends within its timeout of a second.
    module _ (prompt : (k : ℕ) → taken k ≤ clock k + 1000) where
      monitor_from-Ends :
          (fuel k : ℕ)
          → start ≤ clock k
          → duration ≤ clock k - start + 5 * fuel
          → Ends
              (duration + 1000)
              (duration - (clock k - start))
              (monitor_from clock taken polls start duration (suc fuel) k)
      unfolding monitor_from
      monitor_from-Ends zero k begun enough =
          let late : ltb (clock k - start) duration ≡ false = ground arith in
          rw late (tt, omega arith)
      monitor_from-Ends (suc fuel) k begun enough =
          elim (Bool-cases (ltb (clock k - start) duration)) [
            | inr late ↦ rw late (tt, omega arith)
            | inl in_time ↦ rw in_time (
                added-Ends (duration + 1000) (duration - (clock k - start))
                  (duration - (clock (suc k) - start)) (taken k - start)
                  (polled (taken k - start) (polls k))
                  (monitor_from clock taken polls start duration (suc fuel) (suc k))
                  (omega (arith, prompt k, ltb→lt _ _ in_time)) (omega (arith, ltb→lt _ _ in_time))
                  (omega (arith, sleeps k)) (λ ss. polled-Within (taken k - start) (polls k))
                  (monitor_from-Ends fuel (suc k) (omega (arith, sleeps k))
                    (omega (arith, sleeps k))))
          ]

    clock-add : (d k j : ℕ) → j ≡ k + d → clock k + 5 * d ≤ clock j
    clock-add zero k j e = let same : j ≡ k = omega arith in rw same (omega arith)
    clock-add (suc d) k j e = omega (arith, clock-add d (suc k) j (omega arith), sleeps k)

    monitor_from-raised :
        (d fuel k j : ℕ)
        → j ≡ k + d
        → d < fuel
        → clock j - start < duration
        → polls j ≡ run_raised
        → monitor_from {W = W} clock taken polls start duration fuel k ≡ some none
    unfolding monitor_from polled
    monitor_from-raised d zero k j e h in_time raised = let no : ⊥ = omega (arith, h) in absurd no
    monitor_from-raised zero (suc fuel) k j e h in_time raised =
        let here : k ≡ j = omega arith in
        let now : ltb (clock k - start) duration ≡ true = rw here (ground arith) in
        rw (now, here, raised) refl
    monitor_from-raised (suc d) (suc fuel) k j e h in_time raised =
        let before : clock k ≤ clock j = omega (arith, clock-add (suc d) k j e) in
        let now : ltb (clock k - start) duration ≡ true = ground arith in
        rw now (
          added-none (polled (taken k - start) (polls k))
            (monitor_from-raised d fuel (suc k) j (omega arith) (omega arith) in_time raised))

  -- If the clock does not start before the call, each round sleeps 5 ms at least and each call of
  -- nvidia-smi ends within a second, then the loop of `monitor_vram` ends. Without an exception it has
  -- taken 4,000 samples at most, none of them with a time above 21 s.
  pub monitor_vram-ends :
      (a : DirectAnswers)
      → ((k : ℕ) → a.monitor_clock k + 5 ≤ a.monitor_clock (suc k))
      → ((k : ℕ) → a.taken k ≤ a.monitor_clock k + 1000)
      → a.monitor_start ≤ a.monitor_clock 0
      → (monitor_vram {W = W} a ≡ some none)
        ⊎ ((ss : List (DirectSample W)) × (monitor_vram a ≡ some (some ss))
            × All (λ s. s.time ≤ 21000) ss
            × (length ss ≤ 4000))
  unfolding monitor_vram
  monitor_vram-ends a sleeps prompt begun =
      Ends-cases (20000 - (a.monitor_clock 0 - a.monitor_start)) _ (omega arith) (
        monitor_from-Ends a.monitor_clock a.taken a.polls a.monitor_start 20000 sleeps prompt 4000 0
          begun (omega arith))

  -- One call of nvidia-smi that raises, in a round that begins in the 20 s, is the end of the loop.
  pub monitor_vram-raised :
      (a : DirectAnswers)
      → ((k : ℕ) → a.monitor_clock k + 5 ≤ a.monitor_clock (suc k))
      → a.monitor_start ≤ a.monitor_clock 0
      → (j : ℕ) → a.monitor_clock j - a.monitor_start < 20000
      → a.polls j ≡ run_raised
      → monitor_vram {W = W} a ≡ some none
  unfolding monitor_vram
  monitor_vram-raised a sleeps begun j in_time raised =
      let clock = a.monitor_clock in
      monitor_from-raised clock a.taken a.polls a.monitor_start 20000 sleeps j 4001 0 j
        (omega arith)
        (omega
          (arith, clock-add clock a.taken a.polls a.monitor_start 20000 sleeps j 0 j (omega arith)))
        in_time raised
