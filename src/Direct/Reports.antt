-- ===== src/Direct/Reports.antt =====
-- What a test of tkdgjs/experiment/direct_vram_test.py comes to, and the servers that it leaves.
use mathlib.Core.Path.{subst}
use mathlib.Core.Option.{some-injective}
use cachegen_plus.Base.{
  ℕ, suc, ◌+◌, ◌-◌, ◌≤◌, ◌<◌, ◌≡◌, refl, true, List, [], ◌∷◌, map, Option, none, some, Bool-cases,
  inl, inr, arith, All, length,
}
use cachegen_plus.Float.{Float, IsOrdered, ◌⊑◌, ◌⊖◌, max_list-bounds}
use cachegen_plus.Answer.{run_raised}
use cachegen_plus.Vram.Legacy.Range.{min_list-bounds}
use cachegen_plus.Direct.{
  DirectAct, pkilled, served, proc_killed, waited, posted, DirectSample, DirectResult,
  DirectAnswers, assigned, monitor_vram, baseline_mb, direct_result, after_baseline, direct_started,
  direct_ready, direct_test, after_cachegen, after_native, direct_main,
}
use cachegen_plus.Direct.Sampled.{monitor_vram-raised}

-- The servers that run, the latest act first.
abbrev pub serving : List DirectAct → ℕ
serving [] = 0
serving (pkilled ∷ log) = 0
serving (served config ∷ log) = suc (serving log)
serving (proc_killed ∷ log) = serving log - 1
serving (waited n ∷ log) = serving log
serving (posted ok ∷ log) = serving log

-- How many servers run after a test: none if it returns; the one that it started if it raised.
abbrev pub Left : {R : Type 0} → Option R → ℕ → Type 0
Left (some r) n = n ≡ 0
Left none n = n ≡ 1

module _ (W : Type 0) ⦃f : Float W⦄ where
  -- Where the monitor's clock does not start before the call and each round sleeps 5 ms at least: one
  -- call of nvidia-smi that raises, in a round that begins within the 20 s, and the test returns
  -- `None`, though its server answered and the memory before was a number. The thread ends without a
  -- list, however many samples it had.
  pub direct_test-loses :
      (mode : List ℕ) (a : DirectAnswers) (log : List DirectAct)
      → ((k : ℕ) → a.monitor_clock k + 5 ≤ a.monitor_clock (suc k))
      → a.monitor_start ≤ a.monitor_clock 0
      → (j : ℕ) → a.monitor_clock j - a.monitor_start < 20000
      → a.polls j ≡ run_raised
      → direct_ready a ≡ true
      → (mb : W) → baseline_mb a.baseline ≡ some mb
      → (direct_test {W = W} mode a log).1 ≡ some none
  unfolding direct_test direct_result
  direct_test-loses mode a log sleeps begun j in_time raised up mb idle =
      rw (up, idle, monitor_vram-raised W a sleeps begun j in_time raised) refl

  after_baseline-Left :
      (mode : List ℕ) (a : DirectAnswers) (log : List DirectAct) (mb : Option W)
      → serving log ≡ 1
      → let out = after_baseline mode a log mb in Left out.1 (serving out.0)
  after_baseline-Left mode a log none one = one
  after_baseline-Left mode a log (some mb) one = omega (arith, one)

  direct_test-Left :
      (mode : List ℕ) (a : DirectAnswers) (log : List DirectAct)
      → let out = direct_test {W = W} mode a log in Left out.1 (serving out.0)
  unfolding direct_test
  direct_test-Left mode a log = elim (Bool-cases (direct_ready a)) [
    | inl up ↦
        rw up (after_baseline-Left mode a (direct_started mode log) (baseline_mb a.baseline) refl)
    | inr down ↦ rw down refl
  ]

  after_cachegen-Left :
      (native : Option (DirectResult W)) (out : List DirectAct × Option (Option (DirectResult W)))
      → Left out.1 (serving out.0)
      → let all = after_cachegen native out in Left all.1 (serving all.0)
  after_cachegen-Left native (log, none) h = h
  after_cachegen-Left native (log, some r) h = h

  after_native-Left :
      (b : DirectAnswers) (out : List DirectAct × Option (Option (DirectResult W)))
      → Left out.1 (serving out.0)
      → let all = after_native b out in Left all.1 (serving all.0)
  after_native-Left b (log, none) h = h
  after_native-Left b (log, some r) h =
      after_cachegen-Left r _ (direct_test-Left _ b (waited 10 ∷ log))

  -- Whatever servers run before `main`, none runs after it if it returns, with a comparison or not;
  -- if it raises, as it does where the memory before a request is no number, one is left.
  pub direct_main-servers :
      (a b : DirectAnswers) (log : List DirectAct)
      → let out = direct_main W a b log in Left out.1 (serving out.0)
  unfolding direct_main
  direct_main-servers a b log = after_native-Left b _ (direct_test-Left _ a log)

  -- What a result says of the samples.
  abbrev pub Describes : List (DirectSample W) → DirectResult W → Type 0
  Describes ss r =
      All (λ s. (r.min_gb ⊑ s.used_gb) × (s.used_gb ⊑ r.max_gb)) ss
      × (r.peak_increase_gb ≡ r.max_gb ⊖ r.min_gb)
      × (r.sample_count ≡ length ss)

  module _ (laws : IsOrdered W) where
    enclosed :
        (lo hi : W) (ss : List (DirectSample W))
        → All (λ x. lo ⊑ x) (map (λ s. s.used_gb) ss)
        → All (λ x. x ⊑ hi) (map (λ s. s.used_gb) ss)
        → All (λ s. (lo ⊑ s.used_gb) × (s.used_gb ⊑ hi)) ss
    enclosed lo hi [] _ _ = tt
    enclosed lo hi (s ∷ ss) (p, ps) (q, qs) = ((p, q), enclosed lo hi ss ps qs)

    direct_result-Describes :
        (mode : List ℕ) (mb : W) (ss : List (DirectSample W)) {r : DirectResult W}
        → direct_result mode mb ss ≡ some r
        → Describes ss r
    unfolding direct_result
    direct_result-Describes mode mb [] h = let impossible = h in cc impossible
    direct_result-Describes mode mb (s ∷ ss) h =
        let rest = map (λ (t : DirectSample W). t.used_gb) ss in
        let (low, lows) = min_list-bounds laws s.used_gb rest in
        let (high, highs) = max_list-bounds laws s.used_gb rest in
        subst (Describes (s ∷ ss)) (some-injective _ _ h)
          (((low, high), enclosed _ _ ss lows highs), refl, refl)

    after_baseline-Describes :
        (mode : List ℕ) (a : DirectAnswers) (log : List DirectAct) (mb : Option W)
        {r : DirectResult W}
        → (after_baseline mode a log mb).1 ≡ some (some r)
        → Describes (assigned (monitor_vram a)) r
    after_baseline-Describes mode a log none h = let impossible = h in cc impossible
    after_baseline-Describes mode a log (some mb) h =
        direct_result-Describes mode mb (assigned (monitor_vram a)) (some-injective _ _ h)

    -- With ordered floats: the result of a test has a minimum and a maximum that enclose the used
    -- memory of all samples of its thread, their difference as the increase, and the number of these
    -- samples.
    pub direct_test-Describes :
        (mode : List ℕ) (a : DirectAnswers) (log : List DirectAct) {r : DirectResult W}
        → (direct_test mode a log).1 ≡ some (some r)
        → Describes (assigned (monitor_vram a)) r
    unfolding direct_test
    direct_test-Describes mode a log = elim (Bool-cases (direct_ready a)) [
      | inl up ↦
          rw up (after_baseline-Describes mode a (direct_started mode log) (baseline_mb a.baseline))
      | inr down ↦ rw down (λ h. let impossible = some-injective _ _ h in cc impossible)
    ]
