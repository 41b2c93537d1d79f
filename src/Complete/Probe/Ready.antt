-- ===== src/Complete/Probe/Ready.antt =====
-- What `check_vllm_ready` returns.
use cachegen_plus.Base.{
  ℕ, zero, suc, ◌+◌, ◌≤◌, ◌<◌, ◌≡◌, refl, ◌⊎◌, inl, inr, Bool, true, false, List, [], ◌∷◌, arith,
  Bool-cases, ℕ_discrete,
}
use mathlib.Core.Path.{subst}
use cachegen_plus.Answer.{RunResult}
use cachegen_plus.Complete.Probe.{
  Act, ran, launched, ended, proc_killed, paused, asked, lists_models, ready_from, check_vllm_ready,
}

module _ (W : Type 0) where
  -- The seconds of the sleeps in a log.
  abbrev pub seconds : List (Act W) → ℕ
  seconds [] = 0
  seconds (paused n ∷ log) = n + seconds log
  seconds (ran words ∷ log) = seconds log
  seconds (launched l ∷ log) = seconds log
  seconds (ended ∷ log) = seconds log
  seconds (proc_killed ∷ log) = seconds log
  seconds (asked n ∷ log) = seconds log

  module _ (replies : ℕ → RunResult) where
    -- The first reply of a ready server, from `k` on, is that of round `j`.
    abbrev FirstReady : ℕ → ℕ → Type 0
    FirstReady k j =
        (k ≤ j)
        × (lists_models (replies j) ≡ true)
        × ((i : ℕ) → k ≤ i → i < j → lists_models (replies i) ≡ false)

    -- How the loop ends with so many rounds left.
    abbrev Ends : ℕ → ℕ → List (Act W) → List (Act W) × Bool → Type 0
    Ends rounds k log out =
        ((j : ℕ) × FirstReady k j
          × (j < k + rounds)
          × (out.1 ≡ true)
          × (seconds out.0 + k ≡ seconds log + j))
        ⊎ (((i : ℕ) → k ≤ i → i < k + rounds → lists_models (replies i) ≡ false)
            × (out.1 ≡ false)
            × (seconds out.0 ≡ seconds log + rounds))

    all_from :
        (k n : ℕ)
        → lists_models (replies k) ≡ false
        → ((i : ℕ) → suc k ≤ i → i < n → lists_models (replies i) ≡ false)
        → (i : ℕ) → k ≤ i
        → i < n
        → lists_models (replies i) ≡ false
    all_from k n off later i low high = elim (ℕ_discrete k i) [
      | yes e ↦ subst (λ x. lists_models (replies x) ≡ false) e off
      | no other ↦ later i (omega arith) high
    ]

    ready_from-Ends :
        (rounds k : ℕ) (log : List (Act W)) → Ends rounds k log (ready_from replies rounds k log)
    unfolding ready_from
    ready_from-Ends zero k log = inr (λ i low high. absurd (omega arith), refl, omega arith)
    ready_from-Ends (suc rounds) k log = elim (Bool-cases (lists_models (replies k))) [
      | inl on ↦ rw on (
          inl (
            k,
            (omega arith, on, λ i low high. absurd (omega arith)),
            omega arith,
            refl,
            omega arith,
          ))
      | inr off ↦ rw off (elim (ready_from-Ends rounds (suc k) (paused 1 ∷ log)) [
        | inl (j, (low, on, before), high, e, time) ↦
            inl (j, (omega arith, on, all_from k j off before), omega arith, e, omega arith)
        | inr (never, e, time) ↦ inr (
          λ i low high.
              all_from k (k + suc rounds) off (λ n a b. never n a (omega arith)) i low high,
          e,
          omega arith,
        )
      ])
    ]

    -- The loop ends after at most as many rounds as it is given. It returns `True` exactly if one of
    -- these rounds finds the server ready, and then it has slept a second for each round before the
    -- first such one; else it has slept a second for every round.
    pub check_vllm_ready-Ends :
        (timeout : ℕ) (log : List (Act W))
        → let out = check_vllm_ready replies timeout log in
          ((j : ℕ) × FirstReady 0 j
            × (j < timeout)
            × (out.1 ≡ true)
            × (seconds out.0 ≡ seconds log + j))
          ⊎ (((i : ℕ) → i < timeout → lists_models (replies i) ≡ false)
              × (out.1 ≡ false)
              × (seconds out.0 ≡ seconds log + timeout))
    unfolding check_vllm_ready
    check_vllm_ready-Ends timeout log = elim (ready_from-Ends timeout 0 log) [
      | inl (j, first, high, e, time) ↦ inl (j, first, omega arith, e, omega arith)
      | inr (never, e, time) ↦ inr (λ i high. never i (omega arith) (omega arith), e, time)
    ]
