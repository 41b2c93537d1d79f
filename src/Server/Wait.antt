-- ===== src/Server/Wait.antt =====
-- `wait_for_vllm` ends, and what it returns.
use cachegen_plus.Base.{
  ℕ, zero, suc, ◌+◌, ◌-◌, ◌*◌, ◌≤◌, ◌<◌, ◌≡◌, ap, ◌≢◌, ◌⊎◌, inl, inr, true, false, some, arith, ltb,
  Bool-cases, ltb→lt, dec_lt,
}
use cachegen_plus.Answer.{HttpReply}
use cachegen_plus.Server.{is_ready, wait_from, wait_for_vllm}

module _ (clock : ℕ → ℕ) (replies : ℕ → HttpReply) (start timeout : ℕ) where
  -- The server answered in some round from `k` on whose test was still in time.
  abbrev pub Answers : ℕ → Type 0
  Answers k = (j : ℕ) × (k ≤ j) × (clock j - start < timeout) × (is_ready (replies j) ≡ true)

  abbrev Verdict : ℕ → ℕ → Type 0
  Verdict fuel k =
      ((wait_from clock replies start timeout fuel k ≡ some true) × Answers k)
      ⊎ ((wait_from clock replies start timeout fuel k ≡ some false) × ¬ Answers k)

  -- The clock does not run backwards, and each round sleeps two seconds.
  module _ (sleeps : (k : ℕ) → clock k + 2000 ≤ clock (suc k)) where
    clock-le : (k j : ℕ) → k ≤ j → clock k ≤ clock j
    clock-le k zero h = let e : k ≡ 0 = omega arith in rw e (omega arith)
    clock-le k (suc j) h = elim (dec_lt j k) [
      | yes above ↦ let e : k ≡ suc j = omega arith in rw e (omega arith)
      | no below ↦ omega (arith, clock-le k j (omega arith), sleeps j)
    ]

    too_late : (k : ℕ) → timeout ≤ clock k - start → ¬ Answers k
    too_late k h (j, after, in_time, ready) = omega (arith, clock-le k j after)

    later_answers : (k : ℕ) → is_ready (replies k) ≡ false → Answers k → Answers (suc k)
    later_answers k off (j, after, in_time, ready) =
        let other : k ≢ j = λ e. let same = ap (λ n. is_ready (replies n)) e in cc same in
        (j, omega arith, in_time, ready)

    stops_now : (fuel k : ℕ) → timeout ≤ clock k - start → Verdict (suc fuel) k
    unfolding wait_from
    stops_now fuel k h = inr (ground arith, too_late k h)

    verdict :
        (fuel k : ℕ)
        → timeout ≤ clock k - start + 2000 * fuel
        → start ≤ clock k
        → Verdict (suc fuel) k
    unfolding wait_from
    verdict zero k enough begun = stops_now zero k (omega arith)
    verdict (suc fuel) k enough begun = elim (Bool-cases (ltb (clock k - start) timeout)) [
      | inr late ↦ stops_now (suc fuel) k (ground arith)
      | inl in_time ↦ elim (Bool-cases (is_ready (replies k))) [
        | inl ready ↦ inl (rw (in_time, ready), (k, omega arith, ltb→lt _ _ in_time, ready))
        | inr off ↦
            elim (verdict fuel (suc k) (omega (arith, sleeps k)) (omega (arith, sleeps k))) [
              | inl (e, (j, after, before, ready)) ↦
                  inl (rw (in_time, off) e, (j, omega arith, before, ready))
              | inr (e, never) ↦ inr (rw (in_time, off) e, λ a. never (later_answers k off a))
            ]
      ]
    ]

    -- If the clock does not start before the call and goes on by two seconds at least from one
    -- round to the next, then with a round of fuel for every two seconds of the timeout, and one
    -- more, the loop ends. It returns `True` exactly if vLLM answered with status 200 in a round
    -- that began in time.
    pub wait_for_vllm_ends :
        (fuel : ℕ)
        → start ≤ clock 0
        → timeout ≤ 2000 * fuel
        → ((wait_for_vllm clock replies start timeout (suc fuel) ≡ some true) × Answers 0)
          ⊎ ((wait_for_vllm clock replies start timeout (suc fuel) ≡ some false) × ¬ Answers 0)
    unfolding wait_for_vllm
    wait_for_vllm_ends fuel begun enough = verdict fuel 0 (omega arith) begun
