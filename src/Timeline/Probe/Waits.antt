-- ===== src/Timeline/Probe/Waits.antt =====
-- The wait of tkdgjs/experiment/run_full_sweep.py is that of tkdgjs/experiment/run_vram_experiment.py,
-- with `curl` in place of `requests`.
use cachegen_plus.Base.{
  ℕ, zero, suc, ◌+◌, ◌-◌, ◌≤◌, ◌<◌, ◌≡◌, refl, sym, ◌∙◌, true, false, [], some, arith, inl, inr,
}
use cachegen_plus.Answer.{RunResult, run_raised, exited, HttpReply, unreachable, reply}
use cachegen_plus.Server.{is_ready, wait_from, wait_for_vllm}
use cachegen_plus.Server.Wait.{Answers, wait_for_vllm_ends}
use cachegen_plus.Timeline.Probe.{exited_well, poll_from, wait_for_curl}

-- The reply that stands for the end of a `curl` process.
abbrev as_reply : RunResult → HttpReply
as_reply run_raised = unreachable
as_reply (exited zero out) = reply 200 []
as_reply (exited (suc code) out) = unreachable

exited_well-as_reply : (r : RunResult) → exited_well r ≡ is_ready (as_reply r)
exited_well-as_reply run_raised = refl
exited_well-as_reply (exited zero out) = refl
exited_well-as_reply (exited (suc code) out) = ground arith

module _ (clock : ℕ → ℕ) (polls : ℕ → RunResult) (start timeout : ℕ) where
  poll_from-wait_from :
      (fuel k : ℕ)
      → poll_from clock polls start timeout fuel k
        ≡ wait_from clock (λ j. as_reply (polls j)) start timeout fuel k
  unfolding poll_from wait_from
  poll_from-wait_from zero k = refl
  poll_from-wait_from (suc fuel) k =
      rw (exited_well-as_reply (polls k), poll_from-wait_from fuel (suc k)) refl

  -- If the clock does not start before the call and goes on by two seconds at least from one round to
  -- the next, then a wait of 120 s whose round `j` begins in time and is answered by `curl` with the
  -- exit status 0 returns `True` within 61 rounds.
  pub wait_for_curl_answers :
      ((k : ℕ) → clock k + 2000 ≤ clock (suc k))
      → start ≤ clock 0
      → timeout ≡ 120000
      → (j : ℕ) → clock j - start < timeout
      → exited_well (polls j) ≡ true
      → wait_for_curl clock polls start timeout 61 ≡ some true
  unfolding wait_for_curl wait_for_vllm
  wait_for_curl_answers sleeps begun limit j in_time well =
      let answer : Answers clock (λ i. as_reply (polls i)) start timeout 0 =
        (j, omega arith, in_time, sym (exited_well-as_reply (polls j)) ∙ well) in
      elim (wait_for_vllm_ends clock (λ j. as_reply (polls j)) start timeout sleeps 60 begun
        (omega arith)) [
          | inl (e, _) ↦ poll_from-wait_from 61 0 ∙ e
          | inr (_, never) ↦ absurd (never answer)
        ]

  -- Without a round that begins in time and is answered, it returns `False` within 61 rounds.
  pub wait_for_curl_gives_up :
      ((k : ℕ) → clock k + 2000 ≤ clock (suc k))
      → start ≤ clock 0
      → timeout ≡ 120000
      → ((j : ℕ) → clock j - start < timeout → exited_well (polls j) ≡ false)
      → wait_for_curl clock polls start timeout 61 ≡ some false
  unfolding wait_for_curl wait_for_vllm
  wait_for_curl_gives_up sleeps begun limit silent =
      elim (wait_for_vllm_ends clock (λ j. as_reply (polls j)) start timeout sleeps 60 begun
        (omega arith)) [
          | inr (e, _) ↦ poll_from-wait_from 61 0 ∙ e
          | inl (_, (j, _, in_time, ready)) ↦
              let off = sym (exited_well-as_reply (polls j)) ∙ silent j in_time in cc off
        ]
