-- ===== src/Resume/Startup/Seconds.antt =====
-- How long the startup loop waits.
use cachegen_plus.Base.{
  ℕ, zero, suc, ◌+◌, ◌*◌, ◌≤◌, ◌≡◌, ◌⊎◌, inl, inr, Bool, true, false, List, ◌∷◌, arith, Bool-cases,
}
use cachegen_plus.Answer.{RunResult}
use cachegen_plus.Complete.Probe.{Act, paused, check_vllm_ready}
use cachegen_plus.Complete.Probe.Ready.{seconds, check_vllm_ready-Ends}
use cachegen_plus.Resume.Startup.{
  Startup, died, ready, timed_out, after_check, startup_from, startup,
}

module _ (W : Type 0) where
  -- The seconds slept by a way to end, against those of all rounds.
  abbrev Took : ℕ → List (Act W) → List (Act W) × Startup → Type 0
  Took rounds log (log', timed_out) = seconds W log' ≡ seconds W log + 31 * rounds
  Took rounds log (log', ready) = seconds W log' ≤ seconds W log + 31 * rounds
  Took rounds log (log', died) = seconds W log' ≤ seconds W log + 31 * rounds

  Took-later :
      (rounds : ℕ) (log between : List (Act W)) (out : List (Act W) × Startup)
      → seconds W between ≡ seconds W log + 31
      → Took rounds between out
      → Took (suc rounds) log out
  Took-later rounds log between (log', timed_out) e h = omega arith
  Took-later rounds log between (log', ready) e h = omega arith
  Took-later rounds log between (log', died) e h = omega arith

  -- A check takes 30 s if it fails and less if it does not.
  check_seconds :
      (replies : ℕ → RunResult) (log : List (Act W))
      → let out = check_vllm_ready replies 30 (paused 1 ∷ log) in
        ((out.1 ≡ true) × (seconds W out.0 ≤ seconds W log + 31))
        ⊎ ((out.1 ≡ false) × (seconds W out.0 ≡ seconds W log + 31))
  check_seconds replies log = elim (check_vllm_ready-Ends W replies 30 (paused 1 ∷ log)) [
    | inl (j, first, below, e, time) ↦ inl (e, omega arith)
    | inr (never, e, time) ↦ inr (e, omega arith)
  ]

  after_check-Took :
      (rounds : ℕ) (log : List (Act W)) (later : List (Act W) × Startup)
      (checked : List (Act W) × Bool)
      → ((checked.1 ≡ true) × (seconds W checked.0 ≤ seconds W log + 31))
        ⊎ ((checked.1 ≡ false) × (seconds W checked.0 ≡ seconds W log + 31))
      → Took rounds checked.0 later
      → Took (suc rounds) log (after_check later checked)
  after_check-Took rounds log later (log', true) (inl (_, time)) h = omega arith
  after_check-Took rounds log later (log', true) (inr (e, _)) h = cc
  after_check-Took rounds log later (log', false) (inl (e, _)) h = cc
  after_check-Took rounds log later (log', false) (inr (_, time)) h =
      Took-later rounds log log' later time h

  startup_from-Took :
      (dead : ℕ → Bool) (replies : ℕ → ℕ → RunResult) (rounds i : ℕ) (log : List (Act W))
      → Took rounds log (startup_from dead replies rounds i log)
  unfolding startup_from
  startup_from-Took dead replies zero i log = omega arith
  startup_from-Took dead replies (suc rounds) i log = elim (Bool-cases (dead i)) [
    | inl over ↦ rw over (omega arith)
    | inr alive ↦
        let checked = check_vllm_ready (replies i) 30 (paused 1 ∷ log) in
        rw alive (
          after_check-Took rounds log (startup_from dead replies rounds (suc i) checked.0) checked
            (check_seconds (replies i) log)
            (startup_from-Took dead replies rounds (suc i) checked.0))
  ]

  bounds :
      (log : List (Act W)) (out : List (Act W) × Startup)
      → Took 90 log out
      → (seconds W out.0 ≤ seconds W log + 2790)
        × (out.1 ≡ timed_out → seconds W out.0 ≡ seconds W log + 2790)
  bounds log (log', timed_out) h = (omega arith, λ e. omega arith)
  bounds log (log', ready) h = (omega arith, λ e. cc)
  bounds log (log', died) h = (omega arith, λ e. cc)

  -- The startup loop sleeps for 2790 s at most, and for all of them where it gives up: each of its 90
  -- rounds sleeps a second and then polls for another 30 s.
  pub startup-seconds :
      (dead : ℕ → Bool) (replies : ℕ → ℕ → RunResult) (log : List (Act W))
      → let out = startup dead replies log in
        (seconds W out.0 ≤ seconds W log + 2790)
        × (out.1 ≡ timed_out → seconds W out.0 ≡ seconds W log + 2790)
  unfolding startup
  startup-seconds dead replies log =
      bounds log (startup_from dead replies 90 0 log) (startup_from-Took dead replies 90 0 log)
