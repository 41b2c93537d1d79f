-- ===== src/Resume/Startup.antt =====
-- The startup loop of `run_experiment` in tkdgjs/experiment/run_sweep.py.
pub mod Seconds
use cachegen_plus.Base.{ℕ, zero, suc, Bool, true, false, List, ◌∷◌, if◌then◌else◌}
use cachegen_plus.Answer.{RunResult}
use cachegen_plus.Complete.Probe.{Act, paused, check_vllm_ready}

-- How the loop ends.
pub data Startup : Type 0 where
  died : Startup
  ready : Startup
  timed_out : Startup

module _ {W : Type 0} where
  abbrev after_check : List (Act W) × Startup → List (Act W) × Bool → List (Act W) × Startup
  after_check later (log, true) = (log, ready)
  after_check later (log, false) = later

  -- The loop with so many rounds left: whether the process has died at the poll of each round, and
  -- the replies to the polls of `check_vllm_ready` in it, which has 30 rounds of its own.
  unfoldable pub startup_from :
      (ℕ → Bool) → (ℕ → ℕ → RunResult) → ℕ → ℕ → List (Act W) → List (Act W) × Startup
  startup_from dead replies zero i log = (log, timed_out)
  startup_from dead replies (suc rounds) i log =
      let checked = check_vllm_ready (replies i) 30 (paused 1 ∷ log) in
      let later = startup_from dead replies rounds (suc i) checked.0 in
      if dead i then (paused 1 ∷ log, died) else after_check later checked

  unfoldable pub startup : (ℕ → Bool) → (ℕ → ℕ → RunResult) → List (Act W) → List (Act W) × Startup
  startup dead replies log = startup_from dead replies 90 0 log
