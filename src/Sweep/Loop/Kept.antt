-- ===== src/Sweep/Loop/Kept.antt =====
-- Invariants of the sampling thread of the sweep, from its single steps.
use cachegen_plus.Base.{ℕ, ◌≡◌, refl, false, List, [], ◌∷◌, Option, none, some}
use cachegen_plus.Float.{Float}
use cachegen_plus.Sweep.Measure.{SweepReadings}
use cachegen_plus.Sweep.Loop.{
  SweepPhase, SweepLoop, sweep_new_loop, sweep_start, sweep_stop, sweep_phase_step, sweep_step_at,
  sweep_thread_step, sweep_thread_steps,
}

-- A property of the loop that every step of the thread keeps.
module _ {W : Type 0} ⦃f : Float W⦄ (P : SweepLoop W → Type 0)
    (kept : (r : SweepReadings) (now : W) (l : SweepLoop W) (p : SweepPhase W)
      → l.thread ≡ some p
      → P l
      → P (sweep_phase_step r now l p)) where
  kept_at :
      (r : SweepReadings) (now : W) (l : SweepLoop W) (t : Option (SweepPhase W))
      → l.thread ≡ t
      → P l
      → P (sweep_step_at r now l t)
  kept_at r now l none e h = h
  kept_at r now l (some p) e h = kept r now l p e h

  pub kept_by_steps :
      (work : List (SweepReadings × W)) (l : SweepLoop W) → P l → P (sweep_thread_steps work l)
  unfolding sweep_thread_steps sweep_thread_step
  kept_by_steps [] l h = h
  kept_by_steps ((r, now) ∷ rest) l h =
      kept_by_steps rest (sweep_thread_step r now l) (kept_at r now l l.thread refl h)

module _ {W : Type 0} ⦃f : Float W⦄ where
  -- A loop that was started, run, stopped and seen later.
  abbrev pub ran :
      W → SweepReadings → W → ℕ → List (SweepReadings × W) → List (SweepReadings × W) → SweepLoop W
  ran now r interval port work later = sweep_thread_steps later (
      sweep_stop (sweep_thread_steps work (sweep_start now r (sweep_new_loop interval port false))))
