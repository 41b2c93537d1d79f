-- ===== src/Sweep/Loop/Peak.antt =====
-- The peak that the sampling thread of the sweep keeps.
use cachegen_plus.Base.{
  ℕ, ◌≡◌, refl, false, List, [], ◌∷◌, Option, none, some, All, All-append, Bool-cases, inl, inr,
}
use mathlib.Core.Path.{subst}
use cachegen_plus.Float.{Float, IsOrdered, le-max_of, ◌⊖◌, ◌⊑◌}
use cachegen_plus.Sweep.Measure.{Snapshot, SweepReadings, sweep_measure, sweep_set_baseline}
use cachegen_plus.Sweep.Loop.{
  SweepPhase, at_test, at_measure, at_peak, at_append, at_sleep, at_end, SweepLoop, sweep_new_loop,
  sweep_start, sweep_stop, raised_peak, sweep_phase_step, sweep_thread_steps,
}
use cachegen_plus.Sweep.Loop.Kept.{kept_by_steps, ran}

module _ {W : Type 0} ⦃f : Float W⦄ where
  -- The snapshot that the thread has compared and not yet recorded.
  abbrev pub pending : Option (SweepPhase W) → List (Snapshot W)
  pending (some (at_append s elapsed now)) = s ∷ []
  pending _ = []

  abbrev increase : Snapshot W → Snapshot W → W
  increase base s = s.used_vram_gb ⊖ base.used_vram_gb

  -- The peak is at least 0 and the increase of every snapshot.
  abbrev Above : Snapshot W → SweepLoop W → Type 0
  Above base l =
      (l.baseline ≡ some base)
      × (f.nought ⊑ l.peak_vram_gb)
      × All (λ s. increase base s ⊑ l.peak_vram_gb) l.samples
      × All (λ s. increase base s ⊑ l.peak_vram_gb) (pending l.thread)

  raised_peak-ge :
      IsOrdered W
      → (base s : Snapshot W) (peak : W)
      → (peak ⊑ raised_peak (some base) s peak) × (increase base s ⊑ raised_peak (some base) s peak)
  raised_peak-ge laws base s peak = le-max_of laws peak (increase base s)

  All-raise :
      IsOrdered W
      → (base : Snapshot W) (a b : W) (xs : List (Snapshot W)) → a ⊑ b
      → All (λ s. increase base s ⊑ a) xs
      → All (λ s. increase base s ⊑ b) xs
  All-raise laws base a b [] h all = tt
  All-raise laws base a b (x ∷ xs) h (p, ps) =
      (laws.le_trans _ _ _ p h, All-raise laws base a b xs h ps)

  phase_step-Above :
      IsOrdered W
      → (base : Snapshot W) (r : SweepReadings) (now : W) (l : SweepLoop W) (p : SweepPhase W)
      → l.thread ≡ some p
      → Above base l
      → Above base (sweep_phase_step r now l p)
  unfolding sweep_phase_step
  phase_step-Above laws base r now l at_test at (b, z, a, _) = elim (Bool-cases l.running) [
    | inl on ↦ rw on (b, z, a, tt)
    | inr off ↦ rw off (b, z, a, tt)
  ]
  phase_step-Above laws base r now l at_measure at (b, z, a, _) = (b, z, a, tt)
  phase_step-Above laws base r now l (at_peak s elapsed) at (b, z, a, _) =
      let (old, new) = raised_peak-ge laws base s l.peak_vram_gb in
      rw b (refl, laws.le_trans _ _ _ z old, All-raise laws base _ _ l.samples old a, (new, tt))
  phase_step-Above laws base r now l (at_append s elapsed time) at (b, z, a, p) =
      let next : All (λ x. increase base x ⊑ l.peak_vram_gb)
          (pending (some (at_append s elapsed time))) =
        subst (λ t. All (λ x. increase base x ⊑ l.peak_vram_gb) (pending t)) at p in
      (b, z, All-append _ l.samples _ a next, tt)
  phase_step-Above laws base r now l at_sleep at (b, z, a, _) = (b, z, a, tt)
  phase_step-Above laws base r now l at_end at h = h

  -- With ordered floats: whatever the started thread has done before and after `stop`, the peak
  -- that the loop keeps is at least 0 and at least the increase over the baseline of every recorded
  -- sample.
  pub sweep_thread_steps-peak :
      IsOrdered W
      → (now : W) (r : SweepReadings) (l : SweepLoop W) (work later : List (SweepReadings × W))
      → let base : Snapshot W = sweep_measure none l.monitor.is_cachegen r in
        let l' =
          sweep_thread_steps later (sweep_stop (sweep_thread_steps work (sweep_start now r l))) in
        (f.nought ⊑ l'.peak_vram_gb)
        × All (λ s. s.used_vram_gb ⊖ base.used_vram_gb ⊑ l'.peak_vram_gb) l'.samples
  unfolding sweep_start sweep_set_baseline sweep_stop
  sweep_thread_steps-peak laws now r l work later =
      let base : Snapshot W = sweep_measure none l.monitor.is_cachegen r in
      let started : Above base (sweep_start now r l) = (refl, laws.le_refl f.nought, tt, tt) in
      let (b, z, a, p) =
        kept_by_steps (Above base) (phase_step-Above laws base) work (sweep_start now r l)
          started in
      let stopped : Above base (sweep_stop (sweep_thread_steps work (sweep_start now r l))) =
        (b, z, a, p) in
      let (_, z', a', _) =
        kept_by_steps (Above base) (phase_step-Above laws base) later _ stopped in
      (z', a')

  -- The peak stays above what it once was above.
  abbrev Bounded : Snapshot W → List (Snapshot W) → SweepLoop W → Type 0
  Bounded base xs l =
      (l.baseline ≡ some base)
      × (f.nought ⊑ l.peak_vram_gb)
      × All (λ s. increase base s ⊑ l.peak_vram_gb) xs

  phase_step-Bounded :
      IsOrdered W
      → (base : Snapshot W) (xs : List (Snapshot W)) (r : SweepReadings) (now : W) (l : SweepLoop W)
        (p : SweepPhase W)
      → l.thread ≡ some p
      → Bounded base xs l
      → Bounded base xs (sweep_phase_step r now l p)
  unfolding sweep_phase_step
  phase_step-Bounded laws base xs r now l at_test at h = h
  phase_step-Bounded laws base xs r now l at_measure at h = h
  phase_step-Bounded laws base xs r now l (at_peak s elapsed) at (b, z, a) =
      let (old, new) = raised_peak-ge laws base s l.peak_vram_gb in
      rw b (refl, laws.le_trans _ _ _ z old, All-raise laws base _ _ xs old a)
  phase_step-Bounded laws base xs r now l (at_append s elapsed time) at h = h
  phase_step-Bounded laws base xs r now l at_sleep at h = h
  phase_step-Bounded laws base xs r now l at_end at h = h

  -- The peak at the end bounds the samples that were there before the last steps, for a monitor
  -- that is started from any state.
  pub peak_bounds_from :
      IsOrdered W
      → (now : W) (r : SweepReadings) (l : SweepLoop W)
        (work late later latest : List (SweepReadings × W))
      → let base : Snapshot W = sweep_measure none l.monitor.is_cachegen r in
        let stopped =
          sweep_thread_steps late (sweep_stop (sweep_thread_steps work (sweep_start now r l))) in
        let seen = sweep_thread_steps later stopped in
        let last = sweep_thread_steps latest seen in
        (f.nought ⊑ last.peak_vram_gb) × All (λ s. increase base s ⊑ last.peak_vram_gb) seen.samples
  unfolding sweep_start sweep_set_baseline sweep_stop
  peak_bounds_from laws now r l work late later latest =
      let base : Snapshot W = sweep_measure none l.monitor.is_cachegen r in
      let kept = kept_by_steps (Above base) (phase_step-Above laws base) in
      let begun = sweep_start now r l in
      let (b, z, a, p) = kept work begun (refl, laws.le_refl f.nought, tt, tt) in
      let half = kept late (sweep_stop (sweep_thread_steps work begun)) (b, z, a, p) in
      let stopped = sweep_thread_steps late (sweep_stop (sweep_thread_steps work begun)) in
      let (b', z', a', _) = kept later stopped half in
      let seen = sweep_thread_steps later stopped in
      let (_, z'', a'') =
        kept_by_steps (Bounded base seen.samples) (phase_step-Bounded laws base seen.samples) latest
          seen (b', z', a') in
      (z'', a'')

  pub peak_bounds :
      IsOrdered W
      → (now : W) (r : SweepReadings) (interval : W) (port : ℕ)
        (work late later latest : List (SweepReadings × W))
      → let base : Snapshot W = sweep_measure none false r in
        let seen = sweep_thread_steps later (ran now r interval port work late) in
        let l = sweep_thread_steps latest seen in
        (f.nought ⊑ l.peak_vram_gb) × All (λ s. increase base s ⊑ l.peak_vram_gb) seen.samples
  unfolding sweep_new_loop
  peak_bounds laws now r interval port work late later latest =
      peak_bounds_from laws now r (sweep_new_loop interval port false) work late later latest
