-- ===== src/Sweep/Loop/Current.antt =====
-- The snapshot that `get_snapshot` returns.
use cachegen_plus.Base.{
  ℕ, ◌≡◌, refl, sym, ap, ◌∙◌, false, List, [], ◌∷◌, ◌++◌, Option, none, some, Bool-cases, inl, inr,
}
use mathlib.Core.Path.{subst}
use mathlib.Core.Option.{some-injective}
use cachegen_plus.Float.{Float}
use cachegen_plus.Sweep.Measure.{
  Snapshot, SweepReadings, sweep_measure, sweep_snapshot, take_buffers, sweep_set_baseline,
}
use cachegen_plus.Sweep.Loop.{
  SweepPhase, at_test, at_measure, at_peak, at_append, at_sleep, at_end, SweepLoop, sweep_new_loop,
  sweep_start, sweep_stop, sweep_phase_step, sweep_thread_steps, current_or, get_snapshot,
}
use cachegen_plus.Sweep.Loop.Kept.{kept_by_steps, ran}

module _ {W : Type 0} ⦃f : Float W⦄ where
  -- Without CacheGen in the loop, no snapshot of it has CacheGen buffers.
  abbrev pub NoBuffers : Snapshot W → Type 0
  NoBuffers s = s.cachegen_total_gb ≡ f.nought

  -- The property of the value, if there is one.
  abbrev pub Every : (Snapshot W → Type 0) → Option (Snapshot W) → Type 0
  Every P none = Unit
  Every P (some s) = P s

  abbrev held : Option (SweepPhase W) → Option (Snapshot W)
  held (some (at_peak s elapsed)) = some s
  held (some (at_append s elapsed now)) = some s
  held _ = none

  abbrev Plain : SweepLoop W → Type 0
  Plain l =
      (l.is_cachegen ≡ false)
      × Every NoBuffers l.baseline
      × Every NoBuffers l.current_snapshot
      × Every NoBuffers (held l.thread)

  sweep_measure-NoBuffers :
      (baseline : Option (Snapshot W)) (r : SweepReadings)
      → NoBuffers (sweep_measure baseline false r)
  unfolding sweep_measure sweep_snapshot take_buffers
  sweep_measure-NoBuffers baseline r = refl

  phase_step-Plain :
      (r : SweepReadings) (now : W) (l : SweepLoop W) (p : SweepPhase W)
      → l.thread ≡ some p
      → Plain l
      → Plain (sweep_phase_step r now l p)
  unfolding sweep_phase_step
  phase_step-Plain r now l at_test at (off, b, c, _) = elim (Bool-cases l.running) [
    | inl on ↦ rw on (off, b, c, tt)
    | inr over ↦ rw over (off, b, c, tt)
  ]
  phase_step-Plain r now l at_measure at (off, b, c, _) =
      (off, b, c, rw off (sweep_measure-NoBuffers l.baseline r))
  phase_step-Plain r now l (at_peak s elapsed) at (off, b, c, h) =
      (off, b, c, subst (λ t. Every NoBuffers (held t)) at h)
  phase_step-Plain r now l (at_append s elapsed time) at (off, b, c, h) =
      (off, b, subst (λ t. Every NoBuffers (held t)) at h, tt)
  phase_step-Plain r now l at_sleep at (off, b, c, _) = (off, b, c, tt)
  phase_step-Plain r now l at_end at h = h

  current_or-Every :
      (current baseline : Option (Snapshot W))
      → Every NoBuffers baseline
      → Every NoBuffers current
      → Every NoBuffers (current_or current baseline)
  current_or-Every none baseline b c = b
  current_or-Every (some s) baseline b c = c

  -- The snapshot that `get_snapshot` returns from a loop without CacheGen has no CacheGen buffers,
  -- however the loop was run.
  pub get_snapshot-plain :
      (now : W) (r : SweepReadings) (interval : W) (port : ℕ)
      (work later : List (SweepReadings × W))
      → let l : SweepLoop W = sweep_start now r (sweep_new_loop interval port false) in
        Every NoBuffers
          (get_snapshot (sweep_thread_steps later (sweep_stop (sweep_thread_steps work l))))
  unfolding sweep_new_loop sweep_start sweep_set_baseline sweep_stop get_snapshot
  get_snapshot-plain now r interval port work later =
      let l : SweepLoop W = sweep_start now r (sweep_new_loop interval port false) in
      let started : Plain l = (refl, sweep_measure-NoBuffers none r, tt, tt) in
      let (off, b, c, h) = kept_by_steps Plain phase_step-Plain work l started in
      let stopped : Plain (sweep_stop (sweep_thread_steps work l)) = (off, b, c, h) in
      let (_, b', c', _) = kept_by_steps Plain phase_step-Plain later _ stopped in
      current_or-Every _ _ b' c'

  -- The loop keeps the baseline that it was started with.
  abbrev Based : Snapshot W → SweepLoop W → Type 0
  Based base l = l.baseline ≡ some base

  phase_step-Based :
      (base : Snapshot W) (r : SweepReadings) (now : W) (l : SweepLoop W) (p : SweepPhase W)
      → l.thread ≡ some p
      → Based base l
      → Based base (sweep_phase_step r now l p)
  unfolding sweep_phase_step
  phase_step-Based base r now l at_test at b = b
  phase_step-Based base r now l at_measure at b = b
  phase_step-Based base r now l (at_peak s elapsed) at b = b
  phase_step-Based base r now l (at_append s elapsed time) at b = b
  phase_step-Based base r now l at_sleep at b = b
  phase_step-Based base r now l at_end at b = b

  current_or-some :
      (current : Option (Snapshot W)) (base : Snapshot W)
      → (s : Snapshot W) × (current_or current (some base) ≡ some s)
  current_or-some none base = (base, refl)
  current_or-some (some s) base = (s, refl)

  -- A loop that was started has a snapshot.
  pub has_snapshot :
      (now : W) (r : SweepReadings) (interval : W) (port : ℕ)
      (work later : List (SweepReadings × W))
      → (s : Snapshot W) × (get_snapshot (ran now r interval port work later) ≡ some s)
  unfolding sweep_start sweep_set_baseline sweep_stop get_snapshot
  has_snapshot now r interval port work later =
      let l = sweep_start now r (sweep_new_loop interval port false) in
      let base : Snapshot W =
        sweep_measure none (sweep_new_loop interval port false).monitor.is_cachegen r in
      let based = kept_by_steps (Based base) (phase_step-Based base) work l refl in
      let e =
        kept_by_steps (Based base) (phase_step-Based base) later
          (sweep_stop (sweep_thread_steps work l)) based in
      rw e (current_or-some (ran now r interval port work later).current_snapshot base)

  -- `samples[-1]`'s used memory, or a default where there is no sample.
  abbrev pub last_used : W → List (Snapshot W) → W
  last_used d [] = d
  last_used d (s ∷ ss) = last_used s.used_vram_gb ss

  last_used-append :
      (d : W) (xs : List (Snapshot W)) (x : Snapshot W)
      → last_used d (xs ++ x ∷ []) ≡ x.used_vram_gb
  last_used-append d [] x = refl
  last_used-append d (y ∷ ys) x = last_used-append y.used_vram_gb ys x

  abbrev used_or : W → Option (Snapshot W) → W
  used_or d none = d
  used_or d (some s) = s.used_vram_gb

  -- The current snapshot has the memory of the last sample.
  abbrev Current : Snapshot W → SweepLoop W → Type 0
  Current base l =
      (l.baseline ≡ some base)
      × (used_or base.used_vram_gb l.current_snapshot ≡ last_used base.used_vram_gb l.samples)

  phase_step-Current :
      (base : Snapshot W) (r : SweepReadings) (now : W) (l : SweepLoop W) (p : SweepPhase W)
      → l.thread ≡ some p
      → Current base l
      → Current base (sweep_phase_step r now l p)
  unfolding sweep_phase_step
  phase_step-Current base r now l at_test at h = h
  phase_step-Current base r now l at_measure at h = h
  phase_step-Current base r now l (at_peak s elapsed) at h = h
  phase_step-Current base r now l (at_append s elapsed time) at (b, c) = (
    b,
    sym (
        last_used-append base.used_vram_gb l.samples
          (record s { elapsed_sec = elapsed; timestamp = time })),
  )
  phase_step-Current base r now l at_sleep at h = h
  phase_step-Current base r now l at_end at h = h

  used_or-current :
      (current : Option (Snapshot W)) (base s : Snapshot W)
      → current_or current (some base) ≡ some s
      → s.used_vram_gb ≡ used_or base.used_vram_gb current
  used_or-current none base s e = ap (λ x. x.used_vram_gb) (sym (some-injective _ _ e))
  used_or-current (some t) base s e = ap (λ x. x.used_vram_gb) (sym (some-injective _ _ e))

  -- `get_snapshot` has the memory of the last sample, or that of the baseline.
  pub get_snapshot-last :
      (now : W) (r : SweepReadings) (interval : W) (port : ℕ)
      (work later : List (SweepReadings × W)) (s : Snapshot W)
      → let l = ran now r interval port work later in
        let base : Snapshot W = sweep_measure none false r in
        get_snapshot l ≡ some s → s.used_vram_gb ≡ last_used base.used_vram_gb l.samples
  unfolding sweep_new_loop sweep_start sweep_set_baseline sweep_stop get_snapshot
  get_snapshot-last now r interval port work later s e =
      let l = sweep_start now r (sweep_new_loop interval port false) in
      let base : Snapshot W = sweep_measure none false r in
      let half = kept_by_steps (Current base) (phase_step-Current base) work l (refl, refl) in
      let (b, c) =
        kept_by_steps (Current base) (phase_step-Current base) later
          (sweep_stop (sweep_thread_steps work l)) half in
      let l' = ran now r interval port work later in
      used_or-current l'.current_snapshot base s (ap (current_or l'.current_snapshot) (sym b) ∙ e)
      ∙ c
