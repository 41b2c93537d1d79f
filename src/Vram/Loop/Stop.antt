-- ===== src/Vram/Loop/Stop.antt =====
-- What the sampling thread still does once `stop` has cleared the flag.
use cachegen_plus.Base.{
  ℕ, ◌+◌, ◌-◌, ◌≤◌, ◌≡◌, refl, sym, ap, ◌∙◌, false, List, [], ◌∷◌, ◌++◌, Option, none, some, arith,
  length, length-append,
}
use mathlib.Core.List.{append-nil, append_assoc}
use cachegen_plus.Float.{Float}
use cachegen_plus.Vram.Measure.{Readings}
use cachegen_plus.Vram.Loop.{
  Sample, Phase, testing, measuring, appending, sleeping, finished, FullVramMonitorLoop, stop,
  phase_step, step_at, thread_step, thread_steps,
}

module _ {W : Type 0} where
  -- The samples that a thread in this phase adds before it tests the flag again.
  abbrev due_phase : Option (Phase W) → ℕ
  due_phase (some measuring) = 1
  due_phase (some (appending _ _)) = 1
  due_phase _ = 0

  abbrev pub due : FullVramMonitorLoop W → ℕ
  due l = due_phase l.thread

  -- The steps to the end of the loop, once the flag is cleared.
  abbrev left_phase : Option (Phase W) → ℕ
  left_phase (some measuring) = 4
  left_phase (some (appending _ _)) = 3
  left_phase (some sleeping) = 2
  left_phase (some testing) = 1
  left_phase _ = 0

  abbrev left : FullVramMonitorLoop W → ℕ
  left l = left_phase l.thread

  -- No thread, or one that has left its loop.
  abbrev pub IsOver : FullVramMonitorLoop W → Type 0
  IsOver l = left l ≡ 0

module _ {W : Type 0} ⦃f : Float W⦄ where
  abbrev Stopped : FullVramMonitorLoop W → FullVramMonitorLoop W → Type 0
  Stopped l l' =
      (l'.running ≡ false)
      × (length l'.samples + due l' ≡ length l.samples + due l)
      × (left l' ≡ left l - 1)

  phase_step-Stopped :
      (r : Readings) (now : W) (l : FullVramMonitorLoop W) (p : Phase W)
      → l.running ≡ false
      → l.thread ≡ some p
      → Stopped l (phase_step r now l p)
  unfolding phase_step
  phase_step-Stopped r now l testing off e = ground arith
  phase_step-Stopped r now l measuring off e = ground arith
  phase_step-Stopped r now l (appending s t) off e = ground (
    arith,
    length-append l.samples
        (record { elapsed_sec = f.round t 3; timestamp = now; snapshot = s } ∷ []),
  )
  phase_step-Stopped r now l sleeping off e = ground arith
  phase_step-Stopped r now l finished off e = ground arith

  step_at-Stopped :
      (r : Readings) (now : W) (l : FullVramMonitorLoop W) (t : Option (Phase W))
      → l.running ≡ false
      → l.thread ≡ t
      → Stopped l (step_at r now l t)
  step_at-Stopped r now l none off e = ground arith
  step_at-Stopped r now l (some p) off e = phase_step-Stopped r now l p off e

  thread_step-Stopped :
      (r : Readings) (now : W) (l : FullVramMonitorLoop W)
      → l.running ≡ false
      → Stopped l (thread_step r now l)
  unfolding thread_step
  thread_step-Stopped r now l off = step_at-Stopped r now l l.thread off refl

  -- The samples of the second are those of the first, and more behind them.
  abbrev Extends : FullVramMonitorLoop W → FullVramMonitorLoop W → Type 0
  Extends l l' = (extra : List (Sample W)) × (l'.samples ≡ l.samples ++ extra)

  phase_step-Extends :
      (r : Readings) (now : W) (l : FullVramMonitorLoop W) (p : Phase W)
      → Extends l (phase_step r now l p)
  unfolding phase_step
  phase_step-Extends r now l (appending s t) = (_, refl)
  phase_step-Extends r now l testing = ([], sym (append-nil l.samples))
  phase_step-Extends r now l _ = ([], sym (append-nil l.samples))

  step_at-Extends :
      (r : Readings) (now : W) (l : FullVramMonitorLoop W) (t : Option (Phase W))
      → Extends l (step_at r now l t)
  step_at-Extends r now l none = ([], sym (append-nil l.samples))
  step_at-Extends r now l (some p) = phase_step-Extends r now l p

  thread_step-Extends :
      (r : Readings) (now : W) (l : FullVramMonitorLoop W) → Extends l (thread_step r now l)
  unfolding thread_step
  thread_step-Extends r now l = step_at-Extends r now l l.thread

  thread_steps-Extends :
      (work : List (Readings × W)) (l : FullVramMonitorLoop W) → Extends l (thread_steps work l)
  unfolding thread_steps
  thread_steps-Extends [] l = ([], sym (append-nil l.samples))
  thread_steps-Extends ((r, now) ∷ rest) l =
      let (old, e) = thread_step-Extends r now l in
      let (new, d) = thread_steps-Extends rest (thread_step r now l) in
      (old ++ new, d ∙ ap (λ s. s ++ new) e ∙ append_assoc l.samples old new)

  thread_steps-Stopped :
      (work : List (Readings × W)) (l : FullVramMonitorLoop W)
      → l.running ≡ false
      → let l' = thread_steps work l in
        (length l'.samples + due l' ≡ length l.samples + due l) × (left l' ≡ left l - length work)
  unfolding thread_steps
  thread_steps-Stopped [] l off = omega arith
  thread_steps-Stopped ((r, now) ∷ rest) l off =
      let (off', count, down) = thread_step-Stopped r now l off in
      let (count', down') = thread_steps-Stopped rest (thread_step r now l) off' in
      (count' ∙ count, omega arith)

  left-le : (l : FullVramMonitorLoop W) → (left l ≤ 4) × (due l ≤ 1)
  left-le l = ground arith

  due_over : (l : FullVramMonitorLoop W) → IsOver l → due l ≡ 0
  due_over l over = ground arith

  thread_steps-append :
      (first second : List (Readings × W)) (l : FullVramMonitorLoop W)
      → thread_steps (first ++ second) l ≡ thread_steps second (thread_steps first l)
  unfolding thread_steps
  thread_steps-append [] second l = refl
  thread_steps-append ((r, now) ∷ first) second l =
      thread_steps-append first second (thread_step r now l)

  -- Two looks at the samples after `stop` differ by one sample at most.
  pub thread_steps-stop_twice :
      (first second : List (Readings × W)) (l : FullVramMonitorLoop W)
      → let seen = thread_steps first (stop l) in
        let n = length seen.samples in
        let m = length (thread_steps second seen).samples in (n ≤ m) × (m ≤ n + 1)
  unfolding stop
  thread_steps-stop_twice first second l =
      let seen = thread_steps first (stop l) in
      let (extra, more) = thread_steps-Extends second seen in
      let same = ap (λ x. length x.samples + due x) (thread_steps-append first second (stop l)) in
      let early = thread_steps-Stopped first (stop l) refl in
      let whole = thread_steps-Stopped (first ++ second) (stop l) refl in
      omega (
        arith,
        ap length more,
        length-append seen.samples extra,
        same,
        early.0,
        whole.0,
        left-le seen,
        left-le (thread_steps second seen),
      )

  -- After `stop`, whatever the thread still does, the recorded samples stay and at most one more
  -- comes behind them.
  pub thread_steps-stop :
      (work : List (Readings × W)) (l : FullVramMonitorLoop W)
      → (extra : List (Sample W)) × ((thread_steps work (stop l)).samples ≡ l.samples ++ extra)
        × (length extra ≤ 1)
  unfolding stop
  thread_steps-stop work l =
      let (extra, e) = thread_steps-Extends work (stop l) in
      let (count, _) = thread_steps-Stopped work (stop l) refl in
      (extra, e, omega (arith, ap length e, length-append l.samples extra, left-le l))

  -- Four or more steps of the thread after `stop` end its loop, and then it has added a sample
  -- exactly if it had passed its test before the flag was cleared and not yet recorded.
  pub thread_steps-stop-IsOver :
      (work : List (Readings × W)) (l : FullVramMonitorLoop W)
      → 4 ≤ length work
      → let l' = thread_steps work (stop l) in
        IsOver l' × (length l'.samples ≡ length l.samples + due l)
  unfolding stop
  thread_steps-stop-IsOver work l enough =
      let (count, down) = thread_steps-Stopped work (stop l) refl in
      let over : IsOver (thread_steps work (stop l)) = omega (arith, left-le l) in
      (over, omega (arith, due_over (thread_steps work (stop l)) over))
