-- ===== src/Watch/Pending.antt =====
-- What the threads of the stand-alone monitor still add after `stop`.
use mathlib.Core.Option.{some-injective}
use mathlib.Core.List.{append-nil, append_assoc}
use cachegen_plus.Base.{
  ℕ, zero, suc, ◌+◌, ◌≤◌, ◌≡◌, refl, sym, ap, ◌∙◌, false, List, [], ◌∷◌, ◌++◌, map, Option, none,
  some, Option-cases, inl, inr, arith, length, length-append, get_elem?,
}
use cachegen_plus.Float.{Float}
use cachegen_plus.Watch.{
  Watch, WatchSample, WatchReading, WatchPhase, testing, getting, sleeping, over, set_elem,
  get_vram, new_watch, watch_phase_step, at_thread, watch_step, watch_steps, watch_start,
  watch_stop, watch_stats_of, watch_stats, watch_main,
}

-- A thread that has passed the test of the flag adds one sample at most before the next test.
abbrev pub due : WatchPhase → ℕ
due getting = 1
due testing = 0
due sleeping = 0
due over = 0

abbrev pub pending : List WatchPhase → ℕ
pending [] = 0
pending (p ∷ ps) = due p + pending ps

pending-set_elem :
    (ps : List WatchPhase) (i : ℕ) (p q : WatchPhase)
    → get_elem? ps i ≡ some p
    → pending (set_elem ps i q) + due p ≡ pending ps + due q
pending-set_elem [] i p q h = cc
pending-set_elem (x ∷ ps) zero p q h = let e = some-injective _ _ h in rw e (omega arith)
pending-set_elem (x ∷ ps) (suc i) p q h = omega (arith, pending-set_elem ps i p q h)

length-set_elem :
    (ps : List WatchPhase) (i : ℕ) (q : WatchPhase) → length (set_elem ps i q) ≡ length ps
length-set_elem [] i q = refl
length-set_elem (x ∷ ps) zero q = refl
length-set_elem (x ∷ ps) (suc i) q = ap suc (length-set_elem ps i q)

due_le_one : (p : WatchPhase) → due p ≤ 1
due_le_one testing = omega arith
due_le_one getting = omega arith
due_le_one sleeping = omega arith
due_le_one over = omega arith

pending-le-length : (ps : List WatchPhase) → pending ps ≤ length ps
pending-le-length [] = omega arith
pending-le-length (p ∷ ps) = omega (arith, due_le_one p, pending-le-length ps)

module _ (W : Type 0) ⦃f : Float W⦄ where
  -- What one state leaves for a later one: the flag is off, and with `extra` samples more the later
  -- one has so many fewer to come.
  abbrev Follows : Watch W → Watch W → Type 0
  Follows m later =
      (later.running ≡ false)
      × (length later.threads ≡ length m.threads)
      × ((extra : List (WatchSample W)) × (later.samples ≡ m.samples ++ extra)
          × (length extra + pending later.threads ≤ pending m.threads))

  watch_phase_step-Follows :
      (i : ℕ) (r : WatchReading W) (p : WatchPhase) (m : Watch W)
      → get_elem? m.threads i ≡ some p
      → m.running ≡ false
      → Follows m (watch_phase_step i r p m)
  watch_phase_step-Follows i r testing m at off = rw off (
    refl,
    length-set_elem m.threads i over,
    ([], sym (append-nil m.samples), omega (arith, pending-set_elem m.threads i testing over at)),
  )
  watch_phase_step-Follows i r sleeping m at off = (
    off,
    length-set_elem m.threads i testing,
    (
      [],
      sym (append-nil m.samples),
      omega (arith, pending-set_elem m.threads i sleeping testing at),
    ),
  )
  watch_phase_step-Follows i r over m at off =
      (off, refl, ([], sym (append-nil m.samples), omega arith))
  watch_phase_step-Follows i r getting m at off = elim (Option-cases (get_vram r.smi)) [
    | inl failed ↦ rw failed (
      off,
      length-set_elem m.threads i sleeping,
      (
        [],
        sym (append-nil m.samples),
        omega (arith, pending-set_elem m.threads i getting sleeping at),
      ),
    )
    | inr (v, e) ↦ rw e (
      off,
      length-set_elem m.threads i sleeping,
      (_, refl, omega (arith, pending-set_elem m.threads i getting sleeping at)),
    )
  ]

  Follows-refl : (m : Watch W) → m.running ≡ false → Follows m m
  Follows-refl m off = (off, refl, ([], sym (append-nil m.samples), omega arith))

  Follows-trans : (a b c : Watch W) → Follows a b → Follows b c → Follows a c
  Follows-trans a b c (_, long, (xs, e, le)) (off, long', (ys, e', le')) = (
    off,
    long' ∙ long,
    (
      xs ++ ys,
      e' ∙ ap (λ s. s ++ ys) e ∙ append_assoc a.samples xs ys,
      omega (arith, length-append xs ys, le, le'),
    ),
  )

  watch_step-Follows :
      (i : ℕ) (r : WatchReading W) (m : Watch W) → m.running ≡ false → Follows m (watch_step i r m)
  unfolding watch_step
  watch_step-Follows i r m off = elim (Option-cases (get_elem? m.threads i)) [
    | inl missing ↦ rw missing (Follows-refl m off)
    | inr (p, e) ↦ rw e (watch_phase_step-Follows i r p m e off)
  ]

  watch_steps-Follows :
      (steps : List (ℕ × WatchReading W)) (m : Watch W)
      → m.running ≡ false
      → Follows m (watch_steps steps m)
  unfolding watch_steps
  watch_steps-Follows [] m off = Follows-refl m off
  watch_steps-Follows ((i, r) ∷ rest) m off =
      let first = watch_step-Follows i r m off in
      Follows-trans m (watch_step i r m) (watch_steps rest (watch_step i r m)) first
        (watch_steps-Follows rest (watch_step i r m) first.0)

  -- After `stop`, whatever steps the threads take, the samples so far stay as they are, and each
  -- thread adds one more at most.
  pub watch_stop-Follows :
      (steps : List (ℕ × WatchReading W)) (m : Watch W)
      → (extra : List (WatchSample W)) × ((watch_steps steps (watch_stop m)).samples
          ≡ m.samples ++ extra)
        × (length extra ≤ length m.threads)
  unfolding watch_stop
  watch_stop-Follows steps m =
      let (_, _, (extra, e, le)) = watch_steps-Follows steps (watch_stop m) refl in
      (extra, e, omega (arith, le, pending-le-length m.threads))

  watch_phase_step-threads :
      (i : ℕ) (r : WatchReading W) (p : WatchPhase) (m : Watch W)
      → length (watch_phase_step i r p m).threads ≡ length m.threads
  watch_phase_step-threads i r testing m = length-set_elem m.threads i _
  watch_phase_step-threads i r getting m = length-set_elem m.threads i sleeping
  watch_phase_step-threads i r sleeping m = length-set_elem m.threads i testing
  watch_phase_step-threads i r over m = refl

  at_thread-threads :
      (i : ℕ) (r : WatchReading W) (o : Option WatchPhase) (m : Watch W)
      → length (at_thread i r o m).threads ≡ length m.threads
  at_thread-threads i r none m = refl
  at_thread-threads i r (some p) m = watch_phase_step-threads i r p m

  watch_steps-threads :
      (steps : List (ℕ × WatchReading W)) (m : Watch W)
      → length (watch_steps steps m).threads ≡ length m.threads
  unfolding watch_steps watch_step
  watch_steps-threads [] m = refl
  watch_steps-threads ((i, r) ∷ rest) m =
      watch_steps-threads rest (watch_step i r m) ∙ at_thread-threads i r (get_elem? m.threads i) m

  -- The statistics that the main program prints are those of the samples in its file and of one more
  -- at most: its thread may end a call of nvidia-smi after the file is written.
  pub watch_main-late :
      (now : W) (during joined late : List (ℕ × WatchReading W))
      → let out = watch_main now during joined late in
        (extra : List (WatchSample W)) × (out.1
          ≡ watch_stats_of (map (λ s. s.vram_mb) (out.0 ++ extra)))
        × (length extra ≤ 1)
  unfolding watch_main watch_stats watch_stop watch_start new_watch
  watch_main-late now during joined late =
      let begun = watch_start now new_watch in
      let stopped = watch_stop (watch_steps during begun) in
      let (off, long, _) = watch_steps-Follows joined stopped refl in
      let saved = watch_steps joined stopped in
      let (_, _, (extra, e, le)) = watch_steps-Follows late saved off in
      (
        extra,
        ap (λ xs. watch_stats_of (map (λ s. s.vram_mb) xs)) e,
        omega (arith, le, long, watch_steps-threads during begun, pending-le-length saved.threads),
      )
