-- ===== src/Vram/Experiment/Counts.antt =====
-- The two sample counts of a report, which are taken one after the other.
use mathlib.Core.Path.{subst}
use cachegen_plus.Base.{
  ℕ, ◌+◌, ◌≤◌, ◌≡◌, refl, ap, ◌∙◌, List, [], ◌∷◌, Option, none, some, arith, length, Bool-cases,
  Option-cases, inl, inr,
}
use cachegen_plus.Float.{Float}
use cachegen_plus.Disk.{Node, clear_lmcache_disk}
use cachegen_plus.Host.{Log}
use cachegen_plus.Server.{disk_path}
use cachegen_plus.Vram.Measure.{VramSnapshot}
use cachegen_plus.Vram.Loop.{Sample, FullVramMonitorLoop, thread_steps, start, new_loop}
use cachegen_plus.Vram.Loop.Stop.{thread_steps-stop_twice}
use cachegen_plus.Vram.Request.{RequestResult}
use cachegen_plus.Vram.Stats.{Stats, stats_of, stats_from, get_stats}
use cachegen_plus.Vram.Experiment.{
  Answers, Outcome, start_failed, reported, Report, report_of, waited, stopped_loop, measure_server,
  after_stats, after_request, after_clear, run_single_experiment,
}

module _ (W : Type 0) ⦃f : Float W⦄ where
  stats_of-count :
      (base : VramSnapshot W) (first : Sample W) (rest : List (Sample W)) {s : Stats W}
      → stats_of base first rest ≡ some s
      → s.sample_count ≡ length (first ∷ rest)
  unfolding stats_of
  stats_of-count base first rest e = ground arith

  stats_from-count :
      (base : Option (VramSnapshot W)) (samples : List (Sample W)) {s : Stats W}
      → stats_from base samples ≡ some (some s)
      → s.sample_count ≡ length samples
  stats_from-count base [] e = ground arith
  stats_from-count none (first ∷ rest) e = cc
  stats_from-count (some base) (first ∷ rest) e = elim (Option-cases (stats_of base first rest)) [
    | inl raised ↦ ground arith
    | inr (s', found) ↦ ground (arith, stats_of-count base first rest found)
  ]

  get_stats-count :
      (l : FullVramMonitorLoop W) {s : Stats W}
      → get_stats l ≡ some (some s)
      → s.sample_count ≡ length l.samples
  unfolding get_stats
  get_stats-count l e = stats_from-count l.baseline l.samples e

  -- The count taken with `get_samples` against that of the statistics.
  abbrev pub Agree : Report W → Type 0
  Agree r =
      (s : Stats W)
      → r.vram ≡ some s
      → (r.vram_samples_count ≤ s.sample_count) × (s.sample_count ≤ r.vram_samples_count + 1)

  abbrev Agrees : Log × Option (Outcome W) → Type 0
  Agrees (log, none) = Unit
  Agrees (log, some start_failed) = Unit
  Agrees (log, some (reported r)) = Agree r

  after_stats-Agrees :
      (mode : List ℕ) (size : ℕ) (a : Answers W) (log : Log) (latency : RequestResult W)
      (stats : Option (Option (Stats W)))
      → get_stats (thread_steps a.later (stopped_loop a)) ≡ stats
      → Agrees (after_stats mode size a log latency stats)
  unfolding report_of stopped_loop
  after_stats-Agrees mode size a log latency none e = tt
  after_stats-Agrees mode size a log latency (some stats) e = λ s found.
      let begun = thread_steps a.work (start a.start_time a.idle (new_loop (f.decimal 1 1) 8000)) in
      let count = get_stats-count (thread_steps a.later (stopped_loop a)) (e ∙ ap some found) in
      let (le, ge) = thread_steps-stop_twice a.late a.later begun in (omega arith, omega arith)

  after_request-Agrees :
      (mode : List ℕ) (size : ℕ) (a : Answers W) (log : Log) (latency : Option (RequestResult W))
      → Agrees (after_request mode size a log latency)
  after_request-Agrees mode size a log none = tt
  after_request-Agrees mode size a log (some latency) =
      after_stats-Agrees mode size a _ latency _ refl

  after_clear-Agrees :
      (mode : List ℕ) (size : ℕ) (a : Answers W) (log : Log) (left : Option Node)
      → Agrees (after_clear mode size a log left)
  unfolding measure_server
  after_clear-Agrees mode size a log none = tt
  after_clear-Agrees mode size a log (some empty) = elim (Bool-cases (waited a)) [
    | inl up ↦ rw up (after_request-Agrees mode size a _ _)
    | inr down ↦ rw down tt
  ]

  abbrev report_or : Report W → Option (Outcome W) → Report W
  report_or d (some (reported r)) = r
  report_or d _ = d

  Agrees-Agree :
      (out : Log × Option (Outcome W)) (r : Report W)
      → Agrees out
      → out.1 ≡ some (reported r)
      → Agree r
  Agrees-Agree (log, none) r h e = cc
  Agrees-Agree (log, some start_failed) r h e = cc
  Agrees-Agree (log, some (reported r')) r h e = subst Agree (ap (report_or r) e) h

  -- `stop` may return before the sampling thread has ended, so a report's `vram_samples_count` and
  -- the count in its statistics, where it has any, need not be equal: the latter is the same or one
  -- more.
  pub run_single_experiment-Agree :
      (mode : List ℕ) (size : ℕ) (a : Answers W) (log : Log) (r : Report W) (s : Stats W)
      → (run_single_experiment mode size a log).1 ≡ some (reported r)
      → r.vram ≡ some s
      → (r.vram_samples_count ≤ s.sample_count) × (s.sample_count ≤ r.vram_samples_count + 1)
  unfolding run_single_experiment
  run_single_experiment-Agree mode size a log r s e found =
      Agrees-Agree (run_single_experiment mode size a log) r
        (after_clear-Agrees mode size a log (clear_lmcache_disk (a.disk_found (disk_path mode)))) e
        s found
