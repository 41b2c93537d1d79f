-- ===== src/Sweep/Experiment/Reports.antt =====
-- What an experiment of the sweep reports.
use mathlib.Core.Path.{subst}
use cachegen_plus.Base.{
  ℕ, ◌≡◌, refl, sym, ap, ◌∙◌, ◌↔◌, false, List, Option, none, some, All, Bool-cases, inl, inr,
}
use cachegen_plus.Float.{Float, IsOrdered, ◌⊕◌, ◌⊖◌, ◌⊑◌}
use cachegen_plus.Disk.{Node, sweep_clear_lmcache_disk}
use cachegen_plus.Host.{Log}
use cachegen_plus.Server.{disk_path}
use cachegen_plus.Sweep.Measure.{Snapshot, sweep_measure}
use cachegen_plus.Sweep.Loop.{SweepLoop, sweep_thread_steps, get_snapshot}
use cachegen_plus.Sweep.Loop.Peak.{peak_bounds}
use cachegen_plus.Sweep.Loop.Current.{
  NoBuffers, Every, get_snapshot-plain, has_snapshot, last_used, get_snapshot-last,
}
use cachegen_plus.Sweep.Experiment.{
  SweepAnswers, SweepOutcome, sweep_start_failed, sweep_reported, sweep_report_of, sweep_waited,
  sweep_stopped, after_snapshot, after_sweep_clear, sweep_measure_server, sweep_single_experiment,
}
use cachegen_plus.Sweep.Report.{SweepReport, vram_report}

module _ (W : Type 0) ⦃f : Float W⦄ where
  module _ (mode : List ℕ) (size : ℕ × List ℕ) (gm : List ℕ) (a : SweepAnswers W) where
    abbrev written : SweepLoop W
    written = sweep_thread_steps a.later (sweep_stopped a)

    -- Where a report comes from.
    abbrev Made : Option (SweepOutcome W) → Type 0
    Made none = Unit
    Made (some sweep_start_failed) = Unit
    Made (some (sweep_reported r samples)) =
        (s : Snapshot W) × (get_snapshot (sweep_stopped a) ≡ some s)
        × (r
            ≡ sweep_report_of mode size.0 gm a s (sweep_thread_steps a.latest written).peak_vram_gb)
        × (samples ≡ written.samples)

    after_snapshot-Made :
        (log : Log) (s : Option (Snapshot W))
        → get_snapshot (sweep_stopped a) ≡ s
        → Made (after_snapshot mode size gm a log s).1
    after_snapshot-Made log none e = tt
    after_snapshot-Made log (some s) e = (s, e, refl, refl)

    after_sweep_clear-Made :
        (log : Log) (left : Option Node) → Made (after_sweep_clear mode size gm a log left).1
    unfolding sweep_measure_server
    after_sweep_clear-Made log none = tt
    after_sweep_clear-Made log (some left) = elim (Bool-cases (sweep_waited a)) [
      | inl up ↦ rw up (after_snapshot-Made _ (get_snapshot (sweep_stopped a)) refl)
      | inr down ↦ rw down tt
    ]

    single-Made :
        (log : Log) {r : SweepReport W} {samples : List (Snapshot W)}
        → (sweep_single_experiment mode size gm a log).1 ≡ some (sweep_reported r samples)
        → Made (some (sweep_reported r samples))
    unfolding sweep_single_experiment
    single-Made log e =
        subst Made e
          (after_sweep_clear-Made log (sweep_clear_lmcache_disk (a.disk_found (disk_path mode))))

    clear_raises :
        (log : Log) (left : Option Node)
        → ((after_sweep_clear mode size gm a log left).1 ≡ none) ↔ (left ≡ none)
    unfolding sweep_measure_server sweep_stopped
    clear_raises log none = (λ _. refl, λ _. refl)
    clear_raises log (some left) = elim (Bool-cases (sweep_waited a)) [
      | inl up ↦
          let (s, e) = has_snapshot a.start_time a.idle (f.decimal 1 2) 8000 a.work a.late in
          rw (up, e) (λ h. cc h, λ h. cc h)
      | inr down ↦ rw down (λ h. cc h, λ h. cc h)
    ]

    -- An experiment of the sweep raises an exception exactly if clearing its cache directory does:
    -- the monitor always has a snapshot to report.
    pub sweep_single_experiment-raises :
        (log : Log)
        → ((sweep_single_experiment mode size gm a log).1 ≡ none)
          ↔ (sweep_clear_lmcache_disk (a.disk_found (disk_path mode)) ≡ none)
    unfolding sweep_single_experiment
    sweep_single_experiment-raises log =
        clear_raises log (sweep_clear_lmcache_disk (a.disk_found (disk_path mode)))

    reported_buffers :
        (samples : List (Snapshot W)) (r : SweepReport W)
        → Made (some (sweep_reported r samples))
        → r.vram.cachegen_total_gb ≡ f.nought
    unfolding sweep_stopped sweep_report_of vram_report
    reported_buffers samples r (s, e, made, _) =
        let plain = get_snapshot-plain a.start_time a.idle (f.decimal 1 2) 8000 a.work a.late in
        ap (λ x. x.vram.cachegen_total_gb) made ∙ subst (Every NoBuffers) e plain

    -- Every report of the sweep has 0 as its CacheGen total, also in CacheGen mode: the monitor is
    -- made without the mode.
    pub sweep_single_experiment-buffers :
        (log : Log) (r : SweepReport W) (samples : List (Snapshot W))
        → (sweep_single_experiment mode size gm a log).1 ≡ some (sweep_reported r samples)
        → r.vram.cachegen_total_gb ≡ f.nought
    sweep_single_experiment-buffers log r samples e = reported_buffers samples r (single-Made log e)

    reported_last :
        (samples : List (Snapshot W)) (r : SweepReport W)
        → Made (some (sweep_reported r samples))
        → let base : Snapshot W = sweep_measure none false a.idle in
          let last = last_used base.used_vram_gb (sweep_stopped a).samples in
          (r.vram.idle_used_vram_gb ≡ last)
          × (r.vram.peak_vram_gb ≡ last ⊕ r.vram.peak_vram_increase_gb)
    unfolding sweep_stopped sweep_report_of vram_report
    reported_last samples r (s, e, made, _) =
        let last = get_snapshot-last a.start_time a.idle (f.decimal 1 2) 8000 a.work a.late s e in
        (
          ap (λ x. x.vram.idle_used_vram_gb) made ∙ last,
          ap (λ x. x.vram.peak_vram_gb) made
              ∙ ap (λ x. s.used_vram_gb ⊕ x) (sym (ap (λ x. x.vram.peak_vram_increase_gb) made))
              ∙ ap (λ x. x ⊕ r.vram.peak_vram_increase_gb) last,
        )

    -- What a report calls the idle memory is that of the last sample before `get_snapshot`, which is
    -- taken after the request; it is the baseline's only if there is no sample. The reported peak
    -- adds the increase over the baseline to it.
    pub sweep_single_experiment-last :
        (log : Log) (r : SweepReport W) (samples : List (Snapshot W))
        → (sweep_single_experiment mode size gm a log).1 ≡ some (sweep_reported r samples)
        → let base : Snapshot W = sweep_measure none false a.idle in
          let last = last_used base.used_vram_gb (sweep_stopped a).samples in
          (r.vram.idle_used_vram_gb ≡ last)
          × (r.vram.peak_vram_gb ≡ last ⊕ r.vram.peak_vram_increase_gb)
    sweep_single_experiment-last log r samples e = reported_last samples r (single-Made log e)

    reported_peak :
        IsOrdered W
        → (samples : List (Snapshot W)) (r : SweepReport W) → Made (some (sweep_reported r samples))
        → let base : Snapshot W = sweep_measure none false a.idle in
          (f.nought ⊑ r.vram.peak_vram_increase_gb)
          × All (λ s. s.used_vram_gb ⊖ base.used_vram_gb ⊑ r.vram.peak_vram_increase_gb) samples
    unfolding sweep_stopped sweep_report_of vram_report
    reported_peak laws samples r (s, e, made, kept) =
        let base : Snapshot W = sweep_measure none false a.idle in
        let bounds =
          peak_bounds laws a.start_time a.idle (f.decimal 1 2) 8000 a.work a.late a.later
            a.latest in
        rw (ap (λ x. x.vram.peak_vram_increase_gb) made, kept) bounds

    -- With ordered floats: the reported increase is at least 0 and at least the increase over the
    -- baseline of every sample in the file that the experiment writes.
    pub sweep_single_experiment-peak :
        IsOrdered W
        → (log : Log) (r : SweepReport W) (samples : List (Snapshot W))
        → (sweep_single_experiment mode size gm a log).1 ≡ some (sweep_reported r samples)
        → let base : Snapshot W = sweep_measure none false a.idle in
          (f.nought ⊑ r.vram.peak_vram_increase_gb)
          × All (λ s. s.used_vram_gb ⊖ base.used_vram_gb ⊑ r.vram.peak_vram_increase_gb) samples
    sweep_single_experiment-peak laws log r samples e =
        reported_peak laws samples r (single-Made log e)
