-- ===== src/Sweep/Loop.antt =====
-- `FullVRAMMonitorLoop` of tkdgjs/experiment/run_sweep_experiment.py, in thread steps as in
-- Vram.Loop. Here the thread also keeps the largest increase over the baseline.
pub mod Kept
pub mod Peak
pub mod Current
use cachegen_plus.Base.{
  ℕ, Bool, true, false, List, [], ◌∷◌, ◌++◌, Option, none, some, if◌then◌else◌,
}
use cachegen_plus.Float.{Float, ◌⊖◌}
use cachegen_plus.Sweep.Measure.{
  Snapshot, SweepReadings, SweepMonitor, sweep_measure, sweep_set_baseline,
}

-- Where the sampling thread stands.
pub data SweepPhase (W : Type 0) : Type 0 where
  -- before `while self.running`
  at_test : SweepPhase W
  -- before `self.monitor.measure`
  at_measure : SweepPhase W
  -- with a snapshot and its elapsed time, before the peak is compared
  at_peak : Snapshot W → W → SweepPhase W
  -- before the lock is taken; the time is the timestamp
  at_append : Snapshot W → W → W → SweepPhase W
  -- in `time.sleep(self.interval)`
  at_sleep : SweepPhase W
  -- after the loop
  at_end : SweepPhase W

pub record SweepLoop (W : Type 0) : Type 0 where
  pub interval : W
  pub is_cachegen : Bool
  pub monitor : SweepMonitor W
  pub running : Bool
  pub samples : List (Snapshot W)
  pub start_time : W
  pub baseline : Option (Snapshot W)
  pub current_snapshot : Option (Snapshot W)
  pub peak_vram_gb : W
  pub peak_baseline_vram_gb : W
  -- `none` until `start` makes the thread
  pub thread : Option (SweepPhase W)

module _ {W : Type 0} ⦃f : Float W⦄ where
  unfoldable pub sweep_new_loop : W → ℕ → Bool → SweepLoop W
  sweep_new_loop interval port is_cachegen = record {
    interval = interval;
    is_cachegen = is_cachegen;
    monitor = record { port = port; is_cachegen = is_cachegen; baseline = none };
    running = false;
    samples = [];
    start_time = f.nought;
    baseline = none;
    current_snapshot = none;
    peak_vram_gb = f.nought;
    peak_baseline_vram_gb = f.nought;
    thread = none;
  }

  -- `start`, at a time and with the answers that the baseline is measured from
  unfoldable pub sweep_start : W → SweepReadings → SweepLoop W → SweepLoop W
  sweep_start now r l =
      let (monitor, base) = sweep_set_baseline l.monitor r in
      record l {
        running = true;
        start_time = now;
        samples = [];
        monitor = monitor;
        baseline = some base;
        peak_vram_gb = f.nought;
        peak_baseline_vram_gb = base.used_vram_gb;
        thread = some at_test;
      }

  -- `stop` up to the `join`, which waits two seconds at most and then returns anyway
  unfoldable pub sweep_stop : SweepLoop W → SweepLoop W
  sweep_stop l = record l { running = false }

  -- The peak once a snapshot has been compared with the baseline.
  abbrev pub raised_peak : Option (Snapshot W) → Snapshot W → W → W
  raised_peak none s peak = peak
  raised_peak (some base) s peak =
      let increase = s.used_vram_gb ⊖ base.used_vram_gb in
      if f.lt peak increase then increase else peak

  -- One part of an iteration, with the answers and the clock that it reads.
  unfoldable pub sweep_phase_step : SweepReadings → W → SweepLoop W → SweepPhase W → SweepLoop W
  sweep_phase_step r now l at_test = record l {
    thread = some (if l.running then at_measure else at_end);
  }
  sweep_phase_step r now l at_measure = record l {
    thread = some (at_peak (sweep_measure l.baseline l.is_cachegen r) (now ⊖ l.start_time));
  }
  sweep_phase_step r now l (at_peak s elapsed) = record l {
    peak_vram_gb = raised_peak l.baseline s l.peak_vram_gb;
    thread = some (at_append s elapsed now);
  }
  sweep_phase_step r now l (at_append s elapsed timestamp) = record l {
    samples = l.samples ++ record s { elapsed_sec = elapsed; timestamp = timestamp } ∷ [];
    current_snapshot = some s;
    thread = some at_sleep;
  }
  sweep_phase_step r now l at_sleep = record l { thread = some at_test }
  sweep_phase_step r now l at_end = l

  abbrev pub sweep_step_at : SweepReadings → W → SweepLoop W → Option (SweepPhase W) → SweepLoop W
  sweep_step_at r now l none = l
  sweep_step_at r now l (some p) = sweep_phase_step r now l p

  unfoldable pub sweep_thread_step : SweepReadings → W → SweepLoop W → SweepLoop W
  sweep_thread_step r now l = sweep_step_at r now l l.thread

  -- Any number of thread steps, each with what it reads.
  unfoldable pub sweep_thread_steps : List (SweepReadings × W) → SweepLoop W → SweepLoop W
  sweep_thread_steps [] l = l
  sweep_thread_steps ((r, now) ∷ rest) l = sweep_thread_steps rest (sweep_thread_step r now l)

  -- `get_snapshot`
  abbrev pub current_or : Option (Snapshot W) → Option (Snapshot W) → Option (Snapshot W)
  current_or none baseline = baseline
  current_or (some s) baseline = some s

  unfoldable pub get_snapshot : SweepLoop W → Option (Snapshot W)
  get_snapshot l = current_or l.current_snapshot l.baseline
