-- ===== src/Vram/Loop.antt =====
-- `FullVRAMMonitorLoop` of tkdgjs/experiment/run_vram_experiment.py: the object that the main thread
-- starts and stops, and the thread that samples. A thread step is one of the parts of
-- `_monitor_loop` between which the main thread may run.
pub mod Stop
use cachegen_plus.Base.{
  ℕ, Bool, true, false, List, [], ◌∷◌, ◌++◌, Option, none, some, if◌then◌else◌,
}
use cachegen_plus.Float.{Float, ◌⊖◌}
use cachegen_plus.Vram.Measure.{VramSnapshot, Readings, FullVramMonitor, measure, set_baseline}

-- An entry of `samples`: `asdict(snapshot)` with two times in front.
pub record Sample (W : Type 0) : Type 0 where
  pub elapsed_sec : W
  pub timestamp : W
  pub snapshot : VramSnapshot W
  pub open snapshot use *

-- Where the sampling thread stands.
pub data Phase (W : Type 0) : Type 0 where
  -- before `while self.running`
  testing : Phase W
  -- before `self.monitor.measure(self.baseline)`
  measuring : Phase W
  -- with a snapshot and its elapsed time, before the lock is taken
  appending : VramSnapshot W → W → Phase W
  -- in `time.sleep(self.interval)`
  sleeping : Phase W
  finished : Phase W

pub record FullVramMonitorLoop (W : Type 0) : Type 0 where
  pub interval : W
  pub monitor : FullVramMonitor W
  pub running : Bool
  pub samples : List (Sample W)
  pub start_time : W
  pub baseline : Option (VramSnapshot W)
  -- `none` until `start` makes the thread
  pub thread : Option (Phase W)

module _ {W : Type 0} ⦃f : Float W⦄ where
  unfoldable pub new_loop : W → ℕ → FullVramMonitorLoop W
  new_loop interval port = record {
    interval = interval;
    monitor = record { port = port; baseline = none };
    running = false;
    samples = [];
    start_time = f.nought;
    baseline = none;
    thread = none;
  }

  -- `start`, at a time and with the answers that the baseline is measured from
  unfoldable pub start : W → Readings → FullVramMonitorLoop W → FullVramMonitorLoop W
  start now r l =
      let (monitor, base) = set_baseline l.monitor r in
      record l {
        running = true;
        start_time = now;
        samples = [];
        monitor = monitor;
        baseline = some base;
        thread = some testing;
      }

  -- `stop` up to the `join`, which waits two seconds at most and then returns anyway
  unfoldable pub stop : FullVramMonitorLoop W → FullVramMonitorLoop W
  stop l = record l { running = false }

  -- One part of an iteration, with the answers and the clock that it reads.
  unfoldable pub phase_step : Readings → W → FullVramMonitorLoop W → Phase W → FullVramMonitorLoop W
  phase_step r now l testing = record l {
    thread = some (if l.running then measuring else finished);
  }
  phase_step r now l measuring = record l {
    thread = some (appending (measure l.baseline r) (now ⊖ l.start_time));
  }
  phase_step r now l (appending s elapsed) = record l {
    samples =
        l.samples ++ record { elapsed_sec = f.round elapsed 3; timestamp = now; snapshot = s } ∷ [];
    thread = some sleeping;
  }
  phase_step r now l sleeping = record l { thread = some testing }
  phase_step r now l finished = l

  abbrev step_at : Readings → W → FullVramMonitorLoop W → Option (Phase W) → FullVramMonitorLoop W
  step_at r now l none = l
  step_at r now l (some p) = phase_step r now l p

  unfoldable pub thread_step : Readings → W → FullVramMonitorLoop W → FullVramMonitorLoop W
  thread_step r now l = step_at r now l l.thread

  -- Any number of thread steps, each with what it reads.
  unfoldable pub thread_steps : List (Readings × W) → FullVramMonitorLoop W → FullVramMonitorLoop W
  thread_steps [] l = l
  thread_steps ((r, now) ∷ rest) l = thread_steps rest (thread_step r now l)
