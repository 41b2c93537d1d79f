-- ===== src/Single.antt =====
-- tkdgjs/experiment/highfreq_test.py, quick_test.py and extended_test.py: single measurements with the
-- functions of run_sweep_experiment.py. The three scripts go through the same cycle.
pub mod Made
pub mod Extremes
pub mod Servers
use cachegen_plus.Base.{
  ℕ, Bool, true, false, ◌&&◌, List, [], ◌∷◌, ◌++◌, Option, none, some, if◌then◌else◌, ◌>>=◌,
  or_default, map, length,
}
use cachegen_plus.Float.{Float, ◌⊕◌, ◌⊖◌, max_list, min_of}
use cachegen_plus.Text.{codes}
use cachegen_plus.Answer.{RunResult, HttpReply}
use cachegen_plus.Disk.{Node, sweep_clear_lmcache_disk}
use cachegen_plus.Server.{wait_for_vllm, disk_path, experiment_dir, same_codes}
use cachegen_plus.Host.{Log, slept, cleared, requested, saved}
use cachegen_plus.Vram.Request.{PostOutcome}
use cachegen_plus.Vram.Experiment.{stop_vllm}
use cachegen_plus.Vram.Legacy.{min_list}
use cachegen_plus.Sweep.Measure.{Snapshot, SweepReadings}
use cachegen_plus.Sweep.Loop.{
  SweepLoop, sweep_new_loop, sweep_start, sweep_stop, sweep_thread_steps, get_snapshot,
}
use cachegen_plus.Sweep.Report.{SweepRequest, sweep_send_request, sweep_succeeded}
use cachegen_plus.Sweep.Experiment.{clear_gpu_processes, sweep_start_vllm}

-- What differs between the scripts: the interval of the monitor, the seconds before and after the
-- request, and the path of the samples.
pub record TestPlan (W : Type 0) : Type 0 where
  pub interval : W
  pub warm_up : ℕ
  pub tail : ℕ
  pub vram_file : List ℕ

-- What the machine answers during one test.
pub record TestAnswers (W : Type 0) : Type 0 where
  pub gpu : RunResult
  pub disk_found : Option Node
  -- the clock and the replies of the wait in `start_vllm`, and of the second wait
  pub clock : ℕ → ℕ
  pub replies : ℕ → HttpReply
  pub second_clock : ℕ → ℕ
  pub second_replies : ℕ → HttpReply
  pub start_time : W
  pub idle : SweepReadings
  -- the steps of the sampling thread up to `stop`, then up to `get_snapshot`, to `get_samples` and
  -- to `get_peak_vram`
  pub work : List (SweepReadings × W)
  pub late : List (SweepReadings × W)
  pub later : List (SweepReadings × W)
  pub latest : List (SweepReadings × W)
  -- the time inside `send_request_and_measure`, and those that `highfreq_test.py` takes around it
  pub request_time : W
  pub request_start : W
  pub request_end : W
  pub post : PostOutcome W

-- What a script has after the request.
pub record Monitored (W : Type 0) : Type 0 where
  pub latency : SweepRequest W
  pub snapshot : Snapshot W
  pub samples : List (Snapshot W)
  pub peak_vram : W

-- The server is stopped unless the script raised.
abbrev pub after_finish : {R : Type 0} → Log → Option R → Log × Option (Option R)
after_finish log none = (log, none)
after_finish log (some r) = (stop_vllm log, some (some r))

module _ {W : Type 0} ⦃f : Float W⦄ where
  unfoldable pub first_wait : TestAnswers W → Bool
  first_wait a = or_default false (wait_for_vllm a.clock a.replies (a.clock 0) 180000 91)

  unfoldable pub second_wait : TestAnswers W → Bool
  second_wait a =
      or_default false (wait_for_vllm a.second_clock a.second_replies (a.second_clock 0) 180000 91)

  -- The monitor when `get_snapshot` is called.
  unfoldable pub test_stopped : TestPlan W → List ℕ → TestAnswers W → SweepLoop W
  test_stopped plan mode a = sweep_thread_steps a.late (
      sweep_stop (
        sweep_thread_steps a.work (
          sweep_start a.start_time a.idle
            (sweep_new_loop plan.interval 8000 (same_codes mode (codes "cachegen"))))))

  -- What is read from the monitor; `none` is the exception of `print_layout` on no snapshot.
  unfoldable pub monitored : TestPlan W → List ℕ → ℕ → TestAnswers W → Option (Monitored W)
  monitored plan mode prefill_size a =
      let seen = sweep_thread_steps a.later (test_stopped plan mode a) in
      get_snapshot (test_stopped plan mode a) >>= λ s. some (record {
        latency = sweep_send_request prefill_size a.request_time a.post;
        snapshot = s;
        samples = seen.samples;
        peak_vram = (sweep_thread_steps a.latest seen).peak_vram_gb;
      })

  -- The end of a test from the file on; `finish` is what the script makes of the values, and `none`
  -- the exception that it raises.
  abbrev pub after_monitor :
      {R : Type 0}
      → TestPlan W
      → (Monitored W → Option R)
      → Log
      → Option (Monitored W)
      → Log × Option (Option R)
  after_monitor plan finish log none = (log, none)
  after_monitor plan finish log (some m) = after_finish (saved plan.vram_file ∷ log) (finish m)

  abbrev pub after_start :
      {R : Type 0}
      → TestPlan W
      → (Monitored W → Option R)
      → List ℕ
      → ℕ
      → TestAnswers W
      → Log
      → Log × Option (Option R)
  after_start plan finish mode prefill_size a log =
      let measured =
        after_monitor plan finish
          (slept plan.tail ∷ requested prefill_size ∷ slept plan.warm_up ∷ log)
          (monitored plan mode prefill_size a) in
      let stopped = if second_wait a then measured else (stop_vllm log, some none) in
      if first_wait a then stopped else (log, some none)

  abbrev pub after_disk :
      {R : Type 0}
      → TestPlan W
      → (Monitored W → Option R)
      → List ℕ
      → ℕ
      → List ℕ
      → TestAnswers W
      → Log
      → Option Node
      → Log × Option (Option R)
  after_disk plan finish mode prefill_size gpu_mem_util a log none = (log, none)
  after_disk plan finish mode prefill_size gpu_mem_util a log (some left) =
      after_start plan finish mode prefill_size a
        (sweep_start_vllm mode gpu_mem_util (cleared (disk_path mode) ∷ log))

  abbrev pub after_gpu :
      {R : Type 0}
      → TestPlan W
      → (Monitored W → Option R)
      → List ℕ
      → ℕ
      → List ℕ
      → TestAnswers W
      → Log × Option W
      → Log × Option (Option R)
  after_gpu plan finish mode prefill_size gpu_mem_util a (log, none) = (log, none)
  after_gpu plan finish mode prefill_size gpu_mem_util a (log, some used) =
      after_disk plan finish mode prefill_size gpu_mem_util a (slept 2 ∷ log)
        (sweep_clear_lmcache_disk a.disk_found)

  -- One test: the outer `none` is an exception, the inner one the `None` that it returns.
  unfoldable pub run_test :
      {R : Type 0}
      → TestPlan W
      → (Monitored W → Option R)
      → List ℕ
      → ℕ
      → List ℕ
      → TestAnswers W
      → Log
      → Log × Option (Option R)
  run_test plan finish mode prefill_size gpu_mem_util a log =
      after_gpu plan finish mode prefill_size gpu_mem_util a (clear_gpu_processes a.gpu log)

-- The dict of `run_highfreq_test`, with what it prints of the samples during the request.
pub record HighfreqResult (W : Type 0) : Type 0 where
  pub success : Bool
  pub peak_vram : W
  pub vram_range : W
  pub min_vram : W
  pub max_vram : W
  pub sample_count : ℕ
  pub during : Option (W × W)

-- The dict of `run_extended_test`.
pub record ExtendedResult (W : Type 0) : Type 0 where
  pub extended_success : Bool
  pub extended_peak : W
  pub final_vram : W
  pub extended_count : ℕ

pub data Verdict : Type 0 where
  higher_peak higher_range no_difference : Verdict

module _ {W : Type 0} ⦃f : Float W⦄ where
  -- `[s for s in samples if request_start <= s["timestamp"] <= request_end + 2]`
  unfoldable pub request_samples : W → W → List (Snapshot W) → List (Snapshot W)
  request_samples request_start request_end [] = []
  request_samples request_start request_end (s ∷ ss) =
      let rest = request_samples request_start request_end ss in
      if f.le request_start s.timestamp && f.le s.timestamp (request_end ⊕ f.decimal 2 0)
      then s ∷ rest
      else rest

  -- `min` and `max` of the used memory; `none` is the `ValueError` of no samples
  unfoldable pub extremes : List (Snapshot W) → Option (W × W)
  extremes [] = none
  extremes (s ∷ ss) =
      let rest = map (λ (t : Snapshot W). t.used_vram_gb) ss in
      some (min_list s.used_vram_gb rest, max_list s.used_vram_gb rest)

  unfoldable pub highfreq_result : TestAnswers W → Monitored W → Option (HighfreqResult W)
  highfreq_result a m = extremes m.samples >>= λ e. some (record {
    success = sweep_succeeded m.latency;
    peak_vram = m.peak_vram;
    vram_range = e.1 ⊖ e.0;
    min_vram = e.0;
    max_vram = e.1;
    sample_count = length m.samples;
    during = extremes (request_samples a.request_start a.request_end m.samples);
  })

  abbrev pub highfreq_plan : List ℕ → TestPlan W
  highfreq_plan mode = record {
    interval = f.decimal 1 3;
    warm_up = 1;
    tail = 10;
    vram_file = experiment_dir ++ codes "/vram_highfreq_" ++ mode ++ codes ".jsonl";
  }

  unfoldable pub run_highfreq_test :
      List ℕ → ℕ → List ℕ → TestAnswers W → Log → Log × Option (Option (HighfreqResult W))
  run_highfreq_test mode prefill_size gpu_mem_util a log =
      run_test (highfreq_plan mode) (highfreq_result a) mode prefill_size gpu_mem_util a log

  unfoldable pub extended_result : Monitored W → Option (ExtendedResult W)
  extended_result m = some (record {
    extended_success = sweep_succeeded m.latency;
    extended_peak = m.peak_vram;
    final_vram = m.snapshot.used_vram_gb;
    extended_count = length m.samples;
  })

  abbrev pub extended_plan : List ℕ → TestPlan W
  extended_plan mode = record {
    interval = f.decimal 5 2;
    warm_up = 2;
    tail = 15;
    vram_file = experiment_dir ++ codes "/vram_extended_" ++ mode ++ codes ".jsonl";
  }

  unfoldable pub run_extended_test :
      List ℕ → ℕ → List ℕ → TestAnswers W → Log → Log × Option (Option (ExtendedResult W))
  run_extended_test mode prefill_size gpu_mem_util a log =
      run_test (extended_plan mode) extended_result mode prefill_size gpu_mem_util a log

  -- The file name has the decimal text of the size.
  abbrev pub quick_plan : List ℕ → List ℕ → TestPlan W
  quick_plan mode size = record {
    interval = f.decimal 1 1;
    warm_up = 2;
    tail = 5;
    vram_file =
        experiment_dir ++ codes "/vram_quicktest_" ++ mode ++ codes "_p" ++ size ++ codes ".jsonl";
  }

  -- The dict of `run_quick_test` is the success, the latency and the snapshot.
  unfoldable pub run_quick_test :
      List ℕ → ℕ × List ℕ → List ℕ → TestAnswers W → Log → Log × Option (Option (Monitored W))
  run_quick_test mode size gpu_mem_util a log =
      run_test (quick_plan mode size.1) (λ m. some m) mode size.0 gpu_mem_util a log

  -- The verdict of `main` in `highfreq_test.py`.
  unfoldable pub highfreq_verdict : HighfreqResult W → HighfreqResult W → Verdict
  highfreq_verdict native cachegen =
      if f.lt (f.decimal 1 2) (cachegen.peak_vram ⊖ native.peak_vram)
      then higher_peak
      else (if f.lt (f.decimal 1 2) (cachegen.vram_range ⊖ native.vram_range)
          then higher_range
          else no_difference)

  -- `main`: both tests with ten seconds between them, and the verdict if both return a result.
  abbrev pub verdict_of : Option (HighfreqResult W) → Option (HighfreqResult W) → Option Verdict
  verdict_of none cachegen = none
  verdict_of (some native) none = none
  verdict_of (some native) (some cachegen) = some (highfreq_verdict native cachegen)

  abbrev pub after_cachegen :
      Option (HighfreqResult W)
      → Log × Option (Option (HighfreqResult W))
      → Log × Option (Option Verdict)
  after_cachegen native (log, none) = (log, none)
  after_cachegen native (log, some cachegen) = (log, some (verdict_of native cachegen))

  abbrev pub after_native :
      TestAnswers W → Log × Option (Option (HighfreqResult W)) → Log × Option (Option Verdict)
  after_native b (log, none) = (log, none)
  after_native b (log, some native) =
      after_cachegen native
        (run_highfreq_test (codes "cachegen") 4096 (codes "0.5") b (slept 10 ∷ log))

  unfoldable pub highfreq_main : TestAnswers W → TestAnswers W → Log → Log × Option (Option Verdict)
  highfreq_main a b log =
      after_native b (run_highfreq_test (codes "native") 4096 (codes "0.5") a log)
