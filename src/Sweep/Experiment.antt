-- ===== src/Sweep/Experiment.antt =====
-- `start_vllm`, `clear_gpu_processes` and `run_single_experiment` of
-- tkdgjs/experiment/run_sweep_experiment.py. An exception is `none`.
pub mod Reports
pub mod Paths
use cachegen_plus.Base.{
  ℕ, ◌^◌, Bool, true, false, List, [], ◌∷◌, ◌++◌, Option, none, some, ◌==◌, if◌then◌else◌, ◌>>=◌,
  or_default, length,
}
use cachegen_plus.Base.Int.{ℤ, pos, ◌-ℤ◌}
use cachegen_plus.Float.{Float, ◌⊕◌, ◌⊖◌, ◌⊘◌}
use cachegen_plus.Text.{codes, strip}
use cachegen_plus.Answer.{RunResult, run_raised, exited, HttpReply}
use cachegen_plus.Disk.{Node, get_disk_usage, sweep_clear_lmcache_disk}
use cachegen_plus.Server.{
  Launch, wait_for_vllm, disk_path, experiment_dir, native_config, same_codes, sweep_command,
}
use cachegen_plus.Host.{Log, Event, gpu_reset, killed, spawned, slept, cleared, requested, saved}
use cachegen_plus.Vram.Request.{PostOutcome, post_raised, answered, token_times, first_token}
use cachegen_plus.Vram.Experiment.{stop_vllm}
use cachegen_plus.Sweep.Measure.{Snapshot, SweepReadings, sweep_measure}
use cachegen_plus.Sweep.Loop.{
  SweepLoop, sweep_new_loop, sweep_start, sweep_stop, sweep_thread_steps, get_snapshot,
}
use cachegen_plus.Sweep.Report.{
  SweepLatency, SweepRequest, VramReport, CompletionReport, SweepReport, sweep_send_request,
  sweep_succeeded, vram_report, completion_report,
}

-- What the machine answers during one experiment.
pub record SweepAnswers (W : Type 0) : Type 0 where
  -- the tree under each path when the cache is cleared, before the request and after it
  pub disk_found : List ℕ → Option Node
  pub disk_before : List ℕ → Option Node
  pub disk_after : List ℕ → Option Node
  -- the clock in milliseconds and the replies while the server starts
  pub clock : ℕ → ℕ
  pub replies : ℕ → HttpReply
  -- the time and the answers from which the baseline is measured
  pub start_time : W
  pub idle : SweepReadings
  -- the steps of the sampling thread up to `stop`, then up to `get_snapshot`, to `get_samples` and
  -- to `get_peak_vram`
  pub work : List (SweepReadings × W)
  pub late : List (SweepReadings × W)
  pub later : List (SweepReadings × W)
  pub latest : List (SweepReadings × W)
  pub request_time : W
  pub post : PostOutcome W
  -- the answers to the main thread's own measurement after the request
  pub completion : SweepReadings

-- `{"error": "Failed to start vLLM"}`, or the result and the samples that were written to the file
pub data SweepOutcome (W : Type 0) : Type 0 where
  sweep_start_failed : SweepOutcome W
  sweep_reported : SweepReport W → List (Snapshot W) → SweepOutcome W

-- `start_vllm` up to the start of the process; the utilization is its decimal text.
unfoldable pub sweep_launch : List ℕ → List ℕ → Launch
sweep_launch serde_type gpu_mem_util =
    let log =
      experiment_dir
      ++ codes "/vllm_"
      ++ serde_type
      ++ codes "_gm"
      ++ gpu_mem_util
      ++ codes ".log" in
    if same_codes serde_type (codes "cachegen")
    then record {
      config_path = experiment_dir ++ codes "/lmcache_cachegen.yaml";
      written = none;
      cache_disk = disk_path (codes "cachegen");
      log_file = log;
      command = sweep_command gpu_mem_util;
    }
    else record {
      config_path = native_config;
      written = none;
      cache_disk = disk_path (codes "torch");
      log_file = log;
      command = sweep_command gpu_mem_util;
    }

unfoldable pub sweep_start_vllm : List ℕ → List ℕ → Log → Log
sweep_start_vllm mode gpu_mem_util log =
    spawned (sweep_launch mode gpu_mem_util) ∷ slept 3 ∷ killed ∷ log

-- `vram_log_file`, from the mode, the decimal text of the size and that of the utilization
abbrev pub vram_log_file : List ℕ → List ℕ → List ℕ → List ℕ
vram_log_file mode size gpu_mem_util =
    experiment_dir
    ++ codes "/vram_timeseries_"
    ++ mode
    ++ codes "_p"
    ++ size
    ++ codes "_gm"
    ++ gpu_mem_util
    ++ codes ".jsonl"

module _ {W : Type 0} ⦃f : Float W⦄ where
  -- The used GB against the limit, from the MB that were read.
  abbrev pub after_smi : Log → Option W → Log × Option W
  after_smi log none = (log, none)
  after_smi log (some mb) =
      let used = mb ⊘ f.of_int (pos 1024) in
      (if f.lt (f.decimal 10 1) used then slept 5 ∷ gpu_reset ∷ log else log, some used)

  -- `clear_gpu_processes`: the GB that nvidia-smi still reports
  unfoldable pub clear_gpu_processes : RunResult → Log → Log × Option W
  clear_gpu_processes run_raised log = (slept 3 ∷ killed ∷ killed ∷ log, none)
  clear_gpu_processes (exited code out) log =
      after_smi (slept 3 ∷ killed ∷ killed ∷ log) (f.parse (strip out))

  -- A timeout of 180 s takes at most 90 rounds of two seconds, and one more that ends the loop.
  unfoldable pub sweep_waited : SweepAnswers W → Bool
  sweep_waited a = or_default false (wait_for_vllm a.clock a.replies (a.clock 0) 180000 91)

  -- The monitor when `get_snapshot` is called: neither the class nor the call is told the mode.
  unfoldable pub sweep_stopped : SweepAnswers W → SweepLoop W
  sweep_stopped a = sweep_thread_steps a.late (
      sweep_stop (
        sweep_thread_steps a.work
          (sweep_start a.start_time a.idle (sweep_new_loop (f.decimal 1 2) 8000 false))))

  unfoldable pub sweep_report_of :
      List ℕ → ℕ → List ℕ → SweepAnswers W → Snapshot W → W → SweepReport W
  sweep_report_of mode prefill_size gpu_mem_util a s peak =
      let path = disk_path mode in
      let grown =
        pos (get_disk_usage (a.disk_after path)).1 -ℤ pos (get_disk_usage (a.disk_before path)).1 in
      let latency = sweep_send_request prefill_size a.request_time a.post in
      record {
        mode = mode;
        prefill_size = prefill_size;
        gpu_memory_utilization = gpu_mem_util;
        success = sweep_succeeded latency;
        latency = latency;
        vram = vram_report s peak;
        vram_at_completion =
            completion_report
              (sweep_measure none (same_codes mode (codes "cachegen")) a.completion);
        offloaded_size_mb = f.round (f.of_int grown ⊘ f.of_int (pos (1024 ^ 2))) 2;
      }

  -- The end of an experiment, from `get_snapshot` on; the text is that of the size.
  abbrev pub after_snapshot :
      List ℕ
      → ℕ × List ℕ
      → List ℕ
      → SweepAnswers W
      → Log
      → Option (Snapshot W)
      → Log × Option (SweepOutcome W)
  after_snapshot mode size gpu_mem_util a log none = (log, none)
  after_snapshot mode size gpu_mem_util a log (some s) =
      let written = sweep_thread_steps a.later (sweep_stopped a) in
      let peak = (sweep_thread_steps a.latest written).peak_vram_gb in
      (
        stop_vllm (saved (vram_log_file mode size.1 gpu_mem_util) ∷ log),
        some (sweep_reported (sweep_report_of mode size.0 gpu_mem_util a s peak) written.samples),
      )

  -- From the warm-up to `stop_vllm`, on a server that is ready.
  unfoldable pub sweep_measure_server :
      List ℕ → ℕ × List ℕ → List ℕ → SweepAnswers W → Log → Log × Option (SweepOutcome W)
  sweep_measure_server mode size gpu_mem_util a log =
      after_snapshot mode size gpu_mem_util a
        (slept 30 ∷ requested size.0 ∷ slept 30 ∷ slept 30 ∷ log) (get_snapshot (sweep_stopped a))

  abbrev pub after_sweep_clear :
      List ℕ
      → ℕ × List ℕ
      → List ℕ
      → SweepAnswers W
      → Log
      → Option Node
      → Log × Option (SweepOutcome W)
  after_sweep_clear mode size gpu_mem_util a log none = (log, none)
  after_sweep_clear mode size gpu_mem_util a log (some left) =
      let started = sweep_start_vllm mode gpu_mem_util (cleared (disk_path mode) ∷ log) in
      let measured = sweep_measure_server mode size gpu_mem_util a started in
      if sweep_waited a then measured else (started, some sweep_start_failed)

  -- A size comes with its decimal text.
  unfoldable pub sweep_single_experiment :
      List ℕ → ℕ × List ℕ → List ℕ → SweepAnswers W → Log → Log × Option (SweepOutcome W)
  sweep_single_experiment mode size gpu_mem_util a log =
      after_sweep_clear mode size gpu_mem_util a log
        (sweep_clear_lmcache_disk (a.disk_found (disk_path mode)))
