-- ===== src/Vram/Experiment.antt =====
-- `start_vllm`, `get_chunk_count_from_vllm` and `run_single_experiment` of
-- tkdgjs/experiment/run_vram_experiment.py. An exception is `none`.
pub mod Counts
pub mod Cache
use cachegen_plus.Base.{
  ℕ, ◌^◌, Bool, true, false, List, [], ◌∷◌, ◌++◌, Option, none, some, ◌==◌, if◌then◌else◌, ◌>>=◌,
  or_default, length,
}
use cachegen_plus.Base.Int.{ℤ, pos, ◌-ℤ◌}
use cachegen_plus.Float.{Float, ◌⊘◌}
use cachegen_plus.Text.{codes, number}
use cachegen_plus.Text.Pattern.{search_any}
use cachegen_plus.Answer.{HttpReply, unreachable, reply}
use cachegen_plus.Disk.{Node, get_disk_usage, clear_lmcache_disk}
use cachegen_plus.Server.{wait_for_vllm, disk_path, launch, experiment_dir}
use cachegen_plus.Host.{Log, Event, killed, spawned, slept, cleared, requested, saved}
use cachegen_plus.Vram.Kv.{spaced_number}
use cachegen_plus.Vram.Measure.{Readings}
use cachegen_plus.Vram.Loop.{FullVramMonitorLoop, new_loop, start, stop, thread_steps}
use cachegen_plus.Vram.Stats.{Stats, get_stats}
use cachegen_plus.Vram.Request.{
  PostOutcome, RequestResult, request_failed, request_done, send_request_and_measure,
}

-- What the machine answers during one experiment.
pub record Answers (W : Type 0) : Type 0 where
  -- the tree under each path when the cache is cleared, before the request and after it
  pub disk_found : List ℕ → Option Node
  pub disk_before : List ℕ → Option Node
  pub disk_after : List ℕ → Option Node
  -- the clock in milliseconds and the replies while the server starts
  pub clock : ℕ → ℕ
  pub replies : ℕ → HttpReply
  -- the time and the answers from which the baseline is measured
  pub start_time : W
  pub idle : Readings
  -- the steps of the sampling thread up to `stop`, up to `get_samples` and up to `get_stats`
  pub work : List (Readings × W)
  pub late : List (Readings × W)
  pub later : List (Readings × W)
  pub request_time : W
  pub post : PostOutcome W
  pub chunk_metrics : HttpReply

pub record DiskReport (W : Type 0) : Type 0 where
  pub before_files : ℕ
  pub before_size_bytes : ℕ
  pub after_files : ℕ
  pub after_size_bytes : ℕ
  pub offloaded_files : ℤ
  pub offloaded_size_bytes : ℤ
  pub offloaded_size_mb : W

pub record Report (W : Type 0) : Type 0 where
  pub mode : List ℕ
  pub prefill_size : ℕ
  pub success : Bool
  pub latency : RequestResult W
  pub vram : Option (Stats W)
  pub disk : DiskReport W
  pub chunk_count : Option ℕ
  pub vram_samples_count : ℕ

-- `{"error": "Failed to start vLLM"}`, or the report
pub data Outcome (W : Type 0) : Type 0 where
  start_failed : Outcome W
  reported : Report W → Outcome W

unfoldable pub chunk_count_from_vllm : HttpReply → Option ℕ
chunk_count_from_vllm unreachable = none
chunk_count_from_vllm (reply status text) =
    if status == 200
    then (search_any
          (spaced_number "lmcache_kv_local_chunk_count_total"
            ∷ spaced_number "vllm_cache_stat_total_chunks"
            ∷ [])
          text
        >>= λ digits. some (number digits))
    else none

abbrev pub succeeded : {W : Type 0} → RequestResult W → Bool
succeeded (request_failed message) = false
succeeded (request_done latency) = true

-- The log of `start_vllm`, which waits three seconds after killing an old server. The server that
-- does not become ready is not killed.
unfoldable pub start_vllm : List ℕ → Log → Log
start_vllm mode log = spawned (launch mode) ∷ slept 3 ∷ killed ∷ log

unfoldable pub stop_vllm : Log → Log
stop_vllm log = slept 3 ∷ killed ∷ log

module _ {W : Type 0} ⦃f : Float W⦄ where
  -- A timeout of 180 s takes at most 90 rounds of two seconds, and one more that ends the loop.
  unfoldable pub waited : Answers W → Bool
  waited a = or_default false (wait_for_vllm a.clock a.replies (a.clock 0) 180000 91)

  unfoldable pub disk_report : ℕ × ℕ → ℕ × ℕ → DiskReport W
  disk_report before after = record {
    before_files = before.0;
    before_size_bytes = before.1;
    after_files = after.0;
    after_size_bytes = after.1;
    offloaded_files = pos after.0 -ℤ pos before.0;
    offloaded_size_bytes = pos after.1 -ℤ pos before.1;
    offloaded_size_mb =
        f.round (f.of_int (pos after.1 -ℤ pos before.1) ⊘ f.of_int (pos (1024 ^ 2))) 2;
  }

  -- The monitor after `stop`, when `get_samples` copies the samples.
  unfoldable pub stopped_loop : Answers W → FullVramMonitorLoop W
  stopped_loop a =
      thread_steps a.late
        (stop (thread_steps a.work (start a.start_time a.idle (new_loop (f.decimal 1 1) 8000))))

  unfoldable pub report_of : List ℕ → ℕ → Answers W → RequestResult W → Option (Stats W) → Report W
  report_of mode prefill_size a latency stats =
      let path = disk_path mode in
      record {
        mode = mode;
        prefill_size = prefill_size;
        success = succeeded latency;
        latency = latency;
        vram = stats;
        disk =
            disk_report (get_disk_usage (a.disk_before path)) (get_disk_usage (a.disk_after path));
        chunk_count = chunk_count_from_vllm a.chunk_metrics;
        vram_samples_count = length (stopped_loop a).samples;
      }

  -- The end of an experiment, once `get_stats` has returned or raised.
  abbrev pub after_stats :
      List ℕ
      → ℕ
      → Answers W
      → Log
      → RequestResult W
      → Option (Option (Stats W))
      → Log × Option (Outcome W)
  after_stats mode prefill_size a log latency none = (log, none)
  after_stats mode prefill_size a log latency (some stats) =
      (stop_vllm log, some (reported (report_of mode prefill_size a latency stats)))

  abbrev pub after_request :
      List ℕ → ℕ → Answers W → Log → Option (RequestResult W) → Log × Option (Outcome W)
  after_request mode prefill_size a log none = (log, none)
  after_request mode prefill_size a log (some latency) =
      after_stats mode prefill_size a (slept 10 ∷ log) latency
        (get_stats (thread_steps a.later (stopped_loop a)))

  -- From the start of the monitor to `stop_vllm`, on a server that is ready.
  unfoldable pub measure_server : List ℕ → ℕ → Answers W → Log → Log × Option (Outcome W)
  measure_server mode prefill_size a log =
      after_request mode prefill_size a (requested prefill_size ∷ slept 2 ∷ slept 30 ∷ log)
        (send_request_and_measure prefill_size a.request_time a.post)

  abbrev pub after_clear : List ℕ → ℕ → Answers W → Log → Option Node → Log × Option (Outcome W)
  after_clear mode prefill_size a log none = (log, none)
  after_clear mode prefill_size a log (some empty) =
      let started = start_vllm mode (cleared (disk_path mode) ∷ log) in
      let measured = measure_server mode prefill_size a started in
      if waited a then measured else (started, some start_failed)

  unfoldable pub run_single_experiment : List ℕ → ℕ → Answers W → Log → Log × Option (Outcome W)
  run_single_experiment mode prefill_size a log =
      after_clear mode prefill_size a log (clear_lmcache_disk (a.disk_found (disk_path mode)))
