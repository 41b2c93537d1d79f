-- ===== src/Timeline/Test.antt =====
-- `run_timeline_test` of tkdgjs/experiment/run_full_sweep.py and the state of the sweep: what was
-- done to the machine, the two logs and the timeline files.

pub mod Servers
pub mod Samples
use cachegen_plus.Base.{
  ℕ, ◌*◌, ◌/◌, Bool, true, false, List, [], ◌∷◌, ◌++◌, Option, none, some, if◌then◌else◌,
  or_default,
}
use cachegen_plus.Base.Int.{ℤ, pos, ◌-ℤ◌}
use cachegen_plus.Float.{Float, ◌⊗◌, ◌⊘◌}
use cachegen_plus.Text.{codes}
use cachegen_plus.Answer.{RunResult}
use cachegen_plus.Disk.{Node}
use cachegen_plus.Server.{disk_path}
use cachegen_plus.Timeline.{LogFile, check_oom_in_log}
use cachegen_plus.Timeline.Probe.{
  clear_disk_cache, get_disk_size, wait_for_curl, TimelineLaunch, timeline_launch, get_vram_usage,
  send_request, stored_size,
}

-- A combination, with the decimal texts of its numbers.
pub record Case (W : Type 0) : Type 0 where
  pub mode : List ℕ
  pub prefill_size : ℕ
  pub gpu_util : W
  pub prefill_text : List ℕ
  pub gpu_text : List ℕ

-- The dict of a test whose server answered.
pub record TestValues (W : Type 0) : Type 0 where
  pub success : Bool
  pub latency_sec : W
  pub disk_offload_bytes : ℤ
  pub disk_offload_mb : W
  pub compression_ratio : W
  pub kv_cache_size_gb : W
  pub compressed_size_gb : W
  pub oom_detected : Bool
  pub oom_stage : List ℕ
  pub vram_before_start_gb : W
  pub vram_after_start_gb : W
  pub vram_before_request_gb : W
  pub vram_during_request_gb : W
  pub vram_after_compression_gb : W

-- What `run_timeline_test` returns. In the second form, with the error "vLLM not ready", are
-- `oom_detected`, `oom_stage` and `vram_before_start_gb`.
pub data TestResult (W : Type 0) : Type 0 where
  tested : Case W → TestValues W → TestResult W
  not_ready : Case W → Bool → List ℕ → W → TestResult W

-- A line of a timeline file, as `json.loads` reads it: the error of a text that is no JSON, a result
-- line of this script, or any other object.
pub data Line (W : Type 0) : Type 0 where
  garbled : Line W
  result_line : TestResult W → Line W
  metadata_line : Case W → W → Line W

-- What the script does to the machine.
pub data TimelineAct : Type 0 where
  -- `pkill -9 -f vllm` and `pkill -9 -f EngineCore`
  vllm_killed : TimelineAct
  engine_killed : TimelineAct
  -- `time.sleep`, in seconds
  paused : ℕ → TimelineAct
  cache_cleared : List ℕ → TimelineAct
  server_started : TimelineLaunch → TimelineAct
  -- a request with so many repetitions of the sentence
  prompted : ℕ → TimelineAct
  -- `proc.kill()` of the server that was started last
  server_killed : TimelineAct

-- A line of `vram_timeline.log`.
pub record VramRow (W : Type 0) : Type 0 where
  pub timestamp : W
  pub of_case : Case W
  pub stage : List ℕ
  pub vram_gb : W

-- A line of `oom_events.log`.
pub record OomRow (W : Type 0) : Type 0 where
  pub oom_timestamp : W
  pub oom_case : Case W
  pub oom_at : List ℕ
  pub oom_vram_gb : W
  pub oom_log_file : List ℕ

-- The state. The acts have the latest first; the files are given by their path.
pub record World (W : Type 0) : Type 0 where
  pub acts : List TimelineAct
  pub vram_rows : List (VramRow W)
  pub oom_rows : List (OomRow W)
  pub files : List ℕ → Option (List (Line W))

-- One reading of nvidia-smi, and the time that is logged with it.
pub record Reading (W : Type 0) : Type 0 where
  pub smi : RunResult
  pub now : W

-- What the machine answers during one test.
pub record TimelineAnswers (W : Type 0) : Type 0 where
  pub disk_found : Option Node
  -- `timestamp_start`
  pub started_at : W
  pub before_start : RunResult
  pub clock : ℕ → ℕ
  pub polls : ℕ → RunResult
  pub after_start : Reading W
  pub disk_initial : Option Node
  pub before_request : Reading W
  pub request : RunResult
  pub request_start : W
  pub request_end : W
  pub during_request : Reading W
  -- the server's log where it is searched for an error, and the reading that is logged with one
  pub log_searched : LogFile
  pub at_oom : Reading W
  pub disk_final : Option Node
  pub after_compression : Reading W
  pub log_final : LogFile
  -- the time in the metadata line of the file
  pub saved_at : W

unfoldable pub cleanup_gpu : List TimelineAct → List TimelineAct
cleanup_gpu acts = paused 3 ∷ engine_killed ∷ vllm_killed ∷ acts

-- `has_oom, stage = check_oom_in_log(log_file)`, which sets `oom_detected` and `oom_stage`
abbrev pub oom_found : Bool × List ℕ → Bool × List ℕ
oom_found (true, stage) = (true, stage)
oom_found (false, stage) = (false, codes "none")

-- `if not success: has_oom, stage = check_oom_in_log(log_file)`
abbrev pub request_oom : Bool → LogFile → Bool × List ℕ
request_oom true log = (false, codes "none")
request_oom false log = check_oom_in_log log

-- A timeout of 120 s takes at most 60 rounds of two seconds, and one more that ends the loop.
unfoldable pub server_ready : {W : Type 0} → TimelineAnswers W → Bool
server_ready a = or_default false (wait_for_curl a.clock a.polls (a.clock 0) 120000 61)

module _ {W : Type 0} ⦃f : Float W⦄ where
  abbrev pub vram_row : Case W → List ℕ → W → RunResult → VramRow W
  vram_row c stage now smi = record {
    timestamp = now;
    of_case = c;
    stage = stage;
    vram_gb = get_vram_usage smi;
  }

  abbrev pub log_vram_sample : VramRow W → World W → World W
  log_vram_sample row w = record w { vram_rows = w.vram_rows ++ row ∷ [] }

  -- `if has_oom: log_oom_event(…)`
  abbrev pub log_oom_event : Case W → Reading W → Bool × List ℕ → World W → World W
  log_oom_event c r (false, stage) w = w
  log_oom_event c r (true, stage) w = record w {
    oom_rows =
        w.oom_rows
        ++ record {
          oom_timestamp = r.now;
          oom_case = c;
          oom_at = stage;
          oom_vram_gb = get_vram_usage r.smi;
          oom_log_file = (timeline_launch c.mode c.gpu_text).log_file;
        }
          ∷ [];
  }

  -- From the cleared cache directory to the start of the server.
  abbrev pub start_test : Case W → TimelineAnswers W → World W → World W
  start_test c a w =
      let w1 =
        log_vram_sample (vram_row c (codes "before_start") a.started_at a.before_start)
          (record w { acts = cache_cleared (disk_path c.mode) ∷ w.acts }) in
      record w1 { acts = server_started (timeline_launch c.mode c.gpu_text) ∷ w1.acts }

  -- `proc.kill(); time.sleep(2)`
  abbrev pub end_server : World W → World W
  end_server w = record w { acts = paused 2 ∷ server_killed ∷ w.acts }

  -- The branch of a server that does not answer.
  abbrev pub give_up : Case W → TimelineAnswers W → World W → World W × TestResult W
  give_up c a w =
      let found = check_oom_in_log a.log_searched in
      let oom = oom_found found in
      (
        end_server (log_oom_event c a.at_oom found w),
        not_ready c oom.0 oom.1 (get_vram_usage a.before_start),
      )

  unfoldable pub test_values : TimelineAnswers W → TestValues W
  test_values a =
      let sent = send_request a.request a.request_start a.request_end in
      let oom = oom_found (request_oom sent.0 a.log_searched) in
      let offloaded = pos (get_disk_size a.disk_final) -ℤ pos (get_disk_size a.disk_initial) in
      let ratio = stored_size a.log_final in
      record {
        success = sent.0;
        latency_sec = sent.1;
        disk_offload_bytes = offloaded;
        disk_offload_mb = f.of_int offloaded ⊘ f.of_int (pos (1024 * 1024));
        compression_ratio = ratio;
        kv_cache_size_gb = ratio;
        compressed_size_gb = if f.lt f.nought ratio then ratio ⊗ f.decimal 3 1 else f.nought;
        oom_detected = oom.0;
        oom_stage = oom.1;
        vram_before_start_gb = get_vram_usage a.before_start;
        vram_after_start_gb = get_vram_usage a.after_start.smi;
        vram_before_request_gb = get_vram_usage a.before_request.smi;
        vram_during_request_gb = get_vram_usage a.during_request.smi;
        vram_after_compression_gb = get_vram_usage a.after_compression.smi;
      }

  abbrev pub sample_at : Case W → List ℕ → Reading W → World W → World W
  sample_at c stage r w = log_vram_sample (vram_row c stage r.now r.smi) w

  -- The samples around the request.
  abbrev pub send_prompt : Case W → TimelineAnswers W → World W → World W
  send_prompt c a w =
      let w1 =
        sample_at c (codes "before_request") a.before_request
          (sample_at c (codes "after_start") a.after_start w) in
      sample_at c (codes "during_request") a.during_request
        (record w1 { acts = prompted (c.prefill_size / 5) ∷ w1.acts })

  -- The branch of a server that answers.
  abbrev pub request_test : Case W → TimelineAnswers W → World W → World W × TestResult W
  request_test c a w =
      let sent = send_request a.request a.request_start a.request_end in
      let w1 = log_oom_event c a.at_oom (request_oom sent.0 a.log_searched) (send_prompt c a w) in
      let w2 = record w1 { acts = paused 5 ∷ w1.acts } in
      (
        end_server (sample_at c (codes "after_compression") a.after_compression w2),
        tested c (test_values a),
      )

  abbrev pub after_clear :
      Case W → TimelineAnswers W → World W → Option Node → World W × Option (TestResult W)
  after_clear c a w none = (w, none)
  after_clear c a w (some left) =
      let w1 = start_test c a w in
      let out = if server_ready a then request_test c a w1 else give_up c a w1 in
      (out.0, some out.1)

  -- `none` is the exception of a cache directory that cannot be cleared.
  unfoldable pub run_timeline_test :
      Case W → TimelineAnswers W → World W → World W × Option (TestResult W)
  run_timeline_test c a w =
      after_clear c a (record w { acts = paused 2 ∷ cleanup_gpu w.acts })
        (clear_disk_cache a.disk_found)
