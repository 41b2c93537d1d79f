-- ===== src/Tests/FullSweeps.antt =====
-- The full sweep: a machine on which all goes well, and one whose servers do not answer.
use cachegen_plus.Base.{
  ℕ, zero, suc, ◌<◌, ◌≡◌, ◌≢◌, ◌↔◌, refl, true, false, List, [], ◌∷◌, map, Option, none, some, All,
  All-intro, ◌==◌, if◌then◌else◌, length, arith,
}
use cachegen_plus.Base.Int.{ℤ, pos}
use cachegen_plus.Float.Fixed.{fixed}
use cachegen_plus.Text.{codes, strip}
use cachegen_plus.Text.Substring.{starts_with, occurs_in}
use cachegen_plus.Answer.{RunResult, run_raised, exited}
use cachegen_plus.Disk.{dir, end}
use cachegen_plus.Timeline.{content, check_oom_in_log}
use cachegen_plus.Timeline.Probe.{
  clear_disk_cache, poll_from, wait_for_curl, size_text, cut_at, send_request, get_vram_usage,
}
use cachegen_plus.Timeline.Test.{
  Case, TimelineAnswers, World, Reading, server_ready, run_timeline_test, test_values, tested,
  not_ready,
}
use cachegen_plus.Timeline.Test.Servers.{timeline_alive, InTurn}
use cachegen_plus.Timeline.Test.Samples.{sampled, sampled_oom}
use cachegen_plus.Timeline.Plan.{SweepResult, timeline_file, full_cases, begin_sweep, full_sweep}
use cachegen_plus.Timeline.Plan.Done.{new_world, succeeds, is_done}
use cachegen_plus.Timeline.Plan.Kept.{attempts, full_sweep-keeps, full_sweep-attempts}
use cachegen_plus.Timeline.Plan.Ends.{Clearable, full_sweep-length, sweeps, sweeps_settle}
use cachegen_plus.Timeline.Plan.Again.{as_read, full_sweep-again}
use cachegen_plus.Timeline.Plan.Servers.{full_sweep-servers}
use cachegen_plus.Timeline.Plan.Logs.{logged, logged_oom, full_sweep-logs}
use cachegen_plus.Timeline.Compare.{Averages, compare_modes}
use cachegen_plus.Timeline.Compare.Shown.{HasSuccess, compare_modes-Shown}
use cachegen_plus.Tests.Data.{cache, clock}

stored_line : size_text (codes "Stored 256 tokens, size: 0.0087 GB, cost 3") ≡ some (codes "0.0087")
unfolding size_text cut_at occurs_in starts_with strip
stored_line = refl

abbrev polls : ℕ → RunResult
polls k = if k == 3 then exited 0 [] else run_raised

abbrev at_time : ℕ → Reading ℤ
at_time t = record { smi = exited 0 (codes "4096"); now = pos t }

abbrev going_well : TimelineAnswers ℤ
going_well = record {
  disk_found = none;
  started_at = pos 1000;
  before_start = exited 0 (codes "512");
  clock = clock;
  polls = polls;
  after_start = at_time 7000;
  disk_initial = some (dir end);
  before_request = at_time 7001;
  request = exited 0 [];
  request_start = pos 7002;
  request_end = pos 7900;
  during_request = at_time 7901;
  log_searched = content (codes "ready");
  at_oom = at_time 7902;
  disk_final = some (dir cache);
  after_compression = at_time 12900;
  log_final = content (codes "Stored 256 tokens, size: 0.0087 GB");
  saved_at = pos 13000;
}

-- No server answers, and its log reports an error.
abbrev silent : TimelineAnswers ℤ
silent = record going_well {
  polls = λ k. run_raised;
  log_searched = content (codes "torch.OutOfMemoryError");
}

well_Clearable : Clearable ℤ going_well
unfolding clear_disk_cache
well_Clearable = (_, refl)

silent_Clearable : Clearable ℤ silent
unfolding clear_disk_cache
silent_Clearable = (_, refl)

well_succeeds : (c : Case ℤ) → succeeds ℤ c going_well ≡ true
unfolding run_timeline_test clear_disk_cache server_ready wait_for_curl poll_from test_values
    send_request
well_succeeds c = refl

silent_returns :
    (c : Case ℤ) (w : World ℤ)
    → (run_timeline_test c silent w).1
      ≡ some (not_ready c true (codes "request") (get_vram_usage silent.before_start))
unfolding run_timeline_test clear_disk_cache server_ready wait_for_curl poll_from check_oom_in_log
    occurs_in starts_with
silent_returns c w = refl

a_case : Case ℤ
a_case = record {
  mode = codes "native";
  prefill_size = 128;
  gpu_util = pos 300;
  prefill_text = codes "128";
  gpu_text = codes "0.3";
}

-- The first sweep finds silent servers, the second goes well.
machines : ℕ → Case ℤ → TimelineAnswers ℤ
machines zero c = silent
machines (suc i) c = going_well

machines_Clearable : (i : ℕ) (c : Case ℤ) → Clearable ℤ (machines i c)
unfolding machines
machines_Clearable zero c = silent_Clearable
machines_Clearable (suc i) c = well_Clearable

machines_well : All (λ (c : Case ℤ). (1 < 2) × (succeeds ℤ c (machines 1 c) ≡ true)) full_cases
unfolding machines
machines_well = All-intro _ full_cases (λ c. (omega arith, well_succeeds c))

sweeps_settle_example :
    All
      (λ (c : Case ℤ). is_done ℤ (sweeps ℤ machines 2 (new_world ℤ)) (timeline_file c) ≡ true)
      full_cases
unfolding machines
sweeps_settle_example =
    sweeps_settle ℤ machines (new_world ℤ) 2 (λ c. 1) machines_Clearable machines_well

full_sweep-length_example :
    (left : List (SweepResult ℤ)) × ((full_sweep (machines 0) (new_world ℤ)).1 ≡ some left)
    × (length left ≡ 40)
full_sweep-length_example = full_sweep-length ℤ (machines 0) (new_world ℤ) (machines_Clearable 0)

settled : World ℤ
settled = sweeps ℤ machines 2 (new_world ℤ)

settled_done : is_done ℤ settled (timeline_file a_case) ≡ true
unfolding machines settled timeline_file full_cases a_case
settled_done =
    (sweeps_settle ℤ machines (new_world ℤ) 2 (λ c. 1) machines_Clearable machines_well).0

full_sweep-keeps_example :
    (full_sweep (machines 0) settled).0.files (timeline_file a_case)
    ≡ settled.files (timeline_file a_case)
full_sweep-keeps_example =
    full_sweep-keeps ℤ (machines 0) settled (timeline_file a_case) settled_done

full_sweep-attempts_example :
    is_done ℤ (full_sweep (machines 0) settled).0 (timeline_file a_case)
    ≡ attempts ℤ (machines 0) full_cases (is_done ℤ settled) (timeline_file a_case)
full_sweep-attempts_example =
    full_sweep-attempts ℤ (machines 0) settled
      (full_sweep-length ℤ (machines 0) settled (machines_Clearable 0)).1 (timeline_file a_case)

full_sweep-again_example :
    (left : List (SweepResult ℤ)) × ((full_sweep (machines 1) (new_world ℤ)).1 ≡ some left)
    × (full_sweep (machines 0) (full_sweep (machines 1) (new_world ℤ)).0
        ≡ (begin_sweep (full_sweep (machines 1) (new_world ℤ)).0, some (map (as_read ℤ) left)))
unfolding machines
full_sweep-again_example =
    full_sweep-again ℤ (machines 1) (machines 0) (new_world ℤ) (machines_Clearable 1)
      (All-intro _ full_cases (λ c. well_succeeds c))

full_sweep-servers_example :
    let acts = (full_sweep (machines 0) (new_world ℤ)).0.acts in
    (timeline_alive acts ≡ 0) × InTurn acts
full_sweep-servers_example = full_sweep-servers ℤ (machines 0) (new_world ℤ) tt

full_sweep-logs_example :
    let left = (full_sweep-length ℤ (machines 0) (new_world ℤ) (machines_Clearable 0)).0 in
    (map (sampled ℤ) (full_sweep (machines 0) (new_world ℤ)).0.vram_rows ≡ logged ℤ left)
    × (map (sampled_oom ℤ) (full_sweep (machines 0) (new_world ℤ)).0.oom_rows ≡ logged_oom ℤ left)
full_sweep-logs_example =
    full_sweep-logs ℤ (machines 0) (new_world ℤ)
      (full_sweep-length ℤ (machines 0) (new_world ℤ) (machines_Clearable 0)).1

one_result : List (SweepResult ℤ)
one_result = record { typed = false; result = tested a_case (test_values going_well) } ∷ []

compare_modes-Shown_example :
    (table : Option (Averages ℤ)) × (compare_modes one_result ≡ some table)
    × ((table ≢ none)
        ↔ (HasSuccess ℤ (codes "native") one_result × HasSuccess ℤ (codes "cachegen") one_result))
compare_modes-Shown_example = compare_modes-Shown ℤ one_result
