-- ===== src/Tests/Singles.antt =====
-- The single measurements, the stand-alone monitor and the tables over timeline files.
use cachegen_plus.Base.{
  ℕ, ◌≤◌, ◌≡◌, refl, true, false, List, [], ◌∷◌, ◌++◌, map, none, some, length,
}
use cachegen_plus.Base.Int.{ℤ, pos, negsuc, ◌-ℤ◌, ◌*ℤ◌, ◌/ℤ◌}
use cachegen_plus.Float.Fixed.{fixed, fixed-IsOrdered, parse_fixed}
use cachegen_plus.Text.{codes, number, strip}
use cachegen_plus.Answer.{exited, reply}
use cachegen_plus.Disk.{dir, sweep_clear_lmcache_disk}
use cachegen_plus.Host.{running, AtMostOne}
use cachegen_plus.Server.{wait_for_vllm, wait_from, same_codes}
use cachegen_plus.Sweep.Measure.{SweepReadings, sweep_measure, sweep_set_baseline}
use cachegen_plus.Sweep.Loop.{
  sweep_new_loop, sweep_start, sweep_stop, sweep_thread_steps, sweep_thread_step, sweep_phase_step,
  get_snapshot,
}
use cachegen_plus.Sweep.Experiment.{clear_gpu_processes}
use cachegen_plus.Single.{
  TestAnswers, HighfreqResult, first_wait, second_wait, test_stopped, monitored, run_test, extremes,
  highfreq_result, highfreq_plan, run_highfreq_test, extended_plan, extended_result,
}
use cachegen_plus.Single.Extremes.{written, Reports, run_highfreq_test-Reports}
use cachegen_plus.Single.Servers.{LeftBy, run_test-servers}
use cachegen_plus.Watch.{
  Watch, WatchSample, WatchReading, new_watch, watch_start, watch_steps, watch_main, watch_stats_of,
}
use cachegen_plus.Watch.Pending.{watch_main-late}
use cachegen_plus.Timeline.Test.{Case, TestValues, TestResult, tested, not_ready}
use cachegen_plus.Analysis.{
  after_start_of, note_results, compare_prefills, compare_utils, compare_native_vs_cachegen,
}
use cachegen_plus.Analysis.Compared.{last_table, compare_native_vs_cachegen-last}
use cachegen_plus.Tests.Data.{page, smi_line, clock, replies, streamed, cache}

idle : SweepReadings
idle = record { smi = exited 0 smi_line; kv_page = reply 200 page; metrics_page = reply 200 page }

answers : TestAnswers ℤ
unfolding idle
answers = record {
  gpu = exited 0 (codes "512");
  disk_found = some (dir cache);
  clock = clock;
  replies = replies;
  second_clock = clock;
  second_replies = replies;
  start_time = pos 8000000;
  idle = idle;
  work =
      (idle, pos 8000000)
      ∷ (idle, pos 8100000)
      ∷ (idle, pos 8200000)
      ∷ (idle, pos 8300000)
      ∷ (idle, pos 8400000)
      ∷ [];
  late = [];
  later = [];
  latest = [];
  request_time = pos 10000000;
  request_start = pos 8100000;
  request_end = pos 9000000;
  post = streamed;
}

one_test :
    (r : HighfreqResult ℤ) × ((run_highfreq_test (codes "cachegen") 4096 (codes "0.5") answers []).1
      ≡ some (some r))
unfolding answers idle run_highfreq_test run_test clear_gpu_processes strip parse_fixed number ◌/ℤ◌
    ◌*ℤ◌ sweep_clear_lmcache_disk first_wait second_wait wait_for_vllm wait_from monitored
    test_stopped sweep_new_loop sweep_start sweep_stop sweep_thread_steps sweep_thread_step
    sweep_phase_step sweep_set_baseline get_snapshot highfreq_result extremes
one_test = (_, refl)

run_highfreq_test-Reports_example :
    Reports ℤ fixed-IsOrdered
      (sweep_measure none (same_codes (codes "cachegen") (codes "cachegen")) answers.idle)
      (written ℤ (highfreq_plan (codes "cachegen")) (codes "cachegen") answers)
      one_test.0
run_highfreq_test-Reports_example =
    run_highfreq_test-Reports ℤ fixed-IsOrdered (codes "cachegen") 4096 (codes "0.5") answers []
      one_test.1

run_test-servers_example :
    let out =
      run_test
        (extended_plan (codes "native"))
        extended_result
        (codes "native")
        4096
        (codes "0.5")
        answers
        [] in
    AtMostOne out.0 × LeftBy ℤ (first_wait answers) out.1 (running out.0)
run_test-servers_example =
    run_test-servers ℤ (extended_plan (codes "native")) extended_result (codes "native") 4096
      (codes "0.5") answers [] tt

reading : List ℕ → WatchReading ℤ
reading text = record { smi = exited 0 text; first_time = pos 1; second_time = pos 2 }

-- The second reading ends after the file is written.
during : List (ℕ × WatchReading ℤ)
during = (0, reading []) ∷ (0, reading (codes "4096")) ∷ (0, reading []) ∷ (0, reading []) ∷ []

late : List (ℕ × WatchReading ℤ)
late = (0, reading (codes "5120")) ∷ []

watch_main-late_example :
    let out = watch_main (pos 0) during [] late in
    (extra : List (WatchSample ℤ)) × (out.1
      ≡ watch_stats_of (map (λ s. s.vram_mb) (out.0 ++ extra)))
    × (length extra ≤ 1)
watch_main-late_example = watch_main-late ℤ (pos 0) during [] late

watched : Watch ℤ
watched = watch_steps during (watch_start (pos 0) new_watch)

a_case : Case ℤ
a_case = record {
  mode = codes "native";
  prefill_size = 128;
  gpu_util = pos 300000;
  prefill_text = codes "128";
  gpu_text = codes "0.3";
}

values : TestValues ℤ
values = record {
  success = true;
  latency_sec = pos 0;
  disk_offload_bytes = pos 0;
  disk_offload_mb = pos 0;
  compression_ratio = pos 0;
  kv_cache_size_gb = pos 0;
  compressed_size_gb = pos 0;
  oom_detected = false;
  oom_stage = [];
  vram_before_start_gb = pos 500000;
  vram_after_start_gb = pos 7000000;
  vram_before_request_gb = pos 7000000;
  vram_during_request_gb = pos 8000000;
  vram_after_compression_gb = pos 8000000;
}

-- Two native results, of which the first server did not answer, and one with CacheGen.
results : List (TestResult ℤ)
unfolding a_case values
results =
    not_ready a_case true (codes "startup") (pos 500)
    ∷ tested a_case values
    ∷ not_ready (record a_case { mode = codes "cachegen" }) true (codes "startup") (pos 500)
    ∷ []

-- The CacheGen server that did not answer counts as 0 GB.
one_line :
    compare_native_vs_cachegen results
    ≡ record {
      gpu_util = pos 300000;
      prefill = 128;
      native_vram = pos 7000000;
      cachegen_vram = pos 0;
      diff = negsuc 6999999;
    }
      ∷ []
unfolding results a_case values compare_native_vs_cachegen compare_utils compare_prefills
    note_results after_start_of same_codes ◌-ℤ◌
one_line = refl

compare_native_vs_cachegen-last_example :
    compare_native_vs_cachegen results
    ≡ last_table ℤ
        (fixed.decimal 3 1 ∷ fixed.decimal 5 1 ∷ fixed.decimal 7 1 ∷ fixed.decimal 9 1 ∷ [])
        (128 ∷ 256 ∷ 512 ∷ 1024 ∷ 2048 ∷ [])
        results
compare_native_vs_cachegen-last_example = compare_native_vs_cachegen-last ℤ results
