-- ===== src/Tests/Experiments.antt =====
-- Whole experiments.
use cachegen_plus.Base.{◌≡◌, ◌≤◌, ◌+◌, refl, ◌↔◌, [], ◌∷◌, some, arith, All}
use cachegen_plus.Base.Int.{ℤ, ◌*ℤ◌, ◌/ℤ◌, ◌-ℤ◌}
use cachegen_plus.Float.Fixed.{fixed, parse_fixed}
use cachegen_plus.Text.{codes}
use cachegen_plus.Text.{strip, split}
use cachegen_plus.Float.{max_list}
use cachegen_plus.Disk.{Node, clear_lmcache_disk}
use cachegen_plus.Server.{Launch, wait_for_vllm, wait_from}
use cachegen_plus.Vram.Gpu.{nvidia_smi_memory, parse_fields, of_megabytes}
use cachegen_plus.Vram.Measure.{measure, snapshot_of, set_baseline}
use cachegen_plus.Vram.Loop.{thread_steps, thread_step, phase_step, start, stop, new_loop}
use cachegen_plus.Vram.Stats.{Stats, get_stats, stats_of, index_of}
use cachegen_plus.Vram.Request.{
  send_request_and_measure, token_times, gaps, insert_sorted, sort_values, percentile, percentiles,
  token_gaps, first_token,
}
use cachegen_plus.Host.{running, AtMostOne}
use cachegen_plus.Vram.Experiment.{
  report_of, run_single_experiment, reported, Report, waited, measure_server, stopped_loop,
}
use cachegen_plus.Vram.Plan.{main}
use cachegen_plus.Vram.Plan.Servers.{Leaves, run_single_experiment-Leaves, main_servers}
use cachegen_plus.Vram.Plan.Summary.{IsError, main_summary}
use cachegen_plus.Vram.Experiment.Counts.{run_single_experiment-Agree}
use cachegen_plus.Vram.Experiment.Cache.{
  cache_dir, cleared_in, started_in, Serves, Measures, run_single_experiment-Measures,
}
use cachegen_plus.Tests.Data.{answers}

main_summary_example :
    let out = main (λ mode size. answers) [] in (out.2 ≡ some tt) ↔ All (IsError ℤ) out.1
main_summary_example = main_summary ℤ (λ mode size. answers) []

main_servers_example :
    let out = main (λ mode size. answers) [] in (running out.0 ≤ 1) × AtMostOne out.0
main_servers_example = main_servers ℤ (λ mode size. answers) [] (omega arith) tt

run_single_experiment-Leaves_example :
    let out = run_single_experiment (codes "native") 256 answers [] in
    Leaves ℤ out × AtMostOne out.0
run_single_experiment-Leaves_example =
    run_single_experiment-Leaves ℤ (codes "native") 256 answers [] (omega arith) tt

-- The experiment ends with a report.
one_report :
    (r : Report ℤ) × (s : Stats ℤ) × ((run_single_experiment (codes "native") 256 answers []).1
      ≡ some (reported r))
    × (r.vram ≡ some s)
unfolding report_of run_single_experiment clear_lmcache_disk waited wait_for_vllm wait_from
    measure_server send_request_and_measure token_times gaps insert_sorted sort_values percentile
    percentiles token_gaps first_token get_stats stats_of index_of stopped_loop thread_steps
    thread_step phase_step start stop new_loop set_baseline measure snapshot_of nvidia_smi_memory
    parse_fields of_megabytes strip split parse_fixed max_list ◌*ℤ◌ ◌/ℤ◌ ◌-ℤ◌
one_report = (_, _, refl, refl)

run_single_experiment-Agree_example :
    (one_report.0.vram_samples_count ≤ one_report.1.sample_count)
    × (one_report.1.sample_count ≤ one_report.0.vram_samples_count + 1)
run_single_experiment-Agree_example =
    run_single_experiment-Agree ℤ (codes "native") 256 answers [] one_report.0 one_report.1
      one_report.2 one_report.3

run_single_experiment-Measures_example :
    let later = (run_single_experiment (codes "native") 256 answers []).0 in
    (cleared_in later ≡ cache_dir (codes "native") ∷ [])
    × ((left : Node) × (clear_lmcache_disk (answers.disk_found (cache_dir (codes "native")))
          ≡ some left))
    × Measures ℤ answers (cache_dir (codes "native")) one_report.0.disk
    × ((l : Launch) × (started_in later ≡ l ∷ []) × Serves (codes "native") l)
    × ((cache_dir (codes "native") ≡ cache_dir (codes "torch")) ↔ (codes "native" ≡ codes "torch"))
run_single_experiment-Measures_example =
    run_single_experiment-Measures ℤ (codes "native") 256 answers [] one_report.0 one_report.2
