-- ===== src/Tests/Sweeps.antt =====
-- The sweep.
use cachegen_plus.Base.{◌≡◌, refl, true, false, List, [], ◌∷◌, none, some, arith, All}
use cachegen_plus.Base.Int.{ℤ, pos, ◌+ℤ◌, ◌*ℤ◌, ◌/ℤ◌, ◌-ℤ◌}
use cachegen_plus.Float.{◌⊕◌, ◌⊖◌, ◌⊑◌, max_of}
use cachegen_plus.Float.Fixed.{fixed, fixed-IsOrdered, fixed-IsExact, parse_fixed}
use cachegen_plus.Text.{codes, number, strip, split}
use cachegen_plus.Text.Pattern.{search_first}
use cachegen_plus.Answer.{exited, reply}
use cachegen_plus.Disk.{dir, sweep_clear_lmcache_disk}
use cachegen_plus.Server.{wait_for_vllm, wait_from}
use cachegen_plus.Vram.Gpu.{nvidia_smi_memory, parse_fields, of_megabytes}
use cachegen_plus.Sweep.Kv.{sweep_kv_stats, sweep_page_stats}
use cachegen_plus.Sweep.Measure.{
  Snapshot, SweepReadings, sweep_measure, sweep_snapshot, regions, take_buffers, weights_estimate,
  cuda_estimate, sweep_set_baseline,
}
use cachegen_plus.Sweep.Measure.Regions.{sweep_measure-sum, sweep_measure-buffers}
use cachegen_plus.Sweep.Layout.{to_layout_dict}
use cachegen_plus.Sweep.Layout.Total.{layout_total, to_layout_dict-total}
use cachegen_plus.Sweep.Loop.{
  sweep_new_loop, sweep_start, sweep_stop, sweep_thread_steps, sweep_thread_step, sweep_phase_step,
  get_snapshot,
}
use cachegen_plus.Sweep.Experiment.{
  SweepAnswers, sweep_reported, sweep_waited, sweep_stopped, sweep_measure_server,
  sweep_single_experiment,
}
use cachegen_plus.Sweep.Report.{SweepReport}
use cachegen_plus.Sweep.Experiment.Reports.{
  sweep_single_experiment-buffers, sweep_single_experiment-peak,
}
use cachegen_plus.Tests.Data.{page, smi_line, clock, replies, streamed, cache}

-- 12 GB in use, then 13 GB.
before : SweepReadings
before = record { smi = exited 0 smi_line; kv_page = reply 200 page; metrics_page = reply 200 page }

after : SweepReadings
unfolding before
after = record before { smi = exited 0 (codes "16384, 13312, 3072, 512") }

blocks_found : (sweep_kv_stats {W = ℤ} (reply 200 page)).blocks_total ≡ 690
unfolding sweep_kv_stats sweep_page_stats parse_fixed search_first number
blocks_found = refl

sweep_measure-sum_example :
    let s : Snapshot ℤ = sweep_measure none true before in
    let known = s.vllm_kv_cache_used_gb ⊕ weights_estimate ⊕ cuda_estimate in
    (s.sum_validated_gb ≡ max_of known s.used_vram_gb)
    × (known ⊑ s.used_vram_gb → s.sum_diff_gb ≡ pos 0)
unfolding before
sweep_measure-sum_example =
    sweep_measure-sum ℤ fixed-IsExact true before (omega (arith, blocks_found))

first : Snapshot ℤ
unfolding before
first = sweep_measure none false before

sweep_measure-buffers_example :
    (sweep_measure (some first) true after).sum_validated_gb
    ≡ (sweep_measure (some first) false after).sum_validated_gb
unfolding first before after sweep_measure sweep_snapshot regions take_buffers nvidia_smi_memory
    parse_fields of_megabytes strip split sweep_kv_stats sweep_page_stats parse_fixed search_first
    number ◌*ℤ◌ ◌/ℤ◌ ◌-ℤ◌ ◌+ℤ◌
sweep_measure-buffers_example = sweep_measure-buffers ℤ fixed-IsExact first after refl

steps : List (SweepReadings × ℤ)
unfolding before after
steps =
    (before, pos 8000000)
    ∷ (after, pos 8100000)
    ∷ (after, pos 8200000)
    ∷ (after, pos 8300000)
    ∷ (after, pos 8400000)
    ∷ []

machine : SweepAnswers ℤ
unfolding before after steps
machine = record {
  disk_found = λ path. some (dir cache);
  disk_before = λ path. none;
  disk_after = λ path. some (dir cache);
  clock = clock;
  replies = replies;
  start_time = pos 8000000;
  idle = before;
  work = steps;
  late = [];
  later = (after, pos 8500000) ∷ (after, pos 8600000) ∷ [];
  latest = [];
  request_time = pos 10000000;
  post = streamed;
  completion = after;
}

one_sweep :
    (r : SweepReport ℤ) × (samples : List (Snapshot ℤ)) × ((sweep_single_experiment
        (codes "cachegen")
        (256, codes "256")
        (codes "0.7")
        machine
        []).1
      ≡ some (sweep_reported r samples))
unfolding machine before after steps sweep_single_experiment sweep_clear_lmcache_disk sweep_waited
    wait_for_vllm wait_from sweep_measure_server sweep_stopped sweep_new_loop sweep_start sweep_stop
    sweep_thread_steps sweep_thread_step sweep_phase_step sweep_set_baseline get_snapshot
one_sweep = (_, _, refl)

sweep_single_experiment-buffers_example : one_sweep.0.vram.cachegen_total_gb ≡ pos 0
sweep_single_experiment-buffers_example =
    sweep_single_experiment-buffers ℤ (codes "cachegen") (256, codes "256") (codes "0.7") machine []
      one_sweep.0 one_sweep.1 one_sweep.2

sweep_single_experiment-peak_example :
    let base : Snapshot ℤ = sweep_measure none false machine.idle in
    (pos 0 ⊑ one_sweep.0.vram.peak_vram_increase_gb)
    × All
        (λ s. s.used_vram_gb ⊖ base.used_vram_gb ⊑ one_sweep.0.vram.peak_vram_increase_gb)
        one_sweep.1
sweep_single_experiment-peak_example =
    sweep_single_experiment-peak ℤ (codes "cachegen") (256, codes "256") (codes "0.7") machine
      fixed-IsOrdered [] one_sweep.0 one_sweep.1 one_sweep.2

to_layout_dict-total_example :
    let s : Snapshot ℤ = sweep_measure (some first) true after in
    layout_total ℤ fixed-IsExact (to_layout_dict s)
    ≡ s.sum_validated_gb ⊕ s.vllm_kv_cache_allocated_gb
to_layout_dict-total_example = to_layout_dict-total ℤ fixed-IsExact true (some first) after
