-- ===== src/Tests/Measuring.antt =====
-- The measurements and their statistics.
use cachegen_plus.Base.{◌+◌, ◌≡◌, refl, List, [], ◌∷◌, none, some, arith, length}
use cachegen_plus.Base.Int.{ℤ, pos, ◌-ℤ◌, ◌*ℤ◌, ◌/ℤ◌}
use cachegen_plus.Float.{◌⊕◌, ◌⊑◌, max_of}
use cachegen_plus.Float.Fixed.{fixed, fixed-IsExact, fixed-IsOrdered, fixed-IsRounding, parse_fixed}
use cachegen_plus.Text.{codes, number, strip, split}
use cachegen_plus.Text.Pattern.{search_any}
use cachegen_plus.Answer.{RunResult, HttpReply, exited, run_raised, unreachable, reply}
use cachegen_plus.Vram.Kv.{
  KvStats, kv_stats, page_stats, total_blocks, free_blocks, usage, allocated, filled, divide_blocks,
  gigabytes,
}
use cachegen_plus.Vram.Gpu.{nvidia_smi_memory, parse_fields, of_megabytes}
use cachegen_plus.Vram.Measure.{VramSnapshot, measure}
use cachegen_plus.Vram.Measure.Regions.{measure-sum, measure-sum_first}
use cachegen_plus.Vram.Loop.{
  Sample, FullVramMonitorLoop, start, stop, new_loop, phase_step, thread_step, thread_steps,
}
use cachegen_plus.Vram.Loop.Stop.{thread_steps-stop-IsOver, IsOver, due}
use cachegen_plus.Vram.Stats.{Stats, get_stats}
use cachegen_plus.Vram.Stats.Peak.{Summarises, get_stats-peak}
use cachegen_plus.Vram.Request.{answered, send_request_and_measure}
use cachegen_plus.Vram.Request.Percentiles.{Returns, send_request_and_measure-Returns}
use cachegen_plus.Vram.Legacy.{VramMonitor, LegacyStats, new_monitor, start_monitor}
use cachegen_plus.Tests.Data.{page, readings, quiet, stream, answers}

-- All that a measurement calls.
stats : KvStats ℤ
unfolding kv_stats page_stats total_blocks free_blocks usage allocated filled divide_blocks
    gigabytes search_any number ◌*ℤ◌ ◌/ℤ◌ ◌-ℤ◌ parse_fixed
stats = kv_stats (reply 200 page)

page_read : stats ≡ record {
  blocks_total = pos 690;
  blocks_free = pos 518;
  blocks_used = pos 172;
  usage_ratio = pos 250000;
  allocated_gb = pos 10781250;
  used_gb = pos 2695312;
  block_size_mb = some 16;
}
unfolding stats
page_read = refl

measure-sum_example :
    let s : VramSnapshot ℤ = measure none readings in
    (s.sum_validated_gb
      ≡ max_of
          (s.model_weights_gb ⊕ s.vllm_kv_cache_used_gb ⊕ s.activation_tensors_gb)
          s.used_vram_gb)
    × (s.model_weights_gb ⊕ s.vllm_kv_cache_used_gb ⊕ s.activation_tensors_gb ⊑ s.used_vram_gb
        → s.sum_diff_gb ≡ pos 0)
unfolding stats nvidia_smi_memory parse_fields of_megabytes strip split
measure-sum_example = measure-sum ℤ fixed-IsExact none readings refl

-- The gigabyte of activations is counted on top of the memory in use.
measure-sum_first_example :
    let s : VramSnapshot ℤ = measure none quiet in
    (s.model_weights_gb ⊕ s.vllm_kv_cache_used_gb ≡ (nvidia_smi_memory quiet.smi).used)
    × (pos 0 ⊑ s.activation_tensors_gb
        → s.sum_validated_gb ≡ (nvidia_smi_memory quiet.smi).used ⊕ s.activation_tensors_gb)
unfolding stats nvidia_smi_memory parse_fields of_megabytes strip split
measure-sum_first_example = measure-sum_first ℤ fixed-IsExact quiet refl refl refl

-- A loop that was started and has recorded a sample, stopped while it takes another.
begun : FullVramMonitorLoop ℤ
unfolding start thread_steps thread_step phase_step
begun =
    thread_steps
      ((readings, pos 8000000)
        ∷ (readings, pos 8100000)
        ∷ (readings, pos 8200000)
        ∷ (readings, pos 8300000)
        ∷ (readings, pos 8400000)
        ∷ [])
      (start (pos 8000000) quiet (new_loop (pos 100000) 8000))

thread_steps-stop-IsOver_example :
    let l = thread_steps answers.later (stop begun) in
    IsOver l × (length l.samples ≡ length begun.samples + due begun)
thread_steps-stop-IsOver_example = thread_steps-stop-IsOver answers.later begun (omega arith)

-- Two samples of 12 GB.
recorded : List (Sample ℤ)
recorded =
    record { elapsed_sec = pos 0; timestamp = pos 8000000; snapshot = measure none readings }
    ∷ record { elapsed_sec = pos 100000; timestamp = pos 8100000; snapshot = measure none readings }
    ∷ []

sampled : FullVramMonitorLoop ℤ
sampled = record (new_loop (pos 100000) 8000) {
  baseline = some (measure none quiet);
  samples = recorded;
}

get_stats-peak_example :
    (s : Stats ℤ) × (get_stats sampled ≡ some (some s))
    × Summarises fixed-IsOrdered sampled.samples s
unfolding sampled recorded
get_stats-peak_example = get_stats-peak fixed-IsOrdered sampled (measure none quiet) _ _ refl refl

send_request_and_measure-Returns_example :
    Returns fixed-IsOrdered fixed-IsRounding stream
      (send_request_and_measure 256 (pos 10000000) (answered 200 [] stream (pos 11000000)))
send_request_and_measure-Returns_example =
    send_request_and_measure-Returns fixed-IsOrdered fixed-IsRounding 256 (pos 10000000) 200 []
      stream (pos 11000000) (omega arith)

-- vLLM is not there; nvidia-smi answers in one of two rounds.
rounds : List (HttpReply × RunResult × ℤ)
rounds =
    (unreachable, exited 0 (codes "12288"), pos 1000000)
    ∷ (unreachable, run_raised, pos 2000000)
    ∷ []

watching : VramMonitor ℤ
watching = start_monitor (pos 0) (new_monitor (pos 100000) 8000)

watched : VramMonitor ℤ
watched = record (new_monitor (pos 100000) 8000) {
  samples =
      record { elapsed_sec = pos 0; timestamp = pos 0; vram_gb = pos 3000000 }
      ∷ record { elapsed_sec = pos 100000; timestamp = pos 100000; vram_gb = pos 5000000 }
      ∷ [];
}

watched_stats : LegacyStats ℤ
watched_stats = record {
  min_gb = pos 3000000;
  max_gb = pos 5000000;
  peak_gb = pos 5000000;
  sample_count = 2;
}
