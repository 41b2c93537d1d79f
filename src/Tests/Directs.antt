-- ===== src/Tests/Directs.antt =====
-- The test that polls nvidia-smi from a thread.
use cachegen_plus.Base.{
  ℕ, suc, ◌+◌, ◌*◌, ◌≤◌, ◌≡◌, refl, ◌⊎◌, true, List, [], none, some, arith, ◌==◌, if◌then◌else◌,
  All, length,
}
use cachegen_plus.Base.Int.{ℤ, pos, ◌-ℤ◌, ◌*ℤ◌, ◌/ℤ◌}
use cachegen_plus.Float.Fixed.{fixed, parse_fixed}
use cachegen_plus.Float.{max_list}
use cachegen_plus.Text.{codes, number, strip}
use cachegen_plus.Answer.{run_raised, exited, reply}
use cachegen_plus.Server.{wait_for_vllm, wait_from}
use cachegen_plus.Vram.Legacy.{min_list}
use cachegen_plus.Direct.{
  DirectAnswers, DirectSample, same, polled, monitor_from, monitor_vram, baseline_mb, direct_result,
  direct_ready, direct_test, compare_results, direct_main,
}
use cachegen_plus.Direct.Sampled.{monitor_vram-ends}
use cachegen_plus.Direct.Reports.{direct_test-loses}
use cachegen_plus.Tests.Data.{clock, replies}

rounds : ℕ → ℕ
rounds k = 4000 * k

answers : DirectAnswers
unfolding rounds
answers = record {
  clock = clock;
  replies = replies;
  baseline = exited 0 (codes "512");
  monitor_start = 0;
  monitor_clock = rounds;
  taken = λ k. rounds k + 100;
  polls = λ k. exited 0 (codes "4096");
  post = reply 400 [];
}

-- The third call of nvidia-smi takes too long.
slow : DirectAnswers
unfolding answers
slow = record answers { polls = λ k. if k == 2 then run_raised else exited 0 (codes "4096") }

sleeps : (k : ℕ) → rounds k + 5 ≤ rounds (suc k)
unfolding rounds
sleeps k = omega arith

monitor_vram-ends_example :
    (monitor_vram {W = ℤ} answers ≡ some none)
    ⊎ ((ss : List (DirectSample ℤ)) × (monitor_vram answers ≡ some (some ss))
        × All (λ s. s.time ≤ 21000) ss
        × (length ss ≤ 4000))
unfolding answers
monitor_vram-ends_example = monitor_vram-ends ℤ answers sleeps (λ k. omega arith) (omega arith)

up : direct_ready slow ≡ true
unfolding slow answers direct_ready wait_for_vllm wait_from
up = refl

idle : baseline_mb {W = ℤ} slow.baseline ≡ some (pos 512000000)
unfolding slow answers baseline_mb strip parse_fixed number ◌/ℤ◌ ◌*ℤ◌
idle = refl

direct_test-loses_example : (direct_test {W = ℤ} (codes "native") slow []).1 ≡ some none
unfolding slow answers rounds
direct_test-loses_example =
    direct_test-loses ℤ (codes "native") slow [] sleeps (omega arith) 2 (omega arith) refl up
      (pos 512000000) idle

-- A difference of 0.
no_difference : (direct_main ℤ answers answers []).1 ≡ some (some same)
unfolding direct_main direct_test direct_ready wait_for_vllm wait_from baseline_mb strip parse_fixed
    number ◌/ℤ◌ ◌*ℤ◌ ◌-ℤ◌ direct_result monitor_vram monitor_from polled compare_results answers
    rounds min_list max_list
no_difference = refl
