-- ===== src/Vram/Plan.antt =====
-- `run_experiment_for_mode`, `main` and its summary, in tkdgjs/experiment/run_vram_experiment.py.
pub mod Servers
pub mod Summary
use cachegen_plus.Base.{
  ℕ, ◌^◌, Bool, true, false, List, [], ◌∷◌, ◌++◌, Option, none, some, ◌==◌, if◌then◌else◌, ◌>>=◌,
  or_default, length,
}
use cachegen_plus.Base.Int.{ℤ, pos, ◌-ℤ◌}
use cachegen_plus.Float.{Float, ◌⊘◌}
use cachegen_plus.Text.{codes, number}
use cachegen_plus.Text.Pattern.{search_any}
use cachegen_plus.Answer.{HttpReply, unreachable, reply}
use cachegen_plus.Disk.{Node, get_disk_usage, clear_lmcache_disk}
use cachegen_plus.Server.{wait_for_vllm, disk_path, launch, experiment_dir}
use cachegen_plus.Host.{Log, Event, killed, spawned, slept, cleared, requested, saved}
use cachegen_plus.Vram.Kv.{spaced_number}
use cachegen_plus.Vram.Measure.{Readings}
use cachegen_plus.Vram.Loop.{FullVramMonitorLoop, new_loop, start, stop, thread_steps}
use cachegen_plus.Vram.Stats.{Stats, get_stats}
use cachegen_plus.Vram.Request.{
  PostOutcome, RequestResult, request_failed, request_done, send_request_and_measure,
}
use cachegen_plus.Vram.Experiment.{Answers, Outcome, run_single_experiment}

abbrev pub prefill_sizes : List ℕ
prefill_sizes = 256 ∷ 512 ∷ 1024 ∷ 2048 ∷ []

abbrev pub modes : List (List ℕ)
modes = codes "native" ∷ codes "cachegen" ∷ []

module _ {W : Type 0} ⦃f : Float W⦄ where
  -- The results with that of one size in front, if it did not raise.
  abbrev after_size :
      ℕ
      → Log
      → Log × Option (List (ℕ × Outcome W))
      → Option (Outcome W)
      → Log × Option (List (ℕ × Outcome W))
  after_size size log rest none = (log, none)
  after_size size log rest (some outcome) =
      (rest.0, rest.1 >>= λ others. some ((size, outcome) ∷ others))

  -- The loop of `run_experiment_for_mode`: the results so far are lost if an experiment raises.
  unfoldable pub run_sizes :
      List ℕ → List ℕ → (ℕ → Answers W) → Log → Log × Option (List (ℕ × Outcome W))
  run_sizes mode [] answers log = (log, some [])
  run_sizes mode (size ∷ sizes) answers log =
      let first = run_single_experiment mode size (answers size) log in
      let rest = run_sizes mode sizes answers (slept 10 ∷ first.0) in
      after_size size first.0 rest first.1

  abbrev finish_mode :
      List ℕ → Log × Option (List (ℕ × Outcome W)) → Log × Option (List (ℕ × Outcome W))
  finish_mode mode (log, none) = (log, none)
  finish_mode mode (log, some results) = (
    slept 60 ∷ saved (experiment_dir ++ codes "/results_" ++ mode ++ codes ".json") ∷ log,
    some results,
  )

  unfoldable pub run_experiment_for_mode :
      List ℕ → (ℕ → Answers W) → Log → Log × Option (List (ℕ × Outcome W))
  run_experiment_for_mode mode answers log =
      finish_mode mode (run_sizes mode prefill_sizes answers log)

-- An entry of `all_results`: the dict of a mode, with the sizes as int keys, or
-- `{"error": str(e)}`.
pub data ModeResult (W : Type 0) : Type 0 where
  mode_results : List (ℕ × Outcome W) → ModeResult W
  mode_error : ModeResult W

-- A key of such a dict.
pub data Key : Type 0 where
  int_key : ℕ → Key
  error_key : Key

-- `pref.startswith("_")`, which an int does not have
abbrev pub starts_with_underscore : Key → Option Bool
starts_with_underscore (int_key n) = none
starts_with_underscore error_key = some false

-- The inner loop of the summary. What it prints raises nothing.
unfoldable pub print_keys : List Key → Option (Unit {0})
print_keys [] = some tt
print_keys (k ∷ ks) = starts_with_underscore k >>= λ skipped. print_keys ks

module _ {W : Type 0} where
  abbrev int_keys : List (ℕ × Outcome W) → List Key
  int_keys [] = []
  int_keys ((size, outcome) ∷ rest) = int_key size ∷ int_keys rest

  abbrev pub keys : ModeResult W → List Key
  keys (mode_results r) = int_keys r
  keys mode_error = error_key ∷ []

  unfoldable pub print_summary : List (List ℕ × ModeResult W) → Option (Unit {0})
  print_summary [] = some tt
  print_summary ((mode, r) ∷ rest) = print_keys (keys r) >>= λ done. print_summary rest

module _ {W : Type 0} ⦃f : Float W⦄ where
  abbrev mode_result : Option (List (ℕ × Outcome W)) → ModeResult W
  mode_result none = mode_error
  mode_result (some r) = mode_results r

  -- The loop of `main`; an exception of a mode becomes its entry.
  unfoldable pub run_modes :
      List (List ℕ) → (List ℕ → ℕ → Answers W) → Log → Log × List (List ℕ × ModeResult W)
  run_modes [] answers log = (log, [])
  run_modes (mode ∷ modes) answers log =
      let (log', r) = run_experiment_for_mode mode (answers mode) log in
      let (log'', rest) = run_modes modes answers log' in (log'', (mode, mode_result r) ∷ rest)

  -- The log, `all_results`, and whether the summary is printed to the end.
  unfoldable pub main :
      (List ℕ → ℕ → Answers W) → Log → Log × List (List ℕ × ModeResult W) × Option (Unit {0})
  main answers log =
      let (log', all_results) = run_modes modes answers log in
      (
        saved (experiment_dir ++ codes "/final_results.json") ∷ log',
        all_results,
        print_summary all_results,
      )
