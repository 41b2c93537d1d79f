-- ===== src/Vram/Plan/Servers.antt =====
-- The vLLM servers that the experiments start and kill.
use cachegen_plus.Base.{
  ℕ, ◌≡◌, ◌≤◌, refl, List, [], ◌∷◌, Option, none, some, arith, Bool-cases, inl, inr,
}
use cachegen_plus.Float.{Float}
use cachegen_plus.Disk.{Node}
use cachegen_plus.Host.{Log, running, AtMostOne, slept}
use cachegen_plus.Vram.Request.{RequestResult}
use cachegen_plus.Vram.Stats.{Stats}
use cachegen_plus.Vram.Experiment.{
  Answers, Outcome, start_failed, reported, waited, start_vllm, stop_vllm, measure_server,
  after_stats, after_request, after_clear, run_single_experiment,
}
use cachegen_plus.Vram.Plan.{
  after_size, run_sizes, finish_mode, run_experiment_for_mode, run_modes, main, prefill_sizes,
  modes,
}

module _ (W : Type 0) ⦃f : Float W⦄ where
  -- The servers left behind by the way an experiment ended.
  abbrev pub Leaves : Log × Option (Outcome W) → Type 0
  Leaves (log, none) = running log ≤ 1
  Leaves (log, some start_failed) = running log ≡ 1
  Leaves (log, some (reported r)) = running log ≡ 0

  -- An experiment that starts with at most one server running, and leaves what it should.
  abbrev Fine : Log × Option (Outcome W) → Type 0
  Fine out = Leaves out × AtMostOne out.0

  after_stats-Fine :
      (mode : List ℕ) (size : ℕ) (a : Answers W) (log : Log) (latency : RequestResult W)
      (stats : Option (Option (Stats W)))
      → running log ≤ 1
      → AtMostOne log
      → Fine (after_stats mode size a log latency stats)
  unfolding stop_vllm
  after_stats-Fine mode size a log latency none one fine = (one, fine)
  after_stats-Fine mode size a log latency (some stats) one fine = (refl, fine)

  after_request-Fine :
      (mode : List ℕ) (size : ℕ) (a : Answers W) (log : Log) (latency : Option (RequestResult W))
      → running log ≤ 1
      → AtMostOne log
      → Fine (after_request mode size a log latency)
  after_request-Fine mode size a log none one fine = (one, fine)
  after_request-Fine mode size a log (some latency) one fine =
      after_stats-Fine mode size a (slept 10 ∷ log) latency _ one fine

  after_clear-Fine :
      (mode : List ℕ) (size : ℕ) (a : Answers W) (log : Log) (left : Option Node)
      → running log ≤ 1
      → AtMostOne log
      → Fine (after_clear mode size a log left)
  unfolding start_vllm measure_server
  after_clear-Fine mode size a log none one fine = (one, fine)
  after_clear-Fine mode size a log (some empty) one fine = elim (Bool-cases (waited a)) [
    | inl up ↦ rw up (after_request-Fine mode size a _ _ (omega arith) (refl, fine))
    | inr down ↦ rw down (refl, (refl, fine))
  ]

  -- If at most one server runs before an experiment, no second one is started beside it. After a
  -- report none runs; after a failed start the server that was started is still running; after an
  -- exception at most one is.
  pub run_single_experiment-Leaves :
      (mode : List ℕ) (size : ℕ) (a : Answers W) (log : Log)
      → running log ≤ 1
      → AtMostOne log
      → let out = run_single_experiment mode size a log in Leaves out × AtMostOne out.0
  unfolding run_single_experiment
  run_single_experiment-Leaves mode size a log one fine =
      after_clear-Fine mode size a log _ one fine

  abbrev Small : Log → Type 0
  Small log = (running log ≤ 1) × AtMostOne log

  Leaves-le : (out : Log × Option (Outcome W)) → Leaves out → running out.0 ≤ 1
  Leaves-le (log, none) h = h
  Leaves-le (log, some start_failed) h = omega arith
  Leaves-le (log, some (reported r)) h = omega arith

  run_single_experiment-Small :
      (mode : List ℕ) (size : ℕ) (a : Answers W) (log : Log)
      → Small log
      → Small (run_single_experiment mode size a log).0
  run_single_experiment-Small mode size a log (one, fine) =
      let (leaves, fine') = run_single_experiment-Leaves mode size a log one fine in
      (Leaves-le (run_single_experiment mode size a log) leaves, fine')

  after_size-Small :
      (size : ℕ) (log : Log) (rest : Log × Option (List (ℕ × Outcome W))) (r : Option (Outcome W))
      → Small log
      → Small rest.0
      → Small (after_size size log rest r).0
  after_size-Small size log rest none small smalls = small
  after_size-Small size log rest (some outcome) small smalls = smalls

  run_sizes-Small :
      (mode : List ℕ) (sizes : List ℕ) (answers : ℕ → Answers W) (log : Log)
      → Small log
      → Small (run_sizes mode sizes answers log).0
  unfolding run_sizes
  run_sizes-Small mode [] answers log small = small
  run_sizes-Small mode (size ∷ sizes) answers log small =
      let first = run_single_experiment mode size (answers size) log in
      let small' = run_single_experiment-Small mode size (answers size) log small in
      after_size-Small size first.0 (run_sizes mode sizes answers (slept 10 ∷ first.0)) first.1
        small' (run_sizes-Small mode sizes answers (slept 10 ∷ first.0) small')

  finish_mode-Small :
      (mode : List ℕ) (out : Log × Option (List (ℕ × Outcome W)))
      → Small out.0
      → Small (finish_mode mode out).0
  finish_mode-Small mode (log, none) small = small
  finish_mode-Small mode (log, some results) small = small

  run_modes-Small :
      (names : List (List ℕ)) (answers : List ℕ → ℕ → Answers W) (log : Log)
      → Small log
      → Small (run_modes names answers log).0
  unfolding run_modes run_experiment_for_mode
  run_modes-Small [] answers log small = small
  run_modes-Small (mode ∷ names) answers log small =
      run_modes-Small names answers (run_experiment_for_mode mode (answers mode) log).0 (
        finish_mode-Small mode (run_sizes mode prefill_sizes (answers mode) log)
          (run_sizes-Small mode prefill_sizes (answers mode) log small))

  -- Started where at most one server runs and none was started beside another, the whole script
  -- starts none while another runs, whatever fails or raises, and at most one is running at its
  -- end.
  pub main_servers :
      (answers : List ℕ → ℕ → Answers W) (log : Log)
      → running log ≤ 1
      → AtMostOne log
      → let out = main answers log in (running out.0 ≤ 1) × AtMostOne out.0
  unfolding main
  main_servers answers log one fine = run_modes-Small modes answers log (one, fine)
