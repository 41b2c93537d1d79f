-- ===== src/Sweep/Plan/Servers.antt =====
-- The servers that the sweep starts and kills, and the results that its loops collect.
use cachegen_plus.Base.{
  ℕ, ◌≡◌, ◌≤◌, refl, ap, List, [], ◌∷◌, ◌++◌, map, Option, none, some, arith, Bool-cases, inl, inr,
}
use cachegen_plus.Float.{Float}
use cachegen_plus.Text.{codes}
use cachegen_plus.Disk.{Node, sweep_clear_lmcache_disk}
use cachegen_plus.Host.{Log, running, AtMostOne}
use cachegen_plus.Server.{disk_path}
use cachegen_plus.Vram.Experiment.{stop_vllm}
use cachegen_plus.Sweep.Measure.{Snapshot}
use cachegen_plus.Sweep.Loop.{get_snapshot}
use cachegen_plus.Sweep.Experiment.{
  SweepAnswers, sweep_start_vllm, sweep_stopped, sweep_waited, after_snapshot, after_sweep_clear,
  sweep_measure_server, sweep_single_experiment,
}
use cachegen_plus.Sweep.Plan.{
  SweepEntry, Machine, ByMode, sweep_sizes, sweep_modes, utilizations, sweep_run_sizes,
  sweep_run_modes, sweep_run_all, sweep_main,
}

module _ (W : Type 0) ⦃f : Float W⦄ where
  abbrev Small : Log → Type 0
  Small log = (running log ≤ 1) × AtMostOne log

  after_snapshot-Small :
      (mode : List ℕ) (size : ℕ × List ℕ) (gm : List ℕ) (a : SweepAnswers W) (log : Log)
      (s : Option (Snapshot W))
      → Small log
      → Small (after_snapshot mode size gm a log s).0
  unfolding stop_vllm
  after_snapshot-Small mode size gm a log none small = small
  after_snapshot-Small mode size gm a log (some s) (one, fine) = (omega arith, fine)

  after_sweep_clear-Small :
      (mode : List ℕ) (size : ℕ × List ℕ) (gm : List ℕ) (a : SweepAnswers W) (log : Log)
      (left : Option Node)
      → Small log
      → Small (after_sweep_clear mode size gm a log left).0
  unfolding sweep_start_vllm sweep_measure_server
  after_sweep_clear-Small mode size gm a log none small = small
  after_sweep_clear-Small mode size gm a log (some left) (one, fine) =
      elim (Bool-cases (sweep_waited a)) [
        | inl up ↦ rw up (
            after_snapshot-Small mode size gm a _ (get_snapshot (sweep_stopped a))
              (omega arith, (refl, fine)))
        | inr down ↦ rw down (omega arith, (refl, fine))
      ]

  run_sizes-Small :
      (gm mode : List ℕ) (sizes : List (ℕ × List ℕ)) (machine : Machine W) (log : Log)
      → Small log
      → Small (sweep_run_sizes gm mode sizes machine log).0
  unfolding sweep_run_sizes sweep_single_experiment
  run_sizes-Small gm mode [] machine log small = small
  run_sizes-Small gm mode (size ∷ sizes) machine log small =
      let a = machine gm mode size.0 in
      run_sizes-Small gm mode sizes machine _ (
        after_sweep_clear-Small mode size gm a log
          (sweep_clear_lmcache_disk (a.disk_found (disk_path mode))) small)

  run_modes-Small :
      (gm : List ℕ) (modes : List (List ℕ)) (machine : Machine W) (log : Log)
      → Small log
      → Small (sweep_run_modes gm modes machine log).0
  unfolding sweep_run_modes
  run_modes-Small gm [] machine log small = small
  run_modes-Small gm (mode ∷ modes) machine log small =
      run_modes-Small gm modes machine _ (run_sizes-Small gm mode sweep_sizes machine log small)

  run_all-Small :
      (gms : List (List ℕ)) (machine : Machine W) (log : Log)
      → Small log
      → Small (sweep_run_all gms machine log).0
  unfolding sweep_run_all
  run_all-Small [] machine log small = small
  run_all-Small (gm ∷ gms) machine log small =
      run_all-Small gms machine _ (run_modes-Small gm sweep_modes machine log small)

  -- Started where at most one server runs and none was started beside another, the whole sweep
  -- starts none while another runs, whatever fails or raises, and at most one is running at its
  -- end.
  pub sweep_main-servers :
      (machine : Machine W) (log : Log)
      → running log ≤ 1
      → AtMostOne log
      → let out = sweep_main machine log in (running out.0 ≤ 1) × AtMostOne out.0
  unfolding sweep_main
  sweep_main-servers machine log one fine = run_all-Small utilizations machine log (one, fine)

  -- The keys of the nested results.
  abbrev sizes_of : List (ℕ × SweepEntry W) → List ℕ
  sizes_of rs = map (λ e. e.0) rs

  abbrev modes_of : ByMode W → List (List ℕ × List ℕ)
  modes_of rs = map (λ e. (e.0, sizes_of e.1)) rs

  abbrev pub keys_of : List (List ℕ × ByMode W) → List (List ℕ × List (List ℕ × List ℕ))
  keys_of rs = map (λ e. (e.0, modes_of e.1)) rs

  -- Every size, under every mode, under every utilization.
  abbrev pub planned : List (List ℕ × List (List ℕ × List ℕ))
  planned =
      map
        (λ gm.
          (codes "gm_" ++ gm, map (λ mode. (mode, map (λ size. size.0) sweep_sizes)) sweep_modes))
        utilizations

  run_sizes-keys :
      (gm mode : List ℕ) (sizes : List (ℕ × List ℕ)) (machine : Machine W) (log : Log)
      → sizes_of (sweep_run_sizes gm mode sizes machine log).1 ≡ map (λ size. size.0) sizes
  unfolding sweep_run_sizes
  run_sizes-keys gm mode [] machine log = refl
  run_sizes-keys gm mode (size ∷ sizes) machine log =
      ap (λ rest. size.0 ∷ rest) (run_sizes-keys gm mode sizes machine _)

  run_modes-keys :
      (gm : List ℕ) (modes : List (List ℕ)) (machine : Machine W) (log : Log)
      → modes_of (sweep_run_modes gm modes machine log).1
        ≡ map (λ mode. (mode, map (λ size. size.0) sweep_sizes)) modes
  unfolding sweep_run_modes
  run_modes-keys gm [] machine log = refl
  run_modes-keys gm (mode ∷ modes) machine log =
      rw (run_sizes-keys gm mode sweep_sizes machine log) (
        ap (λ rest. (mode, map (λ size. size.0) sweep_sizes) ∷ rest)
          (run_modes-keys gm modes machine _))

  run_all-keys :
      (gms : List (List ℕ)) (machine : Machine W) (log : Log)
      → keys_of (sweep_run_all gms machine log).1
        ≡ map
            (λ gm. (
              codes "gm_" ++ gm,
              map (λ mode. (mode, map (λ size. size.0) sweep_sizes)) sweep_modes,
            ))
            gms
  unfolding sweep_run_all
  run_all-keys [] machine log = refl
  run_all-keys (gm ∷ gms) machine log = rw (run_modes-keys gm sweep_modes machine log) (
      ap
        (λ rest.
          (codes "gm_" ++ gm, map (λ mode. (mode, map (λ size. size.0) sweep_sizes)) sweep_modes)
          ∷ rest)
        (run_all-keys gms machine _))

  -- Whatever fails or raises, the results of the sweep have an entry for every size, under every
  -- mode, under every utilization, in the order of the three lists.
  pub sweep_main-keys :
      (machine : Machine W) (log : Log) → keys_of (sweep_main machine log).1 ≡ planned
  unfolding sweep_main
  sweep_main-keys machine log = run_all-keys utilizations machine log
