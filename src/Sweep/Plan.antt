-- ===== src/Sweep/Plan.antt =====
-- The loops of `main` of tkdgjs/experiment/run_sweep_experiment.py.
pub mod Servers
use cachegen_plus.Base.{
  ℕ, ◌^◌, Bool, true, false, List, [], ◌∷◌, ◌++◌, Option, none, some, ◌==◌, if◌then◌else◌, ◌>>=◌,
  or_default, length,
}
use cachegen_plus.Base.Int.{ℤ, pos, ◌-ℤ◌}
use cachegen_plus.Float.{Float, ◌⊕◌, ◌⊖◌, ◌⊘◌}
use cachegen_plus.Text.{codes, strip}
use cachegen_plus.Answer.{RunResult, run_raised, exited, HttpReply}
use cachegen_plus.Disk.{Node, get_disk_usage, sweep_clear_lmcache_disk}
use cachegen_plus.Server.{
  Launch, wait_for_vllm, disk_path, experiment_dir, native_config, same_codes, sweep_command,
}
use cachegen_plus.Host.{Log, Event, killed, spawned, slept, cleared, requested, saved}
use cachegen_plus.Vram.Request.{PostOutcome, post_raised, answered, token_times, first_token}
use cachegen_plus.Vram.Experiment.{stop_vllm}
use cachegen_plus.Sweep.Measure.{Snapshot, SweepReadings, sweep_measure}
use cachegen_plus.Sweep.Experiment.{SweepAnswers, SweepOutcome, sweep_single_experiment}

-- An entry of the results: that of an experiment, or `{"error": str(e)}`.
pub data SweepEntry (W : Type 0) : Type 0 where
  entry_of : SweepOutcome W → SweepEntry W
  entry_error : SweepEntry W

-- A size with its decimal text.
abbrev pub sweep_sizes : List (ℕ × List ℕ)
sweep_sizes =
    (256, codes "256")
    ∷ (512, codes "512")
    ∷ (1024, codes "1024")
    ∷ (2048, codes "2048")
    ∷ (4096, codes "4096")
    ∷ (8192, codes "8192")
    ∷ []

abbrev pub utilizations : List (List ℕ)
utilizations = codes "0.5" ∷ codes "0.7" ∷ codes "0.9" ∷ []

abbrev pub sweep_modes : List (List ℕ)
sweep_modes = codes "native" ∷ codes "cachegen" ∷ []

-- The answers for each utilization, mode and size.
abbrev pub Machine : Type 0 → Type 0
Machine W = List ℕ → List ℕ → ℕ → SweepAnswers W

abbrev pub ByMode : Type 0 → Type 0
ByMode W = List (List ℕ × List (ℕ × SweepEntry W))

module _ {W : Type 0} ⦃f : Float W⦄ where
  abbrev pub sweep_entry : Option (SweepOutcome W) → SweepEntry W
  sweep_entry none = entry_error
  sweep_entry (some outcome) = entry_of outcome

  -- The three loops of `main`, from the inside out.
  unfoldable pub sweep_run_sizes :
      List ℕ → List ℕ → List (ℕ × List ℕ) → Machine W → Log → Log × List (ℕ × SweepEntry W)
  sweep_run_sizes gm mode [] machine log = (log, [])
  sweep_run_sizes gm mode (size ∷ sizes) machine log =
      let (log', outcome) = sweep_single_experiment mode size gm (machine gm mode size.0) log in
      let (log'', rest) = sweep_run_sizes gm mode sizes machine (slept 30 ∷ log') in
      (log'', (size.0, sweep_entry outcome) ∷ rest)

  unfoldable pub sweep_run_modes : List ℕ → List (List ℕ) → Machine W → Log → Log × ByMode W
  sweep_run_modes gm [] machine log = (log, [])
  sweep_run_modes gm (mode ∷ modes) machine log =
      let (log', results) = sweep_run_sizes gm mode sweep_sizes machine log in
      let (log'', rest) = sweep_run_modes gm modes machine log' in (log'', (mode, results) ∷ rest)

  unfoldable pub sweep_run_all : List (List ℕ) → Machine W → Log → Log × List (List ℕ × ByMode W)
  sweep_run_all [] machine log = (log, [])
  sweep_run_all (gm ∷ gms) machine log =
      let (log', results) = sweep_run_modes gm sweep_modes machine log in
      let (log'', rest) = sweep_run_all gms machine log' in
      (log'', (codes "gm_" ++ gm, results) ∷ rest)

  -- The log and `all_results`. The summary behind them prints and raises nothing.
  unfoldable pub sweep_main : Machine W → Log → Log × List (List ℕ × ByMode W)
  sweep_main machine log =
      let (log', all_results) = sweep_run_all utilizations machine log in
      (saved (experiment_dir ++ codes "/sweep_results.json") ∷ log', all_results)
