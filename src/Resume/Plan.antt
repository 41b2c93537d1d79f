-- ===== src/Resume/Plan.antt =====
-- `main` of tkdgjs/experiment/run_sweep.py and the file in which it keeps its progress.
pub mod Keys
use cachegen_plus.Base.{
  ℕ, ◌+◌, Bool, true, false, ◌&&◌, leb, List, [], ◌∷◌, ◌++◌, map, Option, none, some, if◌then◌else◌,
}
use cachegen_plus.Float.{Float}
use cachegen_plus.Text.{codes, lower}
use cachegen_plus.Server.{same_codes}
use cachegen_plus.Complete.Probe.{Act, contains}
use cachegen_plus.Resume.Run.{
  ResumeAnswers, ResumeValues, Attempt, succeeded_with, failed_with, raised_with, run_experiment,
}

-- A configuration, with the decimal texts of its numbers.
pub record SafeConfig (W : Type 0) : Type 0 where
  pub tokens : ℕ
  pub gpu_mem : W
  pub tokens_text : List ℕ
  pub gpu_text : List ℕ

-- An entry of the results; the key is missing only from entries that another program wrote.
pub record Entry (W : Type 0) : Type 0 where
  pub key : Option (List ℕ)
  pub attempt : Attempt W

abbrev pub is_key : List ℕ → Option (List ℕ) → Bool
is_key key none = false
is_key key (some k) = same_codes k key

module _ {W : Type 0} where
  -- `f"{mode}_{tokens}_{gpu_mem}"`
  abbrev pub key_of : List ℕ → SafeConfig W → List ℕ
  key_of mode c = mode ++ codes "_" ++ c.tokens_text ++ codes "_" ++ c.gpu_text

  -- `any(r.get("key") == key for r in results)`
  unfoldable pub has_key : List ℕ → List (Entry W) → Bool
  has_key key [] = false
  has_key key (r ∷ rs) = let rest = has_key key rs in if is_key key r.key then true else rest

  -- `result["status"] == "failed" and "oom" in str(result.get("error", "")).lower()`
  unfoldable pub out_of_memory : Attempt W → Bool
  out_of_memory (succeeded_with v) = false
  out_of_memory (failed_with error) = contains "oom" (lower error)
  out_of_memory (raised_with message) = false

-- The log, `results`, and whether the loop is left by `break`. The progress file has the results
-- after each entry.
pub record Progress (W : Type 0) : Type 0 where
  pub log : List (Act W)
  pub results : List (Entry W)
  pub stopped : Bool

module _ {W : Type 0} ⦃f : Float W⦄ where
  abbrev pub add_entry : List ℕ → List (Entry W) → List (Act W) × Attempt W → Progress W
  add_entry key results (log, attempt) = record {
    log = log;
    results = results ++ record { key = some key; attempt = attempt } ∷ [];
    stopped = out_of_memory attempt;
  }

  -- One turn of the loop of a phase.
  unfoldable pub try_config :
      List ℕ
      → (SafeConfig W → ResumeAnswers)
      → SafeConfig W
      → List (Act W)
      → List (Entry W)
      → Progress W
  try_config mode machine c log results =
      if has_key (key_of mode c) results
      then record { log = log; results = results; stopped = false }
      else add_entry (key_of mode c) results
          (run_experiment mode c.tokens c.gpu_mem (machine c) log)

  -- The loop of a phase, over the configurations that are left.
  unfoldable pub run_phase :
      List ℕ
      → (SafeConfig W → ResumeAnswers)
      → List (SafeConfig W)
      → List (Act W)
      → List (Entry W)
      → List (Act W) × List (Entry W)
  run_phase mode machine [] log results = (log, results)
  run_phase mode machine (c ∷ cs) log results =
      let p = try_config mode machine c log results in
      let rest = run_phase mode machine cs p.log p.results in
      if p.stopped then (p.log, p.results) else rest

  abbrev config : ℕ → List ℕ → ℕ → List ℕ → SafeConfig W
  config tokens tokens_text tenths gpu_text = record {
    tokens = tokens;
    gpu_mem = f.decimal tenths 1;
    tokens_text = tokens_text;
    gpu_text = gpu_text;
  }

  abbrev pub safe_configs : List (SafeConfig W)
  safe_configs =
      config 128 (codes "128") 3 (codes "0.3")
      ∷ config 256 (codes "256") 3 (codes "0.3")
      ∷ config 512 (codes "512") 3 (codes "0.3")
      ∷ config 1024 (codes "1024") 3 (codes "0.3")
      ∷ config 128 (codes "128") 5 (codes "0.5")
      ∷ config 256 (codes "256") 5 (codes "0.5")
      ∷ config 512 (codes "512") 5 (codes "0.5")
      ∷ config 1024 (codes "1024") 5 (codes "0.5")
      ∷ config 2048 (codes "2048") 5 (codes "0.5")
      ∷ []

  -- `main`, from the loaded results: the log, and the results that are saved.
  unfoldable pub resume_main :
      (List ℕ → SafeConfig W → ResumeAnswers)
      → List (Act W)
      → List (Entry W)
      → List (Act W) × List (Entry W)
  resume_main machine log loaded =
      let (log', results) =
        run_phase (codes "cachegen") (machine (codes "cachegen")) safe_configs log loaded in
      run_phase (codes "native") (machine (codes "native")) safe_configs log' results
