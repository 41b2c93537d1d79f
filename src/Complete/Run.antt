-- ===== src/Complete/Run.antt =====
-- `run_vllm` and `main` of tkdgjs/experiment/run_sweep_complete.py. An exception is `none`.
pub mod Ends
use cachegen_plus.Base.{
  ℕ, ◌*◌, ◌/◌, Bool, List, [], ◌∷◌, ◌++◌, Option, none, some, if◌then◌else◌, ◌>>=◌,
}
use cachegen_plus.Float.{Float}
use cachegen_plus.Text.{codes}
use cachegen_plus.Answer.{RunResult}
use cachegen_plus.Server.{same_codes, native_config, disk_path, experiment_dir}
use cachegen_plus.Complete.Probe.{
  Act, CompleteLaunch, ran, launched, ended, proc_killed, paused, asked, check_vllm_ready,
  kill_vllm, clean_cache, get_vram_usage, get_disk_size,
}

-- What the machine answers during one run.
pub record RunAnswers : Type 0 where
  pub models : ℕ → RunResult
  pub smi_before : RunResult
  pub smi_after : RunResult
  pub disk : RunResult

-- The dict that `run_vllm` returns, without its time.
pub record RunRecord (W : Type 0) : Type 0 where
  pub mode : List ℕ
  pub tokens : ℕ
  pub gpu_memory : W
  pub vram_before : Option W
  pub vram_after : Option W
  pub disk_size_mb : W

abbrev pub cachegen_config : List ℕ
cachegen_config = experiment_dir ++ codes "/lmcache_cachegen.yaml"

module _ {W : Type 0} ⦃f : Float W⦄ where
  abbrev pub complete_launch : List ℕ → W → CompleteLaunch W
  complete_launch mode gpu_mem = record {
    config_file = if same_codes mode (codes "cachegen") then cachegen_config else native_config;
    cache_dir =
        if same_codes mode (codes "cachegen")
        then disk_path (codes "cachegen")
        else disk_path (codes "torch");
    gpu_mem = gpu_mem;
  }

  unfoldable pub run_record : List ℕ → ℕ → W → RunAnswers → RunRecord W
  run_record mode tokens gpu_mem a = record {
    mode = mode;
    tokens = tokens;
    gpu_memory = gpu_mem;
    vram_before = get_vram_usage a.smi_before;
    vram_after = get_vram_usage a.smi_after;
    disk_size_mb = get_disk_size a.disk;
  }

  -- The log and the dict; `none` is the `None` of a server that did not become ready.
  unfoldable pub run_vllm :
      List ℕ → ℕ → W → RunAnswers → List (Act W) → List (Act W) × Option (RunRecord W)
  run_vllm mode tokens gpu_mem a log =
      let l = complete_launch mode gpu_mem in
      let (started, ready) =
        check_vllm_ready a.models 60 (launched l ∷ clean_cache l.cache_dir log) in
      if ready
      then (
        kill_vllm (paused 2 ∷ asked (tokens / 2) ∷ paused 2 ∷ started),
        some (run_record mode tokens gpu_mem a),
      )
      else (proc_killed ∷ started, none)

  -- `if result: results.append(result); print(f"{result['vram_after']:.2f}…")`, which raises
  -- `TypeError` if the memory could not be read
  abbrev pub append_run : Option (RunRecord W) → List (RunRecord W) → Option (List (RunRecord W))
  append_run none results = some results
  append_run (some r) results = r.vram_after >>= λ gb. some (results ++ r ∷ [])

  abbrev pub configs : List (ℕ × W)
  configs = (256, f.decimal 2 1) ∷ (512, f.decimal 2 1) ∷ (1024, f.decimal 2 1) ∷ []

  -- The runs of a configuration, in order.
  abbrev pub with_modes : List (ℕ × W) → List (List ℕ × ℕ × W)
  with_modes [] = []
  with_modes ((tokens, gpu_mem) ∷ rest) =
      (codes "cachegen", tokens, gpu_mem) ∷ (codes "native", tokens, gpu_mem) ∷ with_modes rest

  abbrev after_run :
      List (Act W)
      → Option (List (RunRecord W))
      → (List (RunRecord W) → List (Act W) × Option (List (RunRecord W)))
      → List (Act W) × Option (List (RunRecord W))
  after_run log none next = (log, none)
  after_run log (some results) next = next results

  -- The loop of `main`, over the runs that are left.
  unfoldable pub run_configs :
      List (List ℕ × ℕ × W)
      → (List ℕ → ℕ → RunAnswers)
      → List (RunRecord W)
      → List (Act W)
      → List (Act W) × Option (List (RunRecord W))
  run_configs [] machine results log = (log, some results)
  run_configs ((mode, tokens, gpu_mem) ∷ rest) machine results log =
      let (log', r) = run_vllm mode tokens gpu_mem (machine mode tokens) log in
      after_run log' (append_run r results) (λ results'. run_configs rest machine results' log')

  -- The log and the results that are saved, drawn and sent.
  unfoldable pub complete_main :
      (List ℕ → ℕ → RunAnswers) → List (Act W) → List (Act W) × Option (List (RunRecord W))
  complete_main machine log = run_configs (with_modes configs) machine [] log
