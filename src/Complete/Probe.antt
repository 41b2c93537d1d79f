-- ===== src/Complete/Probe.antt =====
-- `check_vllm_ready`, `get_vram_usage`, `get_disk_size`, `clean_cache` and `kill_vllm` of
-- tkdgjs/experiment/run_sweep_complete.py.
pub mod Ready
use Prim.Native.String.{String}
use cachegen_plus.Base.{
  ℕ, zero, suc, Bool, true, false, List, [], ◌∷◌, ◌++◌, Option, none, some, ◌==◌, if◌then◌else◌,
  ◌>>=◌, or_default,
}
use cachegen_plus.Base.Int.{pos}
use cachegen_plus.Float.{Float, ◌⊘◌}
use cachegen_plus.Text.{codes, is_space, strip, split}
use cachegen_plus.Text.Pattern.{literal, search_first}
use cachegen_plus.Answer.{RunResult, run_raised, exited}

-- What a server is started with.
pub record CompleteLaunch (W : Type 0) : Type 0 where
  pub config_file : List ℕ
  pub cache_dir : List ℕ
  pub gpu_mem : W

-- What the script does to the machine.
pub data Act (W : Type 0) : Type 0 where
  -- a command, as the words that are really executed
  ran : List (List ℕ) → Act W
  launched : CompleteLaunch W → Act W
  -- `pkill` of all servers
  ended : Act W
  -- `proc.kill()` of the server that was started last
  proc_killed : Act W
  -- `time.sleep`, in seconds
  paused : ℕ → Act W
  -- a completion request with this many words
  asked : ℕ → Act W

-- Whether a substring occurs.
abbrev pub contains : String → List ℕ → Bool
contains s text = elim (search_first (literal s) text) [ none ↦ false | some g ↦ true ]

-- `result.returncode == 0 and b'"object":"list"' in result.stdout`
unfoldable pub lists_models : RunResult → Bool
lists_models run_raised = false
lists_models (exited code out) = if code == 0 then contains "\"object\":\"list\"" out else false

-- What `subprocess.run` executes. With `shell=True` a list is a command and arguments of the shell
-- itself, so only its first item is executed.
abbrev pub shell_words : Bool → List (List ℕ) → List (List ℕ)
shell_words true (command ∷ args) = command ∷ []
shell_words true [] = []
shell_words false words = words

module _ {W : Type 0} where
  -- The loop of `check_vllm_ready` with so many rounds left, from round `k` on.
  unfoldable pub ready_from : (ℕ → RunResult) → ℕ → ℕ → List (Act W) → List (Act W) × Bool
  ready_from replies zero k log = (log, false)
  ready_from replies (suc rounds) k log =
      let later = ready_from replies rounds (suc k) (paused 1 ∷ log) in
      if lists_models (replies k) then (log, true) else later

  unfoldable pub check_vllm_ready : (ℕ → RunResult) → ℕ → List (Act W) → List (Act W) × Bool
  check_vllm_ready replies timeout log = ready_from replies timeout 0 log

  unfoldable pub kill_vllm : List (Act W) → List (Act W)
  kill_vllm log = paused 10 ∷ ended ∷ log

  unfoldable pub clean_cache : List ℕ → List (Act W) → List (Act W)
  clean_cache cache_dir log =
      ran (shell_words false (codes "rm" ∷ codes "-f" ∷ codes "/tmp/lmcache_vram.log" ∷ []))
      ∷ ran (shell_words true (codes "rm" ∷ codes "-rf" ∷ (cache_dir ++ codes "/*") ∷ []))
      ∷ log

-- `text.split()[0]`; `none` is an `IndexError`
skip_spaces : List ℕ → List ℕ
skip_spaces [] = []
skip_spaces (c ∷ cs) = let rest = skip_spaces cs in if is_space c then rest else c ∷ cs

word : List ℕ → List ℕ
word [] = []
word (c ∷ cs) = let rest = word cs in if is_space c then [] else c ∷ rest

abbrev word_of : List ℕ → Option (List ℕ)
word_of [] = none
word_of (c ∷ cs) = some (c ∷ cs)

unfoldable pub first_word : List ℕ → Option (List ℕ)
unfolding skip_spaces word
first_word text = word_of (word (skip_spaces text))

-- `fields[0]` of a list that `split` made
abbrev pub first_field : List (List ℕ) → List ℕ
first_field [] = []
first_field (field ∷ fields) = field

module _ {W : Type 0} ⦃f : Float W⦄ where
  unfoldable pub get_vram_usage : RunResult → Option W
  get_vram_usage run_raised = none
  get_vram_usage (exited code out) =
      if code == 0
      then (f.parse (first_field (split 10 (strip out))) >>= λ mb. some (mb ⊘ f.decimal 10240 1))
      else none

  unfoldable pub get_disk_size : RunResult → W
  get_disk_size run_raised = f.nought
  get_disk_size (exited code out) =
      if code == 0 then or_default f.nought (first_word out >>= f.parse) else f.nought
