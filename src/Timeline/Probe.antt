-- ===== src/Timeline/Probe.antt =====
-- The small functions of tkdgjs/experiment/run_full_sweep.py: the cache directory, the memory, the
-- server and the request.
pub mod Waits
pub mod Size
use cachegen_plus.Base.{
  ℕ, zero, suc, ◌+◌, ◌-◌, Bool, true, false, ◌&&◌, List, [], ◌∷◌, ◌++◌, Option, none, some, ltb,
  ◌==◌, if◌then◌else◌, ◌>>=◌, or_default,
}
use cachegen_plus.Base.Int.{pos}
use cachegen_plus.Float.{Float, ◌⊖◌, ◌⊘◌}
use cachegen_plus.Text.{codes, strip, split}
use cachegen_plus.Text.Substring.{starts_with, occurs_in}
use cachegen_plus.Answer.{RunResult, run_raised, exited}
use cachegen_plus.Disk.{Node, file, dir, broken, end, walk}
use cachegen_plus.Server.{experiment_dir}
use cachegen_plus.Complete.Probe.{first_field}
use cachegen_plus.Timeline.{LogFile, missing, unreadable, content}

-- `clear_disk_cache`; `none` is the exception of `rmtree` on a file or of `makedirs` on a link to
-- nothing.
unfoldable pub clear_disk_cache : Option Node → Option Node
clear_disk_cache none = some (dir end)
clear_disk_cache (some (dir es)) = some (dir end)
clear_disk_cache (some (file size)) = none
clear_disk_cache (some broken) = none

abbrev pub add_size : ℕ → Node → ℕ
add_size total (file size) = total + size
add_size total (dir es) = total
add_size total broken = total

-- The loops of `get_disk_size`, over the names of one directory and over the directories.
abbrev pub add_sizes : ℕ → List Node → ℕ
add_sizes total [] = total
add_sizes total (n ∷ ns) = add_sizes (add_size total n) ns

abbrev pub add_all : ℕ → List (List Node) → ℕ
add_all total [] = total
add_all total (ns ∷ rest) = add_all (add_sizes total ns) rest

unfoldable pub get_disk_size : Option Node → ℕ
get_disk_size none = 0
get_disk_size (some n) = add_all 0 (walk n)

-- `r.returncode == 0`, where the call did not raise
abbrev pub exited_well : RunResult → Bool
exited_well run_raised = false
exited_well (exited code out) = code == 0

-- `wait_for_vllm` from its round `k` on, with fuel; `none` means that the fuel ran out. The clock is
-- what `time.time()` returns at the test of each round, in milliseconds.
unfoldable pub poll_from : (ℕ → ℕ) → (ℕ → RunResult) → ℕ → ℕ → ℕ → ℕ → Option Bool
poll_from clock polls start timeout zero k = none
poll_from clock polls start timeout (suc fuel) k =
    let later = poll_from clock polls start timeout fuel (suc k) in
    if ltb (clock k - start) timeout
    then (if exited_well (polls k) then some true else later)
    else some false

unfoldable pub wait_for_curl : (ℕ → ℕ) → (ℕ → RunResult) → ℕ → ℕ → ℕ → Option Bool
wait_for_curl clock polls start timeout fuel = poll_from clock polls start timeout fuel 0

-- What `start_vllm` starts.
pub record TimelineLaunch : Type 0 where
  -- `LMCACHE_CONFIG_FILE`
  pub config_file : List ℕ
  pub log_file : List ℕ
  pub command : List (List ℕ)

unfoldable pub timeline_launch : List ℕ → List ℕ → TimelineLaunch
timeline_launch mode gpu_util = record {
  config_file = experiment_dir ++ codes "/lmcache_" ++ mode ++ codes ".yaml";
  log_file = experiment_dir ++ codes "/vllm_" ++ mode ++ codes "_gm" ++ gpu_util ++ codes ".log";
  command =
      codes "/home/noslab-gpu/tkdgjs/tkdgjs/bin/vllm"
      ∷ codes "serve"
      ∷ codes "meta-llama/Llama-3.2-1B-Instruct"
      ∷ codes "--port"
      ∷ codes "8000"
      ∷ codes "--dtype"
      ∷ codes "half"
      ∷ codes "--max-model-len"
      ∷ codes "8192"
      ∷ codes "--gpu-memory-utilization"
      ∷ gpu_util
      ∷ codes "--attention-backend"
      ∷ codes "TRITON_ATTN"
      ∷ codes "--kv-transfer-config"
      ∷ codes "{\"kv_connector\":\"LMCacheConnectorV1\",\"kv_role\":\"kv_both\"}"
      ∷ [];
}

abbrev drop_codes : List ℕ → List ℕ → List ℕ
drop_codes [] text = text
drop_codes (s ∷ sep) [] = []
drop_codes (s ∷ sep) (c ∷ text) = drop_codes sep text

abbrev onto_cut : ℕ → List ℕ × Option (List ℕ) → List ℕ × Option (List ℕ)
onto_cut c (before, after) = (c ∷ before, after)

-- A text up to the first separator, and what follows it if there is one.
unfoldable pub cut_at : List ℕ → List ℕ → List ℕ × Option (List ℕ)
cut_at sep [] = ([], none)
cut_at sep (c ∷ text) =
    let later = cut_at sep text in
    if starts_with sep (c ∷ text) then ([], some (drop_codes sep (c ∷ text))) else onto_cut c later

-- The text of the size in a line that reports a stored cache: `parts[1].split("GB")[0].strip()`.
unfoldable pub size_text : List ℕ → Option (List ℕ)
unfolding cut_at
size_text line =
    if occurs_in (codes "size:") line && occurs_in (codes "Stored") line
    then ((cut_at (codes "size:") line).1 >>= λ rest.
        some (strip (cut_at (codes "GB") (cut_at (codes "size:") rest).0).0))
    else none

module _ {W : Type 0} ⦃f : Float W⦄ where
  unfoldable pub get_vram_usage : RunResult → W
  get_vram_usage run_raised = f.nought
  get_vram_usage (exited code out) =
      if code == 0
      then or_default f.nought
          (f.parse (first_field (split 10 (strip out))) >>= λ mb. some (mb ⊘ f.of_int (pos 1024)))
      else f.nought

  -- `send_request`, from the times before and after it
  unfoldable pub send_request : RunResult → W → W → Bool × W
  send_request run_raised before after = (false, f.nought)
  send_request (exited code out) before after = (code == 0, after ⊖ before)

  -- The loop over the lines of the server's log; a size that is no number ends it.
  unfoldable pub last_size : W → List (List ℕ) → W
  last_size found [] = found
  last_size found (line ∷ lines) = elim (size_text line) [
    | none ↦ last_size found lines
    | some digits ↦ elim (f.parse digits) [ none ↦ found | some gb ↦ last_size gb lines ]
  ]

  -- `compression_ratio`
  unfoldable pub stored_size : LogFile → W
  stored_size missing = f.nought
  stored_size unreadable = f.nought
  stored_size (content text) = last_size f.nought (split 10 text)
