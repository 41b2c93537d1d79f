-- ===== src/Server.antt =====
-- Waiting for the vLLM server, the LMCache configuration and the launch, in
-- tkdgjs/experiment/run_vram_experiment.py. Times are whole milliseconds.
pub mod Wait
pub mod Paths
use Prim.Native.String.{String}
use cachegen_plus.Base.{
  ℕ, zero, suc, ◌-◌, Bool, true, false, List, [], ◌∷◌, ◌++◌, Option, none, some, ltb, ◌==◌,
  if◌then◌else◌,
}
use cachegen_plus.Text.{codes}
use cachegen_plus.Answer.{HttpReply, unreachable, reply}

-- `resp.status_code == 200`, where the request did not raise
abbrev pub is_ready : HttpReply → Bool
is_ready unreachable = false
is_ready (reply status text) = status == 200

-- `wait_for_vllm` from its round `k` on, with fuel; `none` means that the fuel ran out. The clock is
-- what `time.time()` returns at the test of each round, and the replies are those of `/v1/models`.
unfoldable pub wait_from : (ℕ → ℕ) → (ℕ → HttpReply) → ℕ → ℕ → ℕ → ℕ → Option Bool
wait_from clock replies start timeout zero k = none
wait_from clock replies start timeout (suc fuel) k =
    let later = wait_from clock replies start timeout fuel (suc k) in
    if ltb (clock k - start) timeout
    then (if is_ready (replies k) then some true else later)
    else some false

unfoldable pub wait_for_vllm : (ℕ → ℕ) → (ℕ → HttpReply) → ℕ → ℕ → ℕ → Option Bool
wait_for_vllm clock replies start timeout fuel = wait_from clock replies start timeout fuel 0

abbrev pub experiment_dir : List ℕ
experiment_dir = codes "/home/noslab-gpu/tkdgjs/experiment"

-- `f"{EXPERIMENT_DIR}/lmcache_{serde_type}_disk"`
abbrev pub disk_path : List ℕ → List ℕ
disk_path serde_type = experiment_dir ++ codes "/lmcache_" ++ serde_type ++ codes "_disk"

abbrev pub base_config : List ℕ
base_config = codes "/home/noslab-gpu/tkdgjs/qlm/qlm/endpoints/lmcache.yaml"

abbrev pub native_config : List ℕ
native_config = experiment_dir ++ codes "/lmcache_native.yaml"

-- The lines that `create_lmcache_config` writes.
unfoldable pub config_lines : List ℕ → List (List ℕ)
config_lines serde_type =
    codes "chunk_size: 256"
    ∷ codes "save_unfull_chunk: true"
    ∷ codes "local_cpu: true"
    ∷ codes "max_local_cpu_size: 4.0"
    ∷ (codes "local_disk: " ++ 34 ∷ codes "file://" ++ disk_path serde_type ++ b'/' ∷ 34 ∷ [])
    ∷ codes "max_local_disk_size: 10.0"
    ∷ codes "enable_async_loading: true"
    ∷ codes "enable_kv_events: true"
    ∷ (codes "remote_serde: " ++ serde_type)
    ∷ codes "internal_api_server_enabled: true"
    ∷ codes "internal_api_server_port_start: 6999"
    ∷ codes "enable_chunk_statistics: true"
    ∷ (codes "chunk_statistics_strategy: " ++ 34 ∷ codes "memory_bloom_filter" ++ 34 ∷ [])
    ∷ codes "chunk_statistics_auto_start_statistics: true"
    ∷ []

-- The file that `create_lmcache_config` writes, and the directory that it makes and returns.
pub record ConfigFile : Type 0 where
  pub path : List ℕ
  pub lines : List (List ℕ)
  pub disk : List ℕ

unfoldable pub create_lmcache_config : List ℕ → List ℕ → ConfigFile
create_lmcache_config serde_type output_path = record {
  path = output_path;
  lines = config_lines serde_type;
  disk = disk_path serde_type;
}

-- What `start_vllm` sets up before it runs the server.
pub record Launch : Type 0 where
  -- `LMCACHE_CONFIG_FILE`
  pub config_path : List ℕ
  -- the configuration that it writes itself, if any
  pub written : Option ConfigFile
  -- the directory that it makes
  pub cache_disk : List ℕ
  pub log_file : List ℕ
  pub command : List (List ℕ)

unfoldable pub same_codes : List ℕ → List ℕ → Bool
same_codes [] [] = true
same_codes (c ∷ cs) (d ∷ ds) = if c == d then same_codes cs ds else false
same_codes _ _ = false

-- `cmd`, in both scripts, with the text of the utilization
abbrev pub sweep_command : List ℕ → List (List ℕ)
sweep_command gpu_mem_util =
    codes "/home/noslab-gpu/tkdgjs/tkdgjs/bin/vllm"
    ∷ codes "serve"
    ∷ codes "meta-llama/Llama-3.2-1B-Instruct"
    ∷ codes "--port"
    ∷ codes "8000"
    ∷ codes "--dtype"
    ∷ codes "half"
    ∷ codes "--max-model-len"
    ∷ codes "8192"
    ∷ codes "--max-num-seqs"
    ∷ codes "128"
    ∷ codes "--max-num-batched-tokens"
    ∷ codes "4096"
    ∷ codes "--gpu-memory-utilization"
    ∷ gpu_mem_util
    ∷ codes "--disable-hybrid-kv-cache-manager"
    ∷ codes "--kv-transfer-config"
    ∷ codes
        "{\"kv_connector\":\"LMCacheConnectorV1\",\"kv_role\":\"kv_both\",\"kv_connector_extra_config\":{\"discard_partial_chunks\":false}}"
    ∷ codes "--scheduling-policy"
    ∷ codes "fcfs"
    ∷ codes "--enable-chunked-prefill"
    ∷ codes "--enforce-eager"
    ∷ codes "--attention-backend"
    ∷ codes "triton_attn"
    ∷ []

abbrev pub vllm_command : List (List ℕ)
vllm_command = sweep_command (codes "0.9")

-- `start_vllm` up to the start of the process
unfoldable pub launch : List ℕ → Launch
unfolding same_codes
launch serde_type =
    let log = experiment_dir ++ codes "/vllm_" ++ serde_type ++ codes ".log" in
    if same_codes serde_type (codes "cachegen")
    then record {
      config_path = base_config;
      written = none;
      cache_disk = disk_path (codes "cachegen");
      log_file = log;
      command = vllm_command;
    }
    else (let config = create_lmcache_config (codes "torch") native_config in
        record {
          config_path = native_config;
          written = some config;
          cache_disk = config.disk;
          log_file = log;
          command = vllm_command;
        })
