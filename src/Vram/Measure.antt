-- ===== src/Vram/Measure.antt =====
-- `VRAMSnapshot`, `FullVRAMMonitor.measure` and `set_baseline` of
-- tkdgjs/experiment/run_vram_experiment.py.
pub mod Regions
use cachegen_plus.Base.{ℕ, Bool, true, false, ◌&&◌, ◌||◌, Option, none, some, if◌then◌else◌}
use cachegen_plus.Base.Int.{ℤ}
use cachegen_plus.Float.{Float, ◌⊕◌, ◌⊖◌, ◌⊗◌, max_of}
use cachegen_plus.Answer.{RunResult, HttpReply, TorchReply}
use cachegen_plus.Vram.Kv.{KvStats, kv_stats}
use cachegen_plus.Vram.Gpu.{GpuMemory, TorchMemory, nvidia_smi_memory, torch_memory}

pub record VramSnapshot (W : Type 0) : Type 0 where
  pub total_vram_gb : W
  pub used_vram_gb : W
  pub free_vram_gb : W
  pub model_weights_gb : W
  pub vllm_kv_cache_allocated_gb : W
  pub vllm_kv_blocks_total : ℤ
  pub vllm_kv_blocks_free : ℤ
  pub vllm_kv_cache_used_gb : W
  pub vllm_kv_blocks_used : ℤ
  pub vllm_kv_usage_ratio : W
  pub activation_tensors_gb : W
  pub cuda_runtime_gb : W
  pub torch_allocated_gb : W
  pub torch_reserved_gb : W
  pub torch_peak_gb : W
  pub estimated_cachegen_buffer_gb : W
  pub sum_validated_gb : W
  pub sum_diff_gb : W

-- The three regions that step 4 sets in more than one place.
pub record Shares (W : Type 0) : Type 0 where
  pub model : W
  pub kv : W
  pub cuda : W

-- What the machine answers during one call of `measure`.
pub record Readings : Type 0 where
  pub smi : RunResult
  pub metrics : HttpReply
  pub torch : TorchReply

abbrev pub is_set {ℓ} : {A : Type ℓ} → Option A → Bool
is_set none = false
is_set (some _) = true

module _ {W : Type 0} ⦃f : Float W⦄ where
  -- `kv_allocated_gb > 0 and kv_allocated_gb <= used_vram`
  abbrev pub fits : W → W → Bool
  fits kv used = f.lt f.nought kv && f.le kv used

  -- Region 1 and, in proportion, regions 2b and 4.
  unfoldable pub first_shares : Option (VramSnapshot W) → W → W → Shares W
  first_shares (some base) used kv =
      let model = base.used_vram_gb ⊖ base.vllm_kv_cache_allocated_gb in
      record {
        model = if f.lt model f.nought then base.used_vram_gb else model;
        kv = f.nought;
        cuda = f.nought;
      }
  first_shares none used kv =
      if fits kv used
      then record { model = max_of f.nought (used ⊖ kv); kv = f.nought; cuda = f.nought }
      else record {
        model = used ⊗ f.decimal 75 2;
        kv = used ⊗ f.decimal 15 2;
        cuda = used ⊗ f.decimal 10 2;
      }

  -- Region 3
  unfoldable pub activation : Option (VramSnapshot W) → TorchMemory W → W
  activation (some base) torch = max_of f.nought (torch.peak_gb ⊖ base.torch_allocated_gb)
  activation none torch = torch.peak_gb

  -- Regions 2 and 4, where the allocated KV memory lies in the used memory.
  unfoldable pub settle : Bool → W → W → W → W → Shares W → Shares W
  settle inside used kv_allocated ratio act shares =
      if inside
      then (let kv = if f.lt f.nought ratio then kv_allocated ⊗ ratio else kv_allocated in
          record {
            model = shares.model;
            kv = kv;
            cuda = max_of f.nought (used ⊖ shares.model ⊖ kv ⊖ act);
          })
      else shares

  -- The allocator's growth since the baseline, 0.0 without one.
  unfoldable pub cachegen_buffer : Option (VramSnapshot W) → TorchMemory W → W
  cachegen_buffer (some base) torch = max_of f.nought (torch.allocated_gb ⊖ base.torch_allocated_gb)
  cachegen_buffer none torch = f.nought

  -- The snapshot from the answers, already read.
  unfoldable pub snapshot_of :
      Option (VramSnapshot W) → GpuMemory W → KvStats W → TorchMemory W → VramSnapshot W
  snapshot_of baseline nvidia kv torch =
      let act = activation baseline torch in
      let shares =
        settle (is_set baseline || fits kv.allocated_gb nvidia.used) nvidia.used kv.allocated_gb
          kv.usage_ratio act (first_shares baseline nvidia.used kv.allocated_gb) in
      let sum = shares.model ⊕ shares.kv ⊕ act ⊕ shares.cuda in
      record {
        total_vram_gb = nvidia.total;
        used_vram_gb = nvidia.used;
        free_vram_gb = nvidia.free;
        model_weights_gb = shares.model;
        vllm_kv_cache_allocated_gb = kv.allocated_gb;
        vllm_kv_blocks_total = kv.blocks_total;
        vllm_kv_blocks_free = kv.blocks_free;
        vllm_kv_cache_used_gb = shares.kv;
        vllm_kv_blocks_used = kv.blocks_used;
        vllm_kv_usage_ratio = kv.usage_ratio;
        activation_tensors_gb = act;
        cuda_runtime_gb = shares.cuda;
        torch_allocated_gb = torch.allocated_gb;
        torch_reserved_gb = torch.reserved_gb;
        torch_peak_gb = torch.peak_gb;
        estimated_cachegen_buffer_gb = cachegen_buffer baseline torch;
        sum_validated_gb = sum;
        sum_diff_gb = nvidia.used ⊖ sum;
      }

  unfoldable pub measure : Option (VramSnapshot W) → Readings → VramSnapshot W
  measure baseline r =
      snapshot_of baseline (nvidia_smi_memory r.smi) (kv_stats r.metrics) (torch_memory r.torch)

-- The fields of `FullVRAMMonitor`.
pub record FullVramMonitor (W : Type 0) : Type 0 where
  pub port : ℕ
  pub baseline : Option (VramSnapshot W)

module _ {W : Type 0} ⦃f : Float W⦄ where
  unfoldable pub set_baseline : FullVramMonitor W → Readings → FullVramMonitor W × VramSnapshot W
  set_baseline m r = let s = measure none r in (record m { baseline = some s }, s)
