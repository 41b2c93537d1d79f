-- ===== src/Vram/Gpu.antt =====
-- `FullVRAMMonitor._get_nvidia_smi_memory` and `_get_torch_memory` of
-- tkdgjs/experiment/run_vram_experiment.py.
pub mod Fields
use cachegen_plus.Base.{
  ℕ, ◌^◌, List, [], ◌∷◌, Option, none, some, ◌==◌, if◌then◌else◌, ◌>>=◌, or_default,
}
use cachegen_plus.Base.Int.{ℤ, pos}
use cachegen_plus.Float.{Float, ◌⊘◌}
use cachegen_plus.Text.{strip, split}
use cachegen_plus.Answer.{
  RunResult, run_raised, exited, TorchCounts, TorchReply, torch_raised, no_cuda, counts,
}

pub record GpuMemory (W : Type 0) : Type 0 where
  pub total : W
  pub used : W
  pub free : W
  pub reserved : W

pub record TorchMemory (W : Type 0) : Type 0 where
  pub allocated_gb : W
  pub reserved_gb : W
  pub peak_gb : W
  pub active_bytes_gb : W
  pub inactive_split_bytes_gb : W
  pub num_alloc_retries : ℕ
  pub num_ooms : ℕ

module _ {W : Type 0} ⦃f : Float W⦄ where
  -- `[float(x.strip()) for x in fields]`
  unfoldable pub parse_fields : List (List ℕ) → Option (List W)
  parse_fields [] = some []
  parse_fields (field ∷ fields) = do
    value ← f.parse (strip field)
    values ← parse_fields fields
    some (value ∷ values)

  -- MB to GB, from the first four values; `none` is an `IndexError`.
  unfoldable pub of_megabytes : List W → Option (GpuMemory W)
  of_megabytes (total ∷ used ∷ free ∷ reserved ∷ _) =
      let kilo = f.of_int (pos 1024) in
      some (record {
        total = total ⊘ kilo;
        used = used ⊘ kilo;
        free = free ⊘ kilo;
        reserved = reserved ⊘ kilo;
      })
  of_megabytes _ = none

  abbrev pub no_memory : GpuMemory W
  no_memory = record { total = f.nought; used = f.nought; free = f.nought; reserved = f.nought }

  unfoldable pub nvidia_smi_memory : RunResult → GpuMemory W
  nvidia_smi_memory run_raised = no_memory
  nvidia_smi_memory (exited code out) =
      if code == 0
      then or_default no_memory (parse_fields (split b',' (strip out)) >>= of_megabytes)
      else no_memory

  abbrev to_gb : ℕ → W
  to_gb bytes = f.of_int (pos bytes) ⊘ f.of_int (pos (1024 ^ 3))

  abbrev no_torch : TorchMemory W
  no_torch = record {
    allocated_gb = f.nought;
    reserved_gb = f.nought;
    peak_gb = f.nought;
    active_bytes_gb = f.nought;
    inactive_split_bytes_gb = f.nought;
    num_alloc_retries = 0;
    num_ooms = 0;
  }

  unfoldable pub torch_memory : TorchReply → TorchMemory W
  torch_memory torch_raised = no_torch
  torch_memory no_cuda = no_torch
  torch_memory (counts c) = record {
    allocated_gb = to_gb c.allocated;
    reserved_gb = to_gb c.reserved;
    peak_gb = to_gb c.peak;
    active_bytes_gb = to_gb (or_default 0 c.active);
    inactive_split_bytes_gb = to_gb (or_default 0 c.inactive_split);
    num_alloc_retries = or_default 0 c.alloc_retries;
    num_ooms = or_default 0 c.ooms;
  }
