-- ===== src/Vram/Legacy.antt =====
-- The legacy `VRAMMonitor` of tkdgjs/experiment/run_vram_experiment.py. The body of its loop is one
-- step here: it takes the answer of vLLM and, should it need one, that of nvidia-smi.
pub mod Range
use cachegen_plus.Base.{
  ℕ, ◌^◌, Bool, true, false, ◌||◌, List, [], ◌∷◌, ◌++◌, map, Option, none, some, ◌==◌,
  if◌then◌else◌, ◌>>=◌, length,
}
use cachegen_plus.Base.Int.{pos}
use cachegen_plus.Float.{Float, ◌⊖◌, ◌⊘◌, max_list, min_of}
use cachegen_plus.Text.{is_digit, strip}
use cachegen_plus.Text.Pattern.{Piece, opt, many, literal, repeated, search_first}
use cachegen_plus.Answer.{RunResult, run_raised, exited, HttpReply, unreachable, reply}
use cachegen_plus.Vram.Kv.{decimal_digits}

-- `vllm_gpu_memory_usage_bytes\{gpu="0"\} (\d+\.?\d*e?[+-]?\d*)`
abbrev pub usage_bytes : List Piece
usage_bytes =
    literal "vllm_gpu_memory_usage_bytes{gpu=\"0\"} "
    ++ decimal_digits
    ++ opt true (λ c. c == b'e') ∷ opt true (λ c. c == b'+' || c == b'-') ∷ many true is_digit ∷ []

-- `vllm_gpu_memory_bytes\{type="used",gpu="0"\} (\d+)`
abbrev pub used_bytes : List Piece
used_bytes = literal "vllm_gpu_memory_bytes{type=\"used\",gpu=\"0\"} " ++ repeated is_digit

pub record LegacySample (W : Type 0) : Type 0 where
  pub elapsed_sec : W
  pub timestamp : W
  pub vram_gb : W

pub record VramMonitor (W : Type 0) : Type 0 where
  pub interval : W
  pub port : ℕ
  pub running : Bool
  pub samples : List (LegacySample W)
  pub start_time : W

pub record LegacyStats (W : Type 0) : Type 0 where
  pub min_gb : W
  pub max_gb : W
  pub peak_gb : W
  pub sample_count : ℕ

module _ {W : Type 0} ⦃f : Float W⦄ where
  unfoldable pub new_monitor : W → ℕ → VramMonitor W
  new_monitor interval port = record {
    interval = interval;
    port = port;
    running = false;
    samples = [];
    start_time = f.nought;
  }

  unfoldable pub vram_from_nvidia_smi : RunResult → Option W
  vram_from_nvidia_smi run_raised = none
  vram_from_nvidia_smi (exited code out) =
      if code == 0 then (f.parse (strip out) >>= λ mb. some (mb ⊘ f.of_int (pos 1024))) else none

  abbrev in_gb : Option W → Option W
  in_gb bytes = bytes >>= λ b. some (b ⊘ f.of_int (pos (1024 ^ 3)))

  -- The value on the page; an outer `none` sends the method to nvidia-smi: there is no match, or
  -- `float` raised.
  unfoldable pub vram_on_page : List ℕ → Option W
  vram_on_page text = elim (search_first usage_bytes text) [
    | some digits ↦ in_gb (f.parse digits)
    | none ↦ elim (search_first used_bytes text) [
      | some digits ↦ in_gb (f.parse digits)
      | none ↦ none
    ]
  ]

  abbrev pub or_else : Option W → Option W → Option W
  or_else none b = b
  or_else (some a) b = some a

  unfoldable pub vram_from_vllm : HttpReply → RunResult → Option W
  vram_from_vllm unreachable smi = vram_from_nvidia_smi smi
  vram_from_vllm (reply status text) smi =
      if status == 200
      then or_else (vram_on_page text) (vram_from_nvidia_smi smi)
      else vram_from_nvidia_smi smi

  abbrev add_sample : W → Option W → VramMonitor W → VramMonitor W
  add_sample now none m = m
  add_sample now (some vram) m = record m {
    samples =
        m.samples
        ++ record {
          elapsed_sec = f.round (now ⊖ m.start_time) 3;
          timestamp = now;
          vram_gb = f.round vram 4;
        }
          ∷ [];
  }

  -- `while self.running`: one round of `monitor_loop`, with what it reads
  unfoldable pub monitor_round : HttpReply → RunResult → W → VramMonitor W → VramMonitor W
  monitor_round metrics smi now m =
      if m.running then add_sample now (vram_from_vllm metrics smi) m else m

  unfoldable pub monitor_rounds : List (HttpReply × RunResult × W) → VramMonitor W → VramMonitor W
  monitor_rounds [] m = m
  monitor_rounds ((metrics, smi, now) ∷ rest) m =
      monitor_rounds rest (monitor_round metrics smi now m)

  unfoldable pub start_monitor : W → VramMonitor W → VramMonitor W
  start_monitor now m = record m { running = true; start_time = now; samples = [] }

  unfoldable pub stop_monitor : VramMonitor W → VramMonitor W
  stop_monitor m = record m { running = false }

  -- `min` of a list whose first item is `a`
  unfoldable pub min_list : W → List W → W
  min_list a [] = a
  min_list a (b ∷ bs) = min_list (min_of a b) bs

  abbrev legacy_stats_of : List W → Option (LegacyStats W)
  legacy_stats_of [] = none
  legacy_stats_of (v ∷ vs) = some (record {
    min_gb = min_list v vs;
    max_gb = max_list v vs;
    peak_gb = max_list v vs;
    sample_count = length (v ∷ vs);
  })

  -- `none` is the empty dict.
  unfoldable pub legacy_stats : VramMonitor W → Option (LegacyStats W)
  legacy_stats m = legacy_stats_of (map (λ s. s.vram_gb) m.samples)
