-- ===== src/Vram/Kv.antt =====
-- `FullVRAMMonitor._get_vllm_kv_stats` of tkdgjs/experiment/run_vram_experiment.py.
pub mod Blocks
use Prim.Native.String.{String}
use cachegen_plus.Base.{
  ℕ, ◌^◌, true, false, ◌&&◌, not, List, [], ◌∷◌, ◌++◌, Option, none, some, ltb, ◌==◌, if◌then◌else◌,
  ◌>>=◌, or_default,
}
use cachegen_plus.Base.Int.{ℤ, pos, ◌-ℤ◌, ◌*ℤ◌}
use cachegen_plus.Float.{Float, ◌⊗◌, ◌⊘◌}
use cachegen_plus.Text.{codes, is_digit, number}
use cachegen_plus.Text.Pattern.{Piece, one, opt, many, literal, repeated, search_first, search_any}
use cachegen_plus.Answer.{HttpReply, unreachable, reply}

-- The dict that the method returns; `block_size_mb` is missing from one of them.
pub record KvStats (W : Type 0) : Type 0 where
  pub blocks_total : ℤ
  pub blocks_free : ℤ
  pub blocks_used : ℤ
  pub usage_ratio : W
  pub allocated_gb : W
  pub used_gb : W
  pub block_size_mb : Option ℕ

-- `name="(\d+)"`
abbrev pub quoted_number : String → List Piece
quoted_number name =
    literal name
    ++ literal "="
    ++ one false (λ c. c == 34) ∷ repeated is_digit
    ++ one false (λ c. c == 34) ∷ []

-- `name (\d+)`
abbrev pub spaced_number : String → List Piece
spaced_number name = literal name ++ literal " " ++ repeated is_digit

-- `(\d+\.?\d*)`
abbrev pub decimal_digits : List Piece
decimal_digits = repeated is_digit ++ opt true (λ c. c == b'.') ∷ many true is_digit ∷ []

-- `vllm:kv_cache_usage_perc\{[^}]*\} (\d+\.?\d*)`
abbrev pub usage_pattern : List Piece
usage_pattern =
    literal "vllm:kv_cache_usage_perc{"
    ++ many false (λ c. not (c == b'}')) ∷ literal "} "
    ++ decimal_digits

-- `vllm_kv_cache_usage_ratio (\d+\.?\d+)`
abbrev pub legacy_usage_pattern : List Piece
legacy_usage_pattern =
    literal "vllm_kv_cache_usage_ratio "
    ++ repeated is_digit
    ++ opt true (λ c. c == b'.') ∷ repeated is_digit

-- `int(match.group(1))` if there is a match, else the value set before
abbrev pub number_or : ℕ → Option (List ℕ) → ℕ
number_or d none = d
number_or d (some digits) = number digits

-- Method 1, and method 2 where that gives 0
unfoldable pub total_blocks : List ℕ → ℕ
total_blocks text =
    let info = number_or 0 (search_first (quoted_number "num_gpu_blocks") text) in
    if info == 0
    then number_or 0 (
        search_any
          (spaced_number "kv_cache_manager_blocks_total"
            ∷ spaced_number "vllm_kv_cache_blocks"
            ∷ [])
          text)
    else info

unfoldable pub free_blocks : List ℕ → ℕ → ℕ
free_blocks text total =
    if ltb 0 total
    then number_or 0 (
        search_any
          (spaced_number "kv_cache_manager_free_blocks"
            ∷ spaced_number "vllm_kv_cache_free_blocks"
            ∷ [])
          text)
    else 0

module _ {W : Type 0} ⦃f : Float W⦄ where
  -- `float(match.group(1))` if there is a match, else the value set before
  abbrev pub float_or : W → Option (List ℕ) → Option W
  float_or d none = some d
  float_or d (some digits) = f.parse digits

  unfoldable pub usage : List ℕ → Option W
  usage text = do
    ratio ← float_or f.nought (search_first usage_pattern text)
    if f.eq ratio f.nought
        then float_or ratio (search_first legacy_usage_pattern text)
        else some ratio

  -- Bytes to GB, from the first of two legacy metrics.
  unfoldable pub gigabytes : List (List Piece) → List ℕ → W
  gigabytes patterns text = elim (search_any patterns text) [
    | some digits ↦ f.of_int (pos (number digits)) ⊘ f.of_int (pos (1024 ^ 3))
    | none ↦ f.nought
  ]

  unfoldable pub allocated : List ℕ → ℕ → ℕ → W
  allocated text total block_size =
      let legacy =
        gigabytes
          (spaced_number "kv_cache_manager_gpu_memory_total_bytes"
            ∷ spaced_number "vllm_kv_cache_gpu_memory_total_bytes"
            ∷ [])
          text in
      if f.eq legacy f.nought && ltb 0 total
      then f.of_int (pos total *ℤ pos block_size) ⊘ f.of_int (pos 1024)
      else legacy

  unfoldable pub filled : List ℕ → W → W → W
  filled text ratio reserved =
      let legacy =
        gigabytes
          (spaced_number "kv_cache_manager_gpu_memory_usage_bytes"
            ∷ spaced_number "vllm_kv_cache_gpu_memory_bytes"
            ∷ [])
          text in
      if f.eq legacy f.nought && f.lt f.nought ratio && f.lt f.nought reserved
      then reserved ⊗ ratio
      else legacy

  -- The used and the free blocks: by the ratio if no free blocks are reported.
  unfoldable pub divide_blocks : ℕ → ℕ → W → ℤ × ℤ
  divide_blocks total free ratio =
      if ltb 0 total && free == 0 && f.lt f.nought ratio
      then (let used = f.trunc (f.of_int (pos total) ⊗ ratio) in (used, pos total -ℤ used))
      else (pos total -ℤ pos free, pos free)

  -- The `try` block on a page; `none` is a `ValueError` of `float`.
  unfoldable pub page_stats : List ℕ → Option (KvStats W)
  page_stats text = do
    let total = total_blocks text
    let block_size = number_or 16 (search_first (quoted_number "block_size") text)
    ratio ← usage text
    let blocks = divide_blocks total (free_blocks text total) ratio
    let reserved = allocated text total block_size
    some (record {
      blocks_total = pos total;
      blocks_free = blocks.1;
      blocks_used = blocks.0;
      usage_ratio = ratio;
      allocated_gb = reserved;
      used_gb = filled text ratio reserved;
      block_size_mb = some block_size;
    })

  abbrev pub no_stats : Option ℕ → KvStats W
  no_stats block_size = record {
    blocks_total = pos 0;
    blocks_free = pos 0;
    blocks_used = pos 0;
    usage_ratio = f.nought;
    allocated_gb = f.nought;
    used_gb = f.nought;
    block_size_mb = block_size;
  }

  unfoldable pub kv_stats : HttpReply → KvStats W
  kv_stats unreachable = no_stats (some 16)
  kv_stats (reply status text) =
      if status == 200 then or_default (no_stats (some 16)) (page_stats text) else no_stats none
