-- ===== src/Encoding.antt =====
-- tkdgjs/experiment/test_vram_timeline.py: the encoder of LMCache step by step, with the GPU memory after
-- each step. The encoder itself is not of this repository: the script's calls of it are a list.
pub mod Chunks
pub mod Steps
use Prim.Native.String.{String}
use cachegen_plus.Base.{
  ℕ, zero, suc, ◌+◌, ◌^◌, Bool, List, [], ◌∷◌, ◌++◌, map, Option, none, some, ltb, ◌==◌,
  if◌then◌else◌, ◌>>=◌,
}
use cachegen_plus.Base.Int.{ℤ, pos}
use cachegen_plus.Float.{Float, ◌⊖◌, ◌⊘◌, ◌⊗◌, max_list}
use cachegen_plus.Text.{codes}
use cachegen_plus.Vram.Legacy.{min_list}

-- The calls that the script makes of the encoder and of torch.
pub data EncoderCall : Type 0 where
  split_kv : EncoderCall
  quant_key : EncoderCall
  quant_value : EncoderCall
  cat_input : EncoderCall
  calculate_cdf : EncoderCall
  output_buffer : EncoderCall
  -- the tokens from the first number up to the second
  encode_ntokens : ℕ → ℕ → EncoderCall
  synchronize : EncoderCall

-- What `time.time()`, `memory_allocated()` and `max_memory_allocated()` return.
pub record MemoryReading (W : Type 0) : Type 0 where
  pub now : W
  pub allocated : ℕ
  pub max_allocated : ℕ

pub record EncodingStep (W : Type 0) : Type 0 where
  pub time : W
  pub name : List ℕ
  pub mem_gb : W
  pub peak_gb : W
  pub mem_delta : W
  pub peak_delta : W

-- The calls so far and the timeline, the latest last.
pub record Encoding (W : Type 0) : Type 0 where
  pub calls : List EncoderCall
  pub timeline : List (EncodingStep W)

abbrev pub num_tokens : ℕ
num_tokens = 4096

abbrev pub smaller_of : ℕ → ℕ → ℕ
smaller_of a b = if ltb b a then b else a

-- The rounds of `for i in range(0, tokens, chunk)` from `i` on, with fuel: each as its `i` and `end`.
-- `none` means that the fuel ran out.
unfoldable pub encode_rounds : ℕ → ℕ → ℕ → ℕ → Option (List (ℕ × ℕ))
encode_rounds tokens chunk zero i = none
encode_rounds tokens chunk (suc fuel) i =
    let later = encode_rounds tokens chunk fuel (i + chunk) in
    if ltb i tokens
    then (later >>= λ rounds. some ((i, smaller_of (i + chunk) tokens) ∷ rounds))
    else some []

module _ {W : Type 0} ⦃f : Float W⦄ where
  abbrev pub in_gb : ℕ → W
  in_gb bytes = f.of_int (pos bytes) ⊘ f.of_int (pos (1024 ^ 3))

  -- `record_step`, with what is read in it
  unfoldable pub record_step : W → W → String → MemoryReading W → Encoding W → Encoding W
  record_step start_time base_mem name r e = record e {
    timeline =
        e.timeline
        ++ record {
          time = r.now ⊖ start_time;
          name = codes name;
          mem_gb = in_gb r.allocated;
          peak_gb = in_gb r.max_allocated;
          mem_delta = in_gb r.allocated ⊖ base_mem;
          peak_delta = in_gb r.max_allocated ⊖ base_mem;
        }
          ∷ [];
  }

  abbrev pub call : EncoderCall → Encoding W → Encoding W
  call c e = record e { calls = e.calls ++ c ∷ [] }

  -- The body of the loop, over the rounds; `reading` is that of its step.
  unfoldable pub encode_loop : W → W → MemoryReading W → List (ℕ × ℕ) → Encoding W → Encoding W
  encode_loop start_time base_mem reading [] e = e
  encode_loop start_time base_mem reading ((i, end) ∷ rounds) e =
      let encoded = call (encode_ntokens i end) e in
      encode_loop start_time base_mem reading rounds (
        if i == 0
        then record_step start_time base_mem "07_encode_ntokens" reading encoded
        else encoded)

  -- From the first step to the last one, with the readings of the steps in order.
  unfoldable pub encode_steps : W → W → (ℕ → MemoryReading W) → List (ℕ × ℕ) → Encoding W
  encode_steps start_time base_mem read rounds =
      let step = record_step start_time base_mem in
      let begun : Encoding W = step "START" (read 0) (record { calls = []; timeline = [] }) in
      let split = step "01_split_kv" (read 1) (call split_kv begun) in
      let keys = step "02_quant_key" (read 2) (call quant_key split) in
      let values = step "03_quant_value" (read 3) (call quant_value keys) in
      let cat = step "04_cat_encode_input" (read 4) (call cat_input values) in
      let cdf = step "05_calculate_cdf" (read 5) (call calculate_cdf cat) in
      let buffer = step "06_output_buffer" (read 6) (call output_buffer cdf) in
      let encoded = encode_loop start_time base_mem (read 7) rounds buffer in
      step "END" (read 8) (call synchronize encoded)

  -- The whole script; the chunk size is that of LMCache.
  unfoldable pub encode_timeline : ℕ → W → W → (ℕ → MemoryReading W) → Option (Encoding W)
  encode_timeline chunk start_time base_mem read =
      encode_rounds num_tokens chunk (suc num_tokens) 0 >>= λ rounds.
      some (encode_steps start_time base_mem read rounds)

  -- `bar_len` of each step, between the least and the greatest memory
  unfoldable pub bar_lengths : List (EncodingStep W) → List ℤ
  bar_lengths [] = []
  bar_lengths (s ∷ ss) =
      let rest = map (λ (t : EncodingStep W). t.mem_gb) ss in
      let min_mem = min_list s.mem_gb rest in
      let mem_range = max_list s.mem_gb rest ⊖ min_mem in
      map
        (λ (t : EncodingStep W).
          if f.lt f.nought mem_range
          then f.trunc ((t.mem_gb ⊖ min_mem) ⊘ mem_range ⊗ f.of_int (pos 50))
          else pos 0)
        (s ∷ ss)
