-- ===== src/Encoding/Steps.antt =====
-- The timeline and the calls of tkdgjs/experiment/test_vram_timeline.py.
use mathlib.Core.Path.{subst}
use mathlib.Core.List.{append-nil, append_assoc}
use cachegen_plus.Base.{
  ℕ, ◌+◌, ◌≤◌, ◌<◌, ◌≡◌, refl, sym, ap, ◌∙◌, false, List, [], ◌∷◌, ◌++◌, map, some, arith, ◌==◌,
  All, All-map, ◌>>=◌,
}
use cachegen_plus.Float.{Float}
use cachegen_plus.Text.{codes}
use cachegen_plus.Encoding.{
  EncoderCall, split_kv, quant_key, quant_value, cat_input, calculate_cdf, output_buffer,
  encode_ntokens, synchronize, MemoryReading, Encoding, num_tokens, smaller_of, record_step, call,
  encode_loop, encode_steps, encode_timeline,
}
use cachegen_plus.Encoding.Chunks.{count_from, tokens_of, encode_rounds-first}

abbrev pub step_names : List (List ℕ)
step_names =
    codes "START"
    ∷ codes "01_split_kv"
    ∷ codes "02_quant_key"
    ∷ codes "03_quant_value"
    ∷ codes "04_cat_encode_input"
    ∷ codes "05_calculate_cdf"
    ∷ codes "06_output_buffer"
    ∷ codes "07_encode_ntokens"
    ∷ codes "END"
    ∷ []

abbrev pub encoded : List (ℕ × ℕ) → List EncoderCall
encoded rounds = map (λ r. encode_ntokens r.0 r.1) rounds

-- The calls of the script, with these rounds.
abbrev pub calls_with : List (ℕ × ℕ) → List EncoderCall
calls_with rounds =
    split_kv
    ∷ quant_key
    ∷ quant_value
    ∷ cat_input
    ∷ calculate_cdf
    ∷ output_buffer
    ∷ (encoded rounds ++ synchronize ∷ [])

module _ (W : Type 0) ⦃f : Float W⦄ (start_time base_mem : W) where
  encode_loop-later :
      (reading : MemoryReading W) (rounds : List (ℕ × ℕ)) (e : Encoding W)
      → All (λ r. 0 < r.0) rounds
      → encode_loop start_time base_mem reading rounds e
        ≡ record e { calls = e.calls ++ encoded rounds }
  unfolding encode_loop
  encode_loop-later reading [] e _ = ap (λ cs. record e { calls = cs }) (sym (append-nil e.calls))
  encode_loop-later reading ((i, end) ∷ rounds) e (above, all) =
      let off : (i == 0) ≡ false = ground arith in
      let c = encode_ntokens i end in
      rw off (
        encode_loop-later reading rounds (call c e) all
        ∙ ap (λ cs. record e { calls = cs }) (append_assoc e.calls (c ∷ []) (encoded rounds)))

  encode_loop-first :
      (reading : MemoryReading W) (end : ℕ) (rounds : List (ℕ × ℕ)) (e : Encoding W)
      → All (λ r. 0 < r.0) rounds
      → let one =
          record_step start_time base_mem "07_encode_ntokens" reading
            (call (encode_ntokens 0 end) e) in
        encode_loop start_time base_mem reading ((0, end) ∷ rounds) e
        ≡ record one { calls = one.calls ++ encoded rounds }
  unfolding encode_loop
  encode_loop-first reading end rounds e all = encode_loop-later reading rounds _ all

  -- What the script has made by its end.
  abbrev Made : List (ℕ × ℕ) → Encoding W → Type 0
  Made rounds e = (map (λ s. s.name) e.timeline ≡ step_names) × (e.calls ≡ calls_with rounds)

  encode_steps-Made :
      (read : ℕ → MemoryReading W) (end : ℕ) (rounds : List (ℕ × ℕ))
      → All (λ r. 0 < r.0) rounds
      → Made ((0, end) ∷ rounds) (encode_steps start_time base_mem read ((0, end) ∷ rounds))
  unfolding encode_steps record_step
  encode_steps-Made read end rounds all =
      let last : Encoding W → Encoding W =
        λ e. record_step start_time base_mem "END" (read 8) (call synchronize e) in
      subst (λ e. Made ((0, end) ∷ rounds) (last e))
        (sym (encode_loop-first (read 7) end rounds _ all)) (refl, refl)

  -- The script with a chunk of at least one token: its timeline has the nine steps once each in
  -- their order, also that of the loop, and its calls of the encoder take all 4,096 tokens in order,
  -- in rounds of at least one token and of a chunk at most.
  pub encode_timeline-runs :
      (chunk : ℕ) (read : ℕ → MemoryReading W)
      → 0 < chunk
      → (e : Encoding W) × (rounds : List (ℕ × ℕ)) × (encode_timeline chunk start_time base_mem read
          ≡ some e)
        × (map (λ s. s.name) e.timeline ≡ step_names)
        × (e.calls ≡ calls_with rounds)
        × (tokens_of rounds ≡ count_from 0 num_tokens)
        × All (λ r. (r.0 < r.1) × (r.1 ≤ r.0 + chunk)) rounds
  unfolding encode_timeline
  encode_timeline-runs chunk read some_size =
      let (rest, eq, later, (all, sizes)) =
        encode_rounds-first num_tokens chunk some_size 4095 refl in
      let first : ℕ × ℕ = (0, smaller_of (0 + chunk) num_tokens) in
      let e : Encoding W = encode_steps start_time base_mem read (first ∷ rest) in
      let made = encode_steps-Made read (smaller_of (0 + chunk) num_tokens) rest later in
      (
        e,
        first ∷ rest,
        ap (λ o. o >>= λ rounds. some (encode_steps start_time base_mem read rounds)) eq,
        made.0,
        made.1,
        all,
        All-map _ _ (first ∷ rest) (λ r (_, above, short, _). (above, short)) sizes,
      )
