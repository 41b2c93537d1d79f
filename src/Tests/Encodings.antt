-- ===== src/Tests/Encodings.antt =====
-- The timeline of the encoder.
use cachegen_plus.Base.{ℕ, ◌+◌, ◌*◌, ◌≤◌, ◌<◌, ◌≡◌, refl, List, [], ◌∷◌, map, some, arith, All}
use cachegen_plus.Base.Int.{ℤ, pos, ◌-ℤ◌, ◌*ℤ◌, ◌/ℤ◌}
use cachegen_plus.Float.{max_list}
use cachegen_plus.Float.Fixed.{fixed}
use cachegen_plus.Vram.Legacy.{min_list}
use cachegen_plus.Encoding.{
  MemoryReading, EncodingStep, Encoding, num_tokens, encode_rounds, encode_timeline, bar_lengths,
}
use cachegen_plus.Encoding.Chunks.{count_from, tokens_of}
use cachegen_plus.Encoding.Steps.{step_names, calls_with, encode_timeline-runs}

read : ℕ → MemoryReading ℤ
read k = record { now = pos k; allocated = 1073741824 * k; max_allocated = 1073741824 * k }

encode_timeline-runs_example :
    (e : Encoding ℤ) × (rounds : List (ℕ × ℕ)) × (encode_timeline 256 (pos 0) (pos 0) read ≡ some e)
    × (map (λ s. s.name) e.timeline ≡ step_names)
    × (e.calls ≡ calls_with rounds)
    × (tokens_of rounds ≡ count_from 0 num_tokens)
    × All (λ r. (r.0 < r.1) × (r.1 ≤ r.0 + 256)) rounds
encode_timeline-runs_example = encode_timeline-runs ℤ (pos 0) (pos 0) 256 read (omega arith)

last_round_is_short : encode_rounds 600 256 4 0 ≡ some ((0, 256) ∷ (256, 512) ∷ (512, 600) ∷ [])
unfolding encode_rounds
last_round_is_short = refl

step_of : ℕ → EncodingStep ℤ
step_of gb = record {
  time = pos 0;
  name = [];
  mem_gb = pos gb;
  peak_gb = pos gb;
  mem_delta = pos 0;
  peak_delta = pos 0;
}

bars :
    bar_lengths (step_of 1000000 ∷ step_of 3000000 ∷ step_of 2000000 ∷ [])
    ≡ pos 0 ∷ pos 50 ∷ pos 25 ∷ []
unfolding bar_lengths step_of min_list max_list ◌-ℤ◌ ◌*ℤ◌ ◌/ℤ◌
bars = refl
