-- ===== src/Encoding/Chunks.antt =====
-- The chunks that tkdgjs/experiment/test_vram_timeline.py encodes.
use cachegen_plus.Base.{
  ℕ, zero, suc, ◌+◌, ◌-◌, ◌≤◌, ◌<◌, ◌≡◌, refl, ap, ◌∙◌, ◌⊎◌, true, false, List, [], ◌∷◌, ◌++◌, some,
  Bool-cases, inl, inr, ltb, ltb→lt, arith, All, All-map,
}
use cachegen_plus.Encoding.{smaller_of, encode_rounds}

-- So many numbers from the first one on.
abbrev pub count_from : ℕ → ℕ → List ℕ
count_from i zero = []
count_from i (suc n) = i ∷ count_from (suc i) n

-- The tokens of the rounds, in order.
abbrev pub tokens_of : List (ℕ × ℕ) → List ℕ
tokens_of [] = []
tokens_of ((i, end) ∷ rounds) = count_from i (end - i) ++ tokens_of rounds

count_from-add :
    (i j n k m : ℕ) → j ≡ i + n → m ≡ n + k → count_from i n ++ count_from j k ≡ count_from i m
count_from-add i j zero k m e e' =
    let here : j ≡ i = omega arith in let all : m ≡ k = omega arith in rw (here, all) refl
count_from-add i j (suc n) k zero e e' = let no : ⊥ = omega (arith, e') in absurd no
count_from-add i j (suc n) k (suc m) e e' =
    ap (λ xs. i ∷ xs) (count_from-add (suc i) j n k m (omega arith) (omega arith))

module _ (tokens chunk : ℕ) (some_size : 0 < chunk) where
  -- The rounds take all tokens from the `i`-th on in order, each at least one and a chunk at most.
  abbrev pub Covers : ℕ → List (ℕ × ℕ) → Type 0
  Covers i rounds =
      (tokens_of rounds ≡ count_from i (tokens - i))
      × All (λ r. (i ≤ r.0) × (r.0 < r.1) × (r.1 ≤ r.0 + chunk) × (r.1 ≤ tokens)) rounds

  smaller_of-min :
      (a b : ℕ)
      → (smaller_of a b ≤ a) × (smaller_of a b ≤ b) × ((smaller_of a b ≡ a) ⊎ (smaller_of a b ≡ b))
  smaller_of-min a b = elim (Bool-cases (ltb b a)) [
    | inl above ↦ rw above (omega (arith, ltb→lt _ _ above), omega arith, inr refl)
    | inr below ↦ rw below (omega arith, ground arith, inl refl)
  ]

  abbrev pub Ends : ℕ → ℕ → Type 0
  Ends fuel i =
      (rounds : List (ℕ × ℕ)) × (encode_rounds tokens chunk fuel i ≡ some rounds) × Covers i rounds

  rounds_over : (fuel i : ℕ) → tokens ≤ i → Ends (suc fuel) i
  unfolding encode_rounds
  rounds_over fuel i h =
      let over : ltb i tokens ≡ false = ground arith in
      let none_left : tokens - i ≡ 0 = omega arith in ([], rw over refl, (rw none_left refl, tt))

  tokens_of-next :
      (i end : ℕ) (rounds : List (ℕ × ℕ))
      → i < tokens
      → (end ≡ i + chunk) × (end ≤ tokens) ⊎ (end ≡ tokens) × (end ≤ i + chunk)
      → tokens_of rounds ≡ count_from (i + chunk) (tokens - (i + chunk))
      → count_from i (end - i) ++ tokens_of rounds ≡ count_from i (tokens - i)
  tokens_of-next i end rounds left (inl (whole, fits)) rest =
      ap (λ xs. count_from i (end - i) ++ xs) rest
      ∙ count_from-add i (i + chunk) (end - i) (tokens - (i + chunk)) (tokens - i)
          (omega (arith, whole)) (omega (arith, whole, fits))
  tokens_of-next i end rounds left (inr (last, fits)) rest =
      let none_left : tokens - (i + chunk) ≡ 0 = omega (arith, last, fits) in
      ap (λ xs. count_from i (end - i) ++ xs) (rest ∙ ap (λ n. count_from (i + chunk) n) none_left)
      ∙ count_from-add i end (end - i) 0 (tokens - i) (omega (arith, last)) (omega (arith, last))

  next_round :
      (fuel i : ℕ) (rounds : List (ℕ × ℕ))
      → ltb i tokens ≡ true
      → encode_rounds tokens chunk fuel (i + chunk) ≡ some rounds
      → Covers (i + chunk) rounds
      → let all = (i, smaller_of (i + chunk) tokens) ∷ rounds in
        (encode_rounds tokens chunk (suc fuel) i ≡ some all) × Covers i all
  unfolding encode_rounds
  next_round fuel i rounds left eq (rest, sizes) =
      let end = smaller_of (i + chunk) tokens in
      let (low, high, which) = smaller_of-min (i + chunk) tokens in
      let before : i < tokens = ltb→lt _ _ left in
      (
        rw (left, eq) refl,
        (
          tokens_of-next i end rounds before
              (elim which [ inl whole ↦ inl (whole, high) | inr last ↦ inr (last, low) ]) rest,
          (
            (
              omega arith,
              elim which [
                | inl whole ↦ omega (arith, whole)
                | inr last ↦ omega (arith, last, before)
              ],
              low,
              high,
            ),
            All-map _ _ rounds
                (λ r (from, above, short, fits). (omega (arith, from), above, short, fits)) sizes,
          ),
        ),
      )

  pub encode_rounds-Covers : (fuel i : ℕ) → tokens ≤ i + fuel → Ends (suc fuel) i
  encode_rounds-Covers zero i enough = rounds_over zero i (omega arith)
  encode_rounds-Covers (suc fuel) i enough = elim (Bool-cases (ltb i tokens)) [
    | inr over ↦ rounds_over (suc fuel) i (ground arith)
    | inl left ↦
        let (rounds, eq, rest) = encode_rounds-Covers fuel (i + chunk) (omega arith) in
        let (eq', all) = next_round (suc fuel) i rounds left eq rest in (_, eq', all)
  ]

  -- The first round and the later ones.
  pub encode_rounds-first :
      (n : ℕ)
      → tokens ≡ suc n
      → let first : ℕ × ℕ = (0, smaller_of (0 + chunk) tokens) in
        (rounds : List (ℕ × ℕ)) × (encode_rounds tokens chunk (suc (suc n)) 0
          ≡ some (first ∷ rounds))
        × All (λ r. 0 < r.0) rounds
        × Covers 0 (first ∷ rounds)
  encode_rounds-first n e =
      let (rounds, eq, rest) = encode_rounds-Covers n (0 + chunk) (omega (arith, e)) in
      let here : ltb 0 tokens ≡ true = rw e (ground arith) in
      let (eq', all) = next_round (suc n) 0 rounds here eq rest in
      (rounds, eq', All-map _ _ rounds (λ r (from, _, _, _). omega (arith, from)) rest.1, all)
