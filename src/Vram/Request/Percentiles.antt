-- ===== src/Vram/Request/Percentiles.antt =====
-- The percentiles of a request are always found, and in order.
use cachegen_plus.Base.{
  ℕ, zero, suc, ◌-◌, ◌*◌, ◌/◌, ◌≤◌, ◌<◌, ◌≡◌, refl, ◌⊎◌, inl, inr, Bool, true, false, List, [], ◌∷◌,
  Option, none, some, arith, ◌==◌, length, get_elem?, get_elem?-lt_length, All, Bool-cases, lt→ltb,
  dec_lt,
}
use mathlib.Core.Path.{subst}
use mathlib.Core.Option.{some-injective}
use cachegen_plus.Float.{Float, IsOrdered, IsRounding, ◌⊑◌}
use cachegen_plus.Vram.Request.{
  answered, RequestResult, request_failed, request_done, token_times, gaps, insert_sorted,
  sort_values, percentile, percentiles, token_gaps, send_request_and_measure,
}

module _ {W : Type 0} ⦃f : Float W⦄ where
  length-insert_sorted : (x : W) (ys : List W) → length (insert_sorted x ys) ≡ suc (length ys)
  unfolding insert_sorted
  length-insert_sorted x [] = refl
  length-insert_sorted x (y ∷ ys) = ground (arith, length-insert_sorted x ys)

  length-sort_values : (xs : List W) → length (sort_values xs) ≡ length xs
  unfolding sort_values
  length-sort_values [] = refl
  length-sort_values (x ∷ xs) =
      omega (arith, length-insert_sorted x (sort_values xs), length-sort_values xs)

  length-gaps : (ts : List W) → length (gaps ts) ≡ length ts - 1
  unfolding gaps
  length-gaps [] = omega arith
  length-gaps (t ∷ []) = omega arith
  length-gaps (t ∷ u ∷ ts) = omega (arith, length-gaps (u ∷ ts))

  length-token_times : (lines : List (Bool × W)) → length (token_times lines) ≤ length lines
  unfolding token_times
  length-token_times [] = omega arith
  length-token_times ((true, t) ∷ lines) = omega (arith, length-token_times lines)
  length-token_times ((false, t) ∷ lines) = omega (arith, length-token_times lines)

  abbrev Sorted : List W → Type 0
  Sorted [] = Unit
  Sorted (x ∷ xs) = All (λ y. x ⊑ y) xs × Sorted xs

  module _ (laws : IsOrdered W) where
    open laws use {le_refl, le_trans, lt-eq-not-le, le_of_not_le}

    All-trans : (x y : W) (ys : List W) → x ⊑ y → All (λ z. y ⊑ z) ys → All (λ z. x ⊑ z) ys
    All-trans x y [] h a = tt
    All-trans x y (z ∷ ys) h (b, bs) = (le_trans x y z h b, All-trans x y ys h bs)

    insert_sorted-All :
        (a x : W) (ys : List W)
        → a ⊑ x
        → All (λ z. a ⊑ z) ys
        → All (λ z. a ⊑ z) (insert_sorted x ys)
    unfolding insert_sorted
    insert_sorted-All a x [] h all = (h, tt)
    insert_sorted-All a x (y ∷ ys) h (b, bs) = elim (Bool-cases (f.lt x y)) [
      | inl before ↦ rw before (h, (b, bs))
      | inr after ↦ rw after (b, insert_sorted-All a x ys h bs)
    ]

    insert_sorted-Sorted : (x : W) (ys : List W) → Sorted ys → Sorted (insert_sorted x ys)
    unfolding insert_sorted
    insert_sorted-Sorted x [] s = (tt, tt)
    insert_sorted-Sorted x (y ∷ ys) (least, s) = elim (Bool-cases (f.lt x y)) [
      | inl before ↦
          let le : x ⊑ y = ground (arith, lt-eq-not-le x y, le_of_not_le x y) in
          rw before ((le, All-trans x y ys le least), (least, s))
      | inr after ↦
          let le : y ⊑ x = ground (arith, lt-eq-not-le x y) in
          rw after (insert_sorted-All y x ys le least, insert_sorted-Sorted x ys s)
    ]

    sort_values-Sorted : (xs : List W) → Sorted (sort_values xs)
    unfolding sort_values
    sort_values-Sorted [] = tt
    sort_values-Sorted (x ∷ xs) = insert_sorted-Sorted x (sort_values xs) (sort_values-Sorted xs)

    All-get_elem? :
        (P : W → Type 0) (xs : List W) (i : ℕ) {a : W} → All P xs → get_elem? xs i ≡ some a → P a
    All-get_elem? P [] i all e = cc
    All-get_elem? P (x ∷ xs) zero (p, ps) e = subst P (some-injective _ _ e) p
    All-get_elem? P (x ∷ xs) (suc i) (p, ps) e = All-get_elem? P xs i ps e

    get_elem?-Sorted :
        (xs : List W) (i j : ℕ) {a b : W}
        → Sorted xs
        → i ≤ j
        → get_elem? xs i ≡ some a
        → get_elem? xs j ≡ some b
        → a ⊑ b
    get_elem?-Sorted [] i j s h d e = cc
    get_elem?-Sorted (x ∷ xs) zero zero {b = b} s h d e =
        let same = some-injective _ _ d in
        subst (λ z. z ⊑ b) same (subst (λ z. x ⊑ z) (some-injective _ _ e) (le_refl x))
    get_elem?-Sorted (x ∷ xs) zero (suc j) {b = b} s h d e =
        subst (λ z. z ⊑ b) (some-injective _ _ d) (All-get_elem? (λ z. x ⊑ z) xs j s.0 e)
    get_elem?-Sorted (x ∷ xs) (suc i) zero s h d e = absurd (omega arith)
    get_elem?-Sorted (x ∷ xs) (suc i) (suc j) s h d e =
        get_elem?-Sorted xs i j s.1 (omega arith) d e

    module _ (rounding : IsRounding W) where
      open rounding use {trunc_share, round_mono}

      -- Where the values are few enough, an index is found for each percentile.
      percentile-at :
          (p : ℕ) (xs : List W)
          → 0 < length xs
          → length xs < 1000000
          → (p ≡ 95) ⊎ (p ≡ 99)
          → percentile p xs ≡ get_elem? xs (length xs * p / 100)
      unfolding percentile
      percentile-at p xs some_values few known =
          rw (lt→ltb _ _ some_values, trunc_share (length xs) p few known)

      percentiles_ordered :
          (xs : List W)
          → 0 < length xs
          → length xs < 1000000
          → Sorted xs
          → (p95 : W) × (p99 : W) × (percentiles xs ≡ some (p95, p99)) × (p95 ⊑ p99)
      unfolding percentiles
      percentiles_ordered xs some_values few sorted =
          let (a, at) = get_elem?-lt_length xs (length xs * 95 / 100) (omega arith) in
          let (b, bt) = get_elem?-lt_length xs (length xs * 99 / 100) (omega arith) in
          (
            a,
            b,
            rw (
              percentile-at 95 xs some_values few (inl refl),
              percentile-at 99 xs some_values few (inr refl),
              at,
              bt,
            ),
            get_elem?-Sorted xs (length xs * 95 / 100) (length xs * 99 / 100) sorted (omega arith)
                at bt,
          )

      token_gaps_ordered :
          (times : List W)
          → length times < 1000000
          → (p95 : W) × (p99 : W) × (token_gaps times ≡ some (p95, p99)) × (p95 ⊑ p99)
      unfolding token_gaps
      token_gaps_ordered times few = elim (dec_lt 1 (length times)) [
        | yes two ↦
            let sorted = sort_values (gaps times) in
            let size = length-sort_values (gaps times) in
            let (p95, p99, e, le) =
              percentiles_ordered sorted (omega (arith, size, length-gaps times))
                (omega (arith, size, length-gaps times)) (sort_values-Sorted (gaps times)) in
            (p95, p99, rw (lt→ltb _ _ two) e, le)
        | no one ↦ (f.nought, f.nought, ground arith, le_refl f.nought)
      ]

      -- What a request returns: the text of an error, or the times and counts of its tokens.
      abbrev pub Returns : List (Bool × W) → Option (RequestResult W) → Type 0
      Returns lines none = ⊥
      Returns lines (some (request_failed message)) = Unit
      Returns lines (some (request_done l)) =
          (l.output_tokens ≤ length lines) × (l.tbt_p95_sec ⊑ l.tbt_p99_sec)

      -- With ordered floats whose rounding keeps the order and whose products with the two
      -- percentages truncate to the exact shares: a reply of less than a million lines never makes
      -- the request raise, whatever its status; if it is measured, no more tokens are counted than
      -- lines came, and the 95th percentile of the times between tokens is at most the 99th.
      pub send_request_and_measure-Returns :
          (prompt_tokens : ℕ) (start : W) (status : ℕ) (text : List ℕ) (lines : List (Bool × W))
          (end_time : W)
          → length lines < 1000000
          → Returns lines
              (send_request_and_measure prompt_tokens start (answered status text lines end_time))
      unfolding send_request_and_measure
      send_request_and_measure-Returns prompt_tokens start status text lines end_time few =
          let count = length-token_times lines in
          let (p95, p99, e, le) = token_gaps_ordered (token_times lines) (omega arith) in
          elim (Bool-cases (status == 200)) [
            | inl good ↦ rw (good, e) (count, round_mono p95 p99 4 le)
            | inr bad ↦ rw bad tt
          ]
