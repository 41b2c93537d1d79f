-- ===== src/Watch/Stats.antt =====
-- The statistics of the stand-alone monitor.
use cachegen_plus.Base.{
  ◌≡◌, refl, ◌⊎◌, inl, inr, List, [], ◌∷◌, map, none, some, All, Bool-cases, arith, length,
}
use cachegen_plus.Base.Int.{ℤ, ◌≤ℤ◌, ltb_ℤ}
use cachegen_plus.Float.{Float}
use cachegen_plus.Watch.{
  Watch, WatchStats, bigger, smaller, max_int, min_int, watch_stats_of, watch_stats,
}

≤ℤ_trans : (a b c : ℤ) → a ≤ℤ b → b ≤ℤ c → a ≤ℤ c
≤ℤ_trans a b c h k = omega (arith, h, k)

bigger-bounds : (a b : ℤ) → (a ≤ℤ bigger a b) × (b ≤ℤ bigger a b)
bigger-bounds a b = elim (Bool-cases (ltb_ℤ a b)) [
  | inl above ↦ rw above (ground arith, ground arith)
  | inr below ↦ rw below (ground arith, ground arith)
]

bigger-least : (a b top : ℤ) → a ≤ℤ top → b ≤ℤ top → bigger a b ≤ℤ top
bigger-least a b top h k = elim (Bool-cases (ltb_ℤ a b)) [
  | inl above ↦ rw above k
  | inr below ↦ rw below h
]

smaller-bounds : (a b : ℤ) → (smaller a b ≤ℤ a) × (smaller a b ≤ℤ b)
smaller-bounds a b = elim (Bool-cases (ltb_ℤ b a)) [
  | inl below ↦ rw below (ground arith, ground arith)
  | inr above ↦ rw above (ground arith, ground arith)
]

smaller-greatest : (a b low : ℤ) → low ≤ℤ a → low ≤ℤ b → low ≤ℤ smaller a b
smaller-greatest a b low h k = elim (Bool-cases (ltb_ℤ b a)) [
  | inl below ↦ rw below k
  | inr above ↦ rw above h
]

max_int-bounds : (a : ℤ) (xs : List ℤ) → (a ≤ℤ max_int a xs) × All (λ x. x ≤ℤ max_int a xs) xs
unfolding max_int
max_int-bounds a [] = (omega arith, tt)
max_int-bounds a (x ∷ xs) =
    let (up, rest) = max_int-bounds (bigger a x) xs in
    let (old, new) = bigger-bounds a x in
    let top = max_int (bigger a x) xs in
    (≤ℤ_trans a (bigger a x) top old up, (≤ℤ_trans x (bigger a x) top new up, rest))

max_int-least : (a top : ℤ) (xs : List ℤ) → a ≤ℤ top → All (λ x. x ≤ℤ top) xs → max_int a xs ≤ℤ top
unfolding max_int
max_int-least a top [] h all = h
max_int-least a top (x ∷ xs) h (k, all) =
    max_int-least (bigger a x) top xs (bigger-least a x top h k) all

min_int-bounds : (a : ℤ) (xs : List ℤ) → (min_int a xs ≤ℤ a) × All (λ x. min_int a xs ≤ℤ x) xs
unfolding min_int
min_int-bounds a [] = (omega arith, tt)
min_int-bounds a (x ∷ xs) =
    let (down, rest) = min_int-bounds (smaller a x) xs in
    let (old, new) = smaller-bounds a x in
    let low = min_int (smaller a x) xs in
    (≤ℤ_trans low (smaller a x) a down old, (≤ℤ_trans low (smaller a x) x down new, rest))

min_int-greatest :
    (a low : ℤ) (xs : List ℤ) → low ≤ℤ a → All (λ x. low ≤ℤ x) xs → low ≤ℤ min_int a xs
unfolding min_int
min_int-greatest a low [] h all = h
min_int-greatest a low (x ∷ xs) h (k, all) =
    min_int-greatest (smaller a x) low xs (smaller-greatest a x low h k) all

module _ (W : Type 0) ⦃f : Float W⦄ where
  -- The numbers are the least and the greatest of the values, and their count.
  abbrev pub Spans : List ℤ → WatchStats W → Type 0
  Spans vs s =
      All (λ v. (s.min_mb ≤ℤ v) × (v ≤ℤ s.max_mb)) vs
      × ((low : ℤ) → All (λ v. low ≤ℤ v) vs → low ≤ℤ s.min_mb)
      × ((top : ℤ) → All (λ v. v ≤ℤ top) vs → s.max_mb ≤ℤ top)
      × (s.sample_count ≡ length vs)

  All-both : (P Q : ℤ → Type 0) (vs : List ℤ) → All P vs → All Q vs → All (λ v. P v × Q v) vs
  All-both P Q [] _ _ = tt
  All-both P Q (v ∷ vs) (p, ps) (q, qs) = ((p, q), All-both P Q vs ps qs)

  watch_stats_of-Spans :
      (vs : List ℤ)
      → ((vs ≡ []) × (watch_stats_of {W = W} vs ≡ none))
        ⊎ ((s : WatchStats W) × (watch_stats_of {W = W} vs ≡ some s) × Spans vs s)
  watch_stats_of-Spans [] = inl (refl, refl)
  watch_stats_of-Spans (v ∷ vs) = inr (
    _,
    refl,
    (
      All-both (λ x. min_int v vs ≤ℤ x) (λ x. x ≤ℤ max_int v vs) (v ∷ vs) (min_int-bounds v vs)
          (max_int-bounds v vs),
      (λ low (h, all). min_int-greatest v low vs h all),
      (λ top (h, all). max_int-least v top vs h all),
      refl,
    ),
  )

  -- Without samples `get_stats` is the empty dict. Else its `min_mb` and `max_mb` are the greatest
  -- lower and the least upper bound of the memory in the samples, and `sample_count` is their number.
  pub watch_stats-Spans :
      (m : Watch W)
      → let vs = map (λ s. s.vram_mb) m.samples in
        ((vs ≡ []) × (watch_stats m ≡ none))
        ⊎ ((s : WatchStats W) × (watch_stats m ≡ some s) × Spans vs s)
  unfolding watch_stats
  watch_stats-Spans m = watch_stats_of-Spans (map (λ s. s.vram_mb) m.samples)
