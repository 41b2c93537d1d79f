-- ===== src/Vram/Stats/Peak.antt =====
-- `get_stats` never raises on what a started loop has recorded, and its peak is the maximum.
use cachegen_plus.Base.{
  ℕ, zero, suc, ◌≡◌, refl, List, [], ◌∷◌, map, some, arith, length, get_elem?, All, Bool-cases, inl,
  inr,
}
use cachegen_plus.Float.{Float, IsOrdered, ◌⊑◌, max_of, max_list, max_list-bounds}
use cachegen_plus.Vram.Measure.{VramSnapshot}
use cachegen_plus.Vram.Loop.{Sample, FullVramMonitorLoop}
use cachegen_plus.Vram.Stats.{Stats, index_of, summary, stats_of, get_stats}

-- The value stands at a position of the list.
abbrev At {ℓ} : {A : Type ℓ} → List A → A → Type ℓ
At xs a = (i : ℕ) × (get_elem? xs i ≡ some a)

get_elem?-map {ℓ κ} :
    {A : Type ℓ} {B : Type κ} (g : A → B) (xs : List A) (i : ℕ) {b : B}
    → get_elem? (map g xs) i ≡ some b
    → (a : A) × (get_elem? xs i ≡ some a) × (g a ≡ b)
get_elem?-map g [] i e = cc
get_elem?-map g (x ∷ xs) zero e = (x, refl, cc)
get_elem?-map g (x ∷ xs) (suc i) e = get_elem?-map g xs i e

module _ {W : Type 0} ⦃f : Float W⦄ (laws : IsOrdered W) where
  open laws use {eq_iff}

  max_of-At :
      (a x : W) (xs : List W)
      → At (max_of a x ∷ xs) (max_list a (x ∷ xs))
      → At (a ∷ x ∷ xs) (max_list a (x ∷ xs))
  max_of-At a x xs (suc i, e) = (suc (suc i), e)
  max_of-At a x xs (zero, e) = elim (Bool-cases (f.lt a x)) [
    | inl up ↦ (1, ground arith)
    | inr down ↦ (0, ground arith)
  ]

  max_list-At : (a : W) (xs : List W) → At (a ∷ xs) (max_list a xs)
  unfolding max_list
  max_list-At a [] = (0, refl)
  max_list-At a (x ∷ xs) = max_of-At a x xs (max_list-At (max_of a x) xs)

  -- A value that occurs has an index, and stands there.
  index_of-At :
      (v : W) (xs : List W)
      → At xs v
      → (i : ℕ) × (index_of v xs ≡ some i) × (get_elem? xs i ≡ some v)
  unfolding index_of
  index_of-At v [] (_, e) = cc
  index_of-At v (x ∷ xs) (zero, e) = (0, ground (arith, (eq_iff x v).1), e)
  index_of-At v (x ∷ xs) (suc at, e) =
      let (i, found, stands) = index_of-At v xs (at, e) in
      elim (Bool-cases (f.eq x v)) [
        | inl here ↦ (0, rw here, ground (arith, (eq_iff x v).0))
        | inr later ↦ (suc i, rw (later, found), stands)
      ]

  -- What the dict says of the samples.
  abbrev pub Summarises : List (Sample W) → Stats W → Type 0
  Summarises samples s =
      All (λ x. x.used_vram_gb ⊑ s.peak.used_vram_gb) samples
      × ((i : ℕ) × (top : Sample W) × (get_elem? samples i ≡ some top)
          × (top.used_vram_gb ≡ s.peak.used_vram_gb)
          × (top.elapsed_sec ≡ s.peak.peak_time_sec))
      × (s.sample_count ≡ length samples)

  All-map :
      {A : Type 0} (g : A → W) (top : W) (xs : List A)
      → All (λ x. x ⊑ top) (map g xs)
      → All (λ a. g a ⊑ top) xs
  All-map g top [] h = tt
  All-map g top (x ∷ xs) (b, bs) = (b, All-map g top xs bs)

  stats_of-Summarises :
      (base : VramSnapshot W) (first : Sample W) (rest : List (Sample W))
      → (s : Stats W) × (stats_of base first rest ≡ some s) × Summarises (first ∷ rest) s
  unfolding stats_of
  stats_of-Summarises base first rest =
      let used = λ (s : Sample W). s.used_vram_gb in
      let (i, found, stands) =
        index_of-At (max_list (used first) (map used rest)) (map used (first ∷ rest))
          (max_list-At (used first) (map used rest)) in
      let (top, there, is_max) = get_elem?-map used (first ∷ rest) i stands in
      let (below, belows) = max_list-bounds laws (used first) (map used rest) in
      (
        summary base first rest (max_list (used first) (map used rest)) top,
        rw (found, there),
        ((below, All-map used _ rest belows), (i, top, there, is_max, refl), refl),
      )

  -- With ordered floats, once a loop was started and has a sample, `get_stats` returns a dict: its
  -- peak is at least the used memory of every sample and is that of one, the peak time is that
  -- sample's, and the count is the number of samples.
  pub get_stats-peak :
      (l : FullVramMonitorLoop W) (base : VramSnapshot W) (first : Sample W)
      (rest : List (Sample W))
      → l.baseline ≡ some base
      → l.samples ≡ first ∷ rest
      → (s : Stats W) × (get_stats l ≡ some (some s)) × Summarises l.samples s
  unfolding get_stats
  get_stats-peak l base first rest started recorded =
      let (s, e, h) = stats_of-Summarises base first rest in
      (s, rw (recorded, started, e), rw recorded h)
