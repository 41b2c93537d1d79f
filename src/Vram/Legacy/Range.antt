-- ===== src/Vram/Legacy/Range.antt =====
-- What `VRAMMonitor` records and what its statistics say of it.
use cachegen_plus.Base.{
  ℕ, ◌+◌, ◌≡◌, refl, ap, ◌∙◌, true, List, [], ◌∷◌, map, Option, none, some, arith, if◌then◌else◌,
  length, length-append, length-map, All, Bool-cases, inl, inr,
}
use mathlib.Core.Path.{subst}
use mathlib.Core.Option.{some-injective}
use cachegen_plus.Float.{Float, IsOrdered, ◌⊑◌, min_of, max_list-bounds}
use cachegen_plus.Answer.{RunResult, HttpReply}
use cachegen_plus.Vram.Legacy.{
  VramMonitor, LegacyStats, vram_from_vllm, add_sample, monitor_round, monitor_rounds, min_list,
  legacy_stats, legacy_stats_of,
}

module _ {W : Type 0} ⦃f : Float W⦄ where
  abbrev pub is_found : Option W → ℕ
  is_found none = 0
  is_found (some _) = 1

  -- The rounds in which some source gave a value.
  abbrev pub found : List (HttpReply × RunResult × W) → ℕ
  found [] = 0
  found ((metrics, smi, now) ∷ rest) = is_found (vram_from_vllm metrics smi) + found rest

  length-add_sample :
      (now : W) (v : Option W) (m : VramMonitor W)
      → (length (add_sample now v m).samples ≡ length m.samples + is_found v)
        × ((add_sample now v m).running ≡ m.running)
  length-add_sample now none m = ground arith
  length-add_sample now (some vram) m = (length-append m.samples _, refl)

  monitor_round_on :
      (metrics : HttpReply) (smi : RunResult) (now : W) (m : VramMonitor W)
      → m.running ≡ true
      → monitor_round metrics smi now m ≡ add_sample now (vram_from_vllm metrics smi) m
  unfolding monitor_round
  monitor_round_on metrics smi now m on =
      ap (λ b. if b then add_sample now (vram_from_vllm metrics smi) m else m) on

  -- A running monitor records one sample for each round in which vLLM or nvidia-smi gave a value,
  -- and none for the others.
  pub monitor_rounds-length :
      (rounds : List (HttpReply × RunResult × W)) (m : VramMonitor W)
      → m.running ≡ true
      → length (monitor_rounds rounds m).samples ≡ length m.samples + found rounds
  unfolding monitor_rounds
  monitor_rounds-length [] m on = omega arith
  monitor_rounds-length ((metrics, smi, now) ∷ rest) m on =
      let m' = add_sample now (vram_from_vllm metrics smi) m in
      let (size, kept) = length-add_sample now (vram_from_vllm metrics smi) m in
      ap (λ n. length (monitor_rounds rest n).samples) (monitor_round_on metrics smi now m on)
      ∙ monitor_rounds-length rest m' (kept ∙ on)
      ∙ omega (arith, size)

  module _ (laws : IsOrdered W) where
    open laws use {le_refl, le_trans, lt-eq-not-le, le_of_not_le}

    min_of-le : (a b : W) → (min_of a b ⊑ a) × (min_of a b ⊑ b)
    min_of-le a b = elim (Bool-cases (f.lt b a)) [
      | inl below ↦
          let le : b ⊑ a = ground (arith, lt-eq-not-le b a, le_of_not_le b a) in
          rw below (le, le_refl b)
      | inr above ↦ let le : a ⊑ b = ground (arith, lt-eq-not-le b a) in rw above (le_refl a, le)
    ]

    pub min_list-bounds :
        (a : W) (xs : List W) → (min_list a xs ⊑ a) × All (λ x. min_list a xs ⊑ x) xs
    unfolding min_list
    min_list-bounds a [] = (le_refl a, tt)
    min_list-bounds a (x ∷ xs) =
        let (down, rest) = min_list-bounds (min_of a x) xs in
        let (old, new) = min_of-le a x in (le_trans _ _ _ down old, (le_trans _ _ _ down new, rest))

    -- The values all lie in the reported range.
    abbrev pub Covers : LegacyStats W → List W → Type 0
    Covers s vs = All (λ v. s.min_gb ⊑ v) vs × All (λ v. v ⊑ s.max_gb) vs

    legacy_stats_of-Covers :
        (vs : List W) {s : LegacyStats W}
        → legacy_stats_of vs ≡ some s
        → Covers s vs × (s.sample_count ≡ length vs) × (s.peak_gb ≡ s.max_gb)
    legacy_stats_of-Covers [] e = cc
    legacy_stats_of-Covers (v ∷ vs) e =
        subst (λ s. Covers s (v ∷ vs) × (s.sample_count ≡ length (v ∷ vs)) × (s.peak_gb ≡ s.max_gb))
          (some-injective _ _ e) ((min_list-bounds v vs, max_list-bounds laws v vs), refl, refl)

    -- With ordered floats, statistics that are returned cover every sample: none lies below the
    -- minimum or above the maximum, the peak is the maximum, and the count is the number of
    -- samples.
    pub legacy_stats-Covers :
        (m : VramMonitor W) {s : LegacyStats W}
        → legacy_stats m ≡ some s
        → Covers s (map (λ x. x.vram_gb) m.samples)
          × (s.sample_count ≡ length m.samples)
          × (s.peak_gb ≡ s.max_gb)
    unfolding legacy_stats
    legacy_stats-Covers m e =
        let (covers, count, peak) = legacy_stats_of-Covers (map (λ x. x.vram_gb) m.samples) e in
        (covers, count ∙ length-map _ m.samples, peak)
