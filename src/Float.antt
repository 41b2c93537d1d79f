-- ===== src/Float.antt =====
-- Python's `float`, as the scripts use it: the type and its operations are an instance argument.
-- `IsOrdered` has the laws of the comparisons, which hold of every float but NaN. `IsExact` adds
-- the laws of sums and differences without rounding; only theorems on sums of regions take it.
pub mod Fixed
use cachegen_plus.Base.{
  ℕ, ◌*◌, ◌/◌, ◌<◌, ◌≡◌, refl, ◌↔◌, ◌⊎◌, Bool, true, false, not, Option, List, [], ◌∷◌, arith, All,
  if◌then◌else◌, Bool-cases, inl, inr,
}
use cachegen_plus.Base.Int.{ℤ, pos}

pub record Float (W : Type 0) : Type 0 where
  pub nought : W
  pub add : W → W → W
  pub sub : W → W → W
  pub mul : W → W → W
  pub div : W → W → W
  pub lt : W → W → Bool
  pub le : W → W → Bool
  pub eq : W → W → Bool
  -- an int used as a float
  pub of_int : ℤ → W
  -- the literal that is its first argument over a power of ten, `decimal 75 2` for 0.75
  pub decimal : ℕ → ℕ → W
  -- `float(text)`, which raises `ValueError` on `none`
  pub parse : List ℕ → Option W
  -- `int(x)`
  pub trunc : W → ℤ
  -- `round(x, k)`
  pub round : W → ℕ → W

module _ {W : Type 0} ⦃f : Float W⦄ where
  infixl 65 ◌⊕◌ ◌⊖◌
  infixl 70 ◌⊗◌ ◌⊘◌
  infix 4 ◌⊑◌
  abbrev pub ◌⊕◌ : W → W → W
  a ⊕ b = f.add a b

  abbrev pub ◌⊖◌ : W → W → W
  a ⊖ b = f.sub a b

  abbrev pub ◌⊗◌ : W → W → W
  a ⊗ b = f.mul a b

  abbrev pub ◌⊘◌ : W → W → W
  a ⊘ b = f.div a b

  abbrev pub ◌⊑◌ : W → W → Type 0
  a ⊑ b = f.le a b ≡ true

  -- `max(a, b)`: the first of two that are equal
  abbrev pub max_of : W → W → W
  max_of a b = if f.lt a b then b else a

  -- `min(a, b)`
  abbrev pub min_of : W → W → W
  min_of a b = if f.lt b a then b else a

  -- `max` of a list whose first item is `a`
  unfoldable pub max_list : W → List W → W
  max_list a [] = a
  max_list a (b ∷ bs) = max_list (max_of a b) bs

pub record IsOrdered (W : Type 0) ⦃f : Float W⦄ : Type 0 where
  pub le_refl : (a : W) → a ⊑ a
  pub le_trans : (a b c : W) → a ⊑ b → b ⊑ c → a ⊑ c
  pub le_antisymm : (a b : W) → a ⊑ b → b ⊑ a → a ≡ b
  pub lt-eq-not-le : (a b : W) → f.lt a b ≡ not (f.le b a)
  pub le_of_not_le : (a b : W) → f.le b a ≡ false → a ⊑ b
  pub eq_iff : (a b : W) → (f.eq a b ≡ true) ↔ (a ≡ b)

pub record IsExact (W : Type 0) ⦃f : Float W⦄ : Type 0 where
  pub ordered : IsOrdered W
  pub add_comm : (a b : W) → a ⊕ b ≡ b ⊕ a
  pub add_assoc : (a b c : W) → a ⊕ b ⊕ c ≡ a ⊕ (b ⊕ c)
  pub add-nought : (a : W) → a ⊕ f.nought ≡ a
  pub add-sub : (a b : W) → a ⊕ (b ⊖ a) ≡ b
  pub sub-sub : (a b c : W) → a ⊖ b ⊖ c ≡ a ⊖ (b ⊕ c)
  pub sub_self : (a : W) → a ⊖ a ≡ f.nought
  pub lt-sub : (a b : W) → f.lt f.nought (b ⊖ a) ≡ f.lt a b

module _ {W : Type 0} ⦃f : Float W⦄ (laws : IsOrdered W) where
  open laws use {le_refl, le_trans, lt-eq-not-le, le_of_not_le}

  -- `max` is an upper bound of both.
  pub le-max_of : (a b : W) → (a ⊑ max_of a b) × (b ⊑ max_of a b)
  le-max_of a b = elim (Bool-cases (f.le b a)) [
    | inl below ↦ rw (lt-eq-not-le, below) (le_refl a, below)
    | inr above ↦ rw (lt-eq-not-le, above) (le_of_not_le a b above, le_refl b)
  ]

  -- `max(0, x)` is never negative.
  pub nought-le-max_of : (x : W) → f.nought ⊑ max_of f.nought x
  nought-le-max_of x = (le-max_of f.nought x).0

  -- `max` of a list is an upper bound of it.
  pub max_list-bounds :
      (a : W) (xs : List W) → (a ⊑ max_list a xs) × All (λ x. x ⊑ max_list a xs) xs
  unfolding max_list
  max_list-bounds a [] = (le_refl a, tt)
  max_list-bounds a (x ∷ xs) =
      let (up, rest) = max_list-bounds (max_of a x) xs in
      let (old, new) = le-max_of a x in (le_trans _ _ _ old up, (le_trans _ _ _ new up, rest))

-- Two facts of rounding. The first holds of Python's floats at these two percentages, whose
-- products with such a number truncate to the exact share.
pub record IsRounding (W : Type 0) ⦃f : Float W⦄ : Type 0 where
  pub trunc_share :
      (n p : ℕ)
      → n < 1000000
      → (p ≡ 95) ⊎ (p ≡ 99)
      → f.trunc (f.of_int (pos n) ⊗ f.decimal p 2) ≡ pos (n * p / 100)
  pub round_mono : (a b : W) (k : ℕ) → a ⊑ b → f.round a k ⊑ f.round b k
