-- ===== src/Float/Fixed.antt =====
-- A concrete choice of the float operations: millionths, as integers. The tests and the witnesses
-- run on it, and it satisfies the laws of `IsExact`.
use mathlib.Core.Option.{Option, none, some}
use native.Mathlib.Nat.{
  le_refl, le_trans, div-zero, mul-le-mul_right, le-div_iff_mul-le, div-mul-le_self,
}
use cachegen_plus.Base.{
  ℕ, ◌+◌, ◌-◌, ◌*◌, ◌/◌, ◌^◌, ◌≡◌, ◌≤◌, zero, suc, inl, inr, Bool, true, false, ◌&&◌, List, [], ◌∷◌,
  arith, leb, ◌==◌,
}
use cachegen_plus.Base.Int.{
  ℤ, pos, negsuc, sub_ℕ, ◌≤ℤ◌, pos_part, neg_part, ◌+ℤ◌, ◌-ℤ◌, ◌*ℤ◌, ◌/ℤ◌, ltb_ℤ, leb_ℤ, int_laws,
  -ℤ_parts,
}
use cachegen_plus.Float.{Float, IsOrdered, IsExact, IsRounding, ◌⊗◌}

abbrev million : ℤ
million = pos 1000000

abbrev is_digit : ℕ → Bool
is_digit c = leb b'0' c && leb c b'9'

-- The digits after the point, each a tenth of the one before.
fraction : ℕ → List ℕ → Option ℕ
fraction unit [] = some 0
fraction unit (c ∷ cs) = elim (is_digit c) [
  | true ↦ elim (fraction (unit / 10) cs) [ none ↦ none | some n ↦ some ((c - b'0') * unit + n) ]
  | false ↦ none
]

whole : ℕ → List ℕ → Option ℕ
whole acc [] = some (acc * 1000000)
whole acc (c ∷ cs) = elim (is_digit c) [
  | true ↦ whole (acc * 10 + (c - b'0')) cs
  | false ↦ elim (c == b'.') [
    | true ↦ elim (fraction 100000 cs) [ none ↦ none | some n ↦ some (acc * 1000000 + n) ]
    | false ↦ none
  ]
]

unfoldable pub parse_fixed : List ℕ → Option ℤ
unfolding fraction whole
parse_fixed [] = none
parse_fixed (c ∷ cs) = elim (is_digit c) [
  | true ↦ elim (whole 0 (c ∷ cs)) [ none ↦ none | some n ↦ some (pos n) ]
  | false ↦ none
]

instance abbrev pub fixed : Float ℤ
fixed = record {
  nought = pos 0;
  add = ◌+ℤ◌;
  sub = ◌-ℤ◌;
  mul = λ a b. a *ℤ b /ℤ million;
  div = λ a b. a *ℤ million /ℤ b;
  lt = ltb_ℤ;
  le = leb_ℤ;
  eq = λ a b. pos_part a + neg_part b == pos_part b + neg_part a;
  of_int = λ a. a *ℤ million;
  decimal = λ a k. pos (a * 1000000 / 10 ^ k);
  parse = parse_fixed;
  trunc = λ a. a /ℤ million;
  round = λ a k. a /ℤ pos (1000000 / 10 ^ k) *ℤ pos (1000000 / 10 ^ k);
}

pub fixed-IsOrdered : IsOrdered ℤ
fixed-IsOrdered = record {
  le_refl = λ a. ground arith;
  le_trans = λ a b c h k. ground arith;
  le_antisymm = λ a b h k. ground arith;
  lt-eq-not-le = λ a b. ground arith;
  le_of_not_le = λ a b h. ground arith;
  eq_iff = λ a b. ground arith;
}

lt-sub_fixed : (a b : ℤ) → ltb_ℤ (pos 0) (b -ℤ a) ≡ ltb_ℤ a b
lt-sub_fixed a b = ground (arith, -ℤ_parts b a)

pub fixed-IsExact : IsExact ℤ
fixed-IsExact = record {
  ordered = fixed-IsOrdered;
  add_comm = λ a b. omega int_laws;
  add_assoc = λ a b c. omega int_laws;
  add-nought = λ a. omega int_laws;
  add-sub = λ a b. omega int_laws;
  sub-sub = λ a b c. omega int_laws;
  sub_self = λ a. omega int_laws;
  lt-sub = lt-sub_fixed;
}

trunc_share_95 :
    (n : ℕ) → fixed.trunc (fixed.of_int (pos n) ⊗ fixed.decimal 95 2) ≡ pos (n * 95 / 100)
unfolding ◌*ℤ◌ ◌/ℤ◌
trunc_share_95 n = ground arith

trunc_share_99 :
    (n : ℕ) → fixed.trunc (fixed.of_int (pos n) ⊗ fixed.decimal 99 2) ≡ pos (n * 99 / 100)
unfolding ◌*ℤ◌ ◌/ℤ◌
trunc_share_99 n = ground arith

-- A quotient rounded towards zero, and its product with the divisor, keep the order.
div-mul_mono : (x y u : ℕ) → x ≤ y → x / u * u ≤ y / u * u
div-mul_mono x y zero h = rw (div-zero x, div-zero y) (le_refl _)
div-mul_mono x y (suc u) h =
    mul-le-mul_right (suc u)
      ((le-div_iff_mul-le (omega arith)).1 (le_trans (div-mul-le_self x (suc u)) h))

pos_quotient : (x u : ℕ) → pos x /ℤ pos u *ℤ pos u ≡ pos (x / u * u)
unfolding ◌*ℤ◌ ◌/ℤ◌
pos_quotient x u = ground arith

neg_quotient : (x u : ℕ) → negsuc x /ℤ pos u *ℤ pos u ≡ sub_ℕ 0 (suc x / u * u)
unfolding ◌*ℤ◌ ◌/ℤ◌
neg_quotient x u = ground arith

round_mono_fixed : (a b : ℤ) (u : ℕ) → a ≤ℤ b → a /ℤ pos u *ℤ pos u ≤ℤ b /ℤ pos u *ℤ pos u
round_mono_fixed (pos x) (pos y) u h =
    rw (pos_quotient, pos_quotient) (ground (arith, div-mul_mono x y u))
round_mono_fixed (pos x) (negsuc y) u h = absurd (omega arith)
round_mono_fixed (negsuc x) (pos y) u h = rw (neg_quotient, pos_quotient) (ground arith)
round_mono_fixed (negsuc x) (negsuc y) u h =
    rw (neg_quotient, neg_quotient y u) (ground (arith, div-mul_mono (suc y) (suc x) u))

pub fixed-IsRounding : IsRounding ℤ
fixed-IsRounding = record {
  trunc_share = λ n p few known. elim known [
    | inl e ↦ rw e (trunc_share_95 n)
    | inr e ↦ rw e (trunc_share_99 n)
  ];
  round_mono = λ a b k h.
      let le = round_mono_fixed a b (1000000 / 10 ^ k) (ground arith) in ground (arith, le);
}
