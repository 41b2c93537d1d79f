-- ===== src/Text/Substring.antt =====
-- `pattern in text` on character codes.
use cachegen_plus.Base.{
  ℕ, ◌≡◌, refl, Bool, true, false, ◌&&◌, ◌||◌, List, [], ◌∷◌, ◌++◌, arith, ◌==◌,
}

unfoldable pub starts_with : List ℕ → List ℕ → Bool
starts_with [] text = true
starts_with (p ∷ ps) [] = false
starts_with (p ∷ ps) (c ∷ cs) = p == c && starts_with ps cs

unfoldable pub occurs_in : List ℕ → List ℕ → Bool
occurs_in pattern [] = starts_with pattern []
occurs_in pattern (c ∷ cs) = starts_with pattern (c ∷ cs) || occurs_in pattern cs

starts_with-append :
    (p q text : List ℕ) → starts_with (p ++ q) text ≡ true → starts_with p text ≡ true
unfolding starts_with
starts_with-append [] q text h = refl
starts_with-append (c ∷ p) q [] h = cc
starts_with-append (c ∷ p) q (d ∷ text) h = ground (arith, starts_with-append p q text)

-- Where a pattern occurs, what it begins with occurs.
pub occurs_in-append :
    (p q text : List ℕ) → occurs_in (p ++ q) text ≡ true → occurs_in p text ≡ true
unfolding occurs_in
occurs_in-append p q [] h = starts_with-append p q [] h
occurs_in-append p q (c ∷ text) h =
    ground (arith, starts_with-append p q (c ∷ text), occurs_in-append p q text)
