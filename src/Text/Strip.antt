-- ===== src/Text/Strip.antt =====
-- `strip` of a text between a space and the end of a line.
use mathlib.Core.List.{reverse, reverse-append, reverse-reverse}
use cachegen_plus.Base.{ℕ, ◌≡◌, refl, sym, ap, ◌∙◌, false, List, [], ◌∷◌, ◌++◌}
use cachegen_plus.Text.{is_space, drop_spaces, strip}

drop_spaces-other : (c : ℕ) (cs : List ℕ) → is_space c ≡ false → drop_spaces (c ∷ cs) ≡ c ∷ cs
unfolding drop_spaces
drop_spaces-other c cs h = rw h refl

-- Spaces around a text that has none at its ends are removed.
pub strip-line :
    (c d : ℕ) (t u : List ℕ)
    → is_space c ≡ false
    → is_space d ≡ false
    → c ∷ t ≡ u ++ d ∷ []
    → strip (32 ∷ (c ∷ t) ++ 10 ∷ []) ≡ c ∷ t
unfolding strip drop_spaces
strip-line c d t u first last e =
    let turned : reverse (c ∷ t) ≡ d ∷ reverse u = ap reverse e ∙ reverse-append u (d ∷ []) in
    ap (λ x. reverse (drop_spaces (reverse x))) (drop_spaces-other c (t ++ 10 ∷ []) first)
    ∙ ap (λ x. reverse (drop_spaces x)) (reverse-append (c ∷ t) (10 ∷ []) ∙ ap (λ x. 10 ∷ x) turned)
    ∙ ap reverse (drop_spaces-other d (reverse u) last)
    ∙ ap reverse (sym turned)
    ∙ reverse-reverse (c ∷ t)
