-- ===== src/Text/Pattern.antt =====
-- `re.search` for patterns without alternatives. Group 1 is the characters of the kept pieces.
use Prim.Native.String.{String}
use cachegen_plus.Base.{
  ℕ, Bool, true, false, List, [], ◌∷◌, Option, none, some, ◌==◌, if◌then◌else◌,
}
use cachegen_plus.Text.{codes}

pub data Piece : Type 0 where
  -- one character that passes the test
  one : Bool → (ℕ → Bool) → Piece
  -- `?`
  opt : Bool → (ℕ → Bool) → Piece
  -- `*`
  many : Bool → (ℕ → Bool) → Piece

abbrev note : Bool → ℕ → Option (List ℕ) → Option (List ℕ)
note kept c none = none
note kept c (some g) = some (if kept then c ∷ g else g)

-- The group of the first match that starts here, in the order in which `re` tries them.
unfoldable pub match_here : List Piece → List ℕ → Option (List ℕ)
match_here [] t = some []
match_here (one k p ∷ ps) [] = none
match_here (one k p ∷ ps) (c ∷ t) = elim (p c) [ true ↦ note k c (match_here ps t) | false ↦ none ]
match_here (opt k p ∷ ps) [] = match_here ps []
match_here (opt k p ∷ ps) (c ∷ t) = elim (p c) [
  | true ↦ elim (note k c (match_here ps t)) [ some g ↦ some g | none ↦ match_here ps (c ∷ t) ]
  | false ↦ match_here ps (c ∷ t)
]
match_here (many k p ∷ ps) [] = match_here ps []
match_here (many k p ∷ ps) (c ∷ t) = elim (p c) [
  | true ↦ elim (note k c (match_here (many k p ∷ ps) t)) [
    | some g ↦ some g
    | none ↦ match_here ps (c ∷ t)
  ]
  | false ↦ match_here ps (c ∷ t)
]

-- `re.search(pattern, text)`: the leftmost match
unfoldable pub search_first : List Piece → List ℕ → Option (List ℕ)
unfolding match_here
search_first ps [] = match_here ps []
search_first ps (c ∷ t) = elim (match_here ps (c ∷ t)) [
  | some g ↦ some g
  | none ↦ search_first ps t
]

-- `for pattern in patterns: match = re.search(pattern, text); if match: …; break`
unfoldable pub search_any : List (List Piece) → List ℕ → Option (List ℕ)
unfolding search_first
search_any [] t = none
search_any (ps ∷ rest) t = elim (search_first ps t) [ some g ↦ some g | none ↦ search_any rest t ]

abbrev literal_codes : List ℕ → List Piece
literal_codes [] = []
literal_codes (c ∷ cs) = one false (λ d. d == c) ∷ literal_codes cs

-- Characters that stand for themselves.
abbrev pub literal : String → List Piece
literal s = literal_codes (codes s)

-- `p+`
abbrev pub repeated : (ℕ → Bool) → List Piece
repeated p = one true p ∷ many true p ∷ []
