-- ===== src/Text.antt =====
-- Text as lists of character codes, and the part of Python's `re` that the scripts use: a pattern
-- is a row of pieces that are matched greedily, with backtracking, from left to right. All texts
-- that the scripts search are ASCII.
pub mod Pattern
pub mod Strip
pub mod Substring
use Prim.Native.Char.{code}
use Prim.Native.String.{String}
use mathlib.Core.List.{foldl, reverse}
use cachegen_plus.Base.{
  ℕ, ◌+◌, ◌-◌, ◌*◌, ◌≡◌, refl, ap, ◌∙◌, ◌≢◌, Bool, ◌&&◌, ◌||◌, List, [], ◌∷◌, ◌++◌, map, arith, leb,
  ◌==◌, if◌then◌else◌, All,
}

-- `String` has its own `[]` and `∷`.
abbrev pub codes : String → List ℕ
codes String.[] = []
codes (String.◌∷◌ c s) = code c ∷ codes s

abbrev pub is_digit : ℕ → Bool
is_digit c = leb b'0' c && leb c b'9'

-- `str.isspace` on ASCII
abbrev pub is_space : ℕ → Bool
is_space c = c == 32 || leb 9 c && leb c 13

-- `int(text)` of a text of digits
unfoldable pub number : List ℕ → ℕ
number = foldl (λ n c. n * 10 + (c - b'0')) 0

drop_spaces : List ℕ → List ℕ
drop_spaces [] = []
drop_spaces (c ∷ cs) = if is_space c then drop_spaces cs else c ∷ cs

-- `text.strip()`
unfoldable pub strip : List ℕ → List ℕ
unfolding drop_spaces
strip t = reverse (drop_spaces (reverse (drop_spaces t)))

abbrev onto_first : ℕ → List (List ℕ) → List (List ℕ)
onto_first c [] = (c ∷ []) ∷ []
onto_first c (field ∷ fields) = (c ∷ field) ∷ fields

-- `str.lower` on ASCII
abbrev pub lower : List ℕ → List ℕ
lower text = map (λ c. if leb b'A' c && leb c b'Z' then c + 32 else c) text

-- `text.split(sep)` at one character; an empty text has one empty field
unfoldable pub split : ℕ → List ℕ → List (List ℕ)
split sep [] = [] ∷ []
split sep (c ∷ cs) =
    let fields = split sep cs in if c == sep then [] ∷ fields else onto_first c fields

-- `sep.join(fields)` at one character
abbrev pub join : ℕ → List (List ℕ) → List ℕ
join sep [] = []
join sep (field ∷ []) = field
join sep (field ∷ next ∷ fields) = field ++ sep ∷ join sep (next ∷ fields)

split-append :
    (sep : ℕ) (field rest : List ℕ)
    → All (λ c. c ≢ sep) field
    → split sep (field ++ sep ∷ rest) ≡ field ∷ split sep rest
unfolding split
split-append sep [] rest h = ground arith
split-append sep (c ∷ cs) rest (other, h) = rw (split-append sep cs rest h) (ground arith)

split_one : (sep : ℕ) (field : List ℕ) → All (λ c. c ≢ sep) field → split sep field ≡ field ∷ []
unfolding split
split_one sep [] h = refl
split_one sep (c ∷ cs) (other, h) = rw (split_one sep cs h) (ground arith)

-- Fields without the separator come back from the text that joins them.
pub split-join :
    (sep : ℕ) (field : List ℕ) (fields : List (List ℕ))
    → All (All (λ c. c ≢ sep)) (field ∷ fields)
    → split sep (join sep (field ∷ fields)) ≡ field ∷ fields
split-join sep field [] (h, _) = split_one sep field h
split-join sep field (next ∷ fields) (h, hs) =
    split-append sep field (join sep (next ∷ fields)) h
    ∙ ap (λ rest. field ∷ rest) (split-join sep next fields hs)
