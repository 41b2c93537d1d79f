-- ===== src/Logged/Parsed.antt =====
-- `parse_vram` of tkdgjs/experiment/test_vram_with_logs.py on the lines that it is written for, and the
-- servers that the script leaves.
use cachegen_plus.Base.{
  ℕ, zero, suc, ◌-◌, ◌≡◌, refl, ap, ◌≢◌, Bool, true, false, not, ◌&&◌, ◌||◌, List, [], ◌∷◌, ◌++◌,
  map, Option, none, some, Bool-cases, inl, inr, arith, ◌==◌, All, All-map, All-append,
}
use cachegen_plus.Float.{Float}
use cachegen_plus.Text.{codes, is_digit, strip, split, join, split-join}
use cachegen_plus.Text.Substring.{starts_with, occurs_in}
use cachegen_plus.Answer.{RunResult}
use cachegen_plus.Direct.{DirectAct}
use cachegen_plus.Direct.Reports.{serving}
use cachegen_plus.Logged.{
  LoggedAnswers, without_gb, logged_started, logged_requests, logged_ready, logged_test,
  onto_values, increase_of, parse_parts, parse_vram, logged_main,
}

-- What the compression writes after the marker:
-- `<name>: before=<before>GB, after=<after>GB, increase=<increase>GB`.
pub record VramReport : Type 0 where
  pub name : List ℕ
  pub before : List ℕ
  pub after : List ℕ
  pub increase : List ℕ

abbrev pub first_part : VramReport → List ℕ
first_part r = r.name ++ (codes ": before=" ++ (r.before ++ codes "GB"))

abbrev pub second_part : VramReport → List ℕ
second_part r = codes " after=" ++ r.after ++ codes "GB"

abbrev pub third_part : VramReport → List ℕ
third_part r = codes " increase=" ++ r.increase ++ codes "GB"

unfoldable pub report_text : VramReport → List ℕ
report_text r = join b',' (first_part r ∷ second_part r ∷ third_part r ∷ [])

-- A character of a decimal number.
abbrev pub is_decimal : ℕ → Bool
is_decimal c = is_digit c || c == b'.' || c == b'-'

abbrev pub Decimal : List ℕ → Type 0
Decimal t = All (λ c. is_decimal c ≡ true) t

-- The numbers are written in decimal, and the name has no comma and does not speak of an increase.
abbrev pub IsReport : VramReport → Type 0
IsReport r =
    All (λ c. c ≢ b',') r.name
    × (occurs_in (codes "increase=") (first_part r) ≡ false)
    × Decimal r.before
    × Decimal r.after
    × Decimal r.increase

pub Decimal-not : (c : ℕ) → is_decimal c ≡ false → (t : List ℕ) → Decimal t → All (λ d. d ≢ c) t
Decimal-not c other t =
    All-map (λ d. is_decimal d ≡ true) (λ d. d ≢ c) t
      λ d h same. let bad = ap (λ x. is_decimal x) same in cc (h, other, bad)

without_gb-append : (t : List ℕ) → All (λ c. c ≢ b'G') t → without_gb (t ++ codes "GB") ≡ t
unfolding without_gb
without_gb-append [] h = refl
without_gb-append (c ∷ []) (other, h) = ground arith
without_gb-append (c ∷ d ∷ cs) (other, h) =
    let off : (c == b'G') ≡ false = ground arith in
    rw off (ap (λ xs. c ∷ xs) (without_gb-append (d ∷ cs) h))

-- A text without the first character of a pattern does not have the pattern in it.
occurs_in-absent :
    (c : ℕ) (p text : List ℕ) → All (λ d. d ≢ c) text → occurs_in (c ∷ p) text ≡ false
unfolding occurs_in starts_with
occurs_in-absent c p [] h = refl
occurs_in-absent c p (d ∷ text) (other, h) =
    let rest = occurs_in-absent c p text h in ground (arith, rest)

pub occurs_in-suffix :
    (p xs text : List ℕ) → occurs_in p text ≡ true → occurs_in p (xs ++ text) ≡ true
unfolding occurs_in
occurs_in-suffix p [] text h = h
occurs_in-suffix p (x ∷ xs) text h = let rest = occurs_in-suffix p xs text h in ground (arith, rest)

abbrev pub lacks : ℕ → List ℕ → Bool
lacks c [] = true
lacks c (d ∷ text) = not (d == c) && lacks c text

-- A given text without a character, by a run of the test.
pub lacks→All : (c : ℕ) (text : List ℕ) → lacks c text ≡ true → All (λ d. d ≢ c) text
lacks→All c [] h = tt
lacks→All c (d ∷ text) h = (ground arith, lacks→All c text (ground arith))

-- Around a number, such texts make one.
pub around :
    (c : ℕ) (left t right : List ℕ)
    → is_decimal c ≡ false
    → lacks c left ≡ true
    → lacks c right ≡ true
    → Decimal t
    → All (λ d. d ≢ c) (left ++ (t ++ right))
around c left t right other l r h =
    All-append (λ d. d ≢ c) left (t ++ right) (lacks→All c left l)
      (All-append (λ d. d ≢ c) t right (Decimal-not c other t h) (lacks→All c right r))

-- The parts of a report, with the facts of them that the parsing rests on.
third_part-occurs : (r : VramReport) → occurs_in (codes "increase=") (third_part r) ≡ true
unfolding occurs_in starts_with
third_part-occurs r = refl

second_part-absent :
    (r : VramReport) → Decimal r.after → occurs_in (codes "increase=") (second_part r) ≡ false
second_part-absent r h =
    occurs_in-absent b'i' (codes "ncrease=") (second_part r)
      (around b'i' (codes " after=") r.after (codes "GB") refl refl refl h)

report_text-occurs : (r : VramReport) → occurs_in (codes "increase=") (report_text r) ≡ true
unfolding report_text
report_text-occurs r =
    let p = codes "increase=" in
    occurs_in-suffix p (first_part r) (b',' ∷ second_part r ++ b',' ∷ third_part r) (
      occurs_in-suffix p (b',' ∷ []) (second_part r ++ b',' ∷ third_part r) (
        occurs_in-suffix p (second_part r) (b',' ∷ third_part r)
          (occurs_in-suffix p (b',' ∷ []) (third_part r) (third_part-occurs r))))

report_text-split :
    (r : VramReport)
    → IsReport r
    → split b',' (report_text r) ≡ first_part r ∷ second_part r ∷ third_part r ∷ []
unfolding report_text
report_text-split r (name, _, before, after, increase) =
    split-join b',' (first_part r) (second_part r ∷ third_part r ∷ []) (
      All-append (λ d. d ≢ b',') r.name _ name
          (around b',' (codes ": before=") r.before (codes "GB") refl refl refl before),
      (
        around b',' (codes " after=") r.after (codes "GB") refl refl refl after,
        (around b',' (codes " increase=") r.increase (codes "GB") refl refl refl increase, tt),
      ),
    )

third_part-split :
    (r : VramReport)
    → Decimal r.increase
    → split b'=' (third_part r) ≡ codes " increase" ∷ (r.increase ++ codes "GB") ∷ []
third_part-split r h = split-join b'=' (codes " increase") ((r.increase ++ codes "GB") ∷ []) (
  lacks→All b'=' (codes " increase") refl,
  (around b'=' [] r.increase (codes "GB") refl refl refl h, tt),
)

module _ (W : Type 0) ⦃f : Float W⦄ where
  -- The increases of the reports, as far as Python reads their text as numbers.
  abbrev pub increases : List VramReport → List W
  increases [] = []
  increases (r ∷ rs) = onto_values (f.parse (strip r.increase)) (increases rs)

  increase_of-third_part :
      (r : VramReport)
      → Decimal r.increase
      → increase_of (third_part r) ≡ f.parse (strip r.increase)
  unfolding increase_of
  increase_of-third_part r h =
      rw (third_part-split r h, without_gb-append r.increase (Decimal-not b'G' refl r.increase h))
        refl

  onto_values-append :
      (o : Option W) (rest : List W) → onto_values o [] ++ rest ≡ onto_values o rest
  onto_values-append none rest = refl
  onto_values-append (some x) rest = refl

  parse_parts-report :
      (r : VramReport) (rest : List W)
      → IsReport r
      → parse_parts (split b',' (report_text r)) ++ rest
        ≡ onto_values (f.parse (strip r.increase)) rest
  unfolding parse_parts
  parse_parts-report r rest well =
      let (_, silent, _, after, increase) = well in
      rw
        (
          report_text-split r well,
          silent,
          second_part-absent r after,
          third_part-occurs r,
          increase_of-third_part r increase,
        )
        (onto_values-append (f.parse (strip r.increase)) rest)

  -- From the lines of any reports, whose numbers are written in decimal and whose names have no comma
  -- and do not speak of an increase, `parse_vram` gets back the increases, in the order of the reports
  -- and without those that are no number to Python.
  pub parse_vram-report_text :
      (rs : List VramReport) → All IsReport rs → parse_vram (map report_text rs) ≡ increases rs
  unfolding parse_vram
  parse_vram-report_text [] _ = refl
  parse_vram-report_text (r ∷ rs) (well, wells) =
      rw (report_text-occurs r, parse_vram-report_text rs wells)
        (parse_parts-report r (increases rs) well)

  logged_requests-serving :
      (posts : ℕ → RunResult) (left i : ℕ) (log : List DirectAct)
      → serving (logged_requests posts left i log) ≡ serving log
  unfolding logged_requests
  logged_requests-serving posts zero i log = refl
  logged_requests-serving posts (suc left) i log = logged_requests-serving posts left (suc i) _

  logged_test-serving :
      (mode : List ℕ) (a : LoggedAnswers) (log : List DirectAct)
      → serving (logged_test mode a log).0 ≡ 0
  unfolding logged_test
  logged_test-serving mode a log = elim (Bool-cases (logged_ready a)) [
    | inl up ↦
        rw up (ap (λ n. n - 1) (logged_requests-serving a.posts 3 0 (logged_started mode log)))
    | inr down ↦ rw down refl
  ]

  -- Whatever servers run before the script and whatever it measures, none runs at its end.
  pub logged_main-serving :
      (a b : LoggedAnswers) (log : List DirectAct) → serving (logged_main {W = W} a b log).0 ≡ 0
  unfolding logged_main
  logged_main-serving a b log = logged_test-serving _ b _
