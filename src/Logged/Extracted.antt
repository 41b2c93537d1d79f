-- ===== src/Logged/Extracted.antt =====
-- What `extract_vram_logs` and `parse_vram` of tkdgjs/experiment/test_vram_with_logs.py get from the log
-- of a server.
use mathlib.Core.List.{append_assoc}
use cachegen_plus.Base.{
  ℕ, ◌≡◌, ◌⊎◌, inl, inr, refl, sym, ap, ◌∙◌, ◌≢◌, true, false, List, [], ◌∷◌, ◌++◌, map, none, some,
  arith, ◌==◌, All, All-append,
}
use cachegen_plus.Float.{Float}
use cachegen_plus.Text.{codes, is_space, strip}
use cachegen_plus.Text.Strip.{strip-line}
use cachegen_plus.Text.Substring.{starts_with, occurs_in}
use cachegen_plus.Timeline.Probe.{cut_at}
use cachegen_plus.Logged.{marker, marked, extract_vram_logs, parse_vram}
use cachegen_plus.Logged.Parsed.{
  VramReport, IsReport, report_text, first_part, second_part, around, occurs_in-suffix, increases,
  parse_vram-report_text,
}

-- A line of the log with a report.
pub record LogLine : Type 0 where
  pub prefix : List ℕ
  pub report : VramReport

-- The end of the line is a part of it.
unfoldable pub line_text : LogLine → List ℕ
line_text l = l.prefix ++ (marker ++ (32 ∷ report_text l.report ++ 10 ∷ []))

abbrev pub BeginsWell : List ℕ → Type 0
BeginsWell [] = ⊥
BeginsWell (c ∷ cs) = is_space c ≡ false

-- The prefix and the name have no bracket that opens, and the name does not begin with a space.
abbrev pub IsLine : LogLine → Type 0
IsLine l =
    All (λ c. c ≢ b'[') l.prefix
    × All (λ c. c ≢ b'[') l.report.name
    × BeginsWell l.report.name
    × IsReport l.report

cut_at-absent :
    (c : ℕ) (p text : List ℕ) → All (λ d. d ≢ c) text → cut_at (c ∷ p) text ≡ (text, none)
unfolding cut_at starts_with
cut_at-absent c p [] h = refl
cut_at-absent c p (d ∷ text) (other, h) =
    let off : (c == d) ≡ false = ground arith in rw (off, cut_at-absent c p text h) refl

cut_at-marker :
    (pre rest : List ℕ)
    → All (λ d. d ≢ b'[') pre
    → cut_at marker (pre ++ (marker ++ rest)) ≡ (pre, some rest)
unfolding cut_at starts_with
cut_at-marker [] rest h = refl
cut_at-marker (d ∷ pre) rest (other, h) =
    let off : (b'[' == d) ≡ false = ground arith in rw (off, cut_at-marker pre rest h) refl

abbrev EndsIn : ℕ → List ℕ → Type 0
EndsIn d t = (u : List ℕ) × (t ≡ u ++ d ∷ [])

EndsIn-append : (d : ℕ) (xs t : List ℕ) → EndsIn d t → EndsIn d (xs ++ t)
EndsIn-append d xs t (u, e) = (xs ++ u, ap (λ s. xs ++ s) e ∙ sym (append_assoc xs u (d ∷ [])))

report_text-EndsIn : (r : VramReport) → EndsIn b'B' (report_text r)
unfolding report_text
report_text-EndsIn r = EndsIn-append b'B' (first_part r) _ (
    EndsIn-append b'B' (b',' ∷ second_part r) _ (
      EndsIn-append b'B' (b',' ∷ codes " increase=") _
        (EndsIn-append b'B' r.increase (codes "GB") (codes "G", refl))))

BeginsWell-append : (t rest : List ℕ) → BeginsWell t → BeginsWell (t ++ rest)
BeginsWell-append [] rest h = absurd h
BeginsWell-append (c ∷ t) rest h = h

strip_text : (t : List ℕ) → BeginsWell t → EndsIn b'B' t → strip (32 ∷ t ++ 10 ∷ []) ≡ t
strip_text [] h _ = absurd h
strip_text (c ∷ t) h (u, e) = strip-line c b'B' t u h refl e

report_text-BeginsWell : (r : VramReport) → BeginsWell r.name → BeginsWell (report_text r)
unfolding report_text
report_text-BeginsWell r h = BeginsWell-append (first_part r) _ (BeginsWell-append r.name _ h)

report_text-plain :
    (r : VramReport) → All (λ c. c ≢ b'[') r.name → IsReport r → All (λ c. c ≢ b'[') (report_text r)
unfolding report_text
report_text-plain r name (_, _, before, after, increase) =
    All-append (λ c. c ≢ b'[') (first_part r) _
      (All-append (λ c. c ≢ b'[') r.name _ name
        (around b'[' (codes ": before=") r.before (codes "GB") refl refl refl before))
      (All-append (λ c. c ≢ b'[') (b',' ∷ second_part r) _
        (around b'[' (codes ", after=") r.after (codes "GB") refl refl refl after)
        (around b'[' (codes ", increase=") r.increase (codes "GB") refl refl refl increase))

marked-line_text : (l : LogLine) → IsLine l → marked (line_text l) ≡ some (report_text l.report)
unfolding marked line_text
marked-line_text l (pre, name, begins, well) =
    let text = report_text l.report in
    let rest = 32 ∷ text ++ 10 ∷ [] in
    let plain : All (λ c. c ≢ b'[') rest = (
      ground arith,
      All-append (λ c. c ≢ b'[') text (10 ∷ []) (report_text-plain l.report name well)
          (ground arith, tt),
    ) in
    rw
      (
        cut_at-marker l.prefix rest pre,
        cut_at-absent b'[' (codes "LMCACHE_VRAM]") rest plain,
        strip_text text (report_text-BeginsWell l.report begins) (report_text-EndsIn l.report),
      )
      refl

line_text-occurs : (l : LogLine) → occurs_in marker (line_text l) ≡ true
unfolding line_text occurs_in starts_with
line_text-occurs l = occurs_in-suffix marker l.prefix _ refl

-- A log as a list of lines, each with a report or without the marker.
abbrev pub Entries : Type 0
Entries = List (LogLine ⊎ List ℕ)

abbrev pub entry_text : LogLine ⊎ List ℕ → List ℕ
entry_text (inl l) = line_text l
entry_text (inr other) = other

abbrev pub reports : Entries → List VramReport
reports [] = []
reports (inl l ∷ es) = l.report ∷ reports es
reports (inr other ∷ es) = reports es

abbrev pub IsEntry : LogLine ⊎ List ℕ → Type 0
IsEntry (inl l) = IsLine l
IsEntry (inr other) = occurs_in marker other ≡ false

extract_vram_logs-reports :
    (es : Entries)
    → All IsEntry es
    → extract_vram_logs (map entry_text es) ≡ map report_text (reports es)
unfolding extract_vram_logs
extract_vram_logs-reports [] _ = refl
extract_vram_logs-reports (inl l ∷ es) (well, wells) =
    rw (line_text-occurs l, marked-line_text l well, extract_vram_logs-reports es wells) refl
extract_vram_logs-reports (inr other ∷ es) (silent, wells) =
    rw (silent, extract_vram_logs-reports es wells) refl

reports-IsReport : (es : Entries) → All IsEntry es → All IsReport (reports es)
reports-IsReport [] _ = tt
reports-IsReport (inl l ∷ es) ((_, _, _, well), wells) = (well, reports-IsReport es wells)
reports-IsReport (inr other ∷ es) (_, wells) = reports-IsReport es wells

-- From a log whose lines either lack the marker or are reports after a prefix, the script gets back
-- the increases of the reports, in their order and without those that are no number to Python. In a
-- report the numbers are written in decimal; prefix and name have no bracket that opens, and the name
-- is not empty, has no comma, does not speak of an increase and does not begin with a space.
pub parse_vram-extract_vram_logs :
    (W : Type 0) ⦃f : Float W⦄ (es : Entries)
    → All IsEntry es
    → parse_vram (extract_vram_logs (map entry_text es)) ≡ increases W (reports es)
parse_vram-extract_vram_logs W es wells =
    ap (λ logs. parse_vram logs) (extract_vram_logs-reports es wells)
    ∙ parse_vram-report_text W (reports es) (reports-IsReport es wells)
