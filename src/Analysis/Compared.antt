-- ===== src/Analysis/Compared.antt =====
-- The comparison of the modes against a search for the last result of each, which is described on the
-- results themselves.

use cachegen_plus.Base.{
  ℕ, ◌≡◌, refl, ap, ◌∙◌, Bool, true, false, ◌&&◌, List, [], ◌∷◌, ◌++◌, Option, none, some,
  if◌then◌else◌, ◌==◌, Bool-cases, inl, inr,
}
use cachegen_plus.Float.{Float, ◌⊖◌}
use cachegen_plus.Text.{codes}
use cachegen_plus.Server.{same_codes}
use cachegen_plus.Server.Paths.{same_codes_iff}
use cachegen_plus.Timeline.Test.{Case, TestResult, tested, not_ready}
use cachegen_plus.Analysis.{
  case_in, at_point, has_mode, after_start_of, note_result, note_results, CompareRow, compare_row,
  compare_prefills, compare_utils, compare_native_vs_cachegen,
}

-- The case of a result.
abbrev pub tested_case : {W : Type 0} → TestResult W → Case W
tested_case (tested c v) = c
tested_case (not_ready c oom stage vram) = c

module _ (W : Type 0) ⦃f : Float W⦄ where
  -- The memory after the start, and 0 GB if the server did not answer.
  abbrev pub shown_gb : TestResult W → W
  shown_gb (tested c v) = v.vram_after_start_gb
  shown_gb (not_ready c oom stage vram) = f.nought

  -- Whether a result is one of a mode with a utilization and a size.
  abbrev pub is_result_of : List ℕ → W → ℕ → TestResult W → Bool
  is_result_of mode gpu_util prefill r =
      let c = tested_case r in
      (c.prefill_size == prefill && f.eq c.gpu_util gpu_util) && same_codes c.mode mode

  -- The last result that passes a test.
  abbrev pub last_result : (TestResult W → Bool) → List (TestResult W) → Option (TestResult W)
  last_result p [] = none
  last_result p (r ∷ rs) = elim (last_result p rs) [
    | some later ↦ some later
    | none ↦ if p r then some r else none
  ]

  -- The line for a point whose last results of both modes are these: none unless both exist.
  abbrev pub line_for : W → ℕ → Option (TestResult W) → Option (TestResult W) → List (CompareRow W)
  line_for gpu_util prefill none cachegen = []
  line_for gpu_util prefill (some native) none = []
  line_for gpu_util prefill (some native) (some cachegen) =
      record {
        gpu_util = gpu_util;
        prefill = prefill;
        native_vram = shown_gb native;
        cachegen_vram = shown_gb cachegen;
        diff = shown_gb cachegen ⊖ shown_gb native;
      }
      ∷ []

  gb_of : Option (TestResult W) → Option W
  gb_of none = none
  gb_of (some r) = some (shown_gb r)

  abbrev later_or : Option W → Option W → Option W
  later_or none now = now
  later_or (some v) now = some v

  -- The value of the last result that passes a test, by recursion from the front.
  abbrev pub last_value : (TestResult W → Bool) → List (TestResult W) → Option W
  last_value p [] = none
  last_value p (r ∷ rs) = later_or (last_value p rs) (if p r then some (after_start_of r) else none)

  abbrev pub chosen_by : List ℕ → W → ℕ → TestResult W → Bool
  chosen_by mode gpu_util prefill r = at_point gpu_util prefill r && has_mode mode r

  later_or_assoc : (a b c : Option W) → later_or a (later_or b c) ≡ later_or (later_or a b) c
  later_or_assoc none b c = refl
  later_or_assoc (some v) b c = refl

  later_or-none : (a : Option W) → later_or a none ≡ a
  later_or-none none = refl
  later_or-none (some v) = refl

  -- A mode is one of the two at most.
  native_only :
      (r : TestResult W)
      → has_mode (codes "native") r ≡ true
      → has_mode (codes "cachegen") r ≡ false
  unfolding same_codes
  native_only r h =
      ap (λ mode. same_codes mode (codes "cachegen"))
        ((same_codes_iff (case_in r).mode (codes "native")).0 h)

  abbrev value_if : Bool → TestResult W → Option W
  value_if b r = if b then some (after_start_of r) else none

  note_result-later_or :
      (gpu_util : W) (prefill : ℕ) (native cachegen : Option W) (r : TestResult W)
      → note_result gpu_util prefill (native, cachegen) r ≡ (
        later_or (value_if (chosen_by (codes "native") gpu_util prefill r) r) native,
        later_or (value_if (chosen_by (codes "cachegen") gpu_util prefill r) r) cachegen,
      )
  note_result-later_or gpu_util prefill native cachegen r =
      elim (Bool-cases (at_point gpu_util prefill r)) [
        | inr off ↦ rw off refl
        | inl on ↦ elim (Bool-cases (has_mode (codes "native") r)) [
          | inl nat ↦ rw (on, nat, native_only r nat) refl
          | inr no_nat ↦ elim (Bool-cases (has_mode (codes "cachegen") r)) [
            | inl cge ↦ rw (on, no_nat, cge) refl
            | inr no_cge ↦ rw (on, no_nat, no_cge) refl
          ]
        ]
      ]

  note_results-later_or :
      (gpu_util : W) (prefill : ℕ) (native cachegen : Option W) (rs : List (TestResult W))
      → note_results gpu_util prefill (native, cachegen) rs ≡ (
        later_or (last_value (chosen_by (codes "native") gpu_util prefill) rs) native,
        later_or (last_value (chosen_by (codes "cachegen") gpu_util prefill) rs) cachegen,
      )
  unfolding note_results
  note_results-later_or gpu_util prefill native cachegen [] = refl
  note_results-later_or gpu_util prefill native cachegen (r ∷ rs) =
      let nat = value_if (chosen_by (codes "native") gpu_util prefill r) r in
      let cge = value_if (chosen_by (codes "cachegen") gpu_util prefill r) r in
      ap (λ found. note_results gpu_util prefill found rs)
        (note_result-later_or gpu_util prefill native cachegen r)
      ∙ note_results-later_or gpu_util prefill (later_or nat native) (later_or cge cachegen) rs
      ∙ ap
          (λ n. (
            n,
            later_or (last_value (chosen_by (codes "cachegen") gpu_util prefill) rs)
                (later_or cge cachegen),
          ))
          (later_or_assoc (last_value (chosen_by (codes "native") gpu_util prefill) rs) nat native)
      ∙ ap
          (λ c. (
            later_or (later_or (last_value (chosen_by (codes "native") gpu_util prefill) rs) nat)
                native,
            c,
          ))
          (later_or_assoc (last_value (chosen_by (codes "cachegen") gpu_util prefill) rs) cge
            cachegen)

  shown_gb-after_start_of : (r : TestResult W) → after_start_of r ≡ shown_gb r
  unfolding after_start_of
  shown_gb-after_start_of (tested c v) = refl
  shown_gb-after_start_of (not_ready c oom stage vram) = refl

  chosen_by-is_result_of :
      (mode : List ℕ) (gpu_util : W) (prefill : ℕ) (r : TestResult W)
      → chosen_by mode gpu_util prefill r ≡ is_result_of mode gpu_util prefill r
  chosen_by-is_result_of mode gpu_util prefill (tested c v) = refl
  chosen_by-is_result_of mode gpu_util prefill (not_ready c oom stage vram) = refl

  later_or-gb_of :
      (p : TestResult W → Bool) (later : Option (TestResult W)) (r : TestResult W)
      → later_or (gb_of later) (value_if (p r) r)
        ≡ gb_of (elim later [ some x ↦ some x | none ↦ if p r then some r else none ])
  unfolding gb_of
  later_or-gb_of p (some x) r = refl
  later_or-gb_of p none r = elim (Bool-cases (p r)) [
    | inl yes_it ↦ rw (yes_it, shown_gb-after_start_of r) refl
    | inr no_it ↦ rw no_it refl
  ]

  last_value-last_result :
      (mode : List ℕ) (gpu_util : W) (prefill : ℕ) (rs : List (TestResult W))
      → last_value (chosen_by mode gpu_util prefill) rs
        ≡ gb_of (last_result (is_result_of mode gpu_util prefill) rs)
  unfolding gb_of
  last_value-last_result mode gpu_util prefill [] = refl
  last_value-last_result mode gpu_util prefill (r ∷ rs) =
      let p = is_result_of mode gpu_util prefill in
      rw
        (
          last_value-last_result mode gpu_util prefill rs,
          chosen_by-is_result_of mode gpu_util prefill r,
        )
        (later_or-gb_of p (last_result p rs) r)

  compare_row-line_for :
      (gpu_util : W) (prefill : ℕ) (native cachegen : Option (TestResult W))
      → compare_row gpu_util prefill (gb_of native, gb_of cachegen)
        ≡ line_for gpu_util prefill native cachegen
  unfolding gb_of
  compare_row-line_for gpu_util prefill none cachegen = refl
  compare_row-line_for gpu_util prefill (some n) none = refl
  compare_row-line_for gpu_util prefill (some n) (some c) = refl

  -- The line of the table for a point, from the last results of both modes there.
  abbrev pub last_row : W → ℕ → List (TestResult W) → List (CompareRow W)
  last_row gpu_util prefill rs =
      line_for gpu_util prefill (last_result (is_result_of (codes "native") gpu_util prefill) rs)
        (last_result (is_result_of (codes "cachegen") gpu_util prefill) rs)

  last_row-note_results :
      (gpu_util : W) (prefill : ℕ) (rs : List (TestResult W))
      → compare_row gpu_util prefill (note_results gpu_util prefill (none, none) rs)
        ≡ last_row gpu_util prefill rs
  last_row-note_results gpu_util prefill rs =
      let nat = last_value (chosen_by (codes "native") gpu_util prefill) rs in
      let cge = last_value (chosen_by (codes "cachegen") gpu_util prefill) rs in
      ap (compare_row gpu_util prefill) (
        note_results-later_or gpu_util prefill none none rs
        ∙ rw
            (
              later_or-none nat,
              later_or-none cge,
              last_value-last_result (codes "native") gpu_util prefill rs,
              last_value-last_result (codes "cachegen") gpu_util prefill rs,
            )
            refl)
      ∙ compare_row-line_for gpu_util prefill _ _

  -- The lines for all points, in order.
  abbrev pub last_rows : W → List ℕ → List (TestResult W) → List (CompareRow W)
  last_rows gpu_util [] rs = []
  last_rows gpu_util (prefill ∷ rest) rs =
      last_row gpu_util prefill rs ++ last_rows gpu_util rest rs

  abbrev pub last_table : List W → List ℕ → List (TestResult W) → List (CompareRow W)
  last_table [] prefills rs = []
  last_table (gpu_util ∷ rest) prefills rs =
      last_rows gpu_util prefills rs ++ last_table rest prefills rs

  compare_prefills-last :
      (gpu_util : W) (prefills : List ℕ) (rs : List (TestResult W))
      → compare_prefills gpu_util prefills rs ≡ last_rows gpu_util prefills rs
  unfolding compare_prefills
  compare_prefills-last gpu_util [] rs = refl
  compare_prefills-last gpu_util (prefill ∷ rest) rs =
      rw (last_row-note_results gpu_util prefill rs, compare_prefills-last gpu_util rest rs) refl

  compare_utils-last :
      (utils : List W) (prefills : List ℕ) (rs : List (TestResult W))
      → compare_utils utils prefills rs ≡ last_table utils prefills rs
  unfolding compare_utils
  compare_utils-last [] prefills rs = refl
  compare_utils-last (gpu_util ∷ rest) prefills rs =
      rw (compare_prefills-last gpu_util prefills rs, compare_utils-last rest prefills rs) refl

  -- The comparison has, for each of the four utilizations and the five sizes in order, a line where
  -- both modes have a result with that utilization and size. It shows, of the last such result of each
  -- mode, the memory after the start, or 0 GB for a server that did not answer, and as the difference
  -- that of CacheGen less the native one. Where one of the modes has no result there is no line.
  pub compare_native_vs_cachegen-last :
      (rs : List (TestResult W))
      → compare_native_vs_cachegen rs
        ≡ last_table
            (f.decimal 3 1 ∷ f.decimal 5 1 ∷ f.decimal 7 1 ∷ f.decimal 9 1 ∷ [])
            (128 ∷ 256 ∷ 512 ∷ 1024 ∷ 2048 ∷ [])
            rs
  unfolding compare_native_vs_cachegen
  compare_native_vs_cachegen-last rs = compare_utils-last _ _ rs
