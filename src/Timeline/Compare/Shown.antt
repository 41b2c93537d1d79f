-- ===== src/Timeline/Compare/Shown.antt =====
-- The summary of a sweep does not raise.
use cachegen_plus.Base.{
  ℕ, ◌≡◌, ◌≢◌, ◌↔◌, ◌⊎◌, refl, true, List, [], ◌∷◌, Option, none, some, All, Bool-cases, inl, inr,
}
use cachegen_plus.Base.Int.{pos}
use cachegen_plus.Float.{Float, ◌⊕◌}
use cachegen_plus.Text.{codes}
use cachegen_plus.Server.{same_codes}
use cachegen_plus.Server.Paths.{same_codes_iff}
use cachegen_plus.Timeline.Test.{TestValues, TestResult, tested, not_ready}
use cachegen_plus.Timeline.Plan.{SweepResult, succeeded}
use cachegen_plus.Timeline.Compare.{
  Averages, mode_of, successes_of, sum_from, average, averages, table_of, compare_modes,
}

module _ (W : Type 0) ⦃f : Float W⦄ where
  IsSuccess : TestResult W → Type 0
  IsSuccess r = succeeded r ≡ true

  successes_of-IsSuccess :
      (mode : List ℕ) (results : List (SweepResult W)) → All IsSuccess (successes_of mode results)
  unfolding successes_of IsSuccess
  successes_of-IsSuccess mode [] = tt
  successes_of-IsSuccess mode (e ∷ es) = elim (Bool-cases (same_codes (mode_of e.result) mode)) [
    | inr other ↦ rw other (successes_of-IsSuccess mode es)
    | inl same ↦ elim (Bool-cases (succeeded e.result)) [
      | inl well ↦ rw (same, well) (well, successes_of-IsSuccess mode es)
      | inr ill ↦ rw (same, ill) (successes_of-IsSuccess mode es)
    ]
  ]

  -- A success has all values.
  sum_from-IsSuccess :
      (field : TestValues W → W) (total : W) (rs : List (TestResult W))
      → All IsSuccess rs
      → (sum : W) × (sum_from field total rs ≡ some sum)
  unfolding sum_from IsSuccess
  sum_from-IsSuccess field total [] all = (total, refl)
  sum_from-IsSuccess field total (tested c v ∷ rs) (well, all) =
      sum_from-IsSuccess field (total ⊕ field v) rs all
  sum_from-IsSuccess field total (not_ready c oom stage vram ∷ rs) (well, all) = cc

  average-IsSuccess :
      (field : TestValues W → W) (rs : List (TestResult W))
      → All IsSuccess rs
      → (mean : W) × (average field rs ≡ some mean)
  average-IsSuccess field rs all =
      let (sum, e) = sum_from-IsSuccess field (f.of_int (pos 0)) rs all in rw e (_, refl)

  averages-IsSuccess :
      (nat cge : List (TestResult W))
      → All IsSuccess nat
      → All IsSuccess cge
      → (table : Averages W) × (averages nat cge ≡ some table)
  averages-IsSuccess nat cge all_nat all_cge =
      let (_, e1) = average-IsSuccess (λ v. v.latency_sec) nat all_nat in
      let (_, e2) = average-IsSuccess (λ v. v.latency_sec) cge all_cge in
      let (_, e3) = average-IsSuccess (λ v. v.disk_offload_mb) nat all_nat in
      let (_, e4) = average-IsSuccess (λ v. v.disk_offload_mb) cge all_cge in
      let (_, e5) = average-IsSuccess (λ v. v.compression_ratio) nat all_nat in
      let (_, e6) = average-IsSuccess (λ v. v.compression_ratio) cge all_cge in
      rw (e1, e2, e3, e4, e5, e6) (_, refl)

  abbrev Shown : List (TestResult W) → List (TestResult W) → Option (Option (Averages W)) → Type 0
  Shown nat cge out =
      (table : Option (Averages W)) × (out ≡ some table)
      × ((table ≢ none) ↔ ((nat ≢ []) × (cge ≢ [])))

  table_of-Shown :
      (nat cge : List (TestResult W))
      → All IsSuccess nat
      → All IsSuccess cge
      → Shown nat cge (table_of nat cge)
  table_of-Shown [] cge all_nat all_cge =
      (none, refl, (λ h. absurd (h refl), λ h. absurd (h.0 refl)))
  table_of-Shown (n ∷ nat) [] all_nat all_cge =
      (none, refl, (λ h. absurd (h refl), λ h. absurd (h.1 refl)))
  table_of-Shown (n ∷ nat) (c ∷ cge) all_nat all_cge =
      let (table, e) = averages-IsSuccess (n ∷ nat) (c ∷ cge) all_nat all_cge in
      rw e (some table, refl, (λ _. (λ p. cc, λ p. cc), λ _ p. cc))

  -- A result of a mode whose test was a success, and that there is one.
  abbrev pub IsSuccessOf : List ℕ → TestResult W → Type 0
  IsSuccessOf mode (tested c v) = (c.mode ≡ mode) × (v.success ≡ true)
  IsSuccessOf mode (not_ready c oom stage vram) = ⊥

  abbrev pub HasSuccess : List ℕ → List (SweepResult W) → Type 0
  HasSuccess mode [] = ⊥
  HasSuccess mode (e ∷ es) = IsSuccessOf mode e.result ⊎ HasSuccess mode es

  IsSuccessOf-iff :
      (mode : List ℕ) (r : TestResult W)
      → IsSuccessOf mode r ↔ ((same_codes (mode_of r) mode ≡ true) × (succeeded r ≡ true))
  IsSuccessOf-iff mode (tested c v) = (
    λ (same, well). ((same_codes_iff c.mode mode).1 same, well),
    λ (same, well). ((same_codes_iff c.mode mode).0 same, well),
  )
  IsSuccessOf-iff mode (not_ready c oom stage vram) = (λ h. absurd h, λ (same, well). cc well)

  successes_of-HasSuccess :
      (mode : List ℕ) (rs : List (SweepResult W)) → (successes_of mode rs ≢ []) ↔ HasSuccess mode rs
  unfolding successes_of
  successes_of-HasSuccess mode [] = (λ h. absurd (h refl), λ h. absurd h)
  successes_of-HasSuccess mode (e ∷ es) =
      let (from, to) = successes_of-HasSuccess mode es in
      let (split, join) = IsSuccessOf-iff mode e.result in
      elim (Bool-cases (same_codes (mode_of e.result) mode)) [
        | inr other ↦ rw other (
          λ h. inr (from h),
          λ has. elim has [
            | inl here ↦ let same = (split here).0 in cc (same, other)
            | inr later ↦ to later
          ],
        )
        | inl same ↦ elim (Bool-cases (succeeded e.result)) [
          | inr ill ↦
              rw (same, ill)
                (
                  λ h. inr (from h),
                  λ has. elim has [
                    | inl here ↦ let well = (split here).1 in cc (well, ill)
                    | inr later ↦ to later
                  ],
                )
          | inl well ↦ rw (same, well) (λ _. inl (join (same, well)), λ _ p. cc)
        ]
      ]

  -- For any results, also those of tests whose server did not answer, which lack most keys, the
  -- summary does not raise, and it has the table of averages exactly if each of the modes has a result
  -- whose test was a success.
  pub compare_modes-Shown :
      (results : List (SweepResult W))
      → (table : Option (Averages W)) × (compare_modes results ≡ some table)
        × ((table ≢ none)
            ↔ (HasSuccess (codes "native") results × HasSuccess (codes "cachegen") results))
  unfolding compare_modes
  compare_modes-Shown results =
      let nat = codes "native" in
      let cge = codes "cachegen" in
      let (nat_from, nat_to) = successes_of-HasSuccess nat results in
      let (cge_from, cge_to) = successes_of-HasSuccess cge results in
      let (table, e, (from, to)) =
        table_of-Shown (successes_of nat results) (successes_of cge results)
          (successes_of-IsSuccess nat results) (successes_of-IsSuccess cge results) in
      (
        table,
        e,
        (
          λ h. (nat_from (from h).0, cge_from (from h).1),
          λ both. to (nat_to both.0, cge_to both.1),
        ),
      )
