-- ===== src/Vram/Plan/Summary.antt =====
-- How the summary of `main` ends.
use cachegen_plus.Base.{
  ℕ, suc, ◌≡◌, refl, sym, ◌∙◌, ◌⊎◌, ◌<◌, ap, ◌↔◌, List, [], ◌∷◌, Option, none, some, arith, inl,
  inr, All, length,
}
use mathlib.Core.Option.{some-injective}
use cachegen_plus.Float.{Float}
use cachegen_plus.Host.{Log, slept}
use cachegen_plus.Vram.Experiment.{Answers, Outcome, run_single_experiment}
use cachegen_plus.Vram.Plan.{
  run_sizes, after_size, finish_mode, run_experiment_for_mode, ModeResult, mode_results, mode_error,
  print_keys, keys, print_summary, run_modes, main, prefill_sizes, modes, mode_result,
}

module _ (W : Type 0) ⦃f : Float W⦄ where
  abbrev pub IsError : List ℕ × ModeResult W → Type 0
  IsError (mode, r) = r ≡ mode_error

  after_size-length :
      (size : ℕ) (log : Log) (rest : Log × Option (List (ℕ × Outcome W))) (o : Option (Outcome W))
      (n : ℕ)
      → ((r : List (ℕ × Outcome W)) → rest.1 ≡ some r → length r ≡ n)
      → {r : List (ℕ × Outcome W)} → (after_size size log rest o).1 ≡ some r
      → length r ≡ suc n
  after_size-length size log rest none n h e = cc
  after_size-length size log (log', none) (some outcome) n h e = cc
  after_size-length size log (log', some r) (some outcome) n h e =
      ap length (sym (some-injective _ _ e)) ∙ ap suc (h r refl)

  -- Each mode has a result for every size.
  run_sizes-length :
      (mode : List ℕ) (sizes : List ℕ) (answers : ℕ → Answers W) (log : Log)
      {r : List (ℕ × Outcome W)}
      → (run_sizes mode sizes answers log).1 ≡ some r
      → length r ≡ length sizes
  unfolding run_sizes
  run_sizes-length mode [] answers log e = ap length (sym (some-injective _ _ e))
  run_sizes-length mode (size ∷ sizes) answers log e =
      let first = run_single_experiment mode size (answers size) log in
      after_size-length size first.0 (run_sizes mode sizes answers (slept 10 ∷ first.0)) first.1
        (length sizes) (λ r h. run_sizes-length mode sizes answers (slept 10 ∷ first.0) h) e

  -- The inner loop raises at the first key, if that is an int.
  print_keys_done :
      (r : List (ℕ × Outcome W)) → 0 < length r → print_keys (keys (mode_results r)) ≡ none
  unfolding print_keys
  print_keys_done [] h = absurd (omega arith)
  print_keys_done ((size, outcome) ∷ rest) h = refl

  -- A mode's entry is an error, or the summary raises at it.
  abbrev Breaks : List ℕ × ModeResult W → Type 0
  Breaks (mode, r) = (r ≡ mode_error) ⊎ (print_keys (keys r) ≡ none)

  mode_result-Breaks :
      (mode : List ℕ) (out : Log × Option (List (ℕ × Outcome W)))
      → ((r : List (ℕ × Outcome W)) → out.1 ≡ some r → 0 < length r)
      → Breaks (mode, mode_result (finish_mode mode out).1)
  mode_result-Breaks mode (log, none) h = inl refl
  mode_result-Breaks mode (log, some r) h = inr (print_keys_done r (h r refl))

  run_modes-Breaks :
      (names : List (List ℕ)) (answers : List ℕ → ℕ → Answers W) (log : Log)
      → All Breaks (run_modes names answers log).1
  unfolding run_modes run_experiment_for_mode
  run_modes-Breaks [] answers log = tt
  run_modes-Breaks (mode ∷ names) answers log = (
    mode_result-Breaks mode (run_sizes mode prefill_sizes (answers mode) log)
        (λ r e. omega (arith, run_sizes-length mode prefill_sizes (answers mode) log e)),
    run_modes-Breaks names answers (run_experiment_for_mode mode (answers mode) log).0,
  )

  print_summary_iff :
      (rs : List (List ℕ × ModeResult W))
      → All Breaks rs
      → (print_summary rs ≡ some tt) ↔ All IsError rs
  unfolding print_summary print_keys
  print_summary_iff [] all = (λ _. tt, λ _. refl)
  print_summary_iff ((mode, r) ∷ rs) (inl error, all) =
      rw error (λ h. (refl, (print_summary_iff rs all).0 h), λ h. (print_summary_iff rs all).1 h.1)
  print_summary_iff ((mode, mode_error) ∷ rs) (inr raises, all) = cc
  print_summary_iff ((mode, mode_results r) ∷ rs) (inr raises, all) =
      rw raises (λ h. cc, λ h. cc (h.0))

  -- `main` prints its summary to the end exactly if every mode raised an exception: a mode with
  -- results has int keys, and the first of them raises `AttributeError`.
  pub main_summary :
      (answers : List ℕ → ℕ → Answers W) (log : Log)
      → let out = main answers log in (out.2 ≡ some tt) ↔ All IsError out.1
  unfolding main
  main_summary answers log =
      print_summary_iff (run_modes modes answers log).1 (run_modes-Breaks modes answers log)
