-- ===== src/Complete/Graph/Drawn.antt =====
-- What the plots show of the results of `main`.
use mathlib.Core.Path.{subst}
use mathlib.Core.Option.{some-injective}
use cachegen_plus.Base.{
  ℕ, ◌≡◌, refl, sym, ap, ◌∙◌, false, List, [], ◌∷◌, ◌++◌, map, Option, none, some, arith, ◌>>=◌,
  All, All-append, Option-cases, inl, inr,
}
use cachegen_plus.Float.{Float}
use cachegen_plus.Text.{codes}
use cachegen_plus.Complete.Probe.{Act}
use cachegen_plus.Complete.Run.{
  RunAnswers, RunRecord, run_record, run_vllm, append_run, with_modes, configs, run_configs,
  complete_main,
}
use cachegen_plus.Complete.Graph.{Bars, chosen, bars_at, sorted_set, graph_bars}

module _ (W : Type 0) ⦃f : Float W⦄ where
  abbrev Low : RunRecord W → Type 0
  Low r = r.gpu_memory ≡ f.decimal 2 1

  append_run-Low :
      (o : Option (RunRecord W)) (results : List (RunRecord W)) {rs : List (RunRecord W)}
      → ((r : RunRecord W) → o ≡ some r → Low r)
      → All Low results
      → append_run o results ≡ some rs
      → All Low rs
  append_run-Low none results low all e = subst (All Low) (some-injective _ _ e) all
  append_run-Low (some r) results low all e = elim (Option-cases r.vram_after) [
    | inl missing ↦
        let impossible : none ≡ some _ =
          sym (ap (λ v. v >>= λ gb. some (results ++ r ∷ [])) missing) ∙ e in
        cc impossible
    | inr (gb, found) ↦
        let same = sym (ap (λ v. v >>= λ gb. some (results ++ r ∷ [])) found) ∙ e in
        subst (All Low) (some-injective _ _ same)
          (All-append Low results (r ∷ []) all (low r refl, tt))
  ]

  run_vllm-Low :
      (mode : List ℕ) (tokens : ℕ) (gpu_mem : W) (a : RunAnswers) (log : List (Act W))
      → gpu_mem ≡ f.decimal 2 1
      → (r : RunRecord W) → (run_vllm mode tokens gpu_mem a log).1 ≡ some r
      → Low r
  unfolding run_vllm run_record
  run_vllm-Low mode tokens gpu_mem a log low r = ground arith

  run_configs-Low :
      (plan : List (List ℕ × ℕ × W)) (machine : List ℕ → ℕ → RunAnswers)
      (results : List (RunRecord W)) (log : List (Act W)) {rs : List (RunRecord W)}
      → All (λ c. c.2 ≡ f.decimal 2 1) plan
      → All Low results
      → (run_configs plan machine results log).1 ≡ some rs
      → All Low rs
  unfolding run_configs
  run_configs-Low [] machine results log lows all = λ e. subst (All Low) (some-injective _ _ e) all
  run_configs-Low ((mode, tokens, gpu_mem) ∷ rest) machine results log (low, lows) all =
      let out = run_vllm mode tokens gpu_mem (machine mode tokens) log in
      elim (Option-cases (append_run out.1 results)) [
        | inl raised ↦ rw raised (λ e. cc e)
        | inr (rs', found) ↦ rw found (λ e.
            run_configs-Low rest machine rs' out.0 lows
              (append_run-Low out.1 results
                (run_vllm-Low mode tokens gpu_mem (machine mode tokens) log low) all found)
              e)
      ]

  -- The literals 0.2 and 0.5 are different floats.
  module _ (differ : f.eq (f.decimal 2 1) (f.decimal 5 1) ≡ false) where
    chosen_none :
        (mode : List ℕ) (tokens : ℕ) (results : List (RunRecord W))
        → All Low results
        → chosen mode tokens results ≡ []
    unfolding chosen
    chosen_none mode tokens [] all = refl
    chosen_none mode tokens (r ∷ rs) (low, all) =
        let out : f.eq r.gpu_memory (f.decimal 5 1) ≡ false =
          ap (λ x. f.eq x (f.decimal 5 1)) low ∙ differ in
        ground (arith, chosen_none mode tokens rs all)

    abbrev pub flat : Bars W
    flat = record {
      native_vram = some f.nought;
      cachegen_vram = some f.nought;
      diff = some f.nought;
      native_disk = f.nought;
      cachegen_disk = f.nought;
    }

    bars_flat :
        (results : List (RunRecord W)) (tokens : List ℕ)
        → All Low results
        → map (bars_at results) tokens ≡ map (λ n. flat) tokens
    unfolding bars_at
    bars_flat results [] all = refl
    bars_flat results (n ∷ ns) all =
        rw
          (chosen_none (codes "native") n results all, chosen_none (codes "cachegen") n results all)
          (ap (λ rest. flat ∷ rest) (bars_flat results ns all))

    -- As the floats 0.2 and 0.5 differ, every bar that is drawn for results of `main` has height 0,
    -- whatever was measured: the configurations have a utilization of 0.2, and the plots choose the
    -- results with 0.5.
    pub graph_bars-main :
        (machine : List ℕ → ℕ → RunAnswers) (log : List (Act W)) (results : List (RunRecord W))
        → (complete_main machine log).1 ≡ some results
        → graph_bars results ≡ map (λ n. flat) (sorted_set (map (λ r. r.tokens) results))
    unfolding complete_main graph_bars
    graph_bars-main machine log results e =
        bars_flat results (sorted_set (map (λ r. r.tokens) results)) (
          run_configs-Low (with_modes configs) machine [] log
            (refl, (refl, (refl, (refl, (refl, (refl, tt)))))) tt e)
