-- ===== src/Complete/Run/Ends.antt =====
-- The servers that run_sweep_complete.py leaves behind, and what makes it raise.

use cachegen_plus.Base.{
  ℕ, ◌≡◌, ◌-◌, arith, refl, sym, ◌∙◌, ◌↔◌, ◌⊎◌, true, List, [], ◌∷◌, Option, none, some, All,
  Bool-cases, Option-cases, inl, inr, suc, zero,
}
use cachegen_plus.Float.{Float}
use cachegen_plus.Answer.{RunResult}
use cachegen_plus.Complete.Probe.{
  Act, ran, launched, ended, proc_killed, paused, asked, lists_models, ready_from, check_vllm_ready,
  kill_vllm, clean_cache, get_vram_usage,
}
use cachegen_plus.Complete.Run.{
  RunAnswers, RunRecord, run_record, run_vllm, append_run, with_modes, configs, run_configs,
  complete_main, complete_launch,
}

module _ (W : Type 0) ⦃f : Float W⦄ where
  -- The servers that the script has started and not killed.
  abbrev pub alive : List (Act W) → ℕ
  alive [] = 0
  alive (ended ∷ log) = 0
  alive (proc_killed ∷ log) = alive log - 1
  alive (launched l ∷ log) = suc (alive log)
  alive (ran words ∷ log) = alive log
  alive (paused n ∷ log) = alive log
  alive (asked n ∷ log) = alive log

  -- A server is only started when none runs.
  abbrev pub OneByOne : List (Act W) → Type 0
  OneByOne [] = Unit
  OneByOne (launched l ∷ log) = (alive log ≡ 0) × OneByOne log
  OneByOne (ended ∷ log) = OneByOne log
  OneByOne (proc_killed ∷ log) = OneByOne log
  OneByOne (ran words ∷ log) = OneByOne log
  OneByOne (paused n ∷ log) = OneByOne log
  OneByOne (asked n ∷ log) = OneByOne log

  abbrev Idle : List (Act W) → Type 0
  Idle log = (alive log ≡ 0) × OneByOne log

  -- Waiting starts and kills nothing.
  ready_from-OneByOne :
      (replies : ℕ → RunResult) (rounds k : ℕ) (log : List (Act W))
      → OneByOne log
      → let out = ready_from replies rounds k log in (alive out.0 ≡ alive log) × OneByOne out.0
  unfolding ready_from
  ready_from-OneByOne replies zero k log h = (refl, h)
  ready_from-OneByOne replies (suc rounds) k log h = elim (Bool-cases (lists_models (replies k))) [
    | inl on ↦ rw on (refl, h)
    | inr off ↦ rw off (ready_from-OneByOne replies rounds (suc k) (paused 1 ∷ log) h)
  ]

  run_vllm-Idle :
      (mode : List ℕ) (tokens : ℕ) (gpu_mem : W) (a : RunAnswers) (log : List (Act W))
      → Idle log
      → Idle (run_vllm mode tokens gpu_mem a log).0
  unfolding run_vllm kill_vllm check_vllm_ready clean_cache
  run_vllm-Idle mode tokens gpu_mem a log (none_left, fine) =
      let l = complete_launch mode gpu_mem in
      let begun = launched l ∷ clean_cache l.cache_dir log in
      let (same, kept) = ready_from-OneByOne a.models 60 0 begun (none_left, fine) in
      elim (Bool-cases (ready_from a.models 60 0 begun).1) [
        | inl up ↦ rw up (refl, kept)
        | inr down ↦ rw down (omega (arith, same, none_left), kept)
      ]

  run_configs-Idle :
      (plan : List (List ℕ × ℕ × W)) (machine : List ℕ → ℕ → RunAnswers)
      (results : List (RunRecord W)) (log : List (Act W))
      → Idle log
      → Idle (run_configs plan machine results log).0
  unfolding run_configs
  run_configs-Idle [] machine results log idle = idle
  run_configs-Idle ((mode, tokens, gpu_mem) ∷ rest) machine results log idle =
      let out = run_vllm mode tokens gpu_mem (machine mode tokens) log in
      let idle' = run_vllm-Idle mode tokens gpu_mem (machine mode tokens) log idle in
      elim (Option-cases (append_run out.1 results)) [
        | inl raised ↦ rw raised idle'
        | inr (results', e) ↦ rw e (run_configs-Idle rest machine results' out.0 idle')
      ]

  -- Started where no server runs and none was started beside another, this sweep starts each server
  -- when none runs, and none is left at the end, also if a server does not start or the script
  -- raises.
  pub complete_main-servers :
      (machine : List ℕ → ℕ → RunAnswers) (log : List (Act W))
      → alive log ≡ 0
      → OneByOne log
      → let out = complete_main machine log in (alive out.0 ≡ 0) × OneByOne out.0
  unfolding complete_main
  complete_main-servers machine log none_left fine =
      run_configs-Idle (with_modes configs) machine [] log (none_left, fine)

  -- The server becomes ready within the 60 rounds.
  abbrev pub Starts : RunAnswers → Type 0
  Starts a = (check_vllm_ready {W = W} a.models 60 []).1 ≡ true

  -- The memory can be read after the request of a run whose server starts.
  abbrev pub Measured : (List ℕ → ℕ → RunAnswers) → List ℕ × ℕ × W → Type 0
  Measured machine (mode, tokens, gpu_mem) =
      Starts (machine mode tokens)
      → (gb : W) × (get_vram_usage (machine mode tokens).smi_after ≡ some gb)

  -- Whether the server starts does not depend on what was done before.
  ready_from-log :
      (replies : ℕ → RunResult) (rounds k : ℕ) (log other : List (Act W))
      → (ready_from replies rounds k log).1 ≡ (ready_from replies rounds k other).1
  unfolding ready_from
  ready_from-log replies zero k log other = refl
  ready_from-log replies (suc rounds) k log other = elim (Bool-cases (lists_models (replies k))) [
    | inl on ↦ rw on refl
    | inr off ↦ rw off (ready_from-log replies rounds (suc k) (paused 1 ∷ log) (paused 1 ∷ other))
  ]

  -- What becomes of a run's result.
  abbrev Step : (List ℕ → ℕ → RunAnswers) → List ℕ × ℕ × W → Option (List (RunRecord W)) → Type 0
  Step machine c out =
      ((rs : List (RunRecord W)) × (out ≡ some rs) × Measured machine c)
      ⊎ ((out ≡ none) × ¬ Measured machine c)

  run_vllm-Step :
      (machine : List ℕ → ℕ → RunAnswers) (c : List ℕ × ℕ × W) (log : List (Act W))
      (results : List (RunRecord W))
      → Step machine c (append_run (run_vllm c.0 c.1 c.2 (machine c.0 c.1) log).1 results)
  unfolding run_vllm run_record check_vllm_ready
  run_vllm-Step machine (mode, tokens, gpu_mem) log results =
      let a = machine mode tokens in
      let l = complete_launch mode gpu_mem in
      let begun : List (Act W) = launched l ∷ clean_cache l.cache_dir log in
      let same = ready_from-log a.models 60 0 begun [] in
      elim (Bool-cases (ready_from a.models 60 0 begun).1) [
        | inr down ↦ rw down (inl (results, refl, λ starts. let e = sym down ∙ same ∙ starts in cc))
        | inl up ↦ elim (Option-cases (get_vram_usage {W = W} a.smi_after)) [
          | inl missing ↦
              rw (up, missing)
                (inr (
                  refl,
                  λ measured. let (gb, impossible) = measured (sym same ∙ up) in cc impossible,
                ))
          | inr (gb, e) ↦ rw (up, e) (inl (_, refl, λ starts. (gb, refl)))
        ]
      ]

  abbrev Finishes : List (Act W) × Option (List (RunRecord W)) → Type 0
  Finishes out = (rs : List (RunRecord W)) × (out.1 ≡ some rs)

  run_configs-Finishes :
      (plan : List (List ℕ × ℕ × W)) (machine : List ℕ → ℕ → RunAnswers)
      (results : List (RunRecord W)) (log : List (Act W))
      → Finishes (run_configs plan machine results log) ↔ All (Measured machine) plan
  unfolding run_configs
  run_configs-Finishes [] machine results log = (λ _. tt, λ _. (results, refl))
  run_configs-Finishes ((mode, tokens, gpu_mem) ∷ rest) machine results log =
      let out = run_vllm mode tokens gpu_mem (machine mode tokens) log in
      elim (run_vllm-Step machine (mode, tokens, gpu_mem) log results) [
        | inl (rs, e, measured) ↦
            let later = run_configs-Finishes rest machine rs out.0 in
            rw e (λ h. (measured, later.0 h), λ h. later.1 h.1)
        | inr (e, never) ↦
            rw e (λ h. let impossible = h.1 in cc impossible, λ h. absurd (never h.0))
      ]

  -- The script gets to the results that it saves exactly if, for every run whose server starts, the
  -- memory can be read after the request; else printing it raises, and the results so far are lost.
  pub complete_main-finishes :
      (machine : List ℕ → ℕ → RunAnswers) (log : List (Act W))
      → ((rs : List (RunRecord W)) × ((complete_main machine log).1 ≡ some rs))
        ↔ All (Measured machine) (with_modes configs)
  unfolding complete_main
  complete_main-finishes machine log = run_configs-Finishes (with_modes configs) machine [] log
