-- ===== src/Resume/Plan/Keys.antt =====
-- Which experiments a resumed sweep runs.
use mathlib.Core.Path.{subst}
use cachegen_plus.Base.{
  ℕ, ◌≡◌, refl, sym, ap, ◌∙◌, true, false, List, [], ◌∷◌, ◌++◌, some, All, Bool-cases, inl, inr,
}
use cachegen_plus.Float.{Float}
use cachegen_plus.Text.{codes}
use cachegen_plus.Text.Pattern.{search_first}
use cachegen_plus.Server.Paths.{same_codes_iff}
use cachegen_plus.Complete.Probe.{Act}
use cachegen_plus.Resume.Startup.{Startup, died, ready, timed_out}
use cachegen_plus.Resume.Run.{
  ResumeAnswers, Attempt, CurlOutcome, curl_timeout, curl_raised, curl_exited, after_curl,
  after_startup, run_experiment,
}
use cachegen_plus.Resume.Plan.{
  SafeConfig, Entry, key_of, is_key, has_key, out_of_memory, try_config, run_phase, safe_configs,
  resume_main,
}

module _ (W : Type 0) ⦃f : Float W⦄ where
  -- No error that `run_experiment` reports holds "oom".
  after_curl-goes_on :
      (mode : List ℕ) (tokens : ℕ) (a : ResumeAnswers) (log : List (Act W)) (c : CurlOutcome)
      → out_of_memory (after_curl mode tokens a log c).1 ≡ false
  unfolding out_of_memory
  after_curl-goes_on mode tokens a log curl_timeout = refl
  after_curl-goes_on mode tokens a log (curl_raised message) = refl
  after_curl-goes_on mode tokens a log (curl_exited code) = refl

  after_startup-goes_on :
      (mode : List ℕ) (tokens : ℕ) (a : ResumeAnswers) (s : List (Act W) × Startup)
      → out_of_memory (after_startup mode tokens a s).1 ≡ false
  unfolding out_of_memory search_first
  after_startup-goes_on mode tokens a (log, died) = refl
  after_startup-goes_on mode tokens a (log, timed_out) = refl
  after_startup-goes_on mode tokens a (log, ready) = after_curl-goes_on mode tokens a _ a.request

  run_experiment-goes_on :
      (mode : List ℕ) (tokens : ℕ) (gpu_mem : W) (a : ResumeAnswers) (log : List (Act W))
      → out_of_memory (run_experiment mode tokens gpu_mem a log).1 ≡ false
  unfolding run_experiment
  run_experiment-goes_on mode tokens gpu_mem a log = after_startup-goes_on mode tokens a _

  try_config-goes_on :
      (mode : List ℕ) (machine : SafeConfig W → ResumeAnswers) (c : SafeConfig W)
      (log : List (Act W)) (results : List (Entry W))
      → (try_config mode machine c log results).stopped ≡ false
  unfolding try_config
  try_config-goes_on mode machine c log results =
      elim (Bool-cases (has_key (key_of mode c) results)) [
        | inl known ↦ rw known refl
        | inr fresh ↦ rw fresh (run_experiment-goes_on mode c.tokens c.gpu_mem (machine c) log)
      ]

  -- More entries keep a key, and an entry has its own.
  has_key-append :
      (key : List ℕ) (xs ys : List (Entry W))
      → has_key key xs ≡ true
      → has_key key (xs ++ ys) ≡ true
  unfolding has_key
  has_key-append key [] ys = λ h. cc
  has_key-append key (x ∷ xs) ys = elim (Bool-cases (is_key key x.key)) [
    | inl here ↦ rw here (λ h. refl)
    | inr there ↦ rw there (λ h. has_key-append key xs ys h)
  ]

  has_key-last :
      (key : List ℕ) (xs : List (Entry W)) (a : Attempt W)
      → has_key key (xs ++ record { key = some key; attempt = a } ∷ []) ≡ true
  unfolding has_key
  has_key-last key [] a = rw ((same_codes_iff key key).1 refl) refl
  has_key-last key (x ∷ xs) a = elim (Bool-cases (is_key key x.key)) [
    | inl here ↦ rw here refl
    | inr there ↦ rw there (has_key-last key xs a)
  ]

  try_config-keeps :
      (mode : List ℕ) (machine : SafeConfig W → ResumeAnswers) (c : SafeConfig W)
      (log : List (Act W)) (results : List (Entry W)) (key : List ℕ)
      → has_key key results ≡ true
      → has_key key (try_config mode machine c log results).results ≡ true
  unfolding try_config
  try_config-keeps mode machine c log results key h =
      elim (Bool-cases (has_key (key_of mode c) results)) [
        | inl known ↦ rw known h
        | inr fresh ↦ rw fresh (has_key-append key results _ h)
      ]

  try_config-adds :
      (mode : List ℕ) (machine : SafeConfig W → ResumeAnswers) (c : SafeConfig W)
      (log : List (Act W)) (results : List (Entry W))
      → has_key (key_of mode c) (try_config mode machine c log results).results ≡ true
  unfolding try_config
  try_config-adds mode machine c log results = elim (Bool-cases (has_key (key_of mode c) results)) [
    | inl known ↦ rw known known
    | inr fresh ↦ rw fresh (has_key-last (key_of mode c) results _)
  ]

  -- No turn ends the loop.
  run_phase_next :
      (mode : List ℕ) (machine : SafeConfig W → ResumeAnswers) (c : SafeConfig W)
      (cs : List (SafeConfig W)) (log : List (Act W)) (results : List (Entry W))
      → let p = try_config mode machine c log results in
        run_phase mode machine (c ∷ cs) log results ≡ run_phase mode machine cs p.log p.results
  unfolding run_phase
  run_phase_next mode machine c cs log results = rw (try_config-goes_on mode machine c log results)

  run_phase-keeps :
      (mode : List ℕ) (machine : SafeConfig W → ResumeAnswers) (cs : List (SafeConfig W))
      (log : List (Act W)) (results : List (Entry W)) (key : List ℕ)
      → has_key key results ≡ true
      → has_key key (run_phase mode machine cs log results).1 ≡ true
  unfolding run_phase
  run_phase-keeps mode machine [] log results key h = h
  run_phase-keeps mode machine (c ∷ cs) log results key h =
      let p = try_config mode machine c log results in
      ap (λ out. has_key key out.1) (run_phase_next mode machine c cs log results)
      ∙ run_phase-keeps mode machine cs p.log p.results key
          (try_config-keeps mode machine c log results key h)

  run_phase-adds :
      (mode : List ℕ) (machine : SafeConfig W → ResumeAnswers) (cs : List (SafeConfig W))
      (log : List (Act W)) (results : List (Entry W))
      → All (λ c. has_key (key_of mode c) (run_phase mode machine cs log results).1 ≡ true) cs
  run_phase-adds mode machine [] log results = tt
  run_phase-adds mode machine (c ∷ cs) log results =
      let p = try_config mode machine c log results in
      subst (λ out. All (λ d. has_key (key_of mode d) out.1 ≡ true) (c ∷ cs))
        (sym (run_phase_next mode machine c cs log results))
        (
          run_phase-keeps mode machine cs p.log p.results (key_of mode c)
              (try_config-adds mode machine c log results),
          run_phase-adds mode machine cs p.log p.results,
        )

  -- A phase whose keys are all there does nothing.
  run_phase-skips :
      (mode : List ℕ) (machine : SafeConfig W → ResumeAnswers) (cs : List (SafeConfig W))
      (log : List (Act W)) (results : List (Entry W))
      → All (λ c. has_key (key_of mode c) results ≡ true) cs
      → run_phase mode machine cs log results ≡ (log, results)
  unfolding run_phase try_config
  run_phase-skips mode machine [] log results all = refl
  run_phase-skips mode machine (c ∷ cs) log results (known, all) =
      rw known (run_phase-skips mode machine cs log results all)

  All-keeps :
      (mode other : List ℕ) (machine : SafeConfig W → ResumeAnswers) (cs ds : List (SafeConfig W))
      (log : List (Act W)) (results : List (Entry W))
      → All (λ c. has_key (key_of mode c) results ≡ true) ds
      → All (λ c. has_key (key_of mode c) (run_phase other machine cs log results).1 ≡ true) ds
  All-keeps mode other machine cs [] log results all = tt
  All-keeps mode other machine cs (d ∷ ds) log results (h, all) = (
    run_phase-keeps other machine cs log results (key_of mode d) h,
    All-keeps mode other machine cs ds log results all,
  )

  -- Whatever fails or raises, the saved results have an entry for every safe configuration in both
  -- modes: no experiment ends a phase early, as no error that is reported holds "oom".
  pub resume_main-keys :
      (machine : List ℕ → SafeConfig W → ResumeAnswers) (log : List (Act W))
      (loaded : List (Entry W))
      → let results = (resume_main machine log loaded).1 in
        All
          (λ (c : SafeConfig W). has_key (key_of (codes "cachegen") c) results ≡ true)
          safe_configs
        × All
            (λ (c : SafeConfig W). has_key (key_of (codes "native") c) results ≡ true)
            safe_configs
  unfolding resume_main
  resume_main-keys machine log loaded =
      let first =
        run_phase (codes "cachegen") (machine (codes "cachegen")) safe_configs log loaded in
      (
        All-keeps (codes "cachegen") (codes "native") (machine (codes "native")) safe_configs
            safe_configs first.0 first.1
            (run_phase-adds (codes "cachegen") (machine (codes "cachegen")) safe_configs log
              loaded),
        run_phase-adds (codes "native") (machine (codes "native")) safe_configs first.0 first.1,
      )

  -- A second run from the results of the first runs nothing and changes nothing, also on a machine
  -- that answers otherwise: experiments that failed are not tried again.
  pub resume_main-again :
      (machine other : List ℕ → SafeConfig W → ResumeAnswers) (log later : List (Act W))
      (loaded : List (Entry W))
      → let results = (resume_main machine log loaded).1 in
        resume_main other later results ≡ (later, results)
  unfolding resume_main
  resume_main-again machine other log later loaded =
      let (cachegen, native) = resume_main-keys machine log loaded in
      let results = (resume_main machine log loaded).1 in
      ap (λ p. run_phase (codes "native") (other (codes "native")) safe_configs p.0 p.1)
        (run_phase-skips (codes "cachegen") (other (codes "cachegen")) safe_configs later results
          cachegen)
      ∙ run_phase-skips (codes "native") (other (codes "native")) safe_configs later results native
