-- ===== src/Timeline/Test/Samples.antt =====
-- What `run_timeline_test` writes to the two logs against the dict that it returns.
use mathlib.Core.Path.{subst}
use mathlib.Core.Option.{some-injective}
use mathlib.Core.List.{append_assoc, append-nil, map-append}
use cachegen_plus.Base.{
  ℕ, ◌≡◌, refl, sym, Bool, true, false, List, [], ◌∷◌, ◌++◌, map, Option, none, some, Bool-cases,
  inl, inr,
}
use cachegen_plus.Float.{Float}
use cachegen_plus.Text.{codes}
use cachegen_plus.Disk.{Node}
use cachegen_plus.Timeline.{check_oom_in_log}
use cachegen_plus.Timeline.Probe.{clear_disk_cache, send_request}
use cachegen_plus.Timeline.Test.{
  Case, TestResult, tested, not_ready, World, TimelineAnswers, VramRow, OomRow, Reading,
  server_ready, test_values, log_oom_event, request_oom, oom_found, start_test, send_prompt,
  request_test, give_up, after_clear, run_timeline_test,
}

module _ (W : Type 0) ⦃f : Float W⦄ where
  abbrev pub sampled : VramRow W → Case W × List ℕ × W
  sampled row = (row.of_case, row.stage, row.vram_gb)

  -- The readings of a result, by their stages.
  abbrev pub reported : TestResult W → List (Case W × List ℕ × W)
  reported (not_ready c oom stage vram) = (c, codes "before_start", vram) ∷ []
  reported (tested c v) =
      (c, codes "before_start", v.vram_before_start_gb)
      ∷ (c, codes "after_start", v.vram_after_start_gb)
      ∷ (c, codes "before_request", v.vram_before_request_gb)
      ∷ (c, codes "during_request", v.vram_during_request_gb)
      ∷ (c, codes "after_compression", v.vram_after_compression_gb)
      ∷ []

  abbrev pub sampled_oom : OomRow W → Case W × List ℕ
  sampled_oom row = (row.oom_case, row.oom_at)

  abbrev oom_of : Case W → Bool × List ℕ → List (Case W × List ℕ)
  oom_of c (false, stage) = []
  oom_of c (true, stage) = (c, stage) ∷ []

  -- The error of a result, if one was detected.
  abbrev pub reported_oom : TestResult W → List (Case W × List ℕ)
  reported_oom (not_ready c oom stage vram) = oom_of c (oom, stage)
  reported_oom (tested c v) = oom_of c (v.oom_detected, v.oom_stage)

  -- Both logs of a state.
  abbrev pub Logs : World W → List (Case W × List ℕ × W) → List (Case W × List ℕ) → Type 0
  Logs w rows ooms = (map sampled w.vram_rows ≡ rows) × (map sampled_oom w.oom_rows ≡ ooms)

  log_oom_event-vram_rows :
      (c : Case W) (r : Reading W) (found : Bool × List ℕ) (w : World W)
      → (log_oom_event c r found w).vram_rows ≡ w.vram_rows
  log_oom_event-vram_rows c r (true, stage) w = refl
  log_oom_event-vram_rows c r (false, stage) w = refl

  log_oom_event-oom_rows :
      (c : Case W) (r : Reading W) (found : Bool × List ℕ) (w : World W)
      → map sampled_oom (log_oom_event c r found w).oom_rows
        ≡ map sampled_oom w.oom_rows ++ oom_of c (oom_found found)
  log_oom_event-oom_rows c r (true, stage) w = map-append sampled_oom w.oom_rows _
  log_oom_event-oom_rows c r (false, stage) w = sym (append-nil _)

  -- A state with the rows of another and those of a result.
  abbrev pub Adds : World W → World W × TestResult W → Type 0
  Adds w out =
      Logs out.0 (map sampled w.vram_rows ++ reported out.1)
        (map sampled_oom w.oom_rows ++ reported_oom out.1)

  request_test-Adds :
      (c : Case W) (a : TimelineAnswers W) (w : World W)
      → Adds w (request_test c a (start_test c a w))
  unfolding test_values
  request_test-Adds c a w =
      let sent = send_request a.request a.request_start a.request_end in
      let oom = request_oom sent.0 a.log_searched in
      let before = send_prompt c a (start_test c a w) in
      (
        rw (log_oom_event-vram_rows c a.at_oom oom before)
            (simp (map-append sampled, append_assoc)),
        log_oom_event-oom_rows c a.at_oom oom before,
      )

  give_up-Adds :
      (c : Case W) (a : TimelineAnswers W) (w : World W) → Adds w (give_up c a (start_test c a w))
  give_up-Adds c a w =
      let found = check_oom_in_log a.log_searched in
      let before = start_test c a w in
      (
        rw (log_oom_event-vram_rows c a.at_oom found before) (map-append sampled w.vram_rows _),
        log_oom_event-oom_rows c a.at_oom found before,
      )

  after_clear-Adds :
      (c : Case W) (a : TimelineAnswers W) (w : World W) (left : Option Node) {r : TestResult W}
      → (after_clear c a w left).1 ≡ some r
      → Adds w ((after_clear c a w left).0, r)
  after_clear-Adds c a w none = λ e. cc
  after_clear-Adds c a w (some left) = elim (Bool-cases (server_ready a)) [
    | inl up ↦ rw up λ e.
        subst (λ x. Adds w ((request_test c a (start_test c a w)).0, x)) (some-injective _ _ e)
          (request_test-Adds c a w)
    | inr down ↦ rw down λ e.
        subst (λ x. Adds w ((give_up c a (start_test c a w)).0, x)) (some-injective _ _ e)
          (give_up-Adds c a w)
  ]

  -- A test that returns adds to the VRAM log one line for each reading of its dict, in the order of
  -- the stages, and to the log of errors one line with the stage of its dict exactly if the dict says
  -- that an error was detected.
  pub run_timeline_test-Adds :
      (c : Case W) (a : TimelineAnswers W) (w : World W) {r : TestResult W}
      → (run_timeline_test c a w).1 ≡ some r
      → Adds w ((run_timeline_test c a w).0, r)
  unfolding run_timeline_test
  run_timeline_test-Adds c a w e = after_clear-Adds c a _ (clear_disk_cache a.disk_found) e
