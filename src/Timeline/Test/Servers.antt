-- ===== src/Timeline/Test/Servers.antt =====
-- The servers of a sweep of tkdgjs/experiment/run_full_sweep.py.
use cachegen_plus.Base.{
  ℕ, suc, ◌-◌, ◌≡◌, refl, Bool, true, false, List, [], ◌∷◌, Option, none, some, Bool-cases, inl,
  inr,
}
use cachegen_plus.Float.{Float}
use cachegen_plus.Disk.{Node}
use cachegen_plus.Timeline.{check_oom_in_log}
use cachegen_plus.Timeline.Probe.{clear_disk_cache, send_request}
use cachegen_plus.Timeline.Test.{
  Case, TimelineAct, vllm_killed, engine_killed, paused, cache_cleared, server_started, prompted,
  server_killed, World, TimelineAnswers, Reading, server_ready, cleanup_gpu, log_oom_event,
  request_oom, start_test, send_prompt, after_clear, run_timeline_test,
}

-- The servers that the script has started and not killed.
abbrev pub timeline_alive : List TimelineAct → ℕ
timeline_alive [] = 0
timeline_alive (vllm_killed ∷ acts) = 0
timeline_alive (server_killed ∷ acts) = timeline_alive acts - 1
timeline_alive (server_started l ∷ acts) = suc (timeline_alive acts)
timeline_alive (engine_killed ∷ acts) = timeline_alive acts
timeline_alive (paused n ∷ acts) = timeline_alive acts
timeline_alive (cache_cleared path ∷ acts) = timeline_alive acts
timeline_alive (prompted n ∷ acts) = timeline_alive acts

-- A server is only started when none runs, and the cache is only cleared and a request only sent
-- when none or one does.
abbrev pub InTurn : List TimelineAct → Type 0
InTurn [] = Unit
InTurn (server_started l ∷ acts) = (timeline_alive acts ≡ 0) × InTurn acts
InTurn (cache_cleared path ∷ acts) = (timeline_alive acts ≡ 0) × InTurn acts
InTurn (prompted n ∷ acts) = (timeline_alive acts ≡ 1) × InTurn acts
InTurn (vllm_killed ∷ acts) = InTurn acts
InTurn (engine_killed ∷ acts) = InTurn acts
InTurn (server_killed ∷ acts) = (timeline_alive acts ≡ 1) × InTurn acts
InTurn (paused n ∷ acts) = InTurn acts

abbrev pub Idle : List TimelineAct → Type 0
Idle acts = (timeline_alive acts ≡ 0) × InTurn acts

module _ (W : Type 0) ⦃f : Float W⦄ where
  log_oom_event-acts :
      (c : Case W) (r : Reading W) (found : Bool × List ℕ) (w : World W)
      → (log_oom_event c r found w).acts ≡ w.acts
  log_oom_event-acts c r (true, stage) w = refl
  log_oom_event-acts c r (false, stage) w = refl

  after_clear-Idle :
      (c : Case W) (a : TimelineAnswers W) (w : World W) (left : Option Node)
      → Idle w.acts
      → Idle (after_clear c a w left).0.acts
  after_clear-Idle c a w none idle = idle
  after_clear-Idle c a w (some left) (zero_left, fine) =
      let begun = start_test c a w in
      elim (Bool-cases (server_ready a)) [
        | inl up ↦
            let sent = send_request a.request a.request_start a.request_end in
            let same =
              log_oom_event-acts c a.at_oom (request_oom sent.0 a.log_searched)
                (send_prompt c a begun) in
            rw (up, same, zero_left) (refl, (refl, (refl, (refl, (refl, fine)))))
        | inr down ↦
            let same = log_oom_event-acts c a.at_oom (check_oom_in_log a.log_searched) begun in
            rw (down, same, zero_left) (refl, (refl, (refl, (refl, fine))))
      ]

  pub run_timeline_test-Idle :
      (c : Case W) (a : TimelineAnswers W) (w : World W)
      → InTurn w.acts
      → Idle (run_timeline_test c a w).0.acts
  unfolding run_timeline_test cleanup_gpu
  run_timeline_test-Idle c a w fine =
      after_clear-Idle c a _ (clear_disk_cache a.disk_found) (refl, fine)
