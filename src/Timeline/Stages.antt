-- ===== src/Timeline/Stages.antt =====
-- The stage that `check_oom_in_log` names.
use cachegen_plus.Base.{ℕ, ◌≡◌, true, List}
use cachegen_plus.Text.{codes, lower}
use cachegen_plus.Text.Substring.{occurs_in, occurs_in-append}
use cachegen_plus.Timeline.{content, check_oom_in_log}

-- A log that reports a CUDA out-of-memory error during compression is put down to the startup: the
-- first pattern of the first stage is a part of that message, in any case of its letters.
pub check_oom_in_log-startup :
    (text : List ℕ)
    → occurs_in (lower (codes "CUDA out of memory during compression")) (lower text) ≡ true
    → check_oom_in_log (content text) ≡ (true, codes "startup")
unfolding check_oom_in_log
check_oom_in_log-startup text h =
    let early =
      occurs_in-append (lower (codes "CUDA out of memory")) (codes " during compression")
        (lower text) h in
    rw early
