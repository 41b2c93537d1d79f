-- ===== src/Timeline.antt =====
-- tkdgjs/experiment/run_full_sweep.py, part by part. Here: `check_oom_in_log`.
pub mod Stages
pub mod Probe
pub mod Test
pub mod Plan
pub mod Compare
use cachegen_plus.Base.{ℕ, Bool, true, false, List, [], ◌∷◌, if◌then◌else◌}
use cachegen_plus.Text.{codes, lower}
use cachegen_plus.Text.Substring.{occurs_in}

-- The log file of the server.
pub data LogFile : Type 0 where
  missing : LogFile
  unreadable : LogFile
  content : List ℕ → LogFile

-- `oom_stages`, in its order.
abbrev pub oom_stages : List (List ℕ × List (List ℕ))
oom_stages =
    (codes "startup", codes "CUDA out of memory" ∷ codes "OOM during initialization" ∷ [])
    ∷ (
      codes "request",
      codes "CUDA out of memory" ∷ codes "out of memory" ∷ codes "OutOfMemoryError" ∷ [],
    )
    ∷ (
      codes "compression",
      codes "CUDA out of memory during compression" ∷ codes "OOM during compression" ∷ [],
    )
    ∷ []

-- The inner loop, over the patterns of one stage.
abbrev pub any_occurs : List (List ℕ) → List ℕ → Bool
any_occurs [] text = false
any_occurs (pattern ∷ patterns) text =
    let rest = any_occurs patterns text in
    if occurs_in (lower pattern) (lower text) then true else rest

abbrev pub find_stage : List (List ℕ × List (List ℕ)) → List ℕ → Bool × List ℕ
find_stage [] text = (false, codes "none")
find_stage ((stage, patterns) ∷ stages) text =
    let rest = find_stage stages text in if any_occurs patterns text then (true, stage) else rest

unfoldable pub check_oom_in_log : LogFile → Bool × List ℕ
check_oom_in_log missing = (false, codes "unknown")
check_oom_in_log unreadable = (false, codes "none")
check_oom_in_log (content text) = find_stage oom_stages text
