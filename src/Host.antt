-- ===== src/Host.antt =====
-- What the scripts do to the machine, as a log of events with the latest first.
use cachegen_plus.Base.{ℕ, suc, ◌≡◌, List, [], ◌∷◌}
use cachegen_plus.Server.{Launch}

pub data Event : Type 0 where
  -- `pkill -f` of the servers
  killed : Event
  -- `subprocess.Popen` of a server
  spawned : Launch → Event
  -- `time.sleep`, in seconds
  slept : ℕ → Event
  -- the cache directory with this path was cleared or made
  cleared : List ℕ → Event
  -- a completion request with this many words was sent
  requested : ℕ → Event
  -- `nvidia-smi --gpu-reset`
  gpu_reset : Event
  -- a file with this path was written
  saved : List ℕ → Event

abbrev pub Log : Type 0
Log = List Event

-- The servers that the script has started and not killed.
abbrev pub running : Log → ℕ
running [] = 0
running (killed ∷ log) = 0
running (spawned l ∷ log) = suc (running log)
running (slept n ∷ log) = running log
running (cleared path ∷ log) = running log
running (requested n ∷ log) = running log
running (gpu_reset ∷ log) = running log
running (saved path ∷ log) = running log

-- No server is started while another is running.
abbrev pub AtMostOne : Log → Type 0
AtMostOne [] = Unit
AtMostOne (spawned l ∷ log) = (running log ≡ 0) × AtMostOne log
AtMostOne (killed ∷ log) = AtMostOne log
AtMostOne (slept n ∷ log) = AtMostOne log
AtMostOne (cleared path ∷ log) = AtMostOne log
AtMostOne (requested n ∷ log) = AtMostOne log
AtMostOne (gpu_reset ∷ log) = AtMostOne log
AtMostOne (saved path ∷ log) = AtMostOne log
