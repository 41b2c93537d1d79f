-- ===== src/Direct.antt =====
-- tkdgjs/experiment/direct_vram_test.py: both modes with nvidia-smi polled from a thread. Times are
-- whole milliseconds.
pub mod Sampled
pub mod Reports
use cachegen_plus.Base.{
  ℕ, zero, suc, ◌+◌, ◌-◌, Bool, true, false, List, [], ◌∷◌, ◌++◌, map, Option, none, some, ltb,
  ◌==◌, if◌then◌else◌, ◌>>=◌, or_default, length,
}
use cachegen_plus.Base.Int.{pos}
use cachegen_plus.Float.{Float, ◌⊖◌, ◌⊘◌, max_list}
use cachegen_plus.Text.{codes, strip}
use cachegen_plus.Answer.{RunResult, run_raised, exited, HttpReply}
use cachegen_plus.Server.{wait_for_vllm, is_ready, experiment_dir, same_codes}
use cachegen_plus.Vram.Legacy.{min_list}

-- What the script does to the machine.
pub data DirectAct : Type 0 where
  -- `pkill -9 -f vllm`
  pkilled : DirectAct
  -- `subprocess.Popen` of a server with this `LMCACHE_CONFIG_FILE`
  served : List ℕ → DirectAct
  -- `proc.kill()` of the server that was started last
  proc_killed : DirectAct
  -- `time.sleep`, in seconds
  waited : ℕ → DirectAct
  -- a request was sent, and whether it was a success
  posted : Bool → DirectAct

pub record DirectSample (W : Type 0) : Type 0 where
  pub time : ℕ
  pub used_mb : W
  pub used_gb : W

-- The dict of `run_test`.
pub record DirectResult (W : Type 0) : Type 0 where
  pub mode : List ℕ
  pub baseline_gb : W
  pub min_gb : W
  pub max_gb : W
  pub peak_increase_gb : W
  pub sample_count : ℕ

-- What the machine answers during one test. The clock of `monitor_vram` is what `time.time()`
-- returns at the test of each round, and `taken` what it returns after the call of nvidia-smi in it.
pub record DirectAnswers : Type 0 where
  pub clock : ℕ → ℕ
  pub replies : ℕ → HttpReply
  pub baseline : RunResult
  pub monitor_start : ℕ
  pub monitor_clock : ℕ → ℕ
  pub taken : ℕ → ℕ
  pub polls : ℕ → RunResult
  pub post : HttpReply

-- What the comparison of `main` prints.
pub data Usage : Type 0 where
  more less same : Usage

-- What a round adds, before what the later ones do. The outer `none` means that the fuel ran out,
-- the inner one is an exception, which ends the thread with no list.
abbrev pub added :
    {A : Type 0} → Option (List A) → Option (Option (List A)) → Option (Option (List A))
added none later = some none
added (some xs) none = none
added (some xs) (some none) = some none
added (some xs) (some (some ys)) = some (some (xs ++ ys))

-- `samples` after the thread: it stays empty where `monitor_vram` raised.
abbrev pub assigned : {A : Type 0} → Option (Option (List A)) → List A
assigned none = []
assigned (some none) = []
assigned (some (some xs)) = xs

unfoldable pub direct_config : List ℕ → List ℕ
direct_config mode =
    experiment_dir
    ++ codes "/lmcache_"
    ++ (if same_codes mode (codes "cachegen") then codes "cachegen" else codes "torch")
    ++ codes ".yaml"

abbrev pub direct_started : List ℕ → List DirectAct → List DirectAct
direct_started mode log = waited 30 ∷ served (direct_config mode) ∷ waited 3 ∷ pkilled ∷ log

-- `wait_for_vllm`, whose timeout is 180 s
unfoldable pub direct_ready : DirectAnswers → Bool
direct_ready a = or_default false (wait_for_vllm a.clock a.replies (a.clock 0) 180000 91)

module _ {W : Type 0} ⦃f : Float W⦄ where
  abbrev pub sample_at : ℕ → W → DirectSample W
  sample_at time mb = record { time = time; used_mb = mb; used_gb = mb ⊘ f.of_int (pos 1024) }

  -- One call of nvidia-smi, with the time after it. `none` is an exception: that of a call of more
  -- than a second, or that of a text which is no number.
  unfoldable pub polled : ℕ → RunResult → Option (List (DirectSample W))
  polled time run_raised = none
  polled time (exited code out) =
      if code == 0 then (f.parse (strip out) >>= λ mb. some (sample_at time mb ∷ [])) else some []

  -- `monitor_vram` from its round `k` on, with fuel.
  unfoldable pub monitor_from :
      (ℕ → ℕ) → (ℕ → ℕ) → (ℕ → RunResult) → ℕ → ℕ → ℕ → ℕ → Option (Option (List (DirectSample W)))
  monitor_from clock taken polls start duration zero k = none
  monitor_from clock taken polls start duration (suc fuel) k =
      let later = monitor_from clock taken polls start duration fuel (suc k) in
      if ltb (clock k - start) duration
      then added (polled (taken k - start) (polls k)) later
      else some (some [])

  -- `monitor_vram(duration=20, interval=0.005)` in the thread of a test
  unfoldable pub monitor_vram : DirectAnswers → Option (Option (List (DirectSample W)))
  monitor_vram a = monitor_from a.monitor_clock a.taken a.polls a.monitor_start 20000 4001 0

  -- The use of the memory before the request, in MB; `none` is an exception.
  unfoldable pub baseline_mb : RunResult → Option W
  baseline_mb run_raised = none
  baseline_mb (exited code out) = f.parse (strip out)

  unfoldable pub direct_result : List ℕ → W → List (DirectSample W) → Option (DirectResult W)
  direct_result mode mb [] = none
  direct_result mode mb (s ∷ ss) =
      let rest = map (λ (t : DirectSample W). t.used_gb) ss in
      let min_gb = min_list s.used_gb rest in
      let max_gb = max_list s.used_gb rest in
      some (record {
        mode = mode;
        baseline_gb = mb ⊘ f.of_int (pos 1024);
        min_gb = min_gb;
        max_gb = max_gb;
        peak_increase_gb = max_gb ⊖ min_gb;
        sample_count = length (s ∷ ss);
      })

  abbrev pub after_baseline :
      List ℕ
      → DirectAnswers
      → List DirectAct
      → Option W
      → List DirectAct × Option (Option (DirectResult W))
  after_baseline mode a log none = (log, none)
  after_baseline mode a log (some mb) = (
    proc_killed ∷ posted (is_ready a.post) ∷ waited 1 ∷ log,
    some (direct_result mode mb (assigned (monitor_vram a))),
  )

  -- `run_test`: the outer `none` is an exception, the inner one the `None` that it returns.
  unfoldable pub direct_test :
      List ℕ → DirectAnswers → List DirectAct → List DirectAct × Option (Option (DirectResult W))
  direct_test mode a log =
      let measured = after_baseline mode a (direct_started mode log) (baseline_mb a.baseline) in
      if direct_ready a then measured else (proc_killed ∷ direct_started mode log, some none)

  unfoldable pub compare_results : DirectResult W → DirectResult W → Usage
  compare_results native cachegen =
      let diff = cachegen.peak_increase_gb ⊖ native.peak_increase_gb in
      if f.lt (f.decimal 1 1) diff
      then more
      else (if f.lt diff (f.nought ⊖ f.decimal 1 1) then less else same)

  abbrev pub compared : Option (DirectResult W) → Option (DirectResult W) → Option Usage
  compared none cachegen = none
  compared (some native) none = none
  compared (some native) (some cachegen) = some (compare_results native cachegen)

  abbrev pub after_cachegen :
      Option (DirectResult W)
      → List DirectAct × Option (Option (DirectResult W))
      → List DirectAct × Option (Option Usage)
  after_cachegen native (log, none) = (log, none)
  after_cachegen native (log, some cachegen) = (log, some (compared native cachegen))

  abbrev pub after_native :
      DirectAnswers
      → List DirectAct × Option (Option (DirectResult W))
      → List DirectAct × Option (Option Usage)
  after_native b (log, none) = (log, none)
  after_native b (log, some native) =
      after_cachegen native (direct_test (codes "cachegen") b (waited 10 ∷ log))

-- `main`: the outer `none` is an exception, the inner one no comparison.
unfoldable pub direct_main :
    (W : Type 0) ⦃f : Float W⦄
    → DirectAnswers
    → DirectAnswers
    → List DirectAct
    → List DirectAct × Option (Option Usage)
direct_main W a b log = after_native {W = W} b (direct_test (codes "native") a log)
