-- ===== src/Watch.antt =====
-- tkdgjs/experiment/vram_monitor.py: a monitor that samples nvidia-smi from threads of its own. Each
-- `start` makes a thread; the main thread comes between any two of their steps.
pub mod Pending
pub mod Stats
use cachegen_plus.Base.{
  ℕ, zero, suc, Bool, true, false, List, [], ◌∷◌, ◌++◌, map, Option, none, some, ◌==◌,
  if◌then◌else◌, get_elem?, length,
}
use cachegen_plus.Base.Int.{ℤ, pos, ◌-ℤ◌, ltb_ℤ}
use cachegen_plus.Float.{Float, ◌⊖◌, ◌⊘◌}
use cachegen_plus.Text.{strip}
use cachegen_plus.Answer.{RunResult, run_raised, exited}
use cachegen_plus.Resume.Run.{int_of}

pub record WatchSample (W : Type 0) : Type 0 where
  pub elapsed_sec : W
  pub timestamp : W
  pub vram_mb : ℤ
  pub vram_gb : W

-- Where a thread stands in `monitor_loop`: before the test of the flag, in `get_vram`, in the sleep,
-- or after the loop.
pub data WatchPhase : Type 0 where
  testing getting sleeping over : WatchPhase

pub record Watch (W : Type 0) : Type 0 where
  pub running : Bool
  pub samples : List (WatchSample W)
  pub start_time : W
  pub threads : List WatchPhase

-- The answer of nvidia-smi, and the two times that are taken after it.
pub record WatchReading (W : Type 0) : Type 0 where
  pub smi : RunResult
  pub first_time : W
  pub second_time : W

abbrev negated : Option ℕ → Option ℤ
negated none = none
negated (some n) = some (pos 0 -ℤ pos n)

abbrev positive : Option ℕ → Option ℤ
positive none = none
positive (some n) = some (pos n)

-- `int(text)` with a sign; `none` is a `ValueError`
unfoldable pub signed_int : List ℕ → Option ℤ
signed_int [] = none
signed_int (c ∷ cs) =
    if c == b'-'
    then negated (int_of cs)
    else (if c == b'+' then positive (int_of cs) else positive (int_of (c ∷ cs)))

-- `get_vram`, which does not look at the exit status
unfoldable pub get_vram : RunResult → Option ℤ
get_vram run_raised = none
get_vram (exited code out) = signed_int (strip out)

abbrev pub set_elem : List WatchPhase → ℕ → WatchPhase → List WatchPhase
set_elem [] i q = []
set_elem (p ∷ ps) zero q = q ∷ ps
set_elem (p ∷ ps) (suc i) q = p ∷ set_elem ps i q

-- `max(a, b)` and `min(a, b)` of two ints
abbrev pub bigger : ℤ → ℤ → ℤ
bigger a b = if ltb_ℤ a b then b else a

abbrev pub smaller : ℤ → ℤ → ℤ
smaller a b = if ltb_ℤ b a then b else a

-- `max` and `min` of a list whose first item is `a`
unfoldable pub max_int : ℤ → List ℤ → ℤ
max_int a [] = a
max_int a (b ∷ bs) = max_int (bigger a b) bs

unfoldable pub min_int : ℤ → List ℤ → ℤ
min_int a [] = a
min_int a (b ∷ bs) = min_int (smaller a b) bs

pub record WatchStats (W : Type 0) : Type 0 where
  pub min_mb : ℤ
  pub max_mb : ℤ
  pub peak_gb : W
  pub sample_count : ℕ

module _ {W : Type 0} ⦃f : Float W⦄ where
  unfoldable pub new_watch : Watch W
  new_watch = record { running = false; samples = []; start_time = f.nought; threads = [] }

  abbrev pub add_vram : WatchReading W → Option ℤ → Watch W → List (WatchSample W)
  add_vram r none m = m.samples
  add_vram r (some vram) m =
      m.samples
      ++ record {
        elapsed_sec = f.round (r.first_time ⊖ m.start_time) 3;
        timestamp = r.second_time;
        vram_mb = vram;
        vram_gb = f.round (f.of_int vram ⊘ f.of_int (pos 1024)) 2;
      }
        ∷ []

  -- A step of the thread `i`, which stands at the given phase.
  abbrev pub watch_phase_step : ℕ → WatchReading W → WatchPhase → Watch W → Watch W
  watch_phase_step i r testing m = record m {
    threads = set_elem m.threads i (if m.running then getting else over);
  }
  watch_phase_step i r getting m = record m {
    threads = set_elem m.threads i sleeping;
    samples = add_vram r (get_vram r.smi) m;
  }
  watch_phase_step i r sleeping m = record m { threads = set_elem m.threads i testing }
  watch_phase_step i r over m = m

  abbrev pub at_thread : ℕ → WatchReading W → Option WatchPhase → Watch W → Watch W
  at_thread i r none m = m
  at_thread i r (some p) m = watch_phase_step i r p m

  unfoldable pub watch_step : ℕ → WatchReading W → Watch W → Watch W
  watch_step i r m = at_thread i r (get_elem? m.threads i) m

  unfoldable pub watch_steps : List (ℕ × WatchReading W) → Watch W → Watch W
  watch_steps [] m = m
  watch_steps ((i, r) ∷ rest) m = watch_steps rest (watch_step i r m)

  unfoldable pub watch_start : W → Watch W → Watch W
  watch_start now m = record m {
    running = true;
    start_time = now;
    threads = m.threads ++ testing ∷ [];
  }

  -- `stop`; its `join` waits for two seconds at most, so the thread may still be in `get_vram`.
  unfoldable pub watch_stop : Watch W → Watch W
  watch_stop m = record m { running = false }

  abbrev pub watch_stats_of : List ℤ → Option (WatchStats W)
  watch_stats_of [] = none
  watch_stats_of (v ∷ vs) = some (record {
    min_mb = min_int v vs;
    max_mb = max_int v vs;
    peak_gb = f.of_int (max_int v vs) ⊘ f.of_int (pos 1024);
    sample_count = length (v ∷ vs);
  })

  -- `none` is the empty dict.
  unfoldable pub watch_stats : Watch W → Option (WatchStats W)
  watch_stats m = watch_stats_of (map (λ s. s.vram_mb) m.samples)

  -- The main program, with the steps of the thread during the sleep, until the file is written and
  -- until the statistics are taken: the samples in the file and the statistics.
  unfoldable pub watch_main :
      W
      → List (ℕ × WatchReading W)
      → List (ℕ × WatchReading W)
      → List (ℕ × WatchReading W)
      → List (WatchSample W) × Option (WatchStats W)
  watch_main now during joined late =
      let saved =
        watch_steps joined (watch_stop (watch_steps during (watch_start now new_watch))) in
      (saved.samples, watch_stats (watch_steps late saved))
