-- ===== src/Vram/Experiment/Cache.antt =====
-- The cache directory that `run_single_experiment` of tkdgjs/experiment/run_vram_experiment.py clears and
-- measures against the one in the configuration of its server.

use mathlib.Core.Path.{subst}
use cachegen_plus.Base.{
  ℕ, ◌≡◌, ◌≢◌, refl, ap, sym, ◌↔◌, ◌⊎◌, false, List, [], ◌∷◌, ◌++◌, Option, none, some,
  if◌then◌else◌, Bool-cases, inl, inr,
}
use cachegen_plus.Base.Int.{pos, ◌-ℤ◌}
use cachegen_plus.Float.{Float}
use cachegen_plus.Text.{codes}
use cachegen_plus.Text.Substring.{starts_with}
use cachegen_plus.Disk.{Node, get_disk_usage, clear_lmcache_disk}
use cachegen_plus.Host.{Log, killed, spawned, slept, cleared, requested, gpu_reset, saved}
use cachegen_plus.Server.{
  Launch, ConfigFile, same_codes, launch, config_lines, create_lmcache_config,
}
use cachegen_plus.Server.Paths.{same_codes_iff, disk_path-injective}
use cachegen_plus.Vram.Request.{RequestResult}
use cachegen_plus.Vram.Stats.{Stats}
use cachegen_plus.Vram.Experiment.{
  Answers, Outcome, start_failed, reported, Report, DiskReport, disk_report, report_of, waited,
  start_vllm, stop_vllm, measure_server, after_stats, after_request, after_clear,
  run_single_experiment,
}

-- The directory of a name.
abbrev pub cache_dir : List ℕ → List ℕ
cache_dir name = codes "/home/noslab-gpu/tkdgjs/experiment/lmcache_" ++ name ++ codes "_disk"

-- The directories that a log reports as cleared, and the servers that it reports as started, the
-- latest first.
abbrev pub cleared_in : Log → List (List ℕ)
cleared_in [] = []
cleared_in (cleared path ∷ log) = path ∷ cleared_in log
cleared_in (killed ∷ log) = cleared_in log
cleared_in (spawned l ∷ log) = cleared_in log
cleared_in (slept n ∷ log) = cleared_in log
cleared_in (requested n ∷ log) = cleared_in log
cleared_in (gpu_reset ∷ log) = cleared_in log
cleared_in (saved path ∷ log) = cleared_in log

abbrev pub started_in : Log → List Launch
started_in [] = []
started_in (spawned l ∷ log) = l ∷ started_in log
started_in (killed ∷ log) = started_in log
started_in (cleared path ∷ log) = started_in log
started_in (slept n ∷ log) = started_in log
started_in (requested n ∷ log) = started_in log
started_in (gpu_reset ∷ log) = started_in log
started_in (saved path ∷ log) = started_in log

-- The values of `local_disk` in the lines of a configuration, as they are written.
abbrev drop_key : List ℕ → List ℕ → List ℕ
drop_key [] line = line
drop_key (k ∷ key) [] = []
drop_key (k ∷ key) (c ∷ line) = drop_key key line

unfoldable pub local_disks : List (List ℕ) → List (List ℕ)
local_disks [] = []
local_disks (line ∷ lines) =
    let rest = local_disks lines in
    if starts_with (codes "local_disk: ") line
    then drop_key (codes "local_disk: ") line ∷ rest
    else rest

-- The server reads a configuration that was written for it, and that has this directory as its only
-- `local_disk`.
abbrev pub CachesIn : Launch → List ℕ → Type 0
CachesIn l dir =
    (c : ConfigFile) × (l.written ≡ some c)
    × (c.path ≡ l.config_path)
    × (local_disks c.lines ≡ (34 ∷ codes "file://" ++ dir ++ b'/' ∷ 34 ∷ []) ∷ [])

launch-CachesIn :
    (mode : List ℕ)
    → same_codes mode (codes "cachegen") ≡ false
    → CachesIn (launch mode) (cache_dir (codes "torch"))
unfolding launch create_lmcache_config local_disks starts_with config_lines
launch-CachesIn mode other = rw other (_, refl, refl, refl)

-- The server of a mode: its configuration, and the directory that is made for it.
abbrev pub Serves : List ℕ → Launch → Type 0
Serves mode l =
    ((mode ≡ codes "cachegen")
      × (l.written ≡ none)
      × (l.config_path ≡ codes "/home/noslab-gpu/tkdgjs/qlm/qlm/endpoints/lmcache.yaml")
      × (l.cache_disk ≡ cache_dir mode))
    ⊎ ((mode ≢ codes "cachegen")
        × CachesIn l (cache_dir (codes "torch"))
        × (l.cache_disk ≡ cache_dir (codes "torch")))

launch-Serves : (mode : List ℕ) → Serves mode (launch mode)
unfolding launch create_lmcache_config
launch-Serves mode = elim (Bool-cases (same_codes mode (codes "cachegen"))) [
  | inl same ↦
      let e = (same_codes_iff mode (codes "cachegen")).0 same in
      inl (e, rw same refl, rw same refl, rw same (ap cache_dir (sym e)))
  | inr other ↦ inr (
    (λ e. let same = (same_codes_iff mode (codes "cachegen")).1 e in cc (same, other)),
    launch-CachesIn mode other,
    rw other refl,
  )
]

module _ (W : Type 0) ⦃f : Float W⦄ where
  -- The report's disk values are those of a directory before and after the request.
  abbrev pub Measures : Answers W → List ℕ → DiskReport W → Type 0
  Measures a dir d =
      ((d.before_files, d.before_size_bytes) ≡ get_disk_usage (a.disk_before dir))
      × ((d.after_files, d.after_size_bytes) ≡ get_disk_usage (a.disk_after dir))
      × (d.offloaded_files ≡ pos d.after_files -ℤ pos d.before_files)
      × (d.offloaded_size_bytes ≡ pos d.after_size_bytes -ℤ pos d.before_size_bytes)

  -- What an experiment with a report did, from the log before it.
  abbrev Done : List ℕ → Answers W → Log → Log × Option (Outcome W) → Type 0
  Done mode a log (later, none) = Unit
  Done mode a log (later, some start_failed) = Unit
  Done mode a log (later, some (reported r)) =
      (cleared_in later ≡ cache_dir mode ∷ cleared_in log)
      × (started_in later ≡ launch mode ∷ started_in log)
      × Measures a (cache_dir mode) r.disk

  after_stats-Done :
      (mode : List ℕ) (size : ℕ) (a : Answers W) (log later : Log) (latency : RequestResult W)
      (stats : Option (Option (Stats W)))
      → cleared_in later ≡ cache_dir mode ∷ cleared_in log
      → started_in later ≡ launch mode ∷ started_in log
      → Done mode a log (after_stats mode size a later latency stats)
  unfolding stop_vllm report_of disk_report
  after_stats-Done mode size a log later latency none c s = tt
  after_stats-Done mode size a log later latency (some stats) c s = (c, s, (refl, refl, refl, refl))

  after_request-Done :
      (mode : List ℕ) (size : ℕ) (a : Answers W) (log later : Log)
      (latency : Option (RequestResult W))
      → cleared_in later ≡ cache_dir mode ∷ cleared_in log
      → started_in later ≡ launch mode ∷ started_in log
      → Done mode a log (after_request mode size a later latency)
  after_request-Done mode size a log later none c s = tt
  after_request-Done mode size a log later (some latency) c s =
      after_stats-Done mode size a log (slept 10 ∷ later) latency _ c s

  after_clear-Done :
      (mode : List ℕ) (size : ℕ) (a : Answers W) (log : Log) (left : Option Node)
      → Done mode a log (after_clear mode size a log left)
  unfolding start_vllm measure_server
  after_clear-Done mode size a log none = tt
  after_clear-Done mode size a log (some empty) = elim (Bool-cases (waited a)) [
    | inl up ↦ rw up (after_request-Done mode size a log _ _ refl refl)
    | inr down ↦ rw down tt
  ]

  -- What an experiment with this report did.
  abbrev pub Did : List ℕ → Answers W → Log → Log → Report W → Type 0
  Did mode a log later r =
      (cleared_in later ≡ cache_dir mode ∷ cleared_in log)
      × (started_in later ≡ launch mode ∷ started_in log)
      × Measures a (cache_dir mode) r.disk

  abbrev report_or : Report W → Option (Outcome W) → Report W
  report_or d (some (reported r)) = r
  report_or d _ = d

  Done-Did :
      (mode : List ℕ) (a : Answers W) (log : Log) (out : Log × Option (Outcome W)) (r : Report W)
      → Done mode a log out
      → out.1 ≡ some (reported r)
      → Did mode a log out.0 r
  Done-Did mode a log (later, none) r h e = cc
  Done-Did mode a log (later, some start_failed) r h e = cc
  Done-Did mode a log (later, some (reported r')) r h e =
      subst (Did mode a log later) (ap (report_or r) e) h

  -- The directory could be cleared where an experiment reports.
  after_clear-clears :
      (mode : List ℕ) (size : ℕ) (a : Answers W) (log : Log) (found : Option Node) (r : Report W)
      → (after_clear mode size a log found).1 ≡ some (reported r)
      → (left : Node) × (found ≡ some left)
  after_clear-clears mode size a log none r e = cc
  after_clear-clears mode size a log (some left) r e = (left, refl)

  -- An experiment with a report has cleared the directory named after its mode, and no other; what it
  -- reports of the disk are the files and bytes of that directory before and after the request, and
  -- their differences. It has started one server. In CacheGen mode that directory was made for the
  -- server, which reads a configuration that the script does not write. In any other mode the server
  -- reads the configuration that was written for it, whose one `local_disk` is the directory of the
  -- name "torch"; that is the measured directory only if this is the mode, so not in native mode.
  pub run_single_experiment-Measures :
      (mode : List ℕ) (size : ℕ) (a : Answers W) (log : Log) (r : Report W)
      → (run_single_experiment mode size a log).1 ≡ some (reported r)
      → let later = (run_single_experiment mode size a log).0 in
        (cleared_in later ≡ cache_dir mode ∷ cleared_in log)
        × ((left : Node) × (clear_lmcache_disk (a.disk_found (cache_dir mode)) ≡ some left))
        × Measures a (cache_dir mode) r.disk
        × ((l : Launch) × (started_in later ≡ l ∷ started_in log) × Serves mode l)
        × ((cache_dir mode ≡ cache_dir (codes "torch")) ↔ (mode ≡ codes "torch"))
  unfolding run_single_experiment
  run_single_experiment-Measures mode size a log r e =
      let found = clear_lmcache_disk (a.disk_found (cache_dir mode)) in
      let (clears, starts, measures) =
        Done-Did mode a log (after_clear mode size a log found) r
          (after_clear-Done mode size a log found) e in
      (
        clears,
        after_clear-clears mode size a log found r e,
        measures,
        (launch mode, starts, launch-Serves mode),
        (disk_path-injective mode (codes "torch"), ap cache_dir),
      )
