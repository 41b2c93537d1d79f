-- ===== src/Logged.antt =====
-- tkdgjs/experiment/test_vram_with_logs.py: both modes, with the memory that the compression reports in
-- the log of the server.
pub mod Parsed
pub mod Extracted
use cachegen_plus.Base.{
  ℕ, zero, suc, Bool, true, false, ◌&&◌, List, [], ◌∷◌, ◌++◌, Option, none, some, ◌==◌,
  if◌then◌else◌, ◌>>=◌, or_default, get_elem?, length,
}
use cachegen_plus.Base.Int.{pos}
use cachegen_plus.Float.{Float, ◌⊕◌, ◌⊖◌, ◌⊘◌}
use cachegen_plus.Text.{codes, strip, split}
use cachegen_plus.Text.Substring.{occurs_in}
use cachegen_plus.Answer.{RunResult}
use cachegen_plus.Server.{experiment_dir}
use cachegen_plus.Timeline.Probe.{exited_well, wait_for_curl, cut_at}
use cachegen_plus.Direct.{DirectAct, pkilled, served, proc_killed, waited, posted}

-- What the machine answers during one test: the polls of the wait, the three requests, and the lines
-- that the loop over the log gets before the end of the file or an exception.
pub record LoggedAnswers : Type 0 where
  pub clock : ℕ → ℕ
  pub polls : ℕ → RunResult
  pub posts : ℕ → RunResult
  pub log_lines : List (List ℕ)

-- What the script prints at its end.
pub data Comparison (W : Type 0) : Type 0 where
  -- "Could not extract VRAM measurements"
  not_extracted : Comparison W
  -- the increases of both modes, of which one has none
  no_average : List W → List W → Comparison W
  -- the two averages and their difference
  averages : W → W → W → Comparison W

abbrev pub marker : List ℕ
marker = codes "[LMCACHE_VRAM]"

-- `line.split("[LMCACHE_VRAM]")[1].strip()`, for a line with the marker
unfoldable pub marked : List ℕ → Option (List ℕ)
marked line = (cut_at marker line).1 >>= λ rest. some (strip (cut_at marker rest).0)

abbrev pub onto_logs : Option (List ℕ) → List (List ℕ) → List (List ℕ)
onto_logs none logs = logs
onto_logs (some log) logs = log ∷ logs

unfoldable pub extract_vram_logs : List (List ℕ) → List (List ℕ)
extract_vram_logs [] = []
extract_vram_logs (line ∷ lines) =
    let rest = extract_vram_logs lines in
    if occurs_in marker line then onto_logs (marked line) rest else rest

-- `text.replace("GB", "")`
unfoldable pub without_gb : List ℕ → List ℕ
without_gb [] = []
without_gb (c ∷ []) = c ∷ []
without_gb (c ∷ d ∷ cs) =
    let kept = c ∷ without_gb (d ∷ cs) in
    let dropped = without_gb cs in if c == b'G' && d == b'B' then dropped else kept

-- `cleanup` and `start_vllm`
abbrev pub logged_started : List ℕ → List DirectAct → List DirectAct
logged_started mode log =
    served (experiment_dir ++ codes "/lmcache_" ++ mode ++ codes ".yaml") ∷ waited 3 ∷ pkilled ∷ log

-- The loop of the requests, from the `i`-th on with so many left.
unfoldable pub logged_requests : (ℕ → RunResult) → ℕ → ℕ → List DirectAct → List DirectAct
logged_requests posts zero i log = log
logged_requests posts (suc left) i log =
    logged_requests posts left (suc i) (waited 2 ∷ posted (exited_well (posts i)) ∷ log)

-- `wait_for_vllm`, whose timeout is 120 s
unfoldable pub logged_ready : LoggedAnswers → Bool
logged_ready a = or_default false (wait_for_curl a.clock a.polls (a.clock 0) 120000 61)

-- `run_test`
unfoldable pub logged_test :
    List ℕ → LoggedAnswers → List DirectAct → List DirectAct × Option (List (List ℕ))
logged_test mode a log =
    let begun = logged_started mode log in
    if logged_ready a
    then (
      proc_killed ∷ waited 3 ∷ logged_requests a.posts 3 0 begun,
      some (extract_vram_logs a.log_lines),
    )
    else (proc_killed ∷ begun, none)

module _ {W : Type 0} ⦃f : Float W⦄ where
  abbrev pub onto_values : Option W → List W → List W
  onto_values none values = values
  onto_values (some value) values = value ∷ values

  -- The value in a part of a log, if it is a number.
  unfoldable pub increase_of : List ℕ → Option W
  increase_of part = get_elem? (split b'=' part) 1 >>= λ field. f.parse (strip (without_gb field))

  unfoldable pub parse_parts : List (List ℕ) → List W
  parse_parts [] = []
  parse_parts (part ∷ parts) =
      let rest = parse_parts parts in
      if occurs_in (codes "increase=") part then onto_values (increase_of part) rest else rest

  unfoldable pub parse_vram : List (List ℕ) → List W
  parse_vram [] = []
  parse_vram (log ∷ logs) =
      let rest = parse_vram logs in
      if occurs_in (codes "increase=") log then parse_parts (split b',' log) ++ rest else rest

  -- `sum`, from a start
  unfoldable pub sum_list : W → List W → W
  sum_list total [] = total
  sum_list total (v ∷ vs) = sum_list (total ⊕ v) vs

  abbrev pub average_of : W → List W → W
  average_of v vs = sum_list (f.of_int (pos 0)) (v ∷ vs) ⊘ f.of_int (pos (length (v ∷ vs)))

  abbrev pub compare_increases : List W → List W → Comparison W
  compare_increases [] cachegen = no_average [] cachegen
  compare_increases (v ∷ vs) [] = no_average (v ∷ vs) []
  compare_increases (v ∷ vs) (w ∷ ws) =
      let native = average_of v vs in
      let cachegen = average_of w ws in averages native cachegen (cachegen ⊖ native)

  unfoldable pub compare_logs : Option (List (List ℕ)) → Option (List (List ℕ)) → Comparison W
  compare_logs (some (n ∷ ns)) (some (c ∷ cs)) =
      compare_increases (parse_vram (n ∷ ns)) (parse_vram (c ∷ cs))
  compare_logs _ _ = not_extracted

  -- The main program
  unfoldable pub logged_main :
      LoggedAnswers → LoggedAnswers → List DirectAct → List DirectAct × Comparison W
  logged_main a b log =
      let native = logged_test (codes "native") a log in
      let cachegen = logged_test (codes "cachegen") b (waited 10 ∷ native.0) in
      (cachegen.0, compare_logs native.1 cachegen.1)
