-- ===== src/Resume/Run.antt =====
-- `run_experiment` of tkdgjs/experiment/run_sweep.py.
use cachegen_plus.Base.{
  ℕ, ◌+◌, ◌*◌, ◌/◌, Bool, true, ◌||◌, ◌&&◌, List, [], ◌∷◌, ◌++◌, Option, none, some, ◌==◌,
  if◌then◌else◌, ◌>>=◌, or_default, get_elem?,
}
use cachegen_plus.Base.Int.{pos}
use cachegen_plus.Float.{Float, ◌⊘◌}
use cachegen_plus.Text.{codes, is_digit, is_space, number, strip, split}
use cachegen_plus.Text.Pattern.{Piece, literal, repeated, search_first}
use cachegen_plus.Answer.{RunResult, run_raised, exited}
use cachegen_plus.Complete.Probe.{
  Act, launched, ended, proc_killed, paused, asked, contains, first_field, clean_cache,
}
use cachegen_plus.Complete.Run.{complete_launch}
use cachegen_plus.Resume.Startup.{Startup, died, ready, timed_out, startup}

-- `subprocess.run` of the request: only a timeout is caught.
pub data CurlOutcome : Type 0 where
  curl_timeout : CurlOutcome
  curl_raised : List ℕ → CurlOutcome
  curl_exited : ℕ → CurlOutcome

-- What the machine answers during one experiment.
pub record ResumeAnswers : Type 0 where
  pub dead : ℕ → Bool
  pub replies : ℕ → ℕ → RunResult
  pub smi_before : RunResult
  pub smi_after : RunResult
  pub request : CurlOutcome
  pub listing : RunResult
  -- the text of the log of LMCache, if it can be read
  pub vram_log : Option (List ℕ)

-- The measured values of a success.
pub record ResumeValues (W : Type 0) : Type 0 where
  pub mode : List ℕ
  pub tokens : ℕ
  pub vram_before_gb : W
  pub vram_after_gb : W
  pub disk_size_mb : W
  pub compression_vram_gb : W

-- What `run_experiment` comes to: a dict with the status "success" or "failed", or an exception with
-- its message.
pub data Attempt (W : Type 0) : Type 0 where
  succeeded_with : ResumeValues W → Attempt W
  failed_with : List ℕ → Attempt W
  raised_with : List ℕ → Attempt W

-- `text.split()`, from the characters of the word that is read
abbrev cut : List ℕ → List (List ℕ) → List (List ℕ)
cut [] words = words
cut (c ∷ cs) words = (c ∷ cs) ∷ words

abbrev onto_word : ℕ → List ℕ × List (List ℕ) → List ℕ × List (List ℕ)
onto_word c (word, words) = if is_space c then ([], cut word words) else (c ∷ word, words)

words_from : List ℕ → List ℕ × List (List ℕ)
words_from [] = ([], [])
words_from (c ∷ cs) = onto_word c (words_from cs)

unfoldable pub split_words : List ℕ → List (List ℕ)
unfolding words_from
split_words text = let (word, words) = words_from text in cut word words

abbrev all_digits : List ℕ → Bool
all_digits [] = true
all_digits (c ∷ cs) = is_digit c && all_digits cs

-- `int(word)`; `none` is a `ValueError`
abbrev pub int_of : List ℕ → Option ℕ
int_of [] = none
int_of (c ∷ cs) = if all_digits (c ∷ cs) then some (number (c ∷ cs)) else none

-- The loop over the lines of `ls -la`; `none` is an exception.
unfoldable pub listed_bytes : List (List ℕ) → Option ℕ
listed_bytes [] = some 0
listed_bytes (line ∷ lines) =
    let rest = listed_bytes lines in
    if contains ".pt" line
    then (get_elem? (split_words line) 4 >>= int_of >>= λ size.
        rest >>= λ others. some (size + others))
    else rest

-- `increase=([0-9.]+)GB`
abbrev pub increase_pattern : List Piece
increase_pattern = literal "increase=" ++ repeated (λ c. is_digit c || c == b'.') ++ literal "GB"

module _ {W : Type 0} ⦃f : Float W⦄ where
  unfoldable pub check_gpu_memory : RunResult → W
  check_gpu_memory run_raised = f.nought
  check_gpu_memory (exited code out) =
      if code == 0
      then or_default f.nought
          (f.parse (first_field (split 10 (strip out))) >>= λ mb. some (mb ⊘ f.decimal 10240 1))
      else f.nought

  -- The bytes of the listed `.pt` files in MB, 0 after an exception.
  unfoldable pub listed_mb : RunResult → W
  listed_mb run_raised = f.nought
  listed_mb (exited code out) = or_default f.nought (
      listed_bytes (split 10 out) >>= λ bytes.
      some (f.of_int (pos bytes) ⊘ f.of_int (pos (1024 * 1024))))

  -- The value of a line, or that of the lines before.
  abbrev value_of : W → Option (List ℕ) → W
  value_of before none = before
  value_of before (some digits) = or_default before (f.parse digits)

  unfoldable pub last_increase : W → List (List ℕ) → W
  last_increase before [] = before
  last_increase before (line ∷ lines) =
      last_increase
        (if contains "encode_function:" line && contains "increase=" line
          then value_of before (search_first increase_pattern line)
          else before)
        lines

  abbrev compression_vram : Option (List ℕ) → W
  compression_vram none = f.nought
  compression_vram (some text) = last_increase f.nought (split 10 text)

  unfoldable pub values_of : List ℕ → ℕ → ResumeAnswers → ResumeValues W
  values_of mode tokens a = record {
    mode = mode;
    tokens = tokens;
    vram_before_gb = check_gpu_memory a.smi_before;
    vram_after_gb = check_gpu_memory a.smi_after;
    disk_size_mb = listed_mb a.listing;
    compression_vram_gb = compression_vram a.vram_log;
  }

  -- From the request on; an exception other than a timeout leaves the server running.
  abbrev pub after_curl :
      List ℕ → ℕ → ResumeAnswers → List (Act W) → CurlOutcome → List (Act W) × Attempt W
  after_curl mode tokens a log (curl_raised message) = (log, raised_with message)
  after_curl mode tokens a log curl_timeout =
      (paused 3 ∷ ended ∷ paused 2 ∷ log, succeeded_with (values_of mode tokens a))
  after_curl mode tokens a log (curl_exited code) =
      (paused 3 ∷ ended ∷ paused 2 ∷ log, succeeded_with (values_of mode tokens a))

  abbrev pub after_startup :
      List ℕ → ℕ → ResumeAnswers → List (Act W) × Startup → List (Act W) × Attempt W
  after_startup mode tokens a (log, died) = (log, failed_with (codes "process_died"))
  after_startup mode tokens a (log, timed_out) =
      (proc_killed ∷ log, failed_with (codes "startup_timeout"))
  after_startup mode tokens a (log, ready) =
      after_curl mode tokens a (asked (tokens / 2) ∷ paused 2 ∷ log) a.request

  unfoldable pub run_experiment :
      List ℕ → ℕ → W → ResumeAnswers → List (Act W) → List (Act W) × Attempt W
  run_experiment mode tokens gpu_mem a log =
      let l = complete_launch mode gpu_mem in
      after_startup mode tokens a
        (startup a.dead a.replies (launched l ∷ clean_cache l.cache_dir log))
