-- ===== src/Vram/Request.antt =====
-- `send_request_and_measure` of tkdgjs/experiment/run_vram_experiment.py.
pub mod Percentiles
use cachegen_plus.Base.{
  ℕ, zero, suc, Bool, true, false, List, [], ◌∷◌, Option, none, some, ltb, ◌==◌, if◌then◌else◌,
  ◌>>=◌, length, get_elem?,
}
use cachegen_plus.Base.Int.{ℤ, pos, negsuc}
use cachegen_plus.Float.{Float, ◌⊖◌, ◌⊗◌}

-- What `requests.post` and the lines that it streams come to.
pub data PostOutcome (W : Type 0) : Type 0 where
  -- an exception with its message, before or during the stream
  post_raised : List ℕ → PostOutcome W
  -- a status, the text of the page, the lines (empty or not) with their times, and the end time
  answered : ℕ → List ℕ → List (Bool × W) → W → PostOutcome W

pub record Latency (W : Type 0) : Type 0 where
  pub prompt_tokens : ℕ
  pub output_tokens : ℕ
  pub ttft_sec : W
  pub tbt_p95_sec : W
  pub tbt_p99_sec : W
  pub ttlt_sec : W

-- `(False, {"error": …})` or `(True, …)`
pub data RequestResult (W : Type 0) : Type 0 where
  request_failed : List ℕ → RequestResult W
  request_done : Latency W → RequestResult W

module _ {W : Type 0} ⦃f : Float W⦄ where
  -- The times of the lines that are not empty.
  unfoldable pub token_times : List (Bool × W) → List W
  token_times [] = []
  token_times ((true, t) ∷ lines) = t ∷ token_times lines
  token_times ((false, t) ∷ lines) = token_times lines

  unfoldable pub gaps : List W → List W
  gaps [] = []
  gaps (t ∷ []) = []
  gaps (t ∷ u ∷ ts) = (u ⊖ t) ∷ gaps (u ∷ ts)

  unfoldable pub insert_sorted : W → List W → List W
  insert_sorted x [] = x ∷ []
  insert_sorted x (y ∷ ys) =
      let rest = insert_sorted x ys in if f.lt x y then x ∷ y ∷ ys else y ∷ rest

  -- `list.sort`
  unfoldable pub sort_values : List W → List W
  sort_values [] = []
  sort_values (x ∷ xs) = insert_sorted x (sort_values xs)

  -- `values[i]` at an index that is not negative; `none` is an `IndexError`
  abbrev pub at_index : List W → ℤ → Option W
  at_index xs (pos i) = get_elem? xs i
  at_index xs (negsuc i) = none

  -- `values[int(n * p)] if n > 0 else 0`
  unfoldable pub percentile : ℕ → List W → Option W
  percentile p xs =
      let n = length xs in
      if ltb 0 n then at_index xs (f.trunc (f.of_int (pos n) ⊗ f.decimal p 2)) else some f.nought

  unfoldable pub percentiles : List W → Option (W × W)
  percentiles sorted = do p95 ← percentile 95 sorted; p99 ← percentile 99 sorted; some (p95, p99)

  -- The two percentiles of the times between tokens, 0 without two tokens.
  unfoldable pub token_gaps : List W → Option (W × W)
  token_gaps times =
      if ltb 1 (length times)
      then percentiles (sort_values (gaps times))
      else some (f.nought, f.nought)

  -- `first_token_time - start_time`, or 0.0 where the time is missing or itself 0.0
  unfoldable pub first_token : W → List W → W
  first_token start [] = f.nought
  first_token start (t ∷ ts) = if f.eq t f.nought then f.nought else t ⊖ start

  -- `none` is an exception of the code behind the `try`.
  unfoldable pub send_request_and_measure : ℕ → W → PostOutcome W → Option (RequestResult W)
  send_request_and_measure prompt_tokens start (post_raised message) = some (request_failed message)
  send_request_and_measure prompt_tokens start (answered status text lines end_time) =
      let times = token_times lines in
      let measured : Option (RequestResult W) = do
        p ← token_gaps times
        some (
            request_done (record {
              prompt_tokens = prompt_tokens;
              output_tokens = length times;
              ttft_sec = f.round (first_token start times) 4;
              tbt_p95_sec = f.round p.0 4;
              tbt_p99_sec = f.round p.1 4;
              ttlt_sec = f.round (end_time ⊖ start) 4;
            }))
      in if status == 200 then measured else some (request_failed text)
