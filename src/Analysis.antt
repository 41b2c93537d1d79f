-- ===== src/Analysis.antt =====
-- tkdgjs/experiment/analyze_vram_timeline.py: the tables over the timeline files of a full sweep.
pub mod Compared
pub mod Loaded
use cachegen_plus.Base.{
  ℕ, Bool, true, false, ◌&&◌, List, [], ◌∷◌, ◌++◌, map, Option, none, some, ◌==◌, if◌then◌else◌,
  ◌>>=◌,
}
use cachegen_plus.Float.{Float, ◌⊖◌}
use cachegen_plus.Text.{codes}
use cachegen_plus.Server.{same_codes}
use cachegen_plus.Timeline.Test.{
  Case, TestResult, tested, not_ready, Line, garbled, result_line, metadata_line,
}

module _ {W : Type 0} where
  -- The lines of one file; `none` is the exception of a text that is no JSON.
  unfoldable pub load_lines : List (Line W) → Option (List (TestResult W))
  load_lines [] = some []
  load_lines (garbled ∷ lines) = none
  load_lines (metadata_line c now ∷ lines) = load_lines lines
  load_lines (result_line r ∷ lines) = load_lines lines >>= λ rs. some (r ∷ rs)

  -- `load_all_results`, over the files in the order of `glob`
  unfoldable pub load_all_results : List (List (Line W)) → Option (List (TestResult W))
  load_all_results [] = some []
  load_all_results (lines ∷ files) =
      load_lines lines >>= λ rs. load_all_results files >>= λ rest. some (rs ++ rest)

  abbrev pub case_in : TestResult W → Case W
  case_in (tested c v) = c
  case_in (not_ready c oom stage vram) = c

-- A line of the CSV file.
pub record CsvRow (W : Type 0) : Type 0 where
  pub of_case : Case W
  pub stage : List ℕ
  pub vram_gb : W

-- A line that `analyze_by_gpu_util` prints.
pub record StageRow (W : Type 0) : Type 0 where
  pub row_prefill : ℕ
  pub row_mode : List ℕ
  pub values : List W

-- A line that `compare_native_vs_cachegen` prints.
pub record CompareRow (W : Type 0) : Type 0 where
  pub gpu_util : W
  pub prefill : ℕ
  pub native_vram : W
  pub cachegen_vram : W
  pub diff : W

module _ {W : Type 0} ⦃f : Float W⦄ where
  -- `r.get(key, 0)` for the five stages
  unfoldable pub stage_values : TestResult W → List (List ℕ × W)
  stage_values (tested c v) =
      (codes "before_start", v.vram_before_start_gb)
      ∷ (codes "after_start", v.vram_after_start_gb)
      ∷ (codes "before_request", v.vram_before_request_gb)
      ∷ (codes "during_request", v.vram_during_request_gb)
      ∷ (codes "after_compression", v.vram_after_compression_gb)
      ∷ []
  stage_values (not_ready c oom stage vram) =
      (codes "before_start", vram)
      ∷ (codes "after_start", f.nought)
      ∷ (codes "before_request", f.nought)
      ∷ (codes "during_request", f.nought)
      ∷ (codes "after_compression", f.nought)
      ∷ []

  abbrev pub csv_lines : Case W → List (List ℕ × W) → List (CsvRow W)
  csv_lines c [] = []
  csv_lines c ((stage, vram) ∷ rest) =
      record { of_case = c; stage = stage; vram_gb = vram } ∷ csv_lines c rest

  -- The lines of `create_csv_for_graph` after its header.
  unfoldable pub csv_rows : List (TestResult W) → List (CsvRow W)
  csv_rows [] = []
  csv_rows (r ∷ rs) = csv_lines (case_in r) (stage_values r) ++ csv_rows rs

  -- `r["prefill_size"] == prefill and r["gpu_util"] == gpu_util`
  abbrev pub at_point : W → ℕ → TestResult W → Bool
  at_point gpu_util prefill r =
      (case_in r).prefill_size == prefill && f.eq (case_in r).gpu_util gpu_util

  abbrev pub has_mode : List ℕ → TestResult W → Bool
  has_mode mode r = same_codes (case_in r).mode mode

  -- The innermost loop of `analyze_by_gpu_util`.
  unfoldable pub stage_rows : W → ℕ → List ℕ → List (TestResult W) → List (StageRow W)
  stage_rows gpu_util prefill mode [] = []
  stage_rows gpu_util prefill mode (r ∷ rs) =
      let rest = stage_rows gpu_util prefill mode rs in
      if has_mode mode r && at_point gpu_util prefill r
      then record {
        row_prefill = prefill;
        row_mode = mode;
        values = map (λ p. p.1) (stage_values r);
      }
        ∷ rest
      else rest

  -- `r.get("vram_after_start_gb", 0)`
  unfoldable pub after_start_of : TestResult W → W
  after_start_of (tested c v) = v.vram_after_start_gb
  after_start_of (not_ready c oom stage vram) = f.nought

  -- The body of the loop over the results: `native_vram` and `cachegen_vram`.
  abbrev pub note_result : W → ℕ → Option W × Option W → TestResult W → Option W × Option W
  note_result gpu_util prefill (native, cachegen) r =
      if at_point gpu_util prefill r
      then (if has_mode (codes "native") r
          then (some (after_start_of r), cachegen)
          else (if has_mode (codes "cachegen") r
              then (native, some (after_start_of r))
              else (native, cachegen)))
      else (native, cachegen)

  unfoldable pub note_results :
      W → ℕ → Option W × Option W → List (TestResult W) → Option W × Option W
  note_results gpu_util prefill found [] = found
  note_results gpu_util prefill found (r ∷ rs) =
      note_results gpu_util prefill (note_result gpu_util prefill found r) rs

  -- The line of one point, if both modes were found.
  abbrev pub compare_row : W → ℕ → Option W × Option W → List (CompareRow W)
  compare_row gpu_util prefill (none, cachegen) = []
  compare_row gpu_util prefill (some native, none) = []
  compare_row gpu_util prefill (some native, some cachegen) =
      record {
        gpu_util = gpu_util;
        prefill = prefill;
        native_vram = native;
        cachegen_vram = cachegen;
        diff = cachegen ⊖ native;
      }
      ∷ []

  unfoldable pub compare_prefills : W → List ℕ → List (TestResult W) → List (CompareRow W)
  compare_prefills gpu_util [] results = []
  compare_prefills gpu_util (prefill ∷ rest) results =
      compare_row gpu_util prefill (note_results gpu_util prefill (none, none) results)
      ++ compare_prefills gpu_util rest results

  unfoldable pub compare_utils : List W → List ℕ → List (TestResult W) → List (CompareRow W)
  compare_utils [] prefills results = []
  compare_utils (gpu_util ∷ rest) prefills results =
      compare_prefills gpu_util prefills results ++ compare_utils rest prefills results

  unfoldable pub compare_native_vs_cachegen : List (TestResult W) → List (CompareRow W)
  compare_native_vs_cachegen =
      compare_utils (f.decimal 3 1 ∷ f.decimal 5 1 ∷ f.decimal 7 1 ∷ f.decimal 9 1 ∷ [])
        (128 ∷ 256 ∷ 512 ∷ 1024 ∷ 2048 ∷ [])
