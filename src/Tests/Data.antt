-- ===== src/Tests/Data.antt =====
-- A metrics page, the answers of a machine with one GPU, and a server that is ready at its fourth
-- poll.
use cachegen_plus.Base.{
  ℕ, ◌*◌, Bool, true, false, List, [], ◌∷◌, ◌++◌, none, some, ◌==◌, if◌then◌else◌,
}
use cachegen_plus.Base.Int.{ℤ, pos}
use cachegen_plus.Text.{codes}
use cachegen_plus.Answer.{HttpReply, unreachable, reply, exited, counts}
use cachegen_plus.Disk.{file, dir, broken, Entries, end, entry}
use cachegen_plus.Vram.Measure.{Readings}
use cachegen_plus.Vram.Request.{PostOutcome, answered}
use cachegen_plus.Vram.Experiment.{Answers}

abbrev pub page : List ℕ
page =
    codes "vllm:cache_config_info{block_size=\"16\",num_gpu_blocks=\"690\"} 1.0"
    ++ 10 ∷ codes "vllm:kv_cache_usage_perc{engine=\"0\"} 0.25"

abbrev pub smi_line : List ℕ
smi_line = codes "16384, 12288, 4096, 512"

-- 12 GB are used, 690 blocks of 16 are allocated, and torch has peaked at 1 GB.
abbrev pub readings : Readings
readings = record {
  smi = exited 0 smi_line;
  metrics = reply 200 page;
  torch = counts (record {
    allocated = 536870912;
    reserved = 1073741824;
    peak = 1073741824;
    active = none;
    inactive_split = none;
    alloc_retries = some 2;
    ooms = none;
  });
}

-- The same without a usage ratio on the page.
abbrev pub quiet : Readings
quiet = record readings {
  metrics = reply 200 (codes "x{block_size=\"16\",num_gpu_blocks=\"690\"} 1.0");
}

abbrev pub clock : ℕ → ℕ
clock k = 2000 * k

abbrev pub replies : ℕ → HttpReply
replies k = if k == 3 then reply 200 [] else unreachable

-- Four lines come from a server that was asked at 10 s; the third is empty.
abbrev pub stream : List (Bool × ℤ)
stream =
    (true, pos 10500000) ∷ (true, pos 10600000) ∷ (false, pos 10650000) ∷ (true, pos 10900000) ∷ []

abbrev pub streamed : PostOutcome ℤ
streamed = answered 200 [] stream (pos 11000000)

abbrev pub cache : Entries
cache = entry (codes "a") (file 100) (
    entry (codes "chunks") (dir (entry (codes "b") (file 40) (entry (codes "c") (file 2) end)))
      (entry (codes "gone") broken end))

abbrev pub answers : Answers ℤ
answers = record {
  disk_found = λ path. some (dir cache);
  disk_before = λ path. none;
  disk_after = λ path. some (dir cache);
  clock = clock;
  replies = replies;
  start_time = pos 8000000;
  idle = quiet;
  work =
      (readings, pos 8000000)
      ∷ (readings, pos 8100000)
      ∷ (readings, pos 8200000)
      ∷ (readings, pos 8300000)
      ∷ (readings, pos 8400000)
      ∷ [];
  late = [];
  later =
      (readings, pos 8500000)
      ∷ (readings, pos 8600000)
      ∷ (readings, pos 8700000)
      ∷ (readings, pos 8800000)
      ∷ [];
  request_time = pos 10000000;
  post = streamed;
  chunk_metrics = reply 200 (codes "vllm_cache_stat_total_chunks 7");
}
