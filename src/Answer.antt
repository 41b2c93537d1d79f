-- ===== src/Answer.antt =====
-- What the machine answers: the results of `subprocess.run`, `requests.get` and the torch
-- allocator. They are inputs of the functions that ask for them.
use cachegen_plus.Base.{ℕ, List, Option}

-- `subprocess.run`. The scripts only compare the exit status with 0.
pub data RunResult : Type 0 where
  run_raised : RunResult
  exited : ℕ → List ℕ → RunResult

-- `requests.get`: an exception, or a status code and the text of the page
pub data HttpReply : Type 0 where
  unreachable : HttpReply
  reply : ℕ → List ℕ → HttpReply

-- The byte counts of `torch.cuda`; the last four are entries of `memory_stats()`, if present.
pub record TorchCounts : Type 0 where
  pub allocated : ℕ
  pub reserved : ℕ
  pub peak : ℕ
  pub active : Option ℕ
  pub inactive_split : Option ℕ
  pub alloc_retries : Option ℕ
  pub ooms : Option ℕ

pub data TorchReply : Type 0 where
  torch_raised : TorchReply
  no_cuda : TorchReply
  counts : TorchCounts → TorchReply
