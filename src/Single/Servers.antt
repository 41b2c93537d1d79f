-- ===== src/Single/Servers.antt =====
-- The servers that the single tests leave.
use cachegen_plus.Base.{
  ℕ, ◌≤◌, ◌≡◌, refl, Bool, true, List, Option, none, some, arith, if◌then◌else◌, Bool-cases, inl,
  inr,
}
use cachegen_plus.Base.Int.{pos}
use cachegen_plus.Float.{Float, ◌⊘◌}
use cachegen_plus.Text.{strip}
use cachegen_plus.Answer.{RunResult, run_raised, exited}
use cachegen_plus.Disk.{Node, sweep_clear_lmcache_disk}
use cachegen_plus.Host.{Log, running, AtMostOne}
use cachegen_plus.Vram.Experiment.{stop_vllm}
use cachegen_plus.Sweep.Experiment.{after_smi, clear_gpu_processes, sweep_start_vllm}
use cachegen_plus.Single.{
  TestPlan, TestAnswers, Monitored, first_wait, second_wait, monitored, after_finish, after_monitor,
  after_start, after_disk, after_gpu, run_test,
}

module _ (W : Type 0) ⦃f : Float W⦄ where
  after_smi-running :
      (log : Log) (mb : Option W)
      → running log ≡ 0
      → AtMostOne log
      → let out = after_smi log mb in (running out.0 ≡ 0) × AtMostOne out.0
  after_smi-running log none zero_left fine = (zero_left, fine)
  after_smi-running log (some mb) zero_left fine =
      elim (Bool-cases (f.lt (f.decimal 10 1) (mb ⊘ f.of_int (pos 1024)))) [
        | inl much ↦ rw much (zero_left, fine)
        | inr little ↦ rw little (zero_left, fine)
      ]

  clear_gpu_processes-running :
      (gpu : RunResult) (log : Log)
      → AtMostOne log
      → let out = clear_gpu_processes {W = W} gpu log in (running out.0 ≡ 0) × AtMostOne out.0
  unfolding clear_gpu_processes
  clear_gpu_processes-running run_raised log fine = (refl, fine)
  clear_gpu_processes-running (exited code out) log fine =
      after_smi-running _ (f.parse (strip out)) refl fine

module _ (W : Type 0) ⦃f : Float W⦄ {R : Type 0} where
  -- How many servers run after a test, by what it comes to: none after a result; one after a first
  -- wait in vain, but none after a second one; one at most after an exception.
  abbrev pub LeftBy : Bool → Option (Option R) → ℕ → Type 0
  LeftBy up (some (some r)) n = n ≡ 0
  LeftBy up (some none) n = n ≡ (if up then 0 else 1)
  LeftBy up none n = n ≤ 1

  abbrev Leaves : TestAnswers W → Log × Option (Option R) → Type 0
  Leaves a out = AtMostOne out.0 × LeftBy (first_wait a) out.1 (running out.0)

  after_finish-LeftBy :
      (up : Bool) (log : Log) (r : Option R)
      → running log ≤ 1
      → AtMostOne log
      → let out = after_finish log r in AtMostOne out.0 × LeftBy up out.1 (running out.0)
  unfolding stop_vllm
  after_finish-LeftBy up log none one fine = (fine, one)
  after_finish-LeftBy up log (some r) one fine = (fine, refl)

  after_monitor-LeftBy :
      (plan : TestPlan W) (finish : Monitored W → Option R) (up : Bool) (log : Log)
      (m : Option (Monitored W))
      → running log ≤ 1
      → AtMostOne log
      → let out = after_monitor plan finish log m in
        AtMostOne out.0 × LeftBy up out.1 (running out.0)
  after_monitor-LeftBy plan finish up log none one fine = (fine, one)
  after_monitor-LeftBy plan finish up log (some m) one fine =
      after_finish-LeftBy up _ (finish m) one fine

  after_start-Leaves :
      (plan : TestPlan W) (finish : Monitored W → Option R) (mode : List ℕ) (size : ℕ)
      (a : TestAnswers W) (log : Log)
      → running log ≡ 1
      → AtMostOne log
      → Leaves a (after_start plan finish mode size a log)
  unfolding stop_vllm
  after_start-Leaves plan finish mode size a log one fine = elim (Bool-cases (first_wait a)) [
    | inr down ↦ rw down (fine, one)
    | inl up ↦ elim (Bool-cases (second_wait a)) [
      | inr lost ↦ rw (up, lost) (fine, refl)
      | inl kept ↦
          rw (up, kept)
            (after_monitor-LeftBy plan finish true _ (monitored plan mode size a)
              (omega (arith, one)) fine)
    ]
  ]

  after_disk-Leaves :
      (plan : TestPlan W) (finish : Monitored W → Option R) (mode : List ℕ) (size : ℕ) (gm : List ℕ)
      (a : TestAnswers W) (log : Log) (left : Option Node)
      → running log ≡ 0
      → AtMostOne log
      → Leaves a (after_disk plan finish mode size gm a log left)
  unfolding sweep_start_vllm
  after_disk-Leaves plan finish mode size gm a log none zero_left fine =
      (fine, omega (arith, zero_left))
  after_disk-Leaves plan finish mode size gm a log (some left) zero_left fine =
      after_start-Leaves plan finish mode size a _ refl (refl, fine)

  after_gpu-Leaves :
      (plan : TestPlan W) (finish : Monitored W → Option R) (mode : List ℕ) (size : ℕ) (gm : List ℕ)
      (a : TestAnswers W) (cleaned : Log × Option W)
      → running cleaned.0 ≡ 0
      → AtMostOne cleaned.0
      → Leaves a (after_gpu plan finish mode size gm a cleaned)
  after_gpu-Leaves plan finish mode size gm a (log, none) zero_left fine =
      (fine, omega (arith, zero_left))
  after_gpu-Leaves plan finish mode size gm a (log, some used) zero_left fine =
      after_disk-Leaves plan finish mode size gm a _ (sweep_clear_lmcache_disk a.disk_found)
        zero_left fine

  -- A single test, with any settings and whatever its script makes of the values: no server is
  -- started beside another. After a result no server runs, nor after a second wait in vain. If the
  -- server does not answer the wait in `start_vllm`, the test returns `None` and leaves the server
  -- that it started; after an exception one runs at most.
  pub run_test-servers :
      (plan : TestPlan W) (finish : Monitored W → Option R) (mode : List ℕ) (size : ℕ) (gm : List ℕ)
      (a : TestAnswers W) (log : Log)
      → AtMostOne log
      → let out = run_test plan finish mode size gm a log in
        AtMostOne out.0 × LeftBy (first_wait a) out.1 (running out.0)
  unfolding run_test
  run_test-servers plan finish mode size gm a log fine =
      let (zero_left, fine') = clear_gpu_processes-running W a.gpu log fine in
      after_gpu-Leaves plan finish mode size gm a (clear_gpu_processes a.gpu log) zero_left fine'
