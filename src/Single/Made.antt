-- ===== src/Single/Made.antt =====
-- A result of a single test comes from the values of its monitor.

use mathlib.Core.Option.{some-injective}
use cachegen_plus.Base.{ℕ, ◌≡◌, refl, List, Option, none, some, Bool-cases, inl, inr}
use cachegen_plus.Float.{Float}
use cachegen_plus.Disk.{Node, sweep_clear_lmcache_disk}
use cachegen_plus.Host.{Log}
use cachegen_plus.Sweep.Experiment.{clear_gpu_processes}
use cachegen_plus.Single.{
  TestPlan, TestAnswers, Monitored, first_wait, second_wait, monitored, after_finish, after_monitor,
  after_start, after_disk, after_gpu, run_test,
}

module _ (W : Type 0) ⦃f : Float W⦄ {R : Type 0} where
  -- A result is what the script made of the values of the monitor.
  abbrev pub Made : TestPlan W → (Monitored W → Option R) → List ℕ → ℕ → TestAnswers W → R → Type 0
  Made plan finish mode size a r =
      (m : Monitored W) × (monitored plan mode size a ≡ some m) × (finish m ≡ some r)

  after_finish-result :
      (log : Log) (o : Option R) {r : R} → (after_finish log o).1 ≡ some (some r) → o ≡ some r
  after_finish-result log none e = cc
  after_finish-result log (some x) e = some-injective _ _ e

  after_monitor-result :
      (plan : TestPlan W) (finish : Monitored W → Option R) (log : Log) (o : Option (Monitored W))
      {r : R}
      → (after_monitor plan finish log o).1 ≡ some (some r)
      → (m : Monitored W) × (o ≡ some m) × (finish m ≡ some r)
  after_monitor-result plan finish log none e = let impossible = e in cc impossible
  after_monitor-result plan finish log (some m) e = (m, refl, after_finish-result _ (finish m) e)

  after_start-result :
      (plan : TestPlan W) (finish : Monitored W → Option R) (mode : List ℕ) (size : ℕ)
      (a : TestAnswers W) (log : Log) {r : R}
      → (after_start plan finish mode size a log).1 ≡ some (some r)
      → Made plan finish mode size a r
  after_start-result plan finish mode size a log = elim (Bool-cases (first_wait a)) [
    | inr down ↦ rw down (λ e. let impossible = e in cc impossible)
    | inl up ↦ elim (Bool-cases (second_wait a)) [
      | inr lost ↦ rw (up, lost) (λ e. let impossible = e in cc impossible)
      | inl kept ↦
          rw (up, kept) (λ e. after_monitor-result plan finish _ (monitored plan mode size a) e)
    ]
  ]

  after_disk-result :
      (plan : TestPlan W) (finish : Monitored W → Option R) (mode : List ℕ) (size : ℕ) (gm : List ℕ)
      (a : TestAnswers W) (log : Log) (left : Option Node) {r : R}
      → (after_disk plan finish mode size gm a log left).1 ≡ some (some r)
      → Made plan finish mode size a r
  after_disk-result plan finish mode size gm a log none e = let impossible = e in cc impossible
  after_disk-result plan finish mode size gm a log (some left) e =
      after_start-result plan finish mode size a _ e

  after_gpu-result :
      (plan : TestPlan W) (finish : Monitored W → Option R) (mode : List ℕ) (size : ℕ) (gm : List ℕ)
      (a : TestAnswers W) (cleaned : Log × Option W) {r : R}
      → (after_gpu plan finish mode size gm a cleaned).1 ≡ some (some r)
      → Made plan finish mode size a r
  after_gpu-result plan finish mode size gm a (log, none) e = let impossible = e in cc impossible
  after_gpu-result plan finish mode size gm a (log, some used) e =
      after_disk-result plan finish mode size gm a _ (sweep_clear_lmcache_disk a.disk_found) e

  pub run_test-result :
      (plan : TestPlan W) (finish : Monitored W → Option R) (mode : List ℕ) (size : ℕ) (gm : List ℕ)
      (a : TestAnswers W) (log : Log) {r : R}
      → (run_test plan finish mode size gm a log).1 ≡ some (some r)
      → Made plan finish mode size a r
  unfolding run_test
  run_test-result plan finish mode size gm a log e =
      after_gpu-result plan finish mode size gm a (clear_gpu_processes a.gpu log) e
