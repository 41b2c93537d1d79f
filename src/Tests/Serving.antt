-- ===== src/Tests/Serving.antt =====
-- The server's start and the cache directory.
use cachegen_plus.Base.{◌≡◌, refl, ◌⊎◌, true, false, some, arith}
use cachegen_plus.Disk.{Node, dir, get_disk_usage, walk, sweep_clear_lmcache_disk}
use cachegen_plus.Disk.Usage.{usage_entries, below_entries, get_disk_usage-dir}
use cachegen_plus.Disk.Clear.{get_disk_usage-sweep_clear}
use cachegen_plus.Server.{wait_for_vllm, wait_from}
use cachegen_plus.Server.Wait.{Answers, wait_for_vllm_ends}
use cachegen_plus.Tests.Data.{clock, replies, cache}

ready_at_the_fourth : wait_for_vllm clock replies 0 180000 91 ≡ some true
unfolding wait_for_vllm wait_from
ready_at_the_fourth = refl

too_late : wait_for_vllm clock replies 0 6000 91 ≡ some false
unfolding wait_for_vllm wait_from
too_late = refl

wait_for_vllm_ends_example :
    ((wait_for_vllm clock replies 0 180000 91 ≡ some true) × Answers clock replies 0 180000 0)
    ⊎ ((wait_for_vllm clock replies 0 180000 91 ≡ some false) × ¬ Answers clock replies 0 180000 0)
wait_for_vllm_ends_example =
    wait_for_vllm_ends clock replies 0 180000 (λ k. omega arith) 90 (omega arith) (omega arith)

three_files : get_disk_usage (some (dir cache)) ≡ (3, 142)
unfolding get_disk_usage walk
three_files = refl

get_disk_usage-dir_example : get_disk_usage (some (dir cache)) ≡ usage_entries cache
get_disk_usage-dir_example = get_disk_usage-dir cache

get_disk_usage-sweep_clear_example :
    (left : Node) × (sweep_clear_lmcache_disk (some (dir cache)) ≡ some left)
    × (get_disk_usage (some left) ≡ below_entries cache)
get_disk_usage-sweep_clear_example = get_disk_usage-sweep_clear cache
