-- ===== src/Disk/Clear.antt =====
-- What `clear_lmcache_disk` leaves behind.
use cachegen_plus.Base.{◌≡◌, refl, ◌∙◌, Option, none, some, arith}
use mathlib.Core.Path.{subst}
use mathlib.Core.Option.{some-injective}
use cachegen_plus.Disk.Usage.{usage_entries, below_entries, get_disk_usage-dir}
use cachegen_plus.Disk.{
  Node, file, dir, broken, Entries, end, entry, get_disk_usage, clear_entries, clear_lmcache_disk,
  sweep_clear_entries, sweep_clear_lmcache_disk,
}

clear_entries-usage : (es : Entries) → usage_entries (clear_entries es) ≡ (0, 0)
unfolding clear_entries
clear_entries-usage end = refl
clear_entries-usage (entry name (file size) es) = clear_entries-usage es
clear_entries-usage (entry name (dir inside) es) = clear_entries-usage es
clear_entries-usage (entry name broken es) = ground (arith, clear_entries-usage es)

-- Where `clear_lmcache_disk` does not raise, no file is left: `get_disk_usage` is (0, 0) after it.
pub get_disk_usage-clear :
    (path : Option Node) {left : Node}
    → clear_lmcache_disk path ≡ some left
    → get_disk_usage (some left) ≡ (0, 0)
unfolding clear_lmcache_disk
get_disk_usage-clear none e =
    subst (λ n. get_disk_usage (some n) ≡ (0, 0)) (some-injective _ _ e) (get_disk_usage-dir end)
get_disk_usage-clear (some (dir es)) e =
    subst (λ n. get_disk_usage (some n) ≡ (0, 0)) (some-injective _ _ e)
      (get_disk_usage-dir (clear_entries es) ∙ clear_entries-usage es)
get_disk_usage-clear (some _) e = cc

sweep_clear_entries-usage :
    (es : Entries) → usage_entries (sweep_clear_entries es) ≡ below_entries es
unfolding sweep_clear_entries
sweep_clear_entries-usage end = refl
sweep_clear_entries-usage (entry name (file size) es) = sweep_clear_entries-usage es
sweep_clear_entries-usage (entry name (dir inside) es) =
    ground (arith, sweep_clear_entries-usage es)
sweep_clear_entries-usage (entry name broken es) = ground (arith, sweep_clear_entries-usage es)

-- The sweep's `clear_lmcache_disk` removes only the files of the directory itself: what lies in its
-- subdirectories is still counted by `get_disk_usage` after it.
pub get_disk_usage-sweep_clear :
    (es : Entries)
    → (left : Node) × (sweep_clear_lmcache_disk (some (dir es)) ≡ some left)
      × (get_disk_usage (some left) ≡ below_entries es)
unfolding sweep_clear_lmcache_disk
get_disk_usage-sweep_clear es = (
  dir (sweep_clear_entries es),
  refl,
  get_disk_usage-dir (sweep_clear_entries es) ∙ sweep_clear_entries-usage es,
)
