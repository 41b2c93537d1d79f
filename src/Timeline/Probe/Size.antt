-- ===== src/Timeline/Probe/Size.antt =====
-- `get_disk_size` counts the bytes of every file once, and clearing leaves none.
use cachegen_plus.Base.{ℕ, ◌≡◌, refl, ap, ◌∙◌, List, [], ◌∷◌, none, some, Option}
use cachegen_plus.Disk.{
  Node, file, dir, broken, Entries, walk, count_file, count_files, count_all, get_disk_usage,
}
use cachegen_plus.Disk.Usage.{usage_entries, get_disk_usage-dir}
use cachegen_plus.Timeline.Probe.{add_sizes, add_all, get_disk_size}

add_sizes-count_files : (acc : ℕ × ℕ) (ns : List Node) → add_sizes acc.1 ns ≡ (count_files acc ns).1
add_sizes-count_files acc [] = refl
add_sizes-count_files acc (file size ∷ ns) = add_sizes-count_files (count_file acc (file size)) ns
add_sizes-count_files acc (dir es ∷ ns) = add_sizes-count_files acc ns
add_sizes-count_files acc (broken ∷ ns) = add_sizes-count_files acc ns

add_all-count_all :
    (acc : ℕ × ℕ) (rest : List (List Node)) → add_all acc.1 rest ≡ (count_all acc rest).1
add_all-count_all acc [] = refl
add_all-count_all acc (ns ∷ rest) =
    ap (λ total. add_all total rest) (add_sizes-count_files acc ns)
    ∙ add_all-count_all (count_files acc ns) rest

-- `get_disk_size` of run_full_sweep.py is the second number of `get_disk_usage` of
-- run_vram_experiment.py at every path.
pub get_disk_size-get_disk_usage :
    (path : Option Node) → get_disk_size path ≡ (get_disk_usage path).1
unfolding get_disk_size get_disk_usage
get_disk_size-get_disk_usage none = refl
get_disk_size-get_disk_usage (some n) = add_all-count_all (0, 0) (walk n)

pub get_disk_size-dir : (es : Entries) → get_disk_size (some (dir es)) ≡ (usage_entries es).1
get_disk_size-dir es =
    get_disk_size-get_disk_usage (some (dir es)) ∙ ap (λ u. u.1) (get_disk_usage-dir es)
