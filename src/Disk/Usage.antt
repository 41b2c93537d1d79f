-- ===== src/Disk/Usage.antt =====
-- `get_disk_usage` counts every file of the tree once.
use cachegen_plus.Base.{ℕ, ◌+◌, ◌≡◌, refl, ap, ◌∙◌, List, [], ◌∷◌, ◌++◌, some, arith}
use cachegen_plus.Disk.{
  Node, file, dir, broken, Entries, end, entry, filenames, walk, walk_entries, count_files,
  count_all, get_disk_usage,
}

abbrev plus : ℕ × ℕ → ℕ × ℕ → ℕ × ℕ
plus a b = (a.0 + b.0, a.1 + b.1)

-- The files of a tree and their bytes, by recursion on the tree.
abbrev mutual
  pub usage : Node → ℕ × ℕ
  usage (file size) = (1, size)
  usage broken = (0, 0)
  usage (dir es) = usage_entries es

  pub usage_entries : Entries → ℕ × ℕ
  usage_entries end = (0, 0)
  usage_entries (entry name n es) = plus (usage n) (usage_entries es)

-- The files that are entries themselves.
abbrev pub here : Entries → ℕ × ℕ
here end = (0, 0)
here (entry name (file size) es) = plus (1, size) (here es)
here (entry name (dir inside) es) = here es
here (entry name broken es) = here es

-- The files below the subdirectories.
abbrev pub below_entries : Entries → ℕ × ℕ
below_entries end = (0, 0)
below_entries (entry name (dir inside) es) = plus (usage_entries inside) (below_entries es)
below_entries (entry name (file size) es) = below_entries es
below_entries (entry name broken es) = below_entries es

pub here_below : (es : Entries) → plus (here es) (below_entries es) ≡ usage_entries es
here_below end = ground arith
here_below (entry name (file size) es) = ground (arith, here_below es)
here_below (entry name (dir inside) es) = ground (arith, here_below es)
here_below (entry name broken es) = ground (arith, here_below es)

count_all-append :
    (xs ys : List (List Node)) (acc : ℕ × ℕ)
    → count_all acc (xs ++ ys) ≡ count_all (count_all acc xs) ys
count_all-append [] ys acc = refl
count_all-append (x ∷ xs) ys acc = count_all-append xs ys (count_files acc x)

count_files-filenames :
    (es : Entries) (acc : ℕ × ℕ) → count_files acc (filenames es) ≡ plus acc (here es)
count_files-filenames end acc = ground arith
count_files-filenames (entry name (file size) es) acc =
    count_files-filenames es (acc.0 + 1, acc.1 + size) ∙ ground arith
count_files-filenames (entry name (dir inside) es) acc = count_files-filenames es acc
count_files-filenames (entry name broken es) acc = count_files-filenames es acc

-- A directory, given the sum over what is below it.
count_all-walk_dir :
    (es : Entries) (acc : ℕ × ℕ)
    → ((acc : ℕ × ℕ) → count_all acc (walk_entries es) ≡ plus acc (below_entries es))
    → count_all acc (walk (dir es)) ≡ plus acc (usage_entries es)
unfolding walk
count_all-walk_dir es acc inner =
    ap (λ a. count_all a (walk_entries es)) (count_files-filenames es acc)
    ∙ inner (plus acc (here es))
    ∙ ground (arith, here_below es)

count_all-walk_entries :
    (es : Entries) (acc : ℕ × ℕ) → count_all acc (walk_entries es) ≡ plus acc (below_entries es)
unfolding walk
count_all-walk_entries end acc = ground arith
count_all-walk_entries (entry name (file size) es) acc = count_all-walk_entries es acc
count_all-walk_entries (entry name broken es) acc = count_all-walk_entries es acc
count_all-walk_entries (entry name (dir inside) es) acc =
    count_all-append (walk (dir inside)) (walk_entries es) acc
    ∙ ap (λ a. count_all a (walk_entries es))
        (count_all-walk_dir inside acc (count_all-walk_entries inside))
    ∙ count_all-walk_entries es (plus acc (usage_entries inside))
    ∙ ground arith

-- For a directory `get_disk_usage` returns the number of all files in it at any depth and the sum
-- of their sizes.
pub get_disk_usage-dir : (es : Entries) → get_disk_usage (some (dir es)) ≡ usage_entries es
unfolding get_disk_usage
get_disk_usage-dir es = count_all-walk_dir es (0, 0) (count_all-walk_entries es) ∙ ground arith
