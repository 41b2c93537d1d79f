-- ===== src/Disk.antt =====
-- The directory functions of tkdgjs/experiment/run_vram_experiment.py, and the variant of
-- tkdgjs/experiment/run_sweep_experiment.py, over a tree of files. Links to directories, which
-- `os.walk` does not enter, are left out.
pub mod Usage
pub mod Clear
use cachegen_plus.Base.{ℕ, ◌+◌, List, [], ◌∷◌, ◌++◌, Option, none, some}

mutual
  pub data Node : Type 0 where
    -- a file of a size in bytes
    file : ℕ → Node
    dir : Entries → Node
    -- a link to nothing: `exists`, `isfile` and `isdir` are all false
    broken : Node

  pub data Entries : Type 0 where
    end : Entries
    entry : List ℕ → Node → Entries → Entries

-- The `filenames` of a directory in `os.walk`: all that is no directory.
abbrev pub filenames : Entries → List Node
filenames end = []
filenames (entry name (dir es) rest) = filenames rest
filenames (entry name n rest) = n ∷ filenames rest

-- `os.walk` from the top: the file names of the directory, then those below each subdirectory.
unfoldable mutual
  pub walk : Node → List (List Node)
  walk (file size) = []
  walk broken = []
  walk (dir es) = filenames es ∷ walk_entries es

  pub walk_entries : Entries → List (List Node)
  walk_entries end = []
  walk_entries (entry name n es) = walk n ++ walk_entries es

abbrev pub count_file : ℕ × ℕ → Node → ℕ × ℕ
count_file (count, total) (file size) = (count + 1, total + size)
count_file acc (dir es) = acc
count_file acc broken = acc

-- The inner loop of `get_disk_usage`, over the names of one directory.
abbrev pub count_files : ℕ × ℕ → List Node → ℕ × ℕ
count_files acc [] = acc
count_files acc (n ∷ ns) = count_files (count_file acc n) ns

-- Its outer loop.
abbrev pub count_all : ℕ × ℕ → List (List Node) → ℕ × ℕ
count_all acc [] = acc
count_all acc (ns ∷ rest) = count_all (count_files acc ns) rest

-- The files under a path and their bytes; `none` is a path that does not exist.
unfoldable pub get_disk_usage : Option Node → ℕ × ℕ
get_disk_usage none = (0, 0)
get_disk_usage (some n) = count_all (0, 0) (walk n)

-- The loop of `clear_lmcache_disk`: files are removed, directories with all they hold.
unfoldable pub clear_entries : Entries → Entries
clear_entries end = end
clear_entries (entry name (file size) es) = clear_entries es
clear_entries (entry name (dir inside) es) = clear_entries es
clear_entries (entry name broken es) = entry name broken (clear_entries es)

-- `clear_lmcache_disk`; the outer `none` is the `NotADirectoryError` of `os.listdir`.
unfoldable pub clear_lmcache_disk : Option Node → Option Node
clear_lmcache_disk none = some (dir end)
clear_lmcache_disk (some (dir es)) = some (dir (clear_entries es))
clear_lmcache_disk (some _) = none

-- The loop in the sweep script, where the branch for directories tests `isfile` once more.
unfoldable pub sweep_clear_entries : Entries → Entries
sweep_clear_entries end = end
sweep_clear_entries (entry name (file size) es) = sweep_clear_entries es
sweep_clear_entries (entry name n es) = entry name n (sweep_clear_entries es)

-- `clear_lmcache_disk` of the sweep script
unfoldable pub sweep_clear_lmcache_disk : Option Node → Option Node
sweep_clear_lmcache_disk none = some (dir end)
sweep_clear_lmcache_disk (some (dir es)) = some (dir (sweep_clear_entries es))
sweep_clear_lmcache_disk (some _) = none
