-- ===== src/Sweep/Experiment/Paths.antt =====
-- The cache directory named after the mode against the one that the sweep makes for its server.
use cachegen_plus.Base.{ℕ, ◌≡◌, ap, sym, ◌∙◌, ◌↔◌, ◌⊎◌, inl, inr, true, false, List, Bool-cases}
use cachegen_plus.Text.{codes}
use cachegen_plus.Server.{disk_path, same_codes}
use cachegen_plus.Server.Paths.{same_codes_iff, disk_path-injective}
use cachegen_plus.Sweep.Experiment.{sweep_launch}

sweep_launch_cachegen :
    (mode gm : List ℕ)
    → same_codes mode (codes "cachegen") ≡ true
    → (sweep_launch mode gm).cache_disk ≡ disk_path (codes "cachegen")
unfolding sweep_launch
sweep_launch_cachegen mode gm e = rw e

sweep_launch_other :
    (mode gm : List ℕ)
    → same_codes mode (codes "cachegen") ≡ false
    → (sweep_launch mode gm).cache_disk ≡ disk_path (codes "torch")
unfolding sweep_launch
sweep_launch_other mode gm e = rw e

-- The directory that the sweep makes for the server of a mode, with any memory utilization, is the one
-- with the name of the mode exactly if this is "cachegen" or "torch".
pub disk_path-sweep_launch :
    (mode gm : List ℕ)
    → (disk_path mode ≡ (sweep_launch mode gm).cache_disk)
      ↔ ((mode ≡ codes "cachegen") ⊎ (mode ≡ codes "torch"))
disk_path-sweep_launch mode gm = elim (Bool-cases (same_codes mode (codes "cachegen"))) [
  | inl same ↦
      let e = (same_codes_iff mode (codes "cachegen")).0 same in
      (λ _. inl e, λ _. ap disk_path e ∙ sym (sweep_launch_cachegen mode gm same))
  | inr other ↦ (
    λ h. inr (disk_path-injective mode (codes "torch") (h ∙ sweep_launch_other mode gm other)),
    λ h. elim h [
      | inl e ↦ let same = (same_codes_iff mode (codes "cachegen")).1 e in cc
      | inr e ↦ ap disk_path e ∙ sym (sweep_launch_other mode gm other)
    ],
  )
]
