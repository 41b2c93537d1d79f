-- ===== src/Server/Paths.antt =====
-- The cache directory named after the mode against the one that `start_vllm` makes, in
-- tkdgjs/experiment/run_vram_experiment.py.
use mathlib.Core.List.{append_cancel_left, append_cancel_right}
use cachegen_plus.Base.{
  ℕ, ◌≡◌, refl, ap, sym, ◌∙◌, ◌↔◌, ◌⊎◌, inl, inr, true, false, List, [], ◌∷◌, ◌++◌, arith,
  Bool-cases,
}
use cachegen_plus.Text.{codes}
use cachegen_plus.Server.{experiment_dir, disk_path, same_codes, launch, create_lmcache_config}

pub same_codes_iff : (xs ys : List ℕ) → (same_codes xs ys ≡ true) ↔ (xs ≡ ys)
unfolding same_codes
same_codes_iff [] [] = (λ _. refl, λ _. refl)
same_codes_iff [] (d ∷ ds) = (λ h. cc, λ h. cc)
same_codes_iff (c ∷ cs) [] = (λ h. cc, λ h. cc)
same_codes_iff (c ∷ cs) (d ∷ ds) = ground (arith, same_codes_iff cs ds)

pub disk_path-injective : (s t : List ℕ) → disk_path s ≡ disk_path t → s ≡ t
disk_path-injective s t e =
    append_cancel_left (experiment_dir ++ codes "/lmcache_") s t
      (append_cancel_right _ _ (codes "_disk") e)

launch_cachegen :
    (mode : List ℕ)
    → mode ≡ codes "cachegen"
    → (launch mode).cache_disk ≡ disk_path (codes "cachegen")
unfolding launch
launch_cachegen mode e = rw ((same_codes_iff mode (codes "cachegen")).1 e)

launch_other :
    (mode : List ℕ)
    → same_codes mode (codes "cachegen") ≡ false
    → (launch mode).cache_disk ≡ disk_path (codes "torch")
unfolding launch create_lmcache_config
launch_other mode e = rw e

-- The directory that `start_vllm` makes for the server of a mode is the one with the name of the mode
-- exactly if this is "cachegen" or "torch".
pub disk_path-launch :
    (mode : List ℕ)
    → (disk_path mode ≡ (launch mode).cache_disk)
      ↔ ((mode ≡ codes "cachegen") ⊎ (mode ≡ codes "torch"))
disk_path-launch mode = elim (Bool-cases (same_codes mode (codes "cachegen"))) [
  | inl is_cachegen ↦
      let e = (same_codes_iff mode (codes "cachegen")).0 is_cachegen in
      (λ _. inl e, λ _. ap disk_path e ∙ sym (launch_cachegen mode e))
  | inr other ↦ (
    λ h. inr (disk_path-injective mode (codes "torch") (h ∙ launch_other mode other)),
    λ h. elim h [
      | inl e ↦ let same = (same_codes_iff mode (codes "cachegen")).1 e in cc
      | inr e ↦ ap disk_path e ∙ sym (launch_other mode other)
    ],
  )
]
