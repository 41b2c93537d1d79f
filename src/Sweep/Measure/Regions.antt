-- ===== src/Sweep/Measure/Regions.antt =====
-- The sum of the regions of a sweep snapshot.
use cachegen_plus.Base.{
  ◌<◌, ◌≡◌, refl, sym, ap, ◌∙◌, Bool, true, false, none, some, lt→ltb, Bool-cases, inl, inr,
}
use cachegen_plus.Float.{Float, IsExact, ◌⊕◌, ◌⊖◌, ◌⊑◌, max_of}
use cachegen_plus.Vram.Gpu.{nvidia_smi_memory}
use cachegen_plus.Vram.Measure.Regions.{fill_up, no_difference, refill}
use cachegen_plus.Sweep.Kv.{sweep_kv_stats}
use cachegen_plus.Sweep.Measure.{
  Snapshot, SweepReadings, regions, take_buffers, no_buffers, estimated_buffers, weights_estimate,
  cuda_estimate, sweep_snapshot, sweep_measure,
}

module _ (W : Type 0) ⦃f : Float W⦄ where
  take_buffers_first :
      (is_cachegen : Bool) (used cuda : W)
      → take_buffers is_cachegen none used cuda ≡ (no_buffers, cuda)
  unfolding take_buffers
  take_buffers_first false used cuda = refl
  take_buffers_first true used cuda = refl

  module _ (laws : IsExact W) where
    open laws use {add_comm, add_assoc, add-nought, sub-sub}

    rearrange : (w kv act c : W) → w ⊕ kv ⊕ act ⊕ c ⊕ f.nought ≡ kv ⊕ w ⊕ c ⊕ act
    rearrange w kv act c =
        add-nought _
        ∙ add_assoc (w ⊕ kv) act c
        ∙ ap (λ x. w ⊕ kv ⊕ x) (add_comm act c)
        ∙ sym (add_assoc (w ⊕ kv) c act)
        ∙ ap (λ x. x ⊕ c ⊕ act) (add_comm w kv)

    -- With exact floats, on the first measurement of a server that reports blocks, in either mode:
    -- the sum is the used memory, or that of the KV cache with the two estimates where this is
    -- already more; in the first case the reported difference is 0.
    pub sweep_measure-sum :
        (is_cachegen : Bool) (r : SweepReadings)
        → 0 < (sweep_kv_stats {W = W} r.kv_page).blocks_total
        → let s : Snapshot W = sweep_measure none is_cachegen r in
          let known = s.vllm_kv_cache_used_gb ⊕ weights_estimate ⊕ cuda_estimate in
          (s.sum_validated_gb ≡ max_of known s.used_vram_gb)
          × (known ⊑ s.used_vram_gb → s.sum_diff_gb ≡ f.nought)
    unfolding sweep_measure sweep_snapshot regions
    sweep_measure-sum is_cachegen r some_blocks =
        let used = (nvidia_smi_memory {W = W} r.smi).used in
        let kv = (sweep_kv_stats {W = W} r.kv_page).used_gb in
        let known = kv ⊕ weights_estimate ⊕ cuda_estimate in
        let rest = used ⊖ kv ⊖ weights_estimate ⊖ cuda_estimate in
        let shorter : rest ≡ used ⊖ known =
          ap (λ x. x ⊖ cuda_estimate) (sub-sub used kv weights_estimate)
          ∙ sub-sub used (kv ⊕ weights_estimate) cuda_estimate in
        let sum =
          rearrange weights_estimate kv (max_of f.nought rest) cuda_estimate
          ∙ ap (λ x. known ⊕ max_of f.nought x) shorter
          ∙ fill_up W laws known used in
        rw (lt→ltb _ _ some_blocks, take_buffers_first is_cachegen used cuda_estimate)
          (sum, λ h. ap (λ x. used ⊖ x) sum ∙ no_difference W laws known used h)

    take_buffers-total :
        (base : Snapshot W) (used part : W)
        → let (buffers, cuda) = take_buffers true (some base) used base.cuda_runtime_gb in
          buffers.total ⊑ base.cuda_runtime_gb
          → part ⊕ cuda ⊕ buffers.total ≡ part ⊕ base.cuda_runtime_gb ⊕ f.nought
    unfolding take_buffers
    take_buffers-total base used part =
        let buffers = estimated_buffers (used ⊖ base.used_vram_gb) in
        elim (Bool-cases (f.lt (f.decimal 1 1) (used ⊖ base.used_vram_gb))) [
          | inl more ↦ rw more (λ fit.
              add_assoc part _ buffers.total
              ∙ ap (λ x. part ⊕ x) (refill W laws buffers.total base.cuda_runtime_gb fit)
              ∙ sym (add-nought _))
          | inr same ↦ rw same (λ fit. refl)
        ]

    -- With exact floats, after a baseline, the estimated CacheGen buffers are taken out of the CUDA
    -- runtime: as long as they are not more than it, the sum of the regions is the same with and
    -- without CacheGen.
    pub sweep_measure-buffers :
        (base : Snapshot W) (r : SweepReadings)
        → (sweep_measure (some base) true r).cachegen_total_gb ⊑ base.cuda_runtime_gb
        → (sweep_measure (some base) true r).sum_validated_gb
          ≡ (sweep_measure (some base) false r).sum_validated_gb
    unfolding sweep_measure sweep_snapshot regions take_buffers
    sweep_measure-buffers base r fit = take_buffers-total base _ _ fit
