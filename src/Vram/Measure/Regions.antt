-- ===== src/Vram/Measure/Regions.antt =====
-- The sum of the regions of a snapshot against the memory in use.
use cachegen_plus.Base.{◌≡◌, ◌∙◌, true, false, ◌||◌, Option, none, arith, Bool-cases, inl, inr}
use cachegen_plus.Float.{Float, IsExact, ◌⊕◌, ◌⊖◌, ◌⊑◌, max_of}
use cachegen_plus.Vram.Kv.{KvStats, kv_stats}
use cachegen_plus.Vram.Gpu.{nvidia_smi_memory, torch_memory}
use cachegen_plus.Vram.Measure.{
  VramSnapshot, Readings, is_set, fits, snapshot_of, measure, settle, first_shares, activation,
}

module _ (W : Type 0) ⦃f : Float W⦄ (laws : IsExact W) where
  open laws use {ordered, add_comm, add-nought, add-sub, sub-sub, sub_self, lt-sub}

  -- What is left over, if anything is, fills the sum up to the whole.
  pub fill_up : (part whole : W) → part ⊕ max_of f.nought (whole ⊖ part) ≡ max_of part whole
  fill_up part whole = ground (arith, lt-sub part whole, add-sub part whole, add-nought part)

  fill_up_three :
      (model kv act used : W)
      → model ⊕ kv ⊕ act ⊕ max_of f.nought (used ⊖ model ⊖ kv ⊖ act)
        ≡ max_of (model ⊕ kv ⊕ act) used
  fill_up_three model kv act used =
      rw (sub-sub used model kv, sub-sub used (model ⊕ kv) act) (fill_up (model ⊕ kv ⊕ act) used)

  pub no_difference : (part used : W) → part ⊑ used → used ⊖ max_of part used ≡ f.nought
  no_difference part used h =
      ground (arith, sub_self used, ordered.lt-eq-not-le part used, ordered.le_antisymm part used)

  -- With exact floats: with a baseline, or where the allocated KV memory is positive and fits in
  -- the used memory, the regions add up to the used memory, or to the first three regions where
  -- these are already more; in the first case the reported difference is 0.
  pub measure-sum :
      (baseline : Option (VramSnapshot W)) (r : Readings)
      → (is_set baseline
          || fits (kv_stats {W = W} r.metrics).allocated_gb (nvidia_smi_memory r.smi).used)
        ≡ true
      → let s = measure baseline r in
        (s.sum_validated_gb
          ≡ max_of
              (s.model_weights_gb ⊕ s.vllm_kv_cache_used_gb ⊕ s.activation_tensors_gb)
              s.used_vram_gb)
        × (s.model_weights_gb ⊕ s.vllm_kv_cache_used_gb ⊕ s.activation_tensors_gb ⊑ s.used_vram_gb
            → s.sum_diff_gb ≡ f.nought)
  unfolding measure snapshot_of settle
  measure-sum baseline r inside =
      rw inside (fill_up_three _ _ _ _, λ h. rw (fill_up_three _ _ _ _) (no_difference _ _ h))

  pub refill : (kv used : W) → kv ⊑ used → max_of f.nought (used ⊖ kv) ⊕ kv ≡ used
  refill kv used fit = elim (Bool-cases (f.lt kv used)) [
    | inl below ↦ ground (arith, lt-sub kv used, add-sub kv used, add_comm (used ⊖ kv) kv)
    | inr above ↦ ground (
      arith,
      lt-sub kv used,
      add-nought kv,
      add_comm f.nought kv,
      ordered.lt-eq-not-le kv used,
      ordered.le_antisymm kv used,
    )
  ]

  max_of-add : (used act : W) → f.nought ⊑ act → max_of (used ⊕ act) used ≡ used ⊕ act
  max_of-add used act h = ground (
    arith,
    lt-sub (used ⊕ act) used,
    sub-sub used used act,
    sub_self used,
    lt-sub act f.nought,
    ordered.lt-eq-not-le act f.nought,
  )

  -- With exact floats, on the first measurement, where the allocated KV memory is positive and fits
  -- in the used memory and no usage ratio is reported: the weights and the KV cache already make up
  -- the used memory, so any activation memory makes the sum exceed it by just that.
  pub measure-sum_first :
      (r : Readings)
      → let kv : KvStats W = kv_stats r.metrics in
        let used = (nvidia_smi_memory {W = W} r.smi).used in
        f.lt f.nought kv.allocated_gb ≡ true
        → kv.allocated_gb ⊑ used
        → f.lt f.nought kv.usage_ratio ≡ false
        → let s : VramSnapshot W = measure none r in
          (s.model_weights_gb ⊕ s.vllm_kv_cache_used_gb ≡ used)
          × (f.nought ⊑ s.activation_tensors_gb
              → s.sum_validated_gb ≡ used ⊕ s.activation_tensors_gb)
  unfolding measure snapshot_of settle first_shares activation
  measure-sum_first r held fit no_ratio =
      let used = (nvidia_smi_memory {W = W} r.smi).used in
      let kv = (kv_stats {W = W} r.metrics).allocated_gb in
      let act = (torch_memory {W = W} r.torch).peak_gb in
      rw (held, fit, no_ratio)
        (
          refill kv used fit,
          λ h.
              fill_up_three (max_of f.nought (used ⊖ kv)) kv act used
              ∙ rw (refill kv used fit) (max_of-add used act h),
        )
