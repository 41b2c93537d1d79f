-- ===== src/Sweep/Layout/Total.antt =====
-- The regions that the printed layout lists, against the validated sum.
use cachegen_plus.Base.{
  ◌≡◌, refl, sym, ap, ◌∙◌, Bool, true, false, List, [], ◌∷◌, Option, none, some, Bool-cases, inl,
  inr, ℕ,
}
use cachegen_plus.Float.{Float, IsExact, ◌⊕◌, ◌⊖◌}
use cachegen_plus.Sweep.Measure.{
  Snapshot, SweepReadings, Buffers, no_buffers, estimated_buffers, take_buffers, sweep_snapshot,
  sweep_measure,
}
use cachegen_plus.Sweep.Layout.{to_layout_dict}

module _ (W : Type 0) ⦃f : Float W⦄ (laws : IsExact W) where
  open laws use {add_comm, add_assoc, add-nought}

  abbrev pub layout_total : List (List ℕ × W) → W
  layout_total [] = f.nought
  layout_total ((name, gb) ∷ rest) = gb ⊕ layout_total rest

  -- The total of the buffers is their sum.
  abbrev Summed : Buffers W → Type 0
  Summed b = b.encoder ⊕ (b.decoder ⊕ (b.compressed ⊕ f.nought)) ≡ b.total

  no_buffers-Summed : Summed no_buffers
  no_buffers-Summed =
      ap (λ x. f.nought ⊕ (f.nought ⊕ x)) (add-nought f.nought)
      ∙ ap (λ x. f.nought ⊕ x) (add-nought f.nought)
      ∙ add-nought f.nought

  estimated_buffers-Summed : (increase : W) → Summed (estimated_buffers increase)
  estimated_buffers-Summed increase =
      ap (λ x. f.decimal 8 2 ⊕ (f.decimal 6 2 ⊕ x)) (add-nought _) ∙ sym (add_assoc _ _ _)

  take_buffers-Summed :
      (is_cachegen : Bool) (baseline : Option (Snapshot W)) (used cuda : W)
      → Summed (take_buffers is_cachegen baseline used cuda).0
  unfolding take_buffers
  take_buffers-Summed false baseline used cuda = no_buffers-Summed
  take_buffers-Summed true none used cuda = no_buffers-Summed
  take_buffers-Summed true (some base) used cuda =
      elim (Bool-cases (f.lt (f.decimal 1 1) (used ⊖ base.used_vram_gb))) [
        | inl more ↦ rw more (estimated_buffers-Summed (used ⊖ base.used_vram_gb))
        | inr same ↦ rw same no_buffers-Summed
      ]

  swap : (a b r : W) → a ⊕ (b ⊕ r) ≡ a ⊕ r ⊕ b
  swap a b r = ap (λ x. a ⊕ x) (add_comm b r) ∙ sym (add_assoc a r b)

  flatten : (w u act c t : W) → w ⊕ (u ⊕ (act ⊕ (c ⊕ t))) ≡ w ⊕ u ⊕ act ⊕ c ⊕ t
  flatten w u act c t =
      sym (add_assoc w u (act ⊕ (c ⊕ t)))
      ∙ sym (add_assoc (w ⊕ u) act (c ⊕ t))
      ∙ sym (add_assoc (w ⊕ u ⊕ act) c t)

  listed :
      (w al u act c t total : W)
      → t ≡ total
      → w ⊕ (al ⊕ (u ⊕ (act ⊕ (c ⊕ t)))) ≡ w ⊕ u ⊕ act ⊕ c ⊕ total ⊕ al
  listed w al u act c t total e =
      swap w al _ ∙ ap (λ x. x ⊕ al) (flatten w u act c t ∙ ap (λ x. w ⊕ u ⊕ act ⊕ c ⊕ x) e)

  take_buffers_off :
      (baseline : Option (Snapshot W)) (used cuda : W)
      → (take_buffers false baseline used cuda).0.total ≡ f.nought
  unfolding take_buffers
  take_buffers_off baseline used cuda = refl

  -- With exact floats, the regions of a measured snapshot that the layout lists, in either mode, add
  -- up to the validated sum and the allocated KV memory on top of it.
  pub to_layout_dict-total :
      (is_cachegen : Bool) (baseline : Option (Snapshot W)) (r : SweepReadings)
      → let s = sweep_measure baseline is_cachegen r in
        layout_total (to_layout_dict s) ≡ s.sum_validated_gb ⊕ s.vllm_kv_cache_allocated_gb
  unfolding to_layout_dict sweep_measure sweep_snapshot
  to_layout_dict-total false baseline r = listed _ _ _ _ _ _ _ (sym (take_buffers_off baseline _ _))
  to_layout_dict-total true baseline r =
      listed _ _ _ _ _ _ _ (take_buffers-Summed true baseline _ _)
