-- ===== src/Sweep/Kv/Blocks.antt =====
-- What the sweep's `_get_vllm_kv_stats` reports of the KV blocks.
use cachegen_plus.Base.{
  ℕ, ◌≡◌, List, Option, none, some, ◌==◌, or_default, Option-cases, Bool-cases, inl, inr,
}
use cachegen_plus.Base.Int.{ℤ, pos, ◌+ℤ◌, ◌-ℤ◌, int_laws}
use cachegen_plus.Float.{Float}
use cachegen_plus.Text.Pattern.{search_first}
use cachegen_plus.Answer.{HttpReply, unreachable, reply}
use cachegen_plus.Vram.Kv.{float_or, usage_pattern}
use cachegen_plus.Sweep.Kv.{SweepKvStats, utilization_pattern, sweep_page_stats, sweep_kv_stats}

module _ (W : Type 0) ⦃f : Float W⦄ where
  -- The values that `measure` takes from the dict, with its defaults.
  abbrev pub Divided : SweepKvStats W → Type 0
  Divided s =
      or_default (pos 0) s.blocks_used +ℤ pos (or_default 0 s.blocks_free) ≡ pos s.blocks_total

  nothing_divided : pos 0 +ℤ pos 0 ≡ pos 0
  nothing_divided = omega int_laws

  back : (a b : ℤ) → a -ℤ b +ℤ b ≡ a
  back a b = omega int_laws

  abbrev Every : Option (SweepKvStats W) → Type 0
  Every none = Unit
  Every (some s) = Divided s

  or_default-Divided :
      (default : SweepKvStats W) (o : Option (SweepKvStats W))
      → Divided default
      → Every o
      → Divided (or_default default o)
  or_default-Divided d none h every = h
  or_default-Divided d (some s) h every = every

  page_divided : (text : List ℕ) → Every (sweep_page_stats text)
  unfolding sweep_page_stats
  page_divided text =
      elim (Option-cases (float_or (f.decimal 7 1) (search_first utilization_pattern text))) [
        | inl bad ↦ rw bad tt
        | inr (util, e) ↦
            elim (Option-cases (float_or f.nought (search_first usage_pattern text))) [
              | inl bad ↦ rw (e, bad) tt
              | inr (ratio, d) ↦ rw (e, d) (back _ _)
            ]
      ]

  -- Whatever vLLM answers, the used and the free blocks that the sweep takes from its metrics add
  -- up to the total.
  pub sweep_kv_stats-blocks :
      (r : HttpReply)
      → let s : SweepKvStats W = sweep_kv_stats r in
        or_default (pos 0) s.blocks_used +ℤ pos (or_default 0 s.blocks_free) ≡ pos s.blocks_total
  unfolding sweep_kv_stats
  sweep_kv_stats-blocks unreachable = nothing_divided
  sweep_kv_stats-blocks (reply status text) = elim (Bool-cases (status == 200)) [
    | inl good ↦
        rw good (or_default-Divided _ (sweep_page_stats text) nothing_divided (page_divided text))
    | inr bad ↦ rw bad nothing_divided
  ]
