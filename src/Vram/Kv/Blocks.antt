-- ===== src/Vram/Kv/Blocks.antt =====
-- What `_get_vllm_kv_stats` reports of the KV blocks.
use cachegen_plus.Base.{ℕ, ◌≡◌, refl, List, some, arith, Option-cases, inl, inr}
use cachegen_plus.Base.Int.{ℤ, pos, ◌+ℤ◌, ◌-ℤ◌, int_laws}
use cachegen_plus.Float.{Float}
use cachegen_plus.Answer.{HttpReply, unreachable, reply}
use cachegen_plus.Vram.Kv.{
  KvStats, divide_blocks, page_stats, kv_stats, total_blocks, free_blocks, usage,
}

module _ (W : Type 0) ⦃f : Float W⦄ where
  abbrev AddUp : KvStats W → Type 0
  AddUp s = s.blocks_used +ℤ s.blocks_free ≡ s.blocks_total

  +ℤ-sub : (a b : ℤ) → a +ℤ (b -ℤ a) ≡ b
  +ℤ-sub a b = omega int_laws

  -ℤ-add : (a b : ℤ) → a -ℤ b +ℤ b ≡ a
  -ℤ-add a b = omega int_laws

  divide_blocks_sum :
      (total free : ℕ) (ratio : W)
      → let (used, left) = divide_blocks total free ratio in used +ℤ left ≡ pos total
  unfolding divide_blocks
  divide_blocks_sum total free ratio = ground (
    arith,
    -ℤ-add (pos total) (pos free),
    +ℤ-sub (f.trunc (f.mul (f.of_int (pos total)) ratio)) (pos total),
  )

  page_stats_sum : (text : List ℕ) {s : KvStats W} → page_stats text ≡ some s → AddUp s
  unfolding page_stats
  page_stats_sum text h = elim (Option-cases (usage {W = W} text)) [
    | inl bad ↦ ground arith
    | inr (ratio, e) ↦
        ground (
          arith,
          divide_blocks_sum (total_blocks text) (free_blocks text (total_blocks text)) ratio,
        )
  ]

  nothing_adds_up : pos 0 +ℤ pos 0 ≡ pos 0
  unfolding ◌+ℤ◌
  nothing_adds_up = refl

  -- Whatever vLLM answers, the used and the free blocks add up to the total.
  pub kv_stats-blocks : (r : HttpReply) → AddUp (kv_stats r)
  unfolding kv_stats
  kv_stats-blocks unreachable = nothing_adds_up
  kv_stats-blocks (reply status text) = elim (Option-cases (page_stats {W = W} text)) [
    | inl bad ↦ rw bad (ground (arith, nothing_adds_up))
    | inr (s, e) ↦ rw e (ground (arith, nothing_adds_up, page_stats_sum text e))
  ]
