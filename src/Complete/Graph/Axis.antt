-- ===== src/Complete/Graph/Axis.antt =====
-- The numbers of tokens on the axes of the plots.
use cachegen_plus.Base.{
  ℕ, ◌<◌, ◌≡◌, refl, Bool, false, ◌||◌, List, [], ◌∷◌, arith, ◌==◌, All, dec_lt, ℕ_discrete,
}
use cachegen_plus.Complete.Graph.{insert_new, sorted_set}

-- Whether a number occurs.
abbrev pub occurs : ℕ → List ℕ → Bool
occurs n [] = false
occurs n (m ∷ ms) = n == m || occurs n ms

-- Every number is less than those behind it.
abbrev pub Increasing : List ℕ → Type 0
Increasing [] = Unit
Increasing (m ∷ ms) = All (λ k. m < k) ms × Increasing ms

insert_new-occurs : (k n : ℕ) (ms : List ℕ) → occurs k (insert_new n ms) ≡ (k == n || occurs k ms)
unfolding insert_new
insert_new-occurs k n [] = refl
insert_new-occurs k n (m ∷ ms) = ground (arith, insert_new-occurs k n ms)

All-insert_new :
    (b n : ℕ) (ms : List ℕ) → b < n → All (λ k. b < k) ms → All (λ k. b < k) (insert_new n ms)
unfolding insert_new
All-insert_new b n [] low all = (low, tt)
All-insert_new b n (m ∷ ms) low (first, rest) = elim (ℕ_discrete n m) [
  | yes same ↦ ground arith
  | no other ↦ elim (dec_lt n m) [
    | yes below ↦ ground arith
    | no above ↦ ground (arith, All-insert_new b n ms low rest)
  ]
]

All-less : (n m : ℕ) (ms : List ℕ) → n < m → All (λ k. m < k) ms → All (λ k. n < k) ms
All-less n m [] below all = tt
All-less n m (k ∷ ks) below (first, rest) = (omega arith, All-less n m ks below rest)

insert_new-Increasing : (n : ℕ) (ms : List ℕ) → Increasing ms → Increasing (insert_new n ms)
unfolding insert_new
insert_new-Increasing n [] h = (tt, tt)
insert_new-Increasing n (m ∷ ms) (all, rest) = elim (ℕ_discrete n m) [
  | yes same ↦ ground arith
  | no other ↦ elim (dec_lt n m) [
    | yes below ↦ ground (arith, All-less n m ms below all)
    | no above ↦
        ground (arith, All-insert_new m n ms (omega arith) all, insert_new-Increasing n ms rest)
  ]
]

-- `sorted(list(set(values)))` has the values, each once and in increasing order.
pub sorted_set-Increasing :
    (ns : List ℕ) → Increasing (sorted_set ns) × ((k : ℕ) → occurs k (sorted_set ns) ≡ occurs k ns)
unfolding sorted_set
sorted_set-Increasing [] = (tt, λ k. refl)
sorted_set-Increasing (n ∷ ns) =
    let (up, same) = sorted_set-Increasing ns in
    (
      insert_new-Increasing n (sorted_set ns) up,
      λ k. ground (arith, insert_new-occurs k n (sorted_set ns), same k),
    )
