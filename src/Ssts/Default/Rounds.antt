-- ===== src/Ssts/Default/Rounds.antt =====
-- The loop of allocate.rs and its rounds.
use moqtail.Prelude.{
  ℕ, zero, suc, ◌+◌, ◌<◌, ◌≤◌, ◌≡◌, refl, List, [], ◌∷◌, ◌++◌, map, some, length, if◌then◌else◌,
  Bool-cases, inl, inr, arith,
}
use moqtail.Ssts.Backpressure.{SetSnapshot}
use moqtail.Ssts.Default.{
  Contender, total_weight, choose, saturated, any_saturated, shrink, retire, split, tier_of, spend,
  allocate_ranks,
}

count : List Contender → ℕ
count [] = 0
count (c ∷ cs) = (if c.contending then 1 else 0) + count cs

count-choose :
    (pool total : ℕ) (cs : List Contender) → count (map (choose pool total) cs) ≡ count cs
unfolding count choose
count-choose pool total [] = refl
count-choose pool total (c ∷ cs) = ground (arith, count-choose pool total cs)

count-retire :
    (cs : List Contender) → count (map retire cs) + (if any_saturated cs then 1 else 0) ≤ count cs
unfolding count retire any_saturated saturated
count-retire [] = omega arith
count-retire (c ∷ cs) = ground (arith, count-retire cs)

count-le : (cs : List Contender) → count cs ≤ length cs
unfolding count
count-le [] = omega arith
count-le (c ∷ cs) = ground (arith, count-le cs)

-- One round more than there are sets that contend is enough.
split_returns :
    (rounds pool : ℕ) (cs : List Contender)
    → count cs < rounds
    → (ds : List Contender) × (split rounds pool cs ≡ some ds)
unfolding split
split_returns zero pool cs h = absurd (omega arith)
split_returns (suc rounds) pool cs h =
    let chosen = map (choose pool (total_weight cs)) cs in
    elim (Bool-cases (any_saturated chosen)) [
      | inl e ↦
          let (ds, found) =
            split_returns rounds (shrink pool chosen) (map retire chosen)
              (ground (arith, e, count-retire chosen, count-choose pool (total_weight cs) cs)) in
          (ds, rw e found)
      | inr e ↦ (chosen, rw e refl)
    ]

pub allocate_ranks_returns :
    (ranks : List ℕ) (budget : ℕ) (sets : List SetSnapshot)
    → (cs : List Contender) × (allocate_ranks ranks budget sets ≡ some cs)
unfolding allocate_ranks
allocate_ranks_returns [] budget sets = ([], refl)
allocate_ranks_returns (rank ∷ ranks) budget sets =
    let tier = tier_of rank sets in
    let (cs, found) =
      split_returns (suc (length tier)) budget tier (omega (arith, count-le tier)) in
    let (rest, found') = allocate_ranks_returns ranks (spend budget cs) sets in
    (cs ++ rest, rw (found, found') refl)
