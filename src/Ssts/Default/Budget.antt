-- ===== src/Ssts/Default/Budget.antt =====
-- The budget of allocate.rs: what the sets end up with, against what there was.
use moqtail.Prelude.{
  ◌<◌, ◌^◌, ◌==◌, ◌&&◌, ℕ, zero, suc, ◌+◌, ◌-◌, ◌*◌, ◌/◌, ◌≤◌, ◌≡◌, refl, min, max, List, [], ◌∷◌,
  ◌++◌, map, Bool, true, false, some, length, if◌then◌else◌, Bool-cases, Option-cases, inl, inr,
  arith,
}
use moqtail.Prelude.Options.{>>=-eq-some}
use moqtail.Ssts.Default.Rounds.{allocate_ranks_returns}
use native.Mathlib.Nat.{
  mod-eq_of_lt, div-mul-le_self, mul-le-mul_left, mul-le-mul_right, le_of_mul-le-mul_right,
  le_trans, add-mul, mul-add,
}
use moqtail.Ssts.Backpressure.{SetSnapshot}
use moqtail.Ssts.Default.{
  Member, find_last, Contender, saturating_mul, weight_sum, total_weight, choose, saturated,
  any_saturated, threshold_of, shrink, retire, split, tier_of, spend, allocate_ranks, dedup,
  sort_ranks, record_all, default_all, allocate,
}

-- The thresholds that sets which contend, or do not any more, have selected.
unfoldable pub claimed : Bool → List Contender → ℕ
claimed contending [] = 0
claimed true (c ∷ cs) = (if c.contending then threshold_of c.selection else 0) + claimed true cs
claimed false (c ∷ cs) = (if c.contending then 0 else threshold_of c.selection) + claimed false cs

-- The thresholds that all sets have selected.
unfoldable pub used : List Contender → ℕ
used [] = 0
used (c ∷ cs) = threshold_of c.selection + used cs

used-claimed : (cs : List Contender) → used cs ≡ claimed true cs + claimed false cs
unfolding used claimed
used-claimed [] = refl
used-claimed (c ∷ cs) = ground (arith, used-claimed cs)

used-append : (cs ds : List Contender) → used (cs ++ ds) ≡ used cs + used ds
unfolding used
used-append [] ds = omega arith
used-append (c ∷ cs) ds = omega (arith, used-append cs ds)

threshold-find_last : (target : ℕ) (ms : List Member) → threshold_of (find_last target ms) ≤ target
unfolding find_last
threshold-find_last target [] = omega arith
threshold-find_last target (m ∷ ms) = elim (Option-cases (find_last target ms)) [
  | inl e ↦ rw e (ground arith)
  | inr (x, e) ↦ rw e (ground (arith, threshold-find_last target ms, e))
]

-- What one set is given, times the weight of all, is at most the pool times its own weight.
share-le :
    (pool total : ℕ) (c : Contender)
    → threshold_of (find_last (saturating_mul pool c.set.weight / total) c.set.members) * total
      ≤ pool * c.set.weight
unfolding saturating_mul
share-le pool total c =
    let target = min (pool * c.set.weight) 0xffff_ffff_ffff_ffff / total in
    omega (
      arith,
      mul-le-mul_right total (threshold-find_last target c.set.members),
      div-mul-le_self (min (pool * c.set.weight) 0xffff_ffff_ffff_ffff) total,
    )

claimed-choose-false :
    (pool total : ℕ) (cs : List Contender)
    → claimed false (map (choose pool total) cs) ≡ claimed false cs
unfolding claimed choose
claimed-choose-false pool total [] = refl
claimed-choose-false pool total (c ∷ cs) = ground (arith, claimed-choose-false pool total cs)

-- The weights of the sets that contend, without a wrap.
unfoldable pub contending_weight : List Contender → ℕ
contending_weight [] = 0
contending_weight (c ∷ cs) = (if c.contending then c.set.weight else 0) + contending_weight cs

weight_sum-eq :
    (cs : List Contender) → contending_weight cs < 2 ^ 64 → weight_sum cs ≡ contending_weight cs
unfolding weight_sum contending_weight
weight_sum-eq [] h = refl
weight_sum-eq (c ∷ cs) h = let rest = weight_sum-eq cs (omega arith) in rw rest (mod-eq_of_lt h)

contending_weight-retire :
    (pool total : ℕ) (cs : List Contender)
    → contending_weight (map retire (map (choose pool total) cs)) ≤ contending_weight cs
unfolding contending_weight retire choose
contending_weight-retire pool total [] = omega arith
contending_weight-retire pool total (c ∷ cs) =
    ground (arith, contending_weight-retire pool total cs)

weighted-le :
    (pool total : ℕ) (cs : List Contender)
    → claimed true (map (choose pool total) cs) * total ≤ pool * contending_weight cs
unfolding claimed choose contending_weight
weighted-le pool total [] = omega arith
weighted-le pool total (c ∷ cs) = elim (Bool-cases c.contending) [
  | inl e ↦ rw e (
      omega (
        arith,
        add-mul (threshold_of (find_last (saturating_mul pool c.set.weight / total) c.set.members))
            (claimed true (map (choose pool total) cs)) total,
        mul-add pool c.set.weight (contending_weight cs),
        share-le pool total c,
        weighted-le pool total cs,
      ))
  | inr e ↦ rw e (omega (arith, weighted-le pool total cs))
]

-- The sets that contend never claim more than the pool.
claimed-choose-le :
    (pool : ℕ) (cs : List Contender)
    → contending_weight cs < 2 ^ 64
    → claimed true (map (choose pool (total_weight cs)) cs) ≤ pool
unfolding total_weight
claimed-choose-le pool cs h =
    let exact = weight_sum-eq cs h in
    le_of_mul-le-mul_right {k = max (weight_sum cs) 1}
      (le_trans (weighted-le pool (max (weight_sum cs) 1) cs) (mul-le-mul_left pool (omega arith)))
      (omega arith)

-- Retiring the saturated sets moves what they claim, and the pool shrinks by as much.
shrink-retire :
    (cs : List Contender) (pool : ℕ)
    → claimed true cs ≤ pool
    → shrink pool cs + claimed false (map retire cs) ≤ pool + claimed false cs
unfolding shrink retire claimed saturated
shrink-retire [] pool h = omega arith
shrink-retire (c ∷ cs) pool h =
    ground (arith, shrink-retire cs (pool - threshold_of c.selection), shrink-retire cs pool)

-- At the end the sets use no more than the pool and what was claimed before.
used-split :
    (rounds pool : ℕ) (cs ds : List Contender)
    → contending_weight cs < 2 ^ 64
    → split rounds pool cs ≡ some ds
    → used ds ≤ pool + claimed false cs
unfolding split
used-split zero pool cs ds w h = cc
used-split (suc rounds) pool cs ds w h =
    let chosen = map (choose pool (total_weight cs)) cs in
    elim (Bool-cases (any_saturated chosen)) [
      | inl e ↦ omega (
        arith,
        used-split rounds (shrink pool chosen) (map retire chosen) ds
            (omega (arith, contending_weight-retire pool (total_weight cs) cs)) (rw e at h),
        shrink-retire chosen pool (claimed-choose-le pool cs w),
        claimed-choose-false pool (total_weight cs) cs,
      )
      | inr e ↦
          let done : some chosen ≡ some ds = rw e at h in
          ground (
            arith,
            done,
            used-claimed chosen,
            claimed-choose-le pool cs w,
            claimed-choose-false pool (total_weight cs) cs,
          )
    ]

claimed-tier_of : (rank : ℕ) (sets : List SetSnapshot) → claimed false (tier_of rank sets) ≡ 0
unfolding claimed tier_of
claimed-tier_of rank [] = refl
claimed-tier_of rank (set ∷ sets) = ground (arith, claimed-tier_of rank sets)

-- The weights of the active sets of a rank.
unfoldable pub rank_weight : ℕ → List SetSnapshot → ℕ
rank_weight rank [] = 0
rank_weight rank (set ∷ sets) =
    (if (set.rank == rank) && set.active then set.weight else 0) + rank_weight rank sets

contending_weight-tier_of :
    (rank : ℕ) (sets : List SetSnapshot)
    → contending_weight (tier_of rank sets) ≡ rank_weight rank sets
unfolding contending_weight tier_of rank_weight
contending_weight-tier_of rank [] = refl
contending_weight-tier_of rank (set ∷ sets) = ground (arith, contending_weight-tier_of rank sets)

-- The weights of each rank are a u64 together, as those of 1 to 10 that the wire allows are.
abbrev pub FitsU64 : List SetSnapshot → Type 0
FitsU64 sets = (rank : ℕ) → rank_weight rank sets < 2 ^ 64

spend-used : (cs : List Contender) (remaining : ℕ) → spend remaining cs ≡ remaining - used cs
unfolding spend used
spend-used [] remaining = omega arith
spend-used (c ∷ cs) remaining = omega (arith, spend-used cs (remaining - threshold_of c.selection))

-- The sets of all ranks together select tracks whose thresholds sum up to the budget at most.
pub used-allocate_ranks :
    (ranks : List ℕ) (budget : ℕ) (sets : List SetSnapshot) (cs : List Contender)
    → FitsU64 sets
    → allocate_ranks ranks budget sets ≡ some cs
    → used cs ≤ budget
unfolding allocate_ranks
used-allocate_ranks [] budget sets cs w h = unfold used in ground (arith, h)
used-allocate_ranks (rank ∷ ranks) budget sets cs w h =
    let (ds, e, h₁) =
      >>=-eq-some (split (suc (length (tier_of rank sets))) budget (tier_of rank sets)) _ h in
    let (rest, e', h₂) = >>=-eq-some (allocate_ranks ranks (spend budget ds) sets) _ h₁ in
    ground (
      arith,
      h₂,
      used-append ds rest,
      used-split _ budget (tier_of rank sets) ds
          (omega (arith, contending_weight-tier_of rank sets, w rank)) e,
      claimed-tier_of rank sets,
      spend-used ds budget,
      used-allocate_ranks ranks (spend budget ds) sets rest w e',
    )

-- For any budget, and sets of which the active ones of each rank have weights with a sum below
-- 2^64, the allocation returns, and the thresholds of the tracks that it selects for the sets sum
-- up to the budget at most.
pub allocate_spends :
    (budget : ℕ) (sets : List SetSnapshot)
    → FitsU64 sets
    → (cs : List Contender) × (allocate_ranks (dedup (sort_ranks sets)) budget sets ≡ some cs)
      × (allocate budget sets ≡ some (default_all sets (record_all cs [])))
      × (used cs ≤ budget)
unfolding allocate
allocate_spends budget sets w =
    let ranks = dedup (sort_ranks sets) in
    let (cs, found) = allocate_ranks_returns ranks budget sets in
    (cs, found, rw found refl, used-allocate_ranks ranks budget sets cs w found)
