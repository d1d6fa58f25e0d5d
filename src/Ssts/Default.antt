-- ===== src/Ssts/Default.antt =====
-- libs/moqtail-ssts/src/algorithms/default: the weighted, strict-priority split of a bandwidth
-- budget (allocate.rs) and the budget it is given (mod.rs, and `budget_kbps` of lib.rs). The vectors
-- `selection` and `contending` of a tier are a field and a flag of each of its sets.
pub mod Budget
pub mod Rounds
pub mod Answers
use moqtail.Prelude.{
  ℕ, zero, suc, ◌+◌, ◌-◌, ◌*◌, ◌/◌, ◌%◌, ◌^◌, min, max, List, [], ◌∷◌, ◌++◌, map, Bool, true, false,
  not, ◌&&◌, ◌||◌, Option, none, some, length, ltb, leb, ◌==◌, if◌then◌else◌,
}
use moqtail.Prelude.Options.{◌>>=◌}
use moqtail.Wire.Buffer.{u64_max}
use moqtail.Ssts.Backpressure.{SetSnapshot, AbrInput, Selection, insert}

abbrev pub Member : Type 0
Member = ℕ × ℕ

-- `members.iter().rev().find(|(threshold, _)| threshold <= target)`
unfoldable pub find_last : ℕ → List Member → Option Member
find_last target [] = none
find_last target (m ∷ ms) = elim (find_last target ms) [
  | some found ↦ some found
  | none ↦ if leb m.0 target then some m else none
]

unfoldable pub top_threshold_kbps : List Member → Option ℕ
top_threshold_kbps [] = none
top_threshold_kbps (m ∷ []) = some m.0
top_threshold_kbps (m ∷ m' ∷ ms) = top_threshold_kbps (m' ∷ ms)

pub record Contender : Type 0 where
  pub set : SetSnapshot
  pub contending : Bool
  pub selection : Option Member

unfoldable pub saturating_mul : ℕ → ℕ → ℕ
saturating_mul a b = min (a * b) u64_max

-- `sum::<u64>()` of the weights that still contend, which wraps.
unfoldable pub weight_sum : List Contender → ℕ
weight_sum [] = 0
weight_sum (c ∷ cs) = ((if c.contending then c.set.weight else 0) + weight_sum cs) % 2 ^ 64

unfoldable pub total_weight : List Contender → ℕ
total_weight cs = max (weight_sum cs) 1

unfoldable pub choose : ℕ → ℕ → Contender → Contender
choose pool total c =
    if c.contending
    then record c { selection = find_last (saturating_mul pool c.set.weight / total) c.set.members }
    else c

abbrev pub reaches_top : Option Member → Option ℕ → Bool
reaches_top (some m) (some top) = m.0 == top
reaches_top (some m) none = false
reaches_top none top = false

unfoldable pub saturated : Contender → Bool
saturated c = c.contending && reaches_top c.selection (top_threshold_kbps c.set.members)

unfoldable pub any_saturated : List Contender → Bool
any_saturated [] = false
any_saturated (c ∷ cs) = saturated c || any_saturated cs

abbrev pub threshold_of : Option Member → ℕ
threshold_of none = 0
threshold_of (some m) = m.0

-- `tier_pool = tier_pool.saturating_sub(threshold)` for each saturated set
unfoldable pub shrink : ℕ → List Contender → ℕ
shrink pool [] = pool
shrink pool (c ∷ cs) = shrink (if saturated c then pool - threshold_of c.selection else pool) cs

unfoldable pub retire : Contender → Contender
retire c = record c { contending = c.contending && not (saturated c) }

-- `loop`, with the rounds that are left; `none` if they run out.
unfoldable pub split : ℕ → ℕ → List Contender → Option (List Contender)
split zero pool cs = none
split (suc rounds) pool cs =
    let chosen = map (choose pool (total_weight cs)) cs in
    let rest = split rounds (shrink pool chosen) (map retire chosen) in
    if any_saturated chosen then rest else some chosen

abbrev pub contender : SetSnapshot → Contender
contender set = record { set = set; contending = true; selection = none }

-- `sets.iter().filter(|set| set.rank == rank && set.active)`
unfoldable pub tier_of : ℕ → List SetSnapshot → List Contender
tier_of rank [] = []
tier_of rank (set ∷ sets) =
    let rest = tier_of rank sets in
    if (set.rank == rank) && set.active then contender set ∷ rest else rest

-- `remaining = remaining.saturating_sub(threshold)` for each set of the tier
unfoldable pub spend : ℕ → List Contender → ℕ
spend remaining [] = remaining
spend remaining (c ∷ cs) = spend (remaining - threshold_of c.selection) cs

-- The tiers of the ranks one after the other: all sets with what they ended up with. Each round of
-- a loop but its last retires a set, so one more round than the tier has sets is enough.
unfoldable pub allocate_ranks : List ℕ → ℕ → List SetSnapshot → Option (List Contender)
allocate_ranks [] remaining sets = some []
allocate_ranks (rank ∷ ranks) remaining sets =
    let tier = tier_of rank sets in
    do
      cs ← split (suc (length tier)) remaining tier
      rest ← allocate_ranks ranks (spend remaining cs) sets
      some (cs ++ rest)

-- `ranks.sort()`
unfoldable pub insert_rank : ℕ → List ℕ → List ℕ
insert_rank r [] = r ∷ []
insert_rank r (q ∷ qs) = if leb r q then r ∷ q ∷ qs else q ∷ insert_rank r qs

unfoldable pub sort_ranks : List SetSnapshot → List ℕ
sort_ranks [] = []
sort_ranks (set ∷ sets) = insert_rank set.rank (sort_ranks sets)

-- `ranks.dedup()`: of equal neighbours the first stays.
unfoldable pub dedup : List ℕ → List ℕ
dedup [] = []
dedup (r ∷ []) = r ∷ []
dedup (r ∷ q ∷ qs) = let rest = dedup (q ∷ qs) in if r == q then rest else r ∷ rest

-- `decisions.entry(id).or_default()`
unfoldable pub insert_default : ℕ → Selection → Selection
insert_default id [] = (id, none) ∷ []
insert_default id ((k, t) ∷ d) = if k == id then (k, t) ∷ d else (k, t) ∷ insert_default id d

abbrev pub track_of_member : Option Member → Option ℕ
track_of_member none = none
track_of_member (some m) = some m.1

unfoldable pub record_all : List Contender → Selection → Selection
record_all [] d = d
record_all (c ∷ cs) d = record_all cs (insert c.set.id (track_of_member c.selection) d)

unfoldable pub default_all : List SetSnapshot → Selection → Selection
default_all [] d = d
default_all (set ∷ sets) d = default_all sets (insert_default set.id d)

unfoldable pub allocate : ℕ → List SetSnapshot → Option Selection
allocate budget_kbps sets = do
  cs ← allocate_ranks (dedup (sort_ranks sets)) budget_kbps sets
  some (default_all sets (record_all cs []))

unfoldable pub budget_kbps : AbrInput → ℕ
budget_kbps input =
    if input.bandwidth_estimate_kbps == 0
    then (if input.configured_cap_kbps == 0 then u64_max else input.configured_cap_kbps)
    else if input.configured_cap_kbps == 0
    then input.bandwidth_estimate_kbps
    else min input.bandwidth_estimate_kbps input.configured_cap_kbps

abbrev pub unlimited_kbps : ℕ
unlimited_kbps = u64_max / 4

unfoldable pub decide : AbrInput → Option Selection
decide input = allocate (min (budget_kbps input) unlimited_kbps) input.sets
