-- ===== src/Ssts/Default/Answers.antt =====
-- The entries of the selection that allocate.rs returns.
use moqtail.Prelude.{
  ℕ, zero, suc, ◌/◌, ◌≡◌, refl, subst, List, [], ◌∷◌, ◌++◌, map, Bool, true, false, ◌&&◌, ◌||◌,
  Option, none, some, length, ◌==◌, Bool-cases, inl, inr, arith,
}
use moqtail.Prelude.Options.{>>=-eq-some, some_injective}
use moqtail.Ssts.Default.Rounds.{allocate_ranks_returns}
use mathlib.Core.List.{Mem, mem-cons_self, mem-cons_of_mem}
use moqtail.Ssts.Backpressure.{Selection, insert, SetSnapshot, has_track, any_track}
use moqtail.Ssts.Default.{
  Member, find_last, Contender, saturating_mul, total_weight, choose, any_saturated, shrink, retire,
  split, tier_of, spend, allocate_ranks, sort_ranks, dedup, insert_default, track_of_member,
  record_all, default_all, allocate,
}

-- A track that may be forwarded for an id: one of a set with that id that has a subscriber.
unfoldable pub Allowed : List SetSnapshot → ℕ → Option ℕ → Type 0
Allowed sets id none = Unit {0}
Allowed sets id (some track) =
    (set : SetSnapshot) × Mem set sets
    × (set.id ≡ id)
    × (set.active ≡ true)
    × (has_track set track ≡ true)

unfoldable pub AllAllowed : List SetSnapshot → Selection → Type 0
AllAllowed sets [] = Unit {0}
AllAllowed sets ((id, track) ∷ d) = Allowed sets id track × AllAllowed sets d

-- The selection has an entry for the id.
unfoldable pub answered : ℕ → Selection → Bool
answered id [] = false
answered id ((k, track) ∷ d) = (k == id) || answered id d

unfoldable pub AllAnswered : List SetSnapshot → Selection → Type 0
AllAnswered [] d = Unit {0}
AllAnswered (set ∷ sets) d = (answered set.id d ≡ true) × AllAnswered sets d

-- A set of the input that has a subscriber, and a selection among its members.
Selects : List SetSnapshot → Contender → Type 0
Selects sets c =
    Mem c.set sets
    × (c.set.active ≡ true)
    × ((track : ℕ) → track_of_member c.selection ≡ some track → has_track c.set track ≡ true)

AllSelect : List SetSnapshot → List Contender → Type 0
AllSelect sets [] = Unit {0}
AllSelect sets (c ∷ cs) = Selects sets c × AllSelect sets cs

any_track-find_last :
    (target : ℕ) (ms : List Member) (track : ℕ)
    → track_of_member (find_last target ms) ≡ some track
    → any_track ms track ≡ true
unfolding find_last any_track
any_track-find_last target [] track h = cc
any_track-find_last target (m ∷ ms) track h = ground (arith, h, any_track-find_last target ms track)

choose-Selects :
    (pool total : ℕ) (sets : List SetSnapshot) (c : Contender)
    → Selects sets c
    → Selects sets (choose pool total c)
unfolding Selects choose has_track
choose-Selects pool total sets c (is_in, active, sel) = elim (Bool-cases c.contending) [
  | inl e ↦
      rw e (
        is_in,
        active,
        any_track-find_last (saturating_mul pool c.set.weight / total) c.set.members,
      )
  | inr e ↦ rw e (is_in, active, sel)
]

AllSelect-choose :
    (pool total : ℕ) (sets : List SetSnapshot) (cs : List Contender)
    → AllSelect sets cs
    → AllSelect sets (map (choose pool total) cs)
unfolding AllSelect
AllSelect-choose pool total sets [] h = tt
AllSelect-choose pool total sets (c ∷ cs) (h, hs) =
    (choose-Selects pool total sets c h, AllSelect-choose pool total sets cs hs)

AllSelect-retire :
    (sets : List SetSnapshot) (cs : List Contender)
    → AllSelect sets cs
    → AllSelect sets (map retire cs)
unfolding AllSelect retire Selects
AllSelect-retire sets [] h = tt
AllSelect-retire sets (c ∷ cs) (h, hs) = (h, AllSelect-retire sets cs hs)

split-AllSelect :
    (rounds pool : ℕ) (sets : List SetSnapshot) (cs ds : List Contender)
    → AllSelect sets cs
    → split rounds pool cs ≡ some ds
    → AllSelect sets ds
unfolding split
split-AllSelect zero pool sets cs ds h e = cc
split-AllSelect (suc rounds) pool sets cs ds h e =
    let chosen = map (choose pool (total_weight cs)) cs in
    let all = AllSelect-choose pool (total_weight cs) sets cs h in
    elim (Bool-cases (any_saturated chosen)) [
      | inl more ↦
          split-AllSelect rounds (shrink pool chosen) sets (map retire chosen) ds
            (AllSelect-retire sets chosen all) (rw more at e)
      | inr done ↦
          subst (λ (l : List Contender). AllSelect sets l) (some_injective (rw done at e)) all
    ]

AllSelect-append :
    (sets : List SetSnapshot) (cs ds : List Contender)
    → AllSelect sets cs
    → AllSelect sets ds
    → AllSelect sets (cs ++ ds)
unfolding AllSelect
AllSelect-append sets [] ds h k = k
AllSelect-append sets (c ∷ cs) ds (h, hs) k = (h, AllSelect-append sets cs ds hs k)

AllSelect-grow :
    (s : SetSnapshot) (sets : List SetSnapshot) (cs : List Contender)
    → AllSelect sets cs
    → AllSelect (s ∷ sets) cs
unfolding AllSelect Selects
AllSelect-grow s sets [] h = tt
AllSelect-grow s sets (c ∷ cs) ((is_in, active, sel), hs) =
    ((mem-cons_of_mem s is_in, active, sel), AllSelect-grow s sets cs hs)

tier_of-AllSelect : (rank : ℕ) (sets : List SetSnapshot) → AllSelect sets (tier_of rank sets)
unfolding tier_of AllSelect Selects
tier_of-AllSelect rank [] = tt
tier_of-AllSelect rank (set ∷ sets) = elim (Bool-cases ((set.rank == rank) && set.active)) [
  | inl e ↦ rw e (
    (mem-cons_self, ground (arith, e), λ t p. cc),
    AllSelect-grow set sets _ (tier_of-AllSelect rank sets),
  )
  | inr e ↦ rw e (AllSelect-grow set sets _ (tier_of-AllSelect rank sets))
]

allocate_ranks-AllSelect :
    (ranks : List ℕ) (budget : ℕ) (sets : List SetSnapshot) (cs : List Contender)
    → allocate_ranks ranks budget sets ≡ some cs
    → AllSelect sets cs
unfolding allocate_ranks
allocate_ranks-AllSelect [] budget sets cs h =
    subst (λ (l : List Contender). AllSelect sets l) (some_injective h) (unfold AllSelect in tt)
allocate_ranks-AllSelect (rank ∷ ranks) budget sets cs h =
    let (ds, e, h₁) =
      >>=-eq-some (split (suc (length (tier_of rank sets))) budget (tier_of rank sets)) _ h in
    let (rest, e', h₂) = >>=-eq-some (allocate_ranks ranks (spend budget ds) sets) _ h₁ in
    subst (λ (l : List Contender). AllSelect sets l) (some_injective h₂)
      (AllSelect-append sets ds rest
        (split-AllSelect _ budget sets (tier_of rank sets) ds (tier_of-AllSelect rank sets) e)
        (allocate_ranks-AllSelect ranks (spend budget ds) sets rest e'))

insert-AllAllowed :
    (sets : List SetSnapshot) (id : ℕ) (track : Option ℕ) (d : Selection)
    → Allowed sets id track
    → AllAllowed sets d
    → AllAllowed sets (insert id track d)
unfolding insert AllAllowed
insert-AllAllowed sets id track [] h hs = (h, tt)
insert-AllAllowed sets id track ((k, t) ∷ d) h (h', hs) = elim (Bool-cases (k == id)) [
  | inl e ↦ rw e (h, hs)
  | inr e ↦ rw e (h', insert-AllAllowed sets id track d h hs)
]

selected-Allowed :
    (sets : List SetSnapshot) (c : Contender)
    → Selects sets c
    → Allowed sets c.set.id (track_of_member c.selection)
unfolding Selects Allowed
selected-Allowed sets c (is_in, active, sel) = by_selection (track_of_member c.selection) sel
  where
    by_selection :
        (t : Option ℕ)
        → ((track : ℕ) → t ≡ some track → has_track c.set track ≡ true)
        → Allowed sets c.set.id t
    by_selection none f = tt
    by_selection (some track) f = (c.set, is_in, refl, active, f track refl)

record_all-AllAllowed :
    (sets : List SetSnapshot) (cs : List Contender) (d : Selection)
    → AllSelect sets cs
    → AllAllowed sets d
    → AllAllowed sets (record_all cs d)
unfolding record_all AllSelect
record_all-AllAllowed sets [] d h hs = hs
record_all-AllAllowed sets (c ∷ cs) d (h, h') hs =
    record_all-AllAllowed sets cs _ h' (
      insert-AllAllowed sets c.set.id (track_of_member c.selection) d (selected-Allowed sets c h)
        hs)

insert_default-AllAllowed :
    (sets : List SetSnapshot) (id : ℕ) (d : Selection)
    → AllAllowed sets d
    → AllAllowed sets (insert_default id d)
unfolding insert_default AllAllowed
insert_default-AllAllowed sets id [] hs = (unfold Allowed in tt, tt)
insert_default-AllAllowed sets id ((k, t) ∷ d) (h, hs) = elim (Bool-cases (k == id)) [
  | inl e ↦ rw e (h, hs)
  | inr e ↦ rw e (h, insert_default-AllAllowed sets id d hs)
]

default_all-AllAllowed :
    (all sets : List SetSnapshot) (d : Selection)
    → AllAllowed all d
    → AllAllowed all (default_all sets d)
unfolding default_all
default_all-AllAllowed all [] d h = h
default_all-AllAllowed all (set ∷ sets) d h =
    default_all-AllAllowed all sets _ (insert_default-AllAllowed all set.id d h)

insert_default-answered :
    (id k : ℕ) (d : Selection) → answered k (insert_default id d) ≡ ((id == k) || answered k d)
unfolding insert_default answered
insert_default-answered id k [] = refl
insert_default-answered id k ((q, t) ∷ d) = ground (arith, insert_default-answered id k d)

default_all-answered :
    (sets : List SetSnapshot) (d : Selection) (k : ℕ)
    → answered k d ≡ true
    → answered k (default_all sets d) ≡ true
unfolding default_all
default_all-answered [] d k h = h
default_all-answered (set ∷ sets) d k h =
    default_all-answered sets _ k (ground (arith, insert_default-answered set.id k d, h))

default_all-AllAnswered :
    (sets : List SetSnapshot) (d : Selection) → AllAnswered sets (default_all sets d)
unfolding default_all AllAnswered
default_all-AllAnswered [] d = tt
default_all-AllAnswered (set ∷ sets) d = (
  default_all-answered sets _ set.id (ground (arith, insert_default-answered set.id set.id d)),
  default_all-AllAnswered sets _,
)

-- For any budget the allocation returns a selection. It has an entry for every set, and each
-- track in it is a track of an active set of that id.
pub allocate_answers :
    (budget : ℕ) (sets : List SetSnapshot)
    → (d : Selection) × (allocate budget sets ≡ some d) × AllAnswered sets d × AllAllowed sets d
unfolding allocate
allocate_answers budget sets =
    let (cs, found) = allocate_ranks_returns (dedup (sort_ranks sets)) budget sets in
    (
      default_all sets (record_all cs []),
      rw found refl,
      default_all-AllAnswered sets (record_all cs []),
      default_all-AllAllowed sets sets (record_all cs []) (
          record_all-AllAllowed sets cs [] (allocate_ranks-AllSelect _ budget sets cs found)
            (unfold AllAllowed in tt)),
    )
