-- ===== src/Ssts/Backpressure/Serves.antt =====
-- What a decision of backpressure/mod.rs returns for the sets it is given.
use moqtail.Prelude.{
  ℕ, zero, suc, ◌-◌, ◌≡◌, refl, ap, ◌∙◌, min, List, [], ◌∷◌, map, Bool, true, false, not, ◌&&◌,
  Option, none, some, length, get_elem?, ◌==◌, if◌then◌else◌, arith,
}
use moqtail.Ssts.Tier.{TierState}
use moqtail.Ssts.Backpressure.{
  SetSnapshot, AbrInput, is_empty_ladder, track_of, select, Selection, insert, collect_entries,
  decide,
}

-- `HashMap::get`
abbrev pub entry : ℕ → Selection → Option (Option ℕ)
entry id [] = none
entry id ((k, t) ∷ d) = if k == id then some t else entry id d

-- The track on a rung of a ladder, or the top one of a ladder that does not reach so high.
abbrev pub rung : ℕ → List (ℕ × ℕ) → Option ℕ
rung tier [] = none
rung zero (m ∷ ms) = some m.1
rung (suc tier) (m ∷ []) = some m.1
rung (suc tier) (m ∷ m' ∷ ms) = rung tier (m' ∷ ms)

-- What a set is served at a tier: nothing while it is not active.
abbrev pub served : ℕ → SetSnapshot → Option ℕ
served tier set = if set.active then rung tier set.members else none

-- The answer for an id: that of the last set with the id.
abbrev pub answer : ℕ → ℕ → List SetSnapshot → Option (Option ℕ)
answer tier id [] = none
answer tier id (set ∷ sets) = elim (answer tier id sets) [
  | some track ↦ some track
  | none ↦ if set.id == id then some (served tier set) else none
]

rung-get_elem? :
    (tier : ℕ) (m : ℕ × ℕ) (ms : List (ℕ × ℕ))
    → track_of (get_elem? (m ∷ ms) (min tier (length (m ∷ ms) - 1))) ≡ rung tier (m ∷ ms)
rung-get_elem? zero m ms =
    let lowest : min 0 (suc (length ms) - 1) ≡ 0 = omega arith in rw lowest refl
rung-get_elem? (suc tier) m [] = let top : min (suc tier) 0 ≡ 0 = omega arith in rw top refl
rung-get_elem? (suc tier) m (m' ∷ ms) =
    let next : min (suc tier) (suc (suc (length ms)) - 1) ≡ suc (min tier (suc (length ms) - 1)) =
      omega arith in
    rw next (rung-get_elem? tier m' ms)

select_members :
    (tier : ℕ) (active : Bool) (members : List (ℕ × ℕ))
    → (if active && not (is_empty_ladder members)
        then track_of (get_elem? members (min tier (length members - 1)))
        else none)
      ≡ (if active then rung tier members else none)
select_members tier true [] = refl
select_members tier false [] = refl
select_members tier false (m ∷ ms) = refl
select_members tier true (m ∷ ms) = rung-get_elem? tier m ms

select-served : (tier : ℕ) (set : SetSnapshot) → select tier set ≡ (set.id, served tier set)
unfolding select
select-served tier set = ap (λ t. (set.id, t)) (select_members tier set.active set.members)

entry-insert :
    (id k : ℕ) (track : Option ℕ) (d : Selection)
    → entry id (insert k track d) ≡ (if k == id then some track else entry id d)
unfolding insert
entry-insert id k track [] = refl
entry-insert id k track ((j, t) ∷ d) = ground (arith, entry-insert id k track d)

abbrev or_else_entry : Option (Option ℕ) → Option (Option ℕ) → Option (Option ℕ)
or_else_entry (some t) other = some t
or_else_entry none other = other

overwritten :
    (o : Option (Option ℕ)) (id k : ℕ) (track : Option ℕ) (d : Selection)
    → or_else_entry o (entry id (insert k track d))
      ≡ or_else_entry
          (elim o [ some t ↦ some t | none ↦ if k == id then some track else none ])
          (entry id d)
overwritten (some t) id k track d = refl
overwritten none id k track d = ground (arith, entry-insert id k track d)

entry-collect_entries :
    (tier id : ℕ) (sets : List SetSnapshot) (d : Selection)
    → entry id (collect_entries (map (select tier) sets) d)
      ≡ or_else_entry (answer tier id sets) (entry id d)
unfolding collect_entries
entry-collect_entries tier id [] d = refl
entry-collect_entries tier id (set ∷ sets) d = rw (select-served tier set) (
    entry-collect_entries tier id sets (insert set.id (served tier set) d)
    ∙ overwritten (answer tier id sets) id set.id (served tier set) d)

or_else_entry-none : (o : Option (Option ℕ)) → or_else_entry o none ≡ o
or_else_entry-none none = refl
or_else_entry-none (some t) = refl

-- In the map that a decision returns, an id has the answer for the last set with that id, and no
-- entry where no set has it. A set that is not active or has no members gets no track, and
-- another one gets the track on the rung of its ladder at the tier that the decision ends with,
-- or the top track where the ladder is shorter.
pub entry-decide :
    (s : TierState) (input : AbrInput) (id : ℕ)
    → entry id (decide s input).1 ≡ answer (decide s input).0.current_index id input.sets
unfolding decide
entry-decide s input id =
    entry-collect_entries (decide s input).0.current_index id input.sets []
    ∙ or_else_entry-none (answer (decide s input).0.current_index id input.sets)
