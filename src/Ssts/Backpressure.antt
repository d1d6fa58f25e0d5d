-- ===== src/Ssts/Backpressure.antt =====
-- libs/moqtail-ssts/src/algorithms/backpressure/mod.rs, with what it uses of
-- libs/moqtail-ssts/src/lib.rs: one decision for all sets of a connection.
pub mod Serves
use moqtail.Prelude.{
  ℕ, ◌+◌, ◌-◌, min, max, List, [], ◌∷◌, map, Bool, true, false, not, ◌&&◌, ◌||◌, Option, none, some,
  length, get_elem?, ◌==◌, if◌then◌else◌,
}
use moqtail.Ssts.Tier.{Observation, new, TierState, observe, clamp_to}

pub record SetSnapshot : Type 0 where
  pub id : ℕ
  pub algorithm_id : ℕ
  pub rank : ℕ
  pub weight : ℕ
  pub active : Bool
  pub members : List (ℕ × ℕ)

unfoldable pub any_track : List (ℕ × ℕ) → ℕ → Bool
any_track [] relay_track_id = false
any_track ((threshold, track) ∷ members) relay_track_id =
    (track == relay_track_id) || any_track members relay_track_id

unfoldable pub has_track : SetSnapshot → ℕ → Bool
unfolding any_track
has_track set relay_track_id = any_track set.members relay_track_id

-- The map of open streams is its lookup.
pub record AbrInput : Type 0 where
  pub client_id : ℕ
  pub group_id : ℕ
  pub bandwidth_estimate_kbps : ℕ
  pub configured_cap_kbps : ℕ
  pub sets : List SetSnapshot
  pub open_streams_per_set : ℕ → Option ℕ
  pub stream_timeouts_since_last_decision : ℕ

abbrev pub or_zero : Option ℕ → ℕ
or_zero none = 0
or_zero (some n) = n

unfoldable pub open_streams : AbrInput → ℕ → ℕ
open_streams input set_id = or_zero (input.open_streams_per_set set_id)

unfoldable pub sum_active : AbrInput → List SetSnapshot → ℕ
sum_active input [] = 0
sum_active input (set ∷ sets) =
    (if set.active then open_streams input set.id else 0) + sum_active input sets

unfoldable pub active_stream_depth : AbrInput → ℕ
active_stream_depth input = sum_active input input.sets

-- `sets.iter().map(|set| set.members.len()).max().unwrap_or(1)`, with the sets behind the first.
unfoldable pub longest_from : ℕ → List SetSnapshot → ℕ
longest_from longest [] = longest
longest_from longest (set ∷ sets) = longest_from (max longest (length set.members)) sets

unfoldable pub longest_ladder : List SetSnapshot → ℕ
unfolding longest_from
longest_ladder [] = 1
longest_ladder (set ∷ sets) = longest_from (length set.members) sets

abbrev pub is_empty_ladder {ℓ} : {A : Type ℓ} → List A → Bool
is_empty_ladder [] = true
is_empty_ladder (a ∷ rest) = false

-- `.get(index).map(|(_, track_id)| *track_id)`
abbrev pub track_of : Option (ℕ × ℕ) → Option ℕ
track_of none = none
track_of (some (threshold, track)) = some track

unfoldable pub select : ℕ → SetSnapshot → ℕ × Option ℕ
select tier set = (
  set.id,
  if set.active && not (is_empty_ladder set.members)
      then track_of (get_elem? set.members (min tier (length set.members - 1)))
      else none,
)

-- A `HashMap` from set ids, as an association list with one entry for an id.
abbrev pub Selection : Type 0
Selection = List (ℕ × Option ℕ)

unfoldable pub insert : ℕ → Option ℕ → Selection → Selection
insert id track [] = (id, track) ∷ []
insert id track ((k, t) ∷ d) = if k == id then (id, track) ∷ d else (k, t) ∷ insert id track d

-- `collect()`: of equal ids the last entry stays.
unfoldable pub collect_entries : List (ℕ × Option ℕ) → Selection → Selection
collect_entries [] d = d
collect_entries ((id, track) ∷ es) d = collect_entries es (insert id track d)

unfoldable pub decide : TierState → AbrInput → TierState × Selection
decide s input =
    let o = new (active_stream_depth input) input.stream_timeouts_since_last_decision in
    let s' = clamp_to (observe s o).0 (longest_ladder input.sets - 1) in
    (s', collect_entries (map (select s'.current_index) input.sets) [])
