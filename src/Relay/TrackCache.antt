-- ===== src/Relay/TrackCache.antt =====
-- apps/relay/src/server/track_cache.rs: what the relay knows of the Objects of a track. A group of
-- the cache is a parameter, `none` where the cache has evicted it or never had it.
pub mod Absent
pub mod Complete
pub mod Group
pub mod Adds
pub mod Served
pub mod Fills
use moqtail.Prelude.{
  ℕ, zero, suc, max, map, take, drop, ◌+◌, ◌-◌, List, [], ◌∷◌, ◌++◌, length, Bool, true, false, not,
  ◌&&◌, ◌||◌, Option, none, some, ltb, leb, ◌==◌, if◌then◌else◌, reverse,
}
use moqtail.Wire.Buffer.{checked_add}
use moqtail.Wire.Location.{Location, loc, loc_lt, loc_le, next}
use moqtail.Data.FetchObject.{FetchObjectPayload}

-- One entry of `AbsentRanges`, both ends inclusive.
pub record Span : Type 0 where
  pub start : Location
  pub end : Location

abbrev pub span : Location → Location → Span
span start end = record { start = start; end = end }

abbrev pub max_absent_ranges : ℕ
max_absent_ranges = 65536

abbrev pub loc_eq : Location → Location → Bool
loc_eq a b = (a.group == b.group) && (a.object == b.object)

-- `Ord::min` and `Ord::max`
abbrev pub min_loc : Location → Location → Location
min_loc a b = if loc_le a b then a else b

abbrev pub max_loc : Location → Location → Location
max_loc a b = if loc_le a b then b else a

-- `ranges.range(..=limit)` of the map, which is a list in the order of the starts.
unfoldable pub starting_to : Location → List Span → List Span
starting_to limit [] = []
starting_to limit (s ∷ ss) =
    if loc_le s.start limit then s ∷ starting_to limit ss else starting_to limit ss

-- `end.next().is_none_or(|next| next >= from)`
abbrev pub reaches : Location → Span → Bool
reaches from s = elim (next s.end) [ none ↦ true | some n ↦ loc_le from n ]

unfoldable pub take_reaching : Location → List Span → List Span
take_reaching from [] = []
take_reaching from (s ∷ ss) = if reaches from s then s ∷ take_reaching from ss else []

-- `BTreeMap::remove`, `BTreeMap::insert` and `pop_first`
unfoldable pub remove : Location → List Span → List Span
remove key [] = []
remove key (s ∷ ss) = if loc_eq s.start key then ss else s ∷ remove key ss

unfoldable pub put : Span → List Span → List Span
put r [] = r ∷ []
put r (s ∷ ss) =
    if loc_eq s.start r.start
    then r ∷ ss
    else if loc_lt s.start r.start
    then s ∷ put r ss
    else r ∷ s ∷ ss

unfoldable pub trim : ℕ → List Span → List Span
trim cap [] = []
trim cap (s ∷ ss) = if ltb cap (suc (length ss)) then trim cap ss else s ∷ ss

-- The loop over what touches the new range.
unfoldable pub absorb : List Span → Span × List Span → Span × List Span
absorb [] (r, ranges) = (r, ranges)
absorb (s ∷ ss) (r, ranges) =
    absorb ss (span (min_loc r.start s.start) (max_loc r.end s.end), remove s.start ranges)

abbrev pub limit_of : Location → Location
limit_of to = elim (next to) [ none ↦ to | some n ↦ n ]

-- `AbsentRanges::insert`
unfoldable pub insert_range : Location → Location → List Span → List Span
insert_range from to ranges =
    let touching = take_reaching from (reverse (starting_to (limit_of to) ranges)) in
    let absorbed = absorb touching (span from to, ranges) in
    trim max_absent_ranges (put absorbed.0 absorbed.1)

abbrev pub last : List Span → Option Span
last [] = none
last (s ∷ []) = some s
last (s ∷ r ∷ rs) = last (r ∷ rs)

-- `.filter(|(_, end)| *end >= location).map(|(_, end)| end.clone())`
abbrev pub end_if_holds : Location → Option Span → Option Location
end_if_holds l none = none
end_if_holds l (some s) = if loc_le l s.end then some s.end else none

-- `AbsentRanges::end_containing`
unfoldable pub end_containing : Location → List Span → Option Location
end_containing l ranges = end_if_holds l (last (starting_to l ranges))

-- `TrackCache::mark_absent`
unfoldable pub mark_absent : Location → Location → List Span → List Span
mark_absent from to ranges = if loc_le from to then insert_range from to ranges else ranges

-- `TrackCache::add_object` on the group of the Object: `binary_search_by_key` on Objects in the
-- order of their ids, and `Vec::insert` where it finds none.
unfoldable pub add_object : FetchObjectPayload → List FetchObjectPayload → List FetchObjectPayload
add_object object [] = object ∷ []
add_object object (o ∷ os) =
    if o.object_id == object.object_id
    then o ∷ os
    else if ltb o.object_id object.object_id
    then o ∷ add_object object os
    else object ∷ o ∷ os

-- `partition_point(|o| o.object_id < lo)` is `starts_below lo`, and with `<= hi` it is `starts_below (hi + 1)`.
unfoldable pub starts_below : ℕ → List FetchObjectPayload → ℕ
starts_below bound [] = 0
starts_below bound (o ∷ os) = if ltb o.object_id bound then suc (starts_below bound os) else 0

-- `&objects[first..last.max(first)]`
unfoldable pub wanted : ℕ → ℕ → List FetchObjectPayload → List FetchObjectPayload
wanted lo hi objects =
    let first = starts_below lo objects in
    let last = starts_below (hi + 1) objects in take (max last first - first) (drop first objects)

abbrev pub object_ids : List FetchObjectPayload → List ℕ
object_ids = map (λ o. o.object_id)

-- What one round of the loop does: it goes on from a cursor, with the ids still held, or it ends,
-- by `break` (true) or by `return None` (false).
pub data Round : Type 0 where
  go_on : ℕ → List ℕ → Round
  ends : Bool → Round

abbrev pub next_cursor : Option ℕ → List ℕ → Round
next_cursor none held = ends true
next_cursor (some next) held = go_on next held

abbrev pub take_held : ℕ → List ℕ → Round
take_held cursor [] = ends false
take_held cursor (id ∷ held) =
    if id == cursor then next_cursor (checked_add cursor 1) held else ends false

abbrev pub skip_absent : ℕ → ℕ → Location → List ℕ → Round
skip_absent group hi end held =
    if ltb group end.group || leb hi end.object then ends true else go_on (end.object + 1) held

abbrev pub round_of : ℕ → ℕ → ℕ → List ℕ → Option Location → Round
round_of group hi cursor held none = take_held cursor held
round_of group hi cursor held (some end) = skip_absent group hi end held

unfoldable pub round : ℕ → ℕ → List Span → ℕ → List ℕ → Round
round group hi absent cursor held =
    if leb cursor hi
    then round_of group hi cursor held (end_containing (loc group cursor) absent)
    else ends true

-- The loop, on fuel: `none` is a loop that is not over.
unfoldable pub scan : ℕ → ℕ → ℕ → List Span → ℕ → List ℕ → Option Bool
scan zero group hi absent cursor held = none
scan (suc fuel) group hi absent cursor held = elim (round group hi absent cursor held) [
  | go_on next held' ↦ scan fuel group hi absent next held'
  | ends b ↦ some b
]

abbrev pub objects_of : Option (List FetchObjectPayload) → List FetchObjectPayload
objects_of none = []
objects_of (some objects) = objects

-- `TrackCache::objects_if_complete`
unfoldable pub objects_if_complete :
    ℕ
    → Option (List FetchObjectPayload)
    → List Span
    → ℕ
    → ℕ
    → ℕ
    → Option (Option (List FetchObjectPayload))
objects_if_complete fuel objects absent group lo hi =
    let found = wanted lo hi (objects_of objects) in
    elim (scan fuel group hi absent lo (object_ids found)) [
      | none ↦ none
      | some complete ↦ some (if complete then some found else none)
    ]
