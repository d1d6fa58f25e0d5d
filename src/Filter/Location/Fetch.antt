-- ===== src/Filter/Location/Fetch.antt =====
-- What a Location Filter selects for a Fetch.
use moqtail.Prelude.{
  ◌+◌, ◌^◌, ◌<◌, leb, not, ◌≡◌, Bool, true, false, ◌&&◌, Option, none, some, ◌==◌, if◌then◌else◌,
  arith,
}
use moqtail.Wire.Buffer.{u64_max}
use moqtail.Wire.Location.{Location, IsLocation, loc_le}
use moqtail.Filter.Location.{
  LocationFilter, no_filter, relative_start, absolute_start, absolute_start_group_end,
  absolute_range, next_object, start_location, end_location, fetch_range,
}

-- What each filter asks of a Location, on a track with this Largest Object.
abbrev pub passes : LocationFilter → Location → Location → Bool
passes no_filter largest l = true
passes (relative_start s) largest l = leb (largest.group + 1) (l.group + s)
passes (absolute_start s) largest l = loc_le s l
passes (absolute_start_group_end s g) largest l = loc_le s l && leb l.group g
passes (absolute_range s e) largest l = loc_le s l && loc_le l e
passes next_object largest l = not (loc_le l largest)

-- `l` lies in the range, ends included.
abbrev pub within : Option (Location × Location) → Location → Bool
within none l = false
within (some (s, e)) l = loc_le s l && loc_le l e

-- On a track whose Largest Object has a Group ID and an Object ID below the greatest u64, a Fetch
-- selects exactly the u64 Locations that do not lie above the Largest Object and pass the filter:
-- all of them without a filter, those of a group from `start_group` groups before the Next Group
-- on, those from the start on, with an end those that are not in a group after the End Group or
-- not after the end Location, and for Next Object those after the Largest Object, so none.
pub fetch_range_selects :
    (f : LocationFilter) (largest l : Location)
    → largest.group + 1 < 2 ^ 64
    → largest.object + 1 < 2 ^ 64
    → IsLocation l
    → within (fetch_range f (some largest)) l ≡ (passes f largest l && loc_le l largest)
unfolding fetch_range start_location end_location
fetch_range_selects no_filter largest l hg ho h = ground arith
fetch_range_selects (relative_start s) largest l hg ho h = ground arith
fetch_range_selects (absolute_start s) largest l hg ho h = ground arith
fetch_range_selects (absolute_start_group_end s g) largest l hg ho h = ground arith
fetch_range_selects (absolute_range s e) largest l hg ho h = ground arith
fetch_range_selects next_object largest l hg ho h = ground arith

-- A range that `fetch_range` returns is not empty and does not reach past the Largest Object.
fetch_range_bounds :
    (f : LocationFilter) (largest s e : Location)
    → fetch_range f (some largest) ≡ some (s, e)
    → (loc_le s e ≡ true) × (loc_le e largest ≡ true)
unfolding fetch_range
fetch_range_bounds no_filter largest s e h = ground arith
fetch_range_bounds (relative_start g) largest s e h = ground arith
fetch_range_bounds (absolute_start a) largest s e h = ground arith
fetch_range_bounds (absolute_start_group_end a g) largest s e h = ground arith
fetch_range_bounds (absolute_range a b) largest s e h = ground arith
fetch_range_bounds next_object largest s e h = ground arith

-- A Next Object filter selects nothing for a Fetch, but where the Largest Object has the greatest
-- Object ID: there the start saturates, and it selects the Largest Object itself.
fetch_range_next_object :
    (largest : Location)
    → IsLocation largest
    → fetch_range next_object (some largest)
      ≡ (if largest.object == u64_max then some (largest, largest) else none)
unfolding fetch_range
fetch_range_next_object largest h = ground arith
