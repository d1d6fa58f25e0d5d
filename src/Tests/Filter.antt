-- ===== src/Tests/Filter.antt =====
-- The theorems about the filters at concrete inputs.
use moqtail.Prelude.{◌≡◌, ◌≢◌, List, [], ◌∷◌, ◌++◌, ◌&&◌, none, some, arith}
use moqtail.Wire.Outcome
use moqtail.Wire.Outcome.{Outcome, ok, err, panicked}
use moqtail.Wire.Location.{loc, loc_le}
use moqtail.Filter.Location
use moqtail.Filter.Location.{
  LocationFilter, absolute_range, relative_start, next_object, fetch_range,
}
use moqtail.Filter.Location.Fetch.{within, passes, fetch_range_selects}
use moqtail.Filter.Location.RoundTrip.{
  deserialize-serialize_location_filter, deserialize-ne-panicked_location_filter,
}
use moqtail.Filter.Range
use moqtail.Filter.Range.Checks.{priority}
use moqtail.Filter.Range.Wire
use moqtail.Filter.Range.Wire.RoundTrip.{deserialize-serialize_range_filter}

fetch_range_selects_example :
    within (fetch_range (relative_start 2) (some (loc 9 4))) (loc 8 1)
    ≡ (passes (relative_start 2) (loc 9 4) (loc 8 1) && loc_le (loc 8 1) (loc 9 4))
fetch_range_selects_example =
    fetch_range_selects (relative_start 2) (loc 9 4) (loc 8 1) (omega arith) (omega arith)
      (omega arith, omega arith)

deserialize-serialize_location_filter_example :
    (Outcome.◌>>=◌
      (Location.serialize (absolute_range (loc 3 0) (loc 12 5)))
      λ e. Location.deserialize (e ++ 9 ∷ []))
    ≡ ok (absolute_range (loc 3 0) (loc 12 5), 9 ∷ [])
deserialize-serialize_location_filter_example =
    deserialize-serialize_location_filter (absolute_range (loc 3 0) (loc 12 5)) (9 ∷ [])
      ((omega arith, omega arith), (omega arith, omega arith), omega arith)

deserialize-ne-panicked_location_filter_example : Location.deserialize (4 ∷ 200 ∷ []) ≢ panicked
deserialize-ne-panicked_location_filter_example =
    deserialize-ne-panicked_location_filter (4 ∷ 200 ∷ [])

abbrev two_ranges : List Range.Range
two_ranges = record { start = 3; end = some 5 } ∷ record { start = 8; end = none } ∷ []

abbrev two_range_filter : Range.RangeFilter
two_range_filter = record {
  set_id = 1;
  property_type = none;
  deltas = (3, some 2) ∷ (3, none) ∷ [];
}

deserialize-serialize_range_filter_example :
    (Outcome.◌>>=◌ (Wire.serialize two_range_filter) λ e. Wire.deserialize priority e)
    ≡ ok two_range_filter
unfolding Range.has_property_type
deserialize-serialize_range_filter_example =
    deserialize-serialize_range_filter priority two_range_filter
      (tt, (omega arith, omega arith, omega arith))
