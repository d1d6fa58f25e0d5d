-- ===== src/Filter/Range.antt =====
-- libs/moqtail-rs/src/model/parameter/range_filter.rs: inclusive ranges, held as the deltas that
-- the wire carries. `Wire` has its encoding.
pub mod Checks
pub mod Resolve
pub mod Wire
use moqtail.Prelude.{
  ℕ, zero, suc, ◌+◌, ◌-◌, ◌%◌, List, [], ◌∷◌, ◌++◌, Bool, true, false, not, ◌&&◌, Option, none,
  some, length, ltb, leb, ◌==◌, if◌then◌else◌,
}
use moqtail.Wire.Buffer.{checked_add, checked_sub}
use Checks.{
  RangeFilterKind, subgroup, object_id, priority, object_property, track_property, RangeFilterError,
  overflow, priority_out_of_range, odd_property_type, property_type_mismatch, unordered, Verdict,
  accept, reject, ok_or, ◌>>=◌, ◌>>◌,
}

-- Whether the filter carries a Property Type.
unfoldable pub has_property_type : RangeFilterKind → Bool
has_property_type object_property = true
has_property_type track_property = true
has_property_type subgroup = false
has_property_type object_id = false
has_property_type priority = false

unfoldable pub is_priority : RangeFilterKind → Bool
is_priority priority = true
is_priority subgroup = false
is_priority object_id = false
is_priority object_property = false
is_priority track_property = false

pub record Range : Type 0 where
  pub start : ℕ
  pub end : Option ℕ

unfoldable pub contains : Range → ℕ → Bool
contains r value = leb r.start value && elim r.end [ none ↦ true | some e ↦ leb value e ]

pub record RangeFilter : Type 0 where
  pub set_id : ℕ
  pub property_type : Option ℕ
  pub deltas : List (ℕ × Option ℕ)

-- `i + 1 == ranges.len()`, seen from the ranges that follow
abbrev pub is_last : List Range → Bool
is_last [] = true
is_last (r ∷ rs) = false

-- The End of a range as a delta, and the end that the next Start counts from.
end_delta : Range → ℕ → List Range → Verdict (Option ℕ × ℕ)
end_delta r prior_end rest = elim r.end [
  | some e ↦ do d ← ok_or (checked_sub e r.start) unordered; accept (some d, e)
  | none ↦ if is_last rest then accept (none, prior_end) else reject unordered
]

unfoldable pub encode_ranges : List Range → ℕ → List (ℕ × Option ℕ) → Verdict (List (ℕ × Option ℕ))
unfolding end_delta
encode_ranges [] prior_end deltas = accept deltas
encode_ranges (r ∷ rest) prior_end deltas = do
  start ← ok_or (checked_sub r.start prior_end) unordered
  (end, prior_end') ← end_delta r prior_end rest
  encode_ranges rest prior_end' (deltas ++ (start, end) ∷ [])

unfoldable pub new : ℕ → Option ℕ → List Range → Verdict RangeFilter
new set_id property_type ranges = do
  ds ← encode_ranges ranges 0 []
  accept (record { set_id = set_id; property_type = property_type; deltas = ds })

unfoldable pub range_count : RangeFilter → ℕ
range_count f = length f.deltas

-- The End with its delta added back, and the end that the next Start counts from.
end_of_delta : ℕ → Option ℕ → ℕ → Verdict (Option ℕ × ℕ)
end_of_delta start none prior_end = accept (none, prior_end)
end_of_delta start (some d) prior_end = do
  e ← ok_or (checked_add start d) overflow
  accept (some e, e)

unfoldable pub resolve : List (ℕ × Option ℕ) → ℕ → List Range → Verdict (List Range)
unfolding end_of_delta
resolve [] prior_end out = accept out
resolve ((start_delta, d) ∷ rest) prior_end out = do
  start ← ok_or (checked_add prior_end start_delta) overflow
  (e, prior_end') ← end_of_delta start d prior_end
  resolve rest prior_end' (out ++ record { start = start; end = e } ∷ [])

unfoldable pub ranges : RangeFilter → Verdict (List Range)
ranges f = resolve f.deltas 0 []

-- `flat_map(|r| [Some(r.start), r.end]).flatten()`
unfoldable pub bounds_of : List Range → List ℕ
bounds_of [] = []
bounds_of (r ∷ rs) =
    let rest = bounds_of rs in r.start ∷ elim r.end [ none ↦ rest | some e ↦ e ∷ rest ]

-- `find(|v| *v > u8::MAX as u64)`
find_above : List ℕ → Option ℕ
find_above [] = none
find_above (v ∷ vs) = let rest = find_above vs in if ltb 255 v then some v else rest

check_property_type : RangeFilterKind → Option ℕ → Verdict (Unit {0})
check_property_type kind none =
    if has_property_type kind then reject (property_type_mismatch kind) else accept tt
check_property_type kind (some p) =
    if has_property_type kind
    then (if not (p % 2 == 0) then reject (odd_property_type p) else accept tt)
    else reject (property_type_mismatch kind)

check_priority : RangeFilterKind → List Range → Verdict (List Range)
unfolding bounds_of find_above
check_priority kind rs =
    if is_priority kind
    then elim (find_above (bounds_of rs)) [
      | none ↦ accept rs
      | some value ↦ reject (priority_out_of_range value)
    ]
    else accept rs

unfoldable pub validate : RangeFilter → RangeFilterKind → Verdict (List Range)
unfolding check_property_type check_priority
validate f kind = do check_property_type kind f.property_type; rs ← ranges f; check_priority kind rs
