-- ===== src/Filter/Location.antt =====
-- libs/moqtail-rs/src/model/parameter/location_filter.rs, with `LocationFilterType` of
-- libs/moqtail-rs/src/model/control/constant.rs.
pub mod RoundTrip
pub mod Fetch
use moqtail.Prelude.{
  ℕ, zero, suc, ◌+◌, ◌-◌, min, [], Bool, true, false, ◌&&◌, ◌||◌, Option, none, some, ltb, leb,
  ◌==◌, if◌then◌else◌,
}
use moqtail.Wire.Outcome.{
  Outcome, ok, err, ParseError, panicked, invalid_type, protocol_violation, ok_or, ◌>>=◌,
}
use moqtail.Wire.Buffer.{Bytes, u64_max, checked_add, checked_sub}
use moqtail.Wire.Varint.{get_vi, put_vi}
use moqtail.Wire.Location
use moqtail.Wire.Location.{loc, loc_lt, loc_le}

pub data LocationFilterType : Type 0 where
  none_type relative_start_type absolute_start_type absolute_start_group_end_type
        absolute_range_type next_object_type :
      LocationFilterType

unfoldable pub type_to_u64 : LocationFilterType → ℕ
type_to_u64 none_type = 0x0
type_to_u64 relative_start_type = 0x1
type_to_u64 absolute_start_type = 0x2
type_to_u64 absolute_start_group_end_type = 0x3
type_to_u64 absolute_range_type = 0x4
type_to_u64 next_object_type = 0x5

unfoldable pub type_try_from : ℕ → Outcome LocationFilterType
type_try_from value =
    if value == 0x0
    then ok none_type
    else if value == 0x1
    then ok relative_start_type
    else if value == 0x2
    then ok absolute_start_type
    else if value == 0x3
    then ok absolute_start_group_end_type
    else if value == 0x4
    then ok absolute_range_type
    else if value == 0x5
    then ok next_object_type
    else err invalid_type

pub data LocationFilter : Type 0 where
  no_filter : LocationFilter
  relative_start : ℕ → LocationFilter
  absolute_start : Location.Location → LocationFilter
  absolute_start_group_end : Location.Location → ℕ → LocationFilter
  absolute_range : Location.Location → Location.Location → LocationFilter
  next_object : LocationFilter

unfoldable pub filter_type : LocationFilter → LocationFilterType
filter_type no_filter = none_type
filter_type (relative_start s) = relative_start_type
filter_type (absolute_start s) = absolute_start_type
filter_type (absolute_start_group_end s g) = absolute_start_group_end_type
filter_type (absolute_range s e) = absolute_range_type
filter_type next_object = next_object_type

-- The `u128` arithmetic of the relative start: `saturating_sub`, and the minimum with `u64::MAX`.
relative_group : ℕ → ℕ → ℕ
relative_group largest_group start_group = min (largest_group + 1 - start_group) u64_max

-- `saturating_add(1)` of u64
saturating_suc : ℕ → ℕ
saturating_suc n = min (n + 1) u64_max

unfoldable pub start_location : LocationFilter → Option Location.Location → Option Location.Location
unfolding relative_group saturating_suc
start_location no_filter largest = none
start_location (relative_start s) none = some (loc 0 0)
start_location (relative_start s) (some l) = some (loc (relative_group l.group s) 0)
start_location (absolute_start s) largest = some s
start_location (absolute_start_group_end s g) largest = some s
start_location (absolute_range s e) largest = some s
start_location next_object none = some (loc 0 0)
start_location next_object (some l) = some (loc l.group (saturating_suc l.object))

unfoldable pub end_location : LocationFilter → Option Location.Location
end_location (absolute_start_group_end s g) = some (loc g u64_max)
end_location (absolute_range s e) = some e
end_location no_filter = none
end_location (relative_start s) = none
end_location (absolute_start s) = none
end_location next_object = none

-- `unwrap_or_default`: a Location is {0, 0} by default
location_or_default : Option Location.Location → Location.Location
location_or_default none = loc 0 0
location_or_default (some l) = l

-- `Some(end) if end < largest => end, _ => largest`
end_or_largest : Option Location.Location → Location.Location → Location.Location
end_or_largest none largest = largest
end_or_largest (some e) largest = if loc_lt e largest then e else largest

range_between :
    Location.Location → Location.Location → Option (Location.Location × Location.Location)
range_between s e = if loc_le s e then some (s, e) else none

unfoldable pub fetch_range :
    LocationFilter → Option Location.Location → Option (Location.Location × Location.Location)
unfolding location_or_default end_or_largest range_between start_location end_location
fetch_range f none = none
fetch_range f (some largest) =
    range_between (location_or_default (start_location f (some largest)))
      (end_or_largest (end_location f) largest)

unfoldable pub end_group : ℕ → ℕ → Outcome ℕ
end_group start_group delta = ok_or (checked_add start_group delta) protocol_violation

unfoldable pub end_group_delta : ℕ → ℕ → Outcome ℕ
end_group_delta start_group e = ok_or (checked_sub e start_group) protocol_violation

put_location : Bytes → Location.Location → Outcome Bytes
put_location buf l = do buf₁ ← put_vi buf l.group; put_vi buf₁ l.object

put_fields : Bytes → LocationFilter → Outcome Bytes
unfolding put_location
put_fields buf no_filter = ok buf
put_fields buf next_object = ok buf
put_fields buf (relative_start s) = put_vi buf s
put_fields buf (absolute_start s) = put_location buf s
put_fields buf (absolute_start_group_end s g) = do
  buf₁ ← put_location buf s
  delta ← end_group_delta s.group g
  put_vi buf₁ delta
put_fields buf (absolute_range s e) = do
  buf₁ ← put_location buf s
  delta ← end_group_delta s.group e.group
  buf₂ ← put_vi buf₁ delta
  put_vi buf₂ e.object

unfoldable pub serialize : LocationFilter → Outcome Bytes
unfolding put_fields
serialize f = do buf ← put_vi [] (type_to_u64 (filter_type f)); put_fields buf f

-- `map_err` to a PROTOCOL_VIOLATION
abbrev violation_of {ℓ} : {A : Type ℓ} → Outcome A → Outcome A
violation_of (ok a) = ok a
violation_of (err e) = err protocol_violation
violation_of panicked = panicked

get_fields : LocationFilterType → Bytes → Outcome (LocationFilter × Bytes)
get_fields none_type bs = ok (no_filter, bs)
get_fields relative_start_type bs = do
  (start_group, bs₁) ← get_vi bs
  ok (relative_start start_group, bs₁)
get_fields absolute_start_type bs = do
  (start, bs₁) ← Location.deserialize bs
  ok (absolute_start start, bs₁)
get_fields absolute_start_group_end_type bs = do
  (start, bs₁) ← Location.deserialize bs
  (delta, bs₂) ← get_vi bs₁
  g ← end_group start.group delta
  ok (absolute_start_group_end start g, bs₂)
get_fields absolute_range_type bs = do
  (start, bs₁) ← Location.deserialize bs
  (delta, bs₂) ← get_vi bs₁
  g ← end_group start.group delta
  (object, bs₃) ← get_vi bs₂
  ok (absolute_range start (loc g object), bs₃)
get_fields next_object_type bs = ok (next_object, bs)

unfoldable pub deserialize : Bytes → Outcome (LocationFilter × Bytes)
unfolding get_fields
deserialize bs = do
  (raw, bs₁) ← get_vi bs
  filter_type ← violation_of (type_try_from raw)
  get_fields filter_type bs₁
