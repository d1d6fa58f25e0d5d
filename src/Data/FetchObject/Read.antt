-- ===== src/Data/FetchObject/Read.antt =====
-- `FetchObject::deserialize` of fetch_object.rs.
use moqtail.Prelude.{
  ℕ, bit_and, List, [], ◌∷◌, Bool, true, false, not, ◌&&◌, ◌||◌, Option, none, some, length, leb,
  ◌==◌, if◌then◌else◌,
}
use moqtail.Wire.Outcome.{
  as_violation, Outcome, ok, err, not_enough_bytes, protocol_violation, ok_or, guard, ◌>>=◌, ◌>>◌,
}
use moqtail.Wire.Buffer.{Bytes, get_u8, copy_to_bytes, to_usize, checked_add, checked_sub}
use moqtail.Wire.Varint.{get_vi}
use moqtail.Control.Constant.{GroupOrder, original, ascending, descending}
use moqtail.Data.Constant.{has_bit}
use moqtail.Data.Properties.{ObjectProperty, deserialize_object_properties}
use moqtail.Data.FetchObject.Context.{
  FetchObjectContext, EndOfRangeKind, non_existent, unknown_range, timed_out,
  ObjectForwardingPreference, subgroup, datagram, FetchObject, object, end_of_range, subgroup_of,
  priority_of,
}
use moqtail.Data.FetchObject.Write.{plus_one}

abbrev pub kind_of : ℕ → Outcome EndOfRangeKind
kind_of value =
    if value == 0x8c
    then ok non_existent
    else if value == 0x10c
    then ok unknown_range
    else if value == 0x20c
    then ok timed_out
    else err protocol_violation

unfoldable pub deserialize_marker : ℕ → Bytes → Outcome (FetchObject × Bytes)
deserialize_marker flags_raw bs = do
  kind ← kind_of flags_raw
  (group, bs₁) ← get_vi bs
  (object_id, bs₂) ← get_vi bs₁
  ok (end_of_range kind group object_id, bs₂)

-- The fields that the flags say.
pub record FetchFlags : Type 0 where
  pub mode : ℕ
  pub object_id : Bool
  pub group_id : Bool
  pub priority : Bool
  pub properties : Bool
  pub is_datagram : Bool

unfoldable pub read_flags : ℕ → FetchFlags
unfolding has_bit
read_flags v = record {
  mode = bit_and v 0x03;
  object_id = has_bit v 0x04;
  group_id = has_bit v 0x08;
  priority = has_bit v 0x10;
  properties = has_bit v 0x20;
  is_datagram = has_bit v 0x40;
}

-- The first Object of a stream refers to nothing before it.
unfoldable pub check_first : Option FetchObjectContext → FetchFlags → Outcome (Unit {0})
check_first (some pc) f = ok tt
check_first none f = do
  guard (f.object_id && (f.group_id && f.priority)) protocol_violation
  guard (f.is_datagram || not ((f.mode == 1) || (f.mode == 2))) protocol_violation

abbrev pub and_then : Option ℕ → (ℕ → Option ℕ) → Option ℕ
and_then none f = none
and_then (some a) f = f a

unfoldable pub apply_order : GroupOrder → ℕ → ℕ → Option ℕ
apply_order descending prior delta = and_then (checked_add delta 1) (λ step. checked_sub prior step)
apply_order ascending prior delta = and_then (checked_add prior delta) (λ v. checked_add v 1)
apply_order original prior delta = and_then (checked_add prior delta) (λ v. checked_add v 1)

unfoldable pub resolve_group : Option FetchObjectContext → GroupOrder → ℕ → Outcome ℕ
resolve_group none order delta = ok delta
resolve_group (some pc) order delta = ok_or (apply_order order pc.group_id delta) protocol_violation

unfoldable pub read_group :
    Option FetchObjectContext → GroupOrder → Bool → Bytes → Outcome (ℕ × Bytes)
read_group prev order true bs = do
  (delta, bs₁) ← get_vi bs
  group ← resolve_group prev order delta
  ok (group, bs₁)
read_group none order false bs = err protocol_violation
read_group (some pc) order false bs = ok (pc.group_id, bs)

unfoldable pub read_subgroup : Option FetchObjectContext → Bool → ℕ → Bytes → Outcome (ℕ × Bytes)
read_subgroup prev true mode bs = ok (0, bs)
read_subgroup prev false mode bs =
    if mode == 0
    then ok (0, bs)
    else if mode == 1
    then (do s ← ok_or (subgroup_of prev) protocol_violation; ok (s, bs))
    else if mode == 2
    then (do s ← ok_or (subgroup_of prev) protocol_violation; next ← plus_one s; ok (next, bs))
    else get_vi bs

unfoldable pub resolve_object : Option FetchObjectContext → Bool → ℕ → Outcome ℕ
resolve_object none new_group delta = ok delta
resolve_object (some pc) true delta = ok delta
resolve_object (some pc) false delta = ok_or (checked_add pc.object_id delta) protocol_violation

unfoldable pub read_object : Option FetchObjectContext → Bool → Bool → Bytes → Outcome (ℕ × Bytes)
read_object prev new_group true bs = do
  (delta, bs₁) ← get_vi bs
  object_id ← resolve_object prev new_group delta
  ok (object_id, bs₁)
read_object none new_group false bs = err protocol_violation
read_object (some pc) new_group false bs = do
  object_id ← ok_or (checked_add pc.object_id 1) protocol_violation
  ok (object_id, bs)

unfoldable pub read_priority : Option FetchObjectContext → Bool → Bytes → Outcome (ℕ × Bytes)
read_priority prev true [] = err (not_enough_bytes 1 0)
read_priority prev true (b ∷ bs) = get_u8 (b ∷ bs)
read_priority prev false bs = do
  priority ← ok_or (priority_of prev) protocol_violation
  ok (priority, bs)

-- A length and so many bytes.
unfoldable pub read_block : Bytes → Outcome (Bytes × Bytes)
read_block bs = do
  (len_u64, bs₁) ← get_vi bs
  len ← to_usize len_u64
  guard (leb len (length bs₁)) (not_enough_bytes len (length bs₁))
  copy_to_bytes bs₁ len

unfoldable pub read_properties : Bool → Bytes → Outcome (Option (List ObjectProperty) × Bytes)
read_properties false bs = ok (none, bs)
read_properties true bs = do
  (header_bytes, bs₁) ← read_block bs
  headers ← as_violation (deserialize_object_properties header_bytes)
  ok (some headers, bs₁)

abbrev pub preference_of : Bool → ObjectForwardingPreference
preference_of true = datagram
preference_of false = subgroup

unfoldable pub deserialize_object :
    FetchFlags → Bytes → Option FetchObjectContext → GroupOrder → Outcome (FetchObject × Bytes)
deserialize_object f bs prev group_order = do
  check_first prev f
  (group, bs₁) ← read_group prev group_order f.group_id bs
  (subgroup_id, bs₂) ← read_subgroup prev f.is_datagram f.mode bs₁
  (object_id, bs₃) ← read_object prev f.group_id f.object_id bs₂
  (priority, bs₄) ← read_priority prev f.priority bs₃
  (properties, bs₅) ← read_properties f.properties bs₄
  (payload, bs₆) ← read_block bs₅
  ok (
    object (record {
      group_id = group;
      subgroup_id = if f.is_datagram then object_id else subgroup_id;
      object_id = object_id;
      publisher_priority = priority;
      forwarding_preference = preference_of f.is_datagram;
      properties = properties;
      payload = payload;
    }),
    bs₆,
  )

unfoldable pub deserialize :
    Bytes → Option FetchObjectContext → GroupOrder → Outcome (FetchObject × Bytes)
deserialize bs prev group_order = do
  (flags_raw, bs₁) ← get_vi bs
  let rest = deserialize_object (read_flags flags_raw) bs₁ prev group_order
  if leb 128 flags_raw then deserialize_marker flags_raw bs₁ else rest
