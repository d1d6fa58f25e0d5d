-- ===== src/Data/FetchObject/Write.antt =====
-- `FetchObject::serialize` of fetch_object.rs.
use moqtail.Prelude.{
  is_some, ℕ, ◌+◌, ◌-◌, ◌^◌, bit_and, List, [], ◌∷◌, ◌++◌, Bool, true, false, not, ◌&&◌, ◌||◌,
  Option, none, some, length, ltb, ◌==◌, if◌then◌else◌,
}
use moqtail.Wire.Outcome.{Outcome, ok, err, panicked, protocol_violation, ◌>>=◌}
use moqtail.Wire.Buffer.{Bytes, checked_sub}
use moqtail.Wire.Varint.{put_vi}
use moqtail.Control.Constant.{GroupOrder, original, ascending, descending}
use moqtail.Data.Constant.{or_if}
use moqtail.Data.Properties.{ObjectProperty, serialize_object_properties}
use moqtail.Data.FetchObject.Context.{
  FetchObjectContext, as_flag_value, ObjectForwardingPreference, subgroup, datagram,
  FetchObjectPayload, FetchObject, object, end_of_range, subgroup_of, priority_of,
}

-- An unchecked `+ 1` of a u64
abbrev pub plus_one : ℕ → Outcome ℕ
plus_one a = if ltb (a + 1) (2 ^ 64) then ok (a + 1) else panicked

-- `checked_sub(…).and_then(|d| d.checked_sub(1))`
unfoldable pub step_back : ℕ → ℕ → Option ℕ
step_back a b = if ltb b a then some (a - b - 1) else none

abbrev pub some_delta : Option ℕ → Outcome (Option ℕ)
some_delta none = err protocol_violation
some_delta (some d) = ok (some d)

unfoldable pub order_delta : GroupOrder → ℕ → ℕ → Option ℕ
order_delta descending prior group = step_back prior group
order_delta ascending prior group = step_back group prior
order_delta original prior group = step_back group prior

unfoldable pub group_delta : Option FetchObjectContext → GroupOrder → ℕ → Outcome (Option ℕ)
group_delta none order group = ok (some group)
group_delta (some pc) order group =
    if pc.group_id == group then ok none else some_delta (order_delta order pc.group_id group)

unfoldable pub object_delta : Option FetchObjectContext → Bool → ℕ → Outcome (Option ℕ)
object_delta none new_group object_id = ok (some object_id)
object_delta (some pc) true object_id = ok (some object_id)
object_delta (some pc) false object_id = do
  next ← plus_one pc.object_id
  if next == object_id then ok none else some_delta (checked_sub object_id pc.object_id)

abbrev pub eq_option : Option ℕ → ℕ → Bool
eq_option none b = false
eq_option (some a) b = a == b

unfoldable pub has_priority : Option FetchObjectContext → ℕ → Bool
has_priority prev priority = not (eq_option (priority_of prev) priority)

-- The modes of the prior subgroup: 1 is the same, 2 the next, 3 an explicit one.
unfoldable pub prior_mode : Option ℕ → ℕ → Outcome ℕ
prior_mode none id = ok 3
prior_mode (some s) id =
    if s == id then ok 1 else (do next ← plus_one s; ok (if next == id then 2 else 3))

unfoldable pub subgroup_mode : Bool → ℕ → Option FetchObjectContext → Outcome ℕ
subgroup_mode is_datagram id prev =
    if is_datagram || (id == 0) then ok 0 else prior_mode (subgroup_of prev) id

unfoldable pub flags : ℕ → Bool → Bool → Bool → Bool → Bool → ℕ
unfolding or_if
flags mode object_id group_id priority properties is_datagram =
    let v₁ = or_if object_id 0x04 (bit_and mode 0x03) in
    let v₂ = or_if group_id 0x08 v₁ in
    let v₃ = or_if priority 0x10 v₂ in
    let v₄ = or_if properties 0x20 v₃ in or_if is_datagram 0x40 v₄

abbrev pub is_datagram : ObjectForwardingPreference → Bool
is_datagram datagram = true
is_datagram subgroup = false

abbrev pub has_properties : Option (List ObjectProperty) → Bool
has_properties none = false
has_properties (some []) = false
has_properties (some (p ∷ ps)) = true

abbrev pub put_delta : Option ℕ → Bytes → Outcome Bytes
put_delta none buf = ok buf
put_delta (some d) buf = put_vi buf d

abbrev pub put_if : Bool → ℕ → Bytes → Outcome Bytes
put_if false v buf = ok buf
put_if true v buf = put_vi buf v

abbrev pub put_byte_if : Bool → ℕ → Bytes → Bytes
put_byte_if false b buf = buf
put_byte_if true b buf = buf ++ b ∷ []

abbrev pub put_properties : Option (List ObjectProperty) → Bytes → Outcome Bytes
put_properties none buf = ok buf
put_properties (some []) buf = ok buf
put_properties (some (p ∷ ps)) buf = do
  ext_buf ← serialize_object_properties (p ∷ ps)
  buf₁ ← put_vi buf (length ext_buf)
  ok (buf₁ ++ ext_buf)

unfoldable pub serialize_payload :
    FetchObjectPayload → Option FetchObjectContext → GroupOrder → Outcome Bytes
serialize_payload p prev group_order = do
  group ← group_delta prev group_order p.group_id
  object_id ← object_delta prev (is_some group) p.object_id
  let priority = has_priority prev p.publisher_priority
  mode ← subgroup_mode (is_datagram p.forwarding_preference) p.subgroup_id prev
  buf₁ ← put_vi [] (
      flags mode (is_some object_id) (is_some group) priority (has_properties p.properties)
        (is_datagram p.forwarding_preference))
  buf₂ ← put_delta group buf₁
  buf₃ ← put_if (not (is_datagram p.forwarding_preference) && (mode == 3)) p.subgroup_id buf₂
  buf₄ ← put_delta object_id buf₃
  buf₅ ← put_properties p.properties (put_byte_if priority p.publisher_priority buf₄)
  buf₆ ← put_vi buf₅ (length p.payload)
  ok (buf₆ ++ p.payload)

unfoldable pub serialize : FetchObject → Option FetchObjectContext → GroupOrder → Outcome Bytes
serialize (end_of_range kind group object_id) prev group_order = do
  buf₁ ← put_vi [] (as_flag_value kind)
  buf₂ ← put_vi buf₁ group
  put_vi buf₂ object_id
serialize (object p) prev group_order = serialize_payload p prev group_order
