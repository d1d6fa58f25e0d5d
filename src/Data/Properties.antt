-- ===== src/Data/Properties.antt =====
-- libs/moqtail-rs/src/model/property/object_property.rs: the properties of an Object, typed views of
-- its key-value pairs, with `TrackPropertyType` of property/constant.rs.
pub mod RoundTrip
use moqtail.Prelude.{
  ℕ, List, [], ◌∷◌, Bool, true, false, not, ◌||◌, Option, none, some, ltb, ◌==◌, if◌then◌else◌,
}
use moqtail.Wire.Outcome.{
  Outcome, ok, err, panicked, protocol_violation, invalid_type, guard, ◌>>=◌, ◌>>◌,
}
use moqtail.Wire.Buffer.{Bytes}
use moqtail.Wire.Pair.{
  KeyValuePair, var_int, bytes, get_type, try_new_varint, try_new_bytes, serialize_kvp_list,
  deserialize_kvp_list_until_empty,
}

pub data TrackPropertyType : Type 0 where
  object_delivery_timeout : TrackPropertyType
  max_cache_duration : TrackPropertyType
  subgroup_delivery_timeout : TrackPropertyType
  immutable_properties_type : TrackPropertyType
  default_publisher_priority : TrackPropertyType
  default_publisher_group_order : TrackPropertyType
  dynamic_groups : TrackPropertyType
  prior_group_id_gap_type : TrackPropertyType
  prior_object_id_gap_type : TrackPropertyType

unfoldable pub property_type_try_from : ℕ → Outcome TrackPropertyType
property_type_try_from value =
    if value == 0x02
    then ok object_delivery_timeout
    else if value == 0x04
    then ok max_cache_duration
    else if value == 0x06
    then ok subgroup_delivery_timeout
    else if value == 0x0b
    then ok immutable_properties_type
    else if value == 0x0e
    then ok default_publisher_priority
    else if value == 0x22
    then ok default_publisher_group_order
    else if value == 0x30
    then ok dynamic_groups
    else if value == 0x3c
    then ok prior_group_id_gap_type
    else if value == 0x3e
    then ok prior_object_id_gap_type
    else err invalid_type

unfoldable pub property_type_to_u64 : TrackPropertyType → ℕ
property_type_to_u64 object_delivery_timeout = 0x02
property_type_to_u64 max_cache_duration = 0x04
property_type_to_u64 subgroup_delivery_timeout = 0x06
property_type_to_u64 immutable_properties_type = 0x0b
property_type_to_u64 default_publisher_priority = 0x0e
property_type_to_u64 default_publisher_group_order = 0x22
property_type_to_u64 dynamic_groups = 0x30
property_type_to_u64 prior_group_id_gap_type = 0x3c
property_type_to_u64 prior_object_id_gap_type = 0x3e

pub data ObjectProperty : Type 0 where
  immutable_properties : List KeyValuePair → ObjectProperty
  prior_group_id_gap : ℕ → ObjectProperty
  prior_object_id_gap : ℕ → ObjectProperty
  unknown : KeyValuePair → ObjectProperty

unfoldable pub type_value : ObjectProperty → ℕ
type_value (immutable_properties properties) = 0x0b
type_value (prior_group_id_gap gap) = 0x3c
type_value (prior_object_id_gap gap) = 0x3e
type_value (unknown kvp) = get_type kvp

-- `TryInto<KeyValuePair>`
unfoldable pub try_into : ObjectProperty → Outcome KeyValuePair
try_into (immutable_properties properties) = do
  e ← serialize_kvp_list properties
  try_new_bytes 0x0b e
try_into (prior_group_id_gap gap) = try_new_varint 0x3c gap
try_into (prior_object_id_gap gap) = try_new_varint 0x3e gap
try_into (unknown kvp) = ok kvp

unfoldable pub kvp_varint_value : KeyValuePair → Outcome ℕ
kvp_varint_value (var_int t v) = ok v
kvp_varint_value (bytes t v) = err protocol_violation

unfoldable pub kvp_bytes_value : KeyValuePair → Outcome Bytes
kvp_bytes_value (bytes t v) = ok v
kvp_bytes_value (var_int t v) = err protocol_violation

unfoldable pub any_immutable : List KeyValuePair → Bool
any_immutable [] = false
any_immutable (p ∷ ps) = (get_type p == 0x0b) || any_immutable ps

unfoldable pub deserialize_immutable : KeyValuePair → Outcome ObjectProperty
deserialize_immutable kvp = do
  buf ← kvp_bytes_value kvp
  properties ← deserialize_kvp_list_until_empty buf
  guard (not (any_immutable properties)) protocol_violation
  ok (immutable_properties properties)

-- The `match` on the type, with the types of tracks as unknown.
unfoldable pub deserialize_typed : KeyValuePair → Outcome TrackPropertyType → Outcome ObjectProperty
deserialize_typed kvp (ok immutable_properties_type) = deserialize_immutable kvp
deserialize_typed kvp (ok prior_group_id_gap_type) = do
  value ← kvp_varint_value kvp
  ok (prior_group_id_gap value)
deserialize_typed kvp (ok prior_object_id_gap_type) = do
  value ← kvp_varint_value kvp
  ok (prior_object_id_gap value)
deserialize_typed kvp other = ok (unknown kvp)

unfoldable pub deserialize_property : KeyValuePair → Outcome ObjectProperty
deserialize_property kvp = deserialize_typed kvp (property_type_try_from (get_type kvp))

-- `.map(…).collect::<Result<_, _>>()` stops at the first error.
unfoldable pub collect {ℓ κ} :
    {A : Type ℓ} {B : Type κ} → (A → Outcome B) → List A → Outcome (List B)
collect f [] = ok []
collect f (a ∷ rest) = do b ← f a; bs ← collect f rest; ok (b ∷ bs)

unfoldable pub serialize_object_properties : List ObjectProperty → Outcome Bytes
serialize_object_properties exts = do kvps ← collect try_into exts; serialize_kvp_list kvps

unfoldable pub deserialize_object_properties : Bytes → Outcome (List ObjectProperty)
deserialize_object_properties bs = do
  kvps ← deserialize_kvp_list_until_empty bs
  collect deserialize_property kvps

unfoldable pub validate_gap : ℕ → ℕ → ObjectProperty → Outcome (Unit {0})
validate_gap group_id object_id (prior_group_id_gap gap) =
    guard (not (ltb group_id gap)) protocol_violation
validate_gap group_id object_id (prior_object_id_gap gap) =
    guard (not (ltb object_id gap)) protocol_violation
validate_gap group_id object_id (immutable_properties properties) = ok tt
validate_gap group_id object_id (unknown kvp) = ok tt

unfoldable pub validate_gaps : ℕ → ℕ → List ObjectProperty → Outcome (Unit {0})
validate_gaps group_id object_id [] = ok tt
validate_gaps group_id object_id (p ∷ ps) =
    validate_gap group_id object_id p >> validate_gaps group_id object_id ps

unfoldable pub validate_prior_gaps : ℕ → ℕ → Option (List ObjectProperty) → Outcome (Unit {0})
validate_prior_gaps group_id object_id none = ok tt
validate_prior_gaps group_id object_id (some properties) =
    validate_gaps group_id object_id properties
