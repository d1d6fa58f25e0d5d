-- ===== src/Data/Datagram.antt =====
-- libs/moqtail-rs/src/model/data/datagram.rs: an Object, or its status, in one datagram.
pub mod Layout
pub mod RoundTrip
use moqtail.Prelude.{
  is_some, ℕ, List, [], ◌∷◌, ◌++◌, Bool, true, false, not, ◌&&◌, Option, none, some, length, leb,
  ◌==◌, if◌then◌else◌,
}
use moqtail.Wire.Outcome.{
  as_violation, Outcome, ok, err, panicked, not_enough_bytes, protocol_violation, guard, ◌>>=◌,
  ◌>>◌,
}
use moqtail.Wire.Buffer.{Bytes, get_u8, copy_to_bytes, to_usize}
use moqtail.Wire.Varint.{get_vi, put_vi}
use moqtail.Data.Constant.{
  ObjectStatus, normal, end_of_group_status, end_of_track, status_try_from, status_to_u64,
  ObjectDatagramType, datagram_try_new, datagram_has_properties, is_end_of_group, is_zero_object_id,
  datagram_has_default_priority, is_status, datagram_from_properties,
}
use moqtail.Data.Properties.{
  ObjectProperty, serialize_object_properties, deserialize_object_properties,
}

pub record Datagram : Type 0 where
  pub track_alias : ℕ
  pub group_id : ℕ
  pub object_id : ℕ
  pub publisher_priority : Option ℕ
  pub properties : Option (List ObjectProperty)
  pub payload : Option Bytes
  pub object_status : Option ObjectStatus
  pub end_of_group : Bool

unfoldable pub new_payload :
    ℕ → ℕ → ℕ → Option ℕ → Option (List ObjectProperty) → Bytes → Bool → Datagram
new_payload alias group object_id priority properties payload end_of_group = record {
  track_alias = alias;
  group_id = group;
  object_id = object_id;
  publisher_priority = priority;
  properties = properties;
  payload = some payload;
  object_status = none;
  end_of_group = end_of_group;
}

unfoldable pub new_status :
    ℕ → ℕ → ℕ → Option ℕ → Option (List ObjectProperty) → ObjectStatus → Datagram
new_status alias group object_id priority properties status = record {
  track_alias = alias;
  group_id = group;
  object_id = object_id;
  publisher_priority = priority;
  properties = properties;
  payload = none;
  object_status = some status;
  end_of_group = false;
}

unfoldable pub new : ℕ → ℕ → ℕ → ℕ → Bytes → Datagram
new alias group object_id priority payload = record {
  track_alias = alias;
  group_id = group;
  object_id = object_id;
  publisher_priority = some priority;
  properties = none;
  payload = some payload;
  object_status = none;
  end_of_group = false;
}

-- `properties.as_deref().is_some_and(|p| !p.is_empty())`
abbrev pub carries_properties : Option (List ObjectProperty) → Bool
carries_properties none = false
carries_properties (some []) = false
carries_properties (some (p ∷ ps)) = true

abbrev pub unwrap_or_zero : Option ℕ → ℕ
unwrap_or_zero none = 0
unwrap_or_zero (some n) = n

abbrev pub unwrap_or_empty : Option (List ObjectProperty) → List ObjectProperty
unwrap_or_empty none = []
unwrap_or_empty (some ps) = ps

-- `if !flag { buf.put_vi(v)?; }` and `if !flag { buf.put_u8(b); }`
abbrev pub put_unless : Bool → ℕ → Bytes → Outcome Bytes
put_unless true v buf = ok buf
put_unless false v buf = put_vi buf v

abbrev pub put_byte_unless : Bool → ℕ → Bytes → Bytes
put_byte_unless true b buf = buf
put_byte_unless false b buf = buf ++ b ∷ []

abbrev pub put_properties : Bool → Option (List ObjectProperty) → Bytes → Outcome Bytes
put_properties false properties buf = ok buf
put_properties true properties buf = do
  payload_buf ← serialize_object_properties (unwrap_or_empty properties)
  buf₁ ← put_vi buf (length payload_buf)
  ok (buf₁ ++ payload_buf)

abbrev pub put_body : Option ObjectStatus → Option Bytes → Bytes → Outcome Bytes
put_body (some status) payload buf = put_vi buf (status_to_u64 status)
put_body none (some payload) buf = ok (buf ++ payload)
put_body none none buf = ok buf

unfoldable pub serialize : Datagram → Outcome Bytes
serialize d = do
  let properties = carries_properties d.properties
  dtype ←
      datagram_from_properties properties d.end_of_group (d.object_id == 0)
        (not (is_some d.publisher_priority)) (is_some d.object_status)
  buf₁ ← put_vi [] dtype.value
  buf₂ ← put_vi buf₁ d.track_alias
  buf₃ ← put_vi buf₂ d.group_id
  buf₄ ← put_unless (is_zero_object_id dtype) d.object_id buf₃
  let buf₅ =
      put_byte_unless (datagram_has_default_priority dtype) (unwrap_or_zero d.publisher_priority)
        buf₄
  buf₆ ← put_properties properties d.properties buf₅
  put_body d.object_status d.payload buf₆

abbrev pub read_object_id : Bool → Bytes → Outcome (ℕ × Bytes)
read_object_id true bs = ok (0, bs)
read_object_id false bs = get_vi bs

abbrev pub read_priority : Bool → Bytes → Outcome (Option ℕ × Bytes)
read_priority true bs = ok (none, bs)
read_priority false [] = err (not_enough_bytes 1 0)
read_priority false (b ∷ bs) = do (priority, bs₁) ← get_u8 (b ∷ bs); ok (some priority, bs₁)

unfoldable pub read_properties : Bool → Bytes → Outcome (Option (List ObjectProperty) × Bytes)
read_properties false bs = ok (none, bs)
read_properties true bs = do
  (ext_len_u64, bs₁) ← get_vi bs
  guard (not (ext_len_u64 == 0)) protocol_violation
  ext_len ← to_usize ext_len_u64
  guard (leb ext_len (length bs₁)) (not_enough_bytes ext_len (length bs₁))
  (header_bytes, bs₂) ← copy_to_bytes bs₁ ext_len
  headers ← as_violation (deserialize_object_properties header_bytes)
  ok (some headers, bs₂)

unfoldable pub read_body : Bool → Bytes → Outcome ((Option Bytes × Option ObjectStatus) × Bytes)
read_body true bs = do
  (status_raw, bs₁) ← get_vi bs
  status ← status_try_from status_raw
  ok ((none, some status), bs₁)
read_body false bs = do
  (payload, bs₁) ← copy_to_bytes bs (length bs)
  ok ((some payload, none), bs₁)

-- A status other than Normal carries no properties.
abbrev pub is_abnormal : Option ObjectStatus → Bool
is_abnormal none = false
is_abnormal (some normal) = false
is_abnormal (some end_of_group_status) = true
is_abnormal (some end_of_track) = true

unfoldable pub deserialize : Bytes → Outcome (Datagram × Bytes)
deserialize bs = do
  (msg_type_raw, bs₁) ← get_vi bs
  msg_type ← datagram_try_new msg_type_raw
  (alias, bs₂) ← get_vi bs₁
  (group, bs₃) ← get_vi bs₂
  (object_id, bs₄) ← read_object_id (is_zero_object_id msg_type) bs₃
  (priority, bs₅) ← read_priority (datagram_has_default_priority msg_type) bs₄
  (properties, bs₆) ← read_properties (datagram_has_properties msg_type) bs₅
  (body, bs₇) ← read_body (is_status msg_type) bs₆
  guard (not (is_some properties && is_abnormal body.1)) protocol_violation
  ok (
    record {
      track_alias = alias;
      group_id = group;
      object_id = object_id;
      publisher_priority = priority;
      properties = properties;
      payload = body.0;
      object_status = body.1;
      end_of_group = is_end_of_group msg_type;
    },
    bs₇,
  )
