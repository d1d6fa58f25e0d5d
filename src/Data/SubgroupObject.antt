-- ===== src/Data/SubgroupObject.antt =====
-- libs/moqtail-rs/src/model/data/subgroup_object.rs: an Object on a subgroup stream, its id as the
-- difference to the one before. The sums and differences of ids, which are not checked, panic out of
-- range, as they do where overflow checks are on.
pub mod RoundTrip
use moqtail.Prelude.{
  ℕ, ◌+◌, ◌-◌, ◌^◌, List, [], ◌∷◌, ◌++◌, Bool, true, false, not, ◌&&◌, ◌||◌, Option, none, some,
  length, ltb, leb, ◌==◌, if◌then◌else◌,
}
use moqtail.Wire.Outcome.{
  Outcome, ok, err, panicked, not_enough_bytes, protocol_violation, guard, as_violation, ◌>>=◌,
  ◌>>◌,
}
use moqtail.Wire.Buffer.{Bytes, copy_to_bytes, to_usize}
use moqtail.Wire.Varint.{get_vi, put_vi}
use moqtail.Data.Constant.{ObjectStatus, normal, status_try_from, status_to_u64}
use moqtail.Data.Properties.{
  ObjectProperty, serialize_object_properties, deserialize_object_properties,
}

pub record SubgroupObject : Type 0 where
  pub object_id : ℕ
  pub properties : Option (List ObjectProperty)
  pub object_status : Option ObjectStatus
  pub payload : Option Bytes

-- `self.object_id - id - 1`
unfoldable pub id_delta : ℕ → Option ℕ → Outcome ℕ
id_delta object_id none = ok object_id
id_delta object_id (some id) = if ltb id object_id then ok (object_id - id - 1) else panicked

abbrev pub or_empty : Option (List ObjectProperty) → List ObjectProperty
or_empty none = []
or_empty (some ps) = ps

abbrev pub is_nil : List ObjectProperty → Bool
is_nil [] = true
is_nil (p ∷ ps) = false

abbrev pub put_properties : Bool → List ObjectProperty → Bytes → Outcome Bytes
put_properties false properties buf = ok buf
put_properties true properties buf = do
  ext_buf ← serialize_object_properties properties
  buf₁ ← put_vi buf (length ext_buf)
  ok (buf₁ ++ ext_buf)

abbrev pub status_or_normal : Option ObjectStatus → ObjectStatus
status_or_normal none = normal
status_or_normal (some status) = status

abbrev pub put_status : Option ObjectStatus → Bytes → Outcome Bytes
put_status status buf = do
  buf₁ ← put_vi buf 0
  put_vi buf₁ (status_to_u64 (status_or_normal status))

abbrev pub put_body : Option Bytes → Option ObjectStatus → Bytes → Outcome Bytes
put_body none status buf = put_status status buf
put_body (some []) status buf = put_status status buf
put_body (some (b ∷ bs)) status buf = do buf₁ ← put_vi buf (length (b ∷ bs)); ok (buf₁ ++ b ∷ bs)

unfoldable pub serialize : SubgroupObject → Option ℕ → Bool → Outcome Bytes
serialize o previous_object_id has_properties = do
  delta ← id_delta o.object_id previous_object_id
  buf₁ ← put_vi [] delta
  guard (has_properties || is_nil (or_empty o.properties)) protocol_violation
  buf₂ ← put_properties has_properties (or_empty o.properties) buf₁
  put_body o.payload o.object_status buf₂

-- `id + object_id_delta + 1`
unfoldable pub apply_delta : Option ℕ → ℕ → Outcome ℕ
apply_delta none delta = ok delta
apply_delta (some id) delta =
    if ltb (id + delta + 1) (2 ^ 64) then ok (id + delta + 1) else panicked

-- As many bytes as the length says, once it is read.
unfoldable pub take_block : ℕ → Bytes → Outcome (Bytes × Bytes)
take_block len bs = do
  n ← to_usize len
  guard (leb n (length bs)) (not_enough_bytes n (length bs))
  copy_to_bytes bs n

unfoldable pub read_list : ℕ → Bytes → Outcome (Option (List ObjectProperty) × Bytes)
read_list len bs = if len == 0 then ok (some [], bs) else (do
  (header_bytes, bs₁) ← take_block len bs
  headers ← as_violation (deserialize_object_properties header_bytes)
  ok (some headers, bs₁))

unfoldable pub read_properties : Bool → Bytes → Outcome (Option (List ObjectProperty) × Bytes)
read_properties false bs = ok (none, bs)
read_properties true bs = do (ext_len, bs₁) ← get_vi bs; read_list ext_len bs₁

unfoldable pub read_body : ℕ → Bytes → Outcome ((Option ObjectStatus × Option Bytes) × Bytes)
read_body len bs =
    if len == 0
    then (do
      (status_raw, bs₁) ← get_vi bs
      status ← status_try_from status_raw
      ok ((some status, none), bs₁))
    else (do (payload, bs₁) ← take_block len bs; ok ((none, some payload), bs₁))

unfoldable pub deserialize : Bytes → Option ℕ → Bool → Outcome (SubgroupObject × Bytes)
deserialize bs previous_object_id has_properties = do
  (delta, bs₁) ← get_vi bs
  id ← apply_delta previous_object_id delta
  (properties, bs₂) ← read_properties has_properties bs₁
  (payload_len, bs₃) ← get_vi bs₂
  (body, bs₄) ← read_body payload_len bs₃
  ok (
    record { object_id = id; properties = properties; object_status = body.0; payload = body.1 },
    bs₄,
  )
