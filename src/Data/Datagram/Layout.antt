-- ===== src/Data/Datagram/Layout.antt =====
-- The fields of datagram.rs, written and read back.
use moqtail.Prelude.{
  is_some, ℕ, ◌^◌, ◌<◌, ◌≡◌, refl, sym, ap, List, [], ◌∷◌, ◌++◌, append_assoc, append-nil, subst,
  Bool, true, false, not, ◌&&◌, Option, none, some, length, length-append, lt→ltb, le→leb, ◌==◌,
  arith,
}
use moqtail.Wire.Outcome.{ok}
use moqtail.Wire.Buffer.{
  Bytes, IsU64, take-length_append, drop-length_append, copy_to_bytes, copy_to_bytes-append,
}
use moqtail.Wire.Varint.{get_vi, vi}
use moqtail.Wire.Varint.RoundTrip.{get_vi-vi, put_vi-vi}
use moqtail.Data.Constant.{
  has_bit, or_if, ObjectStatus, status_to_u64, ObjectDatagramType, datagram_try_new,
  datagram_has_properties, is_end_of_group, is_zero_object_id, datagram_has_default_priority,
  is_status, datagram_from_properties,
}
use moqtail.Data.Constant.Types.{status_try_from_iff}
use moqtail.Data.Properties.{
  ObjectProperty, serialize_object_properties, deserialize_object_properties,
}
use moqtail.Data.Datagram.{
  carries_properties, unwrap_or_zero, put_unless, put_byte_unless, put_properties, put_body,
  read_object_id, read_priority, read_properties, read_body, is_abnormal,
}

-- The flags of a type byte.
abbrev pub HasFlags : ObjectDatagramType → Bool → Bool → Bool → Bool → Bool → Type 0
HasFlags t p e z d s =
    (t.value < 256)
    × (datagram_try_new t.value ≡ ok t)
    × (datagram_has_properties t ≡ p)
    × (is_end_of_group t ≡ e)
    × (is_zero_object_id t ≡ z)
    × (datagram_has_default_priority t ≡ d)
    × (is_status t ≡ s)

type_of : Bool → Bool → Bool → Bool → Bool → ObjectDatagramType
unfolding or_if
type_of p e z d s = record {
  value = or_if s 0x20 (or_if d 0x08 (or_if z 0x04 (or_if e 0x02 (or_if p 0x01 0))));
}

-- A type byte is built unless it would be a status at the end of a group.
pub from_properties-HasFlags :
    (p e z d s : Bool)
    → (e && s) ≡ false
    → (t : ObjectDatagramType) × (datagram_from_properties p e z d s ≡ ok t) × HasFlags t p e z d s
unfolding datagram_from_properties datagram_try_new has_bit type_of
from_properties-HasFlags p e z d s h = (
  type_of p e z d s,
  ground arith,
  (
    ground arith,
    ground arith,
    ground arith,
    ground arith,
    ground arith,
    ground arith,
    ground arith,
  ),
)

abbrev pub bytes_unless : Bool → ℕ → Bytes
bytes_unless true v = []
bytes_unless false v = vi v

abbrev pub byte_unless : Bool → ℕ → Bytes
byte_unless true b = []
byte_unless false b = b ∷ []

pub put_unless-bytes_unless :
    (b : Bool) (v : ℕ) (buf : Bytes) → IsU64 v → put_unless b v buf ≡ ok (buf ++ bytes_unless b v)
put_unless-bytes_unless true v buf h = ap ok (sym (append-nil buf))
put_unless-bytes_unless false v buf h = put_vi-vi buf v h

pub put_byte_unless-byte_unless :
    (b : Bool) (v : ℕ) (buf : Bytes) → put_byte_unless b v buf ≡ buf ++ byte_unless b v
put_byte_unless-byte_unless true v buf = sym (append-nil buf)
put_byte_unless-byte_unless false v buf = refl

pub read_object_id_lem :
    (object_id : ℕ) (rest : Bytes)
    → IsU64 object_id
    → read_object_id (object_id == 0) (bytes_unless (object_id == 0) object_id ++ rest)
      ≡ ok (object_id, rest)
read_object_id_lem object_id rest h = ground (arith, get_vi-vi object_id rest h)

pub read_priority_lem :
    (priority : Option ℕ) (rest : Bytes)
    → read_priority
        (not (is_some priority))
        (byte_unless (not (is_some priority)) (unwrap_or_zero priority) ++ rest)
      ≡ ok (priority, rest)
read_priority_lem none rest = refl
read_priority_lem (some b) rest = refl

-- No properties are read where there are none to write, and otherwise those that
-- `deserialize_object_properties` makes of what `serialize_object_properties` writes.
abbrev pub ReadsBack : Option (List ObjectProperty) → Option (List ObjectProperty) → Type 0
ReadsBack none back = back ≡ none
ReadsBack (some []) back = back ≡ none
ReadsBack (some (e ∷ es)) back =
    (ext : Bytes) × (l : List ObjectProperty) × (serialize_object_properties (e ∷ es) ≡ ok ext)
    × (0 < length ext)
    × IsU64 (length ext)
    × (deserialize_object_properties ext ≡ ok l)
    × (back ≡ some l)

read_properties-vi :
    (ext rest : Bytes) (l : List ObjectProperty)
    → 0 < length ext
    → IsU64 (length ext)
    → deserialize_object_properties ext ≡ ok l
    → read_properties true ((vi (length ext) ++ ext) ++ rest) ≡ ok (some l, rest)
unfolding read_properties
read_properties-vi ext rest l pos small again =
    rw
      (
        append_assoc (vi (length ext)) ext rest,
        get_vi-vi (length ext) (ext ++ rest) small,
        positive (length ext) pos,
        lt→ltb (length ext) (2 ^ 64) small,
        le→leb (length ext) (length (ext ++ rest)) (omega (arith, length-append ext rest)),
        take-length_append,
        drop-length_append,
        again,
      )
      refl
  where
    positive : (n : ℕ) → 0 < n → (n == 0) ≡ false
    positive n h = ground arith

pub properties_lem :
    (written back : Option (List ObjectProperty))
    → ReadsBack written back
    → (ext : Bytes) × ((buf : Bytes)
        → put_properties (carries_properties written) written buf ≡ ok (buf ++ ext))
      × ((rest : Bytes)
          → read_properties (carries_properties written) (ext ++ rest) ≡ ok (back, rest))
      × (is_some back ≡ carries_properties written)
unfolding read_properties
properties_lem none back h =
    ([], (λ buf. ap ok (sym (append-nil buf))), (λ rest. rw h refl), rw h refl)
properties_lem (some []) back h =
    ([], (λ buf. ap ok (sym (append-nil buf))), (λ rest. rw h refl), rw h refl)
properties_lem (some (e ∷ es)) back (ext, l, written, pos, small, again, is) = (
  vi (length ext) ++ ext,
  (λ buf.
      rw (written, put_vi-vi buf (length ext) small)
        (ap ok (append_assoc buf (vi (length ext)) ext))),
  (λ rest. rw is (read_properties-vi ext rest l pos small again)),
  rw is refl,
)

-- A payload or a status; a status is not at the end of a group, and one that is not Normal carries
-- no properties.
abbrev pub FitsBody : Option Bytes → Option ObjectStatus → Bool → Bool → Type 0
FitsBody (some payload) none end_of_group properties = Unit {0}
FitsBody none (some status) end_of_group properties =
    (end_of_group ≡ false) × ((properties && is_abnormal (some status)) ≡ false)
FitsBody (some payload) (some status) end_of_group properties = ⊥
FitsBody none none end_of_group properties = ⊥

copy_all : (bs : Bytes) → copy_to_bytes bs (length bs) ≡ ok (bs, [])
copy_all bs =
    subst (λ (l : Bytes). copy_to_bytes l (length bs) ≡ ok (bs, [])) (append-nil bs)
      (copy_to_bytes-append bs [])

get_vi-vi_end : (v : ℕ) → IsU64 v → get_vi (vi v) ≡ ok (v, [])
get_vi-vi_end v h =
    subst (λ (l : Bytes). get_vi l ≡ ok (v, [])) (append-nil (vi v)) (get_vi-vi v [] h)

status-IsU64 : (s : ObjectStatus) → IsU64 (status_to_u64 s)
unfolding status_to_u64
status-IsU64 s = ground arith

pub body_lem :
    (payload : Option Bytes) (status : Option ObjectStatus) (end_of_group properties : Bool)
    → FitsBody payload status end_of_group properties
    → (body : Bytes) × ((buf : Bytes) → put_body status payload buf ≡ ok (buf ++ body))
      × (read_body (is_some status) body ≡ ok ((payload, status), []))
      × ((end_of_group && is_some status) ≡ false)
      × ((properties && is_abnormal status) ≡ false)
unfolding read_body
body_lem (some payload) none e p h =
    (payload, (λ buf. refl), rw (copy_all payload) refl, ground arith, ground arith)
body_lem none (some status) e p (h, k) = (
  vi (status_to_u64 status),
  (λ buf. put_vi-vi buf (status_to_u64 status) (status-IsU64 status)),
  rw
      (
        get_vi-vi_end (status_to_u64 status) (status-IsU64 status),
        (status_try_from_iff (status_to_u64 status) status).1 refl,
      )
      refl,
  ground arith,
  k,
)
body_lem (some payload) (some status) e p h = elim h [ ]
body_lem none none e p h = elim h [ ]
