-- ===== src/Data/FetchObject/Layout.antt =====
-- The layout of a Fetch Object of fetch_object.rs.
use moqtail.Prelude.{
  is_some, ℕ, ◌<◌, ◌≡◌, refl, sym, ap, List, [], ◌∷◌, ◌++◌, append_assoc, append-nil, Bool, false,
  not, ◌&&◌, Option, none, some, inl, inr, length, leb, ◌==◌, if◌then◌else◌, Bool-cases, arith,
}
use moqtail.Wire.Outcome.{ok}
use moqtail.Wire.Buffer.{Bytes, IsU64}
use moqtail.Wire.Varint.{vi}
use moqtail.Wire.Varint.RoundTrip.{get_vi-vi, put_vi-vi}
use moqtail.Control.Constant.{GroupOrder}
use moqtail.Data.Properties.{
  ObjectProperty, serialize_object_properties, deserialize_object_properties,
}
use moqtail.Data.FetchObject.{
  FetchObjectContext, FetchObjectPayload, FetchObject, object, ObjectForwardingPreference, datagram,
  subgroup, group_delta, object_delta, has_priority, prior_mode, subgroup_mode, flags, is_datagram,
  has_properties, put_properties, serialize_payload, serialize, read_flags, check_first, read_group,
  read_subgroup, read_object, read_properties, preference_of, deserialize_object, deserialize,
}
use moqtail.Data.FetchObject.Fields.{
  IsContext, AllU64, delta_bytes, bytes_if, byte_if, put_delta-delta_bytes, put_if-bytes_if,
  put_byte_if-byte_if, read_flags-flags, group_delta_lem, object_delta_lem, subgroup_mode_lem,
  read_priority_lem, read_block-vi,
}

abbrev pub IsPayload : FetchObjectPayload → Type 0
IsPayload p = IsU64 p.group_id × IsU64 p.subgroup_id × IsU64 p.object_id × IsU64 (length p.payload)

-- No properties are read where there are none to write, and otherwise those that
-- `deserialize_object_properties` makes of what `serialize_object_properties` writes.
abbrev pub ReadsBack : Option (List ObjectProperty) → Option (List ObjectProperty) → Type 0
ReadsBack none back = back ≡ none
ReadsBack (some []) back = back ≡ none
ReadsBack (some (e ∷ es)) back =
    (ext : Bytes) × (l : List ObjectProperty) × (serialize_object_properties (e ∷ es) ≡ ok ext)
    × IsU64 (length ext)
    × (deserialize_object_properties ext ≡ ok l)
    × (back ≡ some l)

pub properties_lem :
    (written back : Option (List ObjectProperty))
    → ReadsBack written back
    → (ext : Bytes) × ((buf : Bytes) → put_properties written buf ≡ ok (buf ++ ext))
      × ((rest : Bytes) → read_properties (has_properties written) (ext ++ rest) ≡ ok (back, rest))
unfolding read_properties
properties_lem none back h = ([], (λ buf. ap ok (sym (append-nil buf))), λ rest. rw h refl)
properties_lem (some []) back h = ([], (λ buf. ap ok (sym (append-nil buf))), λ rest. rw h refl)
properties_lem (some (e ∷ es)) back (ext, l, written, small, again, is) = (
  vi (length ext) ++ ext,
  (λ buf.
      rw (written, put_vi-vi buf (length ext) small)
        (ap ok (append_assoc buf (vi (length ext)) ext))),
  λ rest.
      rw (append_assoc (vi (length ext)) ext rest, read_block-vi ext rest small, again, is) refl,
)

preference_of-is_datagram : (f : ObjectForwardingPreference) → preference_of (is_datagram f) ≡ f
preference_of-is_datagram datagram = refl
preference_of-is_datagram subgroup = refl

-- The first Object of a stream is written with all that its reader asks for.
check_first_lem :
    (prev : Option FetchObjectContext) (order : GroupOrder) (p : FetchObjectPayload)
    (g o : Option ℕ) (mode : ℕ) (properties : Bool)
    → group_delta prev order p.group_id ≡ ok g
    → object_delta prev (is_some g) p.object_id ≡ ok o
    → subgroup_mode (is_datagram p.forwarding_preference) p.subgroup_id prev ≡ ok mode
    → check_first prev (record {
      mode = mode;
      object_id = is_some o;
      group_id = is_some g;
      priority = has_priority prev p.publisher_priority;
      properties = properties;
      is_datagram = is_datagram p.forwarding_preference;
    })
      ≡ ok tt
unfolding check_first group_delta object_delta subgroup_mode prior_mode has_priority
check_first_lem (some pc) order p g o mode properties eg eo em = refl
check_first_lem none order p g o mode properties eg eo em = ground arith

large : (v : ℕ) → v < 128 → leb 128 v ≡ false
large v h = ground arith

abbrev pub read_back : FetchObjectPayload → Option (List ObjectProperty) → FetchObject
read_back p back = object (record p {
  subgroup_id = if is_datagram p.forwarding_preference then p.object_id else p.subgroup_id;
  properties = back;
})

module _ (p : FetchObjectPayload) (prev : Option FetchObjectContext) (order : GroupOrder)
    (back : Option (List ObjectProperty)) (c : IsContext prev) (fits : IsPayload p) (g o : Option ℕ)
    (mode : ℕ) (eg : group_delta prev order p.group_id ≡ ok g)
    (eo : object_delta prev (is_some g) p.object_id ≡ ok o)
    (em : subgroup_mode (is_datagram p.forwarding_preference) p.subgroup_id prev ≡ ok mode)
    (ext : Bytes) (put : (buf : Bytes) → put_properties p.properties buf ≡ ok (buf ++ ext))
    (get : (rest : Bytes)
      → read_properties (has_properties p.properties) (ext ++ rest) ≡ ok (back, rest)) where
  abbrev first_byte : ℕ
  first_byte =
      flags mode (is_some o) (is_some g) (has_priority prev p.publisher_priority)
        (has_properties p.properties) (is_datagram p.forwarding_preference)

  abbrev has_subgroup : Bool
  has_subgroup = not (is_datagram p.forwarding_preference) && (mode == 3)

  -- What is written behind the flags, in front of the rest of the stream.
  fields_bytes : Bytes → Bytes
  fields_bytes rest =
      delta_bytes g
      ++ (bytes_if has_subgroup p.subgroup_id
          ++ (delta_bytes o
              ++ (byte_if (has_priority prev p.publisher_priority) p.publisher_priority
                  ++ (ext ++ (vi (length p.payload) ++ (p.payload ++ rest))))))

  group_facts :
      AllU64 g
      × ((rest : Bytes)
          → read_group prev order (is_some g) (delta_bytes g ++ rest) ≡ ok (p.group_id, rest))
  group_facts = group_delta_lem prev order p.group_id g c fits.0 eg

  object_facts :
      AllU64 o
      × ((rest : Bytes)
          → read_object prev (is_some g) (is_some o) (delta_bytes o ++ rest)
            ≡ ok (p.object_id, rest))
  object_facts = object_delta_lem prev (is_some g) p.object_id o c fits.2 eo

  mode_facts :
      (mode < 4)
      × ((rest : Bytes)
          → read_subgroup prev
              (is_datagram p.forwarding_preference)
              mode
              (bytes_if has_subgroup p.subgroup_id ++ rest)
            ≡ ok (if is_datagram p.forwarding_preference then 0 else p.subgroup_id, rest))
  mode_facts =
      subgroup_mode_lem prev (is_datagram p.forwarding_preference) p.subgroup_id mode fits.1 em

  flag_facts :
      (read_flags first_byte ≡ record {
        mode = mode;
        object_id = is_some o;
        group_id = is_some g;
        priority = has_priority prev p.publisher_priority;
        properties = has_properties p.properties;
        is_datagram = is_datagram p.forwarding_preference;
      })
      × (first_byte < 128)
  flag_facts = read_flags-flags mode (is_some o) (is_some g) _ _ _ mode_facts.0

  abbrev written : Bytes
  written =
      ((((((([] ++ vi first_byte) ++ delta_bytes g) ++ bytes_if has_subgroup p.subgroup_id)
              ++ delta_bytes o)
            ++ byte_if (has_priority prev p.publisher_priority) p.publisher_priority)
          ++ ext)
        ++ vi (length p.payload))
      ++ p.payload

  pub serialize-written : serialize (object p) prev order ≡ ok written
  unfolding serialize serialize_payload
  serialize-written =
      rw
        (
          eg,
          eo,
          em,
          put_vi-vi [] first_byte (omega (arith, flag_facts.1)),
          put_delta-delta_bytes g ([] ++ vi first_byte) group_facts.0,
          put_if-bytes_if has_subgroup p.subgroup_id (([] ++ vi first_byte) ++ delta_bytes g)
              fits.1,
          put_delta-delta_bytes o
              ((([] ++ vi first_byte) ++ delta_bytes g) ++ bytes_if has_subgroup p.subgroup_id)
              object_facts.0,
          put_byte_if-byte_if,
          put,
          put_vi-vi _ (length p.payload) fits.3,
        )
        refl

  written-append : (rest : Bytes) → written ++ rest ≡ vi first_byte ++ fields_bytes rest
  unfolding fields_bytes
  written-append rest = simp append_assoc

  deserialize_object-fields_bytes :
      (rest : Bytes)
      → deserialize_object (read_flags first_byte) (fields_bytes rest) prev order
        ≡ ok (read_back p back, rest)
  unfolding deserialize_object fields_bytes
  deserialize_object-fields_bytes rest =
      rw
        (
          flag_facts.0,
          check_first_lem prev order p g o mode (has_properties p.properties) eg eo em,
          group_facts.1,
          mode_facts.1,
          object_facts.1,
          read_priority_lem,
          get,
          read_block-vi p.payload rest fits.3,
          preference_of-is_datagram,
        )
        (elim (Bool-cases (is_datagram p.forwarding_preference)) [
          | inl d ↦ rw d refl
          | inr d ↦ rw d refl
        ])

  pub deserialize-written :
      (rest : Bytes) → deserialize (written ++ rest) prev order ≡ ok (read_back p back, rest)
  unfolding deserialize
  deserialize-written rest =
      rw
        (
          written-append rest,
          get_vi-vi first_byte (fields_bytes rest) (omega (arith, flag_facts.1)),
          large first_byte flag_facts.1,
        )
        (deserialize_object-fields_bytes rest)
