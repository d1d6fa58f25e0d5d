-- ===== src/Data/Datagram/RoundTrip.antt =====
-- Writing and reading back a datagram of datagram.rs.
use moqtail.Prelude.{
  is_some, ◌≡◌, refl, ap, List, [], ◌++◌, append_assoc, false, not, ◌&&◌, Option, ◌==◌, arith,
}
use moqtail.Wire.Outcome.{ok, ◌>>=◌}
use moqtail.Wire.Buffer.{Bytes, IsU64}
use moqtail.Wire.Varint.{vi}
use moqtail.Wire.Varint.RoundTrip.{get_vi-vi, put_vi-vi}
use moqtail.Data.Constant.{ObjectDatagramType, datagram_from_properties}
use moqtail.Data.Properties.{ObjectProperty}
use moqtail.Data.Datagram.{
  Datagram, carries_properties, unwrap_or_zero, put_properties, put_body, read_properties,
  read_body, is_abnormal, serialize, deserialize,
}
use moqtail.Data.Datagram.Layout.{
  HasFlags, from_properties-HasFlags, bytes_unless, byte_unless, put_unless-bytes_unless,
  put_byte_unless-byte_unless, read_object_id_lem, read_priority_lem, ReadsBack, properties_lem,
  FitsBody, body_lem,
}

abbrev pub IsDatagram : Datagram → Type 0
IsDatagram d =
    IsU64 d.track_alias
    × IsU64 d.group_id
    × IsU64 d.object_id
    × FitsBody d.payload d.object_status d.end_of_group (carries_properties d.properties)

module _ (d : Datagram) (back : Option (List ObjectProperty)) (t : ObjectDatagramType)
    (ext body : Bytes) (ha : IsU64 d.track_alias) (hg : IsU64 d.group_id) (ho : IsU64 d.object_id)
    (built : datagram_from_properties
        (carries_properties d.properties)
        d.end_of_group
        (d.object_id == 0)
        (not (is_some d.publisher_priority))
        (is_some d.object_status)
      ≡ ok t)
    (flags : HasFlags t
      (carries_properties d.properties)
      d.end_of_group
      (d.object_id == 0)
      (not (is_some d.publisher_priority))
      (is_some d.object_status))
    (put : (buf : Bytes)
      → put_properties (carries_properties d.properties) d.properties buf ≡ ok (buf ++ ext))
    (get : (rest : Bytes)
      → read_properties (carries_properties d.properties) (ext ++ rest) ≡ ok (back, rest))
    (same : is_some back ≡ carries_properties d.properties)
    (put_b : (buf : Bytes) → put_body d.object_status d.payload buf ≡ ok (buf ++ body))
    (get_b : read_body (is_some d.object_status) body ≡ ok ((d.payload, d.object_status), []))
    (plain : (carries_properties d.properties && is_abnormal d.object_status) ≡ false) where
  abbrev written : Bytes
  written =
      ((((([] ++ vi t.value) ++ vi d.track_alias) ++ vi d.group_id)
          ++ bytes_unless (d.object_id == 0) d.object_id)
        ++ byte_unless (not (is_some d.publisher_priority)) (unwrap_or_zero d.publisher_priority))
      ++ (ext ++ body)

  serialize-written : serialize d ≡ ok written
  unfolding serialize
  serialize-written =
      rw
        (
          built,
          put_vi-vi [] t.value (omega (arith, flags.0)),
          put_vi-vi ([] ++ vi t.value) d.track_alias ha,
          put_vi-vi (([] ++ vi t.value) ++ vi d.track_alias) d.group_id hg,
          flags.4,
          put_unless-bytes_unless (d.object_id == 0) d.object_id
              ((([] ++ vi t.value) ++ vi d.track_alias) ++ vi d.group_id) ho,
          flags.5,
          put_byte_unless-byte_unless,
          put,
          put_b,
        )
        (ap ok (append_assoc _ ext body))

  abbrev fields_bytes : Bytes
  fields_bytes =
      vi d.track_alias
      ++ (vi d.group_id
          ++ (bytes_unless (d.object_id == 0) d.object_id
              ++ (byte_unless (not (is_some d.publisher_priority))
                    (unwrap_or_zero d.publisher_priority)
                  ++ (ext ++ body))))

  written-append : written ≡ vi t.value ++ fields_bytes
  written-append = simp append_assoc

  deserialize-written : deserialize written ≡ ok (record d { properties = back }, [])
  unfolding deserialize
  deserialize-written =
      rw
        (
          written-append,
          get_vi-vi t.value fields_bytes (omega (arith, flags.0)),
          flags.1,
          get_vi-vi d.track_alias _ ha,
          get_vi-vi d.group_id _ hg,
          flags.4,
          read_object_id_lem d.object_id _ ho,
          flags.5,
          read_priority_lem,
          flags.2,
          get,
          flags.6,
          get_b,
          same,
          plain,
          flags.3,
        )
        refl

-- A datagram of u64s that carries either a payload or a status, a status neither at the end of a
-- group nor, unless it is Normal, with properties, and properties that are written as one byte or
-- more and read back as `back`, `none` for an empty list: it is written without an error, and
-- reads back with `back` as its properties.
pub deserialize-serialize_datagram :
    (d : Datagram) (back : Option (List ObjectProperty))
    → IsDatagram d
    → ReadsBack d.properties back
    → (serialize d >>= deserialize) ≡ ok (record d { properties = back }, [])
deserialize-serialize_datagram d back (ha, hg, ho, fits) r =
    let (ext, put, get, same) = properties_lem d.properties back r in
    let (body, put_b, get_b, end, plain) =
      body_lem d.payload d.object_status d.end_of_group (carries_properties d.properties) fits in
    let (t, built, flags) =
      from_properties-HasFlags (carries_properties d.properties) d.end_of_group (d.object_id == 0)
        (not (is_some d.publisher_priority)) (is_some d.object_status) end in
    rw (serialize-written d back t ext body ha hg ho built flags put get same put_b get_b plain)
      (deserialize-written d back t ext body ha hg ho built flags put get same put_b get_b plain)
