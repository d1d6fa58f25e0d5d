-- ===== src/Data/TrackName/RoundTrip.antt =====
-- Building, writing and reading the track names of full_track_name.rs.
use moqtail.Prelude.{
  ℕ, ◌+◌, ◌^◌, ◌<◌, ◌≤◌, ◌≡◌, refl, ◌++◌, append_assoc, true, length, length-append, leb, le→leb,
  subst, arith,
}
use moqtail.Wire.Outcome.{
  ok, track_name_error, not_enough_bytes, guard, guard-eq-ok, ok_injective, >>=-eq-ok, ◌>>=◌,
}
use moqtail.Wire.Buffer.{Bytes, copy_to_bytes, take-length_append, drop-length_append}
use moqtail.Wire.Varint.{get_vi, vi}
use moqtail.Wire.Varint.RoundTrip.{get_vi-vi, put_vi-vi}
use moqtail.Wire.Tuple
use moqtail.Wire.Tuple.{TupleField, bytes_eq}
use moqtail.Wire.Tuple.RoundTrip.{
  Representable, tuple_bytes, serialize-tuple_bytes, deserialize-tuple_bytes,
  serialize-Representable,
}
use moqtail.Data.TrackName.{FullTrackName, namespace_length, new, serialize, deserialize}

-- What `new` accepts.
new-ok :
    (namespace : Tuple.Tuple) (name : TupleField) (n : FullTrackName)
    → new namespace name ≡ ok n
    → (n ≡ record { namespace = namespace; name = name })
      × (Tuple.serialize namespace ≡ ok (tuple_bytes namespace))
      × Representable namespace
      × (length namespace ≤ 32)
      × (length (tuple_bytes namespace) + length name ≤ 4096)
unfolding new namespace_length
new-ok namespace name n h =
    let (_, few, h₁) = >>=-eq-ok (guard (leb (length namespace) 32) track_name_error) _ h in
    let (ns_len, eq, h₂) = >>=-eq-ok (namespace_length namespace) _ h₁ in
    let (out, eq_out, eq_len) = >>=-eq-ok (Tuple.serialize namespace) _ eq in
    let fit : Representable namespace = serialize-Representable namespace out eq_out in
    let written : Tuple.serialize namespace ≡ ok (tuple_bytes namespace) =
      serialize-tuple_bytes namespace fit in
    (ground arith, written, fit, ground arith, ground arith)

-- A track name that `new` builds is written, and reads back, whatever follows it.
pub deserialize-serialize_name :
    (namespace : Tuple.Tuple) (name : TupleField) (n : FullTrackName) (rest : Bytes)
    → new namespace name ≡ ok n
    → (serialize n >>= λ e. deserialize (e ++ rest)) ≡ ok (n, rest)
unfolding serialize deserialize namespace_length
deserialize-serialize_name namespace name n rest h =
    let (made, written, fit, few, short) = new-ok namespace name n h in
    let short_name : length name < 2 ^ 64 = omega arith in
    rw
      (
        made,
        written,
        put_vi-vi (tuple_bytes namespace) (length name) short_name,
        append_assoc (tuple_bytes namespace ++ vi (length name)) name rest,
        append_assoc (tuple_bytes namespace) (vi (length name)) (name ++ rest),
        deserialize-tuple_bytes namespace (vi (length name) ++ (name ++ rest)) fit,
        le→leb (length namespace) 32 few,
        get_vi-vi (length name) (name ++ rest) short_name,
      )
      (rw
        (
          le→leb (length name) (length (name ++ rest)) (omega (arith, length-append name rest)),
          take-length_append,
          drop-length_append,
          written,
          le→leb _ 4096 short,
        )
        refl)

new-eq :
    (namespace : Tuple.Tuple) (name : TupleField) {ns_len : ℕ}
    → leb (length namespace) 32 ≡ true
    → namespace_length namespace ≡ ok ns_len
    → leb (ns_len + length name) 4096 ≡ true
    → new namespace name ≡ ok (record { namespace = namespace; name = name })
unfolding new
new-eq namespace name few written short = rw (few, written, short) refl

-- A track name that `deserialize` reads from any bytes is one that `new` accepts: the limits on
-- fields and length hold for both.
new-deserialize :
    (bs rest : Bytes) (n : FullTrackName)
    → deserialize bs ≡ ok (n, rest)
    → new n.namespace n.name ≡ ok n
unfolding deserialize
new-deserialize bs rest n h =
    let (p₁, _, h₁) = >>=-eq-ok (Tuple.deserialize bs) _ h in
    let (_, few, h₂) = >>=-eq-ok (guard (leb (length p₁.0) 32) track_name_error) _ h₁ in
    let (p₂, _, h₃) = >>=-eq-ok (get_vi p₁.1) _ h₂ in
    let (_, enough, h₄) =
      >>=-eq-ok (guard (leb p₂.0 (length p₂.1)) (not_enough_bytes p₂.0 (length p₂.1))) _ h₃ in
    let (p₃, _, h₅) = >>=-eq-ok (copy_to_bytes p₂.1 p₂.0) _ h₄ in
    let (ns_len, written, h₆) = >>=-eq-ok (namespace_length p₁.0) _ h₅ in
    let (_, short, h₇) =
      >>=-eq-ok (guard (leb (ns_len + length p₃.0) 4096) track_name_error) _ h₆ in
    let same : (record { namespace = p₁.0; name = p₃.0 }, p₃.1) ≡ (n, rest) = ok_injective h₇ in
    subst (λ (q : FullTrackName × Bytes). new q.0.namespace q.0.name ≡ ok q.0) same
      (new-eq p₁.0 p₃.0 (guard-eq-ok _ track_name_error few) written
        (guard-eq-ok _ track_name_error short))
