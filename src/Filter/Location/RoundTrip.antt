-- ===== src/Filter/Location/RoundTrip.antt =====
-- `serialize` and `deserialize` of location_filter.rs.
use moqtail.Prelude.{
  ℕ, ◌+◌, ◌-◌, ◌^◌, ◌<◌, ◌≤◌, ◌≡◌, ◌≢◌, refl, ap, sym, ◌∙◌, append-nil, [], ◌++◌, append_assoc,
  lt→ltb, le→leb, arith,
}
use moqtail.Wire.Outcome.{ok, err, panicked, protocol_violation, >>=-ne-panicked, ◌>>=◌}
use moqtail.Wire.Buffer.{Bytes, IsU64}
use moqtail.Wire.Varint.{get_vi, vi}
use moqtail.Wire.Varint.RoundTrip.{get_vi-vi, put_vi-vi}
use moqtail.Wire.Varint.Decode.{get_vi-ne-panicked}
use moqtail.Wire.Location
use moqtail.Wire.Location.{loc, IsLocation}
use moqtail.Wire.Location.RoundTrip.{
  location_bytes, deserialize-location_bytes, deserialize-ne-panicked,
}
use moqtail.Filter.Location.{
  LocationFilter, no_filter, relative_start, absolute_start, absolute_start_group_end,
  absolute_range, next_object, LocationFilterType, none_type, relative_start_type,
  absolute_start_type, absolute_start_group_end_type, absolute_range_type, next_object_type,
  type_to_u64, type_try_from, filter_type, violation_of, end_group, end_group_delta, put_location,
  put_fields, get_fields, serialize, deserialize,
}

-- What the wire can carry: u64s, and an End Group at or after the Start Group.
abbrev pub IsEncodable : LocationFilter → Type 0
IsEncodable no_filter = Unit {0}
IsEncodable next_object = Unit {0}
IsEncodable (relative_start s) = IsU64 s
IsEncodable (absolute_start s) = IsLocation s
IsEncodable (absolute_start_group_end s g) = IsLocation s × IsU64 g × (s.group ≤ g)
IsEncodable (absolute_range s e) = IsLocation s × IsLocation e × (s.group ≤ e.group)

filter_bytes : LocationFilter → Bytes
filter_bytes no_filter = []
filter_bytes next_object = []
filter_bytes (relative_start s) = vi s
filter_bytes (absolute_start s) = location_bytes s
filter_bytes (absolute_start_group_end s g) = location_bytes s ++ vi (g - s.group)
filter_bytes (absolute_range s e) = location_bytes s ++ (vi (e.group - s.group) ++ vi e.object)

put_location-eq :
    (buf : Bytes) (l : Location.Location)
    → IsLocation l
    → put_location buf l ≡ ok (buf ++ location_bytes l)
unfolding put_location location_bytes
put_location-eq buf l h =
    rw (put_vi-vi buf l.group h.0, put_vi-vi (buf ++ vi l.group) l.object h.1)
      (ap ok (append_assoc buf (vi l.group) (vi l.object)))

put_fields-eq :
    (buf : Bytes) (f : LocationFilter)
    → IsEncodable f
    → put_fields buf f ≡ ok (buf ++ filter_bytes f)
unfolding put_fields filter_bytes end_group_delta
put_fields-eq buf no_filter h = ap ok (sym (append-nil buf))
put_fields-eq buf next_object h = ap ok (sym (append-nil buf))
put_fields-eq buf (relative_start s) h = put_vi-vi buf s h
put_fields-eq buf (absolute_start s) h = put_location-eq buf s h
put_fields-eq buf (absolute_start_group_end s g) (hs, hg, le) =
    rw
      (
        put_location-eq buf s hs,
        le→leb s.group g le,
        put_vi-vi (buf ++ location_bytes s) (g - s.group) (omega arith),
      )
      (ap ok (append_assoc buf (location_bytes s) (vi (g - s.group))))
put_fields-eq buf (absolute_range s e) (hs, he, le) =
    let d = vi (e.group - s.group) in
    rw
      (
        put_location-eq buf s hs,
        le→leb s.group e.group le,
        put_vi-vi (buf ++ location_bytes s) (e.group - s.group) (omega arith),
        put_vi-vi ((buf ++ location_bytes s) ++ d) e.object he.1,
      )
      (ap ok (
        append_assoc (buf ++ location_bytes s) d (vi e.object)
        ∙ append_assoc buf (location_bytes s) (d ++ vi e.object)))

get_fields-filter_bytes :
    (f : LocationFilter) (rest : Bytes)
    → IsEncodable f
    → get_fields (filter_type f) (filter_bytes f ++ rest) ≡ ok (f, rest)
unfolding get_fields filter_bytes filter_type end_group
get_fields-filter_bytes no_filter rest h = refl
get_fields-filter_bytes next_object rest h = refl
get_fields-filter_bytes (relative_start s) rest h = rw (get_vi-vi s rest h)
get_fields-filter_bytes (absolute_start s) rest h = rw (deserialize-location_bytes s rest h)
get_fields-filter_bytes (absolute_start_group_end s g) rest (hs, hg, le) =
    rw
      (
        append_assoc (location_bytes s) (vi (g - s.group)) rest,
        deserialize-location_bytes s (vi (g - s.group) ++ rest) hs,
        get_vi-vi (g - s.group) rest (omega arith),
        back,
        lt→ltb g (2 ^ 64) hg,
      )
      refl
  where
    back : s.group + (g - s.group) ≡ g
    back = omega arith
get_fields-filter_bytes (absolute_range s e) rest (hs, he, le) =
    let d = vi (e.group - s.group) in
    rw
      (
        append_assoc (location_bytes s) (d ++ vi e.object) rest,
        append_assoc d (vi e.object) rest,
        deserialize-location_bytes s (d ++ (vi e.object ++ rest)) hs,
        get_vi-vi (e.group - s.group) (vi e.object ++ rest) (omega arith),
        back,
        lt→ltb e.group (2 ^ 64) he.0,
        get_vi-vi e.object rest he.1,
      )
      refl
  where
    back : s.group + (e.group - s.group) ≡ e.group
    back = omega arith

type_try_from-type_to_u64 :
    (t : LocationFilterType) → (type_try_from (type_to_u64 t) ≡ ok t) × IsU64 (type_to_u64 t)
unfolding type_try_from type_to_u64
type_try_from-type_to_u64 t = ground arith

-- A Location Filter of u64s whose End Group is not before its Start Group is written, and reads
-- back, whatever follows it.
pub deserialize-serialize_location_filter :
    (f : LocationFilter) (rest : Bytes)
    → IsEncodable f
    → (serialize f >>= λ e. deserialize (e ++ rest)) ≡ ok (f, rest)
unfolding serialize deserialize
deserialize-serialize_location_filter f rest h =
    let (known, small) = type_try_from-type_to_u64 (filter_type f) in
    let raw = type_to_u64 (filter_type f) in
    rw
      (
        put_vi-vi [] raw small,
        put_fields-eq (vi raw) f h,
        append_assoc (vi raw) (filter_bytes f) rest,
        get_vi-vi raw (filter_bytes f ++ rest) small,
        known,
      )
      (get_fields-filter_bytes f rest h)

-- An End Group before the Start Group has no encoding.
pub serialize_decreasing_groups :
    (s e : Location.Location) (g : ℕ)
    → IsLocation s
    → g < s.group
    → e.group < s.group
    → (serialize (absolute_start_group_end s g) ≡ err protocol_violation)
      × (serialize (absolute_range s e) ≡ err protocol_violation)
unfolding serialize put_fields end_group_delta filter_type type_to_u64
serialize_decreasing_groups s e g h hg he = (
  rw (put_vi-vi [] 3 (omega arith), put_location-eq (vi 3) s h) (ground arith),
  rw (put_vi-vi [] 4 (omega arith), put_location-eq (vi 4) s h) (ground arith),
)

get_fields-ne-panicked : (t : LocationFilterType) (bs : Bytes) → get_fields t bs ≢ panicked
unfolding get_fields end_group
get_fields-ne-panicked none_type bs = λ x. cc
get_fields-ne-panicked next_object_type bs = λ x. cc
get_fields-ne-panicked relative_start_type bs = ground (arith, get_vi-ne-panicked bs)
get_fields-ne-panicked absolute_start_type bs = ground (arith, deserialize-ne-panicked bs)
get_fields-ne-panicked absolute_start_group_end_type bs =
    >>=-ne-panicked (Location.deserialize bs) _ (deserialize-ne-panicked bs)
      λ p _. >>=-ne-panicked (get_vi p.1) _ (get_vi-ne-panicked p.1) λ q _. ground arith
get_fields-ne-panicked absolute_range_type bs =
    >>=-ne-panicked (Location.deserialize bs) _ (deserialize-ne-panicked bs) λ p _.
      >>=-ne-panicked (get_vi p.1) _ (get_vi-ne-panicked p.1)
        λ q _. ground (arith, get_vi-ne-panicked q.1)

-- Reading a Location Filter never panics.
pub deserialize-ne-panicked_location_filter : (bs : Bytes) → deserialize bs ≢ panicked
unfolding deserialize type_try_from
deserialize-ne-panicked_location_filter bs =
    >>=-ne-panicked (get_vi bs) _ (get_vi-ne-panicked bs) λ p _.
      >>=-ne-panicked (violation_of (type_try_from p.0)) _ (ground arith)
        λ t _. get_fields-ne-panicked t p.1
