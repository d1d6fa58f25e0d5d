-- ===== src/Data/Subgroup/Built.antt =====
-- The headers that subgroup_header.rs builds, and the one for a stream in mid subgroup.
use moqtail.Prelude.{ℕ, ◌<◌, ◌≡◌, refl, ap, ◌++◌, Bool, false, Option, none, some, arith}
use moqtail.Wire.Outcome.{ok}
use moqtail.Wire.Buffer.{Bytes, IsU64}
use moqtail.Data.Constant.{
  or_if, SubgroupIdMode, zero_id, first_object_id, explicit, has_properties, subgroup_id_mode,
  contains_end_of_group, has_default_priority, is_first_object, subgroup_from_properties,
}
use moqtail.Data.Constant.Types.{
  SubgroupFlags, subgroup_flags, of_flags, subgroup_from_properties_flags,
}
use moqtail.Data.Subgroup.{
  SubgroupHeader, is_none, new_fixed_zero_id, new_first_object_id, new_with_explicit_id, mid_mode,
  for_mid_subgroup_stream, serialize, deserialize,
}
use moqtail.Data.Subgroup.RoundTrip.{FitsId, FitsPriority, IsHeader, deserialize-serialize_subgroup}

of_flags-byte :
    (p : Bool) (m : SubgroupIdMode) (e d f : Bool) → (of_flags (p, m, e, d, f)).value < 256
unfolding subgroup_from_properties or_if
of_flags-byte p m e d f = ground arith

-- A header whose type was built from flags that its fields fit.
built-IsHeader :
    (p : Bool) (m : SubgroupIdMode) (e d f : Bool) (alias group : ℕ) (id priority : Option ℕ)
    → IsU64 alias
    → IsU64 group
    → FitsId m id
    → FitsPriority d priority
    → IsHeader (record {
      header_type = subgroup_from_properties p m e d f;
      track_alias = alias;
      group_id = group;
      subgroup_id = id;
      publisher_priority = priority;
    })
unfolding subgroup_flags
built-IsHeader p m e d f alias group id priority ha hg hid hp =
    let (flags, valid) = subgroup_from_properties_flags (p, m, e, d, f) in
    record {
      type_is = valid;
      type_byte = of_flags-byte p m e d f;
      alias_u64 = ha;
      group_u64 = hg;
      id_fits = rw (ap (λ (x : SubgroupFlags). x.1) flags) hid;
      priority_fits = rw (ap (λ (x : SubgroupFlags). x.3) flags) hp;
    }

mid_mode-FitsId :
    (m : SubgroupIdMode) (id : ℕ)
    → IsU64 id
    → (m ≡ zero_id → id ≡ 0)
    → FitsId (mid_mode m (some id)) (some id)
unfolding FitsId
mid_mode-FitsId zero_id id hi z = ap some (z refl)
mid_mode-FitsId first_object_id id hi z = hi
mid_mode-FitsId explicit id hi z = hi

-- A header of u64s with a known Subgroup ID, which is 0 in the mode that says so, and a priority
-- exactly where its type has one: the header that `for_mid_subgroup_stream` makes of it is
-- written, and reads back with that Subgroup ID and without claiming the first object.
mid_subgroup_stream_read :
    (h : SubgroupHeader) (id : ℕ) (rest : Bytes)
    → IsU64 h.track_alias
    → IsU64 h.group_id
    → IsU64 id
    → h.subgroup_id ≡ some id
    → (subgroup_id_mode h.header_type ≡ zero_id → id ≡ 0)
    → FitsPriority (has_default_priority h.header_type) h.publisher_priority
    → (bs : Bytes) × (r : SubgroupHeader) × (serialize (for_mid_subgroup_stream h) none ≡ ok bs)
      × (deserialize (bs ++ rest) ≡ ok (r, rest))
      × (r.subgroup_id ≡ some id)
      × (is_first_object r.header_type ≡ false)
unfolding for_mid_subgroup_stream subgroup_flags
mid_subgroup_stream_read h id rest ha hg hi known zeroed hp =
    let t = h.header_type in
    let is =
      built-IsHeader (has_properties t) (mid_mode (subgroup_id_mode t) h.subgroup_id)
        (contains_end_of_group t) (has_default_priority t) false h.track_alias h.group_id
        h.subgroup_id h.publisher_priority ha hg
        (rw known (mid_mode-FitsId (subgroup_id_mode t) id hi zeroed)) hp in
    let flags =
      (subgroup_from_properties_flags (
        has_properties t,
        mid_mode (subgroup_id_mode t) h.subgroup_id,
        contains_end_of_group t,
        has_default_priority t,
        false,
      )).0 in
    let (bs, written, read) =
      deserialize-serialize_subgroup (for_mid_subgroup_stream h) none rest is (λ a e. cc) in
    (bs, for_mid_subgroup_stream h, written, read, known, ap (λ (x : SubgroupFlags). x.4) flags)

is_none-FitsPriority :
    (priority : Option ℕ)
    → ((n : ℕ) → priority ≡ some n → n < 256)
    → FitsPriority (is_none priority) priority
unfolding FitsPriority
is_none-FitsPriority none h = refl
is_none-FitsPriority (some n) h = h n refl

-- The three constructors give headers whose fields fit their type, for fields that are u64 and a
-- priority that is a byte where it is given.
pub new-IsHeader :
    (alias group id : ℕ) (priority : Option ℕ) (p e f : Bool)
    → IsU64 alias
    → IsU64 group
    → IsU64 id
    → ((n : ℕ) → priority ≡ some n → n < 256)
    → IsHeader (new_fixed_zero_id alias group priority p e f)
      × IsHeader (new_first_object_id alias group priority p e f)
      × IsHeader (new_with_explicit_id alias group id priority p e f)
unfolding new_fixed_zero_id new_first_object_id new_with_explicit_id FitsId
new-IsHeader alias group id priority p e f ha hg hi hp =
    let fits = is_none-FitsPriority priority hp in
    (
      built-IsHeader p zero_id e (is_none priority) f alias group (some 0) priority ha hg refl fits,
      built-IsHeader p first_object_id e (is_none priority) f alias group none priority ha hg refl
          fits,
      built-IsHeader p explicit e (is_none priority) f alias group (some id) priority ha hg hi fits,
    )
