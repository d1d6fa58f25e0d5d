-- ===== src/Data/FetchObject/Safe.antt =====
-- Reading a Fetch Object of fetch_object.rs from any bytes.
use moqtail.Prelude.{
  ℕ, ◌+◌, ◌^◌, ◌<◌, ◌≡◌, ◌≢◌, refl, List, [], ◌∷◌, Bool, true, false, Option, none, some, inl, inr,
  Option-cases, arith,
}
use moqtail.Wire.Outcome.{Outcome, ok, panicked, protocol_violation, ok_or, >>=-ne-panicked, ◌>>=◌}
use moqtail.Wire.Buffer.{Bytes, u64_max, checked_add}
use moqtail.Wire.Varint.{
  get_vi, vi, vi_bytes, minimal_vi_length, to_be_bytes, write_low, mark_length,
}
use moqtail.Wire.Varint.RoundTrip.{get_vi-vi}
use moqtail.Wire.Varint.Decode.{get_vi-ne-panicked}
use moqtail.Wire.Pair.{KeyValuePair, get_type}
use moqtail.Wire.Pair.Decode.{until_empty-ne-panicked}
use moqtail.Control.Constant.{GroupOrder}
use moqtail.Data.Properties.{
  TrackPropertyType, kvp_varint_value, kvp_bytes_value, deserialize_immutable, deserialize_typed,
  deserialize_property, property_type_try_from, collect, deserialize_object_properties,
}
use moqtail.Data.FetchObject.{
  FetchObjectContext, subgroup_of, priority_of, kind_of, deserialize_marker, read_flags, FetchFlags,
  check_first, apply_order, resolve_group, read_group, read_subgroup, resolve_object, read_object,
  read_priority, read_block, read_properties, deserialize_object, deserialize,
}

ok_or_chain {ℓ κ} :
    {A : Type ℓ} {B : Type κ} (o : Option A) (f : A → B)
    → (ok_or o protocol_violation >>= λ a. ok (f a)) ≢ panicked
ok_or_chain none f = λ e. cc
ok_or_chain (some a) f = λ e. cc

collect-ne-panicked {ℓ κ} :
    {A : Type ℓ} {B : Type κ} (f : A → Outcome B)
    → ((a : A) → f a ≢ panicked)
    → (l : List A) → collect f l ≢ panicked
unfolding collect
collect-ne-panicked f h [] = λ e. cc
collect-ne-panicked f h (a ∷ l) =
    >>=-ne-panicked (f a) _ (h a)
      (λ b e. >>=-ne-panicked (collect f l) _ (collect-ne-panicked f h l) (λ bs e'. λ k. cc))

kvp_bytes_value-ne-panicked : (kvp : KeyValuePair) → kvp_bytes_value kvp ≢ panicked
unfolding kvp_bytes_value
kvp_bytes_value-ne-panicked kvp = ground arith

deserialize_immutable-ne-panicked : (kvp : KeyValuePair) → deserialize_immutable kvp ≢ panicked
unfolding deserialize_immutable
deserialize_immutable-ne-panicked kvp =
    >>=-ne-panicked (kvp_bytes_value kvp) _ (kvp_bytes_value-ne-panicked kvp)
      (λ buf e. >>=-ne-panicked _ _ (until_empty-ne-panicked buf) (λ l e'. ground arith))

deserialize_typed-ne-panicked :
    (kvp : KeyValuePair) (t : Outcome TrackPropertyType) → deserialize_typed kvp t ≢ panicked
unfolding deserialize_typed kvp_varint_value
deserialize_typed-ne-panicked kvp t = ground (arith, deserialize_immutable-ne-panicked kvp)

pub deserialize_object_properties-ne-panicked :
    (bs : Bytes) → deserialize_object_properties bs ≢ panicked
unfolding deserialize_object_properties deserialize_property
deserialize_object_properties-ne-panicked bs =
    >>=-ne-panicked _ _ (until_empty-ne-panicked bs) (λ kvps e.
      collect-ne-panicked deserialize_property
        (λ kvp. deserialize_typed-ne-panicked kvp (property_type_try_from (get_type kvp))) kvps)

read_block-ne-panicked : (bs : Bytes) → read_block bs ≢ panicked
unfolding read_block
read_block-ne-panicked bs =
    >>=-ne-panicked (get_vi bs) _ (get_vi-ne-panicked bs) (λ p e. ground arith)

read_properties-ne-panicked : (b : Bool) (bs : Bytes) → read_properties b bs ≢ panicked
unfolding read_properties
read_properties-ne-panicked false bs = λ e. cc
read_properties-ne-panicked true bs =
    >>=-ne-panicked (read_block bs) _ (read_block-ne-panicked bs)
      (λ p e. ground (arith, deserialize_object_properties-ne-panicked p.0))

read_group-ne-panicked :
    (prev : Option FetchObjectContext) (order : GroupOrder) (b : Bool) (bs : Bytes)
    → read_group prev order b bs ≢ panicked
unfolding read_group resolve_group
read_group-ne-panicked none order true bs =
    >>=-ne-panicked (get_vi bs) _ (get_vi-ne-panicked bs) (λ p e. λ k. cc)
read_group-ne-panicked (some pc) order true bs =
    >>=-ne-panicked (get_vi bs) _ (get_vi-ne-panicked bs)
      (λ p e. ok_or_chain (apply_order order pc.group_id p.0) (λ group. (group, p.1)))
read_group-ne-panicked none order false bs = λ e. cc
read_group-ne-panicked (some pc) order false bs = λ e. cc

read_object-ne-panicked :
    (prev : Option FetchObjectContext) (g b : Bool) (bs : Bytes)
    → read_object prev g b bs ≢ panicked
unfolding read_object resolve_object
read_object-ne-panicked none g true bs =
    >>=-ne-panicked (get_vi bs) _ (get_vi-ne-panicked bs) (λ p e. λ k. cc)
read_object-ne-panicked (some pc) true true bs =
    >>=-ne-panicked (get_vi bs) _ (get_vi-ne-panicked bs) (λ p e. λ k. cc)
read_object-ne-panicked (some pc) false true bs =
    >>=-ne-panicked (get_vi bs) _ (get_vi-ne-panicked bs)
      (λ p e. ok_or_chain (checked_add pc.object_id p.0) (λ o. (o, p.1)))
read_object-ne-panicked none g false bs = λ e. cc
read_object-ne-panicked (some pc) g false bs =
    ok_or_chain (checked_add pc.object_id 1) (λ o. (o, bs))

read_priority-ne-panicked :
    (prev : Option FetchObjectContext) (b : Bool) (bs : Bytes) → read_priority prev b bs ≢ panicked
unfolding read_priority
read_priority-ne-panicked prev true [] = λ e. cc
read_priority-ne-panicked prev true (b ∷ bs) = λ e. cc
read_priority-ne-panicked prev false bs = ok_or_chain (priority_of prev) (λ b. (b, bs))

read_subgroup-ne-panicked :
    (prev : Option FetchObjectContext) (b : Bool) (mode : ℕ) (bs : Bytes)
    → ((s : ℕ) → subgroup_of prev ≡ some s → s + 1 < 2 ^ 64)
    → read_subgroup prev b mode bs ≢ panicked
unfolding read_subgroup
read_subgroup-ne-panicked prev true mode bs h = λ e. cc
read_subgroup-ne-panicked prev false mode bs h = elim (Option-cases (subgroup_of prev)) [
  | inl e ↦ ground (arith, get_vi-ne-panicked bs)
  | inr (s, e) ↦ ground (arith, get_vi-ne-panicked bs, h s e)
]

deserialize_marker-ne-panicked : (v : ℕ) (bs : Bytes) → deserialize_marker v bs ≢ panicked
unfolding deserialize_marker
deserialize_marker-ne-panicked v bs = >>=-ne-panicked (kind_of v) _ (ground arith) (λ kind e.
    >>=-ne-panicked (get_vi bs) _ (get_vi-ne-panicked bs)
      (λ p e'. >>=-ne-panicked (get_vi p.1) _ (get_vi-ne-panicked p.1) (λ q e''. λ k. cc)))

check_first-ne-panicked :
    (prev : Option FetchObjectContext) (f : FetchFlags) → check_first prev f ≢ panicked
unfolding check_first
check_first-ne-panicked (some pc) f = λ e. cc
check_first-ne-panicked none f = ground arith

deserialize_object-ne-panicked :
    (f : FetchFlags) (bs : Bytes) (prev : Option FetchObjectContext) (order : GroupOrder)
    → ((s : ℕ) → subgroup_of prev ≡ some s → s + 1 < 2 ^ 64)
    → deserialize_object f bs prev order ≢ panicked
unfolding deserialize_object
deserialize_object-ne-panicked f bs prev order h =
    >>=-ne-panicked (check_first prev f) _ (check_first-ne-panicked prev f) λ u _.
      >>=-ne-panicked (read_group prev order f.group_id bs) _
        (read_group-ne-panicked prev order f.group_id bs)
        λ p₁ _.
          >>=-ne-panicked _ _ (read_subgroup-ne-panicked prev f.is_datagram f.mode p₁.1 h) λ p₂ _.
            >>=-ne-panicked _ _ (read_object-ne-panicked prev f.group_id f.object_id p₂.1) λ p₃ _.
              >>=-ne-panicked _ _ (read_priority-ne-panicked prev f.priority p₃.1) λ p₄ _.
                >>=-ne-panicked _ _ (read_properties-ne-panicked f.properties p₄.1)
                  λ p₅ _. >>=-ne-panicked _ _ (read_block-ne-panicked p₅.1) λ p₆ _. λ k. cc

-- On all bytes, `deserialize` of a Fetch Object returns an Object, a marker or an error, if the
-- prior Subgroup ID, where there is one, is below the greatest u64.
pub deserialize-ne-panicked_fetch :
    (bs : Bytes) (prev : Option FetchObjectContext) (order : GroupOrder)
    → ((s : ℕ) → subgroup_of prev ≡ some s → s + 1 < 2 ^ 64)
    → deserialize bs prev order ≢ panicked
unfolding deserialize
deserialize-ne-panicked_fetch bs prev order h =
    >>=-ne-panicked (get_vi bs) _ (get_vi-ne-panicked bs) (λ p e. ground (
      arith,
      deserialize_marker-ne-panicked p.0 p.1,
      deserialize_object-ne-panicked (read_flags p.0) p.1 prev order h,
    ))

get_vi_two : (rest : Bytes) → get_vi (2 ∷ rest) ≡ ok (2, rest)
unfolding vi vi_bytes minimal_vi_length to_be_bytes write_low mark_length
get_vi_two rest = get_vi-vi 2 rest (omega arith)

-- With the greatest u64 as the prior Subgroup ID, `deserialize` of a Fetch Object panics on every
-- input that starts with a byte of 2: the Subgroup ID after the prior one overflows.
deserialize-panicked_fetch :
    (pc : FetchObjectContext) (order : GroupOrder) (rest : Bytes)
    → pc.subgroup_id ≡ some u64_max
    → deserialize (2 ∷ rest) (some pc) order ≡ panicked
unfolding deserialize deserialize_object read_flags read_group read_subgroup check_first
deserialize-panicked_fetch pc order rest h = rw (get_vi_two rest, h) refl
