-- ===== src/Data/Properties/RoundTrip.antt =====
-- Writing and reading back the properties of object_property.rs.
use moqtail.Prelude.{
  ℕ, ◌≤◌, ◌≡◌, refl, ap, ◌∙◌, List, [], ◌∷◌, false, ◌||◌, length, le→leb, ◌==◌, arith,
}
use moqtail.Wire.Outcome.{ok, >>=-eq-ok, ◌>>=◌}
use moqtail.Wire.Buffer.{Bytes, IsU64}
use moqtail.Wire.Pair.{
  KeyValuePair, var_int, bytes, get_type, try_new_varint, try_new_bytes, new_bytes, insert_by_type,
  sort_by_type, serialize_kvp_list, deserialize_kvp_list_until_empty,
}
use moqtail.Wire.Pair.RoundTrip.{IsValid}
use moqtail.Wire.Pair.Lists.{AllValid, Ascending, until_empty-serialize_kvp_list}
use moqtail.Data.Properties.{
  ObjectProperty, immutable_properties, prior_group_id_gap, prior_object_id_gap, unknown,
  type_value, try_into, kvp_varint_value, kvp_bytes_value, any_immutable, deserialize_immutable,
  deserialize_typed, deserialize_property, property_type_try_from, collect,
  serialize_object_properties, deserialize_object_properties,
}

-- A property that can be told apart from the others by its pair: inner properties valid, in
-- ascending order, and none of them immutable ones again; an unknown pair of no type of its own.
abbrev pub IsProperty : ObjectProperty → Type 0
IsProperty (immutable_properties ps) =
    AllValid ps
    × Ascending 0 ps
    × (any_immutable ps ≡ false)
    × ((e : Bytes) → serialize_kvp_list ps ≡ ok e → length e ≤ 65535)
IsProperty (prior_group_id_gap gap) = IsU64 gap
IsProperty (prior_object_id_gap gap) = IsU64 gap
IsProperty (unknown kvp) =
    IsValid kvp
    × (((get_type kvp == 0x0b) || ((get_type kvp == 0x3c) || (get_type kvp == 0x3e))) ≡ false)

abbrev pub AllProperties : List ObjectProperty → Type 0
AllProperties [] = Unit {0}
AllProperties (p ∷ ps) = IsProperty p × AllProperties ps

abbrev pub AscendingTypes : ℕ → List ObjectProperty → Type 0
AscendingTypes lower [] = Unit {0}
AscendingTypes lower (p ∷ ps) = (lower ≤ type_value p) × AscendingTypes (type_value p) ps

sort_by_type-Ascending_id :
    (lower : ℕ) (ps : List KeyValuePair) → Ascending lower ps → sort_by_type ps ≡ ps
unfolding sort_by_type insert_by_type
sort_by_type-Ascending_id lower [] a = refl
sort_by_type-Ascending_id lower (p ∷ []) a = refl
sort_by_type-Ascending_id lower (p ∷ q ∷ qs) (h, a) =
    rw (sort_by_type-Ascending_id (get_type p) (q ∷ qs) a, le→leb (get_type p) (get_type q) a.0)
      refl

-- Valid pairs in ascending order are written, and read back as they were.
pub kvp_list_back :
    (ps : List KeyValuePair)
    → AllValid ps
    → Ascending 0 ps
    → (e : Bytes) × (serialize_kvp_list ps ≡ ok e) × (deserialize_kvp_list_until_empty e ≡ ok ps)
kvp_list_back ps v a =
    let (e, written, again) =
      >>=-eq-ok (serialize_kvp_list ps) _ (until_empty-serialize_kvp_list ps v).0 in
    (e, written, again ∙ ap ok (sort_by_type-Ascending_id 0 ps a))

property_back :
    (p : ObjectProperty)
    → IsProperty p
    → (kvp : KeyValuePair) × (try_into p ≡ ok kvp)
      × (deserialize_property kvp ≡ ok p)
      × IsValid kvp
      × (get_type kvp ≡ type_value p)
unfolding try_into deserialize_property deserialize_typed property_type_try_from type_value
    try_new_varint try_new_bytes new_bytes kvp_varint_value kvp_bytes_value deserialize_immutable
property_back (prior_group_id_gap gap) h =
    (var_int 0x3c gap, refl, refl, (omega arith, refl, h), refl)
property_back (prior_object_id_gap gap) h =
    (var_int 0x3e gap, refl, refl, (omega arith, refl, h), refl)
property_back (unknown kvp) (v, h) = (kvp, refl, ground arith, v, refl)
property_back (immutable_properties ps) (v, a, none_inside, short) =
    let (e, written, again) = kvp_list_back ps v a in
    (
      bytes 0x0b e,
      rw written (ground (arith, short e written)),
      rw (again, none_inside) refl,
      (omega arith, refl, short e written),
      refl,
    )

properties_back :
    (lower : ℕ) (exts : List ObjectProperty)
    → AllProperties exts
    → AscendingTypes lower exts
    → (kvps : List KeyValuePair) × (collect try_into exts ≡ ok kvps)
      × (collect deserialize_property kvps ≡ ok exts)
      × AllValid kvps
      × Ascending lower kvps
unfolding collect
properties_back lower [] h a = ([], refl, refl, tt, tt)
properties_back lower (p ∷ ps) h a =
    let (kvp, to, from, valid, same) = property_back p h.0 in
    let (kvps, to_all, from_all, all_valid, ascending) =
      properties_back (type_value p) ps h.1 a.1 in
    (
      kvp ∷ kvps,
      rw (to, to_all) refl,
      rw (from, from_all) refl,
      (valid, all_valid),
      rw same (a.0, ascending),
    )

-- Object properties in ascending order of their types, with u64 gaps and valid pairs, an unknown
-- one of no type that has a form of its own, immutable ones of at most 65535 bytes, in ascending
-- order and without immutable ones inside, are written, and read back.
pub deserialize-serialize_properties :
    (exts : List ObjectProperty)
    → AllProperties exts
    → AscendingTypes 0 exts
    → (serialize_object_properties exts >>= deserialize_object_properties) ≡ ok exts
unfolding serialize_object_properties deserialize_object_properties
deserialize-serialize_properties exts h a =
    let (kvps, to, from, valid, ascending) = properties_back 0 exts h a in
    let (e, written, again) = kvp_list_back kvps valid ascending in
    rw (to, written, again, from) refl
