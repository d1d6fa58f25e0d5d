-- ===== src/Data/Subgroup.antt =====
-- libs/moqtail-rs/src/model/data/subgroup_header.rs: the header of a stream that carries a subgroup.
pub mod RoundTrip
pub mod Built
pub mod Safe
use moqtail.Prelude.{
  ℕ, List, [], ◌∷◌, ◌++◌, Bool, true, false, not, Option, none, some, length, if◌then◌else◌,
}
use moqtail.Wire.Outcome.{Outcome, ok, err, not_enough_bytes, protocol_violation, ◌>>=◌}
use moqtail.Wire.Buffer.{Bytes, get_u8}
use moqtail.Wire.Varint.{get_vi, put_vi}
use moqtail.Data.Constant.{
  SubgroupIdMode, zero_id, first_object_id, explicit, SubgroupHeaderType, subgroup_try_new,
  has_properties, subgroup_id_mode, is_explicit, is_zero, has_explicit_subgroup_id,
  contains_end_of_group, has_default_priority, subgroup_from_properties,
}

pub record SubgroupHeader : Type 0 where
  pub header_type : SubgroupHeaderType
  pub track_alias : ℕ
  pub group_id : ℕ
  pub subgroup_id : Option ℕ
  pub publisher_priority : Option ℕ

abbrev pub is_none {ℓ} : {A : Type ℓ} → Option A → Bool
is_none none = true
is_none (some a) = false

unfoldable pub new_fixed_zero_id : ℕ → ℕ → Option ℕ → Bool → Bool → Bool → SubgroupHeader
new_fixed_zero_id alias group priority properties end_of_group first_object = record {
  header_type =
      subgroup_from_properties properties zero_id end_of_group (is_none priority) first_object;
  track_alias = alias;
  group_id = group;
  subgroup_id = some 0;
  publisher_priority = priority;
}

unfoldable pub new_first_object_id : ℕ → ℕ → Option ℕ → Bool → Bool → Bool → SubgroupHeader
new_first_object_id alias group priority properties end_of_group first_object = record {
  header_type =
      subgroup_from_properties properties first_object_id end_of_group (is_none priority)
        first_object;
  track_alias = alias;
  group_id = group;
  subgroup_id = none;
  publisher_priority = priority;
}

unfoldable pub new_with_explicit_id : ℕ → ℕ → ℕ → Option ℕ → Bool → Bool → Bool → SubgroupHeader
new_with_explicit_id alias group id priority properties end_of_group first_object = record {
  header_type =
      subgroup_from_properties properties explicit end_of_group (is_none priority) first_object;
  track_alias = alias;
  group_id = group;
  subgroup_id = some id;
  publisher_priority = priority;
}

-- `FirstObjectId if self.subgroup_id.is_some() => Explicit, mode => mode`
abbrev pub mid_mode : SubgroupIdMode → Option ℕ → SubgroupIdMode
mid_mode first_object_id (some id) = explicit
mid_mode first_object_id none = first_object_id
mid_mode zero_id id = zero_id
mid_mode explicit id = explicit

unfoldable pub for_mid_subgroup_stream : SubgroupHeader → SubgroupHeader
for_mid_subgroup_stream h =
    let t = h.header_type in
    record h {
      header_type =
          subgroup_from_properties (has_properties t) (mid_mode (subgroup_id_mode t) h.subgroup_id)
            (contains_end_of_group t) (has_default_priority t) false;
    }

abbrev pub unwrap_or {ℓ} : {A : Type ℓ} → Option A → A → A
unwrap_or none a = a
unwrap_or (some b) a = b

abbrev pub put_subgroup_id : Bool → Option ℕ → Bytes → Outcome Bytes
put_subgroup_id false id buf = ok buf
put_subgroup_id true (some id) buf = put_vi buf id
put_subgroup_id true none buf = err protocol_violation

abbrev pub put_priority : Bool → Option ℕ → Bytes → Outcome Bytes
put_priority true priority buf = ok buf
put_priority false (some priority) buf = ok (buf ++ (priority ∷ []))
put_priority false none buf = err protocol_violation

unfoldable pub serialize : SubgroupHeader → Option ℕ → Outcome Bytes
serialize h track_alias = do
  buf₁ ← put_vi [] h.header_type.value
  buf₂ ← put_vi buf₁ (unwrap_or track_alias h.track_alias)
  buf₃ ← put_vi buf₂ h.group_id
  buf₄ ← put_subgroup_id (has_explicit_subgroup_id h.header_type) h.subgroup_id buf₃
  put_priority (has_default_priority h.header_type) h.publisher_priority buf₄

abbrev pub get_explicit : Bytes → Outcome (Option ℕ × Bytes)
get_explicit bs = do (id, bs₁) ← get_vi bs; ok (some id, bs₁)

abbrev pub get_subgroup_id : SubgroupIdMode → Bytes → Outcome (Option ℕ × Bytes)
get_subgroup_id mode bs =
    if is_explicit mode
    then get_explicit bs
    else if is_zero mode
    then ok (some 0, bs)
    else ok (none, bs)

-- The priority byte, whose presence is checked before `get_u8`.
abbrev pub get_priority : Bool → Bytes → Outcome (Option ℕ × Bytes)
get_priority true bs = ok (none, bs)
get_priority false [] = err (not_enough_bytes 1 0)
get_priority false (b ∷ bs) = do (priority, bs₁) ← get_u8 (b ∷ bs); ok (some priority, bs₁)

unfoldable pub deserialize : Bytes → Outcome (SubgroupHeader × Bytes)
deserialize bs = do
  (type_value, bs₁) ← get_vi bs
  header_type ← subgroup_try_new type_value
  (track_alias, bs₂) ← get_vi bs₁
  (group_id, bs₃) ← get_vi bs₂
  (subgroup_id, bs₄) ← get_subgroup_id (subgroup_id_mode header_type) bs₃
  (publisher_priority, bs₅) ← get_priority (has_default_priority header_type) bs₄
  ok (
    record {
      header_type = header_type;
      track_alias = track_alias;
      group_id = group_id;
      subgroup_id = subgroup_id;
      publisher_priority = publisher_priority;
    },
    bs₅,
  )
