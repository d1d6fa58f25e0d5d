-- ===== src/Data/Constant.antt =====
-- libs/moqtail-rs/src/model/data/constant.rs: the type bytes of subgroup headers and of datagrams,
-- and the Object Status. A type is a byte whose bits are read through masks.
pub mod Types
use moqtail.Prelude.{
  ℕ, ◌-◌, ◌*◌, ◌/◌, bit_and, bit_or, Bool, true, false, not, ◌&&◌, ◌||◌, ltb, ◌==◌, if◌then◌else◌,
}
use moqtail.Wire.Outcome.{Outcome, ok, err, invalid_type, protocol_violation, guard, ◌>>=◌, ◌>>◌}

-- `self.0 & MASK != 0`
unfoldable pub has_bit : ℕ → ℕ → Bool
has_bit v mask = not (bit_and v mask == 0)

-- `if flag { v |= MASK }`
unfoldable pub or_if : Bool → ℕ → ℕ → ℕ
or_if flag mask v = if flag then bit_or v mask else v

pub data SubgroupIdMode : Type 0 where
  zero_id : SubgroupIdMode
  first_object_id : SubgroupIdMode
  explicit : SubgroupIdMode

abbrev pub mode_bits : SubgroupIdMode → ℕ
mode_bits zero_id = 0
mode_bits first_object_id = 1
mode_bits explicit = 2

pub record SubgroupHeaderType : Type 0 where
  pub value : ℕ

-- `SubgroupHeaderType::try_new`
unfoldable pub subgroup_try_new : ℕ → Outcome SubgroupHeaderType
unfolding has_bit
subgroup_try_new value = do
  guard (not (ltb 255 value || has_bit value 0x80)) invalid_type
  guard (has_bit value 0x10) invalid_type
  guard (not (bit_and value 0x06 == 0x06)) invalid_type
  ok (record { value = value })

abbrev pub has_properties : SubgroupHeaderType → Bool
has_properties t = has_bit t.value 0x01

-- `match (self.0 & MASK) >> 1`
abbrev mode_of : ℕ → SubgroupIdMode
mode_of n = if n == 0 then zero_id else if n == 1 then first_object_id else explicit

abbrev pub subgroup_id_mode : SubgroupHeaderType → SubgroupIdMode
subgroup_id_mode t = mode_of (bit_and t.value 0x06 / 2)

abbrev pub is_explicit : SubgroupIdMode → Bool
is_explicit explicit = true
is_explicit m = false

abbrev pub is_zero : SubgroupIdMode → Bool
is_zero zero_id = true
is_zero m = false

abbrev pub has_explicit_subgroup_id : SubgroupHeaderType → Bool
has_explicit_subgroup_id t = is_explicit (subgroup_id_mode t)

abbrev pub contains_end_of_group : SubgroupHeaderType → Bool
contains_end_of_group t = has_bit t.value 0x08

abbrev pub has_default_priority : SubgroupHeaderType → Bool
has_default_priority t = has_bit t.value 0x20

abbrev pub is_first_object : SubgroupHeaderType → Bool
is_first_object t = has_bit t.value 0x40

-- `SubgroupHeaderType::from_properties`
unfoldable pub subgroup_from_properties :
    Bool → SubgroupIdMode → Bool → Bool → Bool → SubgroupHeaderType
unfolding or_if
subgroup_from_properties properties mode end_of_group default_priority first_object =
    let v₁ = or_if properties 0x01 0x10 in
    let v₂ = bit_or v₁ (mode_bits mode * 2) in
    let v₃ = or_if end_of_group 0x08 v₂ in
    let v₄ = or_if default_priority 0x20 v₃ in record { value = or_if first_object 0x40 v₄ }

pub data ObjectStatus : Type 0 where
  normal : ObjectStatus
  end_of_group_status : ObjectStatus
  end_of_track : ObjectStatus

-- `ObjectStatus::try_from`
unfoldable pub status_try_from : ℕ → Outcome ObjectStatus
status_try_from value =
    if value == 0
    then ok normal
    else if value == 3
    then ok end_of_group_status
    else if value == 4
    then ok end_of_track
    else err invalid_type

unfoldable pub status_to_u64 : ObjectStatus → ℕ
status_to_u64 normal = 0
status_to_u64 end_of_group_status = 3
status_to_u64 end_of_track = 4

pub record ObjectDatagramType : Type 0 where
  pub value : ℕ

-- `ObjectDatagramType::try_new`
unfoldable pub datagram_try_new : ℕ → Outcome ObjectDatagramType
unfolding has_bit
datagram_try_new value = do
  guard (not (ltb 255 value || has_bit value 0xd0)) invalid_type
  guard (not (has_bit value 0x20 && has_bit value 0x02)) protocol_violation
  ok (record { value = value })

-- `ObjectDatagramType::from_properties`
unfoldable pub datagram_from_properties :
    Bool → Bool → Bool → Bool → Bool → Outcome ObjectDatagramType
unfolding or_if
datagram_from_properties properties end_of_group object_id_is_zero default_priority is_status =
    let v₁ = or_if properties 0x01 0 in
    let v₂ = or_if end_of_group 0x02 v₁ in
    let v₃ = or_if object_id_is_zero 0x04 v₂ in
    let v₄ = or_if default_priority 0x08 v₃ in datagram_try_new (or_if is_status 0x20 v₄)

abbrev pub datagram_has_properties : ObjectDatagramType → Bool
datagram_has_properties t = has_bit t.value 0x01

abbrev pub is_end_of_group : ObjectDatagramType → Bool
is_end_of_group t = has_bit t.value 0x02

abbrev pub is_zero_object_id : ObjectDatagramType → Bool
is_zero_object_id t = has_bit t.value 0x04

abbrev pub datagram_has_default_priority : ObjectDatagramType → Bool
datagram_has_default_priority t = has_bit t.value 0x08

abbrev pub is_status : ObjectDatagramType → Bool
is_status t = has_bit t.value 0x20
