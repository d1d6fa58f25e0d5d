-- ===== src/Data/Constant/Types.antt =====
-- The type bytes of constant.rs and their flags.
use moqtail.Prelude.{
  ℕ, ◌+◌, ◌<◌, ◌≡◌, ◌↔◌, refl, ap, ◌∙◌, bit_and, Bool, true, false, not, ◌&&◌, ◌||◌, ◌==◌,
  if◌then◌else◌, arith,
}
use moqtail.Prelude.Bits.{all_below, all_below_sound}
use moqtail.Wire.Outcome.{ok, err, protocol_violation}
use moqtail.Data.Constant.{
  has_bit, or_if, SubgroupIdMode, SubgroupHeaderType, subgroup_try_new, has_properties,
  subgroup_id_mode, contains_end_of_group, has_default_priority, is_first_object,
  subgroup_from_properties, ObjectStatus, normal, end_of_group_status, end_of_track,
  status_try_from, status_to_u64, ObjectDatagramType, datagram_try_new, datagram_has_properties,
  is_end_of_group, is_zero_object_id, datagram_has_default_priority, is_status,
  datagram_from_properties,
}

-- The flags of a subgroup header's type.
abbrev pub SubgroupFlags : Type 0
SubgroupFlags = Bool × SubgroupIdMode × Bool × Bool × Bool

unfoldable pub subgroup_flags : SubgroupHeaderType → SubgroupFlags
unfolding has_bit
subgroup_flags t = (
  has_properties t,
  subgroup_id_mode t,
  contains_end_of_group t,
  has_default_priority t,
  is_first_object t,
)

abbrev pub of_flags : SubgroupFlags → SubgroupHeaderType
of_flags f = subgroup_from_properties f.0 f.1 f.2 f.3 f.4

-- Building a subgroup type from flags gives a type that `try_new` accepts, and its flags are read
-- back.
pub subgroup_from_properties_flags :
    (f : SubgroupFlags)
    → (subgroup_flags (of_flags f) ≡ f) × (subgroup_try_new (of_flags f).value ≡ ok (of_flags f))
unfolding subgroup_flags subgroup_from_properties subgroup_try_new or_if has_bit
subgroup_from_properties_flags (p, m, e, d, i) = (ground arith, ground arith)

-- What a valid subgroup type's byte is.
subgroup_try_new-ok :
    (v : ℕ) (t : SubgroupHeaderType)
    → subgroup_try_new v ≡ ok t
    → (v < 256)
      × (t ≡ record { value = v })
      × ((not (bit_and v 0x80 == 0) || ((bit_and v 0x10 == 0) || (bit_and v 0x06 == 0x06))) ≡ false)
unfolding subgroup_try_new has_bit
subgroup_try_new-ok v t h = (ground arith, ground arith, ground arith)

subgroup_rebuilt : ℕ → Bool
unfolding has_bit
subgroup_rebuilt v =
    (not (bit_and v 0x80 == 0) || ((bit_and v 0x10 == 0) || (bit_and v 0x06 == 0x06)))
    || ((of_flags (subgroup_flags (record { value = v }))).value == v)

subgroup_rebuilt_table : all_below 256 subgroup_rebuilt ≡ true
unfolding all_below subgroup_rebuilt has_bit subgroup_flags subgroup_from_properties or_if
subgroup_rebuilt_table = refl

-- A number that `try_new` accepts as a subgroup type is the byte that `from_properties` builds
-- from its flags.
subgroup_try_new_flags :
    (v : ℕ) (t : SubgroupHeaderType)
    → subgroup_try_new v ≡ ok t
    → (t.value ≡ v) × (of_flags (subgroup_flags t) ≡ t)
unfolding subgroup_rebuilt
subgroup_try_new_flags v t h =
    let (small, is, valid) = subgroup_try_new-ok v t h in
    rw is (
      refl,
      ap (λ (w : ℕ). record { value = w })
          (ground
            (arith, valid, all_below_sound 256 subgroup_rebuilt v subgroup_rebuilt_table small)),
    )

abbrev pub flag_value : Bool → ℕ → ℕ
flag_value flag value = if flag then value else 0

-- Building a datagram type fails exactly for a status at the end of a group; otherwise the byte
-- is the sum of the values of its flags.
pub datagram_from_properties_sum :
    (p e z d s : Bool)
    → datagram_from_properties p e z d s ≡ (
        if e && s
        then err protocol_violation
        else ok (record {
          value =
              flag_value p 1
              + (flag_value e 2 + (flag_value z 4 + (flag_value d 8 + flag_value s 32)));
        }))
unfolding datagram_from_properties datagram_try_new or_if has_bit
datagram_from_properties_sum p e z d s = ground arith

datagram_try_new-ok :
    (v : ℕ) (t : ObjectDatagramType)
    → datagram_try_new v ≡ ok t
    → (v < 256)
      × (t ≡ record { value = v })
      × ((not (bit_and v 0xd0 == 0) || (not (bit_and v 0x20 == 0) && not (bit_and v 0x02 == 0)))
          ≡ false)
unfolding datagram_try_new has_bit
datagram_try_new-ok v t h = (ground arith, ground arith, ground arith)

flag_sum : ObjectDatagramType → ℕ
unfolding has_bit
flag_sum t =
    flag_value (datagram_has_properties t) 1
    + (flag_value (is_end_of_group t) 2
        + (flag_value (is_zero_object_id t) 4
            + (flag_value (datagram_has_default_priority t) 8 + flag_value (is_status t) 32)))

datagram_rebuilt : ℕ → Bool
datagram_rebuilt v =
    (not (bit_and v 0xd0 == 0) || (not (bit_and v 0x20 == 0) && not (bit_and v 0x02 == 0)))
    || (flag_sum (record { value = v }) == v)

datagram_rebuilt_table : all_below 256 datagram_rebuilt ≡ true
unfolding all_below datagram_rebuilt flag_sum has_bit
datagram_rebuilt_table = refl

-- A number that `try_new` accepts as a datagram type is the byte that `from_properties` builds
-- from its flags.
datagram_try_new_flags :
    (v : ℕ) (t : ObjectDatagramType)
    → datagram_try_new v ≡ ok t
    → (t.value ≡ v)
      × (datagram_from_properties
            (datagram_has_properties t)
            (is_end_of_group t)
            (is_zero_object_id t)
            (datagram_has_default_priority t)
            (is_status t)
          ≡ ok t)
unfolding datagram_rebuilt flag_sum has_bit
datagram_try_new_flags v t h =
    let (small, is, valid) = datagram_try_new-ok v t h in
    let sum = all_below_sound 256 datagram_rebuilt v datagram_rebuilt_table small in
    rw is (refl, datagram_from_properties_sum _ _ _ _ _ ∙ ground (arith, valid, sum))

-- A status that is written reads back, and what is accepted is written as it was read.
pub status_try_from_iff :
    (v : ℕ) (s : ObjectStatus) → (status_try_from v ≡ ok s) ↔ (status_to_u64 s ≡ v)
unfolding status_try_from status_to_u64
status_try_from_iff v normal = (λ h. ground arith, λ h. ground arith)
status_try_from_iff v end_of_group_status = (λ h. ground arith, λ h. ground arith)
status_try_from_iff v end_of_track = (λ h. ground arith, λ h. ground arith)
