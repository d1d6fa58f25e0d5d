-- ===== src/Filter/Range/Checks.antt =====
-- `RangeFilterKind` and `RangeFilterError` of range_filter.rs, and the result of a check.
use moqtail.Prelude.{ℕ, Option, none, some, ◌≡◌, refl}

pub data RangeFilterKind : Type 0 where
  subgroup object_id priority object_property track_property : RangeFilterKind

pub data RangeFilterError : Type 0 where
  overflow : RangeFilterError
  priority_out_of_range : ℕ → RangeFilterError
  odd_property_type : ℕ → RangeFilterError
  property_type_mismatch : RangeFilterKind → RangeFilterError
  unordered : RangeFilterError
  duplicate : RangeFilterKind → ℕ → Option ℕ → RangeFilterError
  track_filter_on_objects : RangeFilterError
  too_many_ranges : ℕ → ℕ → RangeFilterError

-- `Result<A, RangeFilterError>`
pub data Verdict {ℓ} (A : Type ℓ) : Type ℓ where
  accept : A → Verdict A
  reject : RangeFilterError → Verdict A

infixl 5 ◌>>=◌ ◌>>◌
abbrev pub ◌>>=◌ {ℓ κ} : {A : Type ℓ} {B : Type κ} → Verdict A → (A → Verdict B) → Verdict B
accept a >>= f = f a
reject e >>= f = reject e

abbrev pub ◌>>◌ {ℓ} : {B : Type ℓ} → Verdict (Unit {0}) → Verdict B → Verdict B
m >> k = m >>= λ _. k

abbrev pub ok_or {ℓ} : {A : Type ℓ} → Option A → RangeFilterError → Verdict A
ok_or (some a) e = accept a
ok_or none e = reject e

pub >>=-eq-accept {ℓ κ} :
    {A : Type ℓ} {B : Type κ} (check : Verdict A) (then_check : A → Verdict B) {result : B}
    → (check >>= then_check) ≡ accept result
    → (value : A) × (check ≡ accept value) × (then_check value ≡ accept result)
>>=-eq-accept (reject e) then_check done = cc
>>=-eq-accept (accept value) then_check done = (value, refl, done)
