-- ===== src/Wire/Location.antt =====
-- libs/moqtail-rs/src/model/common/location.rs: a Group ID and an Object ID, in that order.
pub mod Order
pub mod RoundTrip
use moqtail.Prelude.{
  ℕ, zero, suc, ◌+◌, ◌-◌, [], Bool, true, ◌&&◌, ◌||◌, Option, none, some, ltb, leb, ◌==◌,
}
use moqtail.Wire.Outcome.{Outcome, ok, ◌>>=◌}
use moqtail.Wire.Buffer.{Bytes, IsU64, u64_max, checked_add, checked_sub}
use moqtail.Wire.Varint.{get_vi, put_vi}

pub record Location : Type 0 where
  pub group : ℕ
  pub object : ℕ

abbrev pub loc : ℕ → ℕ → Location
loc g o = record { group = g; object = o }

abbrev pub IsLocation : Location → Type 0
IsLocation l = IsU64 l.group × IsU64 l.object

-- The derived `Ord`: by the fields in their order.
abbrev pub loc_lt : Location → Location → Bool
loc_lt a b = ltb a.group b.group || (a.group == b.group && ltb a.object b.object)

abbrev pub loc_le : Location → Location → Bool
loc_le a b = ltb a.group b.group || (a.group == b.group && leb a.object b.object)

next_group : Option ℕ → Option Location
next_group none = none
next_group (some g) = some (loc g 0)

unfoldable pub next : Location → Option Location
unfolding next_group
next l = elim (checked_add l.object 1) [
  | some object ↦ some (loc l.group object)
  | none ↦ next_group (checked_add l.group 1)
]

previous_group : Option ℕ → Option Location
previous_group none = none
previous_group (some g) = some (loc g u64_max)

unfoldable pub prev : Location → Option Location
unfolding previous_group
prev l = elim (checked_sub l.object 1) [
  | some object ↦ some (loc l.group object)
  | none ↦ previous_group (checked_sub l.group 1)
]

unfoldable pub serialize : Location → Outcome Bytes
serialize l = do buf ← put_vi [] l.group; put_vi buf l.object

unfoldable pub deserialize : Bytes → Outcome (Location × Bytes)
deserialize bs = do (group, bs₁) ← get_vi bs; (object, bs₂) ← get_vi bs₁; ok (loc group object, bs₂)
