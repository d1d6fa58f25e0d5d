-- ===== src/Wire/Grease.antt =====
-- libs/moqtail-rs/src/model/common/grease.rs: the reserved values 0x7f * N + 0x9d.
use moqtail.Prelude.{
  ℕ, ◌-◌, ◌*◌, ◌/◌, ◌%◌, ◌^◌, ◌≡◌, ◌↔◌, Bool, true, ◌&&◌, Option, none, some, ltb, leb, ◌==◌,
  if◌then◌else◌, arith,
}
use moqtail.Wire.Buffer.{IsU64, checked_add}

abbrev pub grease_step : ℕ
grease_step = 0x7f

abbrev pub grease_base : ℕ
grease_base = 0x9d

unfoldable pub is_grease : ℕ → Bool
is_grease value = leb grease_base value && (value - grease_base) % grease_step == 0

-- `checked_mul` of u64
checked_mul : ℕ → ℕ → Option ℕ
checked_mul a b = if ltb (a * b) (2 ^ 64) then some (a * b) else none

unfoldable pub grease_value : ℕ → Option ℕ
unfolding checked_mul
grease_value n = elim (checked_mul grease_step n) [
  | none ↦ none
  | some m ↦ checked_add m grease_base
]

-- The u64s that `is_grease` accepts are those that `grease_value` returns.
is_grease_iff : (v : ℕ) → IsU64 v → (is_grease v ≡ true) ↔ ((n : ℕ) × (grease_value n ≡ some v))
unfolding is_grease grease_value
is_grease_iff v h = (λ e. ((v - 0x9d) / 0x7f, ground arith), λ (n, e). ground arith)
