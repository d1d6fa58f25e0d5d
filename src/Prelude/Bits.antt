-- ===== src/Prelude/Bits.antt =====
-- Bit masks on machine words as arithmetic.
use Prim.Native.Nat.{
  ℕ, zero, suc, ◌+◌, ◌*◌, ◌/◌, ◌%◌, ◌^◌, ◌≤◌, ◌<◌, min, max, bit_and, bit_or, digits,
  bit_and-bitwise, bit_or-bitwise,
}
use mathlib.Core.Path.{◌≡◌, refl, ap, ◌∙◌}
use mathlib.Core.Bool.{Bool, true, ◌&&◌}
use native.Mathlib.Omega.{arith}
use native.Mathlib.Nat.{pow-suc}

-- Whether a test holds at all numbers below a bound.
unfoldable pub all_below : ℕ → (ℕ → Bool) → Bool
all_below zero test = true
all_below (suc bound) test = all_below bound test && test bound

pub all_below_sound :
    (bound : ℕ) (test : ℕ → Bool) (v : ℕ) → all_below bound test ≡ true → v < bound → test v ≡ true
unfolding all_below
all_below_sound zero test v passed small = absurd (omega arith)
all_below_sound (suc bound) test v passed small = ground (arith, all_below_sound bound test v)

-- The recursion on binary digits that the native operations stand for does not depend on its
-- rounds, once they are as many as the left operand.
module _ (at_end : ℕ → ℕ) (op : ℕ → ℕ → ℕ) where
  digits-rounds : (x y k l : ℕ) → x ≤ k → x ≤ l → digits at_end op k x y ≡ digits at_end op l x y
  digits-rounds x y zero zero hk hl = refl
  digits-rounds zero y (suc k) zero hk hl = refl
  digits-rounds zero y zero (suc l) hk hl = refl
  digits-rounds zero y (suc k) (suc l) hk hl = refl
  digits-rounds (suc x) y zero (suc l) hk hl = absurd (omega arith)
  digits-rounds (suc x) y (suc k) zero hk hl = absurd (omega arith)
  digits-rounds (suc x) y (suc k) (suc l) hk hl =
      omega (arith, digits-rounds (suc x / 2) (y / 2) k l (omega arith) (omega arith))

-- The two operations, one digit at a time.
pub bit_or_step : (x y : ℕ) → bit_or x y ≡ bit_or (x / 2) (y / 2) * 2 + max (x % 2) (y % 2)
bit_or_step zero y = omega (arith, bit_or-bitwise 0 y, bit_or-bitwise 0 (y / 2))
bit_or_step (suc x) y =
    let rounds = digits-rounds (λ w. w) max (suc x / 2) (y / 2) x (suc x / 2) in
    omega (
      arith,
      rounds (omega arith) (omega arith),
      bit_or-bitwise (suc x / 2) (y / 2),
      bit_or-bitwise (suc x) y,
    )

pub bit_and_step : (x y : ℕ) → bit_and x y ≡ bit_and (x / 2) (y / 2) * 2 + min (x % 2) (y % 2)
bit_and_step zero y = omega (arith, bit_and-bitwise 0 y, bit_and-bitwise 0 (y / 2))
bit_and_step (suc x) y =
    let rounds = digits-rounds (λ w. zero) min (suc x / 2) (y / 2) x (suc x / 2) in
    omega (
      arith,
      rounds (omega arith) (omega arith),
      bit_and-bitwise (suc x / 2) (y / 2),
      bit_and-bitwise (suc x) y,
    )

-- The binary digit of `w` at position `i`.
abbrev pub digit : ℕ → ℕ → ℕ
digit zero w = w % 2
digit (suc i) w = digit i (w / 2)

pub digit-lt : (i w : ℕ) → digit i w < 2
digit-lt zero w = omega arith
digit-lt (suc i) w = digit-lt i (w / 2)

pub digit-bit_or : (i a b : ℕ) → digit i (bit_or a b) ≡ max (digit i a) (digit i b)
digit-bit_or zero a b = omega (arith, bit_or_step a b)
digit-bit_or (suc i) a b = half ∙ digit-bit_or i (a / 2) (b / 2)
  where
    half : digit i (bit_or a b / 2) ≡ digit i (bit_or (a / 2) (b / 2))
    half = ap (digit i) (omega (arith, bit_or_step a b))

pub digit-bit_and : (i a b : ℕ) → digit i (bit_and a b) ≡ min (digit i a) (digit i b)
digit-bit_and zero a b = omega (arith, bit_and_step a b)
digit-bit_and (suc i) a b = half ∙ digit-bit_and i (a / 2) (b / 2)
  where
    half : digit i (bit_and a b / 2) ≡ digit i (bit_and (a / 2) (b / 2))
    half = ap (digit i) (omega (arith, bit_and_step a b))

bit_or-zero_below : (bound w : ℕ) → w < bound → bit_or w 0 ≡ w
bit_or-zero_below zero w small = absurd (omega arith)
bit_or-zero_below (suc bound) zero small = refl
bit_or-zero_below (suc bound) (suc w) small =
    omega (arith, bit_or-zero_below bound (suc w / 2) (omega arith), bit_or_step (suc w) 0)

pub bit_or-zero : (w : ℕ) → bit_or w 0 ≡ w
bit_or-zero w = bit_or-zero_below (suc w) w (omega arith)

-- `(q << k) | r` where `r` has `k` bits.
pub bit_or_fields : (k q r : ℕ) → r < 2 ^ k → bit_or (q * 2 ^ k) r ≡ q * 2 ^ k + r
bit_or_fields zero q r h = ground (arith, bit_or-zero q)
bit_or_fields (suc k) q r h = low ∙ omega (arith, double, bit_or_fields k q (r / 2) (omega arith))
  where
    double : q * 2 ^ suc k ≡ q * 2 ^ k * 2
    double = omega (arith, ap (λ (t : ℕ). q * t) (pow-suc 2 k))

    low : bit_or (q * 2 ^ suc k) r ≡ bit_or (q * 2 ^ k) (r / 2) * 2 + r % 2
    low = rw double (ground (arith, bit_or_step (q * 2 ^ k * 2) r))
