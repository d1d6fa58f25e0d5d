-- ===== src/Relay/SeenObjects/Bitmap.antt =====
-- The bit operations of seen_objects.rs as operations on a set of numbers.
use moqtail.Prelude.{
  ℕ, zero, suc, ◌+◌, ◌-◌, ◌*◌, ◌/◌, ◌%◌, ◌^◌, ◌<◌, ◌≤◌, ◌≡◌, refl, ap, ◌∙◌, bit_and, bit_or, [],
  ◌∷◌, true, false, not, ◌&&◌, ◌||◌, length, length-set, get_or, set, replicate, ltb, ltb→lt, ◌==◌,
  if◌then◌else◌, arith,
}
use moqtail.Prelude.Bits.{
  digit, digit-lt, digit-bit_or, digit-bit_and, bit_and_step, all_below, all_below_sound,
}
use native.Mathlib.Nat.{pow-suc, one-le-pow}
use moqtail.Wire.Buffer.{u64_max}
use moqtail.Relay.SeenObjects.{Words, bit_is_set, set_bit, clear_bit}

digit-zero : (j : ℕ) → digit j 0 ≡ 0
digit-zero zero = refl
digit-zero (suc j) = digit-zero j

half_pow : (i : ℕ) → (2 ^ suc i / 2 ≡ 2 ^ i) × (2 ^ suc i % 2 ≡ 0)
half_pow i = (omega (arith, pow-suc 2 i), omega (arith, pow-suc 2 i))

digit-pow : (j i : ℕ) → digit j (2 ^ i) ≡ (if i == j then 1 else 0)
digit-pow zero zero = refl
digit-pow (suc j) zero = ground (arith, digit-zero j)
digit-pow zero (suc i) = ground (arith, half_pow i)
digit-pow (suc j) (suc i) = ap (digit j) (half_pow i).0 ∙ (digit-pow j i ∙ ground arith)

bit_and-zero_below : (bound w : ℕ) → w < bound → bit_and w 0 ≡ 0
bit_and-zero_below zero w small = absurd (omega arith)
bit_and-zero_below (suc bound) zero small = refl
bit_and-zero_below (suc bound) (suc w) small =
    omega (arith, bit_and-zero_below bound (suc w / 2) (omega arith), bit_and_step (suc w) 0)

-- A mask of one bit reads that digit.
bit_and-pow : (i w : ℕ) → bit_and w (2 ^ i) ≡ digit i w * 2 ^ i
bit_and-pow zero w =
    omega (arith, bit_and_step w 1, bit_and-zero_below (suc w) (w / 2) (omega arith))
bit_and-pow (suc i) w =
    low ∙ omega (arith, bit_and-pow i (w / 2), ap (λ (t : ℕ). digit i (w / 2) * t) (pow-suc 2 i))
  where
    low : bit_and w (2 ^ suc i) ≡ bit_and (w / 2) (2 ^ i) * 2
    low = ground (arith, bit_and_step w (2 ^ suc i), half_pow i)

digit-complement : (j n x : ℕ) → j < n → x < 2 ^ n → digit j (2 ^ n - 1 - x) + digit j x ≡ 1
digit-complement zero (suc n) x h hx = ground (arith, half_pow n)
digit-complement (suc j) (suc n) x h hx =
    ap (λ (t : ℕ). digit j t + digit j (x / 2)) half
    ∙ digit-complement j n (x / 2) (omega arith) (omega (arith, pow-suc 2 n))
  where
    half : (2 ^ suc n - 1 - x) / 2 ≡ 2 ^ n - 1 - x / 2
    half = omega (arith, pow-suc 2 n)
digit-complement j zero x h hx = absurd (omega arith)

scaled : (d p : ℕ) → d < 2 → 1 ≤ p → not (d * p == 0) ≡ (d == 1)
scaled zero p h hp = ground arith
scaled (suc zero) p h hp = ground arith
scaled (suc (suc d)) p h hp = absurd (omega arith)

-- The test, the setting and the clearing of a bit in one word.
test_word : (w i : ℕ) → not (bit_and w (2 ^ i) == 0) ≡ (digit i w == 1)
test_word w i =
    rw (bit_and-pow i w) (scaled (digit i w) (2 ^ i) (digit-lt i w) (one-le-pow i 2 (omega arith)))

set_word : (w i j : ℕ) → (digit j (bit_or w (2 ^ i)) == 1) ≡ ((i == j) || (digit j w == 1))
set_word w i j = ground (arith, digit-bit_or j w (2 ^ i), digit-pow j i, digit-lt j w)

pow-lt_table : all_below 64 (λ i. ltb (2 ^ i) (2 ^ 64)) ≡ true
unfolding all_below
pow-lt_table = refl

clear_word :
    (w i j : ℕ)
    → i < 64
    → j < 64
    → (digit j (bit_and w (u64_max - 2 ^ i)) == 1) ≡ (not (i == j) && (digit j w == 1))
clear_word w i j hi hj = ground (
  arith,
  digit-bit_and j w (u64_max - 2 ^ i),
  digit-pow j i,
  digit-lt j w,
  digit-complement j 64 (2 ^ i) hj (ltb→lt _ _ (all_below_sound 64 _ i pow-lt_table hi)),
)

get_or-set :
    (ws : Words) (i j v : ℕ)
    → i < length ws
    → get_or (set ws i v) j 0 ≡ (if i == j then v else get_or ws j 0)
get_or-set [] i j v h = absurd (omega arith)
get_or-set (w ∷ ws) zero zero v h = refl
get_or-set (w ∷ ws) zero (suc j) v h = ground arith
get_or-set (w ∷ ws) (suc i) zero v h = ground arith
get_or-set (w ∷ ws) (suc i) (suc j) v h = get_or-set ws i j v (omega arith) ∙ ground arith

-- A bitmap of `n` words holds the numbers below `64 * n`.
bit_is_set-digit :
    (ws : Words) (j : ℕ) → bit_is_set ws j ≡ (digit (j % 64) (get_or ws (j / 64) 0) == 1)
unfolding bit_is_set
bit_is_set-digit ws j = test_word (get_or ws (j / 64) 0) (j % 64)

pub bit_is_set-set_bit :
    (ws : Words) (i j : ℕ)
    → i < 64 * length ws
    → bit_is_set (set_bit ws i) j ≡ ((i == j) || bit_is_set ws j)
unfolding set_bit
bit_is_set-set_bit ws i j h = ground (
  arith,
  bit_is_set-digit ws j,
  bit_is_set-digit (set ws (i / 64) (bit_or (get_or ws (i / 64) 0) (2 ^ (i % 64)))) j,
  get_or-set ws (i / 64) (j / 64) (bit_or (get_or ws (i / 64) 0) (2 ^ (i % 64))) (omega arith),
  set_word (get_or ws (i / 64) 0) (i % 64) (j % 64),
)

pub bit_is_set-clear_bit :
    (ws : Words) (i j : ℕ)
    → i < 64 * length ws
    → bit_is_set (clear_bit ws i) j ≡ (not (i == j) && bit_is_set ws j)
unfolding clear_bit
bit_is_set-clear_bit ws i j h = ground (
  arith,
  bit_is_set-digit ws j,
  bit_is_set-digit (set ws (i / 64) (bit_and (get_or ws (i / 64) 0) (u64_max - 2 ^ (i % 64)))) j,
  get_or-set ws (i / 64) (j / 64) (bit_and (get_or ws (i / 64) 0) (u64_max - 2 ^ (i % 64)))
      (omega arith),
  clear_word (get_or ws (i / 64) 0) (i % 64) (j % 64) (omega arith) (omega arith),
)

pub length-set_bit : (ws : Words) (i : ℕ) → length (set_bit ws i) ≡ length ws
unfolding set_bit
length-set_bit ws i = length-set ws (i / 64) _

pub length-clear_bit : (ws : Words) (i : ℕ) → length (clear_bit ws i) ≡ length ws
unfolding clear_bit
length-clear_bit ws i = length-set ws (i / 64) _

get_or-replicate : (n j : ℕ) → get_or {A = ℕ} (replicate n 0) j 0 ≡ 0
get_or-replicate zero j = refl
get_or-replicate (suc n) zero = refl
get_or-replicate (suc n) (suc j) = get_or-replicate n j

pub bit_is_set-empty : (n j : ℕ) → bit_is_set (replicate n 0) j ≡ false
bit_is_set-empty n j =
    ground
      (arith, bit_is_set-digit (replicate n 0) j, get_or-replicate n (j / 64), digit-zero (j % 64))
