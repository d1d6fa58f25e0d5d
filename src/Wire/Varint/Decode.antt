-- ===== src/Wire/Varint/Decode.antt =====
-- `get_vi` on any bytes, well formed or not, and the length of what `put_vi` writes.
use moqtail.Prelude.{
  ℕ, zero, suc, ◌+◌, ◌-◌, ◌*◌, ◌%◌, ◌^◌, ◌<◌, ◌≤◌, bit_and, bit_or, ◌≡◌, refl, ap, ◌∙◌, ◌≢◌, true,
  [], ◌∷◌, length, ltb, leb, lt→ltb, leb→le, ◌==◌, if◌then◌else◌, arith,
}
use moqtail.Prelude.Bits.{all_below, all_below_sound, bit_or_fields}
use moqtail.Wire.Varint.RoundTrip.{length-vi, length-vi_pos}
use native.Mathlib.Nat.{mul-le-mul_left, mul-le-mul_right, one-le-pow, pow-suc, le_trans, mod-lt}
use native.Mathlib.Decide.{dec_lt}
use moqtail.Wire.Outcome.{ok, panicked}
use moqtail.Wire.Buffer.{Bytes, AllBytes, IsU64}
use moqtail.Wire.Varint.{leading_ones, read_extra, get_vi_rest, get_vi, minimal_vi_length, vi}

read_extra-ne-panicked :
    (n : ℕ) (bs : Bytes) (val : ℕ) → n ≤ length bs → read_extra n bs val ≢ panicked
unfolding read_extra
read_extra-ne-panicked zero bs val h = λ e. cc
read_extra-ne-panicked (suc n) [] val h = absurd (omega arith)
read_extra-ne-panicked (suc n) (b ∷ bs) val h = read_extra-ne-panicked n bs _ (omega arith)

get_vi_rest-ne-panicked : (first : ℕ) (rest : Bytes) → get_vi_rest first rest ≢ panicked
unfolding get_vi_rest
get_vi_rest-ne-panicked first rest =
    let k = leading_ones 8 first + 1 - 1 in
    let start = if leb (k + 1) 8 then bit_and first (2 ^ (8 - (k + 1)) - 1) else 0 in
    ground (arith, read_extra-ne-panicked k rest start)

-- `get_vi` never panics.
pub get_vi-ne-panicked : (bs : Bytes) → get_vi bs ≢ panicked
get_vi-ne-panicked [] = unfold get_vi in λ e. cc
get_vi-ne-panicked (first ∷ rest) = unfold get_vi in get_vi_rest-ne-panicked first rest

mask_table : all_below 8 (λ k. all_below 256 (λ b. bit_and b (2 ^ k - 1) == b % 2 ^ k)) ≡ true
unfolding all_below
mask_table = refl

mask-eq-mod : (k b : ℕ) → k < 8 → b < 256 → bit_and b (2 ^ k - 1) ≡ b % 2 ^ k
mask-eq-mod k b hk hb =
    ground (arith, all_below_sound 256 _ b (all_below_sound 8 _ k mask_table hk) hb)

next_byte :
    (val b : ℕ) → val * 256 < 2 ^ 64 → b < 256 → bit_or (val * 256 % 2 ^ 64) b ≡ val * 256 + b
next_byte val b h hb = ap (λ x. bit_or x b) narrow ∙ bit_or_fields 8 val b hb
  where
    narrow : val * 256 % 2 ^ 64 ≡ val * 256
    narrow = omega arith

room_lem : (val b n : ℕ) → b < 256 → (val * 256 + b + 1) * 256 ^ n ≤ (val + 1) * 256 ^ suc n
room_lem val b n h = omega (
  arith,
  mul-le-mul_right (256 ^ n) wider,
  pow-suc 256 n,
  ap (λ (t : ℕ). val * t) (pow-suc 256 n),
)
  where
    wider : val * 256 + b + 1 ≤ (val + 1) * 256
    wider = omega arith

fits_next : (val n : ℕ) → (val + 1) * 256 ^ suc n ≤ 2 ^ 64 → val * 256 < 2 ^ 64
fits_next val n h = omega (
  arith,
  mul-le-mul_left ((val + 1) * 256) (one-le-pow n 256 (omega arith)),
  pow-suc 256 n,
  ap (λ (t : ℕ). val * t) (pow-suc 256 n),
)

abbrev Took : ℕ → ℕ → ℕ → Bytes → Bytes → Type 0
Took bound n v bs rest = (v < bound) × (length bs ≡ n + length rest) × AllBytes rest

-- After `n` bytes the value is below `(val + 1) * 256 ^ n`.
read_extra_takes :
    (n : ℕ) (bs : Bytes) (val v : ℕ) (rest : Bytes)
    → AllBytes bs
    → (val + 1) * 256 ^ n ≤ 2 ^ 64
    → read_extra n bs val ≡ ok (v, rest)
    → Took ((val + 1) * 256 ^ n) n v bs rest
unfolding read_extra
read_extra_takes zero bs val v rest hb fits e = ground arith
read_extra_takes (suc n) [] val v rest hb fits e = cc
read_extra_takes (suc n) (b ∷ bs) val v rest (byte, hb) fits e =
    let room = room_lem val b n byte in
    let (below, count, bytes) =
      read_extra_takes n bs (val * 256 + b) v rest hb (le_trans room fits)
        (rw (next_byte val b (fits_next val n fits) byte) at e) in
    (le_trans below room, omega (arith, count), bytes)

leading_ones-le : (w b : ℕ) → leading_ones w b ≤ w
unfolding leading_ones
leading_ones-le zero b = omega arith
leading_ones-le (suc w) b = ground (arith, leading_ones-le w (b - 2 ^ w))

-- What `get_vi` does after a first byte with `k` leading ones.
get_vi_rest_start :
    (first k : ℕ) (rest : Bytes) (v : ℕ) (rest' : Bytes)
    → leading_ones 8 first ≡ k
    → get_vi_rest first rest ≡ ok (v, rest')
    → read_extra k rest (if ltb k 8 then bit_and first (2 ^ (7 - k) - 1) else 0) ≡ ok (v, rest')
unfolding get_vi_rest
get_vi_rest_start first k rest v rest' ones e = ground (arith, same_mask)
  where
    same_mask : bit_and first (2 ^ (8 - (k + 1)) - 1) ≡ bit_and first (2 ^ (7 - k) - 1)
    same_mask = ap (λ (i : ℕ). bit_and first (2 ^ i - 1)) (omega arith)

minimal-le : (k v : ℕ) → k < 8 → v < 2 ^ (7 - k) * 256 ^ k → minimal_vi_length v ≤ k + 1
unfolding minimal_vi_length
minimal-le zero v hk h = ground arith
minimal-le (suc zero) v hk h = ground arith
minimal-le (suc (suc zero)) v hk h = ground arith
minimal-le (suc (suc (suc zero))) v hk h = ground arith
minimal-le (suc (suc (suc (suc zero)))) v hk h = ground arith
minimal-le (suc (suc (suc (suc (suc zero))))) v hk h = ground arith
minimal-le (suc (suc (suc (suc (suc (suc zero)))))) v hk h = ground arith
minimal-le (suc (suc (suc (suc (suc (suc (suc zero))))))) v hk h = ground arith
minimal-le (suc (suc (suc (suc (suc (suc (suc (suc k)))))))) v hk h = absurd (omega arith)

minimal-le_nine : (v : ℕ) → minimal_vi_length v ≤ 9
unfolding minimal_vi_length
minimal-le_nine v = ground arith

width : (k : ℕ) → k < 8 → 2 ^ (7 - k) * 256 ^ k ≤ 2 ^ 64
width k hk = (leb→le _ _ (all_below_sound 8 (λ i. leb (2 ^ (7 - i) * 256 ^ i) (2 ^ 64)) k table hk))
  where
    table : all_below 8 (λ i. leb (2 ^ (7 - i) * 256 ^ i) (2 ^ 64)) ≡ true
    table = unfold all_below in refl

abbrev Fits : ℕ → Bytes → Bytes → Type 0
Fits v bs rest =
    IsU64 v
    × AllBytes rest
    × (length rest + minimal_vi_length v ≤ length bs)
    × (length bs ≤ length rest + 9)

get_vi_short :
    (first k : ℕ) (rest : Bytes) (v : ℕ) (rest' : Bytes)
    → first < 256
    → AllBytes rest
    → k < 8
    → read_extra k rest (bit_and first (2 ^ (7 - k) - 1)) ≡ ok (v, rest')
    → Fits v (first ∷ rest) rest'
get_vi_short first k rest v rest' byte hb hk e =
    let (below, count, bytes) =
      read_extra_takes k rest _ v rest' hb (le_trans room (width k hk)) e in
    let small : v < 2 ^ (7 - k) * 256 ^ k = le_trans below room in
    (
      le_trans small (width k hk),
      bytes,
      omega (arith, count, minimal-le k v hk small),
      omega (arith, count),
    )
  where
    masked : bit_and first (2 ^ (7 - k) - 1) + 1 ≤ 2 ^ (7 - k)
    masked =
        rw (mask-eq-mod (7 - k) first (omega arith) byte)
          (omega (arith, mod-lt first (one-le-pow (7 - k) 2 (omega arith))))

    room : (bit_and first (2 ^ (7 - k) - 1) + 1) * 256 ^ k ≤ 2 ^ (7 - k) * 256 ^ k
    room = mul-le-mul_right (256 ^ k) masked

get_vi_long :
    (first : ℕ) (rest : Bytes) (v : ℕ) (rest' : Bytes)
    → AllBytes rest
    → read_extra 8 rest 0 ≡ ok (v, rest')
    → Fits v (first ∷ rest) rest'
get_vi_long first rest v rest' hb e =
    let (below, count, bytes) = read_extra_takes 8 rest 0 v rest' hb (omega arith) e in
    (omega (arith, below), bytes, omega (arith, count, minimal-le_nine v), omega (arith, count))

get_vi_rest-Fits :
    (first : ℕ) (rest : Bytes) (v : ℕ) (rest' : Bytes)
    → first < 256
    → AllBytes rest
    → get_vi_rest first rest ≡ ok (v, rest')
    → Fits v (first ∷ rest) rest'
get_vi_rest-Fits first rest v rest' byte hb e =
    let k = leading_ones 8 first in
    let start = get_vi_rest_start first k rest v rest' refl e in
    elim (dec_lt k 8) [
      | yes p ↦ get_vi_short first k rest v rest' byte hb p (rw (lt→ltb k 8 p) at start)
      | no p ↦ get_vi_long first rest v rest' hb (rw (eight p) at start)
    ]
  where
    eight : ¬ (leading_ones 8 first < 8) → leading_ones 8 first ≡ 8
    eight p = omega (arith, leading_ones-le 8 first)

-- A successful `get_vi` on bytes returns a u64, leaves bytes, and takes 1 to 9 bytes: no fewer
-- than `put_vi` writes for that value.
pub get_vi_takes :
    (bs : Bytes) (v : ℕ) (rest : Bytes)
    → AllBytes bs
    → get_vi bs ≡ ok (v, rest)
    → IsU64 v
      × AllBytes rest
      × (length rest + length (vi v) ≤ length bs)
      × (length bs ≤ length rest + 9)
      × (length rest < length bs)
get_vi_takes [] v rest hb e = unfold get_vi in cc
get_vi_takes (first ∷ bs) v rest (byte, hb) e =
    let (u64, bytes, least, most) = get_vi_rest-Fits first bs v rest byte hb (unfold get_vi in e) in
    (
      u64,
      bytes,
      omega (arith, length-vi v u64),
      most,
      omega (arith, length-vi v u64, length-vi_pos v u64),
    )

read_extra-le :
    (n : ℕ) (bs : Bytes) (acc v : ℕ) (rest : Bytes)
    → read_extra n bs acc ≡ ok (v, rest)
    → length rest ≤ length bs
unfolding read_extra
read_extra-le zero bs acc v rest e = ground arith
read_extra-le (suc n) [] acc v rest e = cc
read_extra-le (suc n) (b ∷ bs) acc v rest e = omega (arith, read_extra-le n bs _ v rest e)

-- Whatever the input holds, a number that is read takes something of it.
pub get_vi_shorter :
    (bs : Bytes) (v : ℕ) (rest : Bytes) → get_vi bs ≡ ok (v, rest) → length rest < length bs
unfolding get_vi get_vi_rest
get_vi_shorter [] v rest e = cc
get_vi_shorter (first ∷ bs) v rest e =
    let n = leading_ones 8 first + 1 in
    ground (
      arith,
      read_extra-le (n - 1) bs (if leb n 8 then bit_and first (2 ^ (8 - n) - 1) else 0) v rest,
    )
