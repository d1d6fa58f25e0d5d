-- ===== src/Wire/Varint.antt =====
-- libs/moqtail-rs/src/model/common/varint.rs
-- A 64-bit integer in 1 to 9 bytes: the first byte starts with as many ones as bytes follow it.
pub mod RoundTrip
pub mod Decode
pub mod Truncated
use moqtail.Prelude.{
  ℕ, zero, suc, ◌+◌, ◌-◌, ◌*◌, ◌/◌, ◌%◌, ◌^◌, bit_and, bit_or, [], ◌∷◌, ◌++◌, length, take, set,
  replicate, get_or, ltb, leb, ◌==◌, if◌then◌else◌,
}
use moqtail.Wire.Outcome.{Outcome, ok, err, not_enough_bytes, casting_error, ◌>>=◌}
use moqtail.Wire.Buffer.{Bytes, get_u8}

-- `leading_ones` of a number of `width` bits
unfoldable pub leading_ones : ℕ → ℕ → ℕ
leading_ones zero b = 0
leading_ones (suc w) b =
    let rest = leading_ones w (b - 2 ^ w) in if leb (2 ^ w) b then suc rest else 0

-- `for _ in 0..extra_bytes { val = (val << 8) | u64::from(self.get_u8()); }`
unfoldable pub read_extra : ℕ → Bytes → ℕ → Outcome (ℕ × Bytes)
read_extra zero bs val = ok (val, bs)
read_extra (suc n) bs val = do
  (b, rest) ← get_u8 bs
  read_extra n rest (bit_or (val * 256 % 2 ^ 64) b)

get_vi_rest : ℕ → Bytes → Outcome (ℕ × Bytes)
get_vi_rest first rest =
    let n = leading_ones 8 first + 1 in
    let extra_bytes = n - 1 in
    if ltb (length rest) extra_bytes
    then err (not_enough_bytes n (length rest + 1))
    else read_extra extra_bytes rest (if leb n 8 then bit_and first (2 ^ (8 - n) - 1) else 0)

unfoldable pub get_vi : Bytes → Outcome (ℕ × Bytes)
unfolding get_vi_rest leading_ones read_extra
get_vi [] = err (not_enough_bytes 1 0)
get_vi (first ∷ rest) = get_vi_rest first rest

unfoldable pub minimal_vi_length : ℕ → ℕ
minimal_vi_length v =
    if ltb v (2 ^ 7)
    then 1
    else if ltb v (2 ^ 14)
    then 2
    else if ltb v (2 ^ 21)
    then 3
    else if ltb v (2 ^ 28)
    then 4
    else if ltb v (2 ^ 35)
    then 5
    else if ltb v (2 ^ 42)
    then 6
    else if ltb v (2 ^ 49)
    then 7
    else if ltb v (2 ^ 56)
    then 8
    else 9

-- The eight bytes of a u64, the highest first: `to_be_bytes`.
unfoldable pub to_be_bytes : ℕ → ℕ → Bytes
to_be_bytes zero v = []
to_be_bytes (suc n) v = (v / 2 ^ (8 * n) % 256) ∷ to_be_bytes n v

-- `for i in 0..length { out[length - 1 - i] = (v >> (8 * i)) as u8; }`, with the rounds still to
-- run and the index of the round.
unfoldable pub write_low : ℕ → ℕ → ℕ → ℕ → Bytes → Bytes
write_low zero i n v out = out
write_low (suc rounds) i n v out =
    write_low rounds (i + 1) n v (set out (n - 1 - i) (v / 2 ^ (8 * i) % 256))

-- `out[0] |= (((1u16 << ones) - 1) << (8 - ones)) as u8`
unfoldable pub mark_length : ℕ → Bytes → Bytes
mark_length ones out =
    if ltb 0 ones
    then set out 0 (bit_or (get_or out 0 0) ((2 ^ ones - 1) * 2 ^ (8 - ones) % 256))
    else out

-- What is written for a value and its length in bytes.
unfoldable pub vi_bytes : ℕ → ℕ → Bytes
unfolding to_be_bytes write_low mark_length
vi_bytes n v =
    if n == 9
    then 0xff ∷ to_be_bytes 8 v
    else take n (mark_length (n - 1) (write_low n 0 n v (replicate 8 0)))

-- The bytes that stand for a u64 on the wire.
unfoldable pub vi : ℕ → Bytes
vi v = vi_bytes (minimal_vi_length v) v

-- `put_vi` appends to the buffer; a value that is no u64 is refused.
unfoldable pub put_vi : Bytes → ℕ → Outcome Bytes
unfolding vi minimal_vi_length vi_bytes
put_vi buf v = if ltb v (2 ^ 64) then ok (buf ++ vi v) else err casting_error
