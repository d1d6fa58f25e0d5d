-- ===== src/Wire/Varint/RoundTrip.antt =====
-- `put_vi` and `get_vi` of varint.rs against each other.
use moqtail.Prelude.{
  [], ℕ, zero, suc, ◌+◌, ◌-◌, ◌*◌, ◌/◌, ◌%◌, ◌^◌, ◌<◌, ◌≤◌, bit_and, bit_or, ◌≡◌, refl, ap, ◌∙◌,
  sym, true, not, ◌||◌, ◌∷◌, ◌++◌, length, length-append, ltb, ◌==◌, lt→ltb, ltb→lt, if◌then◌else◌,
  ◌&&◌, arith,
}
use moqtail.Prelude.Bits.{all_below, all_below_sound, bit_or_fields}
use moqtail.Wire.Outcome.{ok, ◌>>=◌}
use moqtail.Wire.Buffer.{Bytes, IsU64, AllBytes}
use moqtail.Wire.Varint.{
  leading_ones, read_extra, get_vi_rest, get_vi, minimal_vi_length, to_be_bytes, write_low,
  mark_length, vi_bytes, vi, put_vi,
}
use native.Mathlib.Decide.{dec_lt}
use native.Mathlib.Nat.{div-div-eq-div-mul, div-le_self, le_trans, suc-le-suc_iff}
use native.Mathlib.Numerals.{towards_suc}

-- The first byte of an encoding with `k` more bytes, and `t` as its value bits.
first_byte : ℕ → ℕ → ℕ
first_byte k t = if ltb 0 k then bit_or t ((2 ^ k - 1) * 2 ^ (8 - k) % 256) else t

abbrev FirstByteOk : ℕ → ℕ → Type 0
FirstByteOk k t =
    (leading_ones 8 (first_byte k t) ≡ k) × (bit_and (first_byte k t) (2 ^ (7 - k) - 1) ≡ t)

next_value : (w : ℕ) → IsU64 w → bit_or (w / 256 * 256 % 2 ^ 64) (w % 256) ≡ w
next_value w h =
    ap (λ x. bit_or x (w % 256)) narrow
    ∙ (bit_or_fields 8 (w / 256) (w % 256) (omega arith) ∙ omega arith)
  where
    narrow : w / 256 * 256 % 2 ^ 64 ≡ w / 256 * 256
    narrow = omega arith

shift_byte : (n : ℕ) → 2 ^ (8 * suc n) ≡ 2 ^ (8 * n) * 256
shift_byte n = ap (λ (k : ℕ). 2 ^ k) regroup ∙ eight
  where
    regroup : 8 * suc n ≡ 8 * n + 8
    regroup = omega arith

    eight : 2 ^ (8 * n + 8) ≡ 2 ^ (8 * n) * 256
    eight = simp towards_suc (omega arith)

shift_down : (n v : ℕ) → v / 2 ^ (8 * suc n) ≡ v / 2 ^ (8 * n) / 256
shift_down n v = rw shift_byte (sym (div-div-eq-div-mul v (2 ^ (8 * n)) 256))

read_extra-to_be_bytes :
    (n v : ℕ) (rest : Bytes)
    → IsU64 v
    → read_extra n (to_be_bytes n v ++ rest) (v / 2 ^ (8 * n)) ≡ ok (v, rest)
unfolding read_extra to_be_bytes
read_extra-to_be_bytes zero v rest h = ground arith
read_extra-to_be_bytes (suc n) v rest h =
    rw (shift_down, next_value (v / 2 ^ (8 * n)) small) (read_extra-to_be_bytes n v rest h)
  where
    small : IsU64 (v / 2 ^ (8 * n))
    small = le_trans (suc-le-suc_iff.1 (div-le_self v (2 ^ (8 * n)))) h

length-to_be_bytes : (n v : ℕ) → length (to_be_bytes n v) ≡ n
unfolding to_be_bytes
length-to_be_bytes zero v = refl
length-to_be_bytes (suc n) v = ap suc (length-to_be_bytes n v)

first_byte_table :
    all_below 8 (λ k. all_below 128 (λ t.
      not (ltb t (2 ^ (7 - k)))
      || ((leading_ones 8 (first_byte k t) == k)
          && (bit_and (first_byte k t) (2 ^ (7 - k) - 1) == t))))
    ≡ true
unfolding all_below leading_ones first_byte
first_byte_table = refl

first_byte_ok : (k t : ℕ) → k < 8 → t < 2 ^ (7 - k) → t < 128 → FirstByteOk k t
first_byte_ok k t hk ht ht' =
    ground (arith, all_below_sound 128 _ t (all_below_sound 8 _ k first_byte_table hk) ht')

get_vi_rest_step :
    (first k t : ℕ) (rest : Bytes)
    → leading_ones 8 first ≡ k
    → bit_and first (2 ^ (7 - k) - 1) ≡ t
    → k < 8
    → k ≤ length rest
    → get_vi_rest first rest ≡ read_extra k rest t
unfolding get_vi_rest
get_vi_rest_step first k t rest ones mask hk fits = ground (arith, same_mask)
  where
    same_mask : bit_and first (2 ^ (8 - (k + 1)) - 1) ≡ t
    same_mask = ap (λ (i : ℕ). bit_and first (2 ^ i - 1)) (omega arith) ∙ mask

get_vi-first_byte :
    (k v : ℕ) (rest : Bytes)
    → k < 8
    → IsU64 v
    → v / 2 ^ (8 * k) < 2 ^ (7 - k)
    → v / 2 ^ (8 * k) < 128
    → get_vi_rest (first_byte k (v / 2 ^ (8 * k))) (to_be_bytes k v ++ rest) ≡ ok (v, rest)
get_vi-first_byte k v rest hk h small byte =
    get_vi_rest_step _ k (v / 2 ^ (8 * k)) _ ok_byte.0 ok_byte.1 hk fits
    ∙ read_extra-to_be_bytes k v rest h
  where
    ok_byte : FirstByteOk k (v / 2 ^ (8 * k))
    ok_byte = first_byte_ok k (v / 2 ^ (8 * k)) hk small byte

    fits : k ≤ length (to_be_bytes k v ++ rest)
    fits = omega (arith, length-append (to_be_bytes k v) rest, length-to_be_bytes k v)

vi-below :
    (v : ℕ)
    → v < 2 ^ 56
    → vi_bytes (minimal_vi_length v) v
      ≡ first_byte (minimal_vi_length v - 1) (v / 2 ^ (8 * (minimal_vi_length v - 1)))
        ∷ to_be_bytes (minimal_vi_length v - 1) v
unfolding vi_bytes to_be_bytes write_low mark_length minimal_vi_length first_byte
vi-below v h = ground arith

vi-above : (v : ℕ) → 2 ^ 56 ≤ v → vi_bytes (minimal_vi_length v) v ≡ 0xff ∷ to_be_bytes 8 v
unfolding vi_bytes minimal_vi_length
vi-above v h = ground arith

top_bits :
    (v : ℕ)
    → v < 2 ^ 56
    → (minimal_vi_length v - 1 < 8)
      × (v / 2 ^ (8 * (minimal_vi_length v - 1)) < 2 ^ (7 - (minimal_vi_length v - 1)))
      × (v / 2 ^ (8 * (minimal_vi_length v - 1)) < 128)
unfolding minimal_vi_length
top_bits v h = ground arith

get_vi_rest_nine : (rest : Bytes) → 8 ≤ length rest → get_vi_rest 0xff rest ≡ read_extra 8 rest 0
unfolding get_vi_rest
get_vi_rest_nine rest fits = ground (arith, ones)
  where
    ones : leading_ones 8 0xff ≡ 8
    ones = unfold leading_ones in refl

get_vi-0xff :
    (v : ℕ) (rest : Bytes) → IsU64 v → get_vi_rest 0xff (to_be_bytes 8 v ++ rest) ≡ ok (v, rest)
get_vi-0xff v rest h = get_vi_rest_nine _ fits ∙ rw zero_top at (read_extra-to_be_bytes 8 v rest h)
  where
    zero_top : v / 2 ^ (8 * 8) ≡ 0
    zero_top = omega arith

    fits : 8 ≤ length (to_be_bytes 8 v ++ rest)
    fits = omega (arith, length-append (to_be_bytes 8 v) rest, length-to_be_bytes 8 v)

-- A u64 that was written reads back, whatever follows it.
pub get_vi-vi : (v : ℕ) (rest : Bytes) → IsU64 v → get_vi (vi v ++ rest) ≡ ok (v, rest)
unfolding vi
get_vi-vi v rest h = elim (dec_lt v (2 ^ 56)) [
  | yes p ↦
      let (k, small, byte) = top_bits v p in
      rw (vi-below v p)
        (unfold get_vi in get_vi-first_byte (minimal_vi_length v - 1) v rest k h small byte)
  | no p ↦ rw (vi-above v (omega arith)) (unfold get_vi in get_vi-0xff v rest h)
]

pub put_vi-vi : (buf : Bytes) (v : ℕ) → IsU64 v → put_vi buf v ≡ ok (buf ++ vi v)
unfolding put_vi
put_vi-vi buf v h = rw (lt→ltb v (2 ^ 64) h)

-- The encoding has the minimal length, which is 1 to 9 bytes.
pub length-vi : (v : ℕ) → IsU64 v → length (vi v) ≡ minimal_vi_length v
unfolding vi
length-vi v h = elim (dec_lt v (2 ^ 56)) [
  | yes p ↦
      rw (vi-below v p)
        (omega (arith, length-to_be_bytes (minimal_vi_length v - 1) v, minimal-pos v))
  | no p ↦ rw (vi-above v (omega arith)) (omega (arith, length-to_be_bytes 8 v, nine p))
]
  where
    minimal-pos : (w : ℕ) → 0 < minimal_vi_length w
    minimal-pos w = unfold minimal_vi_length in ground arith

    nine : ¬ (v < 2 ^ 56) → minimal_vi_length v ≡ 9
    nine p = unfold minimal_vi_length in ground arith

pub length-vi_pos : (v : ℕ) → IsU64 v → 0 < length (vi v)
length-vi_pos v h = rw (length-vi v h) (unfold minimal_vi_length in ground arith)

to_be_bytes-AllBytes : (n v : ℕ) → AllBytes (to_be_bytes n v)
unfolding to_be_bytes
to_be_bytes-AllBytes zero v = tt
to_be_bytes-AllBytes (suc n) v = (omega arith, to_be_bytes-AllBytes n v)

first_byte_bound : all_below 8 (λ k. all_below 128 (λ t. ltb (first_byte k t) 256)) ≡ true
unfolding all_below first_byte
first_byte_bound = refl

pub vi-AllBytes : (v : ℕ) → IsU64 v → AllBytes (vi v)
unfolding vi
vi-AllBytes v h = elim (dec_lt v (2 ^ 56)) [
  | yes p ↦
      let (hk, small, byte) = top_bits v p in
      let k = minimal_vi_length v - 1 in
      rw (vi-below v p) (
        ltb→lt _ 256 (all_below_sound 128 _ _ (all_below_sound 8 _ k first_byte_bound hk) byte),
        to_be_bytes-AllBytes k v,
      )
  | no p ↦ rw (vi-above v (omega arith)) (omega arith, to_be_bytes-AllBytes 8 v)
]

-- A u64 that `put_vi` writes is read back by `get_vi`, whatever follows it.
pub get_vi-put_vi :
    (v : ℕ) (rest : Bytes) → IsU64 v → (put_vi [] v >>= λ e. get_vi (e ++ rest)) ≡ ok (v, rest)
get_vi-put_vi v rest h = rw (put_vi-vi [] v h) (get_vi-vi v rest h)

pub put_vi-IsU64 : (buf : Bytes) (v : ℕ) (out : Bytes) → put_vi buf v ≡ ok out → IsU64 v
unfolding put_vi
put_vi-IsU64 buf v out e = ground arith
