-- ===== src/Wire/Pair/RoundTrip.antt =====
-- Writing and reading one pair of pair.rs.
use moqtail.Prelude.{
  ℕ, ◌+◌, ◌-◌, ◌%◌, ◌^◌, ◌<◌, ◌≤◌, ◌≡◌, refl, ap, [], ◌++◌, append_assoc, length, length-append,
  le→leb, lt→ltb, arith,
}
use moqtail.Wire.Outcome.{ok, err, protocol_violation, ◌>>=◌}
use moqtail.Wire.Buffer.{Bytes, IsU64, take-length_append, drop-length_append}
use moqtail.Wire.Varint.{vi}
use moqtail.Wire.Varint.RoundTrip.{get_vi-vi, put_vi-vi, length-vi_pos}
use moqtail.Wire.Pair.{
  KeyValuePair, var_int, bytes, get_type, max_value_length, put_value, serialize_delta,
  deserialize_bytes_value, deserialize_value, deserialize_delta,
}

-- A pair that the generic encoding can carry: its Value has the form that its Type's parity says.
abbrev pub IsValid : KeyValuePair → Type 0
IsValid (var_int t v) = IsU64 t × (t % 2 ≡ 0) × IsU64 v
IsValid (bytes t v) = IsU64 t × (t % 2 ≡ 1) × (length v ≤ max_value_length)

-- The bytes of a Value, and of a pair behind the type `prev`.
unfoldable pub value_bytes : KeyValuePair → Bytes
value_bytes (var_int t v) = vi v
value_bytes (bytes t v) = vi (length v) ++ v

unfoldable pub pair_bytes : KeyValuePair → ℕ → Bytes
unfolding value_bytes
pair_bytes kvp prev = vi (get_type kvp - prev) ++ value_bytes kvp

put_value-eq :
    (buf : Bytes) (kvp : KeyValuePair)
    → IsValid kvp
    → put_value buf kvp ≡ ok (buf ++ value_bytes kvp)
unfolding put_value value_bytes
put_value-eq buf (var_int t v) (ht, even, hv) = put_vi-vi buf v hv
put_value-eq buf (bytes t v) (ht, odd, hv) =
    rw (put_vi-vi buf (length v) (omega arith)) (ap ok (append_assoc buf (vi (length v)) v))

get_type-lt : (kvp : KeyValuePair) → IsValid kvp → IsU64 (get_type kvp)
get_type-lt (var_int t v) h = h.0
get_type-lt (bytes t v) h = h.0

pub serialize_delta-eq :
    (kvp : KeyValuePair) (prev : ℕ)
    → IsValid kvp
    → prev ≤ get_type kvp
    → serialize_delta kvp prev ≡ ok (pair_bytes kvp prev)
unfolding serialize_delta pair_bytes
serialize_delta-eq kvp prev h le = rw (
  le→leb prev (get_type kvp) le,
  put_vi-vi [] (get_type kvp - prev) (omega (arith, get_type-lt kvp h)),
  put_value-eq _ kvp h,
)

get_bytes :
    (t : ℕ) (v rest : Bytes)
    → length v ≤ max_value_length
    → deserialize_bytes_value ((vi (length v) ++ v) ++ rest) t ≡ ok (bytes t v, rest)
unfolding deserialize_bytes_value
get_bytes t v rest hv =
    rw
      (
        append_assoc (vi (length v)) v rest,
        get_vi-vi (length v) (v ++ rest) (omega arith),
        lt→ltb (length v) (2 ^ 64) (omega arith),
        le→leb (length v) max_value_length hv,
        le→leb (length v) (length (v ++ rest)) fits,
        take-length_append,
        drop-length_append,
      )
      refl
  where
    fits : length v ≤ length (v ++ rest)
    fits = omega (arith, length-append v rest)

get_value :
    (kvp : KeyValuePair) (rest : Bytes)
    → IsValid kvp
    → deserialize_value (value_bytes kvp ++ rest) (get_type kvp) ≡ ok (kvp, rest)
unfolding deserialize_value value_bytes
get_value (var_int t v) rest (ht, even, hv) = rw (even, get_vi-vi v rest hv)
get_value (bytes t v) rest (ht, odd, hv) = rw odd (get_bytes t v rest hv)

-- A pair that was written behind the type `prev` reads back behind it, whatever follows.
pub deserialize_delta-pair_bytes :
    (kvp : KeyValuePair) (prev : ℕ) (rest : Bytes)
    → IsValid kvp
    → prev ≤ get_type kvp
    → deserialize_delta (pair_bytes kvp prev ++ rest) prev ≡ ok (kvp, rest)
unfolding deserialize_delta pair_bytes
deserialize_delta-pair_bytes kvp prev rest h le =
    rw
      (
        append_assoc (vi (get_type kvp - prev)) (value_bytes kvp) rest,
        get_vi-vi (get_type kvp - prev) (value_bytes kvp ++ rest)
            (omega (arith, get_type-lt kvp h)),
        same_type,
        lt→ltb (get_type kvp) (2 ^ 64) (get_type-lt kvp h),
      )
      (get_value kvp rest h)
  where
    same_type : prev + (get_type kvp - prev) ≡ get_type kvp
    same_type = omega arith

-- A valid pair whose type is at least `prev` is written by `serialize_delta`, and
-- `deserialize_delta` reads it back behind `prev`, whatever follows it.
pub deserialize_delta-serialize_delta :
    (kvp : KeyValuePair) (prev : ℕ) (rest : Bytes)
    → IsValid kvp
    → prev ≤ get_type kvp
    → (serialize_delta kvp prev >>= λ e. deserialize_delta (e ++ rest) prev) ≡ ok (kvp, rest)
deserialize_delta-serialize_delta kvp prev rest h le =
    rw (serialize_delta-eq kvp prev h le) (deserialize_delta-pair_bytes kvp prev rest h le)

-- A pair whose type is below the type before it is refused.
pub serialize_delta_decreasing :
    (kvp : KeyValuePair) (prev : ℕ)
    → get_type kvp < prev
    → serialize_delta kvp prev ≡ err protocol_violation
unfolding serialize_delta
serialize_delta_decreasing kvp prev h = ground arith

pub length-pair_bytes_pos :
    (kvp : KeyValuePair) (prev : ℕ) → IsValid kvp → 0 < length (pair_bytes kvp prev)
unfolding pair_bytes
length-pair_bytes_pos kvp prev h = omega (
  arith,
  length-append (vi (get_type kvp - prev)) (value_bytes kvp),
  length-vi_pos (get_type kvp - prev) (omega (arith, get_type-lt kvp h)),
)
