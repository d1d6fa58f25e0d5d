-- ===== src/Wire/Pair.antt =====
-- libs/moqtail-rs/src/model/common/pair.rs: Key-Value-Pairs, whose types go on the wire as the
-- difference to the type before.
pub mod RoundTrip
pub mod Decode
pub mod Lists
use moqtail.Prelude.{
  ℕ, zero, suc, ◌+◌, ◌-◌, ◌*◌, ◌%◌, ◌^◌, List, [], ◌∷◌, ◌++◌, length, Bool, ltb, leb, ◌==◌,
  if◌then◌else◌,
}
use moqtail.Wire.Outcome.{
  Outcome, ok, err, panicked, not_enough_bytes, length_exceeds_max, key_value_formatting_error,
  protocol_violation, ok_or, guard, ◌>>=◌, ◌>>◌,
}
use moqtail.Wire.Buffer.{Bytes, copy_to_bytes, to_usize, checked_add, checked_sub}
use moqtail.Wire.Varint.{get_vi, put_vi}

abbrev pub max_value_length : ℕ
max_value_length = 65535

pub data KeyValuePair : Type 0 where
  var_int : ℕ → ℕ → KeyValuePair
  bytes : ℕ → Bytes → KeyValuePair

abbrev pub get_type : KeyValuePair → ℕ
get_type (var_int t v) = t
get_type (bytes t v) = t

abbrev pub is_multiple_of_two : ℕ → Bool
is_multiple_of_two t = t % 2 == 0

unfoldable pub try_new_varint : ℕ → ℕ → Outcome KeyValuePair
try_new_varint t v =
    if is_multiple_of_two t then ok (var_int t v) else err key_value_formatting_error

unfoldable pub new_bytes : ℕ → Bytes → Outcome KeyValuePair
new_bytes t v =
    if ltb max_value_length (length v)
    then err (length_exceeds_max max_value_length (length v))
    else ok (bytes t v)

unfoldable pub try_new_bytes : ℕ → Bytes → Outcome KeyValuePair
try_new_bytes t v = if is_multiple_of_two t then err key_value_formatting_error else new_bytes t v

-- The Value of a pair, written behind its Type.
unfoldable pub put_value : Bytes → KeyValuePair → Outcome Bytes
put_value buf (var_int t v) = put_vi buf v
put_value buf (bytes t v) = do buf' ← put_vi buf (length v); ok (buf' ++ v)

unfoldable pub serialize_delta : KeyValuePair → ℕ → Outcome Bytes
serialize_delta kvp prev_type = do
  delta_type ← ok_or (checked_sub (get_type kvp) prev_type) protocol_violation
  buf ← put_vi [] delta_type
  put_value buf kvp

unfoldable pub deserialize_bytes_value : Bytes → ℕ → Outcome (KeyValuePair × Bytes)
deserialize_bytes_value bs t = do
  (len_u64, bs₁) ← get_vi bs
  len ← to_usize len_u64
  guard (leb len max_value_length) (length_exceeds_max max_value_length len)
  guard (leb len (length bs₁)) (not_enough_bytes len (length bs₁))
  (value, bs₂) ← copy_to_bytes bs₁ len
  ok (bytes t value, bs₂)

unfoldable pub deserialize_value : Bytes → ℕ → Outcome (KeyValuePair × Bytes)
deserialize_value bs t =
    if is_multiple_of_two t
    then (do (value, bs₁) ← get_vi bs; ok (var_int t value, bs₁))
    else deserialize_bytes_value bs t

unfoldable pub deserialize_delta : Bytes → ℕ → Outcome (KeyValuePair × Bytes)
deserialize_delta bs prev_type = do
  (delta_type, bs₁) ← get_vi bs
  type_value ← ok_or (checked_add prev_type delta_type) protocol_violation
  deserialize_value bs₁ type_value

-- `sort_by_key` is a stable sort; here by insertion.
unfoldable pub insert_by_type : KeyValuePair → List KeyValuePair → List KeyValuePair
insert_by_type p [] = p ∷ []
insert_by_type p (q ∷ qs) =
    if leb (get_type p) (get_type q) then p ∷ q ∷ qs else q ∷ insert_by_type p qs

unfoldable pub sort_by_type : List KeyValuePair → List KeyValuePair
sort_by_type [] = []
sort_by_type (p ∷ ps) = insert_by_type p (sort_by_type ps)

-- `for kvp in sorted { buf.extend(kvp.serialize_delta(prev_type)?); prev_type = kvp.get_type(); }`
unfoldable pub serialize_sorted : List KeyValuePair → ℕ → Bytes → Outcome Bytes
serialize_sorted [] prev_type buf = ok buf
serialize_sorted (kvp ∷ rest) prev_type buf = do
  e ← serialize_delta kvp prev_type
  serialize_sorted rest (get_type kvp) (buf ++ e)

unfoldable pub serialize_kvp_list : List KeyValuePair → Outcome Bytes
serialize_kvp_list items = serialize_sorted (sort_by_type items) 0 []

-- `for _ in 0..count`
unfoldable pub deserialize_count :
    ℕ → ℕ → List KeyValuePair → Bytes → Outcome (List KeyValuePair × Bytes)
deserialize_count zero prev_type items bs = ok (items, bs)
deserialize_count (suc count) prev_type items bs = do
  (kvp, rest) ← deserialize_delta bs prev_type
  deserialize_count count (get_type kvp) (items ++ kvp ∷ []) rest

-- `Vec::with_capacity(count as usize)` panics where the capacity in bytes passes `isize::MAX`.
-- The size of a pair in memory is the compiler's choice, and so a parameter.
unfoldable pub deserialize_kvp_list : ℕ → Bytes → ℕ → Outcome (List KeyValuePair × Bytes)
deserialize_kvp_list pair_size bs count =
    if ltb (2 ^ 63 - 1) (count * pair_size) then panicked else deserialize_count count 0 [] bs

-- `while bytes.has_remaining()`. Each round takes a byte at least, so as many rounds as there are
-- bytes are enough.
unfoldable pub deserialize_rounds : ℕ → ℕ → List KeyValuePair → Bytes → Outcome (List KeyValuePair)
deserialize_rounds fuel prev_type items [] = ok items
deserialize_rounds zero prev_type items (b ∷ bs) = panicked
deserialize_rounds (suc fuel) prev_type items (b ∷ bs) = do
  (kvp, rest) ← deserialize_delta (b ∷ bs) prev_type
  deserialize_rounds fuel (get_type kvp) (items ++ kvp ∷ []) rest

unfoldable pub deserialize_kvp_list_until_empty : Bytes → Outcome (List KeyValuePair)
deserialize_kvp_list_until_empty bs = deserialize_rounds (length bs) 0 [] bs
