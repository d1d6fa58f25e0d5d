-- ===== src/Tests/Wire.antt =====
-- The theorems about the wire formats at concrete inputs.
use moqtail.Prelude.{
  ◌↔◌, ◌*◌, ℕ, ◌+◌, ◌^◌, ◌<◌, ◌≤◌, ◌≡◌, ◌≢◌, refl, List, [], ◌∷◌, ◌++◌, length, arith,
}
use mathlib.Core.List.{Perm}
use moqtail.Wire.Outcome.{ok, err, panicked, not_enough_bytes, ◌>>=◌}
use moqtail.Wire.Buffer.{IsU64, AllBytes, AllBytes-append}
use moqtail.Wire.Varint.{
  get_vi, put_vi, vi, vi_bytes, minimal_vi_length, to_be_bytes, write_low, mark_length,
}
use moqtail.Wire.Varint.RoundTrip.{get_vi-vi, get_vi-put_vi, vi-AllBytes}
use moqtail.Wire.Varint.Decode.{get_vi_takes}
use moqtail.Wire.Varint.Truncated.{get_vi_truncated, get_vi-append}
use moqtail.Wire.Pair
use moqtail.Wire.Pair.{KeyValuePair, var_int, bytes}
use moqtail.Wire.Pair.RoundTrip.{
  pair_bytes, deserialize_delta-pair_bytes, deserialize_delta-serialize_delta,
}
use moqtail.Wire.Pair.Decode.{
  Reads, deserialize_delta-Reads, until_empty-ne-panicked, deserialize_kvp_list-eq-panicked,
}
use moqtail.Wire.Pair.Lists.{
  Ascending, until_empty-serialize_kvp_list, deserialize_kvp_list-serialize_kvp_list,
}
use moqtail.Wire.Tuple
use moqtail.Wire.Tuple.RoundTrip.{deserialize-serialize_tuple}

get_vi-put_vi_example : (put_vi [] 300 >>= λ e. get_vi (e ++ 7 ∷ [])) ≡ ok (300, 7 ∷ [])
get_vi-put_vi_example = get_vi-put_vi 300 (7 ∷ []) (omega arith)

get_vi_takes_example :
    IsU64 300
    × AllBytes (7 ∷ [])
    × (1 + length (vi 300) ≤ length (vi 300 ++ 7 ∷ []))
    × (length (vi 300 ++ 7 ∷ []) ≤ 10)
    × (1 < length (vi 300 ++ 7 ∷ []))
get_vi_takes_example =
    get_vi_takes (vi 300 ++ 7 ∷ []) 300 (7 ∷ [])
      (AllBytes-append (vi 300) (7 ∷ []) (vi-AllBytes 300 (omega arith)) (omega arith, tt))
      (get_vi-vi 300 (7 ∷ []) (omega arith))

get_vi-append_example : get_vi ((vi 300 ++ 7 ∷ []) ++ 8 ∷ []) ≡ ok (300, 7 ∷ 8 ∷ [])
get_vi-append_example =
    get_vi-append (vi 300 ++ 7 ∷ []) (8 ∷ []) 300 (7 ∷ []) (get_vi-vi 300 (7 ∷ []) (omega arith))

deserialize_delta-serialize_delta_example :
    (Pair.serialize_delta (bytes 5 (1 ∷ 2 ∷ [])) 3 >>= λ e. Pair.deserialize_delta (e ++ 9 ∷ []) 3)
    ≡ ok (bytes 5 (1 ∷ 2 ∷ []), 9 ∷ [])
deserialize_delta-serialize_delta_example =
    deserialize_delta-serialize_delta (bytes 5 (1 ∷ 2 ∷ [])) 3 (9 ∷ [])
      (omega arith, refl, omega arith) (omega arith)

abbrev two_pairs : List KeyValuePair
two_pairs = bytes 5 (1 ∷ 2 ∷ []) ∷ var_int 2 40 ∷ []

until_empty-serialize_kvp_list_example :
    ((Pair.serialize_kvp_list two_pairs >>= λ e. Pair.deserialize_kvp_list_until_empty e)
      ≡ ok (Pair.sort_by_type two_pairs))
    × Perm (Pair.sort_by_type two_pairs) two_pairs
    × Ascending 0 (Pair.sort_by_type two_pairs)
until_empty-serialize_kvp_list_example =
    until_empty-serialize_kvp_list two_pairs
      ((omega arith, refl, omega arith), ((omega arith, refl, omega arith), tt))

deserialize_kvp_list-serialize_kvp_list_example :
    (Pair.serialize_kvp_list two_pairs >>= λ e.
    Pair.deserialize_kvp_list 40 (e ++ 9 ∷ []) (length (Pair.sort_by_type two_pairs)))
    ≡ ok (Pair.sort_by_type two_pairs, 9 ∷ [])
unfolding Pair.sort_by_type Pair.insert_by_type
deserialize_kvp_list-serialize_kvp_list_example =
    deserialize_kvp_list-serialize_kvp_list 40 two_pairs (9 ∷ [])
      ((omega arith, refl, omega arith), ((omega arith, refl, omega arith), tt)) (omega arith)

deserialize_delta-Reads_example :
    (3 ≤ 5) × Reads (pair_bytes (bytes 5 (1 ∷ [])) 3 ++ 9 ∷ []) (bytes 5 (1 ∷ [])) (9 ∷ [])
unfolding pair_bytes vi vi_bytes minimal_vi_length to_be_bytes write_low mark_length
deserialize_delta-Reads_example =
    deserialize_delta-Reads (pair_bytes (bytes 5 (1 ∷ [])) 3 ++ 9 ∷ []) 3 (bytes 5 (1 ∷ []))
      (9 ∷ []) (omega arith, (omega arith, (omega arith, (omega arith, tt))))
      (deserialize_delta-pair_bytes (bytes 5 (1 ∷ [])) 3 (9 ∷ []) (omega arith, refl, omega arith)
        (omega arith))

until_empty-ne-panicked_example :
    Pair.deserialize_kvp_list_until_empty (5 ∷ 200 ∷ 1 ∷ []) ≢ panicked
until_empty-ne-panicked_example = until_empty-ne-panicked (5 ∷ 200 ∷ 1 ∷ [])

deserialize_kvp_list-eq-panicked_example :
    (Pair.deserialize_kvp_list 40 (1 ∷ []) (2 ^ 62) ≡ panicked) ↔ (2 ^ 63 ≤ 2 ^ 62 * 40)
deserialize_kvp_list-eq-panicked_example = deserialize_kvp_list-eq-panicked 40 (1 ∷ []) (2 ^ 62)

abbrev two_fields : Tuple.Tuple
two_fields = (97 ∷ 98 ∷ []) ∷ (99 ∷ []) ∷ []

deserialize-serialize_tuple_example :
    (Tuple.serialize two_fields >>= λ e. Tuple.deserialize (e ++ 9 ∷ [])) ≡ ok (two_fields, 9 ∷ [])
deserialize-serialize_tuple_example =
    deserialize-serialize_tuple two_fields (9 ∷ []) (omega arith, (omega arith, (omega arith, tt)))

get_vi_truncated_example :
    (needed : ℕ) × (get_vi (129 ∷ []) ≡ err (not_enough_bytes needed 1)) × (1 < needed)
unfolding vi vi_bytes minimal_vi_length to_be_bytes write_low mark_length
get_vi_truncated_example = get_vi_truncated 300 44 (129 ∷ []) [] (omega arith) refl
