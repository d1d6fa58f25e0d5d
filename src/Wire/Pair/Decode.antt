-- ===== src/Wire/Pair/Decode.antt =====
-- The readers of pair.rs on any bytes, well formed or not.
use moqtail.Prelude.{
  ℕ, zero, suc, ◌+◌, ◌*◌, ◌%◌, ◌^◌, ◌<◌, ◌≤◌, ◌≡◌, ◌≢◌, ◌↔◌, ◌-◌, ltb, refl, List, [], ◌∷◌, ◌++◌,
  length, length-drop, length-take, ◌==◌, Bool-cases, inl, inr, arith,
}
use moqtail.Wire.Outcome.{ok, panicked, >>=-ne-panicked, >>=-eq-ok}
use moqtail.Wire.Buffer.{Bytes, AllBytes, AllBytes-drop, IsU64}
use moqtail.Wire.Varint.{get_vi}
use moqtail.Wire.Varint.Decode.{get_vi-ne-panicked, get_vi_takes, get_vi_shorter}
use moqtail.Wire.Pair.{
  KeyValuePair, get_type, deserialize_bytes_value, deserialize_value, deserialize_delta,
  deserialize_count, deserialize_kvp_list, deserialize_rounds, deserialize_kvp_list_until_empty,
}
use moqtail.Wire.Pair.RoundTrip.{IsValid}

-- What a reader of a pair of type `t` promises of its input and its answer.
abbrev pub Reads : Bytes → KeyValuePair → Bytes → Type 0
Reads bs kvp rest = IsValid kvp × AllBytes rest × (length rest < length bs)

deserialize_bytes_value-ne-panicked : (bs : Bytes) (t : ℕ) → deserialize_bytes_value bs t ≢ panicked
unfolding deserialize_bytes_value
deserialize_bytes_value-ne-panicked bs t =
    >>=-ne-panicked (get_vi bs) _ (get_vi-ne-panicked bs) (λ p e. ground arith)

deserialize_bytes_value-Reads :
    (bs : Bytes) (t : ℕ) (kvp : KeyValuePair) (rest : Bytes)
    → AllBytes bs
    → IsU64 t
    → t % 2 ≡ 1
    → deserialize_bytes_value bs t ≡ ok (kvp, rest)
    → (get_type kvp ≡ t) × Reads bs kvp rest
unfolding deserialize_bytes_value
deserialize_bytes_value-Reads bs t kvp rest hb ht odd e =
    let ((len, bs₁), r, e₁) = >>=-eq-ok (get_vi bs) _ e in
    ground (
      arith,
      get_vi_takes bs len bs₁ hb r,
      length-drop len bs₁,
      length-take len bs₁,
      AllBytes-drop len bs₁,
    )

deserialize_value-ne-panicked : (bs : Bytes) (t : ℕ) → deserialize_value bs t ≢ panicked
unfolding deserialize_value
deserialize_value-ne-panicked bs t =
    ground (arith, get_vi-ne-panicked bs, deserialize_bytes_value-ne-panicked bs t)

-- Reading one pair never panics.
pub deserialize_delta-ne-panicked : (bs : Bytes) (prev : ℕ) → deserialize_delta bs prev ≢ panicked
unfolding deserialize_delta
deserialize_delta-ne-panicked bs prev =
    >>=-ne-panicked (get_vi bs) _ (get_vi-ne-panicked bs)
      (λ p e. ground (arith, deserialize_value-ne-panicked p.1 (prev + p.0)))

deserialize_value-Reads :
    (bs : Bytes) (t : ℕ) (kvp : KeyValuePair) (rest : Bytes)
    → AllBytes bs
    → IsU64 t
    → deserialize_value bs t ≡ ok (kvp, rest)
    → (get_type kvp ≡ t) × Reads bs kvp rest
unfolding deserialize_value
deserialize_value-Reads bs t kvp rest hb ht e = elim (Bool-cases (t % 2 == 0)) [
  | inl even ↦
      let ((v, bs₁), r, e₁) = >>=-eq-ok (get_vi bs) _ (rw even at e) in
      ground (arith, get_vi_takes bs v bs₁ hb r)
  | inr odd ↦ deserialize_bytes_value-Reads bs t kvp rest hb ht (ground arith) (rw odd at e)
]

-- A pair that `deserialize_delta` reads from bytes has a u64 type of at least `prev`, a value of
-- the form that the parity of its type says and within the limits, and took at least one byte.
pub deserialize_delta-Reads :
    (bs : Bytes) (prev : ℕ) (kvp : KeyValuePair) (rest : Bytes)
    → AllBytes bs
    → deserialize_delta bs prev ≡ ok (kvp, rest)
    → (prev ≤ get_type kvp) × Reads bs kvp rest
unfolding deserialize_delta
deserialize_delta-Reads bs prev kvp rest hb e =
    let ((d, bs₁), r, e₁) = >>=-eq-ok (get_vi bs) _ e in
    let (u64, hb₁, least, most, fewer) = get_vi_takes bs d bs₁ hb r in
    ground (arith, deserialize_value-Reads bs₁ (prev + d) kvp rest hb₁)

deserialize_bytes_value_shorter :
    (bs : Bytes) (t : ℕ) (kvp : KeyValuePair) (rest : Bytes)
    → deserialize_bytes_value bs t ≡ ok (kvp, rest)
    → length rest ≤ length bs
unfolding deserialize_bytes_value
deserialize_bytes_value_shorter bs t kvp rest e =
    let ((len, bs₁), r, e₁) = >>=-eq-ok (get_vi bs) _ e in
    ground (arith, get_vi_shorter bs len bs₁ r, length-drop len bs₁)

deserialize_value_shorter :
    (bs : Bytes) (t : ℕ) (kvp : KeyValuePair) (rest : Bytes)
    → deserialize_value bs t ≡ ok (kvp, rest)
    → length rest ≤ length bs
unfolding deserialize_value
deserialize_value_shorter bs t kvp rest e = elim (Bool-cases (t % 2 == 0)) [
  | inl even ↦
      let ((v, bs₁), r, e₁) = >>=-eq-ok (get_vi bs) _ (rw even at e) in
      ground (arith, get_vi_shorter bs v bs₁ r)
  | inr odd ↦ deserialize_bytes_value_shorter bs t kvp rest (rw odd at e)
]

deserialize_delta_shorter :
    (bs : Bytes) (prev : ℕ) (kvp : KeyValuePair) (rest : Bytes)
    → deserialize_delta bs prev ≡ ok (kvp, rest)
    → length rest < length bs
unfolding deserialize_delta
deserialize_delta_shorter bs prev kvp rest e =
    let ((d, bs₁), r, e₁) = >>=-eq-ok (get_vi bs) _ e in
    ground (arith, get_vi_shorter bs d bs₁ r, deserialize_value_shorter bs₁ (prev + d) kvp rest)

deserialize_rounds-ne-panicked :
    (fuel prev : ℕ) (items : List KeyValuePair) (bs : Bytes)
    → length bs ≤ fuel
    → deserialize_rounds fuel prev items bs ≢ panicked
unfolding deserialize_rounds
deserialize_rounds-ne-panicked fuel prev items [] h = λ e. cc
deserialize_rounds-ne-panicked zero prev items (b ∷ bs) h = absurd (omega arith)
deserialize_rounds-ne-panicked (suc fuel) prev items (b ∷ bs) h =
    >>=-ne-panicked (deserialize_delta (b ∷ bs) prev) _
      (deserialize_delta-ne-panicked (b ∷ bs) prev)
      λ p e.
        let fewer = deserialize_delta_shorter (b ∷ bs) prev p.0 p.1 e in
        deserialize_rounds-ne-panicked fuel (get_type p.0) (items ++ p.0 ∷ []) p.1 (omega arith)

-- `deserialize_kvp_list_until_empty` returns a list or an error on all bytes: it neither panics
-- nor runs out of the rounds it is given.
pub until_empty-ne-panicked : (bs : Bytes) → deserialize_kvp_list_until_empty bs ≢ panicked
unfolding deserialize_kvp_list_until_empty
until_empty-ne-panicked bs = deserialize_rounds-ne-panicked (length bs) 0 [] bs (omega arith)

deserialize_count-ne-panicked :
    (count prev : ℕ) (items : List KeyValuePair) (bs : Bytes)
    → deserialize_count count prev items bs ≢ panicked
unfolding deserialize_count
deserialize_count-ne-panicked zero prev items bs = λ e. cc
deserialize_count-ne-panicked (suc count) prev items bs =
    >>=-ne-panicked (deserialize_delta bs prev) _ (deserialize_delta-ne-panicked bs prev)
      λ p e. deserialize_count-ne-panicked count (get_type p.0) (items ++ p.0 ∷ []) p.1

-- On all bytes, `deserialize_kvp_list` panics exactly on the counts whose pairs would take 2^63
-- bytes or more in memory: any other call returns a list or an error.
pub deserialize_kvp_list-eq-panicked :
    (pair_size : ℕ) (bs : Bytes) (count : ℕ)
    → (deserialize_kvp_list pair_size bs count ≡ panicked) ↔ (2 ^ 63 ≤ count * pair_size)
unfolding deserialize_kvp_list
deserialize_kvp_list-eq-panicked pair_size bs count =
    elim (Bool-cases (ltb (2 ^ 63 - 1) (count * pair_size))) [
      | inl e ↦ rw e ((λ h. ground arith), λ h. refl)
      | inr e ↦ rw e (
        (λ h. absurd (deserialize_count-ne-panicked count 0 [] bs h)),
        λ h. absurd (ground arith),
      )
    ]
