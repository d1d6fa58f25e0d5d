-- ===== src/Wire/Tuple/RoundTrip.antt =====
-- `serialize` and `deserialize` of tuple.rs.
use moqtail.Prelude.{
  ℕ, zero, suc, ◌^◌, ◌≤◌, ◌≡◌, ◌≢◌, refl, sym, ap, ◌∙◌, List, [], ◌∷◌, ◌++◌, append-nil,
  append_assoc, length, length-append, le→leb, lt→ltb, arith,
}
use moqtail.Wire.Outcome.{ok, panicked, >>=-ne-panicked, >>=-eq-ok, ◌>>=◌}
use moqtail.Wire.Buffer.{Bytes, IsU64, take-length_append, drop-length_append}
use moqtail.Wire.Varint.{get_vi, put_vi, vi}
use moqtail.Wire.Varint.RoundTrip.{get_vi-vi, put_vi-vi, put_vi-IsU64}
use moqtail.Wire.Varint.Decode.{get_vi-ne-panicked}
use moqtail.Wire.Tuple.{
  TupleField, Tuple, serialize_field, deserialize_field, serialize_fields, serialize,
  deserialize_fields, deserialize,
}

-- Lengths are `usize` values in Rust.
abbrev pub AllShort : List TupleField → Type 0
AllShort [] = Unit {0}
AllShort (f ∷ fs) = IsU64 (length f) × AllShort fs

abbrev pub Representable : Tuple → Type 0
Representable t = IsU64 (length t) × AllShort t

field_bytes : TupleField → Bytes
field_bytes f = vi (length f) ++ f

fields_bytes : List TupleField → Bytes
fields_bytes [] = []
fields_bytes (f ∷ fs) = field_bytes f ++ fields_bytes fs

deserialize_field-field_bytes :
    (f : TupleField) (rest : Bytes)
    → IsU64 (length f)
    → deserialize_field (field_bytes f ++ rest) ≡ ok (f, rest)
unfolding deserialize_field field_bytes
deserialize_field-field_bytes f rest h =
    rw
      (
        append_assoc (vi (length f)) f rest,
        get_vi-vi (length f) (f ++ rest) h,
        lt→ltb (length f) (2 ^ 64) h,
        le→leb (length f) (length (f ++ rest)) fits,
        take-length_append,
        drop-length_append,
      )
      refl
  where
    fits : length f ≤ length (f ++ rest)
    fits = omega (arith, length-append f rest)

serialize_fields-eq :
    (fs : List TupleField) (buf : Bytes)
    → AllShort fs
    → serialize_fields fs buf ≡ ok (buf ++ fields_bytes fs)
unfolding serialize_fields serialize_field fields_bytes field_bytes
serialize_fields-eq [] buf h = ap ok (sym (append-nil buf))
serialize_fields-eq (f ∷ fs) buf h = rw (put_vi-vi [] (length f) h.0) (
    serialize_fields-eq fs (buf ++ (vi (length f) ++ f)) h.1
    ∙ ap ok (append_assoc buf (vi (length f) ++ f) (fields_bytes fs)))

deserialize_fields-fields_bytes :
    (fs fields : List TupleField) (rest : Bytes)
    → AllShort fs
    → deserialize_fields (length fs) fields (fields_bytes fs ++ rest) ≡ ok (fields ++ fs, rest)
unfolding deserialize_fields fields_bytes
deserialize_fields-fields_bytes [] fields rest h = rw append-nil
deserialize_fields-fields_bytes (f ∷ fs) fields rest h =
    rw
      (
        append_assoc (field_bytes f) (fields_bytes fs) rest,
        deserialize_field-field_bytes f (fields_bytes fs ++ rest) h.0,
      )
      (deserialize_fields-fields_bytes fs (fields ++ f ∷ []) rest h.1
        ∙ ap (λ l. ok (l, rest)) (append_assoc fields (f ∷ []) fs))

pub tuple_bytes : Tuple → Bytes
tuple_bytes t = vi (length t) ++ fields_bytes t

pub serialize-tuple_bytes : (t : Tuple) → Representable t → serialize t ≡ ok (tuple_bytes t)
unfolding serialize tuple_bytes
serialize-tuple_bytes t (hn, h) =
    rw (put_vi-vi [] (length t) hn) (serialize_fields-eq t (vi (length t)) h)

pub deserialize-tuple_bytes :
    (t : Tuple) (rest : Bytes)
    → Representable t
    → deserialize (tuple_bytes t ++ rest) ≡ ok (t, rest)
unfolding deserialize tuple_bytes
deserialize-tuple_bytes t rest (hn, h) =
    rw
      (
        append_assoc (vi (length t)) (fields_bytes t) rest,
        get_vi-vi (length t) (fields_bytes t ++ rest) hn,
        lt→ltb (length t) (2 ^ 64) hn,
      )
      (deserialize_fields-fields_bytes t [] rest h)

serialize_fields-AllShort :
    (fs : List TupleField) (buf out : Bytes) → serialize_fields fs buf ≡ ok out → AllShort fs
unfolding serialize_fields serialize_field
serialize_fields-AllShort [] buf out e = tt
serialize_fields-AllShort (f ∷ fs) buf out e =
    let (first, e₁, e₂) = >>=-eq-ok (serialize_field f) _ e in
    let (head, e₃, e₄) = >>=-eq-ok (put_vi [] (length f)) _ e₁ in
    (put_vi-IsU64 [] (length f) head e₃, serialize_fields-AllShort fs _ out e₂)

-- A tuple that `serialize` writes has u64 lengths.
pub serialize-Representable : (t : Tuple) (out : Bytes) → serialize t ≡ ok out → Representable t
unfolding serialize
serialize-Representable t out e =
    let (head, e₁, e₂) = >>=-eq-ok (put_vi [] (length t)) _ e in
    (put_vi-IsU64 [] (length t) head e₁, serialize_fields-AllShort t head out e₂)

-- A tuple with u64 lengths is written, and reads back, whatever follows it.
pub deserialize-serialize_tuple :
    (t : Tuple) (rest : Bytes)
    → Representable t
    → (serialize t >>= λ e. deserialize (e ++ rest)) ≡ ok (t, rest)
deserialize-serialize_tuple t rest h =
    rw (serialize-tuple_bytes t h) (deserialize-tuple_bytes t rest h)

deserialize_field-ne-panicked : (bs : Bytes) → deserialize_field bs ≢ panicked
unfolding deserialize_field
deserialize_field-ne-panicked bs =
    >>=-ne-panicked (get_vi bs) _ (get_vi-ne-panicked bs) (λ p e. ground arith)

deserialize_fields-ne-panicked :
    (count : ℕ) (fields : List TupleField) (bs : Bytes)
    → deserialize_fields count fields bs ≢ panicked
unfolding deserialize_fields
deserialize_fields-ne-panicked zero fields bs = λ e. cc
deserialize_fields-ne-panicked (suc count) fields bs =
    >>=-ne-panicked (deserialize_field bs) _ (deserialize_field-ne-panicked bs)
      (λ p e. deserialize_fields-ne-panicked count (fields ++ p.0 ∷ []) p.1)

-- Reading a tuple never panics, whatever the bytes.
pub deserialize-ne-panicked_tuple : (bs : Bytes) → deserialize bs ≢ panicked
unfolding deserialize
deserialize-ne-panicked_tuple bs =
    >>=-ne-panicked (get_vi bs) _ (get_vi-ne-panicked bs)
      (λ p e. ground (arith, deserialize_fields-ne-panicked p.0 [] p.1))
