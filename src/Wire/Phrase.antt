-- ===== src/Wire/Phrase.antt =====
-- libs/moqtail-rs/src/model/common/reason_phrase.rs: a text of at most 1024 bytes. A Rust `String`
-- is its UTF-8 bytes.
use moqtail.Prelude.{
  ℕ, ◌^◌, ◌≤◌, ◌≡◌, ◌≢◌, refl, subst, Bool, true, [], ◌++◌, append_assoc, length, length-append,
  length-take, ltb, leb, lt→ltb, le→leb, if◌then◌else◌, arith,
}
use moqtail.Wire.Outcome.{
  Outcome, ok, err, panicked, not_enough_bytes, length_exceeds_max, invalid_utf8, guard,
  >>=-ne-panicked, >>=-eq-ok, ◌>>=◌, ◌>>◌,
}
use moqtail.Wire.Buffer.{Bytes, copy_to_bytes, to_usize, take-length_append, drop-length_append}
use moqtail.Wire.Varint.{get_vi, put_vi, vi}
use moqtail.Wire.Varint.RoundTrip.{get_vi-vi, put_vi-vi}
use moqtail.Wire.Varint.Decode.{get_vi-ne-panicked}

abbrev pub max_reason_phrase_len : ℕ
max_reason_phrase_len = 1024

pub record ReasonPhrase : Type 0 where
  pub phrase : Bytes

unfoldable pub try_new : Bytes → Outcome ReasonPhrase
try_new p =
    if ltb max_reason_phrase_len (length p)
    then err (length_exceeds_max max_reason_phrase_len (length p))
    else ok (record { phrase = p })

unfoldable pub serialize : ReasonPhrase → Outcome Bytes
serialize r = do buf ← put_vi [] (length r.phrase); ok (buf ++ r.phrase)

-- `is_utf8` is the test of `String::from_utf8`.
module _ (is_utf8 : Bytes → Bool) where
  unfoldable pub deserialize : Bytes → Outcome (ReasonPhrase × Bytes)
  deserialize bs = do
    (len_u64, bs₁) ← get_vi bs
    len ← to_usize len_u64
    guard (leb len max_reason_phrase_len) (length_exceeds_max max_reason_phrase_len len)
    guard (leb len (length bs₁)) (not_enough_bytes len (length bs₁))
    (raw, bs₂) ← copy_to_bytes bs₁ len
    guard (is_utf8 raw) invalid_utf8
    ok (record { phrase = raw }, bs₂)

  deserialize-phrase_bytes :
      (p rest : Bytes)
      → is_utf8 p ≡ true
      → length p ≤ max_reason_phrase_len
      → deserialize ((vi (length p) ++ p) ++ rest) ≡ ok (record { phrase = p }, rest)
  unfolding deserialize
  deserialize-phrase_bytes p rest utf8 h =
      rw
        (
          append_assoc (vi (length p)) p rest,
          get_vi-vi (length p) (p ++ rest) (omega arith),
          lt→ltb (length p) (2 ^ 64) (omega arith),
          le→leb (length p) max_reason_phrase_len h,
          le→leb (length p) (length (p ++ rest)) fits,
          take-length_append,
          drop-length_append,
          utf8,
        )
        refl
    where
      fits : length p ≤ length (p ++ rest)
      fits = omega (arith, length-append p rest)

  -- A UTF-8 phrase that `try_new` accepts is written, and reads back, whatever follows it.
  deserialize-serialize_phrase :
      (p rest : Bytes) (r : ReasonPhrase)
      → is_utf8 p ≡ true
      → try_new p ≡ ok r
      → (serialize r >>= λ e. deserialize (e ++ rest)) ≡ ok (r, rest)
  unfolding serialize
  deserialize-serialize_phrase p rest r utf8 e =
      subst (λ q. (serialize q >>= λ b. deserialize (b ++ rest)) ≡ ok (q, rest)) same
        (rw (put_vi-vi [] (length p) (omega (arith, fits)))
          (deserialize-phrase_bytes p rest utf8 fits))
    where
      fits : length p ≤ max_reason_phrase_len
      fits = unfold try_new in ground arith

      same : record { phrase = p } ≡ r
      same = unfold try_new in ground arith

  -- A phrase that was read is UTF-8 of at most 1024 bytes.
  pub deserialize_phrase_bounds :
      (bs rest : Bytes) (r : ReasonPhrase)
      → deserialize bs ≡ ok (r, rest)
      → (is_utf8 r.phrase ≡ true) × (length r.phrase ≤ max_reason_phrase_len)
  unfolding deserialize
  deserialize_phrase_bounds bs rest r e =
      let ((len, bs₁), read, e₁) = >>=-eq-ok (get_vi bs) _ e in ground (arith, length-take len bs₁)

  -- Reading a phrase never panics.
  pub deserialize-ne-panicked_phrase : (bs : Bytes) → deserialize bs ≢ panicked
  unfolding deserialize
  deserialize-ne-panicked_phrase bs =
      >>=-ne-panicked (get_vi bs) _ (get_vi-ne-panicked bs) (λ p e. ground arith)
