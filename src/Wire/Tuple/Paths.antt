-- ===== src/Wire/Tuple/Paths.antt =====
-- `from_utf8_path` and `to_utf8_path` of tuple.rs.
use moqtail.Prelude.{
  ◌≡◌, ◌≢◌, refl, sym, ap, ◌∙◌, List, [], ◌∷◌, ◌++◌, append-nil, append_assoc, false, arith,
}
use moqtail.Wire.Buffer.{Bytes}
use moqtail.Wire.Tuple.{
  Tuple, is_empty, split_path, add_parts, from_utf8_path, push_fields, to_utf8_path,
}

-- A field that a path can hold: some bytes, and no slash among them.
abbrev pub NoSlash : Bytes → Type 0
NoSlash [] = Unit {0}
NoSlash (b ∷ bs) = (b ≢ b'/') × NoSlash bs

abbrev pub IsPart : Bytes → Type 0
IsPart f = (is_empty f ≡ false) × NoSlash f

abbrev pub AllParts : Tuple → Type 0
AllParts [] = Unit {0}
AllParts (f ∷ fs) = IsPart f × AllParts fs

-- The fields, each behind a slash.
slashed : Tuple → Bytes
slashed [] = []
slashed (f ∷ fs) = b'/' ∷ (f ++ slashed fs)

split_path-append :
    (f : Bytes) (path w : Bytes) (ws : List Bytes)
    → NoSlash f
    → split_path path ≡ w ∷ ws
    → split_path (f ++ path) ≡ (f ++ w) ∷ ws
unfolding split_path
split_path-append [] path w ws h e = e
split_path-append (b ∷ f) path w ws h e = ground (arith, split_path-append f path w ws h.1 e)

split_path-slashed : (fs : Tuple) → AllParts fs → split_path (slashed fs) ≡ [] ∷ fs
unfolding slashed
split_path-slashed [] h = unfold split_path in refl
split_path-slashed (f ∷ fs) h =
    head (f ++ slashed fs)
    ∙ ap (λ l. [] ∷ l)
        (split_path-append f (slashed fs) [] fs h.0.1 (split_path-slashed fs h.1)
          ∙ ap (λ g. g ∷ fs) (append-nil f))
  where
    head : (path : Bytes) → split_path (b'/' ∷ path) ≡ [] ∷ split_path path
    head path = unfold split_path in refl

add_parts-append : (t parts : Tuple) → AllParts parts → add_parts t parts ≡ t ++ parts
unfolding add_parts
add_parts-append t [] h = sym (append-nil t)
add_parts-append t (f ∷ fs) h =
    rw (h.0.0) (add_parts-append (t ++ f ∷ []) fs h.1 ∙ append_assoc t (f ∷ []) fs)

module _ (from_utf8_lossy : Bytes → Bytes) where
  -- The fields are UTF-8, which `from_utf8_lossy` keeps.
  abbrev pub AllKept : Tuple → Type 0
  AllKept [] = Unit {0}
  AllKept (f ∷ fs) = (from_utf8_lossy f ≡ f) × AllKept fs

  push_fields-slashed :
      (fs : Tuple) (path : Bytes)
      → AllKept fs
      → push_fields from_utf8_lossy fs path ≡ path ++ slashed fs
  unfolding push_fields slashed
  push_fields-slashed [] path same = sym (append-nil path)
  push_fields-slashed (f ∷ fs) path same = rw (same.0) (
      push_fields-slashed fs ((path ++ b'/' ∷ []) ++ f) same.1
      ∙ append_assoc (path ++ b'/' ∷ []) f (slashed fs)
      ∙ append_assoc path (b'/' ∷ []) (f ++ slashed fs))

  -- A tuple of fields that `from_utf8_lossy` keeps, that are not empty and hold no slash, is read
  -- back from its path.
  from_utf8_path-to_utf8_path :
      (t : Tuple) → AllParts t → AllKept t → from_utf8_path (to_utf8_path from_utf8_lossy t) ≡ t
  unfolding from_utf8_path to_utf8_path add_parts
  from_utf8_path-to_utf8_path t h same =
      rw (push_fields-slashed t [] same, split_path-slashed t h)
        (unfold is_empty in add_parts-append [] t h)
