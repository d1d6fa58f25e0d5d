-- ===== src/Filter/Range/Wire/RoundTrip.antt =====
-- Writing and reading the Range Filters of range_filter.rs.
use moqtail.Prelude.{
  ℕ, zero, suc, ◌<◌, ◌≤◌, ◌≡◌, ◌≢◌, refl, ap, sym, subst, Bool-cases, inl, inr, ◌∙◌, [], ◌∷◌, ◌++◌,
  append-nil, append_assoc, length, length-append, Bool, true, false, Option, none, some, arith,
}
use moqtail.Wire.Outcome.{ok, panicked, >>=-ne-panicked, >>=-eq-ok, ◌>>=◌}
use moqtail.Wire.Buffer.{Bytes, AllBytes, IsU64}
use moqtail.Wire.Varint.{get_vi, vi}
use moqtail.Wire.Varint.RoundTrip.{get_vi-vi, put_vi-vi, length-vi_pos}
use moqtail.Wire.Varint.Decode.{get_vi-ne-panicked, get_vi_takes}
use moqtail.Filter.Range.Wire.{
  Deltas, put_property_type, put_deltas, serialize, get_property_type, get_end, get_deltas,
  deserialize,
}
use moqtail.Filter.Range.{has_property_type, RangeFilter}
use moqtail.Filter.Range.Checks.{RangeFilterKind}

-- u64s, and no End left off but the last.
abbrev AllEncodable : Deltas → Type 0
AllEncodable [] = Unit {0}
AllEncodable ((start, some e) ∷ rest) = IsU64 start × IsU64 e × AllEncodable rest
AllEncodable ((start, none) ∷ []) = IsU64 start
AllEncodable ((start, none) ∷ d ∷ rest) = ⊥

abbrev HasPropertyType : Bool → Option ℕ → Type 0
HasPropertyType true (some p) = IsU64 p
HasPropertyType true none = ⊥
HasPropertyType false none = Unit {0}
HasPropertyType false (some p) = ⊥

-- A filter of this kind that the wire can carry.
abbrev pub IsEncodable : RangeFilterKind → RangeFilter → Type 0
IsEncodable kind f =
    HasPropertyType (has_property_type kind) f.property_type × AllEncodable f.deltas

delta_bytes : Deltas → Bytes
delta_bytes [] = []
delta_bytes ((start, some e) ∷ rest) = vi start ++ (vi e ++ delta_bytes rest)
delta_bytes ((start, none) ∷ rest) = vi start ++ delta_bytes rest

put_deltas-eq :
    (ds : Deltas) (buf : Bytes) → AllEncodable ds → put_deltas ds buf ≡ ok (buf ++ delta_bytes ds)
unfolding put_deltas delta_bytes
put_deltas-eq [] buf h = ap ok (sym (append-nil buf))
put_deltas-eq ((start, some e) ∷ rest) buf (hs, he, h) =
    rw (put_vi-vi buf start hs, put_vi-vi (buf ++ vi start) e he)
      (put_deltas-eq rest ((buf ++ vi start) ++ vi e) h
        ∙ ap ok (
            append_assoc (buf ++ vi start) (vi e) (delta_bytes rest)
            ∙ append_assoc buf (vi start) (vi e ++ delta_bytes rest)))
put_deltas-eq ((start, none) ∷ []) buf h =
    rw (put_vi-vi buf start h) (ap ok (ap (λ l. buf ++ l) (sym (append-nil (vi start)))))
put_deltas-eq ((start, none) ∷ d ∷ rest) buf h = absurd h

get_deltas_step :
    (fuel start : ℕ) (deltas : Deltas) (bs rest : Bytes)
    → get_vi bs ≡ ok (start, rest)
    → get_deltas (suc fuel) deltas bs
      ≡ (get_end rest >>= λ q. get_deltas fuel (deltas ++ (start, q.0) ∷ []) q.1)
unfolding get_deltas
get_deltas_step fuel start deltas [] rest e = unfold get_vi in cc
get_deltas_step fuel start deltas (b ∷ bs) rest e = rw e

get_end-vi : (e : ℕ) (rest : Bytes) → IsU64 e → get_end (vi e ++ rest) ≡ ok (some e, rest)
get_end-vi e rest h = go (vi e ++ rest) (get_vi-vi e rest h)
  where
    go : (bs : Bytes) → get_vi bs ≡ ok (e, rest) → get_end bs ≡ ok (some e, rest)
    go [] r = unfold get_vi in cc
    go (b ∷ bs) r = unfold get_end in rw r

length-delta_bytes : (v : ℕ) (rest : Bytes) → IsU64 v → length rest < length (vi v ++ rest)
length-delta_bytes v rest h = omega (arith, length-append (vi v) rest, length-vi_pos v h)

get_deltas-delta_bytes :
    (ds deltas : Deltas) (fuel : ℕ)
    → AllEncodable ds
    → length (delta_bytes ds) ≤ fuel
    → get_deltas fuel deltas (delta_bytes ds) ≡ ok (deltas ++ ds)
unfolding delta_bytes
get_deltas-delta_bytes [] deltas fuel h f = rw append-nil (unfold get_deltas in refl)
get_deltas-delta_bytes ((start, some e) ∷ rest) deltas zero (hs, he, h) f =
    absurd (omega (arith, length-delta_bytes start (vi e ++ delta_bytes rest) hs, f))
get_deltas-delta_bytes ((start, some e) ∷ rest) deltas (suc fuel) (hs, he, h) f =
    get_deltas_step fuel start deltas _ _ (get_vi-vi start (vi e ++ delta_bytes rest) hs)
    ∙ rw (get_end-vi e (delta_bytes rest) he) (
        get_deltas-delta_bytes rest (deltas ++ (start, some e) ∷ []) fuel h (
          omega (
            arith,
            length-delta_bytes start (vi e ++ delta_bytes rest) hs,
            length-append (vi e) (delta_bytes rest),
            f,
          ))
        ∙ ap ok (append_assoc deltas ((start, some e) ∷ []) rest))
get_deltas-delta_bytes ((start, none) ∷ []) deltas zero h f =
    absurd (omega (arith, length-delta_bytes start [] h, f))
get_deltas-delta_bytes ((start, none) ∷ []) deltas (suc fuel) h f =
    get_deltas_step fuel start deltas _ [] (get_vi-vi start [] h)
    ∙ (unfold get_deltas get_end in refl)
get_deltas-delta_bytes ((start, none) ∷ d ∷ rest) deltas fuel h f = absurd h

property_bytes : Option ℕ → Bytes
property_bytes none = []
property_bytes (some p) = vi p

put_property_type-eq :
    (b : Bool) (p : Option ℕ) (buf : Bytes)
    → HasPropertyType b p
    → put_property_type buf p ≡ ok (buf ++ property_bytes p)
unfolding put_property_type property_bytes
put_property_type-eq b none buf h = ap ok (sym (append-nil buf))
put_property_type-eq true (some p) buf h = put_vi-vi buf p h
put_property_type-eq false (some p) buf h = absurd h

get_property_type-eq :
    (kind : RangeFilterKind) (b : Bool) (p : Option ℕ) (rest : Bytes)
    → has_property_type kind ≡ b
    → HasPropertyType b p
    → get_property_type kind (property_bytes p ++ rest) ≡ ok (p, rest)
unfolding get_property_type property_bytes
get_property_type-eq kind true none rest e h = absurd h
get_property_type-eq kind true (some p) rest e h = rw (e, get_vi-vi p rest h)
get_property_type-eq kind false none rest e h = rw e
get_property_type-eq kind false (some p) rest e h = absurd h

-- A Range Filter of u64s, with a Property Type exactly where its kind has one and no End left off
-- but the last, is written, and reads back.
pub deserialize-serialize_range_filter :
    (kind : RangeFilterKind) (f : RangeFilter)
    → IsEncodable kind f
    → (serialize f >>= λ e. deserialize kind e) ≡ ok f
unfolding serialize deserialize
deserialize-serialize_range_filter kind f (hp, hd) =
    let b = has_property_type kind in
    rw
      (
        put_property_type-eq b f.property_type (f.set_id ∷ []) hp,
        put_deltas-eq f.deltas (f.set_id ∷ property_bytes f.property_type) hd,
        get_property_type-eq kind b f.property_type (delta_bytes f.deltas) refl hp,
        get_deltas-delta_bytes f.deltas [] (length (delta_bytes f.deltas)) hd (omega arith),
      )
      refl

get_property_type-ne-panicked :
    (kind : RangeFilterKind) (bs : Bytes) → get_property_type kind bs ≢ panicked
unfolding get_property_type
get_property_type-ne-panicked kind bs = ground (arith, get_vi-ne-panicked bs)

get_property_type_takes :
    (kind : RangeFilterKind) (bs rest : Bytes) (p : Option ℕ)
    → AllBytes bs
    → get_property_type kind bs ≡ ok (p, rest)
    → AllBytes rest
unfolding get_property_type
get_property_type_takes kind bs rest p hb r = elim (Bool-cases (has_property_type kind)) [
  | inl has ↦
      let ((v, bs₁), r₁, r₂) = >>=-eq-ok (get_vi bs) _ (rw has at r) in
      subst AllBytes (ground arith) (get_vi_takes bs v bs₁ hb r₁).1
  | inr has ↦ subst AllBytes (ground arith) hb
]

get_end_takes :
    (bs rest : Bytes) (e : Option ℕ)
    → AllBytes bs
    → get_end bs ≡ ok (e, rest)
    → AllBytes rest × (length rest ≤ length bs)
unfolding get_end
get_end_takes [] rest e hb r = ground arith
get_end_takes (b ∷ bs) rest e hb r =
    let ((v, bs₁), r₁, r₂) = >>=-eq-ok (get_vi (b ∷ bs)) _ r in
    ground (arith, get_vi_takes (b ∷ bs) v bs₁ hb r₁)

get_end-ne-panicked : (bs : Bytes) → get_end bs ≢ panicked
unfolding get_end
get_end-ne-panicked [] = λ x. cc
get_end-ne-panicked (b ∷ bs) = ground (arith, get_vi-ne-panicked (b ∷ bs))

get_deltas-ne-panicked :
    (fuel : ℕ) (deltas : Deltas) (bs : Bytes)
    → AllBytes bs
    → length bs ≤ fuel
    → get_deltas fuel deltas bs ≢ panicked
unfolding get_deltas
get_deltas-ne-panicked fuel deltas [] hb h = λ x. cc
get_deltas-ne-panicked zero deltas (b ∷ bs) hb h = absurd (omega arith)
get_deltas-ne-panicked (suc fuel) deltas (b ∷ bs) hb h =
    >>=-ne-panicked (get_vi (b ∷ bs)) _ (get_vi-ne-panicked (b ∷ bs)) λ p r.
      let (u64, hb₁, least, most, fewer) = get_vi_takes (b ∷ bs) p.0 p.1 hb r in
      >>=-ne-panicked (get_end p.1) _ (get_end-ne-panicked p.1) λ q r'.
        let (hb₂, le) = get_end_takes p.1 q.1 q.0 hb₁ r' in
        get_deltas-ne-panicked fuel (deltas ++ (p.0, q.0) ∷ []) q.1 hb₂ (omega arith)

-- Reading a Range Filter returns a filter or an error on all bytes: it neither panics nor runs
-- out of the rounds it is given.
deserialize-ne-panicked_range_filter :
    (kind : RangeFilterKind) (bs : Bytes) → AllBytes bs → deserialize kind bs ≢ panicked
unfolding deserialize
deserialize-ne-panicked_range_filter kind [] hb = λ x. cc
deserialize-ne-panicked_range_filter kind (b ∷ bs) hb =
    >>=-ne-panicked (get_property_type kind bs) _ (get_property_type-ne-panicked kind bs) λ p r.
      ground (
        arith,
        get_deltas-ne-panicked (length p.1) [] p.1 (get_property_type_takes kind bs p.1 p.0 hb.1 r),
      )
