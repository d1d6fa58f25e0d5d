-- ===== src/Wire/Pair/Lists.antt =====
-- The list functions of pair.rs: sorting by type, writing and reading.
use moqtail.Prelude.{
  ℕ, zero, suc, ◌-◌, ◌*◌, ◌^◌, ◌<◌, ◌≤◌, ◌≡◌, refl, sym, ap, ◌∙◌, List, [], ◌∷◌, ◌++◌, append-nil,
  append_assoc, length, length-append, leb, leb→le, le→ltb_not, Bool-cases, inl, inr, arith,
}
use mathlib.Core.List.{Perm}
use mathlib.Core.List.Perm
use moqtail.Wire.Outcome.{ok, ◌>>=◌}
use moqtail.Wire.Buffer.{Bytes}
use moqtail.Wire.Varint.{get_vi}
use moqtail.Wire.Pair.{
  KeyValuePair, get_type, deserialize_delta, insert_by_type, sort_by_type, serialize_sorted,
  serialize_kvp_list, deserialize_count, deserialize_kvp_list, deserialize_rounds,
  deserialize_kvp_list_until_empty,
}
use moqtail.Wire.Pair.RoundTrip.{
  IsValid, pair_bytes, length-pair_bytes_pos, serialize_delta-eq, deserialize_delta-pair_bytes,
}

abbrev pub AllValid : List KeyValuePair → Type 0
AllValid [] = Unit {0}
AllValid (p ∷ ps) = IsValid p × AllValid ps

-- The types ascend, from `lower` on.
abbrev pub Ascending : ℕ → List KeyValuePair → Type 0
Ascending lower [] = Unit {0}
Ascending lower (p ∷ ps) = (lower ≤ get_type p) × Ascending (get_type p) ps

insert_by_type-AllValid :
    (p : KeyValuePair) (ps : List KeyValuePair)
    → IsValid p
    → AllValid ps
    → AllValid (insert_by_type p ps)
unfolding insert_by_type
insert_by_type-AllValid p [] h hs = (h, tt)
insert_by_type-AllValid p (q ∷ qs) h hs = elim (Bool-cases (leb (get_type p) (get_type q))) [
  | inl le ↦ rw le (h, hs)
  | inr gt ↦ rw gt (hs.0, insert_by_type-AllValid p qs h hs.1)
]

insert_by_type-Ascending :
    (p : KeyValuePair) (ps : List KeyValuePair) (lower : ℕ)
    → lower ≤ get_type p
    → Ascending lower ps
    → Ascending lower (insert_by_type p ps)
unfolding insert_by_type
insert_by_type-Ascending p [] lower h hs = (h, tt)
insert_by_type-Ascending p (q ∷ qs) lower h hs = elim (Bool-cases (leb (get_type p) (get_type q))) [
  | inl le ↦ rw le (h, (leb→le _ _ le, hs.1))
  | inr gt ↦ rw gt (hs.0, insert_by_type-Ascending p qs (get_type q) (ground arith) hs.1)
]

insert_by_type-perm :
    (p : KeyValuePair) (ps : List KeyValuePair) → Perm (insert_by_type p ps) (p ∷ ps)
unfolding insert_by_type
insert_by_type-perm p [] = Perm.refl _
insert_by_type-perm p (q ∷ qs) = elim (Bool-cases (leb (get_type p) (get_type q))) [
  | inl le ↦ rw le (Perm.refl _)
  | inr gt ↦ rw gt (Perm.trans (Perm.cons q (insert_by_type-perm p qs)) (Perm.swap _ _ _))
]

pub sort_by_type-AllValid : (ps : List KeyValuePair) → AllValid ps → AllValid (sort_by_type ps)
unfolding sort_by_type
sort_by_type-AllValid [] h = tt
sort_by_type-AllValid (p ∷ ps) h =
    insert_by_type-AllValid p (sort_by_type ps) h.0 (sort_by_type-AllValid ps h.1)

-- The sorted list has ascending types.
pub sort_by_type-Ascending : (ps : List KeyValuePair) → Ascending 0 (sort_by_type ps)
unfolding sort_by_type
sort_by_type-Ascending [] = tt
sort_by_type-Ascending (p ∷ ps) =
    insert_by_type-Ascending p (sort_by_type ps) 0 (omega arith) (sort_by_type-Ascending ps)

-- The sorted list is a permutation of the list.
pub sort_by_type-perm : (ps : List KeyValuePair) → Perm (sort_by_type ps) ps
unfolding sort_by_type
sort_by_type-perm [] = Perm.refl []
sort_by_type-perm (p ∷ ps) =
    Perm.trans (insert_by_type-perm p (sort_by_type ps)) (Perm.cons p (sort_by_type-perm ps))

list_bytes : List KeyValuePair → ℕ → Bytes
list_bytes [] prev = []
list_bytes (p ∷ ps) prev = pair_bytes p prev ++ list_bytes ps (get_type p)

serialize_sorted-eq :
    (ps : List KeyValuePair) (prev : ℕ) (buf : Bytes)
    → AllValid ps
    → Ascending prev ps
    → serialize_sorted ps prev buf ≡ ok (buf ++ list_bytes ps prev)
unfolding serialize_sorted list_bytes
serialize_sorted-eq [] prev buf h a = ap ok (sym (append-nil buf))
serialize_sorted-eq (p ∷ ps) prev buf h a = rw (serialize_delta-eq p prev h.0 a.0) (
    serialize_sorted-eq ps (get_type p) (buf ++ pair_bytes p prev) h.1 a.1
    ∙ ap ok (append_assoc buf (pair_bytes p prev) (list_bytes ps (get_type p))))

deserialize_count-list_bytes :
    (ps items : List KeyValuePair) (prev : ℕ) (rest : Bytes)
    → AllValid ps
    → Ascending prev ps
    → deserialize_count (length ps) prev items (list_bytes ps prev ++ rest) ≡ ok (items ++ ps, rest)
unfolding deserialize_count list_bytes
deserialize_count-list_bytes [] items prev rest h a = rw append-nil
deserialize_count-list_bytes (p ∷ ps) items prev rest h a =
    rw
      (
        append_assoc (pair_bytes p prev) (list_bytes ps (get_type p)) rest,
        deserialize_delta-pair_bytes p prev (list_bytes ps (get_type p) ++ rest) h.0 a.0,
      )
      (deserialize_count-list_bytes ps (items ++ p ∷ []) (get_type p) rest h.1 a.1
        ∙ ap (λ l. ok (l, rest)) (append_assoc items (p ∷ []) ps))

deserialize_rounds_step :
    (fuel prev : ℕ) (items : List KeyValuePair) (bs : Bytes) (p : KeyValuePair) (rest : Bytes)
    → deserialize_delta bs prev ≡ ok (p, rest)
    → deserialize_rounds (suc fuel) prev items bs
      ≡ deserialize_rounds fuel (get_type p) (items ++ p ∷ []) rest
unfolding deserialize_rounds
deserialize_rounds_step fuel prev items [] p rest e = unfold deserialize_delta get_vi in cc
deserialize_rounds_step fuel prev items (b ∷ bs) p rest e = rw e

length-list_bytes :
    (p : KeyValuePair) (ps : List KeyValuePair) (prev : ℕ)
    → IsValid p
    → length (list_bytes ps (get_type p)) < length (list_bytes (p ∷ ps) prev)
unfolding list_bytes
length-list_bytes p ps prev h = omega (
  arith,
  length-append (pair_bytes p prev) (list_bytes ps (get_type p)),
  length-pair_bytes_pos p prev h,
)

deserialize_rounds-list_bytes :
    (ps items : List KeyValuePair) (prev fuel : ℕ)
    → AllValid ps
    → Ascending prev ps
    → length (list_bytes ps prev) ≤ fuel
    → deserialize_rounds fuel prev items (list_bytes ps prev) ≡ ok (items ++ ps)
deserialize_rounds-list_bytes [] items prev fuel h a f =
    rw append-nil (unfold deserialize_rounds list_bytes in refl)
deserialize_rounds-list_bytes (p ∷ ps) items prev zero h a f =
    absurd (omega (arith, length-list_bytes p ps prev h.0))
deserialize_rounds-list_bytes (p ∷ ps) items prev (suc fuel) h a f =
    deserialize_rounds_step fuel prev items _ p (list_bytes ps (get_type p)) first
    ∙ deserialize_rounds-list_bytes ps (items ++ p ∷ []) (get_type p) fuel h.1 a.1
        (omega (arith, length-list_bytes p ps prev h.0))
    ∙ ap ok (append_assoc items (p ∷ []) ps)
  where
    first : deserialize_delta (list_bytes (p ∷ ps) prev) prev ≡ ok (p, list_bytes ps (get_type p))
    first = unfold list_bytes in deserialize_delta-pair_bytes p prev _ h.0 a.0

-- A list of valid pairs is written, and `deserialize_kvp_list_until_empty` reads back its pairs
-- sorted by type: a permutation of the list with ascending types.
pub until_empty-serialize_kvp_list :
    (items : List KeyValuePair)
    → AllValid items
    → ((serialize_kvp_list items >>= λ e. deserialize_kvp_list_until_empty e)
        ≡ ok (sort_by_type items))
      × Perm (sort_by_type items) items
      × Ascending 0 (sort_by_type items)
unfolding serialize_kvp_list deserialize_kvp_list_until_empty
until_empty-serialize_kvp_list items h = (
  rw (serialize_sorted-eq (sort_by_type items) 0 [] valid ascending)
      (deserialize_rounds-list_bytes (sort_by_type items) [] 0 _ valid ascending (omega arith)),
  sort_by_type-perm items,
  ascending,
)
  where
    valid : AllValid (sort_by_type items)
    valid = sort_by_type-AllValid items h

    ascending : Ascending 0 (sort_by_type items)
    ascending = sort_by_type-Ascending items

-- A list of valid pairs is written, and `deserialize_kvp_list`, given the number of pairs, reads
-- them back sorted by type and leaves what follows, where so many pairs take less than 2^63 bytes
-- in memory.
pub deserialize_kvp_list-serialize_kvp_list :
    (pair_size : ℕ) (items : List KeyValuePair) (rest : Bytes)
    → AllValid items
    → length (sort_by_type items) * pair_size < 2 ^ 63
    → (serialize_kvp_list items >>= λ e.
        deserialize_kvp_list pair_size (e ++ rest) (length (sort_by_type items)))
      ≡ ok (sort_by_type items, rest)
unfolding serialize_kvp_list deserialize_kvp_list
deserialize_kvp_list-serialize_kvp_list pair_size items rest h room =
    rw
      (
        serialize_sorted-eq (sort_by_type items) 0 [] (sort_by_type-AllValid items h)
            (sort_by_type-Ascending items),
        le→ltb_not (length (sort_by_type items) * pair_size) (2 ^ 63 - 1) (omega arith),
      )
      (deserialize_count-list_bytes (sort_by_type items) [] 0 rest (sort_by_type-AllValid items h)
        (sort_by_type-Ascending items))
