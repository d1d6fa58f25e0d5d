-- ===== src/Data/SubgroupObject/RoundTrip.antt =====
-- Writing and reading back an Object of subgroup_object.rs.
use moqtail.Prelude.{
  ℕ, ◌+◌, ◌-◌, ◌^◌, ◌<◌, ◌≤◌, ◌≡◌, refl, sym, ap, ◌∙◌, List, [], ◌∷◌, ◌++◌, append_assoc,
  append-nil, Bool, true, false, ◌||◌, Option, none, some, length, length-append, lt→ltb, le→leb,
  le→ltb_not, ◌==◌, arith,
}
use moqtail.Wire.Outcome.{Outcome, ok, ok_injective, err, panicked, ◌>>=◌}
use moqtail.Wire.Buffer.{Bytes, IsU64, take-length_append, drop-length_append}
use moqtail.Wire.Varint.{get_vi, vi}
use moqtail.Wire.Varint.RoundTrip.{get_vi-vi, put_vi-vi}
use moqtail.Wire.Pair.{deserialize_kvp_list_until_empty, deserialize_rounds}
use moqtail.Data.Constant.{ObjectStatus, status_to_u64}
use moqtail.Data.Constant.Types.{status_try_from_iff}
use moqtail.Data.Properties.{
  ObjectProperty, collect, serialize_object_properties, deserialize_object_properties,
}
use moqtail.Data.SubgroupObject.{
  SubgroupObject, put_status, id_delta, or_empty, is_nil, put_properties, put_body, serialize,
  apply_delta, take_block, read_list, read_properties, read_body, deserialize, status_or_normal,
}

-- The id comes after the one before.
abbrev pub Comes : Option ℕ → ℕ → Type 0
Comes none id = IsU64 id
Comes (some before) id = (before < id) × IsU64 id

-- Without a Properties field there are none to write, and none are read; with it, what is written is
-- read back, an empty list too.
abbrev pub ReadsBack : Bool → List ObjectProperty → Option (List ObjectProperty) → Type 0
ReadsBack false ps back = (is_nil ps ≡ true) × (back ≡ none)
ReadsBack true ps back =
    (ext : Bytes) × (l : List ObjectProperty) × (serialize_object_properties ps ≡ ok ext)
    × IsU64 (length ext)
    × (deserialize_object_properties ext ≡ ok l)
    × (back ≡ some l)

-- A payload without bytes is written as the status.
abbrev pub body_back : Option Bytes → Option ObjectStatus → Option ObjectStatus × Option Bytes
body_back none status = (some (status_or_normal status), none)
body_back (some []) status = (some (status_or_normal status), none)
body_back (some (b ∷ bs)) status = (none, some (b ∷ bs))

abbrev pub payload_length : Option Bytes → ℕ
payload_length none = 0
payload_length (some bs) = length bs

delta_lem :
    (prev : Option ℕ) (id : ℕ)
    → Comes prev id
    → (d : ℕ) × (id_delta id prev ≡ ok d) × IsU64 d × (apply_delta prev d ≡ ok id)
unfolding id_delta apply_delta
delta_lem none id h = (id, refl, h, refl)
delta_lem (some before) id (lt, h) = (id - before - 1, ground arith, omega arith, ground arith)

nonzero : (n : ℕ) → 0 < n → (n == 0) ≡ false
nonzero n h = ground arith

take_block-append :
    (bs rest : Bytes) → IsU64 (length bs) → take_block (length bs) (bs ++ rest) ≡ ok (bs, rest)
unfolding take_block
take_block-append bs rest h =
    rw
      (
        lt→ltb (length bs) (2 ^ 64) h,
        le→leb (length bs) (length (bs ++ rest)) (omega (arith, length-append bs rest)),
        take-length_append,
        drop-length_append,
      )
      refl

empty_list : deserialize_object_properties [] ≡ ok []
unfolding deserialize_object_properties collect deserialize_kvp_list_until_empty deserialize_rounds
empty_list = refl

read_list-append :
    (ext rest : Bytes) (l : List ObjectProperty)
    → IsU64 (length ext)
    → deserialize_object_properties ext ≡ ok l
    → read_list (length ext) (ext ++ rest) ≡ ok (some l, rest)
unfolding read_list
read_list-append [] rest l h e =
    let same : [] ≡ l = ok_injective (sym empty_list ∙ e) in rw (← same) refl
read_list-append (b ∷ bs) rest l h e =
    rw (nonzero (length (b ∷ bs)) (omega arith), take_block-append (b ∷ bs) rest h, e) refl

properties_lem :
    (has : Bool) (ps : List ObjectProperty) (back : Option (List ObjectProperty))
    → ReadsBack has ps back
    → (ext : Bytes) × ((has || is_nil ps) ≡ true)
      × ((buf : Bytes) → put_properties has ps buf ≡ ok (buf ++ ext))
      × ((rest : Bytes) → read_properties has (ext ++ rest) ≡ ok (back, rest))
unfolding read_properties
properties_lem false ps back (nil, is) =
    ([], nil, (λ buf. ap ok (sym (append-nil buf))), λ rest. rw is refl)
properties_lem true ps back (ext, l, written, small, again, is) = (
  vi (length ext) ++ ext,
  refl,
  (λ buf.
      rw (written, put_vi-vi buf (length ext) small)
        (ap ok (append_assoc buf (vi (length ext)) ext))),
  λ rest.
      rw (is, append_assoc (vi (length ext)) ext rest, get_vi-vi (length ext) (ext ++ rest) small)
        (read_list-append ext rest l small again),
)

status-IsU64 : (s : ObjectStatus) → IsU64 (status_to_u64 s)
unfolding status_to_u64
status-IsU64 s = ground arith

status_lem :
    (s : ObjectStatus) (rest : Bytes)
    → read_body 0 (vi (status_to_u64 s) ++ rest) ≡ ok ((some s, none), rest)
unfolding read_body
status_lem s rest =
    rw
      (
        get_vi-vi (status_to_u64 s) rest (status-IsU64 s),
        (status_try_from_iff (status_to_u64 s) s).1 refl,
      )
      refl

status_body :
    (status : Option ObjectStatus)
    → (body : Bytes) × ((buf : Bytes) → put_status status buf ≡ ok (buf ++ body))
      × ((rest : Bytes)
          → (get_vi (body ++ rest) >>= λ p. read_body p.0 p.1)
            ≡ ok ((some (status_or_normal status), none), rest))
status_body status =
    let n = status_to_u64 (status_or_normal status) in
    let h = status-IsU64 (status_or_normal status) in
    (
      vi 0 ++ vi n,
      (λ buf.
          rw (put_vi-vi buf 0 (omega arith), put_vi-vi (buf ++ vi 0) n h)
            (ap ok (append_assoc buf (vi 0) (vi n)))),
      λ rest.
          rw (append_assoc (vi 0) (vi n) rest, get_vi-vi 0 (vi n ++ rest) (omega arith))
            (status_lem (status_or_normal status) rest),
    )

payload_body :
    (bs rest : Bytes)
    → 0 < length bs
    → IsU64 (length bs)
    → read_body (length bs) (bs ++ rest) ≡ ok ((none, some bs), rest)
unfolding read_body
payload_body bs rest pos h = rw (nonzero (length bs) pos, take_block-append bs rest h) refl

body_lem :
    (payload : Option Bytes) (status : Option ObjectStatus)
    → IsU64 (payload_length payload)
    → (body : Bytes) × ((buf : Bytes) → put_body payload status buf ≡ ok (buf ++ body))
      × ((rest : Bytes)
          → (get_vi (body ++ rest) >>= λ p. read_body p.0 p.1)
            ≡ ok (body_back payload status, rest))
body_lem none status h = status_body status
body_lem (some []) status h = status_body status
body_lem (some (b ∷ bs)) status h = (
  vi (length (b ∷ bs)) ++ (b ∷ bs),
  (λ buf.
      rw (put_vi-vi buf (length (b ∷ bs)) h)
        (ap ok (append_assoc buf (vi (length (b ∷ bs))) (b ∷ bs)))),
  λ rest.
      rw
        (
          append_assoc (vi (length (b ∷ bs))) (b ∷ bs) rest,
          get_vi-vi (length (b ∷ bs)) ((b ∷ bs) ++ rest) h,
        )
        (payload_body (b ∷ bs) rest (omega arith) h),
)

bind-bind :
    {A B C : Type 0} (m : Outcome A) (f : A → Outcome B) (k : B → Outcome C) {b : B}
    → (m >>= f) ≡ ok b
    → (m >>= λ a. f a >>= k) ≡ k b
bind-bind (ok a) f k h = rw h refl
bind-bind (err e) f k h = cc
bind-bind panicked f k h = cc

-- An Object of a subgroup stream with a u64 id above the one before, with no properties to write
-- where the header has none and otherwise with those that are read back as `back`, is written,
-- and reads back behind the same prior id; an empty payload comes back as the status, Normal
-- where there is none.
pub deserialize-serialize_subgroup_object :
    (o : SubgroupObject) (prev : Option ℕ) (has : Bool) (back : Option (List ObjectProperty))
    (rest : Bytes)
    → Comes prev o.object_id
    → ReadsBack has (or_empty o.properties) back
    → IsU64 (payload_length o.payload)
    → (bs : Bytes) × (serialize o prev has ≡ ok bs)
      × (deserialize (bs ++ rest) prev has
          ≡ ok (
            record {
              object_id = o.object_id;
              properties = back;
              object_status = (body_back o.payload o.object_status).0;
              payload = (body_back o.payload o.object_status).1;
            },
            rest,
          ))
unfolding serialize deserialize
deserialize-serialize_subgroup_object o prev has back rest comes reads small =
    let (d, ed, hd, again) = delta_lem prev o.object_id comes in
    let (ext, allowed, put, get) = properties_lem has (or_empty o.properties) back reads in
    let (body, put_b, get_b) = body_lem o.payload o.object_status small in
    (
      (vi d ++ ext) ++ body,
      rw (ed, put_vi-vi [] d hd, allowed, put (vi d), put_b (vi d ++ ext)) refl,
      rw
          (
            append_assoc (vi d ++ ext) body rest,
            append_assoc (vi d) ext (body ++ rest),
            get_vi-vi d (ext ++ (body ++ rest)) hd,
            again,
            get (body ++ rest),
          )
          (bind-bind (get_vi (body ++ rest)) (λ p. read_body p.0 p.1) _ (get_b rest)),
    )

-- A delta that takes the id above a u64 panics, where overflow is checked.
pub deserialize-panicked_subgroup_object :
    (id d : ℕ) (rest : Bytes) (has : Bool)
    → IsU64 d
    → 2 ^ 64 ≤ id + d + 1
    → deserialize (vi d ++ rest) (some id) has ≡ panicked
unfolding deserialize apply_delta
deserialize-panicked_subgroup_object id d rest has h over =
    rw (get_vi-vi d rest h, le→ltb_not (2 ^ 64) (id + d + 1) over) refl
