-- ===== src/Relay/TrackCache/Adds.antt =====
-- `TrackCache::add_object` of track_cache.rs, called again and again for one group.
use moqtail.Prelude.{
  ℕ, ◌+◌, ◌≤◌, ◌<◌, ◌≡◌, refl, ap, sym, ◌∙◌, List, [], ◌∷◌, false, ltb, ◌==◌, arith, inl, inr,
  Bool-cases, if◌then◌else◌, Option, none, some, is_some,
}
use moqtail.Data.FetchObject.{FetchObjectPayload}
use moqtail.Relay.TrackCache.{add_object, object_ids}
use moqtail.Relay.TrackCache.Complete.{member}
use moqtail.Relay.TrackCache.Group.{Ordered}

-- The calls of `add_object`, the first in front.
unfoldable pub add_all : List FetchObjectPayload → List FetchObjectPayload → List FetchObjectPayload
add_all [] group = group
add_all (o ∷ os) group = add_all os (add_object o group)

abbrev pub find_object : ℕ → List FetchObjectPayload → Option FetchObjectPayload
find_object id [] = none
find_object id (o ∷ os) = if o.object_id == id then some o else find_object id os

add_object-Ordered :
    (low : ℕ) (o : FetchObjectPayload) (os : List FetchObjectPayload)
    → low ≤ o.object_id
    → Ordered low os
    → Ordered low (add_object o os)
unfolding add_object
add_object-Ordered low o [] h ord = (h, tt)
add_object-Ordered low o (p ∷ ps) h (k, ord) = elim (Bool-cases (p.object_id == o.object_id)) [
  | inl e ↦ rw e (k, ord)
  | inr e ↦ elim (Bool-cases (ltb p.object_id o.object_id)) [
    | inl l ↦ rw (e, l) (k, add_object-Ordered (p.object_id + 1) o ps (ground arith) ord)
    | inr l ↦ rw (e, l) (h, (ground arith, ord))
  ]
]

abbrev or_else : Option FetchObjectPayload → Option FetchObjectPayload → Option FetchObjectPayload
or_else none p = p
or_else (some o) p = some o

find_above :
    (id low : ℕ) (os : List FetchObjectPayload)
    → Ordered low os
    → id < low
    → find_object id os ≡ none
find_above id low [] ord h = refl
find_above id low (o ∷ os) (k, ord) h = ground (arith, find_above id (o.object_id + 1) os)

or_else-none : (o : Option FetchObjectPayload) → or_else o none ≡ o
or_else-none none = refl
or_else-none (some o) = refl

find-add_object :
    (id low : ℕ) (o : FetchObjectPayload) (os : List FetchObjectPayload)
    → Ordered low os
    → find_object id (add_object o os) ≡ or_else (find_object id os) (find_object id (o ∷ []))
unfolding add_object
find-add_object id low o [] ord = refl
find-add_object id low o (p ∷ ps) (k, ord) = elim (Bool-cases (p.object_id == o.object_id)) [
  | inl e ↦ rw e (elim (Bool-cases (p.object_id == id)) [
    | inl q ↦ rw q refl
    | inr q ↦
        let other : (o.object_id == id) ≡ false = ground arith in
        rw (q, other) (sym (or_else-none (find_object id ps)))
  ])
  | inr e ↦ elim (Bool-cases (ltb p.object_id o.object_id)) [
    | inl l ↦
        rw (e, l)
          (elim (Bool-cases (p.object_id == id)) [
            | inl q ↦ rw q refl
            | inr q ↦ rw q (find-add_object id (p.object_id + 1) o ps ord)
          ])
    | inr l ↦
        rw (e, l)
          (elim (Bool-cases (o.object_id == id)) [
            | inl q ↦
                let other : (p.object_id == id) ≡ false = ground arith in
                rw (q, other, find_above id (p.object_id + 1) ps ord (ground arith)) refl
            | inr q ↦ rw q (sym (or_else-none (find_object id (p ∷ ps))))
          ])
  ]
]

or_else_assoc :
    (a b c : Option FetchObjectPayload) → or_else (or_else a b) c ≡ or_else a (or_else b c)
or_else_assoc none b c = refl
or_else_assoc (some a) b c = refl

find_cons :
    (id : ℕ) (o : FetchObjectPayload) (os : List FetchObjectPayload)
    → or_else (find_object id (o ∷ [])) (find_object id os) ≡ find_object id (o ∷ os)
find_cons id o os = ground arith

pub add_all_from :
    (adds group : List FetchObjectPayload)
    → Ordered 0 group
    → Ordered 0 (add_all adds group)
      × ((id : ℕ)
          → find_object id (add_all adds group)
            ≡ or_else (find_object id group) (find_object id adds))
unfolding add_all
add_all_from [] group ord = (ord, λ id. sym (or_else-none (find_object id group)))
add_all_from (o ∷ os) group ord =
    let (ord', same) =
      add_all_from os (add_object o group) (add_object-Ordered 0 o group (omega arith) ord) in
    (
      ord',
      λ id.
          same id
          ∙ ap (λ f. or_else f (find_object id os)) (find-add_object id 0 o group ord)
          ∙ or_else_assoc (find_object id group) (find_object id (o ∷ [])) (find_object id os)
          ∙ ap (or_else (find_object id group)) (find_cons id o os),
    )

member-find_object :
    (id : ℕ) (os : List FetchObjectPayload)
    → member id (object_ids os) ≡ is_some (find_object id os)
member-find_object id [] = refl
member-find_object id (o ∷ os) = ground (arith, member-find_object id os)

pub member-add_all :
    (id : ℕ) (adds : List FetchObjectPayload)
    → member id (object_ids (add_all adds [])) ≡ member id (object_ids adds)
member-add_all id adds =
    member-find_object id (add_all adds [])
    ∙ ap is_some ((add_all_from adds [] tt).1 id)
    ∙ sym (member-find_object id adds)

-- After any calls of `add_object` for one group, the ids rise in the group, and each id has the
-- first Object that was added with it.
pub find-add_all :
    (adds : List FetchObjectPayload)
    → Ordered 0 (add_all adds [])
      × ((id : ℕ) → find_object id (add_all adds []) ≡ find_object id adds)
find-add_all adds = add_all_from adds [] tt
