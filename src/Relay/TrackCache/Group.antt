-- ===== src/Relay/TrackCache/Group.antt =====
-- `add_object` and `objects_if_complete` of track_cache.rs: the Objects of a group.
use moqtail.Prelude.{
  ℕ, suc, ◌+◌, ◌-◌, ◌≤◌, ◌<◌, ◌≡◌, max, refl, ap, sym, ◌∙◌, List, [], ◌∷◌, take, drop, Bool, true,
  false, ◌&&◌, ◌||◌, ltb, leb, ◌==◌, arith, inl, inr, Bool-cases, if◌then◌else◌, Option, none, some,
}
use moqtail.Wire.Buffer.{IsU64}
use moqtail.Wire.Location.{loc}
use moqtail.Data.FetchObject.{FetchObjectPayload}
use moqtail.Relay.TrackCache.{
  Span, scan, starts_below, wanted, object_ids, objects_of, objects_if_complete,
}
use moqtail.Relay.TrackCache.Absent.{position, Separated}
use moqtail.Relay.TrackCache.Absent.Absorb.{covers}
use moqtail.Relay.TrackCache.Complete.{
  member, accounted, Rising, scan_sound, scan_returns, scan_fair,
}

-- The Objects from `lo` to `hi`, in their order.
abbrev pub between : ℕ → ℕ → List FetchObjectPayload → List FetchObjectPayload
between lo hi [] = []
between lo hi (o ∷ os) =
    if leb lo o.object_id && leb o.object_id hi then o ∷ between lo hi os else between lo hi os

-- Ids rise in a group.
abbrev pub Ordered : ℕ → List FetchObjectPayload → Type 0
Ordered low os = Rising low (object_ids os)

between_above :
    (low lo hi : ℕ) (os : List FetchObjectPayload)
    → Ordered low os
    → hi < low
    → between lo hi os ≡ []
between_above low lo hi [] ord h = refl
between_above low lo hi (o ∷ os) (k, ord) h =
    ground (arith, between_above (o.object_id + 1) lo hi os)

no_skip :
    (last : ℕ) (os : List FetchObjectPayload) → take (max last 0 - 0) (drop 0 os) ≡ take last os
no_skip last os = let same : max last 0 - 0 ≡ last = omega arith in rw same refl

take-between :
    (low lo hi : ℕ) (os : List FetchObjectPayload)
    → Ordered low os
    → lo ≤ low
    → take (starts_below (hi + 1) os) os ≡ between lo hi os
unfolding starts_below
take-between low lo hi [] ord h = refl
take-between low lo hi (o ∷ os) (k, ord) h = elim (Bool-cases (ltb o.object_id (hi + 1))) [
  | inl e ↦
      let from : leb lo o.object_id ≡ true = ground arith in
      let to : leb o.object_id hi ≡ true = ground arith in
      rw (e, from, to) (ap (◌∷◌ o) (take-between (o.object_id + 1) lo hi os ord (omega arith)))
  | inr e ↦
      let to : leb o.object_id hi ≡ false = ground arith in
      let past = between_above (o.object_id + 1) lo hi os ord (ground arith) in
      rw e (ground (arith, past))
]

skip_one : (first last : ℕ) → max (suc last) (suc first) - suc first ≡ max last first - first
skip_one first last = omega arith

pub wanted-between :
    (low lo hi : ℕ) (os : List FetchObjectPayload)
    → Ordered low os
    → wanted lo hi os ≡ between lo hi os
unfolding wanted starts_below
wanted-between low lo hi [] ord = refl
wanted-between low lo hi (o ∷ os) (k, ord) = elim (Bool-cases (ltb o.object_id lo)) [
  | inl e ↦
      let before : leb lo o.object_id ≡ false = ground arith in
      elim (Bool-cases (ltb o.object_id (hi + 1))) [
        | inl r ↦
            rw (e, r, before, skip_one (starts_below lo os) (starts_below (hi + 1) os))
              (wanted-between (o.object_id + 1) lo hi os ord)
        | inr r ↦
            let gone : max 0 (suc (starts_below lo os)) - suc (starts_below lo os) ≡ 0 =
              omega arith in
            rw (e, r, before, gone)
              (sym (between_above (o.object_id + 1) lo hi os ord (ground arith)))
      ]
  | inr e ↦ rw e (
      no_skip (starts_below (hi + 1) (o ∷ os)) (o ∷ os)
      ∙ take-between o.object_id lo hi (o ∷ os) (omega arith, ord) (ground arith))
]

-- Every Location of the range is known to hold no Object, or its Object is among those given.
abbrev pub Complete : ℕ → List Span → List FetchObjectPayload → ℕ → ℕ → Type 0
Complete group absent os lo hi =
    (x : ℕ) → lo ≤ x → x ≤ hi → accounted group absent (object_ids os) x ≡ true

member-between :
    (x lo hi : ℕ) (os : List FetchObjectPayload)
    → lo ≤ x
    → x ≤ hi
    → member x (object_ids (between lo hi os)) ≡ member x (object_ids os)
member-between x lo hi [] p q = refl
member-between x lo hi (o ∷ os) p q = elim (Bool-cases (leb lo o.object_id && leb o.object_id hi)) [
  | inl e ↦ rw e (ap (λ b. (o.object_id == x) || b) (member-between x lo hi os p q))
  | inr e ↦ rw e (member-between x lo hi os p q ∙ ground arith)
]

member-between_sub :
    (x lo hi : ℕ) (os : List FetchObjectPayload)
    → member x (object_ids (between lo hi os)) ≡ true
    → member x (object_ids os) ≡ true
member-between_sub x lo hi [] h = h
member-between_sub x lo hi (o ∷ os) h = ground (arith, member-between_sub x lo hi os)

between-Rising :
    (low bound lo hi : ℕ) (os : List FetchObjectPayload)
    → Ordered low os
    → bound ≤ max low lo
    → Rising bound (object_ids (between lo hi os))
between-Rising low bound lo hi [] ord h = tt
between-Rising low bound lo hi (o ∷ os) (k, ord) h =
    elim (Bool-cases (leb lo o.object_id && leb o.object_id hi)) [
      | inl e ↦ rw e (
        ground arith,
        between-Rising (o.object_id + 1) (o.object_id + 1) lo hi os ord (omega arith),
      )
      | inr e ↦ rw e (between-Rising (o.object_id + 1) bound lo hi os ord (omega arith))
    ]

-- The last step of `objects_if_complete`.
answer : Option Bool → List FetchObjectPayload → Option (Option (List FetchObjectPayload))
answer r os = elim r [ none ↦ none | some complete ↦ some (if complete then some os else none) ]

answer-eq_some :
    (r : Option Bool) (os : List FetchObjectPayload) {found : List FetchObjectPayload}
    → answer r os ≡ some (some found)
    → (r ≡ some true) × (os ≡ found)
unfolding answer
answer-eq_some none os e = cc
answer-eq_some (some true) os e = (refl, cc)
answer-eq_some (some false) os e = cc

module _ (group lo hi : ℕ) (absent : List Span) (cached : Option (List FetchObjectPayload))
    (hg : IsU64 group) (hh : IsU64 hi) (sep : Separated 0 absent)
    (ord : Ordered 0 (objects_of cached)) (fuel : ℕ) where
  answer_lem :
      objects_if_complete fuel cached absent group lo hi
      ≡ answer
          (scan fuel group hi absent lo (object_ids (wanted lo hi (objects_of cached))))
          (wanted lo hi (objects_of cached))
  unfolding objects_if_complete answer
  answer_lem = refl

  pub objects_if_complete_sound :
      (found : List FetchObjectPayload)
      → objects_if_complete fuel cached absent group lo hi ≡ some (some found)
      → (found ≡ between lo hi (objects_of cached))
        × Complete group absent (objects_of cached) lo hi
  unfolding objects_if_complete answer
  objects_if_complete_sound found e =
      let (done, is) =
        answer-eq_some
          (scan fuel group hi absent lo (object_ids (wanted lo hi (objects_of cached))))
          (wanted lo hi (objects_of cached)) e in
      let slice = wanted-between 0 lo hi (objects_of cached) ord in
      (
        sym is ∙ slice,
        λ x p q.
            ap (λ b. covers absent (position (loc group x)) || b)
              (sym (member-between x lo hi (objects_of cached) p q)
                ∙ ap (λ os. member x (object_ids os)) (sym slice))
            ∙ scan_sound group hi absent sep hg hh fuel lo
                (object_ids (wanted lo hi (objects_of cached))) done x p q,
      )

  pub objects_if_complete_returns :
      hi + 1 - lo < fuel
      → ((x : ℕ)
          → member x (object_ids (objects_of cached)) ≡ true
          → covers absent (position (loc group x)) ≡ false)
      → Complete group absent (objects_of cached) lo hi
      → objects_if_complete fuel cached absent group lo hi
        ≡ some (some (between lo hi (objects_of cached)))
  unfolding answer
  objects_if_complete_returns enough apart complete =
      let os = objects_of cached in
      let held = object_ids (between lo hi os) in
      let (b, done) = scan_returns group hi absent sep hg hh fuel lo held enough in
      let good : b ≡ true =
        scan_fair group hi absent sep hg hh fuel lo held b
          (between-Rising 0 lo lo hi os ord (omega arith))
          (λ x h. apart x (member-between_sub x lo hi os h))
          (λ x p q.
            ap (λ m. covers absent (position (loc group x)) || m) (member-between x lo hi os p q)
            ∙ complete x p q)
          done in
      answer_lem ∙ rw (wanted-between 0 lo hi os ord) (rw (done, good) refl)
