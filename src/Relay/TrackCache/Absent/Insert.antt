-- ===== src/Relay/TrackCache/Absent/Insert.antt =====
-- `AbsentRanges::insert` of track_cache.rs, whole: the ranges stay apart, and cover what is marked.
use moqtail.Prelude.{
  ℕ, suc, leb→le, ◌≤◌, ◌<◌, ◌≡◌, refl, ap, sym, ◌∙◌, List, [], ◌∷◌, length, Bool, true, false, ◌||◌,
  arith, reverse, inl, inr, Bool-cases, All, All-reverse,
}
use moqtail.Wire.Location.{Location, IsLocation, loc_le}
use moqtail.Relay.TrackCache.{Span, span, put, trim, insert_range, mark_absent, max_absent_ranges}
use moqtail.Relay.TrackCache.Absent.{position, IsSpan, Separated, loc_le-position}
use moqtail.Relay.TrackCache.Absent.Touching.{touches, touching, take_reaching-reverse}
use moqtail.Relay.TrackCache.Absent.Absorb.{
  apart, within, covers, Far, hull, absorb_lem, remove_all-touching, touching-All,
}
use moqtail.Relay.TrackCache.Absent.Hull.{hull_lem}
use moqtail.Relay.TrackCache.Absent.Apart.{
  covers-reverse, covers-touching-apart, touching-IsSpan, apart-IsSpan, apart-Separated,
  apart-Far_range, apart-Far-touching, length-apart,
}
use moqtail.Relay.TrackCache.Absent.Put.{put_lem, trim_lem, or_true, length-put}

-- Before the limit on the number of ranges is applied.
put_in : Location → Location → List Span → List Span
put_in from to ranges =
    put (hull (reverse (touching (position from) (position to) ranges)) (span from to))
      (apart (position from) (position to) ranges)

ordered_of :
    (from to : Location)
    → IsLocation from
    → IsLocation to
    → loc_le from to ≡ true
    → position from ≤ position to
ordered_of from to hf ht k =
    leb→le (position from) (position to) (sym (loc_le-position from to hf ht) ∙ k)

All-Far :
    (ts : List Span) (r h : Span)
    → ((q : Span) → IsSpan q → Far q r → All (Far q) (reverse ts) → Far q h)
    → (qs : List Span) → All IsSpan qs
    → All (λ q. Far q r) qs
    → All (λ q. All (Far q) ts) qs
    → All (λ q. Far q h) qs
All-Far ts r h far [] a b c = tt
All-Far ts r h far (q ∷ qs) (a, as_) (b, bs) (c, cs) =
    (far q a b (All-reverse (Far q) ts c), All-Far ts r h far qs as_ bs cs)

or_assoc : (a b c : Bool) → ((a || b) || c) ≡ (a || (b || c))
or_assoc a b c = ground arith

length-put_in : (from to : Location) (ss : List Span) → length (put_in from to ss) ≤ suc (length ss)
unfolding put_in
length-put_in from to ss = omega (
  arith,
  length-put (hull (reverse (touching (position from) (position to) ss)) (span from to))
      (apart (position from) (position to) ss),
  length-apart (position from) (position to) ss,
)

length-trim : (cap : ℕ) (ss : List Span) → length (trim cap ss) ≤ length ss
unfolding trim
length-trim cap [] = omega arith
length-trim cap (s ∷ ss) = ground (arith, length-trim cap ss)

backwards :
    (from to : Location)
    → IsLocation from
    → IsLocation to
    → loc_le from to ≡ false
    → (b : Bool) (x : ℕ) → b ≡ (within (span from to) x || b)
backwards from to hf ht k b x = ground (arith, loc_le-position from to hf ht)

module _ (from to : Location) (hf : IsLocation from) (ht : IsLocation to)
    (ordered : position from ≤ position to) (ss : List Span) (sep : Separated 0 ss) where
  insert_range-put_in : insert_range from to ss ≡ trim max_absent_ranges (put_in from to ss)
  unfolding insert_range put_in
  insert_range-put_in =
      rw
        (
          take_reaching-reverse from to hf ht ordered 0 ss sep,
          absorb_lem (reverse (touching (position from) (position to) ss)) (span from to) ss,
          remove_all-touching (position from) (position to) 0 ss sep,
        )
        refl

  put_in_lem :
      Separated 0 (put_in from to ss)
      × ((x : ℕ) → covers (put_in from to ss) x ≡ (within (span from to) x || covers ss x))
  unfolding put_in
  put_in_lem =
      let ts = touching (position from) (position to) ss in
      let r = span from to in
      let (is, same, far) =
        hull_lem (reverse ts) r (hf, ht, ordered)
          (All-reverse IsSpan ts (touching-IsSpan (position from) (position to) 0 ss sep))
          (All-reverse (λ s. touches (position from) (position to) s ≡ true) ts
            (touching-All (position from) (position to) ss)) in
      let (sep', same') =
        put_lem 0 (hull (reverse ts) r) (apart (position from) (position to) ss) is (omega arith)
          (apart-Separated (position from) (position to) 0 ss sep)
          (All-Far ts r (hull (reverse ts) r) far (apart (position from) (position to) ss)
            (apart-IsSpan (position from) (position to) 0 ss sep)
            (apart-Far_range (position from) (position to) r ss refl refl)
            (apart-Far-touching (position from) (position to) 0 ss sep)) in
      (
        sep',
        λ x.
            same' x
            ∙ ap (λ b. b || covers (apart (position from) (position to) ss) x) (same x)
            ∙ rw (covers-reverse ts x) (
                or_assoc (within r x) (covers ts x)
                  (covers (apart (position from) (position to) ss) x)
                ∙ ap (λ b. within r x || b)
                    (sym (covers-touching-apart (position from) (position to) ss x))),
      )

abbrev pub IsWellFormed : List Span → Type 0
IsWellFormed ss = Separated 0 ss × (length ss ≤ max_absent_ranges)

-- Marking keeps the ranges in order and apart, and not more than there may be.
pub mark_absent-IsWellFormed :
    (from to : Location) (ss : List Span)
    → IsLocation from
    → IsLocation to
    → IsWellFormed ss
    → IsWellFormed (mark_absent from to ss)
unfolding mark_absent
mark_absent-IsWellFormed from to ss hf ht (sep, short) = elim (Bool-cases (loc_le from to)) [
  | inr k ↦ rw k (sep, short)
  | inl k ↦
      let ordered : position from ≤ position to = ordered_of from to hf ht k in
      let t =
        trim_lem max_absent_ranges 0 (put_in from to ss)
          (put_in_lem from to hf ht ordered ss sep).0 in
      rw (k, insert_range-put_in from to hf ht ordered ss sep) (t.0, t.1)
]

-- What is covered was so before or is marked, and the other way where the limit is not met.
pub mark_absent-covers :
    (from to : Location) (ss : List Span)
    → IsLocation from
    → IsLocation to
    → Separated 0 ss
    → (x : ℕ) → covers (mark_absent from to ss) x ≡ true
    → (within (span from to) x || covers ss x) ≡ true
unfolding mark_absent
mark_absent-covers from to ss hf ht sep x = elim (Bool-cases (loc_le from to)) [
  | inr k ↦ rw k (λ h. or_true (within (span from to) x) (covers ss x) h)
  | inl k ↦
      let ordered : position from ≤ position to = ordered_of from to hf ht k in
      let (sep', same) = put_in_lem from to hf ht ordered ss sep in
      let t = trim_lem max_absent_ranges 0 (put_in from to ss) sep' in
      rw (k, insert_range-put_in from to hf ht ordered ss sep) (λ h. sym (same x) ∙ t.2 x h)
]

-- While there is room for one more range, just what is marked is added.
pub mark_absent_exact :
    (from to : Location) (ss : List Span)
    → IsLocation from
    → IsLocation to
    → Separated 0 ss
    → length ss < max_absent_ranges
    → (x : ℕ) → covers (mark_absent from to ss) x ≡ (within (span from to) x || covers ss x)
unfolding mark_absent
mark_absent_exact from to ss hf ht sep room x = elim (Bool-cases (loc_le from to)) [
  | inr k ↦ rw k (backwards from to hf ht k (covers ss x) x)
  | inl k ↦
      let ordered : position from ≤ position to = ordered_of from to hf ht k in
      let (sep', same) = put_in_lem from to hf ht ordered ss sep in
      let t = trim_lem max_absent_ranges 0 (put_in from to ss) sep' in
      rw
        (
          k,
          insert_range-put_in from to hf ht ordered ss sep,
          t.3 (omega (arith, length-put_in from to ss)),
        )
        (same x)
]

pub length-mark_absent :
    (from to : Location) (ss : List Span)
    → IsLocation from
    → IsLocation to
    → Separated 0 ss
    → length (mark_absent from to ss) ≤ suc (length ss)
unfolding mark_absent
length-mark_absent from to ss hf ht sep = elim (Bool-cases (loc_le from to)) [
  | inr k ↦ rw k (omega arith)
  | inl k ↦
      rw (k, insert_range-put_in from to hf ht (ordered_of from to hf ht k) ss sep)
        (omega (arith, length-put_in from to ss, length-trim max_absent_ranges (put_in from to ss)))
]
