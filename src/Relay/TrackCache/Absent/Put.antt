-- ===== src/Relay/TrackCache/Absent/Put.antt =====
-- `AbsentRanges::insert` of track_cache.rs, the writes to the map of the ranges.
use moqtail.Prelude.{
  ℕ, suc, ◌+◌, ◌≤◌, ◌≡◌, refl, List, [], ◌∷◌, length, Bool, true, false, ◌||◌, ltb, ◌==◌, arith,
  inl, inr, Bool-cases, All,
}
use moqtail.Relay.TrackCache.{Span, put, trim}
use moqtail.Relay.TrackCache.Absent.{lo, hi, IsSpan, Separated, loc_lt-position, loc_eq-position}
use moqtail.Relay.TrackCache.Absent.Absorb.{within, covers, Far}
use moqtail.Relay.TrackCache.Absent.Apart.{Separated-lower}

or_swap : (a b c : Bool) → (b || (a || c)) ≡ (a || (b || c))
or_swap a b c = ground arith

pub put_lem :
    (low : ℕ) (r : Span) (ss : List Span)
    → IsSpan r
    → low ≤ lo r
    → Separated low ss
    → All (λ q. Far q r) ss
    → Separated low (put r ss) × ((x : ℕ) → covers (put r ss) x ≡ (within r x || covers ss x))
unfolding put
put_lem low r [] hr h sep far = ((hr, h, tt), λ x. refl)
put_lem low r (s ∷ ss) hr h ((a, b, c), d, e) (k, ks) =
    let other : (lo s == lo r) ≡ false = ground arith in
    elim (Bool-cases (ltb (lo s) (lo r))) [
      | inl l ↦
          let (sep, same) = put_lem (hi s + 2) r ss hr (ground arith) e ks in
          rw
            (
              loc_eq-position s.start r.start a hr.0,
              other,
              loc_lt-position s.start r.start a hr.0,
              l,
            )
            (
              (((a, b, c), d, sep)),
              λ x. rw (same x) (or_swap (within r x) (within s x) (covers ss x)),
            )
      | inr l ↦
          rw
            (
              loc_eq-position s.start r.start a hr.0,
              other,
              loc_lt-position s.start r.start a hr.0,
              l,
            )
            ((hr, h, ((a, b, c), ground arith, e)), λ x. refl)
    ]

pub or_true : (a b : Bool) → b ≡ true → (a || b) ≡ true
or_true a b h = ground arith

pub trim_lem :
    (cap low : ℕ) (ss : List Span)
    → Separated low ss
    → Separated low (trim cap ss)
      × (length (trim cap ss) ≤ cap)
      × ((x : ℕ) → covers (trim cap ss) x ≡ true → covers ss x ≡ true)
      × (length ss ≤ cap → trim cap ss ≡ ss)
unfolding trim
trim_lem cap low [] sep = (tt, omega arith, (λ x h. h), λ h. refl)
trim_lem cap low (s ∷ ss) (is, d, e) = elim (Bool-cases (ltb cap (suc (length ss)))) [
  | inl k ↦
      let (sep, short, sub, same) = trim_lem cap (hi s + 2) ss e in
      rw k (
        Separated-lower (hi s + 2) low (trim cap ss) (omega (arith, is.2)) sep,
        short,
        (λ x h. or_true (within s x) (covers ss x) (sub x h)),
        λ h. ground arith,
      )
  | inr k ↦ rw k ((is, d, e), ground arith, (λ x h. h), λ h. refl)
]

pub length-put : (r : Span) (ss : List Span) → length (put r ss) ≤ suc (length ss)
unfolding put
length-put r [] = omega arith
length-put r (s ∷ ss) = ground (arith, length-put r ss)
