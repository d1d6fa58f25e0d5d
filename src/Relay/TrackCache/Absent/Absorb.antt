-- ===== src/Relay/TrackCache/Absent/Absorb.antt =====
-- `AbsentRanges::insert` of track_cache.rs: the loop that takes the touching ranges in.
use moqtail.Prelude.{
  ℕ, ◌+◌, ◌<◌, ◌≡◌, refl, ap, ◌∙◌, List, [], ◌∷◌, ◌++◌, Bool, true, false, ◌&&◌, ◌||◌, leb, arith,
  reverse, reverse-cons, ◌⊎◌, inl, inr, Bool-cases, if◌then◌else◌, All, All-reverse,
}
use moqtail.Wire.Location.{IsLocation}
use moqtail.Relay.TrackCache.{Span, span, loc_eq, remove, absorb, min_loc, max_loc}
use moqtail.Relay.TrackCache.Absent.{lo, hi, Separated, loc_eq-position}
use moqtail.Relay.TrackCache.Absent.Touching.{touches, touching}

abbrev pub apart : ℕ → ℕ → List Span → List Span
apart f t [] = []
apart f t (s ∷ ss) = if touches f t s then apart f t ss else s ∷ apart f t ss

abbrev pub within : Span → ℕ → Bool
within s x = leb (lo s) x && leb x (hi s)

abbrev pub covers : List Span → ℕ → Bool
covers [] x = false
covers (s ∷ ss) x = within s x || covers ss x

-- There is a Location between the two.
abbrev pub Far : Span → Span → Type 0
Far q r = (hi q + 1 < lo r) ⊎ (hi r + 1 < lo q)

abbrev pub hull : List Span → Span → Span
hull [] r = r
hull (s ∷ ss) r = hull ss (span (min_loc r.start s.start) (max_loc r.end s.end))

abbrev pub remove_all : List Span → List Span → List Span
remove_all [] l = l
remove_all (s ∷ ss) l = remove_all ss (remove s.start l)

pub absorb_lem :
    (ts : List Span) (r : Span) (l : List Span) → absorb ts (r, l) ≡ (hull ts r, remove_all ts l)
unfolding absorb
absorb_lem [] r l = refl
absorb_lem (s ∷ ss) r l =
    absorb_lem ss (span (min_loc r.start s.start) (max_loc r.end s.end)) (remove s.start l)

remove_all-append :
    (xs ys l : List Span) → remove_all (xs ++ ys) l ≡ remove_all ys (remove_all xs l)
remove_all-append [] ys l = refl
remove_all-append (x ∷ xs) ys l = remove_all-append xs ys (remove x.start l)

remove_all_keep :
    (ts : List Span) (s : Span) (l : List Span)
    → All (λ t. loc_eq s.start t.start ≡ false) ts
    → remove_all ts (s ∷ l) ≡ s ∷ remove_all ts l
unfolding remove
remove_all_keep [] s l h = refl
remove_all_keep (t ∷ ts) s l h = rw h.0 (remove_all_keep ts s (remove t.start l) h.1)

module _ (f t : ℕ) where
  touching_above :
      (s : Span) (low : ℕ) (ss : List Span)
      → IsLocation s.start
      → lo s < low
      → Separated low ss
      → All (λ r. loc_eq s.start r.start ≡ false) (touching f t ss)
  touching_above s low [] hs h sep = tt
  touching_above s low (r ∷ rs) hs h ((a, b, c), d, e) =
      let rest = touching_above s (hi r + 2) rs hs (omega arith) e in
      let other : loc_eq s.start r.start ≡ false =
        loc_eq-position s.start r.start hs a ∙ ground arith in
      elim (Bool-cases (touches f t r)) [ inl k ↦ rw k (other, rest) | inr k ↦ rw k rest ]

  pub remove_all-touching :
      (low : ℕ) (ss : List Span)
      → Separated low ss
      → remove_all (reverse (touching f t ss)) ss ≡ apart f t ss
  unfolding remove
  remove_all-touching low [] sep = refl
  remove_all-touching low (s ∷ ss) ((a, b, c), d, e) =
      let ih = remove_all-touching (hi s + 2) ss e in
      let kept =
        remove_all_keep (reverse (touching f t ss)) s ss
          (All-reverse _ _ (touching_above s (hi s + 2) ss a (omega arith) e))
        ∙ ap (◌∷◌ s) ih in
      let self : loc_eq s.start s.start ≡ true = ground arith in
      elim (Bool-cases (touches f t s)) [
        | inl k ↦ rw k (
            rw (reverse-cons s (touching f t ss)) (
              remove_all-append (reverse (touching f t ss)) (s ∷ []) (s ∷ ss)
              ∙ rw kept (rw self refl)))
        | inr k ↦ rw k kept
      ]

  pub touching-All : (ss : List Span) → All (λ s. touches f t s ≡ true) (touching f t ss)
  touching-All [] = tt
  touching-All (s ∷ ss) = elim (Bool-cases (touches f t s)) [
    | inl k ↦ rw k (k, touching-All ss)
    | inr k ↦ rw k (touching-All ss)
  ]
