-- ===== src/Relay/TrackCache/Absent/Touching.antt =====
-- `AbsentRanges::insert` of track_cache.rs: which ranges the search finds to touch the new one.
use moqtail.Prelude.{
  ℕ, ◌+◌, ◌≤◌, ◌≡◌, refl, ap, ◌∙◌, List, [], ◌∷◌, ◌++◌, Bool, true, false, ◌&&◌, leb, arith,
  reverse, reverse-cons, All, All-reverse, inl, inr, Bool-cases, if◌then◌else◌, le→leb,
}
use moqtail.Wire.Location.{Location, IsLocation}
use moqtail.Relay.TrackCache.{Span, reaches, limit_of, starting_to, take_reaching}
use moqtail.Relay.TrackCache.Absent.{
  position, lo, hi, Separated, reaches-position, limit_of-position,
}

-- A range overlaps `f` to `t`, or lies right beside it.
abbrev pub touches : ℕ → ℕ → Span → Bool
touches f t s = leb (lo s) (t + 1) && leb f (hi s + 1)

abbrev pub touching : ℕ → ℕ → List Span → List Span
touching f t [] = []
touching f t (s ∷ ss) = if touches f t s then s ∷ touching f t ss else touching f t ss

abbrev AllReach : Location → List Span → Type 0
AllReach from = All (λ s. reaches from s ≡ true)

take_reaching_all :
    (from : Location) (xs : List Span) → AllReach from xs → take_reaching from xs ≡ xs
unfolding take_reaching
take_reaching_all from [] h = refl
take_reaching_all from (x ∷ xs) h = rw h.0 (ap (◌∷◌ x) (take_reaching_all from xs h.1))

take_reaching_push :
    (from : Location) (xs : List Span) (s : Span)
    → reaches from s ≡ false
    → take_reaching from (xs ++ s ∷ []) ≡ take_reaching from xs
unfolding take_reaching
take_reaching_push from [] s h = rw h refl
take_reaching_push from (x ∷ xs) s h = elim (Bool-cases (reaches from x)) [
  | inl e ↦ rw e (ap (◌∷◌ x) (take_reaching_push from xs s h))
  | inr e ↦ rw e refl
]

module _ (from to : Location) (hf : IsLocation from) (ht : IsLocation to)
    (ordered : position from ≤ position to) where
  -- Behind a range that reaches `from`, all do.
  behind :
      (low : ℕ) (ss : List Span)
      → Separated low ss
      → position from ≤ low + 1
      → AllReach from (starting_to (limit_of to) ss)
        × (touching (position from) (position to) ss ≡ starting_to (limit_of to) ss)
  unfolding starting_to
  behind low [] sep h = (tt, refl)
  behind low (s ∷ ss) ((a, b, c), d, e) h =
      let (all, same) = behind (hi s + 2) ss e (omega arith) in
      let reach : leb (position from) (hi s + 1) ≡ true = le→leb _ _ (omega arith) in
      elim (Bool-cases (leb (lo s) (position to + 1))) [
        | inl k ↦
            rw (limit_of-position to s.start ht a, k, reach)
              ((reaches-position from s hf b ∙ reach, all), ap (◌∷◌ s) same)
        | inr k ↦ rw (limit_of-position to s.start ht a, k) (all, same)
      ]

  -- The search from the back finds what touches the new range.
  pub take_reaching-reverse :
      (low : ℕ) (ss : List Span)
      → Separated low ss
      → take_reaching from (reverse (starting_to (limit_of to) ss))
        ≡ reverse (touching (position from) (position to) ss)
  unfolding starting_to take_reaching
  take_reaching-reverse low [] sep = refl
  take_reaching-reverse low (s ∷ ss) ((a, b, c), d, e) =
      elim (Bool-cases (leb (lo s) (position to + 1))) [
        | inl k ↦ elim (Bool-cases (leb (position from) (hi s + 1))) [
          | inl r ↦
              let (all, same) = behind (hi s + 2) ss e (ground arith) in
              rw (limit_of-position to s.start ht a, k, r, same)
                (take_reaching_all from (reverse (s ∷ starting_to (limit_of to) ss)) (
                  All-reverse (λ s. reaches from s ≡ true) (s ∷ starting_to (limit_of to) ss)
                    (reaches-position from s hf b ∙ r, all)))
          | inr r ↦
              rw (limit_of-position to s.start ht a, k, r)
                (rw (reverse-cons s (starting_to (limit_of to) ss)) (
                  take_reaching_push from _ s (reaches-position from s hf b ∙ r)
                  ∙ take_reaching-reverse (hi s + 2) ss e))
        ]
        | inr k ↦ rw (limit_of-position to s.start ht a, k) (take_reaching-reverse (hi s + 2) ss e)
      ]
