-- ===== src/Relay/TrackCache/Complete.antt =====
-- `objects_if_complete` of track_cache.rs: the loop over the Locations of a range.
use moqtail.Prelude.{
  ℕ, zero, suc, ◌+◌, ◌-◌, ◌≤◌, ◌<◌, ◌≡◌, refl, List, [], ◌∷◌, Bool, true, false, ◌||◌, ltb, leb,
  ◌==◌, arith, inl, inr, Bool-cases, Option-cases, Option, some,
}
use moqtail.Wire.Buffer.{IsU64, checked_add}
use moqtail.Wire.Location.{Location, IsLocation, loc}
use moqtail.Relay.TrackCache.{Span, Round, go_on, ends, take_held, skip_absent, round, scan}
use moqtail.Relay.TrackCache.Absent.{position, Separated}
use moqtail.Relay.TrackCache.Absent.Absorb.{covers}
use moqtail.Relay.TrackCache.Absent.Holding.{
  holding, end_containing-holding, holding_found, holding-none,
}

abbrev pub member : ℕ → List ℕ → Bool
member x [] = false
member x (y ∷ ys) = (y == x) || member x ys

-- The Location `x` of the group is known to hold no Object, or its Object is held.
abbrev pub accounted : ℕ → List Span → List ℕ → ℕ → Bool
accounted group absent held x = covers absent (position (loc group x)) || member x held

abbrev pub Rising : ℕ → List ℕ → Type 0
Rising low [] = Unit {0}
Rising low (y ∷ ys) = (low ≤ y) × Rising (y + 1) ys

-- What a round does is right: where it ends by `break`, the rest is accounted for; where it goes on, it
-- goes further and skips only what is accounted for.
Rising-from :
    (low low' : ℕ) (ys : List ℕ)
    → Rising low ys
    → ((x : ℕ) → low ≤ x → x < low' → member x ys ≡ false)
    → Rising low' ys
Rising-from low low' [] rise h = tt
Rising-from low low' (y ∷ ys) (a, rise) h = (ground (arith, h y), rise)

member_below : (x low : ℕ) (ys : List ℕ) → Rising low ys → x < low → member x ys ≡ false
member_below x low [] rise h = refl
member_below x low (y ∷ ys) (a, rise) h = ground (arith, member_below x (y + 1) ys rise)

RoundGood : ℕ → ℕ → List Span → ℕ → List ℕ → Round → Type 0
RoundGood group hi absent cursor held (go_on next held') =
    (cursor < next)
    × (next ≤ hi + 1)
    × ((x : ℕ) → cursor ≤ x → x < next → accounted group absent held x ≡ true)
    × ((x : ℕ) → accounted group absent held' x ≡ true → accounted group absent held x ≡ true)
RoundGood group hi absent cursor held (ends true) =
    (x : ℕ) → cursor ≤ x → x ≤ hi → accounted group absent held x ≡ true
RoundGood group hi absent cursor held (ends false) = cursor ≤ hi

module _ (group hi : ℕ) (absent : List Span) (sep : Separated 0 absent) (hg : IsU64 group)
    (hh : IsU64 hi) where
  skip_absent-RoundGood :
      (cursor : ℕ) (held : List ℕ) (end : Location)
      → cursor ≤ hi
      → holding (position (loc group cursor)) absent ≡ some end
      → RoundGood group hi absent cursor held (skip_absent group hi end held)
  unfolding RoundGood
  skip_absent-RoundGood cursor held end le e =
      let (is, behind, all) = holding_found (position (loc group cursor)) 0 absent sep e in
      elim (Bool-cases (ltb group end.group || leb hi end.object)) [
        | inl k ↦ rw k (λ x p q. ground (arith, all (position (loc group x))))
        | inr k ↦ rw k (
          ground arith,
          ground arith,
          (λ x p q. ground (arith, all (position (loc group x)))),
          λ x h. h,
        )
      ]

  take_held-RoundGood :
      (cursor : ℕ) (held : List ℕ)
      → cursor ≤ hi
      → RoundGood group hi absent cursor held (take_held cursor held)
  unfolding RoundGood
  take_held-RoundGood cursor [] le = le
  take_held-RoundGood cursor (id ∷ held) le = elim (Bool-cases (id == cursor)) [
    | inr k ↦ rw k le
    | inl k ↦ elim (Option-cases (checked_add cursor 1)) [
      | inl n ↦ rw (k, n) (λ x p q. ground arith)
      | inr (next, n) ↦
          rw (k, n) (ground arith, ground arith, (λ x p q. ground arith), λ x h. ground arith)
    ]
  ]

  located : (cursor : ℕ) → leb cursor hi ≡ true → IsLocation (loc group cursor)
  located cursor k = (hg, ground arith)

  round-RoundGood :
      (cursor : ℕ) (held : List ℕ)
      → RoundGood group hi absent cursor held (round group hi absent cursor held)
  unfolding round RoundGood
  round-RoundGood cursor held = elim (Bool-cases (leb cursor hi)) [
    | inr k ↦ rw k (λ x p q. absurd (ground arith))
    | inl k ↦ elim (Option-cases (holding (position (loc group cursor)) absent)) [
      | inl n ↦
          rw (k, end_containing-holding (loc group cursor) 0 absent (located cursor k) sep, n)
            (take_held-RoundGood cursor held (ground arith))
      | inr (end, n) ↦
          rw (k, end_containing-holding (loc group cursor) 0 absent (located cursor k) sep, n)
            (skip_absent-RoundGood cursor held end (ground arith) n)
    ]
  ]

  abbrev after : ℕ → Round → Option Bool
  after fuel r = elim r [ go_on next held ↦ scan fuel group hi absent next held | ends b ↦ some b ]

  abbrev AllAccounted : ℕ → List ℕ → Type 0
  AllAccounted cursor held = (x : ℕ) → cursor ≤ x → x ≤ hi → accounted group absent held x ≡ true

  round_sound :
      (fuel cursor : ℕ) (held : List ℕ) (r : Round)
      → ((next : ℕ) (held' : List ℕ)
          → scan fuel group hi absent next held' ≡ some true
          → AllAccounted next held')
      → RoundGood group hi absent cursor held r
      → after fuel r ≡ some true
      → (x : ℕ) → cursor ≤ x
      → x ≤ hi
      → accounted group absent held x ≡ true
  unfolding RoundGood
  round_sound fuel cursor held (go_on next held') ih (further, short, skipped, fewer) e x p q =
      elim (Bool-cases (ltb x next)) [
        | inl k ↦ skipped x p (ground arith)
        | inr k ↦ fewer x (ih next held' e x (ground arith) q)
      ]
  round_sound fuel cursor held (ends true) ih good e x p q = good x p q
  round_sound fuel cursor held (ends false) ih good e x p q = cc

  pub scan_sound :
      (fuel cursor : ℕ) (held : List ℕ)
      → scan fuel group hi absent cursor held ≡ some true
      → AllAccounted cursor held
  unfolding scan
  scan_sound zero cursor held e = cc
  scan_sound (suc fuel) cursor held e =
      round_sound fuel cursor held (round group hi absent cursor held) (scan_sound fuel)
        (round-RoundGood cursor held) e

  round_returns :
      (fuel cursor : ℕ) (held : List ℕ) (r : Round)
      → ((next : ℕ) (held' : List ℕ)
          → hi + 1 - next < fuel
          → (b : Bool) × (scan fuel group hi absent next held' ≡ some b))
      → RoundGood group hi absent cursor held r
      → hi + 1 - cursor < suc fuel
      → (b : Bool) × (after fuel r ≡ some b)
  unfolding RoundGood
  round_returns fuel cursor held (go_on next held') ih (further, short, skipped, fewer) h =
      ih next held' (omega arith)
  round_returns fuel cursor held (ends b) ih good h = (b, refl)

  -- Enough fuel: a round takes the cursor further, and not past the end.
  pub scan_returns :
      (fuel cursor : ℕ) (held : List ℕ)
      → hi + 1 - cursor < fuel
      → (b : Bool) × (scan fuel group hi absent cursor held ≡ some b)
  unfolding scan
  scan_returns zero cursor held h = absurd (omega arith)
  scan_returns (suc fuel) cursor held h =
      round_returns fuel cursor held (round group hi absent cursor held) (scan_returns fuel)
        (round-RoundGood cursor held) h

  -- No Object is held at a Location that is known to hold none.
  abbrev pub Apart : List ℕ → Type 0
  Apart held = (x : ℕ) → member x held ≡ true → covers absent (position (loc group x)) ≡ false

  RoundFair : ℕ → Round → Type 0
  RoundFair cursor (go_on next held) = Rising next held × Apart held × AllAccounted next held
  RoundFair cursor (ends true) = Unit {0}
  RoundFair cursor (ends false) = ⊥

  module _ (cursor : ℕ) where
    skip_absent-RoundFair :
        (held : List ℕ) (end : Location)
        → holding (position (loc group cursor)) absent ≡ some end
        → Rising cursor held
        → Apart held
        → AllAccounted cursor held
        → RoundFair cursor (skip_absent group hi end held)
    unfolding RoundFair
    skip_absent-RoundFair held end e rise apart all =
        let (is, behind, covered) = holding_found (position (loc group cursor)) 0 absent sep e in
        elim (Bool-cases (ltb group end.group || leb hi end.object)) [
          | inl k ↦ rw k tt
          | inr k ↦ rw k (
            Rising-from cursor (end.object + 1) held rise
                (λ x p q. ground (arith, apart x, covered (position (loc group x)))),
            apart,
            λ x p q. all x (ground arith) q,
          )
        ]

    take_held-RoundFair :
        (held : List ℕ)
        → covers absent (position (loc group cursor)) ≡ false
        → cursor ≤ hi
        → Rising cursor held
        → Apart held
        → AllAccounted cursor held
        → RoundFair cursor (take_held cursor held)
    unfolding RoundFair
    take_held-RoundFair [] clear le rise apart all = absurd (ground (arith, all cursor))
    take_held-RoundFair (id ∷ held) clear le (low, rise) apart all =
        elim (Bool-cases (id == cursor)) [
          | inr k ↦ rw k (ground (arith, all cursor, member_below cursor (id + 1) held rise))
          | inl k ↦ elim (Option-cases (checked_add cursor 1)) [
            | inl n ↦ rw (k, n) tt
            | inr (next, n) ↦
                let same : id + 1 ≡ next = ground arith in
                rw (k, n)
                  (
                    rw (← same) rise,
                    (λ x h. apart x (ground arith)),
                    λ x p q. ground (arith, all x),
                  )
          ]
        ]

  round-RoundFair :
      (cursor : ℕ) (held : List ℕ)
      → Rising cursor held
      → Apart held
      → AllAccounted cursor held
      → RoundFair cursor (round group hi absent cursor held)
  unfolding round RoundFair
  round-RoundFair cursor held rise apart all = elim (Bool-cases (leb cursor hi)) [
    | inr k ↦ rw k tt
    | inl k ↦ elim (Option-cases (holding (position (loc group cursor)) absent)) [
      | inl n ↦
          rw (k, end_containing-holding (loc group cursor) 0 absent (located cursor k) sep, n)
            (take_held-RoundFair cursor held (holding-none (position (loc group cursor)) absent n)
              (ground arith) rise apart all)
      | inr (end, n) ↦
          rw (k, end_containing-holding (loc group cursor) 0 absent (located cursor k) sep, n)
            (skip_absent-RoundFair cursor held end n rise apart all)
    ]
  ]

  round_fair :
      (fuel cursor : ℕ) (r : Round) (b : Bool)
      → ((next : ℕ) (held' : List ℕ)
          → Rising next held'
          → Apart held'
          → AllAccounted next held'
          → scan fuel group hi absent next held' ≡ some b
          → b ≡ true)
      → RoundFair cursor r
      → after fuel r ≡ some b
      → b ≡ true
  unfolding RoundFair
  round_fair fuel cursor (go_on next held) b ih (rise, apart, all) e = ih next held rise apart all e
  round_fair fuel cursor (ends true) b ih fair e = ground arith
  round_fair fuel cursor (ends false) b ih fair e = absurd fair

  pub scan_fair :
      (fuel cursor : ℕ) (held : List ℕ) (b : Bool)
      → Rising cursor held
      → Apart held
      → AllAccounted cursor held
      → scan fuel group hi absent cursor held ≡ some b
      → b ≡ true
  unfolding scan
  scan_fair zero cursor held b rise apart all e = cc
  scan_fair (suc fuel) cursor held b rise apart all e =
      round_fair fuel cursor (round group hi absent cursor held) b
        (λ next held'. scan_fair fuel next held' b) (round-RoundFair cursor held rise apart all) e
