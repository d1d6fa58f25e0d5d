-- ===== src/Relay/TrackCache/Absent/Holding.antt =====
-- `AbsentRanges::end_containing` of track_cache.rs against a search of all ranges.
use moqtail.Prelude.{
  ℕ, ◌+◌, ◌≤◌, ◌<◌, ◌≡◌, refl, sym, ◌∙◌, List, [], ◌∷◌, true, false, leb, arith, inl, inr,
  Bool-cases, if◌then◌else◌, Option, none, some,
}
use moqtail.Wire.Location.{Location, IsLocation, loc_le}
use moqtail.Relay.TrackCache.{Span, starting_to, end_containing, end_if_holds, last}
use moqtail.Relay.TrackCache.Absent.{position, lo, hi, Separated, loc_le-position}
use moqtail.Relay.TrackCache.Absent.Absorb.{within, covers}

-- The end of the first range that holds `x`.
abbrev pub holding : ℕ → List Span → Option Location
holding x [] = none
holding x (s ∷ ss) = if within s x then some s.end else holding x ss

abbrev last_or : Option Span → Span → Option Span
last_or none s = some s
last_or (some r) s = some r

last_or-last : (r : Span) (rs : List Span) (s : Span) → last_or (last (r ∷ rs)) s ≡ last (r ∷ rs)
last_or-last r [] s = refl
last_or-last r (q ∷ qs) s = last_or-last q qs s

last_cons : (s : Span) (ss : List Span) → last (s ∷ ss) ≡ last_or (last ss) s
last_cons s [] = refl
last_cons s (r ∷ rs) = sym (last_or-last r rs s)

above :
    (l : Location) (low : ℕ) (ss : List Span)
    → IsLocation l
    → Separated low ss
    → position l < low
    → (starting_to l ss ≡ []) × (holding (position l) ss ≡ none)
unfolding starting_to
above l low [] hl sep h = (refl, refl)
above l low (s ∷ ss) hl ((a, b, c), d, e) h =
    let rest = above l (hi s + 2) ss hl e (omega arith) in
    let late : leb (lo s) (position l) ≡ false = ground arith in
    rw (loc_le-position s.start l a hl, late) rest

passed :
    (l : Location) (s : Span) {found : Option Location} (o : Option Span)
    → end_if_holds l o ≡ found
    → loc_le l s.end ≡ false
    → end_if_holds l (last_or o s) ≡ found
passed l s none h k = rw k h
passed l s (some r) h k = h

-- The last range that starts by `l` is the only one that may hold it.
pub end_containing-holding :
    (l : Location) (low : ℕ) (ss : List Span)
    → IsLocation l
    → Separated low ss
    → end_containing l ss ≡ holding (position l) ss
unfolding end_containing starting_to
end_containing-holding l low [] hl sep = refl
end_containing-holding l low (s ∷ ss) hl ((a, b, c), d, e) =
    elim (Bool-cases (leb (lo s) (position l))) [
      | inr k ↦ rw (loc_le-position s.start l a hl, k) (end_containing-holding l (hi s + 2) ss hl e)
      | inl k ↦ elim (Bool-cases (leb (position l) (hi s))) [
        | inl h ↦
            let (no_start, no_hold) = above l (hi s + 2) ss hl e (ground arith) in
            rw (loc_le-position s.start l a hl, k, no_start, loc_le-position l s.end hl b, h) refl
        | inr h ↦
            rw (loc_le-position s.start l a hl, k, h, last_cons s (starting_to l ss))
              (passed l s (last (starting_to l ss)) (end_containing-holding l (hi s + 2) ss hl e)
                (loc_le-position l s.end hl b ∙ h))
      ]
    ]

-- A range that holds `x` is found, and what is found lies behind `x`, all covered up to it.
pub holding_found :
    (x low : ℕ) (ss : List Span) {end : Location}
    → Separated low ss
    → holding x ss ≡ some end
    → IsLocation end
      × (x ≤ position end)
      × ((y : ℕ) → x ≤ y → y ≤ position end → covers ss y ≡ true)
holding_found x low [] sep h = cc
holding_found x low (s ∷ ss) {end} ((a, b, c), d, e) h = elim (Bool-cases (within s x)) [
  | inl k ↦
      let same : s.end ≡ end = ground arith in rw (← same) (b, ground arith, λ y p q. ground arith)
  | inr k ↦
      let rest : holding x ss ≡ some end = ground arith in
      let (is, le, all) = holding_found x (hi s + 2) ss e rest in
      (is, le, λ y p q. ground (arith, all y))
]

pub holding-none : (x : ℕ) (ss : List Span) → holding x ss ≡ none → covers ss x ≡ false
holding-none x [] h = refl
holding-none x (s ∷ ss) h = ground (arith, holding-none x ss)
