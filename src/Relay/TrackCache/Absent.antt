-- ===== src/Relay/TrackCache/Absent.antt =====
-- `AbsentRanges` of track_cache.rs: Locations as numbers in their order.

pub mod Touching
pub mod Absorb
pub mod Hull
pub mod Apart
pub mod Put
pub mod Insert
pub mod History
pub mod Holding
use moqtail.Prelude.{
  ℕ, ◌+◌, ◌*◌, ◌^◌, ◌≤◌, ◌<◌, ◌≡◌, refl, List, [], ◌∷◌, Bool, true, false, ◌&&◌, ◌||◌, ltb, leb,
  ◌==◌, arith, none, some,
}
use moqtail.Wire.Location.{Location, IsLocation, loc_lt, loc_le, next}
use moqtail.Relay.TrackCache.{Span, loc_eq, reaches, limit_of}

abbrev pub position : Location → ℕ
position l = l.group * 2 ^ 64 + l.object

abbrev pub lo : Span → ℕ
lo s = position s.start

abbrev pub hi : Span → ℕ
hi s = position s.end

abbrev pub IsSpan : Span → Type 0
IsSpan s = IsLocation s.start × IsLocation s.end × (lo s ≤ hi s)

-- Spans in their order, from `low` on, with at least one Location between two of them.
abbrev pub Separated : ℕ → List Span → Type 0
Separated low [] = Unit {0}
Separated low (s ∷ ss) = IsSpan s × (low ≤ lo s) × Separated (hi s + 2) ss

pub loc_le-position :
    (a b : Location) → IsLocation a → IsLocation b → loc_le a b ≡ leb (position a) (position b)
loc_le-position a b ha hb = ground arith

pub loc_lt-position :
    (a b : Location) → IsLocation a → IsLocation b → loc_lt a b ≡ ltb (position a) (position b)
loc_lt-position a b ha hb = ground arith

pub loc_eq-position :
    (a b : Location) → IsLocation a → IsLocation b → loc_eq a b ≡ (position a == position b)
loc_eq-position a b ha hb = ground arith

pub reaches-position :
    (from : Location) (s : Span)
    → IsLocation from
    → IsLocation s.end
    → reaches from s ≡ leb (position from) (hi s + 1)
unfolding next
reaches-position from s hf hs = ground arith

pub limit_of-position :
    (to : Location) (l : Location)
    → IsLocation to
    → IsLocation l
    → loc_le l (limit_of to) ≡ leb (position l) (position to + 1)
unfolding next
limit_of-position to l ht hl = ground arith
