-- ===== src/Relay/TrackCache/Absent/History.antt =====
-- `TrackCache::mark_absent` of track_cache.rs, called again and again.
use moqtail.Prelude.{
  ℕ, ◌+◌, ◌≤◌, ◌≡◌, refl, ◌∙◌, ap, sym, List, [], ◌∷◌, length, Bool, true, false, ◌||◌, arith, All,
  is_some,
}
use moqtail.Wire.Location.{Location, IsLocation}
use moqtail.Relay.TrackCache.{Span, mark_absent, end_containing, max_absent_ranges}
use moqtail.Relay.TrackCache.Absent.{position}
use moqtail.Relay.TrackCache.Absent.Absorb.{within, covers}
use moqtail.Relay.TrackCache.Absent.Holding.{holding, end_containing-holding}
use moqtail.Relay.TrackCache.Absent.Insert.{
  IsWellFormed, mark_absent-IsWellFormed, mark_absent-covers, mark_absent_exact, length-mark_absent,
}

-- The calls of `mark_absent`, the first in front.
unfoldable pub mark_all : List Span → List Span → List Span
mark_all [] ranges = ranges
mark_all (m ∷ ms) ranges = mark_all ms (mark_absent m.start m.end ranges)

abbrev pub AllLocations : List Span → Type 0
AllLocations = All (λ m. IsLocation m.start × IsLocation m.end)

or_rotate : (a b c : Bool) → (a || (b || c)) ≡ ((b || a) || c)
or_rotate a b c = ground arith

sub_rotate :
    (a b c d : Bool) → (c ≡ true → (b || d) ≡ true) → (a || c) ≡ true → ((b || a) || d) ≡ true
sub_rotate a b c d h k = ground arith

mark_all_from :
    (ms ranges : List Span)
    → AllLocations ms
    → IsWellFormed ranges
    → IsWellFormed (mark_all ms ranges)
      × ((x : ℕ) → covers (mark_all ms ranges) x ≡ true → (covers ms x || covers ranges x) ≡ true)
      × (length ms + length ranges ≤ max_absent_ranges
          → (x : ℕ) → covers (mark_all ms ranges) x ≡ (covers ms x || covers ranges x))
unfolding mark_all
mark_all_from [] ranges h w = (w, (λ x e. e), λ k x. refl)
mark_all_from (m ∷ ms) ranges ((a, b), h) w =
    let ranges' = mark_absent m.start m.end ranges in
    let (is, sound, exact) =
      mark_all_from ms ranges' h (mark_absent-IsWellFormed m.start m.end ranges a b w) in
    (
      is,
      (λ x e.
          sub_rotate (covers ms x) (within m x) (covers ranges' x) (covers ranges x)
            (mark_absent-covers m.start m.end ranges a b w.0 x) (sound x e)),
      λ k x.
          exact (omega (arith, length-mark_absent m.start m.end ranges a b w.0)) x
          ∙ ap (λ c. covers ms x || c)
              (mark_absent_exact m.start m.end ranges a b w.0 (omega arith) x)
          ∙ or_rotate (covers ms x) (within m x) (covers ranges x),
    )

or_false : (a : Bool) → (a || false) ≡ a
or_false a = ground arith

-- The ranges are in order and apart, never more than there may be, and cover only what was marked,
-- and all of it while there were not more marks than there may be ranges.
pub covers-mark_all :
    (ms : List Span)
    → AllLocations ms
    → IsWellFormed (mark_all ms [])
      × ((x : ℕ) → covers (mark_all ms []) x ≡ true → covers ms x ≡ true)
      × (length ms ≤ max_absent_ranges → (x : ℕ) → covers (mark_all ms []) x ≡ covers ms x)
covers-mark_all ms h =
    let (is, sound, exact) = mark_all_from ms [] h (tt, omega arith) in
    (
      is,
      (λ x e. sym (or_false (covers ms x)) ∙ sound x e),
      λ k x. exact (omega arith) x ∙ or_false (covers ms x),
    )

is_some-holding : (x : ℕ) (ss : List Span) → is_some (holding x ss) ≡ covers ss x
is_some-holding x [] = refl
is_some-holding x (s ∷ ss) = ground (arith, is_some-holding x ss)

-- After up to 65536 calls of `mark_absent` with u64 Locations, in any order, overlapping or not,
-- `end_containing` finds a range for a u64 Location exactly if one of the calls marked it.
pub is_some-end_containing :
    (ms : List Span) (l : Location)
    → AllLocations ms
    → length ms ≤ max_absent_ranges
    → IsLocation l
    → is_some (end_containing l (mark_all ms [])) ≡ covers ms (position l)
is_some-end_containing ms l h k hl =
    let (is, sound, exact) = covers-mark_all ms h in
    ap is_some (end_containing-holding l 0 (mark_all ms []) hl is.0)
    ∙ is_some-holding (position l) (mark_all ms [])
    ∙ exact k (position l)
