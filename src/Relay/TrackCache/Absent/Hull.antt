-- ===== src/Relay/TrackCache/Absent/Hull.antt =====
-- `AbsentRanges::insert` of track_cache.rs: the range that the new and the touching ones make up.
use moqtail.Prelude.{
  ℕ, ◌+◌, ◌≤◌, ◌≡◌, min, max, ap, ◌∙◌, List, [], ◌∷◌, Bool, true, ◌&&◌, ◌||◌, leb, arith, All,
}
use moqtail.Relay.TrackCache.{Span, span, min_loc, max_loc}
use moqtail.Relay.TrackCache.Absent.{lo, hi, IsSpan, loc_le-position}
use moqtail.Relay.TrackCache.Absent.Touching.{touches}
use moqtail.Relay.TrackCache.Absent.Absorb.{within, covers, Far, hull}

abbrev merged : Span → Span → Span
merged r s = span (min_loc r.start s.start) (max_loc r.end s.end)

merged_lem :
    (r s : Span)
    → IsSpan r
    → IsSpan s
    → IsSpan (merged r s)
      × (lo (merged r s) ≡ min (lo r) (lo s))
      × (hi (merged r s) ≡ max (hi r) (hi s))
merged_lem r s (a, b, c) (d, e, f) =
    rw (loc_le-position r.start s.start a d, loc_le-position r.end s.end b e) (ground arith)

between : ℕ → ℕ → ℕ → Bool
between a b x = leb a x && leb x b

between-min-max :
    (a b c d x : ℕ)
    → a ≤ b
    → c ≤ d
    → (leb c (b + 1) && leb a (d + 1)) ≡ true
    → between (min a c) (max b d) x ≡ (between a b x || between c d x)
unfolding between
between-min-max a b c d x h k e = ground arith

or_assoc : (a b c : Bool) → ((a || b) || c) ≡ (a || (b || c))
or_assoc a b c = ground arith

touches_wider :
    (f t f' t' : ℕ) (ts : List Span)
    → f' ≤ f
    → t ≤ t'
    → All (λ s. touches f t s ≡ true) ts
    → All (λ s. touches f' t' s ≡ true) ts
touches_wider f t f' t' [] h k all = tt
touches_wider f t f' t' (s ∷ ss) h k (a, all) = (ground arith, touches_wider f t f' t' ss h k all)

pub hull_lem :
    (ts : List Span) (r : Span)
    → IsSpan r
    → All IsSpan ts
    → All (λ s. touches (lo r) (hi r) s ≡ true) ts
    → IsSpan (hull ts r)
      × ((x : ℕ) → within (hull ts r) x ≡ (within r x || covers ts x))
      × ((q : Span) → IsSpan q → Far q r → All (Far q) ts → Far q (hull ts r))
unfolding between
hull_lem [] r hr hs all = (hr, (λ x. ground arith), λ q hq far fars. far)
hull_lem (s ∷ ss) r hr (h, hs) (k, all) =
    let (here, low, high) = merged_lem r s hr h in
    let (is, same, far) = hull_lem ss (merged r s) here hs (
      touches_wider (lo r) (hi r) (lo (merged r s)) (hi (merged r s)) ss (omega arith) (omega arith)
        all) in
    (
      is,
      (λ x.
          same x
          ∙ ap (λ b. b || covers ss x)
              (rw (low, high) (between-min-max (lo r) (hi r) (lo s) (hi s) x hr.2 h.2 k))
          ∙ or_assoc (within r x) (within s x) (covers ss x)),
      λ q hq a (b, bs). far q hq (ground arith) bs,
    )
