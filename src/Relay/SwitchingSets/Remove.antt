-- ===== src/Relay/SwitchingSets/Remove.antt =====
-- `remove` and `release` of switching_set.rs keep the state in order.
use moqtail.Prelude.{
  ℕ, ◌≡◌, refl, List, [], ◌∷◌, true, false, Option, none, some, inl, inr, Bool-cases, Option-cases,
  ◌==◌, arith,
}
use moqtail.Data.TrackName.{FullTrackName}
use moqtail.Data.TrackName.Equality.{name_eq_iff}
use moqtail.Relay.SwitchingSets.{
  SwitchingSetMember, SwitchingSet, SwitchingSetManager, is_empty, find, retain_others,
  forget_relay, drop_member, remove,
}
use moqtail.Relay.SwitchingSets.Members.{
  test, any, any-retain_others, Distinct-retain_others, find-retain_others,
}
use moqtail.Relay.SwitchingSets.Ladder.{IsAscending-retain_others, any-retain_others-false}
use moqtail.Relay.SwitchingSets.Invariant.{
  is_relay, is_unheld, members_at, IsProper, IsWellFormed, put-IsProper, is_empty-any,
}

pub find-is_empty :
    (k : FullTrackName) (ms : List SwitchingSetMember) → is_empty ms ≡ true → find k ms ≡ none
unfolding find
find-is_empty k [] h = refl
find-is_empty k (m ∷ ms) h = cc

relays_of-forget_relay :
    (relays : ℕ → Option ℕ) (found : Option SwitchingSetMember) (q : ℕ) {s : ℕ}
    → forget_relay relays found q ≡ some s
    → (relays q ≡ some s) × (test (is_relay q) found ≡ false)
unfolding forget_relay
relays_of-forget_relay relays none q h = (h, refl)
relays_of-forget_relay relays (some old) q h = (ground arith, ground arith)

pub no_set :
    (m : SwitchingSetManager) (n : FullTrackName) (s : ℕ)
    → IsWellFormed m
    → m.track_to_set n ≡ some s
    → m.sets s ≡ none
    → ⊥
unfolding find
no_set m n s w e f = ground (arith, w.tracked n s)

module _ (m : SwitchingSetManager) (n : FullTrackName) (s : ℕ) (set : SwitchingSet)
    (w : IsWellFormed m) (tracked : m.track_to_set n ≡ some s) (found : m.sets s ≡ some set) where
  abbrev rest : List SwitchingSetMember
  rest = retain_others n set.members

  relay_rest :
      (q t : ℕ)
      → forget_relay m.relay_track_to_set (find n set.members) q ≡ some t
      → any (is_relay q) (members_at m t) ≡ true
  relay_rest q t h =
      w.relayed q t (relays_of-forget_relay m.relay_track_to_set (find n set.members) q h).0

  relay_kept :
      (q t : ℕ)
      → forget_relay m.relay_track_to_set (find n set.members) q ≡ some t
      → any (is_relay q) set.members ≡ true
      → any (is_relay q) rest ≡ true
  relay_kept q t h g = ground (
    arith,
    (relays_of-forget_relay m.relay_track_to_set (find n set.members) q h).1,
    any-retain_others (is_relay q) n set.members (w.proper s set found).ladder.distinct g,
  )

  kept : is_empty rest ≡ false → IsProper s (record set { members = rest })
  kept e =
      let p = w.proper s set found in
      record {
        same_id = p.same_id;
        ladder = record {
          inhabited = e;
          ascending = IsAscending-retain_others n set.members p.ladder.ascending;
          distinct = Distinct-retain_others n set.members p.ladder.distinct;
          held = any-retain_others-false is_unheld n set.members p.ladder.held;
        };
      }

  relay_gone :
      (q t : ℕ)
      → forget_relay m.relay_track_to_set (find n set.members) q ≡ some t
      → is_empty rest ≡ true
      → (s == t) ≡ true
      → ⊥
  relay_gone q t h e f =
      ground (arith, relay_rest q t h, relay_kept q t h, is_empty-any (is_relay q) rest)

  remove-IsWellFormed_found : IsWellFormed (remove m n)
  unfolding remove drop_member
  remove-IsWellFormed_found = elim (Bool-cases (is_empty rest)) [
    | inl e ↦
        rw (tracked, remove, found, drop_member, e)
          (record {
            tracked = λ k t. ground (
              arith,
              w.tracked k t,
              w.tracked n t,
              find-retain_others k n set.members,
              name_eq_iff n k,
              find-is_empty k rest,
            );
            relayed = λ q t h. elim (Bool-cases (s == t)) [
              | inl f ↦ absurd (relay_gone q t h e f)
              | inr f ↦ rw f (relay_rest q t h)
            ];
            counted = λ t c h. ground (arith, w.counted t c);
            proper = λ t set' h. w.proper t set' (ground arith);
          })
    | inr e ↦
        rw (tracked, remove, found, drop_member, e)
          (record {
            tracked = λ k t. ground (
              arith,
              w.tracked k t,
              w.tracked n t,
              find-retain_others k n set.members,
              name_eq_iff n k,
            );
            relayed = λ q t h. ground (arith, relay_rest q t h, relay_kept q t h);
            counted = λ t c h. ground (arith, w.counted t c);
            proper = put-IsProper m.sets s (record set { members = rest }) (kept e) w.proper;
          })
  ]

pub remove-IsWellFormed :
    (m : SwitchingSetManager) (n : FullTrackName) → IsWellFormed m → IsWellFormed (remove m n)
unfolding remove
remove-IsWellFormed m n w = elim (Option-cases (m.track_to_set n)) [
  | inl e ↦ rw (e, remove) w
  | inr (s, e) ↦ elim (Option-cases (m.sets s)) [
    | inl f ↦ absurd (no_set m n s w e f)
    | inr (set, f) ↦ remove-IsWellFormed_found m n s set w e f
  ]
]
