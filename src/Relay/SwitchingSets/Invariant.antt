-- ===== src/Relay/SwitchingSets/Invariant.antt =====
-- The state of the manager of switching_set.rs that its operations keep.
use moqtail.Prelude.{
  is_some, ℕ, ◌<◌, ◌≡◌, refl, ◌∙◌, List, [], ◌∷◌, map, Bool, true, false, not, ◌||◌, Option, none,
  some, inl, inr, Bool-cases, Option-cases, ==_iff, subst, ◌==◌, arith,
}
use moqtail.Prelude.Options.{some_injective}
use moqtail.Data.TrackName.{FullTrackName}
use moqtail.Relay.SwitchingSets.{
  SwitchingSetMember, SwitchingSet, SwitchingSetManager, new, is_empty, sort_members, find,
  members_of_set, at_id, note_stream_opened, note_stream_closed,
}
use moqtail.Relay.SwitchingSets.Members.{any, Distinct, Distinct-sort_members, any-sort_members}
use moqtail.Relay.SwitchingSets.Requests.{is_set}
use moqtail.Relay.SwitchingSets.Ladder.{
  threshold_of, IsAscending, IsAscending-sort_members, is_empty-sort_members,
}

abbrev pub is_relay : ℕ → SwitchingSetMember → Bool
is_relay r m = m.relay_track_id == r

-- No holder, or no set of holders.
abbrev pub is_unheld : SwitchingSetMember → Bool
is_unheld m = is_empty m.holders || not (is_set m.holders)

abbrev pub members_at : SwitchingSetManager → ℕ → List SwitchingSetMember
members_at m s = members_of_set (m.sets s)

abbrev pub tracks : Option ℕ → ℕ → Bool
tracks none s = false
tracks (some t) s = t == s

-- At least one member, a ladder by threshold, no name twice, and no member without a holder.
pub record IsLadder (members : List SwitchingSetMember) : Type 0 where
  pub inhabited : is_empty members ≡ false
  pub ascending : IsAscending (map threshold_of members)
  pub distinct : Distinct members
  pub held : any is_unheld members ≡ false

pub record IsProper (s : ℕ) (set : SwitchingSet) : Type 0 where
  pub same_id : set.id ≡ s
  pub ladder : IsLadder set.members

-- A track is mapped to a set exactly if it is a member there; a relay track id and a stream count
-- lead to a set that is there.
pub record IsWellFormed (m : SwitchingSetManager) : Type 0 where
  pub tracked :
      (n : FullTrackName) (s : ℕ) → tracks (m.track_to_set n) s ≡ is_some (find n (members_at m s))
  pub relayed :
      (r s : ℕ) → m.relay_track_to_set r ≡ some s → any (is_relay r) (members_at m s) ≡ true
  pub counted :
      (s c : ℕ) → m.open_streams s ≡ some c → (0 < c) × (is_empty (members_at m s) ≡ false)
  pub proper : (s : ℕ) (set : SwitchingSet) → m.sets s ≡ some set → IsProper s set

pub is_empty-any :
    (p : SwitchingSetMember → Bool) (ms : List SwitchingSetMember)
    → any p ms ≡ true
    → is_empty ms ≡ false
unfolding any
is_empty-any p [] h = cc
is_empty-any p (m ∷ ms) h = refl

pub new-IsWellFormed : IsWellFormed new
unfolding new find
new-IsWellFormed = record {
  tracked = λ n s. refl;
  relayed = λ r s h. cc;
  counted = λ s c h. cc;
  proper = λ s set h. cc;
}

pub note_stream_opened-IsWellFormed :
    (m : SwitchingSetManager) (r : ℕ) → IsWellFormed m → IsWellFormed (note_stream_opened m r)
unfolding note_stream_opened
note_stream_opened-IsWellFormed m r w = elim (Option-cases (m.relay_track_to_set r)) [
  | inl e ↦ rw (e, note_stream_opened) w
  | inr (s, e) ↦
      rw (e, note_stream_opened)
        (record {
          tracked = w.tracked;
          relayed = w.relayed;
          counted = λ t c h.
              ground (
                arith,
                w.counted t c,
                is_empty-any (is_relay r) (members_at m s) (w.relayed r s e),
              );
          proper = w.proper;
        })
]

pub note_stream_closed-IsWellFormed :
    (m : SwitchingSetManager) (r : ℕ) → IsWellFormed m → IsWellFormed (note_stream_closed m r)
unfolding note_stream_closed
note_stream_closed-IsWellFormed m r w = elim (Option-cases (m.relay_track_to_set r)) [
  | inl e ↦ rw (e, note_stream_closed) w
  | inr (s, e) ↦ elim (Option-cases (m.open_streams s)) [
    | inl f ↦ rw (e, f, note_stream_closed) w
    | inr (count, f) ↦
        rw (e, f, note_stream_closed)
          (record {
            tracked = w.tracked;
            relayed = w.relayed;
            counted = λ t c h. ground (arith, w.counted t c, w.counted s count f);
            proper = w.proper;
          })
  ]
]

pub put-IsProper :
    (sets : ℕ → Option SwitchingSet) (s : ℕ) (set : SwitchingSet)
    → IsProper s set
    → ((t : ℕ) (found : SwitchingSet) → sets t ≡ some found → IsProper t found)
    → (t : ℕ) (found : SwitchingSet) → at_id sets s (some set) t ≡ some found
    → IsProper t found
put-IsProper sets s set p q t found h = elim (Bool-cases (s == t)) [
  | inl e ↦
      let same : some set ≡ some found = ground arith in
      subst (λ u. IsProper u found) ((==_iff s t).0 e)
        (subst (λ (x : SwitchingSet). IsProper s x) (some_injective same) p)
  | inr e ↦ q t found (ground arith)
]

pub sort_members-IsLadder :
    (ms : List SwitchingSetMember)
    → is_empty ms ≡ false
    → Distinct ms
    → any is_unheld ms ≡ false
    → IsLadder (sort_members ms)
sort_members-IsLadder ms inhabited distinct held = record {
  inhabited = is_empty-sort_members ms ∙ inhabited;
  ascending = IsAscending-sort_members ms;
  distinct = Distinct-sort_members ms distinct;
  held = any-sort_members is_unheld ms ∙ held;
}
