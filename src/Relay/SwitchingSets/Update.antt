-- ===== src/Relay/SwitchingSets/Update.antt =====
-- `update_assignment` of switching_set.rs, and what else changes one set and not its tracks.
use moqtail.Prelude.{
  is_some, ℕ, ◌≡◌, refl, ap, ◌∙◌, List, true, Option, none, some, inl, inr, Bool-cases,
  Option-cases, ◌==◌, if◌then◌else◌, arith,
}
use moqtail.Data.TrackName.{FullTrackName, name_eq}
use moqtail.Data.TrackName.Equality.{name_eq_iff}
use moqtail.Relay.SwitchingSets.{
  SwitchingSetMember, SwitchingSet, SwitchingSetManager, find, replace, at_id, move_member,
  updated_set, AssignmentUpdate, update_assignment,
}
use moqtail.Relay.SwitchingSets.Members.{
  any, any-replace, any-replace_found, any-sort_members, Distinct, Distinct-replace, find-is_named,
  find-replace, find-sort_members,
}
use moqtail.Relay.SwitchingSets.Ladder.{is_empty-replace, any-replace-false, test-false}
use moqtail.Relay.SwitchingSets.Invariant.{
  is_relay, is_unheld, IsProper, IsWellFormed, IsLadder, put-IsProper, sort_members-IsLadder,
}

-- A set may change if its tracks and relay track ids stay.
pub put_back-IsWellFormed :
    (m : SwitchingSetManager) (s : ℕ) (set set' : SwitchingSet)
    → IsWellFormed m
    → m.sets s ≡ some set
    → IsProper s set'
    → ((k : FullTrackName) → is_some (find k set'.members) ≡ is_some (find k set.members))
    → ((r : ℕ) → any (is_relay r) set.members ≡ true → any (is_relay r) set'.members ≡ true)
    → IsWellFormed (record m { sets = at_id m.sets s (some set') })
put_back-IsWellFormed m s set set' w found p names relays = record {
  tracked = λ n t. ground (arith, w.tracked n t, names n);
  relayed = λ r t h. ground (arith, w.relayed r t, relays r);
  counted = λ t c h. ground (arith, w.counted t c, p.ladder.inhabited);
  proper = put-IsProper m.sets s set' p w.proper;
}

-- A member that is found and changed, and has its relay track id and a holder.
module _ (n : FullTrackName) (ms : List SwitchingSetMember) (old changed : SwitchingSetMember)
    (found : find n ms ≡ some old) (same_name : changed.full_track_name ≡ old.full_track_name) where
  pub replaced_name : changed.full_track_name ≡ n
  replaced_name = same_name ∙ (name_eq_iff old.full_track_name n).0 (find-is_named n ms found)

  is_some-found : is_some (find n ms) ≡ true
  is_some-found = ap is_some found

  pub find-replace_found :
      (k : FullTrackName)
      → find k (replace n changed ms) ≡ (if name_eq n k then some changed else find k ms)
  find-replace_found k = find-replace k n changed ms replaced_name is_some-found

  pub is_some-replace :
      (k : FullTrackName) → is_some (find k (replace n changed ms)) ≡ is_some (find k ms)
  is_some-replace k = ground (arith, find-replace_found k, name_eq_iff n k, is_some-found)

  pub Distinct-replace_found : Distinct ms → Distinct (replace n changed ms)
  Distinct-replace_found = Distinct-replace n changed ms replaced_name is_some-found

  pub relay-replace :
      (r : ℕ)
      → changed.relay_track_id ≡ old.relay_track_id
      → any (is_relay r) ms ≡ true
      → any (is_relay r) (replace n changed ms) ≡ true
  relay-replace r same h = ground (
    arith,
    any-replace (is_relay r) n changed ms h,
    any-replace_found (is_relay r) n changed ms is_some-found,
  )

move_member-IsLadder :
    (n : FullTrackName) (threshold : Option ℕ) (ms : List SwitchingSetMember)
    → IsLadder ms
    → IsLadder (move_member n threshold ms)
unfolding move_member
move_member-IsLadder n none ms l = l
move_member-IsLadder n (some t) ms l = elim (Option-cases (find n ms)) [
  | inl e ↦ rw (e, move_member) l
  | inr (old, e) ↦ elim (Bool-cases (old.throughput_threshold_kbps == t)) [
    | inl f ↦ rw (e, move_member, f) l
    | inr f ↦
        rw (e, move_member, f)
          (sort_members-IsLadder (replace n (record old { throughput_threshold_kbps = t }) ms)
            (is_empty-replace n (record old { throughput_threshold_kbps = t }) ms ∙ l.inhabited)
            (Distinct-replace_found n ms old (record old { throughput_threshold_kbps = t }) e refl
              l.distinct)
            (any-replace-false is_unheld n (record old { throughput_threshold_kbps = t }) ms l.held
              (test-false is_unheld n ms l.held e)))
  ]
]

module _ (n : FullTrackName) where
  is_some-move_member :
      (threshold : Option ℕ) (ms : List SwitchingSetMember) (k : FullTrackName)
      → IsLadder ms
      → is_some (find k (move_member n threshold ms)) ≡ is_some (find k ms)
  unfolding move_member
  is_some-move_member none ms k l = refl
  is_some-move_member (some t) ms k l = elim (Option-cases (find n ms)) [
    | inl e ↦ rw (e, move_member) refl
    | inr (old, e) ↦ elim (Bool-cases (old.throughput_threshold_kbps == t)) [
      | inl f ↦ rw (e, move_member, f) refl
      | inr f ↦
          let changed : SwitchingSetMember = record old { throughput_threshold_kbps = t } in
          rw (e, move_member, f)
            (ap is_some (
                find-sort_members k (replace n changed ms)
                  (Distinct-replace_found n ms old changed e refl l.distinct))
              ∙ is_some-replace n ms old changed e refl k)
    ]
  ]

  relay-move_member :
      (threshold : Option ℕ) (ms : List SwitchingSetMember) (r : ℕ)
      → any (is_relay r) ms ≡ true
      → any (is_relay r) (move_member n threshold ms) ≡ true
  unfolding move_member
  relay-move_member none ms r h = h
  relay-move_member (some t) ms r h = elim (Option-cases (find n ms)) [
    | inl e ↦ rw (e, move_member) h
    | inr (old, e) ↦ elim (Bool-cases (old.throughput_threshold_kbps == t)) [
      | inl f ↦ rw (e, move_member, f) h
      | inr f ↦
          let changed : SwitchingSetMember = record old { throughput_threshold_kbps = t } in
          rw (e, move_member, f)
            (any-sort_members (is_relay r) (replace n changed ms)
              ∙ relay-replace n ms old changed e refl r refl h)
    ]
  ]

pub update_assignment-IsWellFormed :
    (m : SwitchingSetManager) (n : FullTrackName) (u : AssignmentUpdate)
    → IsWellFormed m
    → IsWellFormed (update_assignment m n u).0
unfolding update_assignment updated_set
update_assignment-IsWellFormed m n u w = elim (Option-cases (m.track_to_set n)) [
  | inl e ↦ rw (e, update_assignment) w
  | inr (s, e) ↦ elim (Option-cases (m.sets s)) [
    | inl f ↦ rw (e, update_assignment, f) w
    | inr (set, f) ↦
        let kept =
          put_back-IsWellFormed m s set (updated_set set n u) w f
            (record {
              same_id = (w.proper s set f).same_id;
              ladder =
                  move_member-IsLadder n u.throughput_threshold_kbps set.members
                    (w.proper s set f).ladder;
            })
            (λ k.
              is_some-move_member n u.throughput_threshold_kbps set.members k
                (w.proper s set f).ladder)
            (λ r. relay-move_member n u.throughput_threshold_kbps set.members r) in
        rw (e, update_assignment, f)
          (record {
            tracked = kept.tracked;
            relayed = kept.relayed;
            counted = kept.counted;
            proper = kept.proper;
          })
  ]
]
