-- ===== src/Relay/SwitchingSets/Histories.antt =====
-- Which subscription holds which track after any operations of the manager of switching_set.rs.
use moqtail.Prelude.{
  is_some, ℕ, ◌≡◌, refl, sym, ap, ◌∙◌, List, [], ◌∷◌, ◌↔◌, true, false, not, ◌&&◌, ◌||◌, Option,
  none, some, inl, inr, Bool-cases, Option-cases, ==_iff, ◌==◌, arith,
}
use moqtail.Data.TrackName.{FullTrackName, name_eq}
use moqtail.Data.TrackName.Equality.{name_eq_iff}
use moqtail.Relay.SwitchingSets.{
  SwitchingSetMember, SwitchingSetManager, Assignment, AssignmentUpdate, new, is_empty, find,
  replace, in_other_set, holds, assign, move_member, updated_set, update_assignment,
  note_stream_opened, note_stream_closed,
}
use moqtail.Relay.SwitchingSets.Members.{find-sort_members}
use moqtail.Relay.SwitchingSets.Ladder.{test-false}
use moqtail.Relay.SwitchingSets.Invariant.{
  is_unheld, members_at, IsLadder, IsWellFormed, new-IsWellFormed,
}
use moqtail.Relay.SwitchingSets.Update.{find-replace_found, Distinct-replace_found}
use moqtail.Relay.SwitchingSets.Assign.{held-members_at}
use moqtail.Relay.SwitchingSets.Holders.{holders_of, holding, holding-remove, holding-assigned}
use moqtail.Relay.SwitchingSets.Releases.{holding-release}
use moqtail.Relay.SwitchingSets.Runs.{
  Operation, stream_opened, stream_closed, assigning, releasing, removing, updating, step, run,
  held_after, held_by_history, step-IsWellFormed, run-IsWellFormed,
}

holders-move_member :
    (n k : FullTrackName) (threshold : Option ℕ) (ms : List SwitchingSetMember)
    → IsLadder ms
    → holders_of (find k (move_member n threshold ms)) ≡ holders_of (find k ms)
unfolding move_member
holders-move_member n k none ms l = refl
holders-move_member n k (some t) ms l = elim (Option-cases (find n ms)) [
  | inl e ↦ rw (e, move_member) refl
  | inr (old, e) ↦ elim (Bool-cases (old.throughput_threshold_kbps == t)) [
    | inl f ↦ rw (e, move_member, f) refl
    | inr f ↦
        let changed : SwitchingSetMember = record old { throughput_threshold_kbps = t } in
        rw
          (
            e,
            move_member,
            f,
            find-sort_members k (replace n changed ms)
                (Distinct-replace_found n ms old changed e refl l.distinct),
            find-replace_found n ms old changed e refl k,
          )
          (elim (Bool-cases (name_eq n k)) [
            | inl g ↦ rw (g, ← (name_eq_iff n k).0 g, e) refl
            | inr g ↦ rw g refl
          ])
  ]
]

holding-update_assignment :
    (m : SwitchingSetManager) (n k : FullTrackName) (u : AssignmentUpdate) (q : ℕ)
    → IsWellFormed m
    → holding (update_assignment m n u).0 k q ≡ holding m k q
unfolding update_assignment updated_set holding
holding-update_assignment m n k u q w = elim (Option-cases (m.track_to_set n)) [
  | inl e ↦ rw (e, update_assignment) refl
  | inr (s, e) ↦ elim (Option-cases (m.sets s)) [
    | inl f ↦ rw (e, update_assignment, f) refl
    | inr (set, f) ↦
        rw (e, update_assignment, f)
          (elim (Option-cases (m.track_to_set k)) [
            | inl g ↦ rw g refl
            | inr (t, g) ↦ elim (Bool-cases (s == t)) [
              | inl h ↦
                  rw (g, h, ← (==_iff s t).0 h, f)
                    (ap (holds q) (
                      holders-move_member n k u.throughput_threshold_kbps set.members
                        (w.proper s set f).ladder))
              | inr h ↦ rw (g, h) refl
            ]
          ])
  ]
]

holding-assign :
    (m : SwitchingSetManager) (n k : FullTrackName) (r q : ℕ) (a : Assignment)
    → IsWellFormed m
    → holding (assign m n r a).0 k q ≡ (
        (not (in_other_set m n a.switching_set_id) && (name_eq n k && (a.request_id == q)))
        || holding m k q)
unfolding assign
holding-assign m n k r q a w = elim (Bool-cases (in_other_set m n a.switching_set_id)) [
  | inl e ↦ rw e refl
  | inr e ↦ rw e (holding-assigned m w n k q r a e)
]

module _ (m : SwitchingSetManager) (r : ℕ) (k : FullTrackName) (q : ℕ) where
  holding-note_stream_opened : holding (note_stream_opened m r) k q ≡ holding m k q
  unfolding holding note_stream_opened
  holding-note_stream_opened = elim (Option-cases (m.relay_track_to_set r)) [
    | inl e ↦ rw (e, note_stream_opened) refl
    | inr (s, e) ↦ rw (e, note_stream_opened) refl
  ]

  holding-note_stream_closed : holding (note_stream_closed m r) k q ≡ holding m k q
  unfolding holding note_stream_closed
  holding-note_stream_closed = elim (Option-cases (m.relay_track_to_set r)) [
    | inl e ↦ rw (e, note_stream_closed) refl
    | inr (s, e) ↦ elim (Option-cases (m.open_streams s)) [
      | inl f ↦ rw (e, f, note_stream_closed) refl
      | inr (count, f) ↦ rw (e, f, note_stream_closed) refl
    ]
  ]

holding-step :
    (m : SwitchingSetManager) (op : Operation) (k : FullTrackName) (q : ℕ)
    → IsWellFormed m
    → holding (step m op) k q ≡ held_after m op k q (holding m k q)
unfolding step held_after
holding-step m (stream_opened r) k q w = holding-note_stream_opened m r k q
holding-step m (stream_closed r) k q w = holding-note_stream_closed m r k q
holding-step m (assigning n r a) k q w = holding-assign m n k r q a w
holding-step m (releasing n r) k q w = holding-release m w n k r q
holding-step m (removing n) k q w = holding-remove m w n k q
holding-step m (updating n u) k q w = holding-update_assignment m n k u q w

holding-run_from :
    (m : SwitchingSetManager) (ops : List Operation) (k : FullTrackName) (q : ℕ)
    → IsWellFormed m
    → holding (run m ops) k q ≡ held_by_history m ops k q (holding m k q)
unfolding run held_by_history
holding-run_from m [] k q w = refl
holding-run_from m (op ∷ ops) k q w =
    holding-run_from (step m op) ops k q (step-IsWellFormed m op w)
    ∙ ap (held_by_history (step m op) ops k q) (holding-step m op k q w)

-- After any operations on an empty manager, a subscription is among the holders of a track
-- exactly if it is by the history: accepted assignments add it, its release and the removal of
-- the track take it out, and nothing else changes it.
pub holding-run :
    (ops : List Operation) (k : FullTrackName) (q : ℕ)
    → holding (run new ops) k q ≡ held_by_history new ops k q false
unfolding new holding holds
holding-run ops k q = holding-run_from new ops k q new-IsWellFormed

first_holder : (hs : List ℕ) → is_empty hs ≡ false → (q : ℕ) × (holds q hs ≡ true)
unfolding holds
first_holder [] h = cc
first_holder (q ∷ hs) h = (q, ground arith)

is_some-holding :
    (m : SwitchingSetManager) (k : FullTrackName)
    → IsWellFormed m
    → (is_some (m.track_to_set k) ≡ true) ↔ ((q : ℕ) × (holding m k q ≡ true))
unfolding holding holds
is_some-holding m k w = (
  λ h. elim (Option-cases (m.track_to_set k)) [
    | inl e ↦ absurd (ground arith)
    | inr (s, e) ↦ elim (Option-cases (find k (members_at m s))) [
      | inl f ↦ absurd (ground (arith, w.tracked k s))
      | inr (old, f) ↦
          rw (e, f)
            (first_holder old.holders
              (ground (arith, test-false is_unheld k (members_at m s) (held-members_at m w s) f)))
    ]
  ],
  λ (q, h). elim (Option-cases (m.track_to_set k)) [
    | inl e ↦ (let h' = rw e at h in cc)
    | inr (s, e) ↦ rw e refl
  ],
)

-- After any operations on an empty manager, a track is in a switching set exactly if by the
-- history some subscription holds it: an assignment of it was accepted for that subscription, and
-- since then neither was that subscription released from the track nor was the track removed.
pub is_some-run_iff :
    (ops : List Operation) (k : FullTrackName)
    → (is_some ((run new ops).track_to_set k) ≡ true)
      ↔ ((q : ℕ) × (held_by_history new ops k q false ≡ true))
is_some-run_iff ops k =
    let (there, back) = is_some-holding (run new ops) k (run-IsWellFormed ops) in
    (
      λ h. (let (q, e) = there h in (q, sym (holding-run ops k q) ∙ e)),
      λ (q, e). back (q, holding-run ops k q ∙ e),
    )
