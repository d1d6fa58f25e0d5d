-- ===== src/Relay/SwitchingSets/Assign.antt =====
-- `assign` of switching_set.rs keeps the state in order.
use moqtail.Prelude.{
  is_some, ℕ, ◌≡◌, refl, ap, ◌∙◌, List, [], ◌∷◌, true, false, Option, none, some, inl, inr,
  Bool-cases, Option-cases, ◌==◌, if◌then◌else◌, arith,
}
use moqtail.Data.TrackName.{FullTrackName, name_eq}
use moqtail.Data.TrackName.Equality.{name_eq_iff}
use moqtail.Relay.SwitchingSets.{
  SwitchingSetMember, SwitchingSetManager, Assignment, is_empty, find, sort_members, new_member,
  put_member, forget_previous, in_other_set, set_of, assigned, assign,
}
use moqtail.Relay.SwitchingSets.Members.{
  test, any, any-push, any-replace, any-replace_found, any-sort_members, Distinct, Distinct-push,
  Distinct-replace, find-push, find-replace, find-sort_members,
}
use moqtail.Relay.SwitchingSets.Requests.{is_set, is_set-append_holders, is_empty-append_holders}
use moqtail.Relay.SwitchingSets.Ladder.{
  is_empty-replace, is_empty-push, any-replace-false, any-push-false,
}
use moqtail.Relay.SwitchingSets.Invariant.{
  is_relay, is_unheld, members_at, IsProper, IsWellFormed, put-IsProper, sort_members-IsLadder,
}

pub is_empty-find :
    (n : FullTrackName) (ms : List SwitchingSetMember)
    → is_some (find n ms) ≡ true
    → is_empty ms ≡ false
unfolding find
is_empty-find n [] h = cc
is_empty-find n (k ∷ ks) h = refl

module _ (n : FullTrackName) (r : ℕ) (a : Assignment) where
  is_unheld-new_member :
      (existing : Option SwitchingSetMember) → is_unheld (new_member n r a existing) ≡ false
  unfolding new_member is_set
  is_unheld-new_member none = refl
  is_unheld-new_member (some k) = ground (
    arith,
    is_empty-append_holders (a.request_id ∷ []) k.holders refl,
    is_set-append_holders (a.request_id ∷ []) k.holders refl,
  )

  module _ (ms : List SwitchingSetMember) where
    is_empty-put_member : is_empty (put_member n r a ms) ≡ false
    unfolding put_member
    is_empty-put_member = elim (Option-cases (find n ms)) [
      | inl e ↦ rw (e, put_member) (is_empty-push ms (new_member n r a none))
      | inr (old, e) ↦
          rw (e, put_member)
            (is_empty-replace n (new_member n r a (some old)) ms
              ∙ is_empty-find n ms (ap is_some e))
    ]

    Distinct-put_member : Distinct ms → Distinct (put_member n r a ms)
    unfolding put_member new_member
    Distinct-put_member d = elim (Option-cases (find n ms)) [
      | inl e ↦ rw (e, put_member) (Distinct-push (new_member n r a none) ms e d)
      | inr (old, e) ↦
          rw (e, put_member)
            (Distinct-replace n (new_member n r a (some old)) ms refl (ap is_some e) d)
    ]

    held-put_member : any is_unheld ms ≡ false → any is_unheld (put_member n r a ms) ≡ false
    unfolding put_member
    held-put_member h = elim (Option-cases (find n ms)) [
      | inl e ↦
          rw (e, put_member)
            (any-push-false is_unheld ms (new_member n r a none) h (is_unheld-new_member none))
      | inr (old, e) ↦
          rw (e, put_member)
            (any-replace-false is_unheld n (new_member n r a (some old)) ms h
              (is_unheld-new_member (some old)))
    ]

    pub find-put_member :
        (k : FullTrackName)
        → find k (put_member n r a ms)
          ≡ (if name_eq n k then some (new_member n r a (find n ms)) else find k ms)
    unfolding put_member new_member
    find-put_member k = elim (Option-cases (find n ms)) [
      | inl e ↦ rw (e, put_member) (find-push k (new_member n r a none) ms e)
      | inr (old, e) ↦
          rw (e, put_member) (find-replace k n (new_member n r a (some old)) ms refl (ap is_some e))
    ]

    relay-put_member : any (is_relay r) (put_member n r a ms) ≡ true
    unfolding put_member new_member
    relay-put_member = elim (Option-cases (find n ms)) [
      | inl e ↦ rw (e, put_member) (any-push (is_relay r) (new_member n r a none) ms ∙ ground arith)
      | inr (old, e) ↦
          rw (e, put_member)
            (any-replace_found (is_relay r) n (new_member n r a (some old)) ms (ap is_some e)
              (ground arith))
    ]

    -- What still points at the set is a relay track id of a member.
    relay-forget_previous :
        (relays : ℕ → Option ℕ) (q s : ℕ)
        → forget_previous relays (find n ms) r q ≡ some s
        → (any (is_relay q) ms ≡ true)
        → (r == q) ≡ false
        → any (is_relay q) (put_member n r a ms) ≡ true
    unfolding forget_previous put_member
    relay-forget_previous relays q s h g d = elim (Option-cases (find n ms)) [
      | inl e ↦ rw (e, put_member) (any-push (is_relay q) (new_member n r a none) ms ∙ ground arith)
      | inr (old, e) ↦
          let h' = rw (e, forget_previous) at h in
          rw (e, put_member)
            (ground (
              arith,
              any-replace (is_relay q) n (new_member n r a (some old)) ms g,
              ap (test (is_relay q)) e,
            ))
    ]

-- What is left was there before.
relays_of-forget_previous :
    (relays : ℕ → Option ℕ) (previous : Option SwitchingSetMember) (r q : ℕ) {s : ℕ}
    → forget_previous relays previous r q ≡ some s
    → relays q ≡ some s
unfolding forget_previous
relays_of-forget_previous relays none r q h = h
relays_of-forget_previous relays (some old) r q h = ground arith

module _ (m : SwitchingSetManager) (w : IsWellFormed m) (s : ℕ) where
  pub Distinct-members_at : Distinct (members_at m s)
  Distinct-members_at = elim (Option-cases (m.sets s)) [
    | inl e ↦ rw e tt
    | inr (set, e) ↦ rw e (w.proper s set e).ladder.distinct
  ]

  pub held-members_at : any is_unheld (members_at m s) ≡ false
  unfolding any
  held-members_at = elim (Option-cases (m.sets s)) [
    | inl e ↦ rw e refl
    | inr (set, e) ↦ rw e (w.proper s set e).ladder.held
  ]

module _ (m : SwitchingSetManager) (w : IsWellFormed m) (n : FullTrackName) (r : ℕ)
    (a : Assignment) where
  abbrev ms : List SwitchingSetMember
  ms = members_at m a.switching_set_id

  abbrev placed : List SwitchingSetMember
  placed = put_member n r a ms

  placed-IsProper :
      IsProper a.switching_set_id (set_of (m.sets a.switching_set_id) a (sort_members placed))
  unfolding set_of
  placed-IsProper = record {
    same_id = elim (Option-cases (m.sets a.switching_set_id)) [
      | inl e ↦ rw e refl
      | inr (set, e) ↦ rw e (w.proper a.switching_set_id set e).same_id
    ];
    ladder =
        sort_members-IsLadder placed (is_empty-put_member n r a ms)
          (Distinct-put_member n r a ms (Distinct-members_at m w a.switching_set_id))
          (held-put_member n r a ms (held-members_at m w a.switching_set_id));
  }

  pub find-assigned :
      (k : FullTrackName)
      → find k (sort_members (put_member n r a ms))
        ≡ (if name_eq n k then some (new_member n r a (find n ms)) else find k ms)
  find-assigned k =
      find-sort_members k (put_member n r a ms)
        (Distinct-put_member n r a ms (Distinct-members_at m w a.switching_set_id))
      ∙ find-put_member n r a ms k

  assigned-IsWellFormed :
      in_other_set m n a.switching_set_id ≡ false → IsWellFormed (assigned m n r a)
  unfolding assigned in_other_set set_of
  assigned-IsWellFormed own = record {
    tracked =
        λ k t. ground (arith, own, w.tracked k t, w.tracked n t, find-assigned k, name_eq_iff n k);
    relayed = λ q t h. ground (
      arith,
      w.relayed q t,
      any-sort_members (is_relay q) placed,
      relay-put_member n r a ms,
      relay-forget_previous n r a ms m.relay_track_to_set q t,
      relays_of-forget_previous m.relay_track_to_set (find n ms) r q {s = t},
    );
    counted = λ t c h. ground (arith, w.counted t c, placed-IsProper.ladder.inhabited);
    proper =
        put-IsProper m.sets a.switching_set_id
          (set_of (m.sets a.switching_set_id) a (sort_members placed)) placed-IsProper w.proper;
  }

pub assign-IsWellFormed :
    (m : SwitchingSetManager) (n : FullTrackName) (r : ℕ) (a : Assignment)
    → IsWellFormed m
    → IsWellFormed (assign m n r a).0
unfolding assign
assign-IsWellFormed m n r a w = elim (Bool-cases (in_other_set m n a.switching_set_id)) [
  | inl e ↦ rw e w
  | inr e ↦ rw e (assigned-IsWellFormed m w n r a e)
]
