-- ===== src/Relay/SwitchingSets/Holders.antt =====
-- Which subscription holds which track, after each operation of switching_set.rs.
use moqtail.Prelude.{
  ℕ, ◌≡◌, refl, sym, ◌∙◌, List, [], ◌∷◌, Bool, false, not, ◌&&◌, ◌||◌, Option, none, some, inl, inr,
  Bool-cases, Option-cases, ==_iff, ◌==◌, arith,
}
use moqtail.Data.TrackName.{FullTrackName, name_eq}
use moqtail.Data.TrackName.Equality.{name_eq_iff}
use moqtail.Relay.SwitchingSets.{
  SwitchingSetMember, SwitchingSet, SwitchingSetManager, Assignment, is_empty, find, retain_others,
  new_member, in_other_set, members_of_set, at_id, holds, drop_member, remove, assigned, set_of,
}
use moqtail.Relay.SwitchingSets.Members.{find-retain_others}
use moqtail.Relay.SwitchingSets.Requests.{holds-append_holders}
use moqtail.Relay.SwitchingSets.Invariant.{members_at, IsWellFormed}
use moqtail.Relay.SwitchingSets.Assign.{find-assigned}
use moqtail.Relay.SwitchingSets.Remove.{no_set, find-is_empty}

abbrev pub holders_of : Option SwitchingSetMember → List ℕ
holders_of none = []
holders_of (some member) = member.holders

abbrev pub holders_at : Option ℕ → (ℕ → List SwitchingSetMember) → FullTrackName → List ℕ
holders_at none members k = []
holders_at (some s) members k = holders_of (find k (members s))

-- Whether the subscription holds the track in a set.
unfoldable pub holding : SwitchingSetManager → FullTrackName → ℕ → Bool
holding m k q = holds q (holders_at (m.track_to_set k) (members_at m) k)

holds-new_member :
    (n : FullTrackName) (r q : ℕ) (a : Assignment) (existing : Option SwitchingSetMember)
    → holds q (new_member n r a existing).holders
      ≡ ((a.request_id == q) || holds q (holders_of existing))
unfolding new_member holds
holds-new_member n r q a none = refl
holds-new_member n r q a (some k) =
    holds-append_holders q (a.request_id ∷ []) k.holders ∙ ground arith

module _ (m : SwitchingSetManager) (w : IsWellFormed m) (n k : FullTrackName) (q : ℕ) where
  -- Where a set is looked up that the track is not in, nobody holds it.
  holders_own :
      (s : ℕ)
      → in_other_set m n s ≡ false
      → holders_of (find n (members_at m s)) ≡ holders_at (m.track_to_set n) (members_at m) n
  unfolding in_other_set
  holders_own s own = elim (Option-cases (m.track_to_set n)) [
    | inl e ↦ rw e (ground (arith, w.tracked n s))
    | inr (t, e) ↦ rw (e, (==_iff t s).0 (ground arith)) refl
  ]

  pub holding-assigned :
      (r : ℕ) (a : Assignment)
      → in_other_set m n a.switching_set_id ≡ false
      → holding (assigned m n r a) k q ≡ ((name_eq n k && (a.request_id == q)) || holding m k q)
  unfolding holding assigned set_of
  holding-assigned r a own = elim (Bool-cases (name_eq n k)) [
    | inl e ↦
        rw
          (
            e,
            (==_iff a.switching_set_id a.switching_set_id).1 refl,
            find-assigned m w n r a k,
            e,
            holds-new_member n r q a (find n (members_at m a.switching_set_id)),
            holders_own a.switching_set_id own,
            (name_eq_iff n k).0 e,
          )
          refl
    | inr e ↦ elim (Option-cases (m.track_to_set k)) [
      | inl f ↦ rw (e, f) refl
      | inr (t, f) ↦ elim (Bool-cases (a.switching_set_id == t)) [
        | inl g ↦
            rw (e, f, g, find-assigned m w n r a k, e) (rw ((==_iff a.switching_set_id t).0 g) refl)
        | inr g ↦ rw (e, f, g) refl
      ]
    ]
  ]

  -- A change that moves no search for the track changes none of its holders.
  pub same_holders :
      (members : ℕ → List SwitchingSetMember)
      → ((s : ℕ) → find k (members s) ≡ find k (members_at m s))
      → holds q (holders_at (m.track_to_set k) members k) ≡ holding m k q
  unfolding holding
  same_holders members h = elim (Option-cases (m.track_to_set k)) [
    | inl e ↦ rw e refl
    | inr (s, e) ↦ rw (e, h s) refl
  ]

  pub not-holding : m.track_to_set n ≡ none → (not (name_eq n k) && holding m k q) ≡ holding m k q
  unfolding holding holds
  not-holding e = elim (Bool-cases (name_eq n k)) [
    | inl f ↦ rw (f, ← (name_eq_iff n k).0 f, e) refl
    | inr f ↦ rw f refl
  ]

  holding-remove_found :
      (s : ℕ) (set : SwitchingSet)
      → m.track_to_set n ≡ some s
      → m.sets s ≡ some set
      → holding (remove m n) k q ≡ (not (name_eq n k) && holding m k q)
  unfolding holding remove drop_member holds find
  holding-remove_found s set tracked found =
      elim (Bool-cases (is_empty (retain_others n set.members))) [
        | inl gone ↦
            rw (tracked, remove, found, drop_member, gone)
              (elim (Bool-cases (name_eq n k)) [
                | inl e ↦ rw e refl
                | inr e ↦ rw e (
                    same_holders (λ t. members_of_set (at_id m.sets s none t))
                      (λ t. ground (
                        arith,
                        find-retain_others k n set.members,
                        find-is_empty k (retain_others n set.members) gone,
                      )))
              ])
        | inr some_left ↦
            rw (tracked, remove, found, drop_member, some_left)
              (elim (Bool-cases (name_eq n k)) [
                | inl e ↦ rw e refl
                | inr e ↦ rw e (
                    same_holders
                      (λ t. members_of_set (
                        at_id m.sets s (some (record set { members = retain_others n set.members }))
                          t))
                      (λ t. ground (arith, find-retain_others k n set.members)))
              ])
      ]

  pub holding-remove : holding (remove m n) k q ≡ (not (name_eq n k) && holding m k q)
  unfolding remove
  holding-remove = elim (Option-cases (m.track_to_set n)) [
    | inl e ↦ rw (e, remove) (sym (not-holding e))
    | inr (s, e) ↦ elim (Option-cases (m.sets s)) [
      | inl f ↦ absurd (no_set m n s w e f)
      | inr (set, f) ↦ holding-remove_found s set e f
    ]
  ]
