-- ===== src/Relay/SwitchingSets/Releases.antt =====
-- Which subscription holds which track after a `release` of switching_set.rs.
use moqtail.Prelude.{
  ℕ, ◌≡◌, refl, true, not, ◌&&◌, some, inl, inr, Bool-cases, Option-cases, ==_iff, ◌==◌, arith,
}
use moqtail.Data.TrackName.{FullTrackName, name_eq}
use moqtail.Data.TrackName.Equality.{name_eq_iff, name_eq_refl}
use moqtail.Relay.SwitchingSets.{
  SwitchingSetMember, SwitchingSet, SwitchingSetManager, is_empty, find, replace, members_of_set,
  at_id, holds, remove_holder, without_holder, release_member, release,
}
use moqtail.Relay.SwitchingSets.Ladder.{test-false}
use moqtail.Relay.SwitchingSets.Requests.{is_set, holds-remove_holder, holds-is_empty}
use moqtail.Relay.SwitchingSets.Invariant.{is_unheld, IsWellFormed}
use moqtail.Relay.SwitchingSets.Update.{find-replace_found}
use moqtail.Relay.SwitchingSets.Remove.{no_set}
use moqtail.Relay.SwitchingSets.Release.{remove-release}
use moqtail.Relay.SwitchingSets.Holders.{holding, same_holders, not-holding, holding-remove}

module _ (m : SwitchingSetManager) (w : IsWellFormed m) (n k : FullTrackName) (r q s : ℕ)
    (set : SwitchingSet) (old : SwitchingSetMember) (tracked : m.track_to_set n ≡ some s)
    (found : m.sets s ≡ some set) (member : find n set.members ≡ some old) where
  abbrev changed_set : SwitchingSet
  changed_set = record set { members = replace n (without_holder old r) set.members }

  holders_set : is_set old.holders ≡ true
  holders_set =
      ground (arith, test-false is_unheld n set.members (w.proper s set found).ladder.held member)

  holding_before : name_eq n k ≡ true → holding m k q ≡ holds q old.holders
  unfolding holding
  holding_before e = rw (← (name_eq_iff n k).0 e, tracked, found, member) refl

  holding_kept :
      holding (record m { sets = at_id m.sets s (some changed_set) }) k q
      ≡ (not (name_eq n k && (r == q)) && holding m k q)
  unfolding holding
  holding_kept = elim (Bool-cases (name_eq n k)) [
    | inl e ↦
        rw
          (
            ← (name_eq_iff n k).0 e,
            name_eq_refl n,
            tracked,
            (==_iff s s).1 refl,
            find-replace_found n set.members old (without_holder old r) member refl n,
            name_eq_refl n,
            holds-remove_holder q r old.holders holders_set,
            found,
            member,
          )
          refl
    | inr e ↦ rw e (
        same_holders m w n k q (λ t. members_of_set (at_id m.sets s (some changed_set) t))
          (λ t.
            ground
              (arith, find-replace_found n set.members old (without_holder old r) member refl k)))
  ]

  holding-release_found :
      holding (release_member m s set old n r) k q
      ≡ (not (name_eq n k && (r == q)) && holding m k q)
  unfolding release_member
  holding-release_found =
      elim (Bool-cases (holds r old.holders && is_empty (remove_holder r old.holders))) [
        | inl e ↦
            rw (e, remove-release m n r s set old w tracked found member, holding-remove m w n k q)
              (ground (
                arith,
                holding_before,
                holds-remove_holder q r old.holders holders_set,
                holds-is_empty q (remove_holder r old.holders),
              ))
        | inr e ↦ rw e holding_kept
      ]

module _ (m : SwitchingSetManager) (w : IsWellFormed m) (n k : FullTrackName) (r q : ℕ) where
  pub holding-release :
      holding (release m n r) k q ≡ (not (name_eq n k && (r == q)) && holding m k q)
  unfolding release
  holding-release = elim (Option-cases (m.track_to_set n)) [
    | inl e ↦ rw (e, release) (ground (arith, not-holding m w n k q e))
    | inr (s, e) ↦ elim (Option-cases (m.sets s)) [
      | inl f ↦ absurd (no_set m n s w e f)
      | inr (set, f) ↦ elim (Option-cases (find n set.members)) [
        | inl g ↦ rw (e, release, f, g) (absurd (ground (arith, w.tracked n s)))
        | inr (old, g) ↦ rw (e, release, f, g) (holding-release_found m w n k r q s set old e f g)
      ]
    ]
  ]
