-- ===== src/Relay/SwitchingSets/Release.antt =====
-- `release` of switching_set.rs keeps the state in order.
use mathlib.Core.Path.{fun_ext}
use moqtail.Prelude.{
  ℕ, ◌≡◌, refl, sym, ap, ◌∙◌, List, [], ◌∷◌, false, ◌&&◌, Option, none, some, inl, inr, subst,
  Bool-cases, Option-cases, ==_iff, arith,
}
use moqtail.Data.TrackName.{FullTrackName, name_eq}
use moqtail.Data.TrackName.Equality.{name_eq_refl}
use moqtail.Relay.SwitchingSets.{
  SwitchingSetMember, SwitchingSet, SwitchingSetManager, is_empty, find, replace, retain_others,
  at_id, at_name, bump_epoch, holds, remove_holder, without_holder, forget_relay, drop_member,
  remove, release_member, release,
}
use moqtail.Relay.SwitchingSets.Requests.{is_set-remove_holder, remove_holder-absent}
use moqtail.Relay.SwitchingSets.Ladder.{
  IsAscending, map-replace, is_empty-replace, any-replace-false, test-false,
}
use moqtail.Relay.SwitchingSets.Invariant.{is_unheld, IsWellFormed}
use moqtail.Relay.SwitchingSets.Update.{
  replaced_name, find-replace_found, is_some-replace, Distinct-replace_found, relay-replace,
  put_back-IsWellFormed,
}
use moqtail.Relay.SwitchingSets.Remove.{remove-IsWellFormed, no_set}

pub at_id_twice {ℓ} :
    {V : Type ℓ} (f : ℕ → Option V) (k : ℕ) (u v : Option V) → at_id (at_id f k u) k v ≡ at_id f k v
at_id_twice f k u v = fun_ext (λ j. ground arith)

retain_others-replace :
    (n : FullTrackName) (m : SwitchingSetMember) (ms : List SwitchingSetMember)
    → m.full_track_name ≡ n
    → retain_others n (replace n m ms) ≡ retain_others n ms
unfolding retain_others replace
retain_others-replace n m [] e = refl
retain_others-replace n m (k ∷ ks) e = elim (Bool-cases (name_eq k.full_track_name n)) [
  | inl f ↦ rw f (rw (e, name_eq_refl n) refl)
  | inr f ↦ rw f (rw f (ap (λ js. k ∷ js) (retain_others-replace n m ks e)))
]

module _ (m : SwitchingSetManager) (n : FullTrackName) (r s : ℕ) (set : SwitchingSet)
    (old : SwitchingSetMember) (w : IsWellFormed m) (tracked : m.track_to_set n ≡ some s)
    (found : m.sets s ≡ some set) (member : find n set.members ≡ some old) where
  abbrev changed : SwitchingSetMember
  changed = without_holder old r

  abbrev changed_set : SwitchingSet
  changed_set = record set { members = replace n changed set.members }

  pub changed_name : changed.full_track_name ≡ n
  changed_name = replaced_name n set.members old changed member refl

  same_rest : retain_others n (replace n changed set.members) ≡ retain_others n set.members
  same_rest = retain_others-replace n changed set.members changed_name

  found_changed : find n (replace n changed set.members) ≡ some changed
  found_changed =
      find-replace_found n set.members old changed member refl n ∙ rw (name_eq_refl n) refl

  -- What a removal leaves beside the sets.
  abbrev gone : SwitchingSetManager
  gone = record (bump_epoch m) {
    track_to_set = at_name m.track_to_set n none;
    relay_track_to_set = at_id m.relay_track_to_set old.relay_track_id none;
  }

  -- The member without its last holder is removed like the member with it.
  pub remove-release : remove (record m { sets = at_id m.sets s (some changed_set) }) n ≡ remove m n
  unfolding remove drop_member forget_relay
  remove-release = elim (Bool-cases (is_empty (retain_others n set.members))) [
    | inl e ↦
        rw
          (
            tracked,
            remove,
            (==_iff s s).1 refl,
            found,
            drop_member,
            same_rest,
            found_changed,
            member,
            e,
          )
          (ap
            (λ (f : ℕ → Option SwitchingSet). record gone {
              sets = f;
              open_streams = at_id m.open_streams s none;
            })
            (at_id_twice m.sets s (some changed_set) none))
    | inr e ↦
        rw
          (
            tracked,
            remove,
            (==_iff s s).1 refl,
            found,
            drop_member,
            same_rest,
            found_changed,
            member,
            e,
          )
          (ap (λ (f : ℕ → Option SwitchingSet). record gone { sets = f })
            (at_id_twice m.sets s (some changed_set)
              (some (record set { members = retain_others n set.members }))))
  ]

  pub keep-release :
      is_unheld changed ≡ false
      → IsWellFormed (record m { sets = at_id m.sets s (some changed_set) })
  keep-release e =
      let p = w.proper s set found in
      put_back-IsWellFormed m s set changed_set w found
        (record {
          same_id = p.same_id;
          ladder = record {
            inhabited = is_empty-replace n changed set.members ∙ p.ladder.inhabited;
            ascending =
                subst IsAscending (sym (map-replace n changed set.members member refl))
                  p.ladder.ascending;
            distinct =
                Distinct-replace_found n set.members old changed member refl p.ladder.distinct;
            held = any-replace-false is_unheld n changed set.members p.ladder.held e;
          };
        })
        (λ k. is_some-replace n set.members old changed member refl k)
        (λ q. relay-replace n set.members old changed member refl q refl)

  release_member-IsWellFormed : IsWellFormed (release_member m s set old n r)
  unfolding release_member
  release_member-IsWellFormed =
      elim (Bool-cases (holds r old.holders && is_empty (remove_holder r old.holders))) [
        | inl e ↦ rw (e, remove-release) (remove-IsWellFormed m n w)
        | inr e ↦ rw e (
            keep-release (
              ground (
                arith,
                remove_holder-absent r old.holders,
                is_set-remove_holder r old.holders,
                test-false is_unheld n set.members (w.proper s set found).ladder.held member,
              )))
      ]

pub release-IsWellFormed :
    (m : SwitchingSetManager) (n : FullTrackName) (r : ℕ)
    → IsWellFormed m
    → IsWellFormed (release m n r)
unfolding release
release-IsWellFormed m n r w = elim (Option-cases (m.track_to_set n)) [
  | inl e ↦ rw (e, release) w
  | inr (s, e) ↦ elim (Option-cases (m.sets s)) [
    | inl f ↦ absurd (no_set m n s w e f)
    | inr (set, f) ↦ elim (Option-cases (find n set.members)) [
      | inl g ↦ rw (e, release, f, g) w
      | inr (old, g) ↦ rw (e, release, f, g) (release_member-IsWellFormed m n r s set old w e f g)
    ]
  ]
]
