-- ===== src/Relay/TrackCache/Served.antt =====
-- `objects_if_complete` of track_cache.rs on what `add_object` and `mark_absent` have built.
use moqtail.Prelude.{
  ℕ, ◌+◌, ◌-◌, ◌≤◌, ◌<◌, ◌≡◌, sym, ◌∙◌, List, [], Bool, true, false, ◌||◌, length, some, arith,
}
use moqtail.Wire.Buffer.{IsU64}
use moqtail.Wire.Location.{loc}
use moqtail.Data.FetchObject.{FetchObjectPayload}
use moqtail.Relay.TrackCache.{Span, object_ids, objects_if_complete, max_absent_ranges}
use moqtail.Relay.TrackCache.Absent.{position}
use moqtail.Relay.TrackCache.Absent.Absorb.{covers}
use moqtail.Relay.TrackCache.Absent.History.{mark_all, AllLocations, covers-mark_all}
use moqtail.Relay.TrackCache.Complete.{member}
use moqtail.Relay.TrackCache.Group.{
  between, Complete, objects_if_complete_sound, objects_if_complete_returns,
}
use moqtail.Relay.TrackCache.Adds.{add_all, find-add_all, member-add_all}

sub_or : (a b c d : Bool) → (a ≡ true → c ≡ true) → b ≡ d → (a || b) ≡ true → (c || d) ≡ true
sub_or a b c d h e k = ground arith

module _ (fuel group lo hi : ℕ) (adds : List FetchObjectPayload) (marks : List Span)
    (hg : IsU64 group) (hh : IsU64 hi) (hm : AllLocations marks) where
  -- After any calls of `add_object` and of `mark_absent` with u64 Locations, the Objects that
  -- `objects_if_complete` returns for u64s are the added ones from `lo` to `hi`, and every
  -- Location from `lo` to `hi` of the group was marked or has an added Object.
  pub served_sound :
      (found : List FetchObjectPayload)
      → objects_if_complete fuel (some (add_all adds [])) (mark_all marks []) group lo hi
        ≡ some (some found)
      → (found ≡ between lo hi (add_all adds [])) × Complete group marks adds lo hi
  served_sound found e =
      let (is, sound, exact) = covers-mark_all marks hm in
      let (same, complete) =
        objects_if_complete_sound group lo hi (mark_all marks []) (some (add_all adds [])) hg hh
          is.0 (find-add_all adds).0 fuel found e in
      (
        same,
        λ x p q.
            sub_or _ _ (covers marks (position (loc group x))) (member x (object_ids adds))
              (sound (position (loc group x))) (member-add_all x adds) (complete x p q),
      )

  -- After any calls of `add_object` and up to 65536 calls of `mark_absent` with u64 Locations,
  -- where no added Object stands at a marked Location and every Location from `lo` to `hi` of the
  -- group is marked or has an added Object: `objects_if_complete` for u64s returns, within `hi +
  -- 1 - lo` rounds and one more, the added Objects from `lo` to `hi`.
  pub served_returns :
      hi + 1 - lo < fuel
      → length marks ≤ max_absent_ranges
      → ((x : ℕ)
          → member x (object_ids adds) ≡ true
          → covers marks (position (loc group x)) ≡ false)
      → Complete group marks adds lo hi
      → objects_if_complete fuel (some (add_all adds [])) (mark_all marks []) group lo hi
        ≡ some (some (between lo hi (add_all adds [])))
  served_returns enough room apart complete =
      let (is, sound, exact) = covers-mark_all marks hm in
      objects_if_complete_returns group lo hi (mark_all marks []) (some (add_all adds [])) hg hh
        is.0 (find-add_all adds).0 fuel enough
        (λ x h. exact room (position (loc group x)) ∙ apart x (sym (member-add_all x adds) ∙ h))
        λ x p q.
          sub_or _ _ (covers (mark_all marks []) (position (loc group x)))
            (member x (object_ids (add_all adds []))) (λ h. exact room (position (loc group x)) ∙ h)
            (sym (member-add_all x adds)) (complete x p q)
