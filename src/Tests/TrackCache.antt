-- ===== src/Tests/TrackCache.antt =====
-- The theorems about the track cache at concrete inputs.
use moqtail.Prelude.{
  none, false, refl, ℕ, ◌≡◌, List, [], ◌∷◌, true, false, none, some, is_some, arith,
}
use moqtail.Wire.Location.{loc}
use moqtail.Data.FetchObject.{FetchObjectPayload, subgroup}
use moqtail.Relay.TrackCache.{Span, span, objects_if_complete, end_containing}
use moqtail.Relay.TrackCache.Absent.{position}
use moqtail.Relay.TrackCache.Absent.Absorb.{covers}
use moqtail.Relay.TrackCache.Absent.History.{mark_all, is_some-end_containing}
use moqtail.Relay.TrackCache.Complete.{member}
use moqtail.Relay.TrackCache.Group.{between, Ordered, Complete}
use moqtail.Relay.TrackCache.Adds.{add_all, find_object, find-add_all}
use moqtail.Relay.TrackCache.Fills.{
  claimed, busy_with, claim_fill, find_overlap, push_fill, drop_claim, retain_other_locks,
}
use moqtail.Relay.TrackCache.Fills.Exclusive.{
  FillCall, claims, drops, no_fills, fill_step, run_fills, nobody, held_after, run_fills_exclusive,
}
use moqtail.Relay.TrackCache.Fills.Free.{claim_fill_free}
use moqtail.Relay.TrackCache.Served.{served_sound, served_returns}

abbrev object_of : ℕ → FetchObjectPayload
object_of id = record {
  group_id = 4;
  subgroup_id = 0;
  object_id = id;
  publisher_priority = 128;
  forwarding_preference = subgroup;
  properties = none;
  payload = 65 ∷ [];
}

-- One Object comes twice, and the later comes first.
abbrev three_adds : List FetchObjectPayload
three_adds = object_of 5 ∷ object_of 2 ∷ object_of 5 ∷ []

abbrev two_marks : List Span
two_marks = span (loc 4 4) (loc 4 4) ∷ span (loc 4 3) (loc 4 3) ∷ []

find-add_all_example :
    Ordered 0 (add_all three_adds [])
    × ((id : ℕ) → find_object id (add_all three_adds []) ≡ find_object id three_adds)
find-add_all_example = find-add_all three_adds

is_some-end_containing_example :
    is_some (end_containing (loc 4 3) (mark_all two_marks []))
    ≡ covers two_marks (position (loc 4 3))
is_some-end_containing_example =
    is_some-end_containing two_marks (loc 4 3)
      (
        ((omega arith, omega arith), (omega arith, omega arith)),
        (((omega arith, omega arith), (omega arith, omega arith)), tt),
      )
      (omega arith) (omega arith, omega arith)

apart_lem :
    (x : ℕ) → member x (5 ∷ 2 ∷ 5 ∷ []) ≡ true → covers two_marks (position (loc 4 x)) ≡ false
apart_lem x h = ground arith

all_known : Complete 4 two_marks three_adds 2 5
all_known x p q = ground arith

served_returns_example :
    objects_if_complete 5 (some (add_all three_adds [])) (mark_all two_marks []) 4 2 5
    ≡ some (some (between 2 5 (add_all three_adds [])))
served_returns_example =
    served_returns 5 4 2 5 three_adds two_marks (omega arith) (omega arith)
      (
        ((omega arith, omega arith), (omega arith, omega arith)),
        (((omega arith, omega arith), (omega arith, omega arith)), tt),
      )
      (omega arith) (omega arith) apart_lem all_known

served_sound_example :
    (between 2 5 (add_all three_adds []) ≡ between 2 5 (add_all three_adds []))
    × Complete 4 two_marks three_adds 2 5
served_sound_example =
    served_sound 5 4 2 5 three_adds two_marks (omega arith) (omega arith)
      (
        ((omega arith, omega arith), (omega arith, omega arith)),
        (((omega arith, omega arith), (omega arith, omega arith)), tt),
      )
      (between 2 5 (add_all three_adds [])) served_returns_example

-- Two claims, of which the second waits, and the first is dropped.
abbrev three_calls : List FillCall
three_calls = claims 3 5 ∷ claims 5 7 ∷ drops 0 ∷ []

-- The second one is made again.
abbrev four_calls : List FillCall
four_calls = claims 3 5 ∷ claims 5 7 ∷ drops 0 ∷ claims 5 7 ∷ []

run_fills_exclusive_example : ◌≡◌ {A = ℕ} 1 1
unfolding held_after claim_fill find_overlap push_fill drop_claim retain_other_locks
run_fills_exclusive_example = run_fills_exclusive four_calls 1 1 6 refl refl

-- While the first is held, the second is refused.
refused_example : (claim_fill 5 7 (run_fills no_fills (claims 3 5 ∷ []))).1 ≡ busy_with 0
unfolding run_fills fill_step claim_fill find_overlap push_fill
refused_example = refl

claim_fill_free_example :
    (lock : ℕ) × ((claim_fill 5 7 (run_fills no_fills three_calls)).1 ≡ claimed lock)
    × (held_after no_fills nobody three_calls lock ≡ none)
unfolding held_after claim_fill find_overlap push_fill drop_claim retain_other_locks
claim_fill_free_example =
    claim_fill_free three_calls 5 7 (omega arith, (omega arith, tt)) (omega arith)
      λ lock x p q. ground arith
