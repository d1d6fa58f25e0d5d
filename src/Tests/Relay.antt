-- ===== src/Tests/Relay.antt =====
-- The theorems about the relay at concrete inputs.
use moqtail.Prelude.{is_some, ℕ, ◌≡◌, ◌↔◌, refl, List, [], ◌∷◌, true, false, none, some, arith}
use moqtail.Wire.Location.{loc}
use moqtail.Relay.SeenObjects.{is_duplicate}
use moqtail.Relay.SeenObjects.History.{History, seen_in, newer_in, behind_in, run, expected}
use moqtail.Relay.SeenObjects.History.Exact.{
  is_duplicate-run, no_false_duplicate, is_duplicate-Within, Within,
}
use moqtail.Wire.Tuple.{bytes_eq}
use moqtail.Data.TrackName.{FullTrackName, name_eq, fields_eq}
use moqtail.Relay.SwitchingSets.{
  Assignment, new, assign, assigned, in_other_set, set_of, put_member, new_member, forget_previous,
  find, replace, sort_members, insert_member, append_holders, insert_holder, remove_holder, release,
  release_member, holds, note_stream_opened, note_stream_closed, update_assignment, updated_set,
  move_member,
}
use moqtail.Relay.SwitchingSets.Invariant.{IsWellFormed, members_at}
use moqtail.Relay.SwitchingSets.Holders.{holding, holders_at}
use moqtail.Relay.SwitchingSets.Runs
use moqtail.Relay.SwitchingSets.Runs.{
  Operation, stream_opened, stream_closed, assigning, releasing, updating, step, held_by_history,
  run-IsWellFormed,
}
use moqtail.Relay.SwitchingSets.Histories.{holding-run, is_some-run_iff}

abbrev three_objects : History
three_objects = loc 7 300 ∷ loc 7 2 ∷ loc 6 1 ∷ []

is_duplicate-run_example :
    (is_duplicate (run 4 three_objects) (loc 7 2)).1 ≡ expected 4 three_objects (loc 7 2)
is_duplicate-run_example = is_duplicate-run 4 three_objects (loc 7 2) (omega arith)

no_false_duplicate_example : seen_in three_objects 7 2 ≡ true
unfolding expected seen_in newer_in behind_in
no_false_duplicate_example =
    no_false_duplicate 4 three_objects (loc 7 2)
      (is_duplicate-run 4 three_objects (loc 7 2) (omega arith))

is_duplicate-Within_example :
    (is_duplicate (run 4 three_objects) (loc 7 2)).1 ≡ seen_in three_objects 7 2
unfolding Within
is_duplicate-Within_example = is_duplicate-Within 4 three_objects (loc 7 2) (omega arith) (
  omega arith,
  (
    (λ e. omega arith),
    (omega arith, ((λ e. omega arith), (omega arith, ((λ e. omega arith), tt)))),
  ),
)

abbrev news : FullTrackName
news = record { namespace = (110 ∷ []) ∷ []; name = 49 ∷ [] }

abbrev low_quality : Assignment
low_quality = record {
  request_id = 6;
  switching_set_id = 3;
  algorithm_id = 0;
  throughput_threshold_kbps = 500;
  weight = 1;
  activate = 1;
  rank = 0;
}

-- Two subscriptions assign the track, a stream comes and goes, and one of the two is released.
abbrev one_left : List Operation
one_left =
    assigning news 40 low_quality
    ∷ assigning news 41 (record low_quality { request_id = 8 })
    ∷ stream_opened 41
    ∷ updating news (record {
      algorithm_id = some 1;
      throughput_threshold_kbps = some 700;
      weight = none;
      activate = none;
      rank = none;
    })
    ∷ stream_closed 41
    ∷ releasing news 6
    ∷ []

is_some-run_iff_example :
    (is_some ((Runs.run new one_left).track_to_set news) ≡ true)
    ↔ ((q : ℕ) × (held_by_history new one_left news q false ≡ true))
is_some-run_iff_example = is_some-run_iff one_left news

holding-run_example :
    holding (Runs.run new one_left) news 8 ≡ held_by_history new one_left news 8 false
holding-run_example = holding-run one_left news 8

run-IsWellFormed_example : IsWellFormed (Runs.run new one_left)
run-IsWellFormed_example = run-IsWellFormed one_left

-- The run in the code's terms.
eight_is_left :
    holders_at ((Runs.run new one_left).track_to_set news) (members_at (Runs.run new one_left)) news
    ≡ 8 ∷ []
unfolding Runs.run step new assign assigned in_other_set set_of put_member new_member
    forget_previous find replace sort_members insert_member append_holders insert_holder
    remove_holder release release_member holds note_stream_opened note_stream_closed
    update_assignment updated_set move_member name_eq fields_eq bytes_eq
eight_is_left = refl
