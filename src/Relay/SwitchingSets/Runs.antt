-- ===== src/Relay/SwitchingSets/Runs.antt =====
-- The operations of the manager of switching_set.rs in any order, from the empty manager.
use moqtail.Prelude.{ℕ, List, [], ◌∷◌, Bool, not, ◌&&◌, ◌||◌, ◌==◌}
use moqtail.Data.TrackName.{FullTrackName, name_eq}
use moqtail.Relay.SwitchingSets.{
  SwitchingSetManager, Assignment, AssignmentUpdate, new, in_other_set, remove, release, assign,
  update_assignment, note_stream_opened, note_stream_closed,
}
use moqtail.Relay.SwitchingSets.Invariant.{
  IsWellFormed, new-IsWellFormed, note_stream_opened-IsWellFormed, note_stream_closed-IsWellFormed,
}
use moqtail.Relay.SwitchingSets.Update.{update_assignment-IsWellFormed}
use moqtail.Relay.SwitchingSets.Assign.{assign-IsWellFormed}
use moqtail.Relay.SwitchingSets.Remove.{remove-IsWellFormed}
use moqtail.Relay.SwitchingSets.Release.{release-IsWellFormed}

pub data Operation : Type 0 where
  stream_opened : ℕ → Operation
  stream_closed : ℕ → Operation
  assigning : FullTrackName → ℕ → Assignment → Operation
  releasing : FullTrackName → ℕ → Operation
  removing : FullTrackName → Operation
  updating : FullTrackName → AssignmentUpdate → Operation

unfoldable pub step : SwitchingSetManager → Operation → SwitchingSetManager
step m (stream_opened r) = note_stream_opened m r
step m (stream_closed r) = note_stream_closed m r
step m (assigning n r a) = (assign m n r a).0
step m (releasing n q) = release m n q
step m (removing n) = remove m n
step m (updating n u) = (update_assignment m n u).0

unfoldable pub run : SwitchingSetManager → List Operation → SwitchingSetManager
run m [] = m
run m (op ∷ ops) = run (step m op) ops

-- What an operation makes of the fact that a subscription holds a track.
unfoldable pub held_after : SwitchingSetManager → Operation → FullTrackName → ℕ → Bool → Bool
held_after m (stream_opened r) k q held = held
held_after m (stream_closed r) k q held = held
held_after m (assigning n r a) k q held =
    (not (in_other_set m n a.switching_set_id) && (name_eq n k && (a.request_id == q))) || held
held_after m (releasing n r) k q held = not (name_eq n k && (r == q)) && held
held_after m (removing n) k q held = not (name_eq n k) && held
held_after m (updating n u) k q held = held

-- Whether a subscription still holds a track by the history.
unfoldable pub held_by_history :
    SwitchingSetManager → List Operation → FullTrackName → ℕ → Bool → Bool
held_by_history m [] k q held = held
held_by_history m (op ∷ ops) k q held =
    held_by_history (step m op) ops k q (held_after m op k q held)

pub step-IsWellFormed :
    (m : SwitchingSetManager) (op : Operation) → IsWellFormed m → IsWellFormed (step m op)
unfolding step
step-IsWellFormed m (stream_opened r) w = note_stream_opened-IsWellFormed m r w
step-IsWellFormed m (stream_closed r) w = note_stream_closed-IsWellFormed m r w
step-IsWellFormed m (assigning n r a) w = assign-IsWellFormed m n r a w
step-IsWellFormed m (releasing n q) w = release-IsWellFormed m n q w
step-IsWellFormed m (removing n) w = remove-IsWellFormed m n w
step-IsWellFormed m (updating n u) w = update_assignment-IsWellFormed m n u w

run_keeps :
    (m : SwitchingSetManager) (ops : List Operation) → IsWellFormed m → IsWellFormed (run m ops)
unfolding run
run_keeps m [] w = w
run_keeps m (op ∷ ops) w = run_keeps (step m op) ops (step-IsWellFormed m op w)

-- After any operations on an empty manager: a track is mapped to a set exactly if it is a member
-- of it; a relay track id leads to a set with such a member; a stream count is positive and its
-- set is there; and each set has its id, at least one member, ascending thresholds, no name
-- twice, and members with a set of holders that is not empty.
pub run-IsWellFormed : (ops : List Operation) → IsWellFormed (run new ops)
run-IsWellFormed ops = run_keeps new ops new-IsWellFormed
