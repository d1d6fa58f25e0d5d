-- ===== src/Relay/SwitchingSets.antt =====
-- apps/relay/src/server/ssts/switching_set.rs: which tracks of a connection make a switching set,
-- and which subscriptions hold a track in it. A map is its lookup, and a `BTreeSet` an ascending
-- list. A warning keeps what it names: the set, its algorithm, and the request that set it.
pub mod Members
pub mod Ladder
pub mod Requests
pub mod Invariant
pub mod Update
pub mod Assign
pub mod Remove
pub mod Release
pub mod Holders
pub mod Releases
pub mod Runs
pub mod Histories
pub mod State
pub mod Lists
pub mod Calls
pub use State.{
  SwitchingSetError, track_in_different_set, track_not_in_set, SwitchingSetMember, SwitchingSet,
  member_snapshot, SwitchingSetManager, at_id, at_name, bump_epoch, or_zero, or_id,
}
unfoldable pub use State.{is_active, snapshot, new, note_stream_opened, note_stream_closed}
pub use Lists.{is_named, is_empty}
unfoldable pub use Lists.{
  find, replace, retain_others, insert_member, sort_members, holds, insert_holder, append_holders,
  remove_holder,
}
pub use Calls.{
  Assignment, Reply, done, failed, members_of_set, without_holder, AssignmentUpdate, Warning,
  request_of,
}
unfoldable pub use Calls.{
  in_other_set, set_of, new_member, put_member, forget_previous, assigned, assign, forget_relay,
  drop_member, remove, release_member, release, warnings_of, move_member, updated_set,
  update_assignment, get_set_for_track,
}
