-- ===== src/Data/FetchObject.antt =====
-- libs/moqtail-rs/src/model/data/fetch_object.rs: the Objects of a Fetch stream, each written as what
-- differs from the one before. The three sums `+ 1` that are not checked panic on overflow, as they
-- do where overflow checks are on.
pub mod Fields
pub mod Layout
pub mod RoundTrip
pub mod Safe
pub mod Follows
pub mod Context
pub mod Write
pub mod Read
pub use Context.{
  FetchObjectContext, EndOfRangeKind, non_existent, unknown_range, timed_out,
  ObjectForwardingPreference, subgroup, datagram, FetchObjectPayload, FetchObject, object,
  end_of_range, subgroup_of, priority_of,
}
unfoldable pub use Context.{as_flag_value, next_context}
pub use Write.{
  plus_one, some_delta, eq_option, is_datagram, has_properties, put_delta, put_if, put_byte_if,
  put_properties,
}
unfoldable pub use Write.{
  step_back, order_delta, group_delta, object_delta, has_priority, prior_mode, subgroup_mode, flags,
  serialize_payload, serialize,
}
pub use Read.{kind_of, FetchFlags, and_then, preference_of}
unfoldable pub use Read.{
  deserialize_marker, read_flags, check_first, apply_order, resolve_group, read_group,
  read_subgroup, resolve_object, read_object, read_priority, read_block, read_properties,
  deserialize_object, deserialize,
}
