-- ===== src/Data/FetchObject/Context.antt =====
-- The Objects and markers of fetch_object.rs, and the context that one leaves for the next.
use moqtail.Prelude.{ℕ, List, Option, none, some}
use moqtail.Wire.Buffer.{Bytes}
use moqtail.Data.Properties.{ObjectProperty}

pub record FetchObjectContext : Type 0 where
  pub group_id : ℕ
  pub subgroup_id : Option ℕ
  pub object_id : ℕ
  pub publisher_priority : Option ℕ

pub data EndOfRangeKind : Type 0 where
  non_existent : EndOfRangeKind
  unknown_range : EndOfRangeKind
  timed_out : EndOfRangeKind

unfoldable pub as_flag_value : EndOfRangeKind → ℕ
as_flag_value non_existent = 0x8c
as_flag_value unknown_range = 0x10c
as_flag_value timed_out = 0x20c

pub data ObjectForwardingPreference : Type 0 where
  subgroup : ObjectForwardingPreference
  datagram : ObjectForwardingPreference

pub record FetchObjectPayload : Type 0 where
  pub group_id : ℕ
  pub subgroup_id : ℕ
  pub object_id : ℕ
  pub publisher_priority : ℕ
  pub forwarding_preference : ObjectForwardingPreference
  pub properties : Option (List ObjectProperty)
  pub payload : Bytes

pub data FetchObject : Type 0 where
  object : FetchObjectPayload → FetchObject
  end_of_range : EndOfRangeKind → ℕ → ℕ → FetchObject

abbrev pub subgroup_of : Option FetchObjectContext → Option ℕ
subgroup_of none = none
subgroup_of (some pc) = pc.subgroup_id

abbrev pub priority_of : Option FetchObjectContext → Option ℕ
priority_of none = none
priority_of (some pc) = pc.publisher_priority

unfoldable pub next_context : FetchObject → Option FetchObjectContext → FetchObjectContext
next_context (object p) prev = record {
  group_id = p.group_id;
  subgroup_id = some p.subgroup_id;
  object_id = p.object_id;
  publisher_priority = some p.publisher_priority;
}
next_context (end_of_range kind group object_id) prev = record {
  group_id = group;
  subgroup_id = subgroup_of prev;
  object_id = object_id;
  publisher_priority = priority_of prev;
}
