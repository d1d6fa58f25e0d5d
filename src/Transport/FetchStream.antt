-- ===== src/Transport/FetchStream.antt =====
-- libs/moqtail-rs/src/transport/data_stream_handler.rs: what is sent on a fetch stream behind its
-- header, and what a reader makes of it. The stream itself, which takes and gives bytes, is not
-- modelled: a reader is run on what it has in its buffer.
pub mod Crossing
pub mod RoundTrip
use moqtail.Prelude.{
  ℕ, zero, suc, List, [], ◌∷◌, ◌++◌, length, Bool, true, false, not, ◌&&◌, Option, none, some, ◌==◌,
  if◌then◌else◌,
}
use moqtail.Wire.Outcome.{
  Outcome, ok, err, panicked, not_enough_bytes, protocol_violation, guard, ParseError, ◌>>=◌, ◌>>◌,
}
use moqtail.Wire.Buffer.{Bytes}
use moqtail.Wire.Location.{Location, loc}
use moqtail.Control.Constant.{GroupOrder, ascending}
use moqtail.Data.FetchObject.{
  FetchObjectContext, FetchObjectPayload, FetchObject, object, end_of_range, EndOfRangeKind,
  next_context, is_datagram,
}
use moqtail.Data.FetchObject
use moqtail.Data.Properties.{validate_prior_gaps}
use moqtail.Data.Object.{Object, try_into_fetch, try_from_fetch}

pub data DataStreamItem : Type 0 where
  object_item : Object → DataStreamItem
  end_of_range_item : EndOfRangeKind → Location → DataStreamItem

-- `FetchSubgroupPriorityState`, whose map is the function from its keys.
pub record FetchSubgroupPriorityState : Type 0 where
  pub group_id : Option ℕ
  pub priorities : ℕ → Option ℕ

abbrev pub in_group : Option ℕ → ℕ → Bool
in_group none group = false
in_group (some g) group = g == group

abbrev pub start_of_group : FetchSubgroupPriorityState → ℕ → FetchSubgroupPriorityState
start_of_group s group =
    if in_group s.group_id group
    then s
    else record { group_id = some group; priorities = λ id. none }

abbrev pub with_priority : FetchSubgroupPriorityState → ℕ → ℕ → FetchSubgroupPriorityState
with_priority s id priority = record s {
  priorities = λ k. if k == id then some priority else s.priorities k;
}

abbrev pub is_changed : Option ℕ → ℕ → Bool
is_changed none priority = false
is_changed (some previous) priority = not (previous == priority)

-- `FetchSubgroupPriorityState::validate`
unfoldable pub validate :
    FetchSubgroupPriorityState → FetchObjectPayload → Outcome FetchSubgroupPriorityState
validate s p =
    let s' = start_of_group s p.group_id in
    if is_datagram p.forwarding_preference then ok s' else (do
      guard (not (is_changed (s'.priorities p.subgroup_id) p.publisher_priority)) protocol_violation
      ok (with_priority s' p.subgroup_id p.publisher_priority))

-- `FetchReadState`
pub record FetchReadState : Type 0 where
  pub prev_ctx : Option FetchObjectContext
  pub subgroup_priorities : FetchSubgroupPriorityState

-- `FetchReadState::default`
abbrev pub fresh : FetchReadState
fresh = record {
  prev_ctx = none;
  subgroup_priorities = record { group_id = none; priorities = λ id. none };
}

-- `send_object` on a fetch stream, with the context for the next item.
unfoldable pub send_object :
    Object → Option FetchObjectContext → GroupOrder → Outcome (Bytes × Option FetchObjectContext)
send_object o prev group_order = do
  payload ← try_into_fetch o
  buf ← FetchObject.serialize (object payload) prev group_order
  ok (buf, some (next_context (object payload) prev))

unfoldable pub send_end_of_range :
    EndOfRangeKind
    → Location
    → Option FetchObjectContext
    → Outcome (Bytes × Option FetchObjectContext)
send_end_of_range kind location prev = do
  let marker = end_of_range kind location.group location.object
  buf ← FetchObject.serialize marker prev ascending
  ok (buf, some (next_context marker prev))

unfoldable pub send_item :
    DataStreamItem
    → Option FetchObjectContext
    → GroupOrder
    → Outcome (Bytes × Option FetchObjectContext)
send_item (object_item o) prev group_order = send_object o prev group_order
send_item (end_of_range_item kind location) prev group_order = send_end_of_range kind location prev

-- What stands on the stream after a list of items is sent.
unfoldable pub send_all :
    List DataStreamItem → Option FetchObjectContext → GroupOrder → Outcome Bytes
send_all [] prev group_order = ok []
send_all (item ∷ items) prev group_order = do
  (buf, next) ← send_item item prev group_order
  bufs ← send_all items next group_order
  ok (buf ++ bufs)

-- What `read_object` makes of a Fetch Object.
unfoldable pub take_item : FetchObject → FetchReadState → Outcome (DataStreamItem × FetchReadState)
take_item (object p) s = do
  priorities ← validate s.subgroup_priorities p
  validate_prior_gaps p.group_id p.object_id p.properties
  o ← try_from_fetch p 0
  ok (
    object_item o,
    record {
      prev_ctx = some (next_context (object p) s.prev_ctx);
      subgroup_priorities = priorities;
    },
  )
take_item (end_of_range kind group object_id) s = ok (
  end_of_range_item kind (loc group object_id),
  record s { prev_ctx = some (next_context (end_of_range kind group object_id) s.prev_ctx) },
)

unfoldable pub read_item :
    Bytes → FetchReadState → GroupOrder → Outcome ((DataStreamItem × FetchReadState) × Bytes)
read_item bs s group_order = do
  (o, rest) ← FetchObject.deserialize bs s.prev_ctx group_order
  item ← take_item o s
  ok (item, rest)

-- How the inner loop of `read` ends: it waits for more bytes, or an error closes the stream, or
-- a panic ends the reader.
pub data Reading : Type 0 where
  waits : FetchReadState → Bytes → Reading
  closes : Reading
  panics : Reading

abbrev pub stop : ParseError → FetchReadState → Bytes → Reading
stop (not_enough_bytes needed available) s bs = waits s bs
stop _ s bs = closes

abbrev pub push : DataStreamItem → List DataStreamItem × Reading → List DataStreamItem × Reading
push item r = (item ∷ r.0, r.1)

-- The inner loop of `read`, with the items that it queues; a round for each item.
unfoldable pub read_items : ℕ → Bytes → FetchReadState → GroupOrder → List DataStreamItem × Reading
read_items zero bs s group_order = ([], waits s bs)
read_items (suc rounds) [] s group_order = ([], waits s [])
read_items (suc rounds) (b ∷ bs) s group_order = elim (read_item (b ∷ bs) s group_order) [
  | ok r ↦ push r.0.0 (read_items rounds r.1 r.0.1 group_order)
  | err e ↦ ([], stop e s (b ∷ bs))
  | panicked ↦ ([], panics)
]
