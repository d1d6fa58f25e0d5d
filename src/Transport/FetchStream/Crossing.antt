-- ===== src/Transport/FetchStream/Crossing.antt =====
-- One item of the fetch stream of data_stream_handler.rs, sent and read.
use moqtail.Prelude.{
  ℕ, ◌≡◌, refl, sym, ap, ◌∙◌, List, [], ◌∷◌, ◌++◌, append_assoc, Option, none, some, arith,
}
use moqtail.Wire.Outcome.{ok, ok_injective}
use moqtail.Wire.Buffer.{Bytes, IsU64}
use moqtail.Wire.Location.{Location, IsLocation}
use moqtail.Wire.Varint.{get_vi, vi}
use moqtail.Wire.Varint.RoundTrip.{get_vi-vi, put_vi-vi}
use moqtail.Control.Constant.{GroupOrder, ascending}
use moqtail.Data.Constant.{ObjectStatus, normal, end_of_group_status, end_of_track}
use moqtail.Data.FetchObject
use moqtail.Data.FetchObject.{
  FetchObjectContext, FetchObjectPayload, FetchObject, object, end_of_range, EndOfRangeKind,
  non_existent, unknown_range, timed_out, as_flag_value, deserialize_marker, next_context,
  is_datagram, ObjectForwardingPreference, subgroup, datagram,
}
use moqtail.Data.FetchObject.Fields.{IsContext}
use moqtail.Data.FetchObject.Follows.{Follows}
use moqtail.Data.FetchObject.Layout.{IsPayload, ReadsBack, read_back}
use moqtail.Data.FetchObject.RoundTrip.{deserialize-serialize_fetch}
use moqtail.Data.Properties.{validate_prior_gaps}
use moqtail.Data.Object.{Object, try_into_fetch, try_from_fetch, none_if_empty, or_no_bytes}
use moqtail.Transport.FetchStream.{
  DataStreamItem, object_item, end_of_range_item, FetchSubgroupPriorityState, FetchReadState,
  validate, send_object, send_end_of_range, send_item, take_item, read_item,
}

-- An Object as a reader gets it: without its Track Alias, and without an empty payload.
abbrev pub received : DataStreamItem → DataStreamItem
received (object_item o) =
    object_item (record o { track_alias = 0; payload = none_if_empty (or_no_bytes o.payload) })
received (end_of_range_item kind location) = end_of_range_item kind location

pub deserialize_nil :
    (prev : Option FetchObjectContext) (order : GroupOrder) {r : FetchObject × Bytes}
    → FetchObject.deserialize [] prev order ≡ ok r
    → ⊥
unfolding FetchObject.deserialize get_vi
deserialize_nil prev order e = cc

flag-IsU64 : (kind : EndOfRangeKind) → IsU64 (as_flag_value kind)
unfolding as_flag_value
flag-IsU64 non_existent = omega arith
flag-IsU64 unknown_range = omega arith
flag-IsU64 timed_out = omega arith

marker_read :
    (kind : EndOfRangeKind) (g o : ℕ) (rest : Bytes) (prev : Option FetchObjectContext)
    (order : GroupOrder)
    → IsU64 g
    → IsU64 o
    → FetchObject.deserialize (vi (as_flag_value kind) ++ (vi g ++ (vi o ++ rest))) prev order
      ≡ ok (end_of_range kind g o, rest)
unfolding FetchObject.deserialize deserialize_marker as_flag_value
marker_read non_existent g o rest prev order hg ho =
    rw
      (
        get_vi-vi 0x8c (vi g ++ (vi o ++ rest)) (omega arith),
        get_vi-vi g (vi o ++ rest) hg,
        get_vi-vi o rest ho,
      )
      refl
marker_read unknown_range g o rest prev order hg ho =
    rw
      (
        get_vi-vi 0x10c (vi g ++ (vi o ++ rest)) (omega arith),
        get_vi-vi g (vi o ++ rest) hg,
        get_vi-vi o rest ho,
      )
      refl
marker_read timed_out g o rest prev order hg ho =
    rw
      (
        get_vi-vi 0x20c (vi g ++ (vi o ++ rest)) (omega arith),
        get_vi-vi g (vi o ++ rest) hg,
        get_vi-vi o rest ho,
      )
      refl

marker_back :
    (kind : EndOfRangeKind) (l : Location) (prev : Option FetchObjectContext) (order : GroupOrder)
    → IsLocation l
    → (bs : Bytes) × (FetchObject.serialize (end_of_range kind l.group l.object) prev ascending
        ≡ ok bs)
      × ((rest : Bytes)
          → FetchObject.deserialize (bs ++ rest) prev order
            ≡ ok (end_of_range kind l.group l.object, rest))
unfolding FetchObject.serialize
marker_back kind l prev order (hg, ho) = (
  (vi (as_flag_value kind) ++ vi l.group) ++ vi l.object,
  rw
      (
        put_vi-vi [] (as_flag_value kind) (flag-IsU64 kind),
        put_vi-vi (vi (as_flag_value kind)) l.group hg,
        put_vi-vi (vi (as_flag_value kind) ++ vi l.group) l.object ho,
      )
      refl,
  λ rest.
      rw
        (
          append_assoc (vi (as_flag_value kind) ++ vi l.group) (vi l.object) rest,
          append_assoc (vi (as_flag_value kind)) (vi l.group) (vi l.object ++ rest),
        )
        (marker_read kind l.group l.object rest prev order hg ho),
)

none_if_empty-or_no_bytes : (bs : Bytes) → or_no_bytes (none_if_empty bs) ≡ bs
none_if_empty-or_no_bytes [] = refl
none_if_empty-or_no_bytes (b ∷ bs) = refl

-- What a Fetch Object made of an Object is, read and taken again.
fetched :
    (o : Object) (p : FetchObjectPayload)
    → try_into_fetch o ≡ ok p
    → (try_from_fetch p 0
        ≡ ok (record o { track_alias = 0; payload = none_if_empty (or_no_bytes o.payload) }))
      × (read_back p p.properties ≡ object p)
unfolding try_into_fetch try_from_fetch
fetched o p e = body o.status o.forwarding_preference o.subgroup_id refl refl refl
  where
    body :
        (status : ObjectStatus) (f : ObjectForwardingPreference) (id : Option ℕ)
        → o.status ≡ status
        → o.forwarding_preference ≡ f
        → o.subgroup_id ≡ id
        → (try_from_fetch p 0
            ≡ ok (record o { track_alias = 0; payload = none_if_empty (or_no_bytes o.payload) }))
          × (read_back p p.properties ≡ object p)
    body normal subgroup (some id) es ef ei = (ground arith, ground arith)
    body normal datagram none es ef ei = (ground arith, ground arith)
    body normal subgroup none es ef ei = absurd (ground arith)
    body normal datagram (some id) es ef ei = absurd (ground arith)
    body end_of_group_status f id es ef ei = absurd (ground arith)
    body end_of_track f id es ef ei = absurd (ground arith)

-- A reader behind an item, in the context of the sender and with what it knows of the priorities.
abbrev pub reader : Option FetchObjectContext → FetchSubgroupPriorityState → FetchReadState
reader prev s = record { prev_ctx = prev; subgroup_priorities = s }

pub marker-IsContext :
    (kind : EndOfRangeKind) (l : Location) (prev : Option FetchObjectContext)
    → IsContext prev
    → IsLocation l
    → IsContext (some (next_context (end_of_range kind l.group l.object) prev))
unfolding next_context
marker-IsContext kind l none c (hg, ho) = (hg, tt, ho)
marker-IsContext kind l (some pc) c (hg, ho) = (hg, c.1, ho)

pub object-IsContext :
    (p : FetchObjectPayload) (prev : Option FetchObjectContext)
    → IsPayload p
    → IsContext (some (next_context (object p) prev))
unfolding next_context
object-IsContext p prev (hg, hs, ho, hp) = (hg, hs, ho)

-- The items that may follow a prior one on a fetch stream: an Object that a fetch stream carries,
-- in the Group Order, with its properties as they are read, in the priority of its Subgroup and
-- within the prior gaps, or a marker at a Location.
abbrev pub Sendable :
    List DataStreamItem
    → Option FetchObjectContext
    → GroupOrder
    → FetchSubgroupPriorityState
    → Type 0
Sendable [] prev order s = Unit {0}
Sendable (object_item o ∷ items) prev order s =
    (p : FetchObjectPayload) × (s' : FetchSubgroupPriorityState) × (try_into_fetch o ≡ ok p)
    × IsPayload p
    × Follows prev order p
    × ReadsBack p.properties p.properties
    × (validate s p ≡ ok s')
    × (validate_prior_gaps p.group_id p.object_id p.properties ≡ ok tt)
    × Sendable items (some (next_context (object p) prev)) order s'
Sendable (end_of_range_item kind l ∷ items) prev order s =
    IsLocation l
    × Sendable items (some (next_context (end_of_range kind l.group l.object) prev)) order s

-- An item is sent, and read from what is sent.
unfoldable pub Crosses :
    DataStreamItem
    → Option FetchObjectContext
    → GroupOrder
    → FetchSubgroupPriorityState
    → Option FetchObjectContext
    → FetchSubgroupPriorityState
    → Type 0
Crosses item prev order s next s' =
    (bs : Bytes) × (send_item item prev order ≡ ok (bs, next))
    × ((rest : Bytes)
        → read_item (bs ++ rest) (reader prev s) order ≡ ok ((received item, reader next s'), rest))

pub object-Crosses :
    (o : Object) (prev : Option FetchObjectContext) (order : GroupOrder)
    (s : FetchSubgroupPriorityState) (p : FetchObjectPayload) (s' : FetchSubgroupPriorityState)
    → IsContext prev
    → try_into_fetch o ≡ ok p
    → IsPayload p
    → Follows prev order p
    → ReadsBack p.properties p.properties
    → validate s p ≡ ok s'
    → validate_prior_gaps p.group_id p.object_id p.properties ≡ ok tt
    → Crosses (object_item o) prev order s (some (next_context (object p) prev)) s'
unfolding Crosses send_item send_object read_item take_item
object-Crosses o prev order s p s' c e fits f r v g =
    let back = fetched o p e in
    let (bs, written, read) = deserialize-serialize_fetch p prev order p.properties [] c fits f r in
    (
      bs,
      rw (e, written) refl,
      λ rest.
          let (bs', written', read') =
            deserialize-serialize_fetch p prev order p.properties rest c fits f r in
          let same : bs ≡ bs' = ok_injective (sym written ∙ written') in
          let again : FetchObject.deserialize (bs ++ rest) prev order ≡ ok (object p, rest) =
            rw same (read' ∙ ap (λ x. ok (x, rest)) back.1) in
          rw (again, v, g, back.0) refl,
    )

pub marker-Crosses :
    (kind : EndOfRangeKind) (l : Location) (prev : Option FetchObjectContext) (order : GroupOrder)
    (s : FetchSubgroupPriorityState)
    → IsLocation l
    → Crosses
        (end_of_range_item kind l)
        prev
        order
        s
        (some (next_context (end_of_range kind l.group l.object) prev))
        s
unfolding Crosses send_item send_end_of_range read_item take_item
marker-Crosses kind l prev order s h =
    let (bs, written, read) = marker_back kind l prev order h in
    (bs, rw written refl, λ rest. rw (read rest) refl)
