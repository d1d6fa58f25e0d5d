-- ===== src/Transport/FetchStream/RoundTrip.antt =====
-- The fetch stream of data_stream_handler.rs, sent and read.
use moqtail.Prelude.{
  ℕ, zero, suc, ◌≤◌, ◌≡◌, refl, ap, ◌∙◌, List, [], ◌∷◌, ◌++◌, map, length, Option, some, arith,
}
use moqtail.Wire.Outcome.{ok, >>=-eq-ok}
use moqtail.Wire.Buffer.{Bytes}
use moqtail.Control.Constant.{GroupOrder}
use moqtail.Data.FetchObject
use moqtail.Data.FetchObject.{
  FetchObjectContext, FetchObjectPayload, FetchObject, object, end_of_range, EndOfRangeKind,
  non_existent, unknown_range, timed_out, as_flag_value, deserialize_marker, next_context,
  is_datagram, ObjectForwardingPreference, subgroup, datagram,
}
use moqtail.Data.FetchObject.Fields.{IsContext}
use moqtail.Transport.FetchStream.{
  DataStreamItem, object_item, end_of_range_item, FetchSubgroupPriorityState, FetchReadState,
  send_all, read_item, read_items, waits, push,
}
use moqtail.Transport.FetchStream.Crossing.{
  received, deserialize_nil, reader, Sendable, Crosses, object-Crosses, marker-Crosses,
  marker-IsContext, object-IsContext,
}

read_item_nil :
    (s : FetchReadState) (order : GroupOrder) {r : (DataStreamItem × FetchReadState) × Bytes}
    → read_item [] s order ≡ ok r
    → ⊥
unfolding read_item
read_item_nil s order {r} e =
    let (o, e₁, e₂) = >>=-eq-ok (FetchObject.deserialize [] s.prev_ctx order) _ e in
    deserialize_nil s.prev_ctx order e₁

-- One round of the reader on an item that is read from the front of its buffer.
read_items_step :
    (rounds : ℕ) (bs : Bytes) (s : FetchReadState) (order : GroupOrder) (item : DataStreamItem)
    (s' : FetchReadState) (rest : Bytes)
    → read_item bs s order ≡ ok ((item, s'), rest)
    → read_items (suc rounds) bs s order ≡ push item (read_items rounds rest s' order)
unfolding read_items
read_items_step rounds [] s order item s' rest e = absurd (read_item_nil s order e)
read_items_step rounds (b ∷ bs) s order item s' rest e = rw (e, read_items) refl

-- The reader waits, with nothing left in its buffer.
abbrev pub AllRead :
    List DataStreamItem
    → Bytes
    → Option FetchObjectContext
    → FetchSubgroupPriorityState
    → GroupOrder
    → ℕ
    → Type 0
AllRead items bs prev s order rounds =
    (s' : FetchReadState) × (read_items rounds bs (reader prev s) order
      ≡ (map received items, waits s' []))

item_then :
    (item : DataStreamItem) (items : List DataStreamItem) (prev next : Option FetchObjectContext)
    (order : GroupOrder) (s s' : FetchSubgroupPriorityState) (rounds : ℕ)
    → Crosses item prev order s next s'
    → (bs : Bytes) × (send_all items next order ≡ ok bs) × AllRead items bs next s' order rounds
    → (bs : Bytes) × (send_all (item ∷ items) prev order ≡ ok bs)
      × AllRead (item ∷ items) bs prev s order (suc rounds)
unfolding Crosses send_all
item_then item items prev next order s s' rounds (bs, sent, read) (bss, sents, (s'', reads)) = (
  bs ++ bss,
  rw (sent, sents) refl,
  (
    s'',
    read_items_step rounds (bs ++ bss) (reader prev s) order (received item) (reader next s') bss
          (read bss)
        ∙ ap (push (received item)) reads,
  ),
)

-- Objects and End of Range markers that a fetch stream carries (each Object turns into a Fetch
-- Object of u64s in the Group Order behind the prior item, with properties that are read as they
-- are written, in the one priority of its Subgroup and within its gaps; each marker at a u64
-- Location) are all sent, and the reader, whose context is u64s and the same as the sender's,
-- queues them in their order and waits with an empty buffer, given a round for each: an Object
-- comes without its Track Alias, and an empty payload as none.
pub read_items-send_all :
    (items : List DataStreamItem) (prev : Option FetchObjectContext) (order : GroupOrder)
    (s : FetchSubgroupPriorityState) (rounds : ℕ)
    → IsContext prev
    → Sendable items prev order s
    → length items ≤ rounds
    → (bs : Bytes) × (send_all items prev order ≡ ok bs) × AllRead items bs prev s order rounds
unfolding send_all read_items
read_items-send_all [] prev order s zero c h n = ([], refl, (reader prev s, refl))
read_items-send_all [] prev order s (suc rounds) c h n = ([], refl, (reader prev s, refl))
read_items-send_all (item ∷ items) prev order s zero c h n = absurd (omega arith)
read_items-send_all (object_item o ∷ items) prev order s (suc rounds) c
      (p, s', e, fits, f, r, v, g, h) n =
    item_then (object_item o) items prev (some (next_context (object p) prev)) order s s' rounds
      (object-Crosses o prev order s p s' c e fits f r v g)
      (read_items-send_all items (some (next_context (object p) prev)) order s' rounds
        (object-IsContext p prev fits) h (omega arith))
read_items-send_all (end_of_range_item kind l ∷ items) prev order s (suc rounds) c (hl, h) n =
    let next = next_context (end_of_range kind l.group l.object) prev in
    item_then (end_of_range_item kind l) items prev (some next) order s s rounds
      (marker-Crosses kind l prev order s hl)
      (read_items-send_all items (some next) order s rounds (marker-IsContext kind l prev c hl) h
        (omega arith))
