-- ===== src/Data/FetchObject/RoundTrip.antt =====
-- Writing and reading back a Fetch Object of fetch_object.rs.
use moqtail.Prelude.{◌≡◌, List, ◌++◌, Option}
use moqtail.Wire.Outcome.{ok}
use moqtail.Wire.Buffer.{Bytes}
use moqtail.Control.Constant.{GroupOrder}
use moqtail.Data.Properties.{ObjectProperty}
use moqtail.Data.FetchObject.{
  FetchObjectContext, FetchObjectPayload, object, is_datagram, serialize, deserialize,
}
use moqtail.Data.FetchObject.Fields.{IsContext}
use moqtail.Data.FetchObject.Follows.{Follows, group_delta_ok, object_delta_ok, subgroup_mode_ok}
use moqtail.Data.FetchObject.Layout.{
  IsPayload, ReadsBack, read_back, properties_lem, serialize-written, deserialize-written,
}

-- A Fetch Object of u64s with properties that are written and read back as `back`, `none` for an
-- empty list, and either no prior Object, or one of u64s whose Object ID and Subgroup ID are
-- below the greatest u64, whose group does not come after that of the Object in the Group Order,
-- and whose Object ID is not above it in the same group: `serialize` returns bytes, and
-- `deserialize` with the same prior Object and order reads the Object back with `back` as its
-- properties, and with its Object ID as its Subgroup ID where it is a datagram. What follows is
-- left unread.
pub deserialize-serialize_fetch :
    (p : FetchObjectPayload) (prev : Option FetchObjectContext) (order : GroupOrder)
    (back : Option (List ObjectProperty)) (rest : Bytes)
    → IsContext prev
    → IsPayload p
    → Follows prev order p
    → ReadsBack p.properties back
    → (bs : Bytes) × (serialize (object p) prev order ≡ ok bs)
      × (deserialize (bs ++ rest) prev order ≡ ok (read_back p back, rest))
deserialize-serialize_fetch p prev order back rest c fits f r =
    let (g, eg) = group_delta_ok prev order p f in
    let (o, eo) = object_delta_ok prev order p g f eg in
    let (mode, em) = subgroup_mode_ok (is_datagram p.forwarding_preference) prev order p f in
    let (ext, put, get) = properties_lem p.properties back r in
    (
      _,
      serialize-written p prev order back c fits g o mode eg eo em ext put get,
      deserialize-written p prev order back c fits g o mode eg eo em ext put get rest,
    )
