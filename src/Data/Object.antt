-- ===== src/Data/Object.antt =====
-- libs/moqtail-rs/src/model/data/object.rs: an Object as the library's users see it, and what it is on
-- a subgroup stream, on a fetch stream and in a datagram.
pub mod Forms
use moqtail.Prelude.{
  ℕ, List, [], ◌∷◌, Bool, true, false, not, ◌&&◌, Option, none, some, is_some, ◌==◌, if◌then◌else◌,
}
use moqtail.Wire.Outcome.{Outcome, ok, err, casting_error, guard, ok_or, ◌>>=◌, ◌>>◌}
use moqtail.Wire.Buffer.{Bytes}
use moqtail.Wire.Location.{Location, loc}
use moqtail.Data.Constant.{ObjectStatus, normal, end_of_group_status, end_of_track}
use moqtail.Data.Properties.{ObjectProperty}
use moqtail.Data.FetchObject.{ObjectForwardingPreference, subgroup, datagram, FetchObjectPayload}
use moqtail.Data.SubgroupObject.{SubgroupObject, status_or_normal}
use moqtail.Data.Datagram.{Datagram, new_payload, new_status}

pub record Object : Type 0 where
  pub track_alias : ℕ
  pub location : Location
  pub publisher_priority : ℕ
  pub forwarding_preference : ObjectForwardingPreference
  pub subgroup_id : Option ℕ
  pub status : ObjectStatus
  pub properties : Option (List ObjectProperty)
  pub payload : Option Bytes

abbrev pub or_default : Option ℕ → ℕ → ℕ
or_default none d = d
or_default (some n) d = n

abbrev pub status_and_payload : Option ObjectStatus → Option Bytes → ObjectStatus × Option Bytes
status_and_payload (some status) payload = (status, none)
status_and_payload none payload = (normal, payload)

-- `try_from_datagram`, with whether the datagram ends its group. It never fails.
unfoldable pub try_from_datagram : Datagram → ℕ → Outcome (Object × Bool)
try_from_datagram d default_priority =
    let body = status_and_payload d.object_status d.payload in
    ok (
      record {
        track_alias = d.track_alias;
        location = loc d.group_id d.object_id;
        publisher_priority = or_default d.publisher_priority default_priority;
        forwarding_preference = datagram;
        subgroup_id = none;
        status = body.0;
        properties = d.properties;
        payload = body.1;
      },
      d.end_of_group,
    )

unfoldable pub try_from_subgroup : SubgroupObject → ℕ → ℕ → Option ℕ → Option ℕ → ℕ → Outcome Object
try_from_subgroup o alias group subgroup_id priority default_priority = ok (record {
  track_alias = alias;
  location = loc group o.object_id;
  publisher_priority = or_default priority default_priority;
  forwarding_preference = subgroup;
  subgroup_id = subgroup_id;
  status = status_or_normal o.object_status;
  properties = o.properties;
  payload = o.payload;
})

abbrev pub subgroup_of : ObjectForwardingPreference → ℕ → Option ℕ
subgroup_of subgroup id = some id
subgroup_of datagram id = none

abbrev pub none_if_empty : Bytes → Option Bytes
none_if_empty [] = none
none_if_empty (b ∷ bs) = some (b ∷ bs)

unfoldable pub try_from_fetch : FetchObjectPayload → ℕ → Outcome Object
try_from_fetch p alias = ok (record {
  track_alias = alias;
  location = loc p.group_id p.object_id;
  publisher_priority = p.publisher_priority;
  forwarding_preference = p.forwarding_preference;
  subgroup_id = subgroup_of p.forwarding_preference p.subgroup_id;
  status = normal;
  properties = p.properties;
  payload = none_if_empty p.payload;
})

abbrev pub is_datagram : ObjectForwardingPreference → Bool
is_datagram subgroup = false
is_datagram datagram = true

abbrev pub is_normal : ObjectStatus → Bool
is_normal normal = true
is_normal end_of_group_status = false
is_normal end_of_track = false

-- The priority is left out where it is the default.
abbrev pub sent_priority : ℕ → Option ℕ → Option ℕ
sent_priority priority none = some priority
sent_priority priority (some d) = if d == priority then none else some priority

unfoldable pub try_into_datagram : Object → ℕ → Bool → Option ℕ → Outcome Datagram
try_into_datagram o alias end_of_group default_priority = do
  guard (is_datagram o.forwarding_preference) casting_error
  let priority = sent_priority o.publisher_priority default_priority
  if is_normal o.status
      then (do
        payload ← ok_or o.payload casting_error
        ok (
            new_payload alias o.location.group o.location.object priority o.properties payload
              end_of_group))
      else (do
        guard (not (is_some o.payload)) casting_error
        ok (new_status alias o.location.group o.location.object priority o.properties o.status))

-- The payload and the status that an Object has on a subgroup stream.
abbrev pub subgroup_body :
    ObjectStatus → Option Bytes → Outcome (Option Bytes × Option ObjectStatus)
subgroup_body normal (some payload) = ok (some payload, none)
subgroup_body normal none = err casting_error
subgroup_body end_of_group_status (some payload) = err casting_error
subgroup_body end_of_group_status none = ok (none, some end_of_group_status)
subgroup_body end_of_track (some payload) = err casting_error
subgroup_body end_of_track none = ok (none, some end_of_track)

unfoldable pub try_into_subgroup : Object → Outcome SubgroupObject
try_into_subgroup o = do
  guard (not (is_datagram o.forwarding_preference)) casting_error
  id ← ok_or o.subgroup_id casting_error
  body ← subgroup_body o.status o.payload
  ok (record {
    object_id = o.location.object;
    properties = o.properties;
    object_status = body.1;
    payload = body.0;
  })

abbrev pub or_no_bytes : Option Bytes → Bytes
or_no_bytes none = []
or_no_bytes (some bs) = bs

abbrev pub fetch_subgroup : ObjectForwardingPreference → Option ℕ → ℕ → Outcome ℕ
fetch_subgroup subgroup id object_id = ok_or id casting_error
fetch_subgroup datagram none object_id = ok object_id
fetch_subgroup datagram (some id) object_id = err casting_error

unfoldable pub try_into_fetch : Object → Outcome FetchObjectPayload
try_into_fetch o = do
  guard (is_normal o.status) casting_error
  id ← fetch_subgroup o.forwarding_preference o.subgroup_id o.location.object
  ok (record {
    group_id = o.location.group;
    subgroup_id = id;
    object_id = o.location.object;
    publisher_priority = o.publisher_priority;
    forwarding_preference = o.forwarding_preference;
    properties = o.properties;
    payload = or_no_bytes o.payload;
  })
