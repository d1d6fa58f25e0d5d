-- ===== src/Control/Constant.antt =====
-- libs/moqtail-rs/src/model/control/constant.rs: the code points of the control messages. Each type
-- has the two conversions of its own: `try_from` of a number, and the cast back.
pub mod Codes
use moqtail.Prelude.{ℕ, Bool, true, false, ◌==◌, if◌then◌else◌}
use moqtail.Wire.Outcome.{Outcome, ok, err, panicked, invalid_type}

pub data ControlMessageType : Type 0 where
  setup go_away subscribe subscribe_ok request_error request_update fetch fetch_ok track_status
        publish_namespace request_ok namespace namespace_done subscribe_namespace subscribe_tracks
        publish publish_done publish_ok publish_skipped :
      ControlMessageType

unfoldable pub message_type_to_u64 : ControlMessageType → ℕ
message_type_to_u64 setup = 0x2f00
message_type_to_u64 go_away = 0x10
message_type_to_u64 subscribe = 0x03
message_type_to_u64 subscribe_ok = 0x04
message_type_to_u64 request_error = 0x05
message_type_to_u64 request_update = 0x02
message_type_to_u64 fetch = 0x16
message_type_to_u64 fetch_ok = 0x18
message_type_to_u64 track_status = 0x0d
message_type_to_u64 publish_namespace = 0x06
message_type_to_u64 request_ok = 0x07
message_type_to_u64 namespace = 0x08
message_type_to_u64 namespace_done = 0x0e
message_type_to_u64 subscribe_namespace = 0x50
message_type_to_u64 subscribe_tracks = 0x51
message_type_to_u64 publish = 0x1d
message_type_to_u64 publish_done = 0x0b
message_type_to_u64 publish_ok = 0x1e
message_type_to_u64 publish_skipped = 0x0f

unfoldable pub message_type_try_from : ℕ → Outcome ControlMessageType
message_type_try_from value =
    if value == 0x2f00
    then ok setup
    else if value == 0x10
    then ok go_away
    else if value == 0x03
    then ok subscribe
    else if value == 0x04
    then ok subscribe_ok
    else if value == 0x05
    then ok request_error
    else if value == 0x02
    then ok request_update
    else if value == 0x0b
    then ok publish_done
    else if value == 0x16
    then ok fetch
    else if value == 0x18
    then ok fetch_ok
    else if value == 0x0d
    then ok track_status
    else if value == 0x06
    then ok publish_namespace
    else if value == 0x07
    then ok request_ok
    else if value == 0x08
    then ok namespace
    else if value == 0x0e
    then ok namespace_done
    else if value == 0x50
    then ok subscribe_namespace
    else if value == 0x51
    then ok subscribe_tracks
    else if value == 0x1d
    then ok publish
    else if value == 0x1e
    then ok publish_ok
    else if value == 0x0f
    then ok publish_skipped
    else err invalid_type

-- A type that must open a request stream
unfoldable pub is_first : ControlMessageType → Bool
is_first setup = false
is_first go_away = false
is_first subscribe = true
is_first subscribe_ok = false
is_first request_error = false
is_first request_update = false
is_first fetch = true
is_first fetch_ok = false
is_first track_status = true
is_first publish_namespace = true
is_first request_ok = false
is_first namespace = false
is_first namespace_done = false
is_first subscribe_namespace = true
is_first subscribe_tracks = true
is_first publish = true
is_first publish_done = false
is_first publish_ok = false
is_first publish_skipped = false

pub data SwitchMode : Type 0 where
  hard soft : SwitchMode

unfoldable pub switch_mode_to_u64 : SwitchMode → ℕ
switch_mode_to_u64 hard = 0x0
switch_mode_to_u64 soft = 0x1

unfoldable pub switch_mode_try_from : ℕ → Outcome SwitchMode
switch_mode_try_from value =
    if value == 0x0 then ok hard else if value == 0x1 then ok soft else err invalid_type

pub data GroupOrder : Type 0 where
  original ascending descending : GroupOrder

unfoldable pub group_order_to_u64 : GroupOrder → ℕ
group_order_to_u64 original = 0x0
group_order_to_u64 ascending = 0x1
group_order_to_u64 descending = 0x2

unfoldable pub group_order_try_from : ℕ → Outcome GroupOrder
group_order_try_from value =
    if value == 0x0
    then ok original
    else if value == 0x1
    then ok ascending
    else if value == 0x2
    then ok descending
    else err invalid_type

pub data TrackStatusCode : Type 0 where
  in_progress does_not_exist not_yet_begun finished relay_unavailable : TrackStatusCode

unfoldable pub track_status_to_u64 : TrackStatusCode → ℕ
track_status_to_u64 in_progress = 0x00
track_status_to_u64 does_not_exist = 0x01
track_status_to_u64 not_yet_begun = 0x02
track_status_to_u64 finished = 0x03
track_status_to_u64 relay_unavailable = 0x04

unfoldable pub track_status_try_from : ℕ → Outcome TrackStatusCode
track_status_try_from value =
    if value == 0x00
    then ok in_progress
    else if value == 0x01
    then ok does_not_exist
    else if value == 0x02
    then ok not_yet_begun
    else if value == 0x03
    then ok finished
    else if value == 0x04
    then ok relay_unavailable
    else err invalid_type

pub data PublishDoneStatusCode : Type 0 where
  internal_error unauthorized track_ended going_away too_far_behind expired update_failed
        excessive_load malformed_track :
      PublishDoneStatusCode

unfoldable pub publish_done_status_to_u64 : PublishDoneStatusCode → ℕ
publish_done_status_to_u64 internal_error = 0x0
publish_done_status_to_u64 unauthorized = 0x1
publish_done_status_to_u64 track_ended = 0x2
publish_done_status_to_u64 going_away = 0x4
publish_done_status_to_u64 too_far_behind = 0x5
publish_done_status_to_u64 expired = 0x6
publish_done_status_to_u64 update_failed = 0x8
publish_done_status_to_u64 excessive_load = 0x9
publish_done_status_to_u64 malformed_track = 0x12

unfoldable pub publish_done_status_try_from : ℕ → Outcome PublishDoneStatusCode
publish_done_status_try_from value =
    if value == 0x0
    then ok internal_error
    else if value == 0x1
    then ok unauthorized
    else if value == 0x2
    then ok track_ended
    else if value == 0x4
    then ok going_away
    else if value == 0x5
    then ok too_far_behind
    else if value == 0x6
    then ok expired
    else if value == 0x8
    then ok update_failed
    else if value == 0x9
    then ok excessive_load
    else if value == 0x12
    then ok malformed_track
    else err invalid_type

-- `Self::try_from(value).unwrap_or(Self::InternalError)`
abbrev or_internal_error : Outcome PublishDoneStatusCode → PublishDoneStatusCode
or_internal_error (ok code) = code
or_internal_error (err e) = internal_error
or_internal_error panicked = internal_error

unfoldable pub from_wire : ℕ → PublishDoneStatusCode
from_wire value = or_internal_error (publish_done_status_try_from value)
