-- ===== src/Control/Constant/Codes.antt =====
-- The code points of control/constant.rs.
use moqtail.Prelude.{ℕ, ◌≡◌, ◌↔◌, false, ◌==◌, arith}
use moqtail.Wire.Outcome.{ok}
use moqtail.Control.Constant.{
  ControlMessageType, message_type_to_u64, message_type_try_from, SwitchMode, switch_mode_to_u64,
  switch_mode_try_from, GroupOrder, group_order_to_u64, group_order_try_from, TrackStatusCode,
  track_status_to_u64, track_status_try_from, PublishDoneStatusCode, publish_done_status_to_u64,
  publish_done_status_try_from, from_wire,
}

message_type_codes :
    (v : ℕ) (c : ControlMessageType)
    → (message_type_try_from v ≡ ok c) ↔ (message_type_to_u64 c ≡ v)
unfolding message_type_try_from message_type_to_u64
message_type_codes v c = (λ h. ground arith, λ h. ground arith)

switch_mode_codes :
    (v : ℕ) (c : SwitchMode) → (switch_mode_try_from v ≡ ok c) ↔ (switch_mode_to_u64 c ≡ v)
unfolding switch_mode_try_from switch_mode_to_u64
switch_mode_codes v c = (λ h. ground arith, λ h. ground arith)

group_order_codes :
    (v : ℕ) (c : GroupOrder) → (group_order_try_from v ≡ ok c) ↔ (group_order_to_u64 c ≡ v)
unfolding group_order_try_from group_order_to_u64
group_order_codes v c = (λ h. ground arith, λ h. ground arith)

track_status_codes :
    (v : ℕ) (c : TrackStatusCode) → (track_status_try_from v ≡ ok c) ↔ (track_status_to_u64 c ≡ v)
unfolding track_status_try_from track_status_to_u64
track_status_codes v c = (λ h. ground arith, λ h. ground arith)

publish_done_status_codes :
    (v : ℕ) (c : PublishDoneStatusCode)
    → (publish_done_status_try_from v ≡ ok c) ↔ (publish_done_status_to_u64 c ≡ v)
unfolding publish_done_status_try_from publish_done_status_to_u64
publish_done_status_codes v c = (λ h. ground arith, λ h. ground arith)

-- A number is read as a code of one of the five types of control codes exactly if it is the
-- number of that code.
codes_iff :
    (v : ℕ) (t : ControlMessageType) (m : SwitchMode) (o : GroupOrder) (s : TrackStatusCode)
    (d : PublishDoneStatusCode)
    → ((message_type_try_from v ≡ ok t) ↔ (message_type_to_u64 t ≡ v))
      × ((switch_mode_try_from v ≡ ok m) ↔ (switch_mode_to_u64 m ≡ v))
      × ((group_order_try_from v ≡ ok o) ↔ (group_order_to_u64 o ≡ v))
      × ((track_status_try_from v ≡ ok s) ↔ (track_status_to_u64 s ≡ v))
      × ((publish_done_status_try_from v ≡ ok d) ↔ (publish_done_status_to_u64 d ≡ v))
codes_iff v t m o s d = (
  message_type_codes v t,
  switch_mode_codes v m,
  group_order_codes v o,
  track_status_codes v s,
  publish_done_status_codes v d,
)

-- `from_wire` returns a status code other than an internal error exactly for the number of that
-- code.
pub from_wire_iff :
    (v : ℕ) (d : PublishDoneStatusCode)
    → (publish_done_status_to_u64 d == 0) ≡ false
    → (from_wire v ≡ d) ↔ (publish_done_status_to_u64 d ≡ v)
unfolding from_wire publish_done_status_try_from publish_done_status_to_u64
from_wire_iff v d h = (λ e. ground arith, λ e. ground arith)
