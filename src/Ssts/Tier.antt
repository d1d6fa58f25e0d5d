-- ===== src/Ssts/Tier.antt =====
-- libs/moqtail-ssts/src/algorithms/backpressure/state.rs: the tier state machine. A call returns the
-- new state and the event. The counters are u64s that a run would need 2^64 groups to overflow, and
-- are not wrapped here.
pub mod Moves
pub mod Streak
use moqtail.Prelude.{
  is_some, ℕ, ◌+◌, ◌-◌, min, Bool, true, false, ◌&&◌, ◌||◌, Option, none, some, ltb, leb, ◌==◌,
  if◌then◌else◌,
}

abbrev pub depth_target : ℕ
depth_target = 1

abbrev pub downshift_depth : ℕ
downshift_depth = 2

abbrev pub upshift_gop_streak : ℕ
upshift_gop_streak = 5

abbrev pub cooldown_high_streak_limit : ℕ
cooldown_high_streak_limit = 2

pub record Observation : Type 0 where
  pub depth : ℕ
  pub timed_out : Bool

-- `Observation::new`
unfoldable pub new : ℕ → ℕ → Observation
new depth timeouts = record { depth = depth + timeouts; timed_out = ltb 0 timeouts }

pub data Cause : Type 0 where
  depth_reached rising_depth timeout : Cause

pub data Event : Type 0 where
  held : Event
  cooldown_exit : Event
  upshift : ℕ → ℕ → Event
  downshift : ℕ → ℕ → Cause → Event

pub record TierState : Type 0 where
  pub current_index : ℕ
  pub clear_streak : ℕ
  pub post_downshift_depth : Option ℕ
  pub cooldown_high_streak : ℕ

abbrev pub start : TierState
start = record {
  current_index = 0;
  clear_streak = 0;
  post_downshift_depth = none;
  cooldown_high_streak = 0;
}

unfoldable pub clamp_to : TierState → ℕ → TierState
clamp_to s max_index = record s { current_index = min s.current_index max_index }

unfoldable pub observe_clear : TierState → TierState × Event
observe_clear s =
    let exited = is_some s.post_downshift_depth in
    let high = if exited then 0 else s.cooldown_high_streak in
    let streak = s.clear_streak + 1 in
    if ltb streak upshift_gop_streak
    then (
      record {
        current_index = s.current_index;
        clear_streak = streak;
        post_downshift_depth = none;
        cooldown_high_streak = high;
      },
      if exited then cooldown_exit else held,
    )
    else (
      record {
        current_index = s.current_index + 1;
        clear_streak = 0;
        post_downshift_depth = none;
        cooldown_high_streak = high;
      },
      upshift s.current_index (s.current_index + 1),
    )

unfoldable pub observe_congested : TierState → ℕ → TierState × Event
observe_congested s depth =
    if ltb depth downshift_depth || (s.current_index == 0)
    then (record s { clear_streak = 0 }, held)
    else (
      record {
        current_index = s.current_index - 1;
        clear_streak = 0;
        post_downshift_depth = some depth;
        cooldown_high_streak = 0;
      },
      downshift s.current_index (s.current_index - 1) depth_reached,
    )

-- The state that `observe_cooldown` returns, from its tier and its high streak.
abbrev cooling : ℕ → ℕ → ℕ → TierState
cooling index depth high = record {
  current_index = index;
  clear_streak = 0;
  post_downshift_depth = some depth;
  cooldown_high_streak = high;
}

unfoldable pub observe_cooldown : TierState → Observation → ℕ → TierState × Event
observe_cooldown s o reference =
    let index = s.current_index in
    let high = s.cooldown_high_streak + 1 in
    if o.timed_out && ltb 0 index
    then (cooling (index - 1) o.depth 0, downshift (index - 1 + 1) (index - 1) timeout)
    else if leb o.depth reference
    then (cooling index o.depth 0, held)
    else if ltb high cooldown_high_streak_limit || (index == 0)
    then (cooling index o.depth high, held)
    else (cooling (index - 1) o.depth 0, downshift (index - 1 + 1) (index - 1) rising_depth)

unfoldable pub observe : TierState → Observation → TierState × Event
observe s o = if leb o.depth depth_target then observe_clear s else elim s.post_downshift_depth [
  | some reference ↦ observe_cooldown s o reference
  | none ↦ observe_congested s o.depth
]
