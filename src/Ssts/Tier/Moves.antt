-- ===== src/Ssts/Tier/Moves.antt =====
-- What one observation does to the tier of backpressure/state.rs.
use moqtail.Prelude.{
  ℕ, ◌+◌, ◌≡◌, Bool, true, false, not, ◌&&◌, Option, none, some, ltb, leb, ◌==◌, arith,
}
use moqtail.Ssts.Tier.{
  Observation, Cause, depth_reached, rising_depth, timeout, Event, held, cooldown_exit, upshift,
  downshift, TierState, observe_clear, observe_congested, observe_cooldown, observe,
}

abbrev is_absent {ℓ} : {A : Type ℓ} → Option A → Bool
is_absent none = true
is_absent (some a) = false

-- What a cause says of the state and the observation that it answers.
abbrev caused : Cause → TierState → Observation → Bool
caused depth_reached s o = is_absent s.post_downshift_depth
caused rising_depth s o = not (is_absent s.post_downshift_depth) && ltb 0 s.cooldown_high_streak
caused timeout s o = not (is_absent s.post_downshift_depth) && o.timed_out

-- The event is a fair account of the step from `s` on `o` to the tier `after`.
abbrev pub accounts : Event → TierState → Observation → ℕ → Bool
accounts held s o after = after == s.current_index
accounts cooldown_exit s o after =
    (after == s.current_index) && (leb o.depth 1 && not (is_absent s.post_downshift_depth))
accounts (upshift from to) s o after =
    (from == s.current_index) && ((to == from + 1) && ((after == to) && leb o.depth 1))
accounts (downshift from to cause) s o after =
    (from == s.current_index)
    && ((from == to + 1) && ((after == to) && (ltb 1 o.depth && caused cause s o)))

-- The event of an observation accounts for its step: the tier stays, rises by one on an
-- uncongested group, or falls by one on a congested group for a cause that the state and the
-- observation bear out; the end of a cooldown is reported only where one was on.
observe-accounts :
    (s : TierState) (o : Observation)
    → accounts (observe s o).1 s o (observe s o).0.current_index ≡ true
unfolding observe observe_clear observe_congested observe_cooldown
observe-accounts s o = ground arith
