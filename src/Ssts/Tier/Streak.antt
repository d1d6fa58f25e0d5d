-- ===== src/Ssts/Tier/Streak.antt =====
-- When the tier of backpressure/state.rs rises, in a run from the start.
use moqtail.Prelude.{
  ltb, ◌||◌, ◌-◌, ℕ, ◌+◌, ◌%◌, List, [], ◌∷◌, Bool, true, false, ◌&&◌, leb, ◌==◌, if◌then◌else◌,
}
use moqtail.Ssts.Tier.{
  Observation, Event, held, cooldown_exit, upshift, downshift, TierState, start, clamp_to, observe,
}

-- The observations of a connection, the newest first, each with the bound of its decision.
abbrev pub Run : Type 0
Run = List (Observation × ℕ)

unfoldable pub state_after : Run → TierState
state_after [] = start
state_after ((o, max_index) ∷ h) = clamp_to (observe (state_after h) o).0 max_index

-- How many of the newest observations were uncongested in a row.
unfoldable pub clear_in_a_row : Run → ℕ
clear_in_a_row [] = 0
clear_in_a_row ((o, max_index) ∷ h) =
    let row = clear_in_a_row h in if leb o.depth 1 then row + 1 else 0

abbrev pub is_upshift : Event → Bool
is_upshift held = false
is_upshift cooldown_exit = false
is_upshift (upshift from to) = true
is_upshift (downshift from to cause) = false

-- The observation is uncongested, and the fifth, tenth, fifteenth ... uncongested one in a row.
abbrev pub completes_streak : Run → Observation → Bool
completes_streak h o = leb o.depth 1 && ((clear_in_a_row h + 1) % 5 == 0)

-- No congestion has been seen yet, or it was over with the newest observation.
abbrev pub is_settled : Run → Bool
is_settled [] = true
is_settled ((o, max_index) ∷ h) = leb o.depth 1

abbrev pub is_downshift : Event → Bool
is_downshift held = false
is_downshift cooldown_exit = false
is_downshift (upshift from to) = false
is_downshift (downshift from to cause) = true

-- Deeper than the newest observation.
abbrev pub is_deeper : Run → Observation → Bool
is_deeper [] o = false
is_deeper ((p, max_index) ∷ h) o = ltb p.depth o.depth

-- The tier that the observation asks for, before the bound of its decision.
abbrev pub wanted_tier : Run → Observation → ℕ → ℕ
wanted_tier h o tier =
    if leb o.depth 1
    then (if completes_streak h o then tier + 1 else tier)
    else if is_settled h
        || (o.timed_out || (is_deeper h o && is_downshift (observe (state_after h) o).1))
    then tier - 1
    else tier
