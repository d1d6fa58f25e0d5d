-- ===== src/Tests/Ssts.antt =====
-- The theorems about track selection at concrete inputs.
use moqtail.Prelude.{
  ℕ, refl, ◌^◌, arith, ◌≤◌, ◌≡◌, List, [], ◌∷◌, true, false, none, some, ◌==◌, if◌then◌else◌,
}
use moqtail.Ssts.Tier.{Observation, TierState, observe, clamp_to, observe_clear, observe_congested}
use moqtail.Ssts.Tier.Streak.{Run, state_after}
use moqtail.Ssts.Backpressure.{insert, SetSnapshot, Selection, AbrInput, decide}
use moqtail.Ssts.Backpressure.Serves.{entry, answer, entry-decide}
use moqtail.Ssts.Default
use moqtail.Ssts.Default.{
  Contender, dedup, sort_ranks, allocate_ranks, allocate, default_all, record_all,
}
use moqtail.Ssts.Default.Budget.{used, rank_weight, allocate_spends}
use moqtail.Ssts.Default.Answers.{AllAnswered, AllAllowed, allocate_answers}

abbrev clear_group : Observation
clear_group = record { depth = 1; timed_out = false }

abbrev congested_group : Observation
congested_group = record { depth = 3; timed_out = true }

abbrev cooling_state : TierState
cooling_state = record {
  current_index = 2;
  clear_streak = 0;
  post_downshift_depth = some 2;
  cooldown_high_streak = 0;
}

abbrev four_clear : Run
four_clear =
    (clear_group, 3)
    ∷ (clear_group, 3)
    ∷ (clear_group, 3)
    ∷ (clear_group, 3)
    ∷ (congested_group, 3)
    ∷ []

-- The fifth uncongested group in a row raises the tier, and the next congested one lowers it.
raised : (state_after ((clear_group, 3) ∷ four_clear)).current_index ≡ 1
unfolding state_after clamp_to observe observe_clear observe_congested
raised = refl

lowered : (state_after ((congested_group, 3) ∷ (clear_group, 3) ∷ four_clear)).current_index ≡ 0
unfolding state_after clamp_to observe observe_clear observe_congested
lowered = refl

-- A set with two members, and one that nobody watches.
abbrev two_sets : AbrInput
two_sets = record {
  client_id = 1;
  group_id = 9;
  bandwidth_estimate_kbps = 0;
  configured_cap_kbps = 0;
  sets =
      record {
        id = 4;
        algorithm_id = 2;
        rank = 0;
        weight = 1;
        active = true;
        members = (100, 7) ∷ (200, 8) ∷ [];
      }
      ∷ record {
        id = 5;
        algorithm_id = 2;
        rank = 0;
        weight = 1;
        active = false;
        members = (100, 9) ∷ [];
      }
      ∷ [];
  open_streams_per_set = λ set_id. if set_id == 4 then some 3 else none;
  stream_timeouts_since_last_decision = 1;
}

entry-decide_example :
    entry 4 (decide cooling_state two_sets).1
    ≡ answer (decide cooling_state two_sets).0.current_index 4 two_sets.sets
entry-decide_example = entry-decide cooling_state two_sets 4

allocate_spends_example :
    (cs : List Contender) × (allocate_ranks (dedup (sort_ranks two_sets.sets)) 150 two_sets.sets
      ≡ some cs)
    × (allocate 150 two_sets.sets ≡ some (default_all two_sets.sets (record_all cs [])))
    × (used cs ≤ 150)
unfolding rank_weight
allocate_spends_example = allocate_spends 150 two_sets.sets λ rank. ground arith

abbrev heavy : ℕ → ℕ → SetSnapshot
heavy id track = record {
  id = id;
  algorithm_id = 0;
  rank = 0;
  weight = 2 ^ 63;
  active = true;
  members = (100, track) ∷ [];
}

-- Weights that the wire does not allow wrap, and a budget of 100 is spent twice.
spent_twice : allocate 100 (heavy 4 7 ∷ heavy 5 8 ∷ []) ≡ some ((4, some 7) ∷ (5, some 8) ∷ [])
unfolding allocate allocate_ranks dedup sort_ranks Default.insert_rank Default.split
    Default.any_saturated Default.tier_of Default.saturated Default.choose Default.find_last
    Default.saturating_mul Default.total_weight Default.weight_sum Default.top_threshold_kbps
    Default.retire default_all Default.insert_default record_all insert Default.shrink Default.spend
spent_twice = refl

allocate_answers_example :
    (d : Selection) × (allocate 150 two_sets.sets ≡ some d)
    × AllAnswered two_sets.sets d
    × AllAllowed two_sets.sets d
allocate_answers_example = allocate_answers 150 two_sets.sets
