-- ===== src/Relay/SwitchingSets/State.antt =====
-- The manager of switching_set.rs: its maps, and the counts of open streams.
use moqtail.Prelude.{
  ℕ, ◌+◌, ◌-◌, ◌%◌, ◌^◌, List, map, Bool, ◌&&◌, Option, none, some, length, ltb, leb, ◌==◌,
  if◌then◌else◌,
}
use moqtail.Data.TrackName.{FullTrackName, name_eq}
use moqtail.Ssts.Backpressure.{SetSnapshot}

pub data SwitchingSetError : Type 0 where
  track_in_different_set : SwitchingSetError
  track_not_in_set : SwitchingSetError

pub record SwitchingSetMember : Type 0 where
  pub full_track_name : FullTrackName
  pub relay_track_id : ℕ
  pub throughput_threshold_kbps : ℕ
  pub request_id : ℕ
  pub holders : List ℕ

pub record SwitchingSet : Type 0 where
  pub id : ℕ
  pub algorithm_id : ℕ
  pub members : List SwitchingSetMember
  pub weight : ℕ
  pub activate : ℕ
  pub rank : ℕ

unfoldable pub is_active : SwitchingSet → Bool
is_active set = ltb 0 set.activate && leb set.activate (length set.members)

abbrev pub member_snapshot : SwitchingSetMember → ℕ × ℕ
member_snapshot m = (m.throughput_threshold_kbps, m.relay_track_id)

-- `From<&SwitchingSet> for SetSnapshot`
unfoldable pub snapshot : SwitchingSet → SetSnapshot
snapshot set = record {
  id = set.id;
  algorithm_id = set.algorithm_id;
  rank = set.rank;
  weight = set.weight;
  active = is_active set;
  members = map member_snapshot set.members;
}

pub record SwitchingSetManager : Type 0 where
  pub sets : ℕ → Option SwitchingSet
  pub track_to_set : FullTrackName → Option ℕ
  pub relay_track_to_set : ℕ → Option ℕ
  pub open_streams : ℕ → Option ℕ
  pub epoch : ℕ

unfoldable pub new : SwitchingSetManager
new = record {
  sets = λ s. none;
  track_to_set = λ n. none;
  relay_track_to_set = λ r. none;
  open_streams = λ s. none;
  epoch = 0;
}

-- A map after `insert` or `remove`.
abbrev pub at_id {ℓ} : {V : Type ℓ} → (ℕ → Option V) → ℕ → Option V → ℕ → Option V
at_id m k v j = if k == j then v else m j

abbrev pub at_name :
    (FullTrackName → Option ℕ) → FullTrackName → Option ℕ → FullTrackName → Option ℕ
at_name m k v j = if name_eq k j then v else m j

-- `fetch_add` on a u64 wraps.
abbrev pub bump_epoch : SwitchingSetManager → SwitchingSetManager
bump_epoch m = record m { epoch = (m.epoch + 1) % 2 ^ 64 }

abbrev pub or_zero : Option ℕ → ℕ
or_zero none = 0
or_zero (some n) = n

abbrev pub or_id : Option ℕ → ℕ → ℕ
or_id none d = d
or_id (some n) d = n

unfoldable pub note_stream_opened : SwitchingSetManager → ℕ → SwitchingSetManager
note_stream_opened m relay_track_id = elim (m.relay_track_to_set relay_track_id) [
  | none ↦ m
  | some s ↦ record m {
    open_streams = at_id m.open_streams s (some (or_zero (m.open_streams s) + 1));
  }
]

unfoldable pub note_stream_closed : SwitchingSetManager → ℕ → SwitchingSetManager
note_stream_closed m relay_track_id = elim (m.relay_track_to_set relay_track_id) [
  | none ↦ m
  | some s ↦ elim (m.open_streams s) [
    | none ↦ m
    | some count ↦ record m {
      open_streams = at_id m.open_streams s (if count - 1 == 0 then none else some (count - 1));
    }
  ]
]
