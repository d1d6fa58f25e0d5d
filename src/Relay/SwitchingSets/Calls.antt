-- ===== src/Relay/SwitchingSets/Calls.antt =====
-- The methods of `SwitchingSetManager` of switching_set.rs on tracks and their members.
use moqtail.Prelude.{
  ℕ, List, [], ◌∷◌, Bool, false, not, ◌&&◌, Option, none, some, ◌++◌, ◌==◌, if◌then◌else◌,
}
use moqtail.Data.TrackName.{FullTrackName}
use moqtail.Relay.SwitchingSets.State.{
  SwitchingSetError, track_in_different_set, track_not_in_set, SwitchingSetMember, SwitchingSet,
  SwitchingSetManager, at_id, at_name, bump_epoch, or_id,
}
use moqtail.Relay.SwitchingSets.Lists.{
  find, replace, retain_others, sort_members, holds, append_holders, remove_holder, is_empty,
}

-- The arguments of `assign` after the track.
pub record Assignment : Type 0 where
  pub request_id : ℕ
  pub switching_set_id : ℕ
  pub algorithm_id : ℕ
  pub throughput_threshold_kbps : ℕ
  pub weight : ℕ
  pub activate : ℕ
  pub rank : ℕ

pub data Reply {ℓ} (A : Type ℓ) : Type ℓ where
  done : A → Reply A
  failed : SwitchingSetError → Reply A

unfoldable pub in_other_set : SwitchingSetManager → FullTrackName → ℕ → Bool
in_other_set m n s = elim (m.track_to_set n) [ none ↦ false | some existing ↦ not (existing == s) ]

abbrev pub members_of_set : Option SwitchingSet → List SwitchingSetMember
members_of_set none = []
members_of_set (some set) = set.members

-- `sets.entry(id).or_insert_with(…)` with the properties of the message.
unfoldable pub set_of : Option SwitchingSet → Assignment → List SwitchingSetMember → SwitchingSet
set_of found a members = record {
  id = elim found [ none ↦ a.switching_set_id | some set ↦ set.id ];
  algorithm_id = a.algorithm_id;
  members = members;
  weight = a.weight;
  activate = a.activate;
  rank = a.rank;
}

unfoldable pub new_member :
    FullTrackName → ℕ → Assignment → Option SwitchingSetMember → SwitchingSetMember
new_member n relay_track_id a existing = record {
  full_track_name = n;
  relay_track_id = relay_track_id;
  throughput_threshold_kbps = a.throughput_threshold_kbps;
  request_id = a.request_id;
  holders = elim existing [
    | none ↦ a.request_id ∷ []
    | some k ↦ append_holders (a.request_id ∷ []) k.holders
  ];
}

-- Replace or insert the member.
unfoldable pub put_member :
    FullTrackName → ℕ → Assignment → List SwitchingSetMember → List SwitchingSetMember
put_member n relay_track_id a members = elim (find n members) [
  | none ↦ members ++ new_member n relay_track_id a none ∷ []
  | some existing ↦ replace n (new_member n relay_track_id a (some existing)) members
]

-- The previous relay track id of the member no longer points at the set.
unfoldable pub forget_previous : (ℕ → Option ℕ) → Option SwitchingSetMember → ℕ → (ℕ → Option ℕ)
forget_previous relays none relay_track_id = relays
forget_previous relays (some previous) relay_track_id =
    if previous.relay_track_id == relay_track_id
    then relays
    else at_id relays previous.relay_track_id none

unfoldable pub assigned : SwitchingSetManager → FullTrackName → ℕ → Assignment → SwitchingSetManager
assigned m n relay_track_id a =
    let s = a.switching_set_id in
    let members = members_of_set (m.sets s) in
    bump_epoch (record m {
      sets =
          at_id m.sets s
            (some (set_of (m.sets s) a (sort_members (put_member n relay_track_id a members))));
      track_to_set = at_name m.track_to_set n (some s);
      relay_track_to_set =
          at_id (forget_previous m.relay_track_to_set (find n members) relay_track_id)
            relay_track_id (some s);
    })

unfoldable pub assign :
    SwitchingSetManager → FullTrackName → ℕ → Assignment → SwitchingSetManager × Reply (Unit {0})
assign m n relay_track_id a =
    if in_other_set m n a.switching_set_id
    then (m, failed track_in_different_set)
    else (assigned m n relay_track_id a, done tt)

unfoldable pub forget_relay : (ℕ → Option ℕ) → Option SwitchingSetMember → (ℕ → Option ℕ)
forget_relay relays none = relays
forget_relay relays (some member) = at_id relays member.relay_track_id none

-- A set goes with its last track, and its stream count with it.
unfoldable pub drop_member :
    SwitchingSetManager → ℕ → SwitchingSet → FullTrackName → SwitchingSetManager
drop_member m s set n =
    let rest = retain_others n set.members in
    let relays = forget_relay m.relay_track_to_set (find n set.members) in
    if is_empty rest
    then record m {
      sets = at_id m.sets s none;
      relay_track_to_set = relays;
      open_streams = at_id m.open_streams s none;
    }
    else record m {
      sets = at_id m.sets s (some (record set { members = rest }));
      relay_track_to_set = relays;
    }

unfoldable pub remove : SwitchingSetManager → FullTrackName → SwitchingSetManager
remove m n = elim (m.track_to_set n) [
  | none ↦ m
  | some s ↦
      let m' = bump_epoch (record m { track_to_set = at_name m.track_to_set n none }) in
      elim (m.sets s) [ none ↦ m' | some set ↦ drop_member m' s set n ]
]

abbrev pub without_holder : SwitchingSetMember → ℕ → SwitchingSetMember
without_holder member request_id = record member {
  holders = remove_holder request_id member.holders;
}

unfoldable pub release_member :
    SwitchingSetManager
    → ℕ
    → SwitchingSet
    → SwitchingSetMember
    → FullTrackName
    → ℕ
    → SwitchingSetManager
release_member m s set member n request_id =
    let members = replace n (without_holder member request_id) set.members in
    let m' = record m { sets = at_id m.sets s (some (record set { members = members })) } in
    if holds request_id member.holders && is_empty (remove_holder request_id member.holders)
    then remove m' n
    else m'

unfoldable pub release : SwitchingSetManager → FullTrackName → ℕ → SwitchingSetManager
release m n request_id = elim (m.track_to_set n) [
  | none ↦ m
  | some s ↦ elim (m.sets s) [
    | none ↦ m
    | some set ↦ elim (find n set.members) [
      | none ↦ m
      | some member ↦ release_member m s set member n request_id
    ]
  ]
]

-- The options of a `SWITCHING_SET_ASSIGNMENT` that updates a subscription.
pub record AssignmentUpdate : Type 0 where
  pub algorithm_id : Option ℕ
  pub throughput_threshold_kbps : Option ℕ
  pub weight : Option ℕ
  pub activate : Option ℕ
  pub rank : Option ℕ

pub record Warning : Type 0 where
  pub set_id : ℕ
  pub runs : ℕ
  pub asked : ℕ
  pub established_by : Option ℕ

abbrev pub request_of : Option SwitchingSetMember → Option ℕ
request_of none = none
request_of (some member) = some member.request_id

unfoldable pub warnings_of : SwitchingSet → FullTrackName → Option ℕ → List Warning
warnings_of set n none = []
warnings_of set n (some asked) =
    if asked == set.algorithm_id
    then []
    else record {
      set_id = set.id;
      runs = set.algorithm_id;
      asked = asked;
      established_by = request_of (find n set.members);
    }
      ∷ []

unfoldable pub move_member :
    FullTrackName → Option ℕ → List SwitchingSetMember → List SwitchingSetMember
move_member n none members = members
move_member n (some threshold) members = elim (find n members) [
  | none ↦ members
  | some member ↦
      if member.throughput_threshold_kbps == threshold
      then members
      else sort_members
          (replace n (record member { throughput_threshold_kbps = threshold }) members)
]

unfoldable pub updated_set : SwitchingSet → FullTrackName → AssignmentUpdate → SwitchingSet
updated_set set n u = record set {
  weight = or_id u.weight set.weight;
  activate = or_id u.activate set.activate;
  rank = or_id u.rank set.rank;
  members = move_member n u.throughput_threshold_kbps set.members;
}

unfoldable pub update_assignment :
    SwitchingSetManager
    → FullTrackName
    → AssignmentUpdate
    → SwitchingSetManager × Reply (List Warning)
update_assignment m n u = elim (m.track_to_set n) [
  | none ↦ (m, failed track_not_in_set)
  | some s ↦ elim (m.sets s) [
    | none ↦ (m, failed track_not_in_set)
    | some set ↦ (
      bump_epoch (record m { sets = at_id m.sets s (some (updated_set set n u)) }),
      done (warnings_of set n u.algorithm_id),
    )
  ]
]

unfoldable pub get_set_for_track : SwitchingSetManager → FullTrackName → Option SwitchingSet
get_set_for_track m n = elim (m.track_to_set n) [ none ↦ none | some s ↦ m.sets s ]
