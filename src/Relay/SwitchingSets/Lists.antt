-- ===== src/Relay/SwitchingSets/Lists.antt =====
-- The members of a set and the holders of a member, of switching_set.rs.
use moqtail.Prelude.{
  ℕ, List, [], ◌∷◌, Bool, true, false, ◌||◌, Option, none, some, ltb, leb, ◌==◌, if◌then◌else◌,
}
use moqtail.Data.TrackName.{FullTrackName, name_eq}
use moqtail.Relay.SwitchingSets.State.{SwitchingSetMember}

abbrev pub is_named : FullTrackName → SwitchingSetMember → Bool
is_named n m = name_eq m.full_track_name n

-- `members.iter().find(|m| m.full_track_name == full_track_name)`
unfoldable pub find : FullTrackName → List SwitchingSetMember → Option SwitchingSetMember
find n [] = none
find n (m ∷ ms) = if is_named n m then some m else find n ms

-- What an assignment through the `&mut` of that search leaves.
unfoldable pub replace :
    FullTrackName → SwitchingSetMember → List SwitchingSetMember → List SwitchingSetMember
replace n new_member [] = []
replace n new_member (m ∷ ms) =
    if is_named n m then new_member ∷ ms else m ∷ replace n new_member ms

unfoldable pub retain_others : FullTrackName → List SwitchingSetMember → List SwitchingSetMember
retain_others n [] = []
retain_others n (m ∷ ms) = let rest = retain_others n ms in if is_named n m then rest else m ∷ rest

-- `sort_by_key(|m| m.throughput_threshold_kbps)` is stable.
unfoldable pub insert_member :
    SwitchingSetMember → List SwitchingSetMember → List SwitchingSetMember
insert_member m [] = m ∷ []
insert_member m (k ∷ ks) =
    if leb m.throughput_threshold_kbps k.throughput_threshold_kbps
    then m ∷ k ∷ ks
    else k ∷ insert_member m ks

unfoldable pub sort_members : List SwitchingSetMember → List SwitchingSetMember
sort_members [] = []
sort_members (m ∷ ms) = insert_member m (sort_members ms)

-- Sets of request ids.
unfoldable pub holds : ℕ → List ℕ → Bool
holds r [] = false
holds r (q ∷ qs) = (q == r) || holds r qs

unfoldable pub insert_holder : ℕ → List ℕ → List ℕ
insert_holder r [] = r ∷ []
insert_holder r (q ∷ qs) =
    if ltb r q then r ∷ q ∷ qs else if r == q then q ∷ qs else q ∷ insert_holder r qs

-- `append`: the second set goes into the first.
unfoldable pub append_holders : List ℕ → List ℕ → List ℕ
append_holders hs [] = hs
append_holders hs (q ∷ qs) = append_holders (insert_holder q hs) qs

unfoldable pub remove_holder : ℕ → List ℕ → List ℕ
remove_holder r [] = []
remove_holder r (q ∷ qs) = if q == r then qs else q ∷ remove_holder r qs

abbrev pub is_empty {ℓ} : {A : Type ℓ} → List A → Bool
is_empty [] = true
is_empty (a ∷ rest) = false
