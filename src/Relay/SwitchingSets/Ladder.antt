-- ===== src/Relay/SwitchingSets/Ladder.antt =====
-- The members of one set in switching_set.rs: the order of the ladder, and that no change leaves a
-- member without a holder or a set without a member.
use moqtail.Prelude.{
  ℕ, ◌≡◌, refl, ap, List, [], ◌∷◌, ◌++◌, map, Bool, false, some, inl, inr, Bool-cases, leb, ◌≤◌,
  arith,
}
use moqtail.Data.TrackName.{FullTrackName, name_eq}
use moqtail.Relay.SwitchingSets.{
  SwitchingSetMember, is_empty, find, replace, retain_others, insert_member, sort_members,
}
use moqtail.Relay.SwitchingSets.Members.{any}

abbrev pub threshold_of : SwitchingSetMember → ℕ
threshold_of m = m.throughput_threshold_kbps

abbrev pub AllAbove : ℕ → List ℕ → Type 0
AllAbove t [] = Unit {0}
AllAbove t (u ∷ us) = (t ≤ u) × AllAbove t us

abbrev pub IsAscending : List ℕ → Type 0
IsAscending [] = Unit {0}
IsAscending (t ∷ ts) = AllAbove t ts × IsAscending ts

AllAbove-trans : {s t : ℕ} (us : List ℕ) → s ≤ t → AllAbove t us → AllAbove s us
AllAbove-trans [] h a = tt
AllAbove-trans (u ∷ us) h a = (omega arith, AllAbove-trans us h a.1)

AllAbove-insert_member :
    (t : ℕ) (m : SwitchingSetMember) (ms : List SwitchingSetMember)
    → t ≤ threshold_of m
    → AllAbove t (map threshold_of ms)
    → AllAbove t (map threshold_of (insert_member m ms))
unfolding insert_member
AllAbove-insert_member t m [] h a = (h, tt)
AllAbove-insert_member t m (k ∷ ks) h a =
    elim (Bool-cases (leb (threshold_of m) (threshold_of k))) [
      | inl e ↦ rw e (h, a)
      | inr e ↦ rw e (a.0, AllAbove-insert_member t m ks h a.1)
    ]

IsAscending-insert_member :
    (m : SwitchingSetMember) (ms : List SwitchingSetMember)
    → IsAscending (map threshold_of ms)
    → IsAscending (map threshold_of (insert_member m ms))
unfolding insert_member
IsAscending-insert_member m [] a = (tt, tt)
IsAscending-insert_member m (k ∷ ks) a = elim (Bool-cases (leb (threshold_of m) (threshold_of k))) [
  | inl e ↦ rw e ((ground arith, AllAbove-trans (map threshold_of ks) (ground arith) a.0), a)
  | inr e ↦ rw e (
    AllAbove-insert_member (threshold_of k) m ks (ground arith) a.0,
    IsAscending-insert_member m ks a.1,
  )
]

pub IsAscending-sort_members :
    (ms : List SwitchingSetMember) → IsAscending (map threshold_of (sort_members ms))
unfolding sort_members
IsAscending-sort_members [] = tt
IsAscending-sort_members (m ∷ ms) =
    IsAscending-insert_member m (sort_members ms) (IsAscending-sort_members ms)

-- A replacement at the same threshold leaves the order.
pub map-replace :
    (n : FullTrackName) (m : SwitchingSetMember) (ms : List SwitchingSetMember)
    {old : SwitchingSetMember}
    → find n ms ≡ some old
    → threshold_of m ≡ threshold_of old
    → map threshold_of (replace n m ms) ≡ map threshold_of ms
unfolding find replace
map-replace n m [] h e = cc
map-replace n m (k ∷ ks) {old} h e = elim (Bool-cases (name_eq k.full_track_name n)) [
  | inl f ↦ rw f (ground arith)
  | inr f ↦ rw f (ap (λ ts. threshold_of k ∷ ts) (map-replace n m ks {old = old} (ground arith) e))
]

AllAbove-retain_others :
    (t : ℕ) (n : FullTrackName) (ms : List SwitchingSetMember)
    → AllAbove t (map threshold_of ms)
    → AllAbove t (map threshold_of (retain_others n ms))
unfolding retain_others
AllAbove-retain_others t n [] a = tt
AllAbove-retain_others t n (k ∷ ks) a = elim (Bool-cases (name_eq k.full_track_name n)) [
  | inl e ↦ rw e (AllAbove-retain_others t n ks a.1)
  | inr e ↦ rw e (a.0, AllAbove-retain_others t n ks a.1)
]

pub IsAscending-retain_others :
    (n : FullTrackName) (ms : List SwitchingSetMember)
    → IsAscending (map threshold_of ms)
    → IsAscending (map threshold_of (retain_others n ms))
unfolding retain_others
IsAscending-retain_others n [] a = tt
IsAscending-retain_others n (k ∷ ks) a = elim (Bool-cases (name_eq k.full_track_name n)) [
  | inl e ↦ rw e (IsAscending-retain_others n ks a.1)
  | inr e ↦
      rw e (AllAbove-retain_others (threshold_of k) n ks a.0, IsAscending-retain_others n ks a.1)
]

is_empty-insert_member :
    (m : SwitchingSetMember) (ms : List SwitchingSetMember) → is_empty (insert_member m ms) ≡ false
unfolding insert_member
is_empty-insert_member m [] = refl
is_empty-insert_member m (k ∷ ks) = ground arith

pub is_empty-sort_members :
    (ms : List SwitchingSetMember) → is_empty (sort_members ms) ≡ is_empty ms
unfolding sort_members
is_empty-sort_members [] = refl
is_empty-sort_members (m ∷ ms) = is_empty-insert_member m (sort_members ms)

pub is_empty-replace :
    (n : FullTrackName) (m : SwitchingSetMember) (ms : List SwitchingSetMember)
    → is_empty (replace n m ms) ≡ is_empty ms
unfolding replace
is_empty-replace n m [] = refl
is_empty-replace n m (k ∷ ks) = ground arith

pub is_empty-push :
    (ms : List SwitchingSetMember) (m : SwitchingSetMember) → is_empty (ms ++ m ∷ []) ≡ false
is_empty-push [] m = refl
is_empty-push (k ∷ ks) m = refl

module _ (p : SwitchingSetMember → Bool) where
  pub any-replace-false :
      (n : FullTrackName) (m : SwitchingSetMember) (ms : List SwitchingSetMember)
      → any p ms ≡ false
      → p m ≡ false
      → any p (replace n m ms) ≡ false
  unfolding any replace
  any-replace-false n m [] h e = refl
  any-replace-false n m (k ∷ ks) h e = ground (arith, any-replace-false n m ks)

  pub any-push-false :
      (ms : List SwitchingSetMember) (m : SwitchingSetMember)
      → any p ms ≡ false
      → p m ≡ false
      → any p (ms ++ m ∷ []) ≡ false
  unfolding any
  any-push-false [] m h e = ground arith
  any-push-false (k ∷ ks) m h e = ground (arith, any-push-false ks m)

  pub any-retain_others-false :
      (n : FullTrackName) (ms : List SwitchingSetMember)
      → any p ms ≡ false
      → any p (retain_others n ms) ≡ false
  unfolding any retain_others
  any-retain_others-false n [] h = refl
  any-retain_others-false n (k ∷ ks) h = ground (arith, any-retain_others-false n ks)

  pub test-false :
      (n : FullTrackName) (ms : List SwitchingSetMember) {m : SwitchingSetMember}
      → any p ms ≡ false
      → find n ms ≡ some m
      → p m ≡ false
  unfolding any find
  test-false n [] h e = cc
  test-false n (k ∷ ks) {m} h e = ground (arith, test-false n ks {m = m})
