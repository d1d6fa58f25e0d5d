-- ===== src/Relay/SwitchingSets/Members.antt =====
-- The members of one set in switching_set.rs: searches after each change of the vector.
use moqtail.Prelude.{
  is_some, ◌≡◌, refl, ap, sym, ◌∙◌, List, [], ◌∷◌, ◌++◌, Bool, true, false, ◌||◌, Option, none,
  some, inl, inr, Bool-cases, leb, if◌then◌else◌, arith,
}
use moqtail.Data.TrackName.{FullTrackName, name_eq}
use moqtail.Data.TrackName.Equality.{name_eq_iff, name_eq_refl, name_eq_sym}
use moqtail.Relay.SwitchingSets.{
  SwitchingSetMember, is_named, find, replace, retain_others, insert_member, sort_members,
}

abbrev pub test : (SwitchingSetMember → Bool) → Option SwitchingSetMember → Bool
test p none = false
test p (some m) = p m

unfoldable pub any : (SwitchingSetMember → Bool) → List SwitchingSetMember → Bool
any p [] = false
any p (m ∷ ms) = p m || any p ms

-- No two members have one name.
abbrev pub Distinct : List SwitchingSetMember → Type 0
Distinct [] = Unit {0}
Distinct (m ∷ ms) = (find m.full_track_name ms ≡ none) × Distinct ms

pub any-insert_member :
    (p : SwitchingSetMember → Bool) (m : SwitchingSetMember) (ms : List SwitchingSetMember)
    → any p (insert_member m ms) ≡ (p m || any p ms)
unfolding any insert_member
any-insert_member p m [] = refl
any-insert_member p m (k ∷ ks) = ground (arith, any-insert_member p m ks)

pub any-sort_members :
    (p : SwitchingSetMember → Bool) (ms : List SwitchingSetMember)
    → any p (sort_members ms) ≡ any p ms
unfolding any sort_members
any-sort_members p [] = refl
any-sort_members p (m ∷ ms) =
    any-insert_member p m (sort_members ms) ∙ ap (λ b. p m || b) (any-sort_members p ms)

pub any-push :
    (p : SwitchingSetMember → Bool) (m : SwitchingSetMember) (ms : List SwitchingSetMember)
    → any p (ms ++ m ∷ []) ≡ (any p ms || p m)
unfolding any
any-push p m [] = ground arith
any-push p m (k ∷ ks) = ground (arith, any-push p m ks)

pub any-replace :
    (p : SwitchingSetMember → Bool) (n : FullTrackName) (m : SwitchingSetMember)
    (ms : List SwitchingSetMember)
    → any p ms ≡ true
    → (any p (replace n m ms) || test p (find n ms)) ≡ true
unfolding any replace find
any-replace p n m [] h = cc
any-replace p n m (k ∷ ks) h = ground (arith, any-replace p n m ks)

pub any-replace_found :
    (p : SwitchingSetMember → Bool) (n : FullTrackName) (m : SwitchingSetMember)
    (ms : List SwitchingSetMember)
    → is_some (find n ms) ≡ true
    → p m ≡ true
    → any p (replace n m ms) ≡ true
unfolding any replace find
any-replace_found p n m [] h e = cc
any-replace_found p n m (k ∷ ks) h e = ground (arith, any-replace_found p n m ks)

pub find-is_named :
    (n : FullTrackName) (ms : List SwitchingSetMember) {m : SwitchingSetMember}
    → find n ms ≡ some m
    → name_eq m.full_track_name n ≡ true
unfolding find
find-is_named n [] h = cc
find-is_named n (k ∷ ks) {m} h = ground (arith, find-is_named n ks {m = m})

pub find-insert_member :
    (n : FullTrackName) (m : SwitchingSetMember) (ms : List SwitchingSetMember)
    → find m.full_track_name ms ≡ none
    → find n (insert_member m ms) ≡ (if is_named n m then some m else find n ms)
unfolding find insert_member
find-insert_member n m [] h = refl
find-insert_member n m (k ∷ ks) h = ground (
  arith,
  find-insert_member n m ks,
  name_eq_iff m.full_track_name n,
  name_eq_iff k.full_track_name n,
  name_eq_iff k.full_track_name m.full_track_name,
  name_eq_refl n,
)

Distinct-insert_member :
    (m : SwitchingSetMember) (ms : List SwitchingSetMember)
    → find m.full_track_name ms ≡ none
    → Distinct ms
    → Distinct (insert_member m ms)
unfolding insert_member find
Distinct-insert_member m [] h d = (refl, tt)
Distinct-insert_member m (k ∷ ks) h (hk, d) =
    elim (Bool-cases (leb m.throughput_threshold_kbps k.throughput_threshold_kbps)) [
      | inl e ↦ rw e (h, (hk, d))
      | inr e ↦ rw e (
        find-insert_member k.full_track_name m ks (ground arith)
            ∙ ground (arith, name_eq_sym m.full_track_name k.full_track_name),
        Distinct-insert_member m ks (ground arith) d,
      )
    ]

-- Sorting by the threshold moves no search.
pub find-sort_members :
    (n : FullTrackName) (ms : List SwitchingSetMember)
    → Distinct ms
    → find n (sort_members ms) ≡ find n ms
unfolding sort_members find
find-sort_members n [] d = refl
find-sort_members n (m ∷ ms) (hm, d) =
    find-insert_member n m (sort_members ms) (find-sort_members m.full_track_name ms d ∙ hm)
    ∙ rw (find-sort_members n ms d) refl

pub Distinct-sort_members :
    (ms : List SwitchingSetMember) → Distinct ms → Distinct (sort_members ms)
unfolding sort_members
Distinct-sort_members [] d = tt
Distinct-sort_members (m ∷ ms) (hm, d) =
    Distinct-insert_member m (sort_members ms) (find-sort_members m.full_track_name ms d ∙ hm)
      (Distinct-sort_members ms d)

pub find-push :
    (n : FullTrackName) (m : SwitchingSetMember) (ms : List SwitchingSetMember)
    → find m.full_track_name ms ≡ none
    → find n (ms ++ m ∷ []) ≡ (if is_named n m then some m else find n ms)
unfolding find
find-push n m [] h = refl
find-push n m (k ∷ ks) h = ground (
  arith,
  find-push n m ks,
  name_eq_iff m.full_track_name n,
  name_eq_iff k.full_track_name n,
  name_eq_iff k.full_track_name m.full_track_name,
  name_eq_refl n,
)

pub Distinct-push :
    (m : SwitchingSetMember) (ms : List SwitchingSetMember)
    → find m.full_track_name ms ≡ none
    → Distinct ms
    → Distinct (ms ++ m ∷ [])
unfolding find
Distinct-push m [] h d = (refl, tt)
Distinct-push m (k ∷ ks) h (hk, d) = (
  find-push k.full_track_name m ks (ground arith)
      ∙ ground (arith, name_eq_sym m.full_track_name k.full_track_name),
  Distinct-push m ks (ground arith) d,
)

pub find-replace :
    (k n : FullTrackName) (m : SwitchingSetMember) (ms : List SwitchingSetMember)
    → m.full_track_name ≡ n
    → is_some (find n ms) ≡ true
    → find k (replace n m ms) ≡ (if name_eq n k then some m else find k ms)
unfolding find replace
find-replace k n m [] e h = cc
find-replace k n m (j ∷ js) e h = ground (
  arith,
  find-replace k n m js e,
  ap (λ x. name_eq x k) e,
  name_eq_iff n k,
  name_eq_iff j.full_track_name k,
  name_eq_iff j.full_track_name n,
  name_eq_refl k,
)

pub Distinct-replace :
    (n : FullTrackName) (m : SwitchingSetMember) (ms : List SwitchingSetMember)
    → m.full_track_name ≡ n
    → is_some (find n ms) ≡ true
    → Distinct ms
    → Distinct (replace n m ms)
unfolding find replace
Distinct-replace n m [] e h d = tt
Distinct-replace n m (j ∷ js) e h (hj, d) = elim (Bool-cases (name_eq j.full_track_name n)) [
  | inl f ↦ rw f (rw (e ∙ sym ((name_eq_iff j.full_track_name n).0 f)) hj, d)
  | inr f ↦ rw f (
    find-replace j.full_track_name n m js e (ground arith)
        ∙ ground (arith, name_eq_sym j.full_track_name n),
    Distinct-replace n m js e (ground arith) d,
  )
]

pub find-retain_others :
    (k n : FullTrackName) (ms : List SwitchingSetMember)
    → find k (retain_others n ms) ≡ (if name_eq n k then none else find k ms)
unfolding find retain_others
find-retain_others k n [] = ground arith
find-retain_others k n (j ∷ js) = ground (
  arith,
  find-retain_others k n js,
  name_eq_iff n k,
  name_eq_iff j.full_track_name k,
  name_eq_iff j.full_track_name n,
  name_eq_refl k,
)

pub Distinct-retain_others :
    (n : FullTrackName) (ms : List SwitchingSetMember) → Distinct ms → Distinct (retain_others n ms)
unfolding retain_others
Distinct-retain_others n [] d = tt
Distinct-retain_others n (j ∷ js) (hj, d) = elim (Bool-cases (name_eq j.full_track_name n)) [
  | inl f ↦ rw f (Distinct-retain_others n js d)
  | inr f ↦
      rw f (find-retain_others j.full_track_name n js ∙ ground arith, Distinct-retain_others n js d)
]

retain_others-none :
    (n : FullTrackName) (ms : List SwitchingSetMember) → find n ms ≡ none → retain_others n ms ≡ ms
unfolding find retain_others
retain_others-none n [] h = refl
retain_others-none n (j ∷ js) h = ground (arith, retain_others-none n js)

pub any-retain_others :
    (p : SwitchingSetMember → Bool) (n : FullTrackName) (ms : List SwitchingSetMember)
    → Distinct ms
    → any p ms ≡ true
    → (any p (retain_others n ms) || test p (find n ms)) ≡ true
unfolding any retain_others find
any-retain_others p n [] d h = cc
any-retain_others p n (j ∷ js) (hj, d) h =
    ground
      (arith, any-retain_others p n js d, retain_others-none n js, name_eq_iff j.full_track_name n)
