-- ===== src/Relay/SeenObjects/History/Exact.antt =====
-- The ring of seen_objects.rs against the history of the Objects.
use moqtail.Prelude.{
  ℕ, zero, suc, ◌+◌, ◌%◌, ◌/◌, ◌<◌, ◌≤◌, ◌≡◌, ◌≢◌, refl, ap, ◌∙◌, subst, Bool, true, false, [], ◌∷◌,
  Option, none, length, length-replicate, length-set, replicate, get_or, set, leb, leb→le, ◌==◌,
  if◌then◌else◌, Bool-cases, inl, inr, arith,
}
use native.Mathlib.Nat.{div-add-mod, mul-le-mul_left, mul-suc}
use native.Mathlib.Decide.{ℕ_discrete}
use moqtail.Wire.Location.{Location}
use moqtail.Relay.SeenObjects.{GroupState, Slots, touch_slot, new, is_duplicate}
use moqtail.Relay.SeenObjects.History.{History, seen_in, newer_in, behind_in, run, expected}
use moqtail.Relay.SeenObjects.History.Slot.{SlotHolds, Goes, touch_slot-Goes, other_slot}

get_or-set_slot :
    (slots : Slots) (i j : ℕ) (v : Option GroupState)
    → i < length slots
    → get_or (set slots i v) j none ≡ (if i == j then v else get_or slots j none)
get_or-set_slot [] i j v h = absurd (omega arith)
get_or-set_slot (w ∷ ws) zero zero v h = refl
get_or-set_slot (w ∷ ws) zero (suc j) v h = ground arith
get_or-set_slot (w ∷ ws) (suc i) zero v h = ground arith
get_or-set_slot (w ∷ ws) (suc i) (suc j) v h = get_or-set_slot ws i j v (omega arith) ∙ ground arith

get_or-new : (n k : ℕ) → get_or {A = Option GroupState} (replicate n none) k none ≡ none
get_or-new zero k = refl
get_or-new (suc n) zero = refl
get_or-new (suc n) (suc k) = get_or-new n k

==-same : (i j : ℕ) → i ≡ j → (i == j) ≡ true
==-same i j e = ground arith

==-apart : (i j : ℕ) → i ≢ j → (i == j) ≡ false
==-apart i j ne = ground arith

record Ring (n : ℕ) (h : History) (slots : Slots) : Type 0 where
  count : length slots ≡ n
  each : (k : ℕ) → k < n → SlotHolds n k h (get_or slots k none)

step_slots : Slots → ℕ → Option GroupState × Bool → Slots × Bool
step_slots slots k r = (set slots k r.0, r.1)

is_duplicate-step :
    (slots : Slots) (l : Location)
    → 0 < length slots
    → is_duplicate slots l
      ≡ step_slots slots
          (l.group % length slots)
          (touch_slot (get_or slots (l.group % length slots) none) l)
unfolding is_duplicate step_slots
is_duplicate-step [] l h = absurd (omega arith)
is_duplicate-step (s ∷ slots) l h = refl

new-Ring : (n : ℕ) → Ring n [] (new n)
unfolding new SlotHolds seen_in newer_in behind_in
new-Ring n = record {
  count = length-replicate {A = Option GroupState} n none;
  each = λ k lt.
      rw (get_or-new n k)
        (record { unseen = λ g o gk. refl; no_newer = λ g gk. refl; no_behind = λ g o gk. refl });
}

set-Ring :
    (n : ℕ) (h : History) (slots : Slots) (l : Location) (v : Option GroupState)
    → 1 ≤ n
    → Ring n h slots
    → SlotHolds n (l.group % n) (l ∷ h) v
    → Ring n (l ∷ h) (set slots (l.group % n) v)
set-Ring n h slots l v pos ring holds = record {
  count = length-set slots _ v ∙ ring.count;
  each = λ k lt.
      rw (get_or-set_slot slots (l.group % n) k v (omega (arith, ring.count)))
        (elim (ℕ_discrete (l.group % n) k) [
          | yes e ↦
              rw (==-same (l.group % n) k e) (subst (λ (t : ℕ). SlotHolds n t (l ∷ h) v) e holds)
          | no ne ↦
              rw (==-apart (l.group % n) k ne)
                (other_slot n k h l (get_or slots k none) ne (ring.each k lt))
        ]);
}

is_duplicate-Ring :
    (n : ℕ) (h : History) (slots : Slots) (l : Location)
    → 1 ≤ n
    → Ring n h slots
    → Ring n (l ∷ h) (is_duplicate slots l).0 × ((is_duplicate slots l).1 ≡ expected n h l)
unfolding step_slots Goes
is_duplicate-Ring n h slots l pos ring =
    let goes =
      touch_slot-Goes n (l.group % n) h l (get_or slots (l.group % n) none) refl
        (ring.each (l.group % n) (omega arith)) in
    rw (is_duplicate-step slots l (omega (arith, ring.count)), ring.count)
      (set-Ring n h slots l _ pos ring goes.0, goes.1)

run-Ring : (n : ℕ) (h : History) → 1 ≤ n → Ring n h (run n h)
unfolding run
run-Ring n [] pos = new-Ring n
run-Ring n (l ∷ h) pos = (is_duplicate-Ring n h (run n h) l pos (run-Ring n h pos)).0

-- After any sequence of Objects, with a retention of at least one group, `is_duplicate` answers
-- exactly whether the same Object came before, no Object of a newer group that maps to the same
-- slot came before, and no Object of the group with an id 4096 or more above came before.
pub is_duplicate-run :
    (n : ℕ) (h : History) (l : Location) → 1 ≤ n → (is_duplicate (run n h) l).1 ≡ expected n h l
is_duplicate-run n h l pos = (is_duplicate-Ring n h (run n h) l pos (run-Ring n h pos)).1

run-empty : (h : History) → run 0 h ≡ []
unfolding run new is_duplicate
run-empty [] = refl
run-empty (l ∷ h) = ap (λ (slots : Slots). (is_duplicate slots l).0) (run-empty h)

-- With any retention, none included, an Object that `is_duplicate` reports after any sequence of
-- Objects did come before: a new Object is never dropped.
pub no_false_duplicate :
    (n : ℕ) (h : History) (l : Location)
    → (is_duplicate (run n h) l).1 ≡ true
    → seen_in h l.group l.object ≡ true
unfolding expected is_duplicate
no_false_duplicate zero h l p =
    absurd (ground (arith, p, ap (λ (slots : Slots). (is_duplicate slots l).1) (run-empty h)))
no_false_duplicate (suc n) h l p = ground (arith, p, is_duplicate-run (suc n) h l (omega arith))

-- Every Object of the history is of a group below `g + n`, and its id is below `o + 4096` if its
-- group is `g`.
unfoldable pub Within : ℕ → History → ℕ → ℕ → Type 0
Within n [] g o = Unit
Within n (l ∷ h) g o = (l.group < g + n) × ((l.group ≡ g → l.object < o + 4096) × Within n h g o)

same_residue : (n a b : ℕ) → 1 ≤ n → a < b → b < a + n → b % n ≢ a % n
same_residue n a b pos lt near e = elim (Bool-cases (leb (b / n) (a / n))) [
  | inl le ↦ omega (arith, e, div-add-mod a n, div-add-mod b n, mul-le-mul_left n (leb→le _ _ le))
  | inr gt ↦ omega (
    arith,
    e,
    div-add-mod a n,
    div-add-mod b n,
    mul-le-mul_left {m = suc (a / n)} {n = b / n} n (ground (arith, gt)),
    mul-suc n (a / n),
  )
]

newer_in-Within : (n : ℕ) (h : History) (g o : ℕ) → 1 ≤ n → Within n h g o → newer_in n h g ≡ false
unfolding Within newer_in
newer_in-Within n [] g o pos w = refl
newer_in-Within n (l ∷ h) g o pos (below, (near, w)) =
    ground (arith, newer_in-Within n h g o pos w, apart)
  where
    apart : g < l.group → l.group % n ≢ g % n
    apart lt = same_residue n g l.group pos lt below

behind_in-Within : (n : ℕ) (h : History) (g o : ℕ) → Within n h g o → behind_in h g o ≡ false
unfolding Within behind_in
behind_in-Within n [] g o w = refl
behind_in-Within n (l ∷ h) g o (below, (near, w)) = ground (arith, behind_in-Within n h g o w, near)

-- With a retention of at least one group, while no Object came of a group that lies the retention
-- or more above and none of the group with an id 4096 or more above, `is_duplicate` answers
-- exactly whether the same Object came before.
pub is_duplicate-Within :
    (n : ℕ) (h : History) (l : Location)
    → 1 ≤ n
    → Within n h l.group l.object
    → (is_duplicate (run n h) l).1 ≡ seen_in h l.group l.object
unfolding expected
is_duplicate-Within n h l pos w =
    is_duplicate-run n h l pos
    ∙ ground
        (arith, newer_in-Within n h l.group l.object pos w, behind_in-Within n h l.group l.object w)
