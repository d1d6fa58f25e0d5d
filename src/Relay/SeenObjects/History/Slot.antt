-- ===== src/Relay/SeenObjects/History/Slot.antt =====
-- One slot of seen_objects.rs against the history of the groups that map to it.
use moqtail.Prelude.{
  ℕ, ◌+◌, ◌%◌, ◌<◌, ◌≤◌, ◌≡◌, ◌≢◌, refl, ap, ◌∙◌, Bool, true, false, not, ◌&&◌, ◌∷◌, Option, none,
  some, replicate, ltb, leb, ◌==◌, Bool-cases, inl, inr, arith,
}
use moqtail.Wire.Location.{Location}
use moqtail.Relay.SeenObjects.{inline, window, GroupState, test_and_set, start_group, touch_slot}
use moqtail.Relay.SeenObjects.Bitmap.{bit_is_set-empty}
use moqtail.Relay.SeenObjects.Window.{HasWords, top, remembered, test_and_set-Records}
use moqtail.Relay.SeenObjects.History.{History, seen_in, newer_in, behind_in, expected}

pub record Absent (n k : ℕ) (h : History) : Type 0 where
  pub unseen : (g o : ℕ) → g % n ≡ k → seen_in h g o ≡ false
  pub no_newer : (g : ℕ) → g % n ≡ k → newer_in n h g ≡ false
  pub no_behind : (g o : ℕ) → g % n ≡ k → behind_in h g o ≡ false

pub record Holds (n k : ℕ) (h : History) (s : GroupState) : Type 0 where
  pub residue : s.group % n ≡ k
  pub words : HasWords s.bits
  pub newest : (g : ℕ) → g % n ≡ k → newer_in n h g ≡ ltb g s.group
  pub unseen : (g o : ℕ) → g % n ≡ k → s.group < g → seen_in h g o ≡ false
  pub no_behind : (g o : ℕ) → g % n ≡ k → s.group < g → behind_in h g o ≡ false
  pub memory : (o : ℕ) → remembered s.bits o ≡ (seen_in h s.group o && not (behind_in h s.group o))
  pub highest : (o : ℕ) → behind_in h s.group o ≡ leb (o + 4096) (top s.bits)

-- What the slot `k` of `n` says of a history.
unfoldable pub SlotHolds : ℕ → ℕ → History → Option GroupState → Type 0
SlotHolds n k h none = Absent n k h
SlotHolds n k h (some s) = Holds n k h s

-- A group's first bitmap remembers its first Object and no other.
record Started (g o : ℕ) (s : GroupState) : Type 0 where
  group_is : s.group ≡ g
  pub words : HasWords s.bits
  only : (j : ℕ) → remembered s.bits j ≡ (o == j)
  reach : (j : ℕ) → leb (j + 4096) (top s.bits) ≡ leb (j + 4096) o

start_inline :
    (g o : ℕ)
    → o < 256
    → Started g o (record { group = g; bits = (test_and_set (inline (replicate 4 0)) o).0 })
unfolding remembered
start_inline g o lt =
    let r = test_and_set-Records (inline (replicate 4 0)) o refl in
    record {
      group_is = refl;
      words = r.has_words;
      only = λ j. r.memory j ∙ ground (arith, bit_is_set-empty 4 j);
      reach = λ j. ground (arith, r.top_is);
    }

start_window :
    (g o : ℕ)
    → Started g o (record { group = g; bits = (test_and_set (window o (replicate 64 0)) o).0 })
unfolding remembered
start_window g o =
    let r = test_and_set-Records (window o (replicate 64 0)) o refl in
    record {
      group_is = refl;
      words = r.has_words;
      only = λ j. r.memory j ∙ ground (arith, bit_is_set-empty 64 (j % 4096));
      reach = λ j. ground (arith, r.top_is);
    }

start_group-Started : (g o : ℕ) → Started g o (start_group g o)
unfolding start_group
start_group-Started g o = elim (Bool-cases (ltb o 256)) [
  | inl small ↦ rw small (start_inline g o (ground arith))
  | inr large ↦ rw large (start_window g o)
]

unfoldable pub Goes : ℕ → ℕ → History → Location → Option GroupState × Bool → Type 0
Goes n k h l r = SlotHolds n k (l ∷ h) r.0 × (r.1 ≡ expected n h l)

-- A group that no Object of the slot is newer than takes the slot.
started_Holds :
    (n k : ℕ) (h : History) (l : Location)
    → l.group % n ≡ k
    → ((g : ℕ) → g % n ≡ k → newer_in n h g ≡ true → g < l.group)
    → ((g o : ℕ) → g % n ≡ k → l.group ≤ g → seen_in h g o ≡ false)
    → ((g o : ℕ) → g % n ≡ k → l.group ≤ g → behind_in h g o ≡ false)
    → Holds n k (l ∷ h) (start_group l.group l.object)
unfolding seen_in newer_in behind_in
started_Holds n k h l res newest unseen near =
    let st = start_group-Started l.group l.object in
    record {
      residue = ap (λ (t : ℕ). t % n) st.group_is ∙ res;
      words = st.words;
      newest = λ g gk. ground (arith, st.group_is, newest g gk, res, gk);
      unseen = λ g o gk lt. ground (arith, st.group_is, unseen g o gk);
      no_behind = λ g o gk lt. ground (arith, st.group_is, near g o gk);
      memory =
          λ o. ground (arith, st.group_is, st.only o, unseen l.group o res, near l.group o res);
      highest = λ o. ground (arith, st.group_is, st.reach o, near l.group o res);
    }

none-Goes :
    (n k : ℕ) (h : History) (l : Location)
    → l.group % n ≡ k
    → Absent n k h
    → Goes n k h l (touch_slot none l)
unfolding touch_slot expected Goes SlotHolds
none-Goes n k h l res a = (
  started_Holds n k h l res (λ g gk p. ground (arith, a.no_newer g gk))
      (λ g o gk le. a.unseen g o gk) (λ g o gk le. a.no_behind g o gk),
  ground (arith, a.unseen l.group l.object res),
)

-- An Object of a newer group than the slot's.
newer-Goes :
    (n k : ℕ) (h : History) (l : Location) (s : GroupState)
    → l.group % n ≡ k
    → Holds n k h s
    → s.group < l.group
    → Goes n k h l (some (start_group l.group l.object), false)
unfolding expected Goes SlotHolds
newer-Goes n k h l s res a lt = (
  started_Holds n k h l res (λ g gk p. ground (arith, a.newest g gk))
      (λ g o gk le. a.unseen g o gk (omega arith)) (λ g o gk le. a.no_behind g o gk (omega arith)),
  ground (arith, a.unseen l.group l.object res lt),
)

-- An Object of an older group than the slot's.
older-Goes :
    (n k : ℕ) (h : History) (l : Location) (s : GroupState)
    → l.group % n ≡ k
    → Holds n k h s
    → l.group < s.group
    → Goes n k h l (some s, false)
unfolding expected Goes SlotHolds seen_in newer_in behind_in
older-Goes n k h l s res a lt = (
  record {
    residue = a.residue;
    words = a.words;
    newest = λ g gk. ground (arith, a.newest g gk);
    unseen = λ g o gk up. ground (arith, a.unseen g o gk up);
    no_behind = λ g o gk up. ground (arith, a.no_behind g o gk up);
    memory = λ o. ground (arith, a.memory o);
    highest = λ o. ground (arith, a.highest o);
  },
  ground (arith, a.newest l.group res),
)

-- An Object of the slot's group.
same-Goes :
    (n k : ℕ) (h : History) (l : Location) (s : GroupState)
    → l.group % n ≡ k
    → Holds n k h s
    → s.group ≡ l.group
    → Goes n k h l (
      some (record s { bits = (test_and_set s.bits l.object).0 }),
      (test_and_set s.bits l.object).1,
    )
unfolding expected Goes SlotHolds seen_in newer_in behind_in
same-Goes n k h l s res a same =
    let r = test_and_set-Records s.bits l.object a.words in
    (
      record {
        residue = a.residue;
        words = r.has_words;
        newest = λ g gk. ground (arith, a.newest g gk);
        unseen = λ g o gk up. ground (arith, a.unseen g o gk up);
        no_behind = λ g o gk up. ground (arith, a.no_behind g o gk up);
        memory = λ o. r.memory o ∙ ground (arith, a.memory o, a.highest o);
        highest = λ o. ground (arith, a.highest o, r.top_is);
      },
      r.answer ∙ ground (arith, a.memory l.object, a.newest l.group res),
    )

pub touch_slot-Goes :
    (n k : ℕ) (h : History) (l : Location) (slot : Option GroupState)
    → l.group % n ≡ k
    → SlotHolds n k h slot
    → Goes n k h l (touch_slot slot l)
unfolding touch_slot SlotHolds
touch_slot-Goes n k h l none res a = none-Goes n k h l res a
touch_slot-Goes n k h l (some s) res a = elim (Bool-cases (s.group == l.group)) [
  | inl same ↦ rw same (same-Goes n k h l s res a (ground arith))
  | inr other ↦ elim (Bool-cases (ltb s.group l.group)) [
    | inl newer ↦ rw (other, newer) (newer-Goes n k h l s res a (ground arith))
    | inr older ↦ rw (other, older) (older-Goes n k h l s res a (ground arith))
  ]
]

-- An Object of another slot leaves what a slot says as it is.
pub other_slot :
    (n k : ℕ) (h : History) (l : Location) (slot : Option GroupState)
    → l.group % n ≢ k
    → SlotHolds n k h slot
    → SlotHolds n k (l ∷ h) slot
unfolding SlotHolds seen_in newer_in behind_in
other_slot n k h l none ne a = record {
  unseen = λ g o gk. ground (arith, a.unseen g o gk);
  no_newer = λ g gk. ground (arith, a.no_newer g gk);
  no_behind = λ g o gk. ground (arith, a.no_behind g o gk);
}
other_slot n k h l (some s) ne a = record {
  residue = a.residue;
  words = a.words;
  newest = λ g gk. ground (arith, a.newest g gk);
  unseen = λ g o gk up. ground (arith, a.unseen g o gk up);
  no_behind = λ g o gk up. ground (arith, a.no_behind g o gk up);
  memory = λ o. ground (arith, a.memory o, a.residue);
  highest = λ o. ground (arith, a.highest o, a.residue);
}
