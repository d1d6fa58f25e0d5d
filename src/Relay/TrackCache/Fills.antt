-- ===== src/Relay/TrackCache/Fills.antt =====
-- The claims of fills of track_cache.rs: which groups a task is filling, so that another waits for it. A
-- claim is told by the address of its lock, which is a number that no claim has had before.
pub mod Exclusive
pub mod Free
use moqtail.Prelude.{
  ℕ, suc, ◌+◌, ◌≤◌, ◌<◌, ◌≡◌, refl, List, [], ◌∷◌, length, Bool, true, false, not, ◌&&◌, ◌||◌,
  Option, none, some, Option-cases, Bool-cases, inl, inr, ltb, leb, ◌==◌, if◌then◌else◌, arith,
}

-- An entry of `Fills`: the first group, the last one, and the lock.
pub record Fill : Type 0 where
  pub first : ℕ
  pub last : ℕ
  pub busy : ℕ

-- `Fills`, with the address of the next lock.
pub record FillState : Type 0 where
  pub fills : List Fill
  pub next_lock : ℕ

-- `*lo <= last && first <= *hi`
abbrev pub overlaps : ℕ → ℕ → Fill → Bool
overlaps first last f = leb f.first last && leb first f.last

unfoldable pub find_overlap : ℕ → ℕ → List Fill → Option Fill
find_overlap first last [] = none
find_overlap first last (f ∷ fs) =
    if overlaps first last f then some f else find_overlap first last fs

-- `Vec::push`
unfoldable pub push_fill : List Fill → Fill → List Fill
push_fill [] f = f ∷ []
push_fill (g ∷ gs) f = g ∷ push_fill gs f

-- A claim with its lock, or the lock of the claim to wait for.
pub data Claim : Type 0 where
  claimed : ℕ → Claim
  busy_with : ℕ → Claim

abbrev pub claim_unless : ℕ → ℕ → FillState → Option Fill → FillState × Claim
claim_unless first last s (some f) = (s, busy_with f.busy)
claim_unless first last s none = (
  record {
    fills = push_fill s.fills (record { first = first; last = last; busy = s.next_lock });
    next_lock = suc s.next_lock;
  },
  claimed s.next_lock,
)

-- `TrackCache::claim_fill`
unfoldable pub claim_fill : ℕ → ℕ → FillState → FillState × Claim
claim_fill first last s = claim_unless first last s (find_overlap first last s.fills)

unfoldable pub retain_other_locks : ℕ → List Fill → List Fill
retain_other_locks lock [] = []
retain_other_locks lock (f ∷ fs) =
    if not (f.busy == lock) then f ∷ retain_other_locks lock fs else retain_other_locks lock fs

-- `FillClaim::drop`
unfoldable pub drop_claim : ℕ → FillState → FillState
drop_claim lock s = record s { fills = retain_other_locks lock s.fills }
