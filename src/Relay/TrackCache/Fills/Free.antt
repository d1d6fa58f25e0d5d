-- ===== src/Relay/TrackCache/Fills/Free.antt =====
-- When `claim_fill` of track_cache.rs gives a claim: the groups that nobody holds can be claimed.
use moqtail.Prelude.{
  ℕ, ◌≤◌, ◌≡◌, refl, sym, ◌∙◌, subst, List, [], ◌∷◌, true, false, Option, none, some, inl, inr, leb,
  ◌==◌, if◌then◌else◌, arith, Bool-cases,
}
use moqtail.Relay.TrackCache.Fills.{
  Fill, FillState, overlaps, find_overlap, Claim, claimed, busy_with, claim_unless, claim_fill,
  drop_claim,
}
use moqtail.Relay.TrackCache.Fills.Exclusive.{
  FillCall, claims, drops, no_fills, run_fills, Holdings, nobody, gains, loses, held_after,
  holds_group, listed_next, overlap_some, Lists, run-Lists,
}

-- The calls of the program, which claim from a first group to one that is not before it.
abbrev pub AllClaims : List FillCall → Type 0
AllClaims [] = Unit {0}
AllClaims (claims first last ∷ cs) = (first ≤ last) × AllClaims cs
AllClaims (drops lock ∷ cs) = AllClaims cs

abbrev IsRange : Option (ℕ × ℕ) → Type 0
IsRange none = Unit {0}
IsRange (some r) = r.0 ≤ r.1

gained-IsRange :
    (l lock first last : ℕ) (o : Option (ℕ × ℕ))
    → first ≤ last
    → IsRange o
    → IsRange (if l == lock then some (first, last) else o)
gained-IsRange l lock first last o k h = elim (Bool-cases (l == lock)) [
  | inl e ↦ rw e k
  | inr e ↦ rw e h
]

gains-IsRange :
    (c : Claim) (first last : ℕ) (h : Holdings)
    → first ≤ last
    → ((lock : ℕ) → IsRange (h lock))
    → (lock : ℕ) → IsRange (gains c first last h lock)
gains-IsRange (claimed l) first last h k r lock =
    gained-IsRange l lock first last (h lock) k (r lock)
gains-IsRange (busy_with l) first last h k r lock = r lock

lost-IsRange :
    (l lock : ℕ) (o : Option (ℕ × ℕ)) → IsRange o → IsRange (if l == lock then none else o)
lost-IsRange l lock o h = elim (Bool-cases (l == lock)) [ inl e ↦ rw e tt | inr e ↦ rw e h ]

held_after-IsRange :
    (s : FillState) (h : Holdings) (cs : List FillCall)
    → ((lock : ℕ) → IsRange (h lock))
    → AllClaims cs
    → (lock : ℕ) → IsRange (held_after s h cs lock)
unfolding held_after
held_after-IsRange s h [] r k = r
held_after-IsRange s h (claims first last ∷ cs) r (a, k) =
    held_after-IsRange (claim_fill first last s).0 (gains (claim_fill first last s).1 first last h)
      cs (gains-IsRange (claim_fill first last s).1 first last h a r) k
held_after-IsRange s h (drops l ∷ cs) r k =
    held_after-IsRange (drop_claim l s) (loses l h) cs
      (λ lock. lost-IsRange l lock (h lock) (r lock)) k

-- Two ranges that overlap have a group in common.
common_group :
    (first last : ℕ) (f : Fill)
    → first ≤ last
    → f.first ≤ f.last
    → overlaps first last f ≡ true
    → (x : ℕ) × (first ≤ x) × (x ≤ last) × (holds_group (some (f.first, f.last)) x ≡ true)
common_group first last f k r e = elim (Bool-cases (leb first f.first)) [
  | inl q ↦ (f.first, ground arith, ground arith, ground arith)
  | inr q ↦ (first, ground arith, ground arith, ground arith)
]

refused :
    (first last : ℕ) (s : FillState) (h : Holdings) (f : Fill)
    → Lists s h
    → ((lock : ℕ) → IsRange (h lock))
    → first ≤ last
    → find_overlap first last s.fills ≡ some f
    → (x : ℕ) × (first ≤ x) × (x ≤ last) × (holds_group (h f.busy) x ≡ true)
refused first last s h f (same, locks, ex) r k e =
    let (found, over) = overlap_some first last s.next_lock s.fills f locks e in
    let held : h f.busy ≡ some (f.first, f.last) = sym (same f.busy) ∙ found in
    let (x, p, q, is) = common_group first last f k (subst IsRange held (r f.busy)) over in
    (x, p, q, rw held is)

answered :
    (first last : ℕ) (s : FillState) (h : Holdings) (o : Option Fill)
    → find_overlap first last s.fills ≡ o
    → Lists s h
    → ((lock : ℕ) → IsRange (h lock))
    → first ≤ last
    → ((lock x : ℕ) → first ≤ x → x ≤ last → holds_group (h lock) x ≡ false)
    → (lock : ℕ) × ((claim_unless first last s o).1 ≡ claimed lock) × (h lock ≡ none)
answered first last s h none e (same, locks, ex) r k free =
    (s.next_lock, refl, sym (same s.next_lock) ∙ listed_next s.next_lock s.fills locks)
answered first last s h (some f) e w r k free =
    let (x, p, q, is) = refused first last s h f w r k e in
    let not_held = free f.busy x p q in absurd cc

-- After any calls of `claim_fill` for a first group and one not before it, and any drops of
-- claims, `claim_fill` for such groups gives a claim, with a lock that no held claim has, where
-- no claim that was made and not dropped holds one of the groups.
pub claim_fill_free :
    (cs : List FillCall) (first last : ℕ)
    → AllClaims cs
    → first ≤ last
    → ((lock x : ℕ)
        → first ≤ x
        → x ≤ last
        → holds_group (held_after no_fills nobody cs lock) x ≡ false)
    → (lock : ℕ) × ((claim_fill first last (run_fills no_fills cs)).1 ≡ claimed lock)
      × (held_after no_fills nobody cs lock ≡ none)
unfolding claim_fill
claim_fill_free cs first last h k free =
    answered first last (run_fills no_fills cs) (held_after no_fills nobody cs) _ refl
      (run-Lists cs) (held_after-IsRange no_fills nobody cs (λ lock. tt) h) k free
