-- ===== src/Relay/TrackCache/Fills/Exclusive.antt =====
-- The claims of fills of track_cache.rs in any order of claiming and dropping: who holds which groups.
use moqtail.Prelude.{
  subst, ℕ, suc, ◌≤◌, ◌<◌, ◌≡◌, refl, sym, ◌∙◌, ap, List, [], ◌∷◌, Bool, true, false, ◌&&◌, ◌⊎◌,
  Option, none, some, inl, inr, leb, ◌==◌, if◌then◌else◌, arith, Bool-cases,
}
use moqtail.Prelude.Options.{some_injective}
use moqtail.Relay.TrackCache.Fills.{
  Fill, FillState, overlaps, find_overlap, push_fill, Claim, claimed, busy_with, claim_unless,
  claim_fill, retain_other_locks, drop_claim,
}

pub data FillCall : Type 0 where
  claims : ℕ → ℕ → FillCall
  drops : ℕ → FillCall

abbrev pub no_fills : FillState
no_fills = record { fills = []; next_lock = 0 }

unfoldable pub fill_step : FillState → FillCall → FillState
fill_step s (claims first last) = (claim_fill first last s).0
fill_step s (drops lock) = drop_claim lock s

unfoldable pub run_fills : FillState → List FillCall → FillState
run_fills s [] = s
run_fills s (c ∷ cs) = run_fills (fill_step s c) cs

-- The groups that a claim holds, told by its lock: those that it was made for, until it is dropped.
abbrev pub Holdings : Type 0
Holdings = ℕ → Option (ℕ × ℕ)

abbrev pub nobody : Holdings
nobody lock = none

abbrev pub gains : Claim → ℕ → ℕ → Holdings → Holdings
gains (claimed l) first last h lock = if l == lock then some (first, last) else h lock
gains (busy_with l) first last h lock = h lock

abbrev pub loses : ℕ → Holdings → Holdings
loses l h lock = if l == lock then none else h lock

-- The claims that were made and not dropped, by the answers to the calls.
unfoldable pub held_after : FillState → Holdings → List FillCall → Holdings
held_after s h [] = h
held_after s h (claims first last ∷ cs) =
    held_after (claim_fill first last s).0 (gains (claim_fill first last s).1 first last h) cs
held_after s h (drops lock ∷ cs) = held_after (drop_claim lock s) (loses lock h) cs

-- The claim holds the group.
abbrev pub holds_group : Option (ℕ × ℕ) → ℕ → Bool
holds_group none x = false
holds_group (some r) x = leb r.0 x && leb x r.1

abbrev pub listed : ℕ → List Fill → Option (ℕ × ℕ)
listed lock [] = none
listed lock (f ∷ fs) = if f.busy == lock then some (f.first, f.last) else listed lock fs

-- The locks differ, and are below the next one.
abbrev pub Locks : ℕ → List Fill → Type 0
Locks next [] = Unit {0}
Locks next (f ∷ fs) = (f.busy < next) × (listed f.busy fs ≡ none) × Locks next fs

pub listed_next : (next : ℕ) (fs : List Fill) → Locks next fs → listed next fs ≡ none
listed_next next [] h = refl
listed_next next (f ∷ fs) (a, b, h) = ground (arith, listed_next next fs h)

listed-push_fill :
    (lock : ℕ) (fs : List Fill) (f : Fill)
    → listed f.busy fs ≡ none
    → listed lock (push_fill fs f)
      ≡ (if f.busy == lock then some (f.first, f.last) else listed lock fs)
unfolding push_fill
listed-push_fill lock [] f h = refl
listed-push_fill lock (g ∷ gs) f h = ground (arith, listed-push_fill lock gs f)

listed-retain_other_locks :
    (lock l : ℕ) (fs : List Fill)
    → listed lock (retain_other_locks l fs) ≡ (if l == lock then none else listed lock fs)
unfolding retain_other_locks
listed-retain_other_locks lock l [] = ground arith
listed-retain_other_locks lock l (f ∷ fs) = ground (arith, listed-retain_other_locks lock l fs)

push_fill-Locks :
    (next : ℕ) (fs : List Fill) (f : Fill)
    → Locks next fs
    → f.busy ≡ next
    → Locks (suc next) (push_fill fs f)
unfolding push_fill
push_fill-Locks next [] f h e = (omega arith, refl, tt)
push_fill-Locks next (g ∷ gs) f (a, b, h) e = (
  omega arith,
  ground (arith, listed-push_fill g.busy gs f (rw e (listed_next next gs h))),
  push_fill-Locks next gs f h e,
)

retain_other_locks-Locks :
    (next l : ℕ) (fs : List Fill) → Locks next fs → Locks next (retain_other_locks l fs)
unfolding retain_other_locks
retain_other_locks-Locks next l [] h = tt
retain_other_locks-Locks next l (f ∷ fs) (a, b, h) = elim (Bool-cases (f.busy == l)) [
  | inl e ↦ rw e (retain_other_locks-Locks next l fs h)
  | inr e ↦ rw e (
    a,
    ground (arith, listed-retain_other_locks f.busy l fs),
    retain_other_locks-Locks next l fs h,
  )
]

-- What `find_overlap` says of the claims in the list.
overlap_none :
    (first last lock x : ℕ) (fs : List Fill)
    → find_overlap first last fs ≡ none
    → first ≤ x
    → x ≤ last
    → holds_group (listed lock fs) x ≡ false
unfolding find_overlap
overlap_none first last lock x [] h p q = refl
overlap_none first last lock x (f ∷ fs) h p q = ground (arith, overlap_none first last lock x fs)

pub overlap_some :
    (first last next : ℕ) (fs : List Fill) (f : Fill)
    → Locks next fs
    → find_overlap first last fs ≡ some f
    → (listed f.busy fs ≡ some (f.first, f.last)) × (overlaps first last f ≡ true)
unfolding find_overlap
overlap_some first last next [] f w h = cc
overlap_some first last next (g ∷ gs) f (a, b, w) h = elim (Bool-cases (overlaps first last g)) [
  | inl e ↦
      let same : some g ≡ some f = rw e at h in
      subst
        (λ f. (listed f.busy (g ∷ gs) ≡ some (f.first, f.last)) × (overlaps first last f ≡ true))
        (some_injective same) (ground arith, e)
  | inr e ↦
      let (found, over) = overlap_some first last next gs f w (rw e at h) in
      (ground (arith, found), over)
]

-- Claims of the same group are one claim.
abbrev pub Exclusive : Holdings → Type 0
Exclusive h = (a b x : ℕ) → holds_group (h a) x ≡ true → holds_group (h b) x ≡ true → a ≡ b

-- The list has exactly the claims that are held.
abbrev pub Lists : FillState → Holdings → Type 0
Lists s h = ((lock : ℕ) → listed lock s.fills ≡ h lock) × Locks s.next_lock s.fills × Exclusive h

gained_group :
    (l lock first last x : ℕ) (h : Option (ℕ × ℕ))
    → holds_group (if l == lock then some (first, last) else h) x ≡ true
    → ((l ≡ lock) × (first ≤ x) × (x ≤ last)) ⊎ (holds_group h x ≡ true)
gained_group l lock first last x h e = elim (Bool-cases (l == lock)) [
  | inl k ↦ inl (ground arith, ground arith, ground arith)
  | inr k ↦ inr (rw k at e)
]

gains-Exclusive :
    (l first last : ℕ) (h : Holdings)
    → Exclusive h
    → ((lock x : ℕ) → first ≤ x → x ≤ last → holds_group (h lock) x ≡ false)
    → Exclusive (gains (claimed l) first last h)
gains-Exclusive l first last h ex free a b x p q = elim (gained_group l a first last x (h a) p) [
  | inl (ea, a₁, a₂) ↦ elim (gained_group l b first last x (h b) q) [
    | inl (eb, b₁, b₂) ↦ sym ea ∙ eb
    | inr k ↦ let no_b = free b x a₁ a₂ in absurd cc
  ]
  | inr j ↦ elim (gained_group l b first last x (h b) q) [
    | inl (eb, b₁, b₂) ↦ let no_a = free a x b₁ b₂ in absurd cc
    | inr k ↦ ex a b x j k
  ]
]

claim-Lists :
    (first last : ℕ) (s : FillState) (h : Holdings) (o : Option Fill)
    → find_overlap first last s.fills ≡ o
    → Lists s h
    → Lists (claim_unless first last s o).0 (gains (claim_unless first last s o).1 first last h)
claim-Lists first last s h (some f) e w = w
claim-Lists first last s h none e (same, locks, ex) = (
  (λ lock.
      listed-push_fill lock s.fills _ (listed_next s.next_lock s.fills locks)
      ∙ ap (λ o. if s.next_lock == lock then some (first, last) else o) (same lock)),
  push_fill-Locks s.next_lock s.fills _ locks refl,
  gains-Exclusive s.next_lock first last h ex λ lock x p q.
      ap (λ o. holds_group o x) (sym (same lock)) ∙ overlap_none first last lock x s.fills e p q,
)

lost_group :
    (l lock x : ℕ) (h : Option (ℕ × ℕ))
    → holds_group (if l == lock then none else h) x ≡ true
    → holds_group h x ≡ true
lost_group l lock x h e = ground arith

drop-Lists : (l : ℕ) (s : FillState) (h : Holdings) → Lists s h → Lists (drop_claim l s) (loses l h)
unfolding drop_claim
drop-Lists l s h (same, locks, ex) = (
  (λ lock.
      listed-retain_other_locks lock l s.fills
      ∙ ap (λ o. if l == lock then none else o) (same lock)),
  retain_other_locks-Locks s.next_lock l s.fills locks,
  λ a b x p q. ex a b x (lost_group l a x (h a) p) (lost_group l b x (h b) q),
)

held_after-Lists :
    (s : FillState) (h : Holdings) (cs : List FillCall)
    → Lists s h
    → Lists (run_fills s cs) (held_after s h cs)
unfolding run_fills held_after fill_step claim_fill
held_after-Lists s h [] w = w
held_after-Lists s h (claims first last ∷ cs) w =
    held_after-Lists (fill_step s (claims first last))
      (gains (claim_fill first last s).1 first last h) cs
      (claim-Lists first last s h (find_overlap first last s.fills) refl w)
held_after-Lists s h (drops l ∷ cs) w =
    held_after-Lists (fill_step s (drops l)) (loses l h) cs (drop-Lists l s h w)

pub run-Lists : (cs : List FillCall) → Lists (run_fills no_fills cs) (held_after no_fills nobody cs)
run-Lists cs = held_after-Lists no_fills nobody cs ((λ lock. refl), tt, λ a b x p q. absurd cc)

-- After any calls of `claim_fill` and any drops of claims, no group is held by two claims. A
-- claim holds the groups that it was made for, from the call that answers with its lock until it
-- is dropped.
pub run_fills_exclusive :
    (cs : List FillCall) (a b x : ℕ)
    → holds_group (held_after no_fills nobody cs a) x ≡ true
    → holds_group (held_after no_fills nobody cs b) x ≡ true
    → a ≡ b
run_fills_exclusive cs = (run-Lists cs).2
