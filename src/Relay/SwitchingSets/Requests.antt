-- ===== src/Relay/SwitchingSets/Requests.antt =====
-- The sets of request ids in switching_set.rs, as ascending lists.
use moqtail.Prelude.{
  ℕ, ◌<◌, ◌≡◌, refl, List, [], ◌∷◌, Bool, true, false, not, ◌&&◌, ◌||◌, ltb, ◌==◌, arith,
}
use moqtail.Relay.SwitchingSets.{is_empty, holds, insert_holder, append_holders, remove_holder}

pub all_above : ℕ → List ℕ → Bool
all_above t [] = true
all_above t (q ∷ qs) = ltb t q && all_above t qs

-- Ascending, and nothing twice.
unfoldable pub is_set : List ℕ → Bool
unfolding all_above
is_set [] = true
is_set (q ∷ qs) = all_above q qs && is_set qs

all_above_trans : (s t : ℕ) (qs : List ℕ) → s < t → all_above t qs ≡ true → all_above s qs ≡ true
unfolding all_above
all_above_trans s t [] h a = refl
all_above_trans s t (q ∷ qs) h a = ground (arith, all_above_trans s t qs)

all_above-absent : (t : ℕ) (qs : List ℕ) → all_above t qs ≡ true → holds t qs ≡ false
unfolding all_above holds
all_above-absent t [] a = refl
all_above-absent t (q ∷ qs) a = ground (arith, all_above-absent t qs)

pub holds-insert_holder :
    (q r : ℕ) (hs : List ℕ) → holds q (insert_holder r hs) ≡ ((r == q) || holds q hs)
unfolding holds insert_holder
holds-insert_holder q r [] = refl
holds-insert_holder q r (h ∷ hs) = ground (arith, holds-insert_holder q r hs)

all_above-insert_holder :
    (t r : ℕ) (hs : List ℕ) → all_above t (insert_holder r hs) ≡ (ltb t r && all_above t hs)
unfolding all_above insert_holder
all_above-insert_holder t r [] = refl
all_above-insert_holder t r (h ∷ hs) = ground (arith, all_above-insert_holder t r hs)

is_set-insert_holder : (r : ℕ) (hs : List ℕ) → is_set hs ≡ true → is_set (insert_holder r hs) ≡ true
unfolding is_set insert_holder
is_set-insert_holder r [] a = refl
is_set-insert_holder r (h ∷ hs) a =
    ground
      (arith, is_set-insert_holder r hs, all_above-insert_holder h r hs, all_above_trans r h hs)

pub holds-append_holders :
    (q : ℕ) (hs qs : List ℕ) → holds q (append_holders hs qs) ≡ (holds q hs || holds q qs)
unfolding holds append_holders
holds-append_holders q hs [] = ground arith
holds-append_holders q hs (r ∷ qs) =
    ground (arith, holds-append_holders q (insert_holder r hs) qs, holds-insert_holder q r hs)

pub is_set-append_holders :
    (hs qs : List ℕ) → is_set hs ≡ true → is_set (append_holders hs qs) ≡ true
unfolding append_holders
is_set-append_holders hs [] a = a
is_set-append_holders hs (r ∷ qs) a =
    is_set-append_holders (insert_holder r hs) qs (is_set-insert_holder r hs a)

is_empty-insert_holder : (r : ℕ) (hs : List ℕ) → is_empty (insert_holder r hs) ≡ false
unfolding insert_holder
is_empty-insert_holder r [] = refl
is_empty-insert_holder r (q ∷ qs) = ground arith

pub is_empty-append_holders :
    (hs qs : List ℕ) → is_empty hs ≡ false → is_empty (append_holders hs qs) ≡ false
unfolding append_holders
is_empty-append_holders hs [] h = h
is_empty-append_holders hs (q ∷ qs) h =
    is_empty-append_holders (insert_holder q hs) qs (is_empty-insert_holder q hs)

pub remove_holder-absent : (r : ℕ) (hs : List ℕ) → holds r hs ≡ false → remove_holder r hs ≡ hs
unfolding holds remove_holder
remove_holder-absent r [] h = refl
remove_holder-absent r (q ∷ qs) h = ground (arith, remove_holder-absent r qs)

pub holds-remove_holder :
    (q r : ℕ) (hs : List ℕ)
    → is_set hs ≡ true
    → holds q (remove_holder r hs) ≡ (not (r == q) && holds q hs)
unfolding holds remove_holder is_set
holds-remove_holder q r [] a = ground arith
holds-remove_holder q r (h ∷ hs) a =
    ground (arith, holds-remove_holder q r hs, all_above-absent h hs)

all_above-remove_holder :
    (t r : ℕ) (hs : List ℕ) → all_above t hs ≡ true → all_above t (remove_holder r hs) ≡ true
unfolding all_above remove_holder
all_above-remove_holder t r [] a = refl
all_above-remove_holder t r (h ∷ hs) a = ground (arith, all_above-remove_holder t r hs)

pub is_set-remove_holder :
    (r : ℕ) (hs : List ℕ) → is_set hs ≡ true → is_set (remove_holder r hs) ≡ true
unfolding is_set remove_holder
is_set-remove_holder r [] a = refl
is_set-remove_holder r (h ∷ hs) a =
    ground (arith, is_set-remove_holder r hs, all_above-remove_holder h r hs)

-- A set that loses its last member holds nothing else.
pub holds-is_empty : (q : ℕ) (hs : List ℕ) → is_empty hs ≡ true → holds q hs ≡ false
unfolding holds
holds-is_empty q [] h = refl
holds-is_empty q (r ∷ hs) h = cc
