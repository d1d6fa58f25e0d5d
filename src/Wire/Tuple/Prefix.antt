-- ===== src/Wire/Tuple/Prefix.antt =====
-- `starts_with` and `suffix` of tuple.rs.
use moqtail.Prelude.{
  ℕ, zero, suc, ◌+◌, ◌≤◌, ◌≡◌, ◌↔◌, refl, sym, ap, ◌∙◌, [], ◌∷◌, ◌++◌, Bool, true, false, not, ◌&&◌,
  ◌||◌, none, some, length, length-append, drop, ltb, if◌then◌else◌, arith,
}
use moqtail.Wire.Buffer.{Bytes, drop-length_append}
use moqtail.Wire.Tuple.{
  TupleField, Tuple, bytes_eq, fields_agree, starts_with, suffix, is_reserved_namespace,
  is_reserved_dot, is_session_namespace,
}

pub bytes_eq→eq : (xs ys : Bytes) → bytes_eq xs ys ≡ true → xs ≡ ys
unfolding bytes_eq
bytes_eq→eq [] [] h = refl
bytes_eq→eq [] (y ∷ ys) h = cc
bytes_eq→eq (x ∷ xs) [] h = cc
bytes_eq→eq (x ∷ xs) (y ∷ ys) h = ground (arith, bytes_eq→eq xs ys)

pub bytes_eq_refl : (xs : Bytes) → bytes_eq xs xs ≡ true
unfolding bytes_eq
bytes_eq_refl [] = refl
bytes_eq_refl (x ∷ xs) = ground (arith, bytes_eq_refl xs)

-- The same test by recursion on both lists.
begins : Tuple → Tuple → Bool
begins t [] = true
begins [] (g ∷ gs) = false
begins (f ∷ fs) (g ∷ gs) = if not (bytes_eq f g) then false else begins fs gs

fields_agree_shift :
    (rounds i : ℕ) (f g : TupleField) (t p : Tuple)
    → fields_agree rounds (suc i) (f ∷ t) (g ∷ p) ≡ fields_agree rounds i t p
unfolding fields_agree
fields_agree_shift zero i f g t p = refl
fields_agree_shift (suc rounds) i f g t p =
    ground (arith, fields_agree_shift rounds (i + 1) f g t p)

-- The loop at `i = 0` is the recursion, for a prefix that is no longer than the tuple.
fields_agree-begins :
    (t p : Tuple) → length p ≤ length t → fields_agree (length p) 0 t p ≡ begins t p
unfolding fields_agree begins
fields_agree-begins t [] h = refl
fields_agree-begins [] (g ∷ p) h = absurd (omega arith)
fields_agree-begins (f ∷ t) (g ∷ p) h =
    ground (arith, fields_agree_shift (length p) 0 f g t p, fields_agree-begins t p (omega arith))

begins-append : (p s : Tuple) → begins (p ++ s) p ≡ true
unfolding begins
begins-append [] s = refl
begins-append (f ∷ p) s = rw bytes_eq_refl (begins-append p s)

begins-drop : (t p : Tuple) → begins t p ≡ true → t ≡ p ++ drop (length p) t
unfolding begins
begins-drop t [] h = refl
begins-drop [] (g ∷ p) h = cc
begins-drop (f ∷ t) (g ∷ p) h = ground (arith, bytes_eq→eq f g, begins-drop t p)

-- `t.starts_with(p)` holds exactly if `t` is `p` followed by the fields behind it.
starts_with_iff : (t p : Tuple) → (starts_with t p ≡ true) ↔ (t ≡ p ++ drop (length p) t)
unfolding starts_with
starts_with_iff t p = (λ h. begins-drop t p (ground (arith, fields_agree-begins t p)), λ e. whole e)
  where
    fits : t ≡ p ++ drop (length p) t → length p ≤ length t
    fits e = omega (arith, ap length e, length-append p (drop (length p) t))

    whole :
        t ≡ p ++ drop (length p) t
        → (if ltb (length t) (length p) then false else fields_agree (length p) 0 t p) ≡ true
    whole e = ground (
      arith,
      fits e,
      fields_agree-begins t p (fits e),
      begins-append p (drop (length p) t),
      ap (λ l. begins l p) e,
    )

-- `t.suffix(p)` is `s` exactly if `t` is `p` followed by `s`.
suffix_iff : (t p s : Tuple) → (suffix t p ≡ some s) ↔ (t ≡ p ++ s)
unfolding suffix
suffix_iff t p s = (λ h. ground (arith, (starts_with_iff t p).0), λ e. back e)
  where
    rest : t ≡ p ++ s → drop (length p) t ≡ s
    rest e = ap (drop (length p)) e ∙ drop-length_append p s

    back : t ≡ p ++ s → (if not (starts_with t p) then none else some (drop (length p) t)) ≡ some s
    back e = rw ((starts_with_iff t p).1 (e ∙ ap (λ l. p ++ l) (sym (rest e))), rest e)

-- Every session namespace and every single dot is reserved, and no namespace is both.
pub reserved_namespaces :
    (t : Tuple)
    → ((not (is_session_namespace t) || is_reserved_namespace t) ≡ true)
      × ((not (is_reserved_dot t) || is_reserved_namespace t) ≡ true)
      × ((is_session_namespace t && is_reserved_dot t) ≡ false)
unfolding is_session_namespace is_reserved_dot is_reserved_namespace bytes_eq
reserved_namespaces [] = (refl, refl, refl)
reserved_namespaces ([] ∷ fs) = (refl, refl, refl)
reserved_namespaces ((b ∷ []) ∷ fs) = (ground arith, ground arith, ground arith)
reserved_namespaces ((b ∷ c ∷ bs) ∷ fs) = (ground arith, ground arith, ground arith)
