-- ===== src/Data/TrackAlias/Inverse.antt =====
-- The two maps of track_alias.rs are each other's inverse.
use moqtail.Prelude.{
  ℕ, ◌≡◌, sym, ap, ◌∙◌, ◌||◌, ◌↔◌, ◌⊎◌, inl, inr, refl, List, [], ◌∷◌, true, false, Option, none,
  some, Option-cases, Bool-cases, is_some, ◌==◌, arith,
}
use moqtail.Prelude.Options.{some_injective}
use moqtail.Wire.Outcome.{Outcome, ok, err, panicked, track_alias_error, ok_or, ok_injective}
use moqtail.Data.TrackName.{FullTrackName, name_eq}
use moqtail.Data.TrackName.Equality.{name_eq_iff, name_eq_refl}
use moqtail.Data.TrackAlias.{
  TrackAliasMap, new, add_new, add_mapping, without, remove_mapping_by_alias,
  remove_mapping_by_name, get_name_by_alias, get_alias_by_name, contains_alias, contains_name,
}

abbrev pub IsInverse : TrackAliasMap → Type 0
IsInverse m =
    (a : ℕ) (n : FullTrackName) → (m.alias_to_name a ≡ some n) ↔ (m.name_to_alias n ≡ some a)

pub data Call : Type 0 where
  adds : ℕ → FullTrackName → Call
  removes_alias : ℕ → Call
  removes_name : FullTrackName → Call

abbrev pub or_same : TrackAliasMap → Outcome TrackAliasMap → TrackAliasMap
or_same m (ok m') = m'
or_same m (err e) = m
or_same m panicked = m

-- A call that fails leaves the map as it is.
unfoldable pub step : TrackAliasMap → Call → TrackAliasMap
step m (adds alias name) = or_same m (add_mapping m alias name)
step m (removes_alias alias) = (remove_mapping_by_alias m alias).0
step m (removes_name name) = (remove_mapping_by_name m name).0

unfoldable pub run : TrackAliasMap → List Call → TrackAliasMap
run m [] = m
run m (c ∷ cs) = run (step m c) cs

module _ (m : TrackAliasMap) (alias : ℕ) (name : FullTrackName) (inv : IsInverse m) where
  same_alias : (a : ℕ) → (a == alias) ≡ true → a ≡ alias
  same_alias a h = ground arith

  other_name : (n : FullTrackName) → name_eq n name ≡ false → name ≡ n → ⊥
  other_name n h e = let k : name_eq n name ≡ true = (name_eq_iff n name).1 (sym e) in cc

  add_new-IsInverse :
      m.alias_to_name alias ≡ none → m.name_to_alias name ≡ none → IsInverse (add_new m alias name)
  add_new-IsInverse ea en a n = elim (Bool-cases (a == alias)) [
    | inl x ↦ elim (Bool-cases (name_eq n name)) [
      | inl y ↦
          rw (x, y)
            ((λ h. ap some (sym (same_alias a x))), λ h. ap some (sym ((name_eq_iff n name).0 y)))
      | inr y ↦
          rw (x, y)
            (
              (λ h. absurd (other_name n y (some_injective h))),
              λ h.
                  let held : m.alias_to_name a ≡ some n = (inv a n).1 h in
                  let is = same_alias a x in cc,
            )
    ]
    | inr x ↦ elim (Bool-cases (name_eq n name)) [
      | inl y ↦
          let is = (name_eq_iff n name).0 y in
          rw (x, y)
            (
              (λ h. let held : m.name_to_alias n ≡ some a = (inv a n).0 h in cc),
              λ h. let k : alias ≡ a = some_injective h in ground arith,
            )
      | inr y ↦ rw (x, y) (inv a n)
    ]
  ]

  without-IsInverse : m.alias_to_name alias ≡ some name → IsInverse (without m alias name)
  without-IsInverse e a n =
      let e' : m.name_to_alias name ≡ some alias = (inv alias name).0 e in
      elim (Bool-cases (a == alias)) [
        | inl x ↦ elim (Bool-cases (name_eq n name)) [
          | inl y ↦ rw (x, y) ((λ h. cc), λ h. cc)
          | inr y ↦
              rw (x, y)
                (
                  (λ h. cc),
                  λ h.
                      let held : m.alias_to_name a ≡ some n = (inv a n).1 h in
                      let is = same_alias a x in
                      let k : name ≡ n =
                        some_injective (sym e ∙ (ap m.alias_to_name (sym is) ∙ held)) in
                      absurd (other_name n y k),
                )
        ]
        | inr x ↦ elim (Bool-cases (name_eq n name)) [
          | inl y ↦
              let is = (name_eq_iff n name).0 y in
              rw (x, y)
                (
                  (λ h.
                      let held : m.name_to_alias n ≡ some a = (inv a n).0 h in
                      let k : alias ≡ a =
                        some_injective (sym e' ∙ (ap m.name_to_alias (sym is) ∙ held)) in
                      ground arith),
                  λ h. cc,
                )
          | inr y ↦ rw (x, y) (inv a n)
        ]
      ]

  unshared :
      (existing : ℕ)
      → m.alias_to_name alias ≡ none
      → m.name_to_alias name ≡ some existing
      → (existing == alias) ≡ false
  unshared existing e f = elim (Bool-cases (existing == alias)) [
    | inr k ↦ k
    | inl k ↦
        let is = same_alias existing k in
        let held : m.alias_to_name alias ≡ some name = (inv alias name).1 (f ∙ ap some is) in cc
  ]

  -- The ways that a call of `add_mapping` goes.
  add_mapping_cases :
      ((m.alias_to_name alias ≡ some name) × (add_mapping m alias name ≡ ok m))
      ⊎ ((m.alias_to_name alias ≡ none)
          × (m.name_to_alias name ≡ none)
          × (add_mapping m alias name ≡ ok (add_new m alias name)))
      ⊎ (((m.alias_to_name alias ≡ some name) → ⊥)
          × (is_some (m.alias_to_name alias) || is_some (m.name_to_alias name) ≡ true)
          × (add_mapping m alias name ≡ err track_alias_error))
  unfolding add_mapping
  add_mapping_cases = elim (Option-cases (m.alias_to_name alias)) [
    | inr (existing, e) ↦ elim (Bool-cases (name_eq existing name)) [
      | inl y ↦ inl (e ∙ ap some ((name_eq_iff existing name).0 y), rw (e, y) refl)
      | inr y ↦ inr (
          inr (
            (λ h.
                let k : name_eq existing name ≡ true =
                  (name_eq_iff existing name).1 (some_injective (sym e ∙ h)) in
                cc),
            rw e refl,
            rw (e, y) refl,
          ))
    ]
    | inl e ↦ elim (Option-cases (m.name_to_alias name)) [
      | inl f ↦ inr (inl (e, f, rw (e, f) refl))
      | inr (existing, f) ↦
          let apart = unshared existing e f in
          inr (inr ((λ h. cc), rw (e, f) refl, rw (e, f, apart) refl))
    ]
  ]

  adds-IsInverse : IsInverse (or_same m (add_mapping m alias name))
  adds-IsInverse = elim add_mapping_cases [
    | inl (e, is) ↦ rw is inv
    | inr (inl (e, f, is)) ↦ rw is (add_new-IsInverse e f)
    | inr (inr (e, f, is)) ↦ rw is inv
  ]

step-IsInverse : (m : TrackAliasMap) (c : Call) → IsInverse m → IsInverse (step m c)
unfolding step remove_mapping_by_alias remove_mapping_by_name
step-IsInverse m (adds alias name) inv = adds-IsInverse m alias name inv
step-IsInverse m (removes_alias alias) inv = elim (Option-cases (m.alias_to_name alias)) [
  | inl e ↦ rw e inv
  | inr (name, e) ↦ rw e (without-IsInverse m alias name inv e)
]
step-IsInverse m (removes_name name) inv = elim (Option-cases (m.name_to_alias name)) [
  | inl e ↦ rw e inv
  | inr (alias, e) ↦ rw e (without-IsInverse m alias name inv ((inv alias name).1 e))
]

run_from-IsInverse : (m : TrackAliasMap) (cs : List Call) → IsInverse m → IsInverse (run m cs)
unfolding run
run_from-IsInverse m [] inv = inv
run_from-IsInverse m (c ∷ cs) inv = run_from-IsInverse (step m c) cs (step-IsInverse m c inv)

-- After any calls of `add_mapping` and of the two removals, the map of names by alias and the map
-- of aliases by name are each other's inverse.
run-IsInverse : (cs : List Call) → IsInverse (run new cs)
unfolding new
run-IsInverse cs = run_from-IsInverse new cs (λ a n. ((λ h. cc), λ h. cc))

found :
    (o : Option FullTrackName) {name : FullTrackName}
    → ok_or o track_alias_error ≡ ok name
    → o ≡ some name
found none h = cc
found (some n) h = ap some (ok_injective h)

answers :
    (m : TrackAliasMap) (alias : ℕ) (name : FullTrackName)
    → IsInverse m
    → ((m' : TrackAliasMap) × (add_mapping m alias name ≡ ok m')
        × (get_name_by_alias m' alias ≡ ok name)
        × (get_alias_by_name m' name ≡ ok alias))
      ⊎ ((add_mapping m alias name ≡ err track_alias_error)
          × (get_name_by_alias m alias ≡ ok name → ⊥)
          × ((contains_alias m alias || contains_name m name) ≡ true))
unfolding get_name_by_alias get_alias_by_name contains_alias contains_name
answers m alias name inv = elim (add_mapping_cases m alias name inv) [
  | inl (e, is) ↦ inl (m, is, rw e refl, rw ((inv alias name).0 e) refl)
  | inr (inl (e, f, is)) ↦
      let here : (alias == alias) ≡ true = ground arith in
      inl (add_new m alias name, is, rw here refl, rw (name_eq_refl name) refl)
  | inr (inr (e, f, is)) ↦ inr (is, (λ h. e (found (m.alias_to_name alias) h)), f)
]

-- After any calls of `add_mapping` and of the two removals on a new map, `add_mapping` either
-- succeeds, and then both lookups find the pair, or fails with a Track Alias error, and then the
-- pair was not in the map but its alias or its name was.
pub add_mapping_answers :
    (cs : List Call) (alias : ℕ) (name : FullTrackName)
    → ((m : TrackAliasMap) × (add_mapping (run new cs) alias name ≡ ok m)
        × (get_name_by_alias m alias ≡ ok name)
        × (get_alias_by_name m name ≡ ok alias))
      ⊎ ((add_mapping (run new cs) alias name ≡ err track_alias_error)
          × (get_name_by_alias (run new cs) alias ≡ ok name → ⊥)
          × ((contains_alias (run new cs) alias || contains_name (run new cs) name) ≡ true))
add_mapping_answers cs alias name = answers (run new cs) alias name (run-IsInverse cs)
