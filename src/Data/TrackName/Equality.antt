-- ===== src/Data/TrackName/Equality.antt =====
-- The derived `==` of full_track_name.rs.
use moqtail.Prelude.{◌≡◌, refl, [], ◌∷◌, true, inl, inr, ◌↔◌, Bool-cases, arith}
use moqtail.Wire.Tuple
use moqtail.Wire.Tuple.{bytes_eq}
use moqtail.Wire.Tuple.Prefix.{bytes_eq→eq, bytes_eq_refl}
use moqtail.Data.TrackName.{FullTrackName, fields_eq, name_eq}

fields_eq→eq : (t u : Tuple.Tuple) → fields_eq t u ≡ true → t ≡ u
unfolding fields_eq
fields_eq→eq [] [] h = refl
fields_eq→eq [] (g ∷ gs) h = cc
fields_eq→eq (f ∷ fs) [] h = cc
fields_eq→eq (f ∷ fs) (g ∷ gs) h = ground (arith, bytes_eq→eq f g, fields_eq→eq fs gs)

fields_eq_refl : (t : Tuple.Tuple) → fields_eq t t ≡ true
unfolding fields_eq
fields_eq_refl [] = refl
fields_eq_refl (f ∷ fs) = ground (arith, bytes_eq_refl f, fields_eq_refl fs)

-- The derived `==` is equality.
pub name_eq_iff : (m n : FullTrackName) → (name_eq m n ≡ true) ↔ (m ≡ n)
unfolding name_eq
name_eq_iff m n = (
  λ h. ground (arith, fields_eq→eq m.namespace n.namespace, bytes_eq→eq m.name n.name),
  λ e. rw e (ground (arith, fields_eq_refl n.namespace, bytes_eq_refl n.name)),
)

pub name_eq_refl : (n : FullTrackName) → name_eq n n ≡ true
name_eq_refl n = (name_eq_iff n n).1 refl

pub name_eq_sym : (m n : FullTrackName) → name_eq m n ≡ name_eq n m
name_eq_sym m n = elim (Bool-cases (name_eq m n)) [
  | inl e ↦ rw ((name_eq_iff m n).0 e) refl
  | inr e ↦ elim (Bool-cases (name_eq n m)) [
    | inl f ↦ rw ((name_eq_iff n m).0 f) refl
    | inr f ↦ rw (e, f) refl
  ]
]
