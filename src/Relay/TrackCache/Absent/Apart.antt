-- ===== src/Relay/TrackCache/Absent/Apart.antt =====
-- `AbsentRanges::insert` of track_cache.rs, the ranges that do not touch the new one.
use moqtail.Prelude.{
  ℕ, ◌+◌, ◌≤◌, ◌<◌, ◌≡◌, refl, ◌∙◌, List, [], ◌∷◌, ◌++◌, length, ◌||◌, arith, reverse, reverse-cons,
  inl, inr, Bool-cases, All,
}
use moqtail.Relay.TrackCache.{Span}
use moqtail.Relay.TrackCache.Absent.{lo, hi, IsSpan, Separated}
use moqtail.Relay.TrackCache.Absent.Touching.{touches, touching}
use moqtail.Relay.TrackCache.Absent.Absorb.{apart, covers, Far}

covers-append : (xs ys : List Span) (x : ℕ) → covers (xs ++ ys) x ≡ (covers xs x || covers ys x)
covers-append [] ys x = refl
covers-append (s ∷ ss) ys x = ground (arith, covers-append ss ys x)

pub covers-reverse : (ss : List Span) (x : ℕ) → covers (reverse ss) x ≡ covers ss x
covers-reverse [] x = refl
covers-reverse (s ∷ ss) x =
    rw (reverse-cons s ss)
      (covers-append (reverse ss) (s ∷ []) x ∙ ground (arith, covers-reverse ss x))

pub Separated-lower :
    (low low' : ℕ) (ss : List Span) → low' ≤ low → Separated low ss → Separated low' ss
Separated-lower low low' [] h sep = tt
Separated-lower low low' (s ∷ ss) h (is, d, e) = (is, omega arith, e)

All-zip {ℓ κ μ} :
    {A : Type ℓ} (P : A → Type κ) (Q : A → Type μ) (xs : List A)
    → All P xs
    → All Q xs
    → All (λ x. P x × Q x) xs
All-zip P Q [] h k = tt
All-zip P Q (x ∷ xs) (h, hs) (k, ks) = ((h, k), All-zip P Q xs hs ks)

module _ (f t : ℕ) where
  pub covers-touching-apart :
      (ss : List Span) (x : ℕ)
      → covers ss x ≡ (covers (touching f t ss) x || covers (apart f t ss) x)
  covers-touching-apart [] x = refl
  covers-touching-apart (s ∷ ss) x = elim (Bool-cases (touches f t s)) [
    | inl k ↦ rw k (ground (arith, covers-touching-apart ss x))
    | inr k ↦ rw k (ground (arith, covers-touching-apart ss x))
  ]

  pub touching-IsSpan : (low : ℕ) (ss : List Span) → Separated low ss → All IsSpan (touching f t ss)
  touching-IsSpan low [] sep = tt
  touching-IsSpan low (s ∷ ss) (is, d, e) = elim (Bool-cases (touches f t s)) [
    | inl k ↦ rw k (is, touching-IsSpan (hi s + 2) ss e)
    | inr k ↦ rw k (touching-IsSpan (hi s + 2) ss e)
  ]

  pub apart-IsSpan : (low : ℕ) (ss : List Span) → Separated low ss → All IsSpan (apart f t ss)
  apart-IsSpan low [] sep = tt
  apart-IsSpan low (s ∷ ss) (is, d, e) = elim (Bool-cases (touches f t s)) [
    | inl k ↦ rw k (apart-IsSpan (hi s + 2) ss e)
    | inr k ↦ rw k (is, apart-IsSpan (hi s + 2) ss e)
  ]

  pub apart-Separated : (low : ℕ) (ss : List Span) → Separated low ss → Separated low (apart f t ss)
  apart-Separated low [] sep = tt
  apart-Separated low (s ∷ ss) (is, d, e) = elim (Bool-cases (touches f t s)) [
    | inl k ↦ rw k (
        Separated-lower (hi s + 2) low (apart f t ss) (omega (arith, is.2))
          (apart-Separated (hi s + 2) ss e))
    | inr k ↦ rw k (is, d, apart-Separated (hi s + 2) ss e)
  ]

  -- What does not touch a range is far from it.
  pub apart-Far_range :
      (r : Span) (ss : List Span) → lo r ≡ f → hi r ≡ t → All (λ q. Far q r) (apart f t ss)
  apart-Far_range r [] h k = tt
  apart-Far_range r (s ∷ ss) h k = elim (Bool-cases (touches f t s)) [
    | inl e ↦ rw e (apart-Far_range r ss h k)
    | inr e ↦ rw e (ground arith, apart-Far_range r ss h k)
  ]

  above-Far-touching :
      (s : Span) (low : ℕ) (ss : List Span)
      → hi s + 1 < low
      → Separated low ss
      → All (Far s) (touching f t ss)
  above-Far-touching s low [] h sep = tt
  above-Far-touching s low (r ∷ rs) h ((a, b, c), d, e) =
      let rest = above-Far-touching s (hi r + 2) rs (omega arith) e in
      elim (Bool-cases (touches f t r)) [
        | inl k ↦ rw k (inl (omega arith), rest)
        | inr k ↦ rw k rest
      ]

  above-Far-apart :
      (s : Span) (low : ℕ) (ss : List Span)
      → hi s + 1 < low
      → Separated low ss
      → All (λ q. Far q s) (apart f t ss)
  above-Far-apart s low [] h sep = tt
  above-Far-apart s low (r ∷ rs) h ((a, b, c), d, e) =
      let rest = above-Far-apart s (hi r + 2) rs (omega arith) e in
      elim (Bool-cases (touches f t r)) [
        | inl k ↦ rw k rest
        | inr k ↦ rw k (inr (omega arith), rest)
      ]

  pub apart-Far-touching :
      (low : ℕ) (ss : List Span)
      → Separated low ss
      → All (λ q. All (Far q) (touching f t ss)) (apart f t ss)
  apart-Far-touching low [] sep = tt
  apart-Far-touching low (s ∷ ss) (is, d, e) =
      let rest = apart-Far-touching (hi s + 2) ss e in
      elim (Bool-cases (touches f t s)) [
        | inl k ↦ rw k (
            All-zip (λ q. Far q s) (λ q. All (Far q) (touching f t ss)) (apart f t ss)
              (above-Far-apart s (hi s + 2) ss (omega arith) e) rest)
        | inr k ↦ rw k (above-Far-touching s (hi s + 2) ss (omega arith) e, rest)
      ]

  pub length-apart : (ss : List Span) → length (apart f t ss) ≤ length ss
  length-apart [] = omega arith
  length-apart (s ∷ ss) = elim (Bool-cases (touches f t s)) [
    | inl k ↦ rw k (omega (arith, length-apart ss))
    | inr k ↦ rw k (omega (arith, length-apart ss))
  ]
