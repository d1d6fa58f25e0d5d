-- ===== src/Wire/Varint/Truncated.antt =====
-- `get_vi` on input that is cut short, and on input with more bytes behind the number.
use moqtail.Prelude.{
  ℕ, zero, suc, ◌+◌, ◌-◌, ◌^◌, ◌<◌, ◌≤◌, bit_and, ◌≡◌, refl, Bool-cases, ◌⊎◌, inl, inr, [], ◌∷◌,
  ◌++◌, append-nil, length, length-append, ltb, leb, if◌then◌else◌, arith,
}
use moqtail.Wire.Outcome.{Outcome, ok, err, not_enough_bytes}
use moqtail.Wire.Buffer.{Bytes, IsU64}
use moqtail.Wire.Varint.{leading_ones, read_extra, get_vi_rest, get_vi, vi}
use moqtail.Wire.Varint.RoundTrip.{get_vi-vi}

read_extra_total :
    (n : ℕ) (bs : Bytes) (val : ℕ) → n ≤ length bs → (p : ℕ × Bytes) × (read_extra n bs val ≡ ok p)
unfolding read_extra
read_extra_total zero bs val h = ((val, bs), refl)
read_extra_total (suc n) [] val h = absurd (omega arith)
read_extra_total (suc n) (b ∷ bs) val h = read_extra_total n bs _ (omega arith)

abbrev pub IsVarintAnswer : Bytes → Outcome (ℕ × Bytes) → Type 0
IsVarintAnswer bs r =
    ((p : ℕ × Bytes) × (r ≡ ok p))
    ⊎ ((needed : ℕ) × (r ≡ err (not_enough_bytes needed (length bs))) × (length bs < needed))

get_vi_rest_cases :
    (first : ℕ) (rest : Bytes) → IsVarintAnswer (first ∷ rest) (get_vi_rest first rest)
unfolding get_vi_rest
get_vi_rest_cases first rest =
    let n = leading_ones 8 first + 1 in
    let start = if leb n 8 then bit_and first (2 ^ (8 - n) - 1) else 0 in
    elim (Bool-cases (ltb (length rest) (n - 1))) [
      | inl short ↦ inr (leading_ones 8 first + 1, ground arith, ground arith)
      | inr enough ↦
          let (p, e) = read_extra_total (n - 1) rest start (ground arith) in inl (p, rw (enough) e)
    ]

-- `get_vi` either returns a value, or answers that more bytes are needed than the input has.
pub get_vi_cases : (bs : Bytes) → IsVarintAnswer bs (get_vi bs)
get_vi_cases [] = inr (1, unfold get_vi in refl, omega arith)
get_vi_cases (first ∷ rest) = unfold get_vi in get_vi_rest_cases first rest

read_extra-append :
    (n : ℕ) (bs more : Bytes) (val v : ℕ) (rest : Bytes)
    → read_extra n bs val ≡ ok (v, rest)
    → read_extra n (bs ++ more) val ≡ ok (v, rest ++ more)
unfolding read_extra
read_extra-append zero bs more val v rest e = cc
read_extra-append (suc n) [] more val v rest e = cc
read_extra-append (suc n) (b ∷ bs) more val v rest e = read_extra-append n bs more _ v rest e

get_vi_rest-append :
    (first : ℕ) (bs more : Bytes) (v : ℕ) (rest : Bytes)
    → get_vi_rest first bs ≡ ok (v, rest)
    → get_vi_rest first (bs ++ more) ≡ ok (v, rest ++ more)
unfolding get_vi_rest
get_vi_rest-append first bs more v rest e =
    let n = leading_ones 8 first + 1 in
    let start = if leb n 8 then bit_and first (2 ^ (8 - n) - 1) else 0 in
    ground (arith, length-append bs more, read_extra-append (n - 1) bs more start v rest)

-- `get_vi` does not look past the number: bytes added behind an input that it reads join the
-- rest.
pub get_vi-append :
    (bs more : Bytes) (v : ℕ) (rest : Bytes)
    → get_vi bs ≡ ok (v, rest)
    → get_vi (bs ++ more) ≡ ok (v, rest ++ more)
get_vi-append [] more v rest e = unfold get_vi in cc
get_vi-append (first ∷ bs) more v rest e =
    unfold get_vi in get_vi_rest-append first bs more v rest (unfold get_vi in e)

-- On every proper prefix of what `put_vi` writes for a u64, `get_vi` asks for more bytes than the
-- prefix has.
pub get_vi_truncated :
    (v x : ℕ) (front back : Bytes)
    → IsU64 v
    → vi v ≡ front ++ (x ∷ back)
    → (needed : ℕ) × (get_vi front ≡ err (not_enough_bytes needed (length front)))
      × (length front < needed)
get_vi_truncated v x front back h e = elim (get_vi_cases front) [
  | inl ((u, rest), r) ↦ absurd (
      ground (arith, whole, get_vi-append front (x ∷ back) u rest r, length-append rest (x ∷ back)))
  | inr short ↦ short
]
  where
    whole : get_vi (front ++ (x ∷ back)) ≡ ok (v, [])
    whole = rw (append-nil, e) at (get_vi-vi v [] h)
