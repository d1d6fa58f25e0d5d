-- ===== src/Wire/Buffer.antt =====
-- The read buffer. A `Bytes` is the list of the bytes that are still unread; what a call reads is
-- taken off the front, and the rest is returned beside the result. (After an error the callers give
-- the buffer up, so its contents are not returned then.)
use moqtail.Prelude.{
  ℕ, zero, suc, ◌+◌, ◌-◌, Option, none, some, ◌^◌, ◌<◌, ◌≤◌, ◌≡◌, refl, ap, List, [], ◌∷◌, ◌++◌,
  arith, length, length-append, take, drop, ltb, leb, le→leb, if◌then◌else◌,
}
use moqtail.Wire.Outcome.{Outcome, ok, err, panicked, casting_error}

abbrev pub Bytes : Type 0
Bytes = List ℕ

abbrev pub IsU64 : ℕ → Type 0
IsU64 v = v < 2 ^ 64

abbrev pub u64_max : ℕ
u64_max = 0xffff_ffff_ffff_ffff

abbrev pub AllBytes : Bytes → Type 0
AllBytes [] = Unit {0}
AllBytes (b ∷ bs) = (b < 256) × AllBytes bs

pub AllBytes-append : (xs ys : Bytes) → AllBytes xs → AllBytes ys → AllBytes (xs ++ ys)
AllBytes-append [] ys h k = k
AllBytes-append (x ∷ xs) ys h k = (h.0, AllBytes-append xs ys h.1 k)

pub AllBytes-drop : (n : ℕ) (xs : Bytes) → AllBytes xs → AllBytes (drop n xs)
AllBytes-drop zero xs h = h
AllBytes-drop (suc n) [] h = tt
AllBytes-drop (suc n) (x ∷ xs) h = AllBytes-drop n xs h.1

-- `get_u8` panics on an empty buffer.
abbrev pub get_u8 : Bytes → Outcome (ℕ × Bytes)
get_u8 [] = panicked
get_u8 (b ∷ bs) = ok (b, bs)

-- `copy_to_bytes(len)` panics if fewer than `len` bytes are left.
abbrev pub copy_to_bytes : Bytes → ℕ → Outcome (Bytes × Bytes)
copy_to_bytes bs n = if leb n (length bs) then ok (take n bs, drop n bs) else panicked

-- `checked_add` and `checked_sub` of u64
abbrev pub checked_add : ℕ → ℕ → Option ℕ
checked_add a b = if ltb (a + b) (2 ^ 64) then some (a + b) else none

abbrev pub checked_sub : ℕ → ℕ → Option ℕ
checked_sub a b = if leb b a then some (a - b) else none

-- `u64` to `usize` by `try_into`, on a target whose `usize` has 64 bits.
abbrev pub to_usize : ℕ → Outcome ℕ
to_usize v = if ltb v (2 ^ 64) then ok v else err casting_error

module _ {ℓ} {A : Type ℓ} where
  pub take-length_append : (xs ys : List A) → take (length xs) (xs ++ ys) ≡ xs
  take-length_append [] ys = refl
  take-length_append (x ∷ xs) ys = ap (λ l. x ∷ l) (take-length_append xs ys)

  pub drop-length_append : (xs ys : List A) → drop (length xs) (xs ++ ys) ≡ ys
  drop-length_append [] ys = refl
  drop-length_append (x ∷ xs) ys = drop-length_append xs ys

-- Reading as many bytes as were written in front gives these bytes, and the rest.
pub copy_to_bytes-append : (xs ys : Bytes) → copy_to_bytes (xs ++ ys) (length xs) ≡ ok (xs, ys)
copy_to_bytes-append xs ys =
    rw (le→leb (length xs) (length (xs ++ ys)) fits, take-length_append, drop-length_append)
  where
    fits : length xs ≤ length (xs ++ ys)
    fits = omega (arith, length-append xs ys)
