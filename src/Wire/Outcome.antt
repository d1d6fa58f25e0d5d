-- ===== src/Wire/Outcome.antt =====
-- libs/moqtail-rs/src/model/error/parse.rs, and the outcome of a call that may fail.
-- The texts of an error (its context and details, meant for logs) are left out.
use moqtail.Prelude.{ℕ, ◌≡◌, refl, ◌≢◌, Option, none, some, Bool, true, false, ◌⊎◌, inl, inr}

pub data ParseError : Type 0 where
  not_enough_bytes : ℕ → ℕ → ParseError
  casting_error : ParseError
  length_exceeds_max : ℕ → ℕ → ParseError
  key_value_formatting_error : ParseError
  invalid_type : ParseError
  invalid_utf8 : ParseError
  protocol_violation : ParseError
  track_name_error : ParseError
  track_alias_error : ParseError
  timeout : ParseError
  other : ParseError

-- `ok` and `err` are Rust's; `panicked` is a call that panics.
pub data Outcome {ℓ} (A : Type ℓ) : Type ℓ where
  ok : A → Outcome A
  err : ParseError → Outcome A
  panicked : Outcome A

infixl 5 ◌>>=◌ ◌>>◌
abbrev pub ◌>>=◌ {ℓ κ} : {A : Type ℓ} {B : Type κ} → Outcome A → (A → Outcome B) → Outcome B
ok a >>= f = f a
err e >>= f = err e
panicked >>= f = panicked

abbrev pub ◌>>◌ {ℓ} : {B : Type ℓ} → Outcome (Unit {0}) → Outcome B → Outcome B
m >> k = m >>= λ _. k

-- `.map_err(|_| ProtocolViolation)`
abbrev pub as_violation {ℓ} : {A : Type ℓ} → Outcome A → Outcome A
as_violation (ok a) = ok a
as_violation (err e) = err protocol_violation
as_violation panicked = panicked

-- `o.ok_or(e)?`
abbrev pub ok_or {ℓ} : {A : Type ℓ} → Option A → ParseError → Outcome A
ok_or (some a) e = ok a
ok_or none e = err e

-- `if !b { return Err(e) }`
abbrev pub guard : Bool → ParseError → Outcome (Unit {0})
guard true e = ok tt
guard false e = err e

pub Outcome-cases {ℓ} :
    {A : Type ℓ} (r : Outcome A)
    → r ≢ panicked
    → ((a : A) × (r ≡ ok a)) ⊎ ((e : ParseError) × (r ≡ err e))
Outcome-cases (ok a) h = inl (a, refl)
Outcome-cases (err e) h = inr (e, refl)
Outcome-cases panicked h = absurd (h refl)

-- A chain of calls does not panic if no call of it does.
pub >>=-ne-panicked {ℓ κ} :
    {A : Type ℓ} {B : Type κ} (m : Outcome A) (f : A → Outcome B)
    → m ≢ panicked
    → ((a : A) → m ≡ ok a → f a ≢ panicked)
    → (m >>= f) ≢ panicked
>>=-ne-panicked (ok a) f h k = k a refl
>>=-ne-panicked (err e) f h k = λ p. cc
>>=-ne-panicked panicked f h k = absurd (h refl)

-- A chain that succeeds has a first call that succeeds, on whose value the rest succeeds.
pub >>=-eq-ok {ℓ κ} :
    {A : Type ℓ} {B : Type κ} (first : Outcome A) (then_call : A → Outcome B) {result : B}
    → (first >>= then_call) ≡ ok result
    → (value : A) × (first ≡ ok value) × (then_call value ≡ ok result)
>>=-eq-ok panicked then_call done = cc
>>=-eq-ok (err e) then_call done = cc
>>=-eq-ok (ok value) then_call done = (value, refl, done)

pub ok_injective {ℓ} : {A : Type ℓ} {a b : A} → ok a ≡ ok b → a ≡ b
ok_injective {a} {b} e = cc

pub guard-eq-ok : (b : Bool) (e : ParseError) {u : Unit {0}} → guard b e ≡ ok u → b ≡ true
guard-eq-ok true e h = refl
guard-eq-ok false e h = cc
