-- ===== src/Prelude/Options.antt =====
-- Chains of options: `?` on an Option in Rust.
use mathlib.Core.Path.{◌≡◌, refl}
use mathlib.Core.Option.{Option, none, some}

infixl 5 ◌>>=◌
abbrev pub ◌>>=◌ {ℓ κ} : {A : Type ℓ} {B : Type κ} → Option A → (A → Option B) → Option B
some a >>= f = f a
none >>= f = none

-- A chain that gives a value has a first option with a value, from which the rest gives it.
pub >>=-eq-some {ℓ κ} :
    {A : Type ℓ} {B : Type κ} (first : Option A) (then_get : A → Option B) {result : B}
    → (first >>= then_get) ≡ some result
    → (value : A) × (first ≡ some value) × (then_get value ≡ some result)
>>=-eq-some none then_get done = cc
>>=-eq-some (some value) then_get done = (value, refl, done)

pub some_injective {ℓ} : {A : Type ℓ} {a b : A} → some a ≡ some b → a ≡ b
some_injective {a} {b} e = cc
