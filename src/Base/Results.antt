-- ===== src/Base/Results.antt =====
-- A value or an error, with `do`.
use mathlib.Core.Path.{◌≡◌, refl}
use mathlib.Core.Bool.{Bool, true, false}
use mathlib.Core.Option.{Option, none, some}
use mathlib.Core.Logic.{◌⊎◌, inl, inr}

infixl 5 ◌>>=◌ ◌>>◌
abbrev pub ◌>>=◌ {ℓ κ ν} : {E : Type ℓ} {A : Type κ} {B : Type ν} → E ⊎ A → (A → E ⊎ B) → E ⊎ B
inl e >>= f = inl e
inr a >>= f = f a

abbrev pub ◌>>◌ {ℓ κ} : {E : Type ℓ} {B : Type κ} → E ⊎ Unit {0} → E ⊎ B → E ⊎ B
m >> k = m >>= λ _. k

-- The error `e` if the test fails.
abbrev pub require {ℓ} : {E : Type ℓ} → Bool → E → E ⊎ Unit {0}
require true e = inr tt
require false e = inl e

-- What is found, or the error `e`.
abbrev pub found {ℓ κ} : {E : Type ℓ} {A : Type κ} → Option A → E → E ⊎ A
found none e = inl e
found (some a) e = inr a

-- A chain that succeeds has succeeded in its first step.
pub >>=-eq-inr {ℓ κ ν} :
    {E : Type ℓ} {A : Type κ} {B : Type ν} (m : E ⊎ A) (f : A → E ⊎ B) {b : B}
    → (m >>= f) ≡ inr b
    → (a : A) × (m ≡ inr a) × (f a ≡ inr b)
>>=-eq-inr (inr a) f h = (a, refl, h)
>>=-eq-inr (inl e) f h = cc

pub require-eq-inr {ℓ} :
    {E : Type ℓ} (b : Bool) (e : E) {u : Unit {0}} → require b e ≡ inr u → b ≡ true
require-eq-inr true e h = refl
require-eq-inr false e h = cc
