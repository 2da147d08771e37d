-- ===== src/Prelude/Result.antt =====
-- The outcome of a fallible operation; each component has its own errors.
use mathlib.Core.Bool.{Bool, true, false}
use mathlib.Core.Option.{Option, none, some}
use mathlib.Core.Path.{◌≡◌, refl}
use mathlib.Core.Logic.{◌⊎◌, inl, inr}

pub data Result {ℓ} (E : Type 0) (A : Type ℓ) : Type ℓ where
  ok : A → Result E A
  err : E → Result E A

infixl 5 ◌>>=◌ ◌>>◌
abbrev pub ◌>>=◌ {ℓ κ} :
    {E : Type 0} {A : Type ℓ} {B : Type κ} → Result E A → (A → Result E B) → Result E B
ok a >>= f = f a
err e >>= f = err e

abbrev pub ◌>>◌ {ℓ} : {E : Type 0} {B : Type ℓ} → Result E (Unit {0}) → Result E B → Result E B
m >> k = m >>= λ _. k

-- `if test { bail!(e) }`.
abbrev pub bail_if : {E : Type 0} → Bool → E → Result E (Unit {0})
bail_if true e = err e
bail_if false e = ok tt

-- `option.context(e)?`.
abbrev pub context {ℓ} : {E : Type 0} {A : Type ℓ} → Option A → E → Result E A
context none e = err e
context (some a) e = ok a

-- The outcome of a result, with the equation that it satisfies.
pub Result-cases :
    {E A : Type 0} (r : Result E A) → ((e : E) × (r ≡ err e)) ⊎ ((a : A) × (r ≡ ok a))
Result-cases (ok a) = inr (a, refl)
Result-cases (err e) = inl (e, refl)
