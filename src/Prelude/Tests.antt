-- ===== src/Prelude/Tests.antt =====
-- Boolean tests, and equality as an interface.
use Prim.Native.Nat.{ℕ, compare, Ordering}
use Prim.Native.String.{String}
use mathlib.Core.Path.{◌≡◌, refl}
use mathlib.Core.Logic.{◌↔◌, ◌⊎◌, inl, inr}
use mathlib.Core.Bool.{Bool, true, false, ◌&&◌, ◌||◌}
use mathlib.Core.Option.{Option, none, some}
use native.Mathlib.Omega.{arith}
use text.Mathlib.Text.{◌==◌ as str_eq}
use text.Mathlib.TextEquality.{eq_iff}
pub use text.Mathlib.TextEquality.{eq_iff as str_eq_iff}

abbrev pub ltb : ℕ → ℕ → Bool
ltb a b = elim (compare a b) [ Ordering.lt ↦ true | _ ↦ false ]

abbrev pub leb : ℕ → ℕ → Bool
leb a b = elim (compare a b) [ Ordering.gt ↦ false | _ ↦ true ]

abbrev pub nat_beq : ℕ → ℕ → Bool
nat_beq a b = elim (compare a b) [ Ordering.eq ↦ true | _ ↦ false ]

infix 1 if◌then◌else◌
abbrev pub if◌then◌else◌ {ℓ} : {A : Type ℓ} → Bool → A → A → A
if true then x else y = x
if false then x else y = y

pub record Eq {κ} (B : Type κ) : Type κ where
  pub beq : (x y : B) → Bool
  pub beq_iff : (x y : B) → (beq x y ≡ true) ↔ (x ≡ y)

-- `==` of `PartialEq`.
infix 50 ◌==◌
abbrev pub ◌==◌ {κ} : {B : Type κ} ⦃eq : Eq B⦄ → B → B → Bool
◌==◌ ⦃eq⦄ = eq.beq

pub eq_self {ℓ} : {A : Type ℓ} ⦃e : Eq A⦄ (a : A) → (a == a) ≡ true
eq_self ⦃e⦄ a = (e.beq_iff a a).1 refl

pub nat_beq_iff : (a b : ℕ) → (nat_beq a b ≡ true) ↔ (a ≡ b)
nat_beq_iff a b = (λ h. ground arith, λ h. ground arith)

instance abbrev pub nat_eq : Eq ℕ
nat_eq = record { beq = nat_beq; beq_iff = nat_beq_iff }

instance abbrev pub string_eq : Eq String
string_eq = record { beq = str_eq; beq_iff = eq_iff }

-- Equality of optional values, `Option<T> == Option<T>` in Rust.
module _ {ℓ} {A : Type ℓ} ⦃e : Eq A⦄ where
  abbrev pub option_beq : Option A → Option A → Bool
  option_beq none none = true
  option_beq none (some b) = false
  option_beq (some a) none = false
  option_beq (some a) (some b) = a == b

  pub option_beq_iff : (a b : Option A) → (option_beq a b ≡ true) ↔ (a ≡ b)
  option_beq_iff none none = (λ h. refl, λ h. refl)
  option_beq_iff none (some b) = (λ h. cc, λ h. cc)
  option_beq_iff (some a) none = (λ h. cc, λ h. cc)
  option_beq_iff (some a) (some b) =
      (λ h. ground (arith, e.beq_iff a b), λ h. ground (arith, e.beq_iff a b))

  instance abbrev pub option_eq : Eq (Option A)
  option_eq = record { beq = option_beq; beq_iff = option_beq_iff }

pub Bool-cases : (b : Bool) → (b ≡ true) ⊎ (b ≡ false)
Bool-cases true = inl refl
Bool-cases false = inr refl

pub Option-cases {ℓ} : {A : Type ℓ} (o : Option A) → (o ≡ none) ⊎ ((a : A) × (o ≡ some a))
Option-cases none = inl refl
Option-cases (some a) = inr (a, refl)

abbrev pub is_none {ℓ} : {A : Type ℓ} → Option A → Bool
is_none none = true
is_none (some _) = false

abbrev pub is_some {ℓ} : {A : Type ℓ} → Option A → Bool
is_some none = false
is_some (some _) = true

-- `is_some_and` and `is_none_or` of `Option`.
abbrev pub is_some_and {ℓ} : {A : Type ℓ} → Option A → (A → Bool) → Bool
is_some_and none p = false
is_some_and (some a) p = p a

abbrev pub is_none_or {ℓ} : {A : Type ℓ} → Option A → (A → Bool) → Bool
is_none_or none p = true
is_none_or (some a) p = p a

abbrev pub unwrap_or {ℓ} : {A : Type ℓ} → Option A → A → A
unwrap_or none d = d
unwrap_or (some a) d = a

pub and-eq-true : (a b : Bool) → (a && b) ≡ true → (a ≡ true) × (b ≡ true)
and-eq-true true b h = (refl, h)
and-eq-true false b h = cc

pub or-eq-false : (a b : Bool) → (a || b) ≡ false → (a ≡ false) × (b ≡ false)
or-eq-false true b h = cc
or-eq-false false b h = (refl, h)

pub or-eq-true : (a b : Bool) → (a || b) ≡ true → (a ≡ true) ⊎ (b ≡ true)
or-eq-true true b h = inl refl
or-eq-true false b h = inr h

pub or-true_right : (a : Bool) {b : Bool} → b ≡ true → (a || b) ≡ true
or-true_right true h = refl
or-true_right false h = h
