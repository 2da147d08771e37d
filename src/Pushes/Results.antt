-- ===== src/Pushes/Results.antt =====
-- The steps of a function that may fail, from its success.
use friendzone.Prelude.{
  ◌≡◌, ◌≢◌, refl, sym, ap, ◌∙◌, Bool, true, false, not, Option, none, some, arith, nat_eq,
  nat_beq_iff, Eq, ◌==◌,
}
use friendzone.Prelude.Map.{Map, lookup, insert, lookup-insert}
use friendzone.Github.{Uuid}
use friendzone.Prelude.Result.{Result, ok, err, ◌>>=◌, bail_if, context}
use friendzone.Pushes.{Job, PushError}

-- A result that goes on is a result of its first step and of the rest.
pub bind-ok :
    {S T : Type 0} (r : Result PushError S) (k : S → Result PushError T) {t : T}
    → (r >>= k) ≡ ok t
    → (a : S) × (r ≡ ok a) × (k a ≡ ok t)
bind-ok (ok a) k h = (a, refl, h)
bind-ok (err e) k h = ground arith

pub bail-ok : {E : Type 0} (b : Bool) (e : E) {u : Unit {0}} → bail_if b e ≡ ok u → b ≡ false
bail-ok true e h = ground arith
bail-ok false e h = refl

pub context-ok : {E A : Type 0} (o : Option A) (e : E) {a : A} → context o e ≡ ok a → o ≡ some a
context-ok none e h = ground arith
context-ok (some b) e h = ground arith

pub not-false : (b : Bool) → not b ≡ false → b ≡ true
not-false b h = ground arith

pub ok-inj : {A : Type 0} {a b : A} {r : Result PushError A} → r ≡ ok a → r ≡ ok b → a ≡ b
ok-inj {A} {a} {b} p q = ap (λ r. value r) (sym p ∙ q)
  where
    value : Result PushError A → A
    value (ok c) = c
    value (err _) = a

pub lookup-insert_self :
    (id : Uuid) (job : Job) (jobs : Map Uuid Job) → lookup id (insert id job jobs) ≡ some job
lookup-insert_self id job jobs = ground (arith, nat_beq_iff id id, lookup-insert id id job jobs)

-- An equality that a test has refused to deny.
pub equal-from : {A : Type 0} ⦃e : Eq A⦄ (a b : A) → not (a == b) ≡ false → a ≡ b
equal-from ⦃e⦄ a b h = (e.beq_iff a b).0 (not-false (a == b) h)

pub none≢some : {A : Type 0} {a : A} → none ≢ some a
none≢some h = ground arith

pub some≢none : {A : Type 0} {a : A} → some a ≢ none
some≢none h = ground arith

pub some-inj : {A : Type 0} {a b : A} → some a ≡ some b → a ≡ b
some-inj h = cc
