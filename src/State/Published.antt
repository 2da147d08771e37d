-- ===== src/State/Published.antt =====
-- A policy transaction keeps the pins apart if its update does.
use friendzone.Prelude.{
  ◌≡◌, refl, sym, subst, ◌∙◌, arith, inl, inr, String, Bool, true, false, Option, none, some,
  string_eq, any,
}
use mathlib.Core.Option
use friendzone.Prelude.Map.{lookup}
use friendzone.Prelude.Result.{Result, ok, err}
use friendzone.Review.{QueueState}
use friendzone.State.{ContainerRecord, Containers, StateError, AppState, Env}
use friendzone.State.Policy.{Killed, Update, invalidate, publish, update_policy}
use friendzone.State.Transaction.{IsAtomic, update_policy-IsAtomic}
use friendzone.State.Epochs.{renewed, finds, lookup-invalidate, update_policy-ok}
use friendzone.State.Pins.{IsUniquelyPinned, IsKept}

-- A fresh epoch leaves the pin.
renewed-pin :
    (env : Env) (name : String) (b : Bool) (o : Option ContainerRecord) {r : ContainerRecord}
    → Option.map (renewed env name b) o ≡ some r
    → (q : ContainerRecord) × (o ≡ some q) × (q.pinned_ip ≡ r.pinned_ip)
renewed-pin env name b none h = cc
renewed-pin env name true (some q) h = (q, refl, ground arith)
renewed-pin env name false (some q) h = (q, refl, ground arith)

invalidate-IsUniquelyPinned :
    (env : Env) (before killed : Killed) (old m : Containers) (q : QueueState)
    → IsUniquelyPinned m
    → IsUniquelyPinned (invalidate env before killed old (m, q)).0
unfolding IsUniquelyPinned
invalidate-IsUniquelyPinned env before killed old m w u = λ a b r q ip ea eb pa pb.
    let (r', fa, ga) =
      renewed-pin env a (any (finds before killed m a) old) (lookup a m)
        (sym (lookup-invalidate env before killed a old m w) ∙ ea) in
    let (q', fb, gb) =
      renewed-pin env b (any (finds before killed m b) old) (lookup b m)
        (sym (lookup-invalidate env before killed b old m w) ∙ eb) in
    u a b r' q' ip fa fb (ga ∙ pa) (gb ∙ pb)

pub update_policy-IsUniquelyPinned :
    (env : Env) (update : Update) (s : AppState)
    → IsUniquelyPinned s.state.containers
    → IsKept (update s.state.containers s.state.killed)
    → IsUniquelyPinned (update_policy env update s).1.state.containers
unfolding IsKept IsAtomic publish update_policy
update_policy-IsUniquelyPinned env update s u k = go (update s.state.containers s.state.killed) refl
  where
    go :
        (o : Result StateError (Containers × Killed))
        → update s.state.containers s.state.killed ≡ o
        → IsUniquelyPinned (update_policy env update s).1.state.containers
    go (err e) h = rw (h, update_policy) u
    go (ok (m, killed)) h = elim (update_policy-IsAtomic env update s) [
      | inl w ↦
          let (path, e) = update_policy-ok env update s h (w.0) in
          subst (λ x. IsUniquelyPinned x.state.containers) (sym e)
            (invalidate-IsUniquelyPinned env s.state.killed killed s.state.containers m s.reviews
              (k m killed h))
      | inr (f, q, t, reviews, disk) ↦ subst (λ x. IsUniquelyPinned x.containers) (sym t) u
    ]
