-- ===== src/State/Transaction.antt =====
-- `AppState::update_policy` as a transaction over the file, the registry and the reviews.
use friendzone.Prelude.{
  ◌≡◌, refl, ap, arith, ◌⊎◌, inl, inr, ℕ, String, Option, some, List, [], ◌∷◌, map, filter,
  string_eq, option_eq, nat_eq, Option-cases, Bool-cases,
}
use mathlib.Core.Option
use friendzone.Prelude.Map.{lookup, insert}
use friendzone.Prelude.Result.{Result, ok, err}
use friendzone.Storage.{atomic_write}
use friendzone.Storage.Atomic.{atomic_write_lem}
use friendzone.Review.{QueueState}
use friendzone.State.{
  ContainerRecord, SavedContainer, SavedContainers, Containers, AppState, Env, StateError,
  not_saved, notify,
}
use friendzone.State.Policy.{
  Killed, Update, saved_container, saved_policy, is_changed, renew_epoch, invalidate, publish,
  commit, update_policy,
}

abbrev entries : Killed → Containers → List SavedContainer
entries killed m = map (saved_container killed) (filter (λ e. (e.1).managed) m)

-- The file never sees an epoch.
entries-insert :
    (killed : Killed) (name : String) (epoch : ℕ) (m : Containers) (r : ContainerRecord)
    → lookup name m ≡ some r
    → entries killed (insert name (record r { policy_epoch = epoch }) m) ≡ entries killed m
unfolding lookup insert saved_container
entries-insert killed name epoch [] r h = cc
entries-insert killed name epoch ((j, w) ∷ m) r h =
    ground (arith, string_eq.beq_iff j name, entries-insert killed name epoch m r)

entries-renew_epoch :
    (env : Env) (killed : Killed) (name : String) (m : Containers)
    → entries killed (renew_epoch env name m) ≡ entries killed m
unfolding renew_epoch
entries-renew_epoch env killed name m = elim (Option-cases (lookup name m)) [
  | inl n ↦ rw (n, renew_epoch)
  | inr (r, e) ↦ rw (e, renew_epoch, entries-insert killed name (env.new_epoch name) m r e)
]

entries-invalidate :
    (env : Env) (before killed k : Killed) (old m : Containers) (q : QueueState)
    → entries k ((invalidate env before killed old (m, q)).0) ≡ entries k m
unfolding invalidate
entries-invalidate env before killed k [] m q = refl
entries-invalidate env before killed k ((name, r) ∷ rest) m q =
    elim (Bool-cases (is_changed before killed m name r)) [
      | inl t ↦ rw (
        t,
        invalidate,
        entries-invalidate env before killed k rest,
        entries-renew_epoch env k name m,
      )
      | inr f ↦ rw (f, invalidate, entries-invalidate env before killed k rest)
    ]

-- What the file holds, if policy is saved.
unfoldable pub file : AppState → Option (Option SavedContainers)
file s = Option.map (λ d. d.target) s.policy_path

-- The file, if there is one, holds the policy in memory.
unfoldable pub IsSaved : AppState → Type 0
unfolding file
IsSaved s =
    file s ≡ Option.map (λ _. some (saved_policy s.state.containers s.state.killed)) s.policy_path

publish-IsSaved :
    (env : Env) (m : Containers) (killed : Killed) (s : AppState)
    → file s ≡ Option.map (λ _. some (saved_policy m killed)) s.policy_path
    → IsSaved (publish env m killed s)
unfolding publish notify saved_policy IsSaved file
publish-IsSaved env m killed s h =
    rw (entries-invalidate env s.state.killed killed killed s.state.containers m s.reviews) h

-- The outcome of a transaction that started in `s`: all of it, or nothing.
unfoldable pub IsAtomic : AppState → Result StateError (Unit {0}) → AppState → Type 0
unfolding file
IsAtomic s r s' =
    ((r ≡ ok tt) × IsSaved s')
    ⊎ ((e : StateError) × (r ≡ err e)
        × (s'.state ≡ s.state)
        × (s'.reviews ≡ s.reviews)
        × (file s' ≡ file s))

commit-IsAtomic :
    (env : Env) (m : Containers) (killed : Killed) (s : AppState)
    → let (r, s') = commit env m killed s in IsAtomic s r s'
unfolding commit IsAtomic
commit-IsAtomic env m killed s = elim (Option-cases s.policy_path) [
  | inl n ↦ rw (n, commit) (inl (refl, publish-IsSaved env m killed s (rw n refl)))
  | inr (dir, e) ↦ elim (atomic_write_lem env.faults (saved_policy m killed) dir) [
    | inl w ↦
        rw (e, commit, w.0)
          (inl (
            refl,
            publish-IsSaved env m killed
                (record s {
                  policy_path = some ((atomic_write env.faults (saved_policy m killed) dir).1);
                })
                (ap some (w.1)),
          ))
    | inr w ↦ rw (e, commit, w.0) (inr (not_saved, refl, refl, refl, ap some (w.1)))
  ]
]

-- A policy change that succeeds leaves the file, if there is one, with the policy that is then in
-- memory; one that fails leaves the registry, the reviews and the file's contents as they were.
pub update_policy-IsAtomic :
    (env : Env) (update : Update) (s : AppState)
    → let (r, s') = update_policy env update s in IsAtomic s r s'
unfolding update_policy IsAtomic
update_policy-IsAtomic env update s = go (update s.state.containers s.state.killed) refl
  where
    go :
        (o : Result StateError (Containers × Killed))
        → update s.state.containers s.state.killed ≡ o
        → let (r, s') = update_policy env update s in IsAtomic s r s'
    go (err e) h = rw (h, update_policy) (inr (e, refl, refl, refl, refl))
    go (ok (m, killed)) h = rw (h, update_policy) (commit-IsAtomic env m killed s)
