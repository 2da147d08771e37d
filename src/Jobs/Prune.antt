-- ===== src/Jobs/Prune.antt =====
-- The pruning of old results: what it removes, what it leaves, and that it ends.
use friendzone.Prelude.{
  ℕ, zero, suc, ◌≤◌, ◌≡◌, ◌≢◌, ◌⊎◌, inl, inr, refl, sym, ap, ◌∙◌, Bool, true, false, none, some, [],
  ◌∷◌, arith, length, ◌==◌, nat_eq, nat_beq_iff, Bool-cases, Option-cases,
}
use friendzone.Prelude.Map.{Map, lookup, insert, remove, lookup-insert, lookup-remove}
use friendzone.Prelude.Counts.{length-remove-le}
use friendzone.Prelude.Result.{Result, ok, err}
use friendzone.Github.{Uuid}
use friendzone.Jobs.{Job, Saved, Env, JobsError, no_capacity, out_of_fuel, automatically_removable}
use friendzone.Jobs.Store.{
  oldest_removable, is_within, without, turn, prune, prune_for_admission, storage_usage, checked,
}

-- Every job stands under its own id, and no id stands twice.
unfoldable pub IsKeyed : Map Uuid Job → Type 0
IsKeyed [] = Unit
IsKeyed ((k, job) ∷ m) = (job.id ≡ k) × (lookup k m ≡ none) × IsKeyed m

pub insert-IsKeyed : (job : Job) (m : Map Uuid Job) → IsKeyed m → IsKeyed (insert job.id job m)
unfolding IsKeyed insert lookup
insert-IsKeyed job [] h = (refl, refl, tt)
insert-IsKeyed job ((k, j) ∷ m) (e, n, h) =
    ground (arith, nat_beq_iff k job.id, lookup-insert job.id k job m, insert-IsKeyed job m h)

pub remove-IsKeyed : (id : Uuid) (m : Map Uuid Job) → IsKeyed m → IsKeyed (remove id m)
unfolding IsKeyed remove
remove-IsKeyed id [] h = tt
remove-IsKeyed id ((k, j) ∷ m) (e, n, h) =
    ground (arith, remove-IsKeyed id m h, lookup-remove id k m)

length-remove-lt :
    (id : Uuid) (m : Map Uuid Job) {job : Job}
    → lookup id m ≡ some job
    → suc (length (remove id m)) ≤ length m
unfolding lookup remove
length-remove-lt id [] h = cc
length-remove-lt id ((k, j) ∷ m) {job} h =
    ground (arith, length-remove-le id m, length-remove-lt id m {job = job})

oldest_removable-cons :
    (env : Env) (id : Uuid) (j : Job) (m : Map Uuid Job) {job : Job}
    → oldest_removable env ((id, j) ∷ m) ≡ some job
    → ((j ≡ job) × (automatically_removable env j ≡ true)) ⊎ (oldest_removable env m ≡ some job)
unfolding oldest_removable
oldest_removable-cons env id j m {job} h = elim (Option-cases (oldest_removable env m)) [
  | inl n ↦ ground arith
  | inr (o, e) ↦ ground arith
]

-- The job that is removed stands in the store under its id, and may be removed.
oldest_removable-some :
    (env : Env) (m : Map Uuid Job) {job : Job}
    → IsKeyed m
    → oldest_removable env m ≡ some job
    → (lookup job.id m ≡ some job) × (automatically_removable env job ≡ true)
unfolding IsKeyed lookup
oldest_removable-some env [] k h = unfold oldest_removable in cc
oldest_removable-some env ((id, j) ∷ m) {job} (e, n, k) h =
    elim (oldest_removable-cons env id j m {job = job} h) [
      | inl (q, r) ↦
          (ground (arith, ap (λ (o : Job). o.id) q), ap (automatically_removable env) (sym q) ∙ r)
      | inr o ↦ ground (arith, nat_beq_iff id job.id, oldest_removable-some env m {job = job} k o)
    ]

-- The entry under `id` after the pruning: what it was, or none, if it might be removed.
unfoldable pub IsPruned : Env → Uuid → Saved → Saved → Type 0
IsPruned env id before after =
    (lookup id after.jobs ≡ lookup id before.jobs)
    ⊎ ((lookup id after.jobs ≡ none)
        × ((job : Job) × (lookup id before.jobs ≡ some job)
            × (automatically_removable env job ≡ true)))

-- `P` holds of a result that is no error.
abbrev pub Gives : (Saved → Type 0) → Result JobsError Saved → Type 0
Gives P (ok saved) = P saved
Gives P (err _) = Unit

module _ (P : Saved → Type 0)
    (removal : (id : Uuid) (saved : Saved) → P saved → P (without id saved)) where
  turn-keeps :
      (env : Env) (again : Job → Result JobsError Saved) (saved : Saved)
      → P saved
      → ((job : Job) → Gives P (again job))
      → Gives P (turn env again saved)
  unfolding turn
  turn-keeps env again saved h k = go (is_within env saved) refl
    where
      go : (r : Result JobsError Bool) → is_within env saved ≡ r → Gives P (turn env again saved)
      go (err e) w = rw (w, turn) tt
      go (ok true) w = rw (w, turn) h
      go (ok false) w = elim (Option-cases (oldest_removable env saved.jobs)) [
        | inl n ↦ rw (w, turn, n) tt
        | inr (job, e) ↦ rw (w, turn, e) (k job)
      ]

  -- The pruning keeps what the removal of a job keeps.
  pub prune-keeps :
      (env : Env) (fuel : ℕ) (saved : Saved) → P saved → Gives P (prune env fuel saved)
  unfolding prune
  prune-keeps env zero saved h = turn-keeps env (λ _. err out_of_fuel) saved h (λ _. tt)
  prune-keeps env (suc fuel) saved h =
      turn-keeps env (λ job. prune env fuel (without job.id saved)) saved h
        (λ job. prune-keeps env fuel (without job.id saved) (removal job.id saved h))

-- What the pruning of `before` may give: a store that fits, or an error of the source.
unfoldable pub IsPruning : Env → Uuid → Saved → Result JobsError Saved → Type 0
IsPruning env id before r =
    ((after : Saved) × (r ≡ ok after)
      × (is_within env after ≡ ok true)
      × IsKeyed after.jobs
      × IsPruned env id before after)
    ⊎ ((e : JobsError) × (r ≡ err e) × (e ≢ out_of_fuel))

turn-IsPruned :
    (env : Env) (id : Uuid) (before : Saved) (job : Job) (after : Saved)
    → lookup job.id before.jobs ≡ some job
    → automatically_removable env job ≡ true
    → IsPruned env id (without job.id before) after
    → IsPruned env id before after
unfolding IsPruned without
turn-IsPruned env id before job after l r p = elim (Bool-cases (job.id == id)) [
  | inl y ↦
      let e : job.id ≡ id = (nat_beq_iff job.id id).0 y in
      inr (
        ground (arith, lookup-remove job.id id before.jobs),
        (job, ap (λ k. lookup k before.jobs) (sym e) ∙ l, r),
      )
  | inr n ↦
      let q : lookup id (remove job.id before.jobs) ≡ lookup id before.jobs =
        ground (arith, lookup-remove job.id id before.jobs) in
      elim p [ inl h ↦ inl (h ∙ q) | inr (h, (j, g, a)) ↦ inr (h, (j, sym q ∙ g, a)) ]
]

is_within-err : (env : Env) (saved : Saved) → is_within env saved ≢ err out_of_fuel
unfolding is_within storage_usage checked
is_within-err env saved h = ground arith

turn-IsPruning :
    (env : Env) (id : Uuid) (before : Saved) (again : Job → Result JobsError Saved)
    → IsKeyed before.jobs
    → ((job : Job)
        → lookup job.id before.jobs ≡ some job
        → automatically_removable env job ≡ true
        → IsPruning env id before (again job))
    → IsPruning env id before (turn env again before)
unfolding turn IsPruning IsPruned
turn-IsPruning env id before again k h = go (is_within env before) refl
  where
    go :
        (r : Result JobsError Bool)
        → is_within env before ≡ r
        → IsPruning env id before (turn env again before)
    go (err e) w = rw (w, turn) (inr (e, refl, λ q. is_within-err env before (w ∙ ap err q)))
    go (ok true) w = rw (w, turn) (inl (before, refl, w, k, inl refl))
    go (ok false) w = elim (Option-cases (oldest_removable env before.jobs)) [
      | inl n ↦ rw (w, turn, n) (inr (no_capacity, refl, λ q. cc))
      | inr (job, e) ↦
          let (l, r) = oldest_removable-some env before.jobs {job = job} k e in
          rw (w, turn, e) (h job l r)
    ]

-- Whatever the fuel, as long as there is one unit for each job.
prune-IsPruning :
    (env : Env) (fuel : ℕ) (id : Uuid) (before : Saved)
    → length before.jobs ≤ fuel
    → IsKeyed before.jobs
    → IsPruning env id before (prune env fuel before)
unfolding prune without IsPruning
prune-IsPruning env zero id before b k =
    turn-IsPruning env id before (λ _. err out_of_fuel) k
      (λ job l r. absurd (omega (arith, length-remove-lt job.id before.jobs {job = job} l)))
prune-IsPruning env (suc fuel) id before b k =
    turn-IsPruning env id before (λ job. prune env fuel (without job.id before)) k
      (λ job l r.
        elim (prune-IsPruning env fuel id (without job.id before)
          (omega (arith, length-remove-lt job.id before.jobs {job = job} l))
          (remove-IsKeyed job.id before.jobs k)) [
            | inl (after, e, w, k', p) ↦
                inl (after, e, w, k', turn-IsPruned env id before job after l r p)
            | inr e ↦ inr e
          ])

-- Where each job is stored under its own id, the pruning ends, and gives a store within its limits or an error of the source. In the store that
-- it gives every job is as before, but for jobs that may be removed: known to be over, and delivered
-- or old.
pub prune_for_admission-IsPruning :
    (env : Env) (id : Uuid) (before : Saved)
    → IsKeyed before.jobs
    → IsPruning env id before (prune_for_admission env before)
unfolding prune_for_admission
prune_for_admission-IsPruning env id before k =
    prune-IsPruning env (length before.jobs) id before (omega arith) k
