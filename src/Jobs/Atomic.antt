-- ===== src/Jobs/Atomic.antt =====
-- Transactions on the jobs: all or nothing, in memory and in the file.
use friendzone.Prelude.{
  ◌≡◌, refl, ◌⊎◌, inl, inr, ap, subst, ◌∙◌, sym, Option, none, some, Bool-cases, Option-cases, ltb,
  ◌+◌, ◌*◌,
}
use mathlib.Core.Option
use friendzone.Prelude.Result.{Result, ok, err}
use friendzone.Storage.Atomic.{atomic_write_lem}
use friendzone.Jobs.{Saved, Jobs, Env, JobsError, max_storage, not_saved}
use friendzone.Jobs.Store.{transaction, commit, replace, active_jobs, reserve}

-- What the file holds, if there is one.
unfoldable pub file : Jobs → Option (Option Saved)
file s = Option.map (λ d. d.target) s.path

-- The file, if there is one, holds what is in memory.
unfoldable pub IsSaved : Jobs → Type 0
unfolding file
IsSaved s = (file s ≡ none) ⊎ (file s ≡ some (some s.current))

-- The two ends of a transaction on `s`, whose edit gives `edited`.
unfoldable pub IsAtomic :
    {T : Type 0} → Result JobsError (T × Saved) → Jobs → Result JobsError T → Jobs → Type 0
unfolding IsSaved file
IsAtomic {T} edited s r s' =
    ((t : T) × (r ≡ ok t) × (edited ≡ ok (t, s'.current)) × IsSaved s')
    ⊎ ((e : JobsError) × (r ≡ err e) × (s'.current ≡ s.current) × (file s' ≡ file s))

commit-IsAtomic :
    {T : Type 0} (env : Env) (t : T) (next : Saved) (s : Jobs)
    → let (r, s') = commit env t next s in IsAtomic (ok (t, next)) s r s'
unfolding commit replace IsAtomic IsSaved file
commit-IsAtomic {T} env t next s =
    elim (Bool-cases (ltb max_storage (env.size next + active_jobs next * reserve))) [
      | inl y ↦ rw (y, commit) (inr (_, refl, refl, refl))
      | inr n ↦ elim (Option-cases s.path) [
        | inl p ↦ rw (n, p, commit) (inl (t, refl, refl, inl (rw p refl)))
        | inr (dir, p) ↦ elim (atomic_write_lem env.faults next dir) [
          | inl (w, e, e') ↦ rw (n, p, commit, w) (inl (t, refl, refl, inr (ap some e)))
          | inr (w, e) ↦ rw (n, p, commit, w) (inr (not_saved, refl, refl, ap some e))
        ]
      ]
    ]

-- A transaction that succeeds leaves what its edit made of the jobs, in memory and in the file, if
-- there is one; one that fails leaves the jobs and the file's contents as they were.
pub transaction-IsAtomic :
    {T : Type 0} (env : Env) (edit : Saved → Result JobsError (T × Saved)) (s : Jobs)
    → let (r, s') = transaction env edit s in IsAtomic (edit s.current) s r s'
unfolding transaction IsAtomic
transaction-IsAtomic {T} env edit s = go (edit s.current) refl
  where
    go :
        (o : Result JobsError (T × Saved))
        → edit s.current ≡ o
        → let (r, s') = transaction env edit s in IsAtomic (edit s.current) s r s'
    go (err e) h = rw (h, transaction) (inr (e, refl, refl, refl))
    go (ok (t, next)) h = rw (h, transaction) (commit-IsAtomic env t next s)

-- `P` holds of what an edit makes of the jobs, if it does not fail.
abbrev pub After : {T : Type 0} → (Saved → Type 0) → Result JobsError (T × Saved) → Type 0
After P (err _) = Unit
After P (ok (_, next)) = P next

-- What holds of the jobs and of what an edit makes of them holds after the transaction.
pub transaction-keeps :
    {T : Type 0} (P : Saved → Type 0) (env : Env) (edit : Saved → Result JobsError (T × Saved))
    (s : Jobs)
    → P s.current
    → After P (edit s.current)
    → P (transaction env edit s).1.current
unfolding IsAtomic
transaction-keeps {T} P env edit s h k =
    let a = transaction-IsAtomic env edit s in
    elim a [ inl (t, r, e, f) ↦ subst (After P) e k | inr (e, r, c, f) ↦ subst P (sym c) h ]

pub transaction-IsSaved :
    {T : Type 0} (env : Env) (edit : Saved → Result JobsError (T × Saved)) (s : Jobs)
    → IsSaved s
    → IsSaved (transaction env edit s).1
unfolding IsSaved IsAtomic
transaction-IsSaved env edit s h =
    let a = transaction-IsAtomic env edit s in
    elim a [
      | inl (t, r, e, f) ↦ f
      | inr (e, r, c, f) ↦ elim h [
        | inl n ↦ inl (f ∙ n)
        | inr y ↦ inr (f ∙ y ∙ ap (λ x. some (some x)) (sym c))
      ]
    ]
