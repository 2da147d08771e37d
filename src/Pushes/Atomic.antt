-- ===== src/Pushes/Atomic.antt =====
-- The transactions on the pushes: what an edit makes of them, or what was there before.
use friendzone.Prelude.{
  ◌≡◌, ◌≢◌, ◌∙◌, Option, refl, sym, ap, subst, ◌⊎◌, inl, inr, none, some, Bool-cases, Option-cases,
  ltb, arith,
}
use friendzone.Prelude.Result.{Result, ok, err, Result-cases}
use mathlib.Core.Option
use friendzone.Storage.{atomic_write}
use friendzone.Storage.Atomic.{atomic_write_lem}
use friendzone.Pushes.{Saved, Pushes, Env, PushError, max_metadata, too_large, not_saved}
use friendzone.Pushes.Results.{ok-inj, some≢none}
use friendzone.Pushes.Store.{transaction, commit, replace}

-- The two ends of a transaction on `s`, whose edit gives `edited`.
unfoldable pub IsTransaction :
    {T : Type 0} → Result PushError (T × Saved) → Pushes → Result PushError T → Pushes → Type 0
IsTransaction {T} edited s r s' =
    ((t : T) × (r ≡ ok t) × (edited ≡ ok (t, s'.current)))
    ⊎ ((e : PushError) × (r ≡ err e) × (s'.current ≡ s.current))

commit-IsTransaction :
    {T : Type 0} (env : Env) (t : T) (next : Saved) (s : Pushes)
    → let (r, s') = commit env t next s in IsTransaction (ok (t, next)) s r s'
unfolding commit replace IsTransaction
commit-IsTransaction env t next s = elim (Bool-cases (ltb max_metadata (env.size next))) [
  | inl y ↦ rw (y, commit) (inr (too_large, refl, refl))
  | inr n ↦ elim (Option-cases s.path) [
    | inl p ↦ rw (n, p, commit) (inl (t, refl, refl))
    | inr (dir, p) ↦ elim (Result-cases (atomic_write env.faults next dir).0) [
      | inl (e, w) ↦ rw (n, p, commit, w) (inr (not_saved, refl, refl))
      | inr (a, w) ↦ rw (n, p, commit, w) (inl (t, refl, refl))
    ]
  ]
]

pub transaction-IsTransaction :
    {T : Type 0} (env : Env) (edit : Saved → Result PushError (T × Saved)) (s : Pushes)
    → let (r, s') = transaction env edit s in IsTransaction (edit s.current) s r s'
unfolding transaction IsTransaction
transaction-IsTransaction env edit s = elim (Result-cases (edit s.current)) [
  | inl (e, h) ↦ rw (h, transaction) (inr (e, refl, refl))
  | inr (a, h) ↦ rw (h, transaction) (commit-IsTransaction env a.0 a.1 s)
]

-- `P` holds of what an edit makes of the jobs, if it does not fail.
abbrev pub After : {T : Type 0} → (Saved → Type 0) → Result PushError (T × Saved) → Type 0
After P (err _) = Unit
After P (ok (_, next)) = P next

pub transaction-keeps :
    {T : Type 0} (P : Saved → Type 0) (env : Env) (edit : Saved → Result PushError (T × Saved))
    (s : Pushes)
    → P s.current
    → After P (edit s.current)
    → P (transaction env edit s).1.current
unfolding IsTransaction
transaction-keeps P env edit s h k = elim (transaction-IsTransaction env edit s) [
  | inl (t, r, e) ↦ subst (After P) e k
  | inr (e, r, c) ↦ subst P (sym c) h
]

-- A transaction that succeeds leaves what its edit makes of the jobs.
pub transaction-done :
    {T : Type 0} (env : Env) (edit : Saved → Result PushError (T × Saved)) (s : Pushes) {t : T}
    {a : T × Saved}
    → (transaction env edit s).0 ≡ ok t
    → edit s.current ≡ ok a
    → (transaction env edit s).1.current ≡ a.1
unfolding IsTransaction
transaction-done env edit s h e = elim (transaction-IsTransaction env edit s) [
  | inl (t, r, k) ↦ ap (λ x. x.1) (ok-inj k e)
  | inr (f, r, c) ↦ ground arith
]

-- What the file holds, if there is one.
unfoldable pub file : Pushes → Option (Option Saved)
file s = Option.map (λ d. d.target) s.path

-- The file, if there is one, holds what is in memory.
unfoldable pub IsSaved : Pushes → Type 0
unfolding file
IsSaved s = (file s ≡ none) ⊎ (file s ≡ some (some s.current))

commit-IsSaved :
    {T : Type 0} (env : Env) (t : T) (next : Saved) (s : Pushes)
    → IsSaved s
    → IsSaved (commit env t next s).1
unfolding commit replace IsSaved file
commit-IsSaved env t next s h = elim (Bool-cases (ltb max_metadata (env.size next))) [
  | inl y ↦ rw (y, commit) h
  | inr n ↦ elim (Option-cases s.path) [
    | inl p ↦ rw (n, p, commit) (inl (rw (p) refl))
    | inr (dir, p) ↦ elim (atomic_write_lem env.faults next dir) [
      | inl (w, e, e') ↦ rw (n, p, commit, w) (inr (ap some e))
      | inr (w, e) ↦
          rw (n, p, commit, w)
            (elim h [
              | inl none_there ↦
                  absurd (some≢none (ap (Option.map (λ d. d.target)) (sym p) ∙ none_there))
              | inr y ↦ inr (ap some e ∙ ap (Option.map (λ d. d.target)) (sym p) ∙ y)
            ])
    ]
  ]
]

pub transaction-IsSaved :
    {T : Type 0} (env : Env) (edit : Saved → Result PushError (T × Saved)) (s : Pushes)
    → IsSaved s
    → IsSaved (transaction env edit s).1
unfolding transaction
transaction-IsSaved env edit s h = elim (Result-cases (edit s.current)) [
  | inl (e, k) ↦ rw (k, transaction) h
  | inr (a, k) ↦ rw (k, transaction) (commit-IsSaved env a.0 a.1 s h)
]

err≢ok : {T : Type 0} {e : PushError} {r : Result PushError T} {t : T} → r ≡ err e → r ≢ ok t
err≢ok p q = ground arith

commit-saved :
    {T : Type 0} (env : Env) (t : T) (next : Saved) (s : Pushes) {u : T}
    → (commit env t next s).0 ≡ ok u
    → IsSaved (commit env t next s).1
unfolding commit replace IsSaved file
commit-saved env t next s h = elim (Bool-cases (ltb max_metadata (env.size next))) [
  | inl y ↦ absurd (err≢ok {e = too_large} {r = (commit env t next s).0} (rw (y, commit) refl) h)
  | inr n ↦ elim (Option-cases s.path) [
    | inl p ↦ rw (n, p, commit) (inl (rw (p) refl))
    | inr (dir, p) ↦ elim (atomic_write_lem env.faults next dir) [
      | inl (w, e, e') ↦ rw (n, p, commit, w) (inr (ap some e))
      | inr (w, e) ↦
          absurd
            (err≢ok {e = not_saved} {r = (commit env t next s).0} (rw (n, p, commit, w) refl) h)
    ]
  ]
]

-- After a transaction that succeeds, the file holds what is in memory.
pub transaction-saved :
    {T : Type 0} (env : Env) (edit : Saved → Result PushError (T × Saved)) (s : Pushes) {t : T}
    → (transaction env edit s).0 ≡ ok t
    → IsSaved (transaction env edit s).1
unfolding transaction
transaction-saved env edit s h = elim (Result-cases (edit s.current)) [
  | inl (e, k) ↦
      absurd (err≢ok {e = e} {r = (transaction env edit s).0} (rw (k, transaction) refl) h)
  | inr (a, k) ↦
      let p : transaction env edit s ≡ commit env a.0 a.1 s = rw (k, transaction) refl in
      subst (λ r. IsSaved r.1) (sym p) (commit-saved env a.0 a.1 s (ap (λ r. r.0) (sym p) ∙ h))
]
