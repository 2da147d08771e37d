-- ===== src/Pushes/Stalled.antt =====
-- A push whose review is not derived in time, and the start of the broker after it.
use friendzone.Prelude.{
  ◌≤◌, ◌≡◌, refl, sym, ap, subst, ◌∙◌, inl, inr, ◌||◌, not, true, false, none, some, [], ◌∷◌, leb,
  ltb, arith, Bool, Bool-cases, nat_eq, ℕ, ◌+◌, ◌^◌, ◌==◌, length,
}
use friendzone.Prelude.Text.{text}
use friendzone.Prelude.Map.{Map, lookup, insert}
use friendzone.Prelude.Result.{Result, ok, err, ◌>>=◌, bail_if}
use friendzone.Storage.{Directory}
use friendzone.Github.{Uuid}
use friendzone.Review.{Status}
use friendzone.State.{AppState, Moment}
use friendzone.Settings.{Settings}
use friendzone.Jobs.Credential.{Crypto}
use friendzone.Pushes.{
  Artifact, Job, Saved, Pushes, Env, PushError, is_waiting, no_review, too_large, unsupported,
  too_many_jobs, max_metadata, max_jobs, set, wrong_id, bad_bundle, size_overflow, over_storage,
  max_bundle, max_storage,
}
use friendzone.Pushes.Checks.{validate_submission}
use friendzone.Pushes.Store.{
  check_review, check_jobs, check_artifact, needs_no_review, stored, load, transaction, read_saved,
}
use friendzone.Pushes.Worker.{Outcome, next, take_up, continue_with, drop_edit, dropped, change_if}
use friendzone.Pushes.Results.{lookup-insert_self}
use friendzone.Pushes.Atomic.{transaction-done}

-- A result that is an error.
abbrev pub Fails : {T : Type 0} → Result PushError T → Type 0
Fails r = (e : PushError) × (r ≡ err e)

Fails-bind :
    {S T : Type 0} (r : Result PushError S) (k : S → Result PushError T)
    → ((a : S) → Fails (k a))
    → Fails (r >>= k)
Fails-bind (ok a) k h = h a
Fails-bind (err e) k h = (e, refl)

Fails-bind_first :
    {S T : Type 0} (r : Result PushError S) (k : S → Result PushError T) → Fails r → Fails (r >>= k)
Fails-bind_first r k (e, h) = (e, rw (h) refl)

lookup-here :
    (id : Uuid) (job : Job) (i : Uuid) (j : Job) (jobs : Map Uuid Job)
    → (i == id) ≡ true
    → lookup id ((i, j) ∷ jobs) ≡ some job
    → job ≡ j
unfolding lookup
lookup-here id job i j jobs y l = ground arith

lookup-there :
    (id : Uuid) (job : Job) (i : Uuid) (j : Job) (jobs : Map Uuid Job)
    → (i == id) ≡ false
    → lookup id ((i, j) ∷ jobs) ≡ some job
    → lookup id jobs ≡ some job
unfolding lookup
lookup-there id job i j jobs o l = ground arith

-- The loop of the start fails on a job whose review does not fit its status.
pub check_jobs-Fails :
    (x : Crypto) (artifacts : Map Uuid Artifact) (id : Uuid) (job : Job) (jobs : Map Uuid Job)
    (n : ℕ)
    → lookup id jobs ≡ some job
    → Fails (check_review job)
    → Fails (check_jobs x artifacts jobs n)
unfolding check_jobs lookup
check_jobs-Fails x artifacts id job [] n l f = ground arith
check_jobs-Fails x artifacts id job ((i, j) ∷ jobs) n l f =
    Fails-bind (bail_if (not (j.id == i)) wrong_id) _ (λ _.
      Fails-bind (validate_submission j.submission) _ (λ _.
        Fails-bind (bail_if (j.bundle_bytes == 0 || ltb max_bundle j.bundle_bytes) bad_bundle) _
          (λ _. Fails-bind (bail_if (leb (2 ^ 64) (n + j.bundle_bytes)) size_overflow) _ (λ _.
            Fails-bind (bail_if (ltb max_storage (n + j.bundle_bytes)) over_storage) _ (λ _.
              Fails-bind (check_artifact x (lookup i artifacts) j) _ (λ _.
                elim (Bool-cases (i == id)) [
                  | inl y ↦
                      Fails-bind_first (check_review j) _
                        (subst (λ k. Fails (check_review k)) (lookup-here id job i j jobs y l) f)
                  | inr o ↦ Fails-bind (check_review j) _ (λ _.
                      check_jobs-Fails x artifacts id job jobs (n + j.bundle_bytes)
                        (lookup-there id job i j jobs o l) f)
                ]))))))

-- A job without a review that is set to have expired does not pass the check of the start.
dropped-Fails :
    (env : Env) (job : Job)
    → job.review ≡ none
    → leb job.expires_at env.now ≡ true
    → Fails (check_review (dropped env job))
unfolding check_review dropped set needs_no_review
dropped-Fails env job n t =
    let e : dropped env job
        ≡ set env Status.expired (text "Review expired after 24 hours. Not sent.") job =
      rw (t, dropped) refl in
    subst (λ j. Fails (check_review j)) (sym e) (no_review, rw (n, check_review) refl)

load-Fails :
    (env : Env) (x : Crypto) (size : ℕ) (saved : Saved) (dir : Directory Saved)
    (artifacts : Map Uuid Artifact)
    → Fails (check_jobs x artifacts saved.jobs 0)
    → Fails (load env x (some (stored size saved)) dir artifacts)
unfolding load read_saved
load-Fails env x size saved dir artifacts (e, f) = elim (Bool-cases (ltb max_metadata size)) [
  | inl y ↦ (too_large, rw (y, load) refl)
  | inr n ↦ elim (Bool-cases (not (saved.version == 2))) [
    | inl y ↦ (unsupported, rw (n, load, y) refl)
    | inr v ↦ elim (Bool-cases (ltb max_jobs (length saved.jobs))) [
      | inl y ↦ (too_many_jobs, rw (n, load, v, y) refl)
      | inr m ↦ (e, rw (n, load, v, m, f) refl)
    ]
  ]
]

pub change_if-jobs :
    (p : Status → Bool) (f : Job → Job) (id : Uuid) (job : Job) (saved : Saved)
    → lookup id saved.jobs ≡ some job
    → p job.status ≡ true
    → change_if p f id saved ≡ ok (tt, record saved { jobs = insert id (f job) saved.jobs })
unfolding change_if
change_if-jobs p f id job saved l w = rw (l, change_if, w) refl

continue_with-next :
    (a : Result PushError (Unit {0}) × Pushes) → (continue_with a).0 ≡ next → a.0 ≡ ok tt
unfolding continue_with
continue_with-next (ok tt, s) h = refl
continue_with-next (err e, s) h = ground arith

continue_with-after : (a : Result PushError (Unit {0}) × Pushes) → (continue_with a).1 ≡ a.1
unfolding continue_with
continue_with-after (ok tt, s) = refl
continue_with-after (err e, s) = refl

-- Where a job that waits has expired at the worker's first look, before its review was derived,
-- the clock does not go back after that look, and the worker's turn for the job ends without an
-- error, every later start of the broker from the jobs that this leaves fails, whatever bundles
-- are there.
pub take_up-stalls :
    (env : Env) (later : Env) (x : Crypto) (settings : Settings) (first : Moment) (app : AppState)
    (job : Job) (s : Pushes) (size : ℕ) (dir : Directory Saved) (artifacts : Map Uuid Artifact)
    → lookup job.id s.current.jobs ≡ some job
    → is_waiting job.status ≡ true
    → job.review ≡ none
    → leb job.expires_at first.at ≡ true
    → first.at ≤ env.now
    → (take_up env x settings first app job s).0 ≡ next
    → Fails (
        load later x
          (some (stored size (take_up env x settings first app job s).1.current))
          dir
          artifacts)
unfolding take_up drop_edit
take_up-stalls env later x settings first app job s size dir artifacts l w n t m h =
    let late : leb job.expires_at env.now ≡ true = ground arith in
    let e : take_up env x settings first app job s
        ≡ continue_with (transaction env (drop_edit env job.id) s) =
      rw (t, take_up) refl in
    let d =
      continue_with-next (transaction env (drop_edit env job.id) s) (ap (λ o. o.0) (sym e) ∙ h) in
    let j = change_if-jobs is_waiting (dropped env) job.id job s.current l w in
    let c = transaction-done env (drop_edit env job.id) s d j in
    let p =
      ap (λ (o : Outcome × Pushes). o.1.current) e
      ∙ ap (λ (s' : Pushes). s'.current)
          (continue_with-after (transaction env (drop_edit env job.id) s))
      ∙ c in
    subst (λ saved. Fails (load later x (some (stored size saved)) dir artifacts)) (sym p)
      (load-Fails later x size _ dir artifacts (
        check_jobs-Fails x artifacts job.id (dropped env job) _ 0
          (lookup-insert_self job.id (dropped env job) s.current.jobs)
          (dropped-Fails env job n late)))
