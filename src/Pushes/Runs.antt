-- ===== src/Pushes/Runs.antt =====
-- Through any run, every push that needs a review of its bundle has it.
use friendzone.Prelude.{
  ◌≡◌, refl, sym, ap, subst, ◌∙◌, ◌⊎◌, inl, inr, not, true, some, none, ltb, arith, Option-cases,
  nat_eq, ◌==◌, List, [], ◌∷◌, length,
}
use mathlib.Core.Option
use friendzone.Prelude.Text.{Text, text_eq, text_beq_iff}
use friendzone.Prelude.Map.{Map, lookup, map_values}
use friendzone.Prelude.Result.{ok, Result-cases, bail_if}
use friendzone.Github.{Uuid}
use friendzone.Review.{Status}
use friendzone.State.{AppState, Moment}
use friendzone.Settings.{Settings}
use friendzone.Storage.{Directory}
use friendzone.Jobs.Credential.{Crypto}
use friendzone.Pushes.{
  Artifact, Review, Job, Saved, Pushes, Env, max_jobs, max_metadata, too_large, unsupported,
  too_many_jobs,
}
use friendzone.Pushes.Store.{
  stored, transaction, new, load, read_saved, check_jobs, restarted, empty_saved,
}
use friendzone.Pushes.Guest.{
  cancel, acknowledge, decide, cancel_edit, acknowledge_edit, decide_edit,
}
use friendzone.Pushes.Worker.{take_up}
use friendzone.Pushes.Results.{bind-ok, ok-inj, some≢none, some-inj}
use friendzone.Pushes.Atomic.{IsSaved, file, transaction-done, transaction-saved}
use friendzone.Pushes.Reviewed.{is_reviewed, needs_review, Each, Each-lookup}
use friendzone.Pushes.Edits.{
  AllReviewed, cancel_edit-reviews, acknowledge_edit-reviews, decide_edit-reviews,
}
use friendzone.Pushes.Room.{restarted-reviews}
use friendzone.Pushes.Sending.{IsAdmission, pushes_with, take_up-pushes}
use friendzone.Pushes.Steps.{
  Op, submit_op, cancel_op, acknowledge_op, delete_op, decide_op, take_op, derived_op, pushed_op,
  restart_op, reading, restart, step, run,
}
use friendzone.Pushes.Always.{
  IsSound, transaction-IsSound, with_artifacts-IsSound, take_up-IsSound, after_derive-IsSound,
  after_push-IsSound,
}
use friendzone.Pushes.Asked.{submit-IsSound, delete-IsSound}

read_saved-reviews :
    (env : Env) (dir : Directory Saved) {saved : Saved}
    → (dir.target ≡ none) ⊎ ((held : Saved) × (dir.target ≡ some held) × AllReviewed held)
    → read_saved (reading env dir) ≡ ok saved
    → AllReviewed saved
unfolding read_saved reading empty_saved Each
read_saved-reviews env dir {saved} (inl n) h =
    let p : read_saved (reading env dir) ≡ ok empty_saved = rw (n, reading) refl in
    subst AllReviewed (ok-inj p h) tt
read_saved-reviews env dir {saved} (inr (held, t, r)) h =
    let p : reading env dir ≡ some (stored (env.size held) held) = rw (t, reading) refl in
    let (_, _, k1) =
      bind-ok (bail_if (ltb max_metadata (env.size held)) too_large) _
        (ap read_saved (sym p) ∙ h) in
    let (_, _, k2) = bind-ok (bail_if (not (held.version == 2)) unsupported) _ k1 in
    subst AllReviewed (ok-inj refl k2) r

load-IsSound :
    (env : Env) (x : Crypto) (dir : Directory Saved) (artifacts : Map Uuid Artifact) {s : Pushes}
    → (dir.target ≡ none) ⊎ ((held : Saved) × (dir.target ≡ some held) × AllReviewed held)
    → load env x (reading env dir) dir artifacts ≡ ok s
    → IsSound s
unfolding load IsSound
load-IsSound env x dir artifacts {s} t h =
    let (saved, e1, k1) = bind-ok (read_saved (reading env dir)) _ h in
    let (_, _, k2) = bind-ok (bail_if (ltb max_jobs (length saved.jobs)) too_many_jobs) _ k1 in
    let (_, _, k3) = bind-ok (check_jobs x artifacts saved.jobs 0) _ k2 in
    let next : Saved = record saved { jobs = map_values (λ _ job. restarted env job) saved.jobs } in
    let first : Pushes = record {
      current = next;
      path = some dir;
      artifacts = some artifacts;
      changes = 0;
    } in
    let (_, e4, k4) = bind-ok (transaction env (λ saved. ok (tt, saved)) first).0 _ k3 in
    let c = transaction-done env (λ saved. ok (tt, saved)) first e4 refl in
    subst IsSound (ok-inj refl k4) (
      with_artifacts-IsSound (transaction env (λ saved. ok (tt, saved)) first).1 none (
        transaction-saved env (λ saved. ok (tt, saved)) first e4,
        subst AllReviewed (sym c)
            (restarted-reviews env saved.jobs (read_saved-reviews env dir t e1)),
      ))

held :
    (dir : Directory Saved) (s : Pushes)
    → s.path ≡ some dir
    → IsSound s
    → (dir.target ≡ none) ⊎ ((saved : Saved) × (dir.target ≡ some saved) × AllReviewed saved)
unfolding IsSound IsSaved file
held dir s p (inl n, h) = absurd (some≢none (ap (Option.map (λ d. d.target)) (sym p) ∙ n))
held dir s p (inr y, h) = inr (s.current, some-inj (ap (Option.map (λ d. d.target)) (sym p) ∙ y), h)

restart-IsSound :
    (env : Env) (x : Crypto) (artifacts : Map Uuid Artifact) (s : Pushes)
    → IsSound s
    → IsSound (restart env x artifacts s)
unfolding restart new empty_saved IsSound IsSaved file Each
restart-IsSound env x artifacts s h = elim (Option-cases s.path) [
  | inl p ↦ rw (p, restart) (inl refl, tt)
  | inr (dir, p) ↦ elim (Result-cases (load env x (reading env dir) dir artifacts)) [
    | inl (e, k) ↦ rw (p, restart, k) h
    | inr (s', k) ↦ rw (p, restart, k) (load-IsSound env x dir artifacts (held dir s p h) k)
  ]
]

step-IsSound :
    (x : Crypto) (env : Env) (op : Op) (s : Pushes) → IsSound s → IsSound (step x env op s)
unfolding step cancel acknowledge decide
step-IsSound x env (submit_op state_env settings app container peer input bundle) s h =
    submit-IsSound env state_env x settings container peer input bundle app s h
step-IsSound x env (cancel_op container i id session) s h =
    transaction-IsSound env (cancel_edit env container i id session) s
      (cancel_edit-reviews container i id session s.current env) h
step-IsSound x env (acknowledge_op container i id session) s h =
    transaction-IsSound env (acknowledge_edit env container i id session) s
      (acknowledge_edit-reviews container i id session s.current env) h
step-IsSound x env (delete_op container i id session) s h =
    delete-IsSound env container i id session s h
step-IsSound x env (decide_op id fingerprint decision) s h =
    transaction-IsSound env (decide_edit env id fingerprint decision) s
      (decide_edit-reviews env id fingerprint decision s.current) h
step-IsSound x env (take_op settings first app job) s h =
    take_up-IsSound env x settings first app job s h
step-IsSound x env (derived_op app job r) s h = after_derive-IsSound env app job r s h
step-IsSound x env (pushed_op job r) s h = after_push-IsSound env job r s h
step-IsSound x env (restart_op artifacts) s h = restart-IsSound env x artifacts s h

-- Through any run of submissions, of requests and decisions, of the worker's turns with any copies
-- of jobs, of results of Git and of restarts, and however the file operations end: if at first the
-- file, where there is one, holds the jobs in memory, and each job that is pending, approved,
-- being sent or denied has a review of its bundle's digest, then this holds after the run.
pub run-IsSound :
    (x : Crypto) (ops : List (Env × Op)) (s : Pushes) → IsSound s → IsSound (run x ops s)
unfolding run
run-IsSound x [] s h = h
run-IsSound x ((env, op) ∷ ops) s h =
    run-IsSound x ops (step x env op s) (step-IsSound x env op s h)

approved-review :
    (job : Job)
    → job.status ≡ Status.approved
    → is_reviewed job ≡ true
    → (r : Review) × (job.review ≡ some r) × (r.bundle_sha256 ≡ job.bundle_sha256)
unfolding is_reviewed needs_review
approved-review job a h = elim (Option-cases job.review) [
  | inl e ↦ ground arith
  | inr (r, e) ↦
      let p : is_reviewed job ≡ (r.bundle_sha256 == job.bundle_sha256) = rw (e, is_reviewed) refl in
      (r, e, (text_beq_iff r.bundle_sha256 job.bundle_sha256).0 (sym p ∙ h))
]

-- What a job that is pushed was when it was taken up: approved, with a review of its bundle.
unfoldable pub IsPushable : Uuid → Saved → Type 0
IsPushable id saved =
    (job : Job) × (lookup id saved.jobs ≡ some job)
    × (job.status ≡ Status.approved)
    × ((r : Review) × (job.review ≡ some r) × (r.bundle_sha256 ≡ job.bundle_sha256))

-- A job that the worker goes on to push after such a run is stored as approved when it is taken
-- up, with a review of the digest of its own bundle.
pub run-pushes :
    (x : Crypto) (ops : List (Env × Op)) (s : Pushes) (env : Env) (settings : Settings)
    (first : Moment) (app : AppState) (job : Job) {token : Text}
    → IsSound s
    → pushes_with (take_up env x settings first app job (run x ops s)).0 ≡ some token
    → IsPushable job.id (run x ops s).current
unfolding IsSound IsAdmission IsPushable
run-pushes x ops s env settings first app job {token} h p =
    let ((j, l, a, t, _), _, _) = take_up-pushes env x settings first app job (run x ops s) p in
    (
      j,
      l,
      a,
      approved-review j a
          (Each-lookup job.id j (run x ops s).current.jobs (run-IsSound x ops s h).1 l),
    )
