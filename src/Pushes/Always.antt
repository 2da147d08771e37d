-- ===== src/Pushes/Always.antt =====
-- A turn of the worker leaves every push reviewed that needs it, in memory and in the file.
use friendzone.Prelude.{
  inl, inr, ◌||◌, not, Bool, true, false, Option, leb, Bool-cases, Option-cases, is_some, nat_eq,
}
use friendzone.Prelude.Text.{Text, text_eq}
use friendzone.Prelude.Map.{Map}
use friendzone.Prelude.Result.{Result, ok, err}
use friendzone.Github.{Uuid}
use friendzone.Policy.{allows_all}
use friendzone.State.{AppState, Moment}
use friendzone.State.Gate.{holds_identity}
use friendzone.Settings.{Settings}
use friendzone.Jobs.Credential.{Crypto}
use friendzone.Pushes.{Artifact, Review, Job, Saved, Pushes, Env, PushError}
use friendzone.Pushes.Store.{transaction}
use friendzone.Pushes.Worker.{
  Outcome, derive, push, continue_with, with_storage, admitted, take_up, keeps_identity,
  is_preparing, is_approved, drop_edit, block_edit, admit_edit, current_git_token, after_derive,
  after_push, prepared_edit, lapsed_edit, finish_edit,
}
use friendzone.Pushes.Atomic.{After, IsSaved, file, transaction-keeps, transaction-IsSaved}
use friendzone.Pushes.Reviewed.{Each}
use friendzone.Pushes.Edits.{
  AllReviewed, drop_edit-reviews, block_edit-reviews, lapsed_edit-reviews, prepared_edit-reviews,
  admit_edit-reviews, finish_edit-reviews,
}

-- The pushes are reviewed where they must be, in memory and in the file, if there is one.
unfoldable pub IsSound : Pushes → Type 0
unfolding IsSaved Each
IsSound s = IsSaved s × AllReviewed s.current

pub transaction-IsSound :
    {T : Type 0} (env : Env) (edit : Saved → Result PushError (T × Saved)) (s : Pushes)
    → (AllReviewed s.current → After AllReviewed (edit s.current))
    → IsSound s
    → IsSound (transaction env edit s).1
unfolding IsSound
transaction-IsSound env edit s k (f, h) =
    (transaction-IsSaved env edit s f, transaction-keeps AllReviewed env edit s h (k h))

-- The bundles are not what a push is judged by.
pub with_artifacts-IsSound :
    (s : Pushes) (a : Option (Map Uuid Artifact)) → IsSound s → IsSound (record s { artifacts = a })
unfolding IsSound IsSaved file
with_artifacts-IsSound s a h = h

pub continue_with-IsSound :
    (a : Result PushError (Unit {0}) × Pushes) → IsSound a.1 → IsSound (continue_with a).1
unfolding continue_with
continue_with-IsSound (ok tt, s) h = h
continue_with-IsSound (err e, s) h = h

with_storage-IsSound : (o : Outcome) (s : Pushes) → IsSound s → IsSound (with_storage o s).1
unfolding with_storage
with_storage-IsSound o s h = elim (Bool-cases (is_some s.artifacts)) [
  | inl y ↦ rw (y, with_storage) h
  | inr n ↦ rw (n, with_storage) h
]

admitted-IsSound :
    (token : Text) (a : Result PushError Bool × Pushes) → IsSound a.1 → IsSound (admitted token a).1
unfolding admitted
admitted-IsSound token (ok true, s) h = with_storage-IsSound (push token) s h
admitted-IsSound token (ok false, s) h = h
admitted-IsSound token (err e, s) h = h

pub take_up-IsSound :
    (env : Env) (x : Crypto) (settings : Settings) (first : Moment) (app : AppState) (job : Job)
    (s : Pushes)
    → IsSound s
    → IsSound (take_up env x settings first app job s).1
unfolding take_up
take_up-IsSound env x settings first app job s h =
    elim (Bool-cases (leb job.expires_at first.at || not (keeps_identity first.app job))) [
      | inl y ↦
          rw (y, take_up)
            (continue_with-IsSound _ (
              transaction-IsSound env (drop_edit env job.id) s
                (drop_edit-reviews env job.id s.current) h))
      | inr n ↦ elim (Bool-cases (is_preparing job.status)) [
        | inl p ↦ elim (Option-cases (current_git_token x settings job.binding)) [
          | inl m ↦
              rw (n, p, m, take_up)
                (continue_with-IsSound _ (
                  transaction-IsSound env (block_edit env is_preparing job.id) s
                    (block_edit-reviews env is_preparing job.id s.current) h))
          | inr (t, m) ↦ rw (n, p, m, take_up) (with_storage-IsSound (derive t) s h)
        ]
        | inr p ↦ elim (Bool-cases (is_approved job.status)) [
          | inr a ↦ rw (n, p, a, take_up) h
          | inl a ↦ elim (Option-cases (current_git_token x settings job.binding)) [
            | inl m ↦
                rw (n, p, a, m, take_up)
                  (continue_with-IsSound _ (
                    transaction-IsSound env (block_edit env is_approved job.id) s
                      (block_edit-reviews env is_approved job.id s.current) h))
            | inr (t, m) ↦
                elim (Bool-cases
                  (holds_identity job.container job.peer job.instance_id job.epoch app)) [
                    | inr i ↦ rw (n, p, a, m, i, take_up) h
                    | inl i ↦
                        rw (n, p, a, m, i, take_up)
                          (admitted-IsSound t _ (
                            transaction-IsSound env (admit_edit env job.id) s
                              (admit_edit-reviews env job.id s.current) h))
                  ]
          ]
        ]
      ]
    ]

pub after_derive-IsSound :
    (env : Env) (app : AppState) (job : Job) (r : Result Text Review) (s : Pushes)
    → IsSound s
    → IsSound (after_derive env app job r s).1
unfolding after_derive
after_derive-IsSound env app job r s h =
    elim (Bool-cases (holds_identity job.container job.peer job.instance_id job.epoch app)) [
      | inl i ↦
          rw (i, after_derive)
            (continue_with-IsSound _ (
              transaction-IsSound env (prepared_edit env (allows_all app.github_policy) r job.id) s
                (prepared_edit-reviews env (allows_all app.github_policy) r job.id s.current) h))
      | inr i ↦
          rw (i, after_derive)
            (continue_with-IsSound _ (
              transaction-IsSound env (lapsed_edit env job.id) s
                (lapsed_edit-reviews env job.id s.current) h))
    ]

pub after_push-IsSound :
    (env : Env) (job : Job) (r : Result Text Text) (s : Pushes)
    → IsSound s
    → IsSound (after_push env job r s).1
unfolding after_push
after_push-IsSound env job r s h =
    continue_with-IsSound (transaction env (finish_edit env r job.id) s) (
      transaction-IsSound env (finish_edit env r job.id) s
        (finish_edit-reviews env r job.id s.current) h)
