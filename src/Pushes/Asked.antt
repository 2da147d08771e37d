-- ===== src/Pushes/Asked.antt =====
-- What guests and the host ask of the pushes leaves every push reviewed that needs it.
use friendzone.Prelude.{
  ◌≡◌, refl, inl, inr, ◌||◌, true, some, ltb, Bool-cases, Option-cases, nat_eq, ◌==◌, String,
}
use friendzone.Prelude.Text.{Text, text_eq}
use friendzone.Prelude.Map.{insert}
use friendzone.Prelude.Result.{Result-cases, ◌>>◌, bail_if}
use friendzone.Github.{Uuid, IpAddr}
use friendzone.State
use friendzone.State.{AppState, StateError}
use friendzone.State.Gate.{async_identity, persist_guest_identity}
use friendzone.Settings.{Settings}
use friendzone.Jobs.Credential.{Crypto}
use friendzone.Pushes.{Artifact, Submission, Job, Pushes, Env, bad_bundle, max_bundle}
use friendzone.Pushes.Checks.{validate_submission}
use friendzone.Pushes.Store.{transaction}
use friendzone.Pushes.Submit.{submit, submit_job, new_job, admit_job, git_credential}
use friendzone.Pushes.Guest.{delete, delete_edit}
use friendzone.Pushes.Reviewed.{is_reviewed, needs_review}
use friendzone.Pushes.Edits.{delete_edit-reviews}
use friendzone.Pushes.Room.{admit_job-reviews}
use friendzone.Pushes.Always.{IsSound, transaction-IsSound, with_artifacts-IsSound}

-- A new job is yet to be reviewed.
submit_job-IsSound :
    (env : Env) (job : Job) (bundle : Artifact) (s : Pushes)
    → is_reviewed job ≡ true
    → IsSound s
    → IsSound (submit_job env job bundle s).1
unfolding submit_job
submit_job-IsSound env job bundle s p h = elim (Option-cases s.artifacts) [
  | inl n ↦ rw (n, submit_job) h
  | inr (artifacts, e) ↦ elim (Bool-cases env.renames_bundle) [
    | inr n ↦ rw (e, n, submit_job) h
    | inl y ↦
        let moved : Pushes = record s { artifacts = some (insert job.id bundle artifacts) } in
        let t =
          transaction-IsSound env (admit_job env job) moved (admit_job-reviews env job s.current p)
            (with_artifacts-IsSound s _ h) in
        elim (Result-cases (transaction env (admit_job env job) moved).0) [
          | inl (f, r) ↦ rw (e, y, submit_job, r) (with_artifacts-IsSound _ _ t)
          | inr ((j, removed), r) ↦ rw (e, y, submit_job, r) (with_artifacts-IsSound _ _ t)
        ]
  ]
]

pub submit-IsSound :
    (env : Env) (state_env : State.Env) (x : Crypto) (settings : Settings) (container : String)
    (peer : IpAddr) (input : Submission) (bundle : Artifact) (app : AppState) (s : Pushes)
    → IsSound s
    → IsSound (submit env state_env x settings container peer input bundle app s).1
unfolding submit new_job is_reviewed needs_review
submit-IsSound env state_env x settings container peer input bundle app s h =
    elim (Result-cases (
      validate_submission input
      >> bail_if (bundle.bytes == 0 || ltb max_bundle bundle.bytes) bad_bundle)) [
        | inl (e, v) ↦ rw (v, submit) h
        | inr (u, v) ↦ elim (Option-cases (async_identity container peer app)) [
          | inl i ↦ rw (v, i, submit) h
          | inr (identity, i) ↦ elim (Result-cases (persist_guest_identity state_env app).0) [
            | inl (e, q) ↦ rw (v, i, q, submit) h
            | inr (a, q) ↦ elim (Result-cases (git_credential x settings)) [
              | inl (e, g) ↦ rw (v, i, q, g, submit) h
              | inr ((binding, token), g) ↦
                  rw (v, i, q, g, submit)
                    (submit_job-IsSound env
                      (new_job env x container peer input bundle identity binding) bundle s refl h)
            ]
          ]
        ]
      ]

pub delete-IsSound :
    (env : Env) (container : String) (instance_id id : Uuid) (session : Text) (s : Pushes)
    → IsSound s
    → IsSound (delete env container instance_id id session s).1
unfolding delete
delete-IsSound env container instance_id id session s h =
    let t =
      transaction-IsSound env (delete_edit container instance_id id session) s
        (delete_edit-reviews container instance_id id session s.current) h in
    elim (Result-cases (transaction env (delete_edit container instance_id id session) s).0) [
      | inl (e, r) ↦ rw (r, delete) t
      | inr (u, r) ↦ rw (r, delete) (with_artifacts-IsSound _ _ t)
    ]
