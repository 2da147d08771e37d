-- ===== src/Jobs/Admit.antt =====
-- What `submit` comes to: nothing, or one transaction that admits a new job.
use friendzone.Prelude.{
  ◌≡◌, refl, ◌⊎◌, inl, inr, ◌||◌, not, false, some, leb, ltb, Bool-cases, Option-cases, String,
  nat_eq,
}
use friendzone.Prelude.Text.{is_empty, len}
use friendzone.Prelude.Map.{insert}
use friendzone.Prelude.Counts.{count}
use friendzone.Prelude.Result.{Result-cases, Result, ok, err}
use friendzone.Github.{Uuid, IpAddr}
use friendzone.Review
use friendzone.State
use friendzone.State.{AppState, StateError}
use friendzone.State.Gate.{async_identity, persist_guest_identity}
use friendzone.Settings.{Settings}
use friendzone.Jobs.{
  Job, Saved, Jobs, Env, JobsError, Submission, max_active, max_active_of_guest, max_payload,
}
use friendzone.Jobs.Credential.{Crypto, credentials}
use friendzone.Jobs.Store.{transaction, active_jobs, prune_for_admission}
use friendzone.Jobs.Guest.{
  Parser, checked_body, sole_binding, is_null_or_object, new_job, is_active_of, admit_job,
  submit_as, submit,
}

persisted-cases :
    (r : Result StateError (Unit {0})) → ((e : StateError) × (r ≡ err e)) ⊎ (r ≡ ok tt)
persisted-cases (ok a) = inr refl
persisted-cases (err e) = inl (e, refl)

-- The store with a new job.
abbrev pub with_job : Job → Saved → Saved
with_job job saved = record saved { jobs = insert job.id job saved.jobs }

-- A job is refused, or admitted below the limits, and then the store is pruned.
pub admit_job-cases :
    (env : Env) (job : Job) (saved : Saved)
    → ((e : JobsError) × (admit_job env job saved ≡ err e))
      ⊎ ((pruned : Saved) × (admit_job env job saved ≡ ok (job, pruned))
          × (leb max_active (active_jobs saved) ≡ false)
          × (leb max_active_of_guest (count (is_active_of job.container) saved.jobs) ≡ false)
          × (prune_for_admission env (with_job job saved) ≡ ok pruned))
unfolding admit_job
admit_job-cases env job saved = elim (Bool-cases (leb max_active (active_jobs saved))) [
  | inl y ↦ rw (y, admit_job) (inl (_, refl))
  | inr n ↦
      elim (Bool-cases (leb max_active_of_guest (count (is_active_of job.container) saved.jobs))) [
        | inl y ↦ rw (n, y, admit_job) (inl (_, refl))
        | inr n' ↦ elim (Result-cases (prune_for_admission env (with_job job saved))) [
          | inl (e, q) ↦ rw (n, n', q, admit_job) (inl (e, refl))
          | inr (pruned, q) ↦ rw (n, n', q, admit_job) (inr (pruned, refl, refl, refl, refl))
        ]
      ]
]

-- The jobs after `submit`: as before, or after the admission of a job with the snapshot's id.
unfoldable pub IsSubmitted : Env → Parser → String → Submission → Jobs → Jobs → Type 0
IsSubmitted env p container input s s' =
    (s' ≡ s)
    ⊎ ((job : Job) × (detail : Review.Detail) × (p.snapshot container (p.to_json input)
          ≡ some detail)
        × (job.id ≡ detail.summary.id)
        × (s' ≡ (transaction env (admit_job env job) s).1))

-- The checks of the input give no body but the input's.
checked_body-cases :
    (p : Parser) (input : Submission)
    → ((e : JobsError) × (checked_body p input ≡ err e))
      ⊎ (checked_body p input ≡ ok (p.to_json input))
unfolding checked_body
checked_body-cases p input =
    elim (Bool-cases (
      is_empty input.request_key
      || ltb 128 (len input.request_key)
      || is_empty input.session_id
      || ltb 256 (len input.session_id))) [
        | inl y ↦ rw (y, checked_body) (inl (_, refl))
        | inr n ↦
            elim (Bool-cases (is_empty input.query || not (is_null_or_object input.variables))) [
              | inl y ↦ rw (n, y, checked_body) (inl (_, refl))
              | inr n' ↦ elim (Bool-cases (ltb max_payload (len (p.to_json input)))) [
                | inl y ↦ rw (n, n', y, checked_body) (inl (_, refl))
                | inr n'' ↦ rw (n, n', n'', checked_body) (inr refl)
              ]
            ]
      ]

submit_as-IsSubmitted :
    (env : Env) (x : Crypto) (p : Parser) (settings : Settings) (app : AppState)
    (container : String) (peer : IpAddr) (input : Submission) (identity : Uuid × Uuid) (s : Jobs)
    → IsSubmitted env p container input s
        (submit_as env x p settings app container peer input (p.to_json input) identity s).1
unfolding submit_as IsSubmitted
submit_as-IsSubmitted env x p settings app container peer input identity s =
    elim (Result-cases (sole_binding (credentials x settings settings.entries))) [
      | inl (e, q) ↦ rw (q, submit_as) (inl refl)
      | inr (binding, q) ↦ elim (Option-cases (p.snapshot container (p.to_json input))) [
        | inl n ↦ rw (q, n, submit_as) (inl refl)
        | inr (detail, d) ↦
            rw (q, d, submit_as)
              (inr (
                new_job env app container peer input (p.to_json input) identity binding detail,
                detail,
                refl,
                refl,
                refl,
              ))
      ]
    ]

pub submit-IsSubmitted :
    (env : Env) (state_env : State.Env) (x : Crypto) (p : Parser) (settings : Settings)
    (app : AppState) (container : String) (peer : IpAddr) (input : Submission) (s : Jobs)
    → IsSubmitted env p container input s
        (submit env state_env x p settings app container peer input s).1
unfolding submit IsSubmitted
submit-IsSubmitted env state_env x p settings app container peer input s =
    elim (checked_body-cases p input) [
      | inl (e, q) ↦ rw (q, submit) (inl refl)
      | inr q ↦ elim (Option-cases (async_identity container peer app)) [
        | inl n ↦ rw (q, n, submit) (inl refl)
        | inr (identity, i) ↦
            let app' = (persist_guest_identity state_env app).1 in
            elim (persisted-cases (persist_guest_identity state_env app).0) [
              | inl (e, r) ↦ rw (q, i, submit, r) (inl refl)
              | inr r ↦
                  rw (q, i, submit, r)
                    (submit_as-IsSubmitted env x p settings app' container peer input identity s)
            ]
      ]
    ]
