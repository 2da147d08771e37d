-- ===== src/Jobs/Guest/Submit.antt =====
-- A guest submits a job (src/jobs.rs).
use friendzone.Prelude.{
  ◌+◌, ◌*◌, String, Bool, true, false, not, ◌&&◌, ◌||◌, Option, none, some, List, [], ◌∷◌, ◌==◌,
  string_eq, nat_eq, leb, ltb, if◌then◌else◌,
}
use friendzone.Prelude.Text.{Text, text_eq, text, is_empty, len}
use friendzone.Prelude.Map.{insert}
use friendzone.Prelude.Counts.{count}
use friendzone.Prelude.Result.{Result, ok, err, ◌>>=◌, ◌>>◌, bail_if}
use friendzone.Github.{Uuid, IpAddr, Binding}
use friendzone.Policy.{allows_all}
use friendzone.Review
use friendzone.Review.{Status}
use friendzone.State
use friendzone.State.{AppState}
use friendzone.State.Gate.{async_identity, persist_guest_identity}
use friendzone.Settings.{Settings}
use friendzone.Jobs.{
  Submission, Variables, Job, Saved, Jobs, Env, JobsError, too_many_active, too_many_of_guest,
  bad_keys, bad_query, payload_too_large, not_authorized, no_credential, not_parsed, state_error,
  is_active, max_payload, max_active, max_active_of_guest, hour, review_hours,
}
use friendzone.Jobs.Credential.{Crypto, Credential, credentials}
use friendzone.Jobs.Store.{transaction, active_jobs, prune_for_admission}

-- The surroundings of `submit`: the body that `serde_json` makes of a submission, and what reading
-- a request into a snapshot gives (`Detail::from_request_with_limit`, which is not modelled).
pub record Parser : Type 0 where
  pub to_json : Submission → Text
  pub snapshot : String → Text → Option Review.Detail

unfoldable pub is_null_or_object : Variables → Bool
is_null_or_object Variables.null = true
is_null_or_object (Variables.object _) = true
is_null_or_object (Variables.other _) = false

-- The checks of `submit` on its input; the result is the body.
unfoldable pub checked_body : Parser → Submission → Result JobsError Text
unfolding is_null_or_object
checked_body p input = do
  bail_if
      (is_empty input.request_key
        || ltb 128 (len input.request_key)
        || is_empty input.session_id
        || ltb 256 (len input.session_id))
      bad_keys
  bail_if (is_empty input.query || not (is_null_or_object input.variables)) bad_query
  let body = p.to_json input
  bail_if (ltb max_payload (len body)) payload_too_large
  ok body

-- The binding of the only credential.
unfoldable pub sole_binding : List Credential → Result JobsError Binding
sole_binding [] = err no_credential
sole_binding (c ∷ []) = ok c.binding
sole_binding (_ ∷ _ ∷ _) = err no_credential

-- The status and the outcome of a new job.
unfoldable pub admission : AppState → Review.Detail → Status × Text
unfolding text
admission app detail =
    if detail.graphql_read
    then (Status.approved, text "Read-only query queued")
    else if allows_all app.github_policy
    then (Status.approved, text "GitHub allow-all policy; queued for execution")
    else (Status.pending, text "Awaiting host approval")

unfoldable pub new_job :
    Env
    → AppState
    → String
    → IpAddr
    → Submission
    → Text
    → Uuid × Uuid
    → Binding
    → Review.Detail
    → Job
unfolding admission
new_job env app container peer input body (instance_id, epoch) binding detail = record {
  id = detail.summary.id;
  container = container;
  instance_id = instance_id;
  epoch = epoch;
  peer = peer;
  submission = input;
  body = body;
  fingerprint = detail.summary.fingerprint;
  binding = binding;
  status = (admission app detail).0;
  created_at = env.now;
  updated_at = env.now;
  expires_at = env.now + review_hours * hour;
  http_status = none;
  outcome = (admission app detail).1;
  result = none;
  upstream = none;
  acknowledged_at = none;
}

unfoldable pub is_active_of : String → Uuid × Job → Bool
unfolding is_active
is_active_of container (_, job) = job.container == container && is_active job

-- The edit of `submit`'s transaction.
unfoldable pub admit_job : Env → Job → Saved → Result JobsError (Job × Saved)
unfolding active_jobs is_active_of prune_for_admission
admit_job env job saved = do
  bail_if (leb max_active (active_jobs saved)) too_many_active
  bail_if (leb max_active_of_guest (count (is_active_of job.container) saved.jobs))
      too_many_of_guest
  pruned ← prune_for_admission env (record saved { jobs = insert job.id job saved.jobs })
  ok (job, pruned)

-- After the checks of the input and of the guest's identity.
unfoldable pub submit_as :
    Env
    → Crypto
    → Parser
    → Settings
    → AppState
    → String
    → IpAddr
    → Submission
    → Text
    → Uuid × Uuid
    → Jobs
    → Result JobsError Job × Jobs
unfolding credentials sole_binding new_job transaction admit_job
submit_as env x p settings app container peer input body identity s =
    elim (sole_binding (credentials x settings settings.entries)) [
      | err e ↦ (err e, s)
      | ok binding ↦ elim (p.snapshot container body) [
        | none ↦ (err not_parsed, s)
        | some detail ↦
            transaction env
              (admit_job env (new_job env app container peer input body identity binding detail)) s
      ]
    ]

-- `Jobs::submit`: the job, of which the guest gets a JSON view; the jobs; and the broker's state, in
-- which the guest's identity has been saved.
unfoldable pub submit :
    Env
    → State.Env
    → Crypto
    → Parser
    → Settings
    → AppState
    → String
    → IpAddr
    → Submission
    → Jobs
    → Result JobsError Job × Jobs × AppState
unfolding checked_body async_identity persist_guest_identity submit_as
submit env state_env x p settings app container peer input s = elim (checked_body p input) [
  | err e ↦ (err e, s, app)
  | ok body ↦ elim (async_identity container peer app) [
    | none ↦ (err not_authorized, s, app)
    | some identity ↦
        let (persisted, app') = persist_guest_identity state_env app in
        elim persisted [
          | err e ↦ (err (state_error e), s, app')
          | ok _ ↦
              let (r, s') = submit_as env x p settings app' container peer input body identity s in
              (r, s', app')
        ]
  ]
]
