-- ===== src/Pushes/Submit.antt =====
-- src/pushes.rs: the submission of a push, `Pushes::submit`.
use friendzone.Prelude.{
  ◌+◌, ◌*◌, String, Bool, not, ◌&&◌, ◌||◌, Option, none, some, List, [], ◌∷◌, ◌==◌, nat_eq,
  string_eq, leb, ltb, length, filter, any, if◌then◌else◌,
}
use friendzone.Prelude.Text.{Text, text, text_eq, is_empty}
use friendzone.Prelude.Map.{Map, insert}
use friendzone.Prelude.Counts.{count}
use friendzone.Prelude.Result.{Result, ok, err, ◌>>=◌, ◌>>◌, bail_if}
use friendzone.Github.{Uuid, IpAddr, Binding}
use friendzone.Review.{Status}
use friendzone.State
use friendzone.State.{AppState}
use friendzone.State.Gate.{async_identity, persist_guest_identity}
use friendzone.Settings.{EscrowEntry, Settings, real_value}
use friendzone.Jobs.{hour}
use friendzone.Jobs.Credential.{Crypto, from_entry}
use friendzone.Pushes.{
  Submission, Artifact, Job, Saved, Pushes, Env, PushError, bad_bundle, not_authorized, state_error,
  bad_credential, no_storage, not_renamed, too_many_active, too_many_of_guest, is_active,
  max_bundle, review_hours,
}
use friendzone.Pushes.Checks.{validate_submission}
use friendzone.Pushes.Store.{transaction, prune_for_admission, fingerprint}

unfoldable pub put : Job → Saved → Saved
put job saved = record saved { jobs = insert job.id job saved.jobs }

-- The tokens of the entries that hold a credential for Git, with their bindings.
unfoldable pub git_credentials : Crypto → Settings → List EscrowEntry → List (Binding × Text)
unfolding from_entry real_value text
git_credentials x s [] = []
git_credentials x s (e ∷ es) =
    let rest = git_credentials x s es in
    if not (any (λ host. host == text "github.com") e.hosts)
    then rest
    else elim (from_entry x s e) [
      | none ↦ rest
      | some c ↦ elim (real_value x.external e s) [
        | none ↦ rest
        | some token ↦ (c.binding, token) ∷ rest
      ]
    ]

-- `token.bytes().any(|byte| byte.is_ascii_control())` and the test before it.
unfoldable pub is_bad_token : Text → Bool
is_bad_token token = is_empty token || any (λ c. ltb c 32 || c == 127) token

-- `git_credential`: there is exactly one.
unfoldable pub git_credential : Crypto → Settings → Result PushError (Binding × Text)
unfolding git_credentials is_bad_token
git_credential x s = elim (git_credentials x s s.entries) [
  | [] ↦ err bad_credential
  | (binding, token) ∷ rest ↦
      if not (length rest == 0) || is_bad_token token
      then err bad_credential
      else ok (binding, token)
]

-- `Job { … }` of `submit`
unfoldable pub new_job :
    Env → Crypto → String → IpAddr → Submission → Artifact → Uuid × Uuid → Binding → Job
unfolding fingerprint text
new_job env x container peer input bundle (instance_id, epoch) binding = record {
  id = env.new_id;
  container = container;
  instance_id = instance_id;
  epoch = epoch;
  peer = peer;
  submission = input;
  review = none;
  bundle_sha256 = bundle.sha256;
  bundle_bytes = bundle.bytes;
  fingerprint = fingerprint x input bundle.sha256 binding;
  binding = binding;
  status = Status.preparing;
  created_at = env.now;
  updated_at = env.now;
  expires_at = env.now + review_hours * hour;
  outcome = text "Validating bundle and deriving review";
  result = none;
  acknowledged_at = none;
}

-- The edit of `submit`: the job, with the IDs of those that were removed for it.
unfoldable pub admit_job : Env → Job → Saved → Result PushError ((Job × List Uuid) × Saved)
unfolding is_active prune_for_admission put
admit_job env job saved = do
  bail_if (leb 8 (count (λ e. is_active (e.1)) saved.jobs)) too_many_active
  bail_if (leb 4 (count (λ e. (e.1).container == job.container && is_active (e.1)) saved.jobs))
      too_many_of_guest
  pruned ← prune_for_admission env 0 (put job saved)
  ok ((job, pruned.1), pruned.0)

-- The bundles without those of some IDs, where their removal works.
unfoldable pub remove_bundles :
    Env → List Uuid → Option (Map Uuid Artifact) → Option (Map Uuid Artifact)
remove_bundles env ids none = none
remove_bundles env ids (some artifacts) = some (
    if env.removes_bundle
    then filter (λ a. not (any (λ id. id == a.0) ids)) artifacts
    else artifacts)

-- From the moving of the bundle to its place.
unfoldable pub submit_job : Env → Job → Artifact → Pushes → Result PushError Job × Pushes
unfolding transaction admit_job remove_bundles
submit_job env job bundle s = elim s.artifacts [
  | none ↦ (err no_storage, s)
  | some artifacts ↦
      if not env.renames_bundle
      then (err not_renamed, s)
      else let moved : Pushes = record s { artifacts = some (insert job.id bundle artifacts) } in
        let (r, s') = transaction env (admit_job env job) moved in
        elim r [
          | ok (j, removed) ↦
              (ok j, record s' { artifacts = remove_bundles env removed s'.artifacts })
          | err e ↦ (err e, record s' { artifacts = remove_bundles env (job.id ∷ []) s'.artifacts })
        ]
]

-- `Pushes::submit`, with the uploaded bundle: the job, the pushes, and the broker's state.
unfoldable pub submit :
    Env
    → State.Env
    → Crypto
    → Settings
    → String
    → IpAddr
    → Submission
    → Artifact
    → AppState
    → Pushes
    → Result PushError Job × Pushes × AppState
unfolding validate_submission async_identity persist_guest_identity git_credential new_job
    submit_job
submit env state_env x settings container peer input bundle app s =
    elim (validate_submission input
      >> bail_if (bundle.bytes == 0 || ltb max_bundle bundle.bytes) bad_bundle) [
        | err e ↦ (err e, s, app)
        | ok _ ↦ elim (async_identity container peer app) [
          | none ↦ (err not_authorized, s, app)
          | some identity ↦
              let (persisted, app') = persist_guest_identity state_env app in
              elim persisted [
                | err e ↦ (err (state_error e), s, app')
                | ok _ ↦ elim (git_credential x settings) [
                  | err e ↦ (err e, s, app')
                  | ok (binding, token) ↦
                      let (r, s') =
                        submit_job env (new_job env x container peer input bundle identity binding)
                          bundle s in
                      (r, s', app')
                ]
              ]
        ]
      ]
