-- ===== src/Pushes/Worker.antt =====
-- src/pushes.rs: one turn of the worker, `Pushes::tick`, in the pieces between which others run.
use friendzone.Prelude.{
  Bool, true, false, not, ◌&&◌, ◌||◌, Option, none, some, ◌++◌, List, [], ◌==◌, nat_eq, leb, find?,
  any, map, filter, is_some, if◌then◌else◌,
}
use friendzone.Prelude.Text.{Text, text, text_eq}
use friendzone.Prelude.Map.{lookup, insert}
use friendzone.Prelude.Result.{Result, ok, err, ◌>>=◌, context}
use friendzone.Github.{Uuid, Binding}
use friendzone.Policy.{allows_all}
use friendzone.Review.{Status}
use friendzone.State.{AppState, Moment}
use friendzone.State.Gate.{async_identity, holds_identity}
use friendzone.Settings.{Settings, real_value, has_name}
use friendzone.Jobs.Credential.{Crypto, current_credential}
use friendzone.Pushes.{
  Review, Job, Saved, Pushes, Env, PushError, job_disappeared, no_storage, set, is_waiting,
}
use friendzone.Pushes.Store.{transaction}
use friendzone.Pushes.Submit.{is_bad_token}

-- The jobs of a turn.
unfoldable pub work : Pushes → List Job
unfolding is_waiting
work s = filter (λ job. is_waiting job.status) (map (λ e. e.1) s.current.jobs)

-- `async_identity(…) == Some((job.instance, job.epoch))`
unfoldable pub keeps_identity : AppState → Job → Bool
unfolding async_identity
keeps_identity app job = elim (async_identity job.container job.peer app) [
  | none ↦ false
  | some (instance_id, epoch) ↦ instance_id == job.instance_id && epoch == job.epoch
]

-- `current_git_token`
unfoldable pub current_git_token : Crypto → Settings → Binding → Option Text
unfolding current_credential real_value has_name is_bad_token text
current_git_token x s binding = elim (current_credential x s binding) [
  | none ↦ none
  | some _ ↦
      elim (find? (λ e. has_name binding.entry e && any (λ host. host == text "github.com") e.hosts)
        s.entries) [
          | none ↦ none
          | some e ↦ elim (real_value x.external e s) [
            | none ↦ none
            | some token ↦ if is_bad_token token then none else some token
          ]
        ]
]

unfoldable pub is_preparing : Status → Bool
is_preparing Status.preparing = true
is_preparing _ = false

unfoldable pub is_approved : Status → Bool
is_approved Status.approved = true
is_approved _ = false

-- A change of the job with this ID, if it is there and its status is one of these.
unfoldable pub change_if :
    (Status → Bool) → (Job → Job) → Uuid → Saved → Result PushError (Unit {0} × Saved)
change_if p f id saved = elim (lookup id saved.jobs) [
  | none ↦ ok (tt, saved)
  | some job ↦
      if p job.status
      then ok (tt, record saved { jobs = insert id (f job) saved.jobs })
      else ok (tt, saved)
]

unfoldable pub dropped : Env → Job → Job
unfolding set text
dropped env job =
    if leb job.expires_at env.now
    then set env Status.expired (text "Review expired after 24 hours. Not sent.") job
    else set env Status.cancelled (text "Guest permissions changed. Not sent.") job

-- The edit of a job that has expired, or whose guest has lost its identity.
unfoldable pub drop_edit : Env → Uuid → Saved → Result PushError (Unit {0} × Saved)
unfolding change_if dropped is_waiting
drop_edit env = change_if is_waiting (dropped env)

unfoldable pub blocked : Env → Job → Job
unfolding set text
blocked env = set env Status.blocked (text "GitHub credential changed. Not sent.")

unfoldable pub block_edit :
    Env → (Status → Bool) → Uuid → Saved → Result PushError (Unit {0} × Saved)
unfolding change_if blocked
block_edit env p = change_if p (blocked env)

-- What the review, or its failure, makes of a job that is being prepared.
unfoldable pub prepared : Env → Bool → Result Text Review → Job → Job
unfolding set text
prepared env allow_all r job =
    if leb job.expires_at env.now
    then set env Status.expired (text "Review expired after 24 hours. Not sent.") job
    else elim r [
      | err e ↦ set env Status.blocked (text "Bundle rejected: " ++ e) job
      | ok review ↦
          if not (review.bundle_sha256 == job.bundle_sha256)
          then set env Status.blocked (text "Stored Git bundle digest changed. Not sent.") job
          else if allow_all
          then set env Status.approved (text "GitHub allow-all policy; queued for Git push")
              (record job { review = some review })
          else set env Status.pending (text "Awaiting host approval")
              (record job { review = some review })
    ]

unfoldable pub prepared_edit :
    Env → Bool → Result Text Review → Uuid → Saved → Result PushError (Unit {0} × Saved)
unfolding change_if prepared is_preparing
prepared_edit env allow_all r id saved = elim (lookup id saved.jobs) [
  | none ↦ err job_disappeared
  | some _ ↦ change_if is_preparing (prepared env allow_all r) id saved
]

unfoldable pub lapsed : Env → Job → Job
unfolding set text
lapsed env =
    set env Status.cancelled (text "Guest permissions changed during bundle validation. Not sent.")

unfoldable pub lapsed_edit : Env → Uuid → Saved → Result PushError (Unit {0} × Saved)
unfolding change_if lapsed is_preparing
lapsed_edit env = change_if is_preparing (lapsed env)

-- The consistency boundary: the job is saved as being sent before the first byte goes upstream.
unfoldable pub admit_edit : Env → Uuid → Saved → Result PushError (Bool × Saved)
unfolding is_approved set text
admit_edit env id saved = elim (lookup id saved.jobs) [
  | none ↦ ok (false, saved)
  | some job ↦
      if not (is_approved job.status) || leb job.expires_at env.now
      then ok (false, saved)
      else ok (
        true,
        record saved {
          jobs =
              insert id (set env Status.sending (text "Publishing branch to GitHub") job)
                saved.jobs;
        },
      )
]

-- `expect("approved review").head_oid`, whose panic is not a value here: it shows nothing.
unfoldable pub head_of : Option Review → Text
head_of none = []
head_of (some r) = r.head_oid

unfoldable pub finished : Env → Result Text Text → Job → Job
unfolding set head_of text
finished env (ok output) job =
    record (set env Status.response_received
      (text "Published " ++ (job.submission.branch ++ (text " at " ++ head_of job.review))) job) {
        result = some output;
      }
finished env (err e) job =
    record (set env Status.unknown
      (text
        "Git push did not produce a verified result. Inspect the remote branch before retrying.")
      job) { result = some e }

unfoldable pub finish_edit :
    Env → Result Text Text → Uuid → Saved → Result PushError (Unit {0} × Saved)
unfolding finished
finish_edit env r id saved = do
  job ← context (lookup id saved.jobs) job_disappeared
  ok (tt, record saved { jobs = insert id (finished env r job) saved.jobs })

-- What the worker does with a job: it goes on to the next, stops the turn with an error, derives the
-- review with a token, or pushes with one.
pub data Outcome : Type 0 where
  next : Outcome
  stop : PushError → Outcome
  derive push : Text → Outcome

unfoldable pub continue_with : Result PushError (Unit {0}) × Pushes → Outcome × Pushes
continue_with (ok _, s) = (next, s)
continue_with (err e, s) = (stop e, s)

unfoldable pub with_storage : Outcome → Pushes → Outcome × Pushes
with_storage o s = if is_some s.artifacts then (o, s) else (stop no_storage, s)

unfoldable pub admitted : Text → Result PushError Bool × Pushes → Outcome × Pushes
unfolding with_storage
admitted token (ok true, s) = with_storage (push token) s
admitted token (ok false, s) = (next, s)
admitted token (err e, s) = (stop e, s)

-- The turn's body for one job, up to the work of Git. The worker looks at its copy of the job and at
-- the guest's identity at a `first` moment; the clock and the state of the transaction, and of the
-- check before it, are later ones, and the stored jobs are read only then.
unfoldable pub take_up :
    Env → Crypto → Settings → Moment → AppState → Job → Pushes → Outcome × Pushes
unfolding keeps_identity drop_edit block_edit current_git_token transaction continue_with
    with_storage admitted admit_edit holds_identity is_preparing is_approved
take_up env x settings first app job s =
    if leb job.expires_at first.at || not (keeps_identity first.app job)
    then continue_with (transaction env (drop_edit env job.id) s)
    else if is_preparing job.status
    then elim (current_git_token x settings job.binding) [
      | none ↦ continue_with (transaction env (block_edit env is_preparing job.id) s)
      | some token ↦ with_storage (derive token) s
    ]
    else if not (is_approved job.status)
    then (next, s)
    else elim (current_git_token x settings job.binding) [
      | none ↦ continue_with (transaction env (block_edit env is_approved job.id) s)
      | some token ↦
          if not (holds_identity job.container job.peer job.instance_id job.epoch app)
          then (next, s)
          else admitted token (transaction env (admit_edit env job.id) s)
    ]

-- After the work of Git on a bundle, with the review or the error.
unfoldable pub after_derive : Env → AppState → Job → Result Text Review → Pushes → Outcome × Pushes
unfolding holds_identity prepared_edit lapsed_edit transaction continue_with
after_derive env app job r s =
    if holds_identity job.container job.peer job.instance_id job.epoch app
    then continue_with
        (transaction env (prepared_edit env (allows_all app.github_policy) r job.id) s)
    else continue_with (transaction env (lapsed_edit env job.id) s)

-- After a push, with its output or the error.
unfoldable pub after_push : Env → Job → Result Text Text → Pushes → Outcome × Pushes
unfolding finish_edit transaction continue_with
after_push env job r s = continue_with (transaction env (finish_edit env r job.id) s)
