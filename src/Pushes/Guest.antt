-- ===== src/Pushes/Guest.antt =====
-- src/pushes.rs: what guests ask of their pushes, and what a person decides about them.
use friendzone.Prelude.{
  String, Bool, true, false, not, ◌&&◌, ◌||◌, some, [], ◌∷◌, ◌==◌, nat_eq, string_eq, leb,
  if◌then◌else◌, is_some,
}
use friendzone.Prelude.Text.{Text, text, text_eq}
use friendzone.Prelude.Map.{lookup, insert}
use friendzone.Prelude.Result.{Result, ok, err, ◌>>=◌, ◌>>◌, bail_if, context}
use friendzone.Github.{Uuid}
use friendzone.Review
use friendzone.Review.{Status}
use friendzone.Pushes.{
  Job, Saved, Pushes, Env, PushError, unknown_job, not_cancellable, not_terminal,
  not_acknowledgeable, not_pending, not_removed, set, is_waiting, is_unknown, terminal,
}
use friendzone.Pushes.Store.{transaction, fingerprint, without}
use friendzone.Pushes.Submit.{remove_bundles}

-- `job.container == container && job.instance == instance && …session_id == session`
unfoldable pub owns : String → Uuid → Text → Job → Bool
owns container instance_id session job =
    job.container == container
    && job.instance_id == instance_id
    && job.submission.session_id == session

-- `owned_job_mut`
unfoldable pub owned_job : String → Uuid → Uuid → Text → Saved → Result PushError Job
unfolding owns
owned_job container instance_id id session saved = do
  job ← context (lookup id saved.jobs) unknown_job
  bail_if (not (owns container instance_id session job)) unknown_job
  ok job

unfoldable pub get : String → Uuid → Uuid → Text → Pushes → Result PushError Job
unfolding owned_job
get container instance_id id session s = owned_job container instance_id id session s.current

unfoldable pub cancel_edit :
    Env → String → Uuid → Uuid → Text → Saved → Result PushError (Unit {0} × Saved)
unfolding owned_job set is_waiting text
cancel_edit env container instance_id id session saved = do
  job ← owned_job container instance_id id session saved
  bail_if (not (is_waiting job.status)) not_cancellable
  ok (
    tt,
    record saved {
      jobs =
          insert id (set env Status.cancelled (text "Cancelled by submitting guest. Not sent.") job)
            saved.jobs;
    },
  )

unfoldable pub cancel :
    Env → String → Uuid → Uuid → Text → Pushes → Result PushError (Unit {0}) × Pushes
unfolding cancel_edit transaction
cancel env container instance_id id session s =
    transaction env (cancel_edit env container instance_id id session) s

unfoldable pub acknowledge_edit :
    Env → String → Uuid → Uuid → Text → Saved → Result PushError (Unit {0} × Saved)
unfolding owned_job terminal is_unknown
acknowledge_edit env container instance_id id session saved = do
  job ← owned_job container instance_id id session saved
  bail_if (not (terminal job.status) || is_unknown job.status) not_acknowledgeable
  ok (
    tt,
    record saved {
      jobs =
          insert id
            (record job {
              acknowledged_at =
                  if is_some job.acknowledged_at then job.acknowledged_at else some env.now;
            })
            saved.jobs;
    },
  )

unfoldable pub acknowledge :
    Env → String → Uuid → Uuid → Text → Pushes → Result PushError (Unit {0}) × Pushes
unfolding acknowledge_edit transaction
acknowledge env container instance_id id session s =
    transaction env (acknowledge_edit env container instance_id id session) s

unfoldable pub delete_edit :
    String → Uuid → Uuid → Text → Saved → Result PushError (Unit {0} × Saved)
unfolding owned_job terminal without
delete_edit container instance_id id session saved = do
  job ← owned_job container instance_id id session saved
  bail_if (not (terminal job.status)) not_terminal
  ok (tt, without id saved)

-- `Pushes::delete`: the job first, then its bundle.
unfoldable pub delete :
    Env → String → Uuid → Uuid → Text → Pushes → Result PushError (Unit {0}) × Pushes
unfolding delete_edit transaction remove_bundles
delete env container instance_id id session s =
    let (r, s') = transaction env (delete_edit container instance_id id session) s in
    elim r [
      | err e ↦ (err e, s')
      | ok _ ↦ (
        bail_if (is_some s'.artifacts && not env.removes_bundle) not_removed,
        record s' { artifacts = remove_bundles env (id ∷ []) s'.artifacts },
      )
    ]

-- `job.status != Status::Pending`
unfoldable pub is_pending : Status → Bool
is_pending Status.pending = true
is_pending _ = false

unfoldable pub decided : Env → Review.Decision → Job → Job
unfolding set text
decided env Review.approve job = set env Status.approved (text "Approved; queued for Git push") job
decided env Review.deny job = set env Status.denied (text "Denied by host. Not sent.") job

unfoldable pub decide_edit :
    Env → Uuid → Text → Review.Decision → Saved → Result PushError (Unit {0} × Saved)
unfolding is_pending decided
decide_edit env id fingerprint decision saved = do
  job ← context (lookup id saved.jobs) unknown_job
  bail_if
      (not (is_pending job.status)
        || not (job.fingerprint == fingerprint)
        || leb job.expires_at env.now)
      not_pending
  ok (tt, record saved { jobs = insert id (decided env decision job) saved.jobs })

unfoldable pub decide :
    Env → Uuid → Text → Review.Decision → Pushes → Result PushError (Unit {0}) × Pushes
unfolding decide_edit transaction
decide env id fingerprint decision s = transaction env (decide_edit env id fingerprint decision) s
