-- ===== src/Jobs/Guest/Requests.antt =====
-- What a guest asks of its jobs, and what a person decides about them (src/jobs.rs).
use friendzone.Prelude.{
  String, Bool, true, false, not, ◌&&◌, ◌||◌, none, some, List, ◌==◌, string_eq, nat_eq, leb,
  if◌then◌else◌, is_none, filter, map,
}
use friendzone.Prelude.Text.{Text, text_eq, text}
use friendzone.Prelude.Map.{lookup, insert}
use friendzone.Prelude.Result.{Result, ok, err, ◌>>=◌, ◌>>◌, bail_if, context}
use friendzone.Github.{Uuid}
use friendzone.Review
use friendzone.Review.{Status}
use friendzone.Jobs.{
  Job, Saved, Jobs, Env, JobsError, no_diagnostics, not_found, execution_started, not_terminal,
  still_active, not_pending, terminal, is_waiting, is_unknown, set, wall_elapsed_ms,
}
use friendzone.Jobs.Store.{transaction, without}

-- A job is found by its id, and only by the guest's session that submitted it.
unfoldable pub owns : String → Uuid → Text → Job → Bool
owns container instance_id session job =
    job.container == container
    && job.instance_id == instance_id
    && job.submission.session_id == session

unfoldable pub owned_job : String → Uuid → Uuid → Text → Saved → Result JobsError Job
unfolding owns
owned_job container instance_id id session saved = elim (lookup id saved.jobs) [
  | none ↦ err not_found
  | some job ↦ if owns container instance_id session job then ok job else err not_found
]

-- `Jobs::get`, of which the guest gets a JSON view.
unfoldable pub get : String → Uuid → Uuid → Text → Jobs → Result JobsError Job
unfolding owned_job
get container instance_id id session s = owned_job container instance_id id session s.current

-- `Jobs::list`, of which the guest gets JSON views.
unfoldable pub list : String → Uuid → Text → Jobs → List Job
unfolding owns
list container instance_id session s =
    filter (owns container instance_id session) (map (λ e. e.1) s.current.jobs)

unfoldable pub put : Uuid → Job → Saved → Saved
put id job saved = record saved { jobs = insert id job saved.jobs }

unfoldable pub cancel_edit :
    Env → String → Uuid → Uuid → Text → Saved → Result JobsError (Unit {0} × Saved)
unfolding owned_job is_waiting set put text
cancel_edit env container instance_id id session saved = do
  job ← owned_job container instance_id id session saved
  bail_if (not (is_waiting job.status)) execution_started
  ok (
    tt,
    put id (set env Status.cancelled (text "Cancelled by submitting guest. Not sent.") job) saved,
  )

unfoldable pub cancel :
    Env → String → Uuid → Uuid → Text → Jobs → Result JobsError (Unit {0}) × Jobs
unfolding cancel_edit transaction
cancel env container instance_id id session =
    transaction env (cancel_edit env container instance_id id session)

unfoldable pub acknowledge_edit :
    Env → String → Uuid → Uuid → Text → Saved → Result JobsError (Unit {0} × Saved)
unfolding owned_job terminal is_unknown put
acknowledge_edit env container instance_id id session saved = do
  job ← owned_job container instance_id id session saved
  bail_if (not (terminal job.status) || is_unknown job.status) not_terminal
  ok (
    tt,
    put id
        (record job {
          acknowledged_at =
              if is_none job.acknowledged_at then some env.now else job.acknowledged_at;
        })
        saved,
  )

unfoldable pub acknowledge :
    Env → String → Uuid → Uuid → Text → Jobs → Result JobsError (Unit {0}) × Jobs
unfolding acknowledge_edit transaction
acknowledge env container instance_id id session =
    transaction env (acknowledge_edit env container instance_id id session)

unfoldable pub delete_edit :
    String → Uuid → Uuid → Text → Saved → Result JobsError (Unit {0} × Saved)
unfolding owned_job terminal without
delete_edit container instance_id id session saved = do
  job ← owned_job container instance_id id session saved
  bail_if (not (terminal job.status)) still_active
  ok (tt, without id saved)

unfoldable pub delete :
    Env → String → Uuid → Uuid → Text → Jobs → Result JobsError (Unit {0}) × Jobs
unfolding delete_edit transaction
delete env container instance_id id session =
    transaction env (delete_edit container instance_id id session)

-- The job after the host's decision.
unfoldable pub decided : Env → Review.Decision → Job → Job
unfolding set wall_elapsed_ms no_diagnostics text
decided env Review.Decision.approve job =
    record (set env Status.approved (text "Approved; queued for execution") job) {
      upstream = some (record no_diagnostics {
        approved_at = some env.now;
        accepted_to_approval_ms = some (wall_elapsed_ms job.created_at env.now);
      });
    }
decided env Review.Decision.deny job = set env Status.denied (text "Denied by host. Not sent.") job

unfoldable pub is_pending_job : Job → Bool
is_pending_job job = elim job.status [ Status.pending ↦ true | _ ↦ false ]

unfoldable pub decide_edit :
    Env → Uuid → String → Review.Decision → Saved → Result JobsError (Unit {0} × Saved)
unfolding is_pending_job decided put
decide_edit env id fingerprint decision saved = do
  job ← context (lookup id saved.jobs) not_found
  bail_if
      (not (is_pending_job job)
        || not (job.fingerprint == fingerprint)
        || leb job.expires_at env.now)
      not_pending
  ok (tt, put id (decided env decision job) saved)

unfoldable pub decide :
    Env → Uuid → String → Review.Decision → Jobs → Result JobsError (Unit {0}) × Jobs
unfolding decide_edit transaction
decide env id fingerprint decision = transaction env (decide_edit env id fingerprint decision)
