-- ===== src/Jobs/Worker/Turn.antt =====
-- A turn of the worker up to the sending of a job (src/jobs.rs).
use friendzone.Prelude.{
  Bool, true, false, not, ◌&&◌, ◌||◌, none, some, List, ◌==◌, nat_eq, option_eq, leb, filter, map,
  is_some_and, if◌then◌else◌, unwrap_or,
}
use mathlib.Core.Option
use friendzone.Prelude.Text.{text}
use friendzone.Prelude.Map.{lookup}
use friendzone.Prelude.Result.{Result, ok, err}
use friendzone.Review.{Status}
use friendzone.State.{AppState, Moment}
use friendzone.State.Gate.{async_identity, holds_identity}
use friendzone.Settings.{Settings}
use friendzone.Jobs.{
  Job, Saved, Jobs, Env, JobsError, UpstreamDiagnostics, no_diagnostics, is_waiting, set,
  wall_elapsed_ms,
}
use friendzone.Jobs.Credential.{Crypto, Credential, current_credential}
use friendzone.Jobs.Store.{transaction}
use friendzone.Jobs.Guest.{put}

-- The jobs that a turn takes up.
unfoldable pub work : Jobs → List Job
unfolding is_waiting
work s = filter (λ job. is_waiting job.status) (map (λ e. e.1) s.current.jobs)

unfoldable pub is_approved : Status → Bool
is_approved Status.approved = true
is_approved _ = false

-- Whether the guest's identity is still the one that submitted the job.
unfoldable pub keeps_identity : AppState → Job → Bool
unfolding async_identity
keeps_identity app job =
    is_some_and (async_identity job.container job.peer app)
      (λ p. p.0 == job.instance_id && p.1 == job.epoch)

-- The edit of a job that has expired or whose guest has changed.
unfoldable pub drop_edit : Env → Job → Saved → Result JobsError (Unit {0} × Saved)
unfolding is_waiting set put text
drop_edit env job saved = elim (lookup job.id saved.jobs) [
  | none ↦ ok (tt, saved)
  | some j ↦
      if not (is_waiting j.status)
      then ok (tt, saved)
      else if leb j.expires_at env.now
      then ok (
        tt,
        put job.id (set env Status.expired (text "Review expired after 24 hours. Not sent.") j)
            saved,
      )
      else ok (
        tt,
        put job.id (set env Status.cancelled (text "Guest permissions changed. Not sent.") j) saved,
      )
]

-- The edit of a job whose credential has changed.
unfoldable pub block_edit : Env → Job → Saved → Result JobsError (Unit {0} × Saved)
unfolding is_approved set put text
block_edit env job saved = elim (lookup job.id saved.jobs) [
  | none ↦ ok (tt, saved)
  | some j ↦
      if is_approved j.status
      then ok (
        tt,
        put job.id
            (set env Status.blocked (text "GitHub credential changed. Not sent; submit again.") j)
            saved,
      )
      else ok (tt, saved)
]

unfoldable pub sending_diagnostics : Env → Job → UpstreamDiagnostics
unfolding wall_elapsed_ms no_diagnostics
sending_diagnostics env job =
    let d = unwrap_or job.upstream no_diagnostics in
    record d {
      started_at = some env.now;
      accepted_to_admission_ms = some (wall_elapsed_ms job.created_at env.now);
      approval_to_admission_ms = Option.map (λ t. wall_elapsed_ms t env.now) d.approved_at;
    }

-- The edit that admits a job: it is saved as being sent before the first byte is.
unfoldable pub admit_edit :
    Env → Job → UpstreamDiagnostics → Saved → Result JobsError (Bool × Saved)
unfolding is_approved set put text
admit_edit env job diagnostics saved = elim (lookup job.id saved.jobs) [
  | none ↦ ok (false, saved)
  | some j ↦
      if not (is_approved j.status) || leb j.expires_at env.now
      then ok (false, saved)
      else ok (
        true,
        put job.id
            (record (set env Status.sending (text "Executing on GitHub") j) {
              upstream = some diagnostics;
            })
            saved,
      )
]

-- What the worker does with a job: it goes on to the next, stops the turn with an error, or sends
-- the job's body with a credential.
pub data Outcome : Type 0 where
  next : Outcome
  stop : JobsError → Outcome
  send : Credential → UpstreamDiagnostics → Outcome

unfoldable pub continue_with : Result JobsError (Unit {0}) → Outcome
continue_with (ok _) = next
continue_with (err e) = stop e

-- The turn's body for one job, up to the request. The worker looks at its copy of the job and at the
-- guest's identity at a `first` moment; the clock and the state of the transaction, and of the check
-- before it, are later ones, and the stored jobs are read only then.
unfoldable pub take_up : Env → Crypto → Settings → Moment → AppState → Job → Jobs → Outcome × Jobs
unfolding keeps_identity drop_edit block_edit admit_edit sending_diagnostics is_approved
    current_credential transaction continue_with holds_identity
take_up env x settings first app job s =
    if leb job.expires_at first.at || not (keeps_identity first.app job)
    then (let (r, s') = transaction env (drop_edit env job) s in (continue_with r, s'))
    else if not (is_approved job.status)
    then (next, s)
    else elim (current_credential x settings job.binding) [
      | none ↦ let (r, s') = transaction env (block_edit env job) s in (continue_with r, s')
      | some credential ↦
          let d = sending_diagnostics env job in
          if not (holds_identity job.container job.peer job.instance_id job.epoch app)
          then (next, s)
          else let (r, s') = transaction env (admit_edit env job d) s in
            elim r [
              | err e ↦ (stop e, s')
              | ok true ↦ (send credential d, s')
              | ok false ↦ (next, s')
            ]
    ]
