-- ===== src/Jobs/Steps.antt =====
-- The jobs with their worker, as steps: guests, the host and the worker take turns at the lock, and
-- the broker may stop at any time and start again.
use friendzone.Prelude.{String, none, some, List, [], ◌∷◌}
use friendzone.Prelude.Text.{Text}
use friendzone.Prelude.Result.{ok, err}
use friendzone.Github.{Uuid, IpAddr}
use friendzone.Review
use friendzone.State
use friendzone.State.{AppState, Moment}
use friendzone.Settings.{Settings}
use friendzone.Jobs.{Job, Jobs, Env, Submission, UpstreamDiagnostics}
use friendzone.Jobs.Credential.{Crypto}
use friendzone.Jobs.Store.{new, load}
use friendzone.Jobs.Guest.{Parser, submit, cancel, acknowledge, delete, decide}
use friendzone.Jobs.Worker.{Body, Response, Outcome, next, send, work, take_up, finish}

-- Where the worker stands: the broker is not running, or the worker waits for its next turn, has jobs
-- of its turn to take up, or waits for the response to a job that it has sent.
pub data Worker : Type 0 where
  stopped idle : Worker
  busy : List Job → Worker
  sending : Job → UpstreamDiagnostics → List Job → Worker

-- The jobs, the worker, and the ids of all jobs that were ever sent, the last one first.
pub record Broker : Type 0 where
  pub jobs : Jobs
  pub worker : Worker
  pub sent : List Uuid

-- The code outside this repository.
pub record World : Type 0 where
  pub crypto : Crypto
  pub parser : Parser
  pub body : Body

pub data Op : Type 0 where
  submit_op : State.Env → Settings → AppState → String → IpAddr → Submission → Op
  cancel_op acknowledge_op delete_op : String → Uuid → Uuid → Text → Op
  decide_op : Uuid → String → Review.Decision → Op
  wake : Op
  take : Settings → Moment → AppState → Op
  respond : Response → Op
  crash : Op

-- The worker after a job: the next one, or the end of the turn.
unfoldable pub go_on : Outcome → List Job → Worker
go_on next rest = busy rest
go_on _ rest = idle

unfoldable pub take_job :
    World → Env → Settings → Moment → AppState → Job → List Job → Broker → Broker
unfolding take_up go_on
take_job w env settings first app job rest b =
    let (outcome, jobs) = take_up env w.crypto settings first app job b.jobs in
    elim outcome [
      | send _ d ↦ record { jobs = jobs; worker = sending job d rest; sent = job.id ∷ b.sent }
      | o ↦ record b { jobs = jobs; worker = go_on o rest }
    ]

-- A running broker.
unfoldable pub step_running : World → Env → Op → Broker → Broker
unfolding submit cancel acknowledge delete decide work take_job finish go_on
step_running w env (submit_op state_env settings app container peer input) b = record b {
  jobs = (submit env state_env w.crypto w.parser settings app container peer input b.jobs).1;
}
step_running w env (cancel_op container i id session) b = record b {
  jobs = (cancel env container i id session b.jobs).1;
}
step_running w env (acknowledge_op container i id session) b = record b {
  jobs = (acknowledge env container i id session b.jobs).1;
}
step_running w env (delete_op container i id session) b = record b {
  jobs = (delete env container i id session b.jobs).1;
}
step_running w env (decide_op id fingerprint decision) b = record b {
  jobs = (decide env id fingerprint decision b.jobs).1;
}
step_running w env wake b = elim b.worker [
  | idle ↦ record b { worker = busy (work b.jobs) }
  | _ ↦ b
]
step_running w env (take settings first app) b = elim b.worker [
  | busy [] ↦ record b { worker = idle }
  | busy (job ∷ rest) ↦ take_job w env settings first app job rest b
  | _ ↦ b
]
step_running w env (respond response) b = elim b.worker [
  | sending job d rest ↦
      let (outcome, jobs) = finish env w.body job d response b.jobs in
      record b { jobs = jobs; worker = go_on outcome rest }
  | _ ↦ b
]
step_running w env crash b = record b { worker = stopped }

-- The start of the broker: a store without a file starts empty; where `load` fails the broker stays
-- stopped, and the directory is as `load` leaves it.
unfoldable pub start : Env → Broker → Broker
unfolding load new
start env b = elim b.jobs.path [
  | none ↦ record b { jobs = new; worker = idle }
  | some dir ↦
      let (loaded, dir') = load env dir in
      elim loaded [
        | ok jobs ↦ record b { jobs = jobs; worker = idle }
        | err _ ↦ record b { jobs = record b.jobs { path = some dir' } }
      ]
]

-- A stopped broker starts with its next step, whatever that is asked for.
unfoldable pub step : World → Env → Op → Broker → Broker
unfolding start step_running
step w env op b = elim b.worker [ stopped ↦ start env b | _ ↦ step_running w env op b ]

unfoldable pub run : World → List (Env × Op) → Broker → Broker
unfolding step
run w [] b = b
run w ((env, op) ∷ ops) b = run w ops (step w env op b)
