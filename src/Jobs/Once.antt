-- ===== src/Jobs/Once.antt =====
-- No job is ever sent twice.
use friendzone.Prelude.{
  All-zip, All-map, ◌≡◌, ◌≢◌, refl, sym, ap, subst, ◌⊎◌, inl, inr, some, List, [], ◌∷◌, arith, All,
  nat_eq, Option-cases,
}
use friendzone.Prelude.Result.{Result, ok, err}
use friendzone.Storage.{Directory}
use friendzone.Github.{Uuid}
use friendzone.Jobs.{Job, Saved, Jobs, Env, JobsError}
use friendzone.Jobs.Store.{load}
use friendzone.Jobs.Atomic.{IsSaved}
use friendzone.Jobs.Steps.{
  World, Broker, Worker, Op, wake, take, respond, stopped, idle, busy, sending, take_job,
  step_running, start, step, run,
}
use friendzone.Jobs.Turns.{sends, take_up-sends}
use friendzone.Jobs.Kept.{step-IsSaved}
use friendzone.Jobs.Worker.{Outcome, next, stop, send, take_up}
use friendzone.State.{AppState, Moment}
use friendzone.Settings.{Settings}
use friendzone.Jobs.Spent.{IsSpent, IsOther, step-IsSpent, IsAdmission-waited, IsAdmission-IsSpent}

-- What a step adds to the jobs that were sent: nothing, or one that waited before and is spent now.
unfoldable pub IsSending : Broker → Broker → Type 0
unfolding IsSpent
IsSending b b' =
    (b'.sent ≡ b.sent)
    ⊎ ((id : Uuid) × (b'.sent ≡ id ∷ b.sent)
        × (¬ IsSpent id b.jobs.current)
        × IsSpent id b'.jobs.current)

take_job-IsSending :
    (w : World) (env : Env) (settings : Settings) (first : Moment) (app : AppState) (job : Job)
    (rest : List Job) (b : Broker)
    → IsSending b (take_job w env settings first app job rest b)
unfolding take_job IsSending
take_job-IsSending w env settings first app job rest b =
    go (take_up env w.crypto settings first app job b.jobs).0 refl
  where
    go :
        (o : Outcome)
        → (take_up env w.crypto settings first app job b.jobs).0 ≡ o
        → IsSending b (take_job w env settings first app job rest b)
    go next h = rw (h, take_job) (inl refl)
    go (stop e) h = rw (h, take_job) (inl refl)
    go (send c d) h =
        let (f, a, i) = take_up-sends env w.crypto settings first app job b.jobs (ap sends h) in
        rw (h, take_job)
          (inr (
            job.id,
            refl,
            IsAdmission-waited env job b.jobs.current
                (take_up env w.crypto settings first app job b.jobs).1.current a,
            IsAdmission-IsSpent env job b.jobs.current
                (take_up env w.crypto settings first app job b.jobs).1.current a,
          ))

step_running-IsSending :
    (w : World) (env : Env) (op : Op) (b : Broker) → IsSending b (step_running w env op b)
unfolding step_running IsSending
step_running-IsSending w env (take settings first app) b = go b.worker refl
  where
    go :
        (at : Worker) → b.worker ≡ at → IsSending b (step_running w env (take settings first app) b)
    go stopped e = rw (e, step_running) (inl refl)
    go idle e = rw (e, step_running) (inl refl)
    go (busy []) e = rw (e, step_running) (inl refl)
    go (busy (job ∷ rest)) e =
        rw (e, step_running) (take_job-IsSending w env settings first app job rest b)
    go (sending j d l) e = rw (e, step_running) (inl refl)
step_running-IsSending w env wake b = inl (ground arith)
step_running-IsSending w env (respond r) b = inl (ground arith)
step_running-IsSending w env op b = inl refl

start-sent : (env : Env) (b : Broker) → (start env b).sent ≡ b.sent
unfolding start
start-sent env b = elim (Option-cases b.jobs.path) [
  | inl n ↦ rw (n, start) refl
  | inr (dir, p) ↦ go (load env dir).0 dir refl p
]
  where
    go :
        (r : Result JobsError Jobs) (dir : Directory Saved)
        → (load env dir).0 ≡ r
        → b.jobs.path ≡ some dir
        → (start env b).sent ≡ b.sent
    go (ok s) dir h p = rw (p, start, h) refl
    go (err e) dir h p = rw (p, start, h) refl

step-IsSending : (w : World) (env : Env) (op : Op) (b : Broker) → IsSending b (step w env op b)
unfolding step IsSending
step-IsSending w env op b = go b.worker refl
  where
    go : (at : Worker) → b.worker ≡ at → IsSending b (step w env op b)
    go stopped e = rw (e, step) (inl (start-sent env b))
    go idle e = rw (e, step) (step_running-IsSending w env op b)
    go (busy l) e = rw (e, step) (step_running-IsSending w env op b)
    go (sending j d l) e = rw (e, step) (step_running-IsSending w env op b)

-- Every id stands once.
unfoldable pub IsOnce : List Uuid → Type 0
IsOnce [] = Unit
IsOnce (id ∷ ids) = All (λ j. id ≢ j) ids × IsOnce ids

-- Every new job of the run has an id that was not sent before.
unfoldable pub IsFresh : World → List (Env × Op) → Broker → Type 0
unfolding IsOther step
IsFresh w [] b = Unit
IsFresh w ((env, op) ∷ ops) b = All (λ id. IsOther w id op) b.sent × IsFresh w ops (step w env op b)

-- The jobs that were sent are spent, and each was sent once.
unfoldable pub IsSound : Broker → Type 0
IsSound b = IsSaved b.jobs × All (λ id. IsSpent id b.jobs.current) b.sent × IsOnce b.sent

step-IsSound :
    (w : World) (env : Env) (op : Op) (b : Broker)
    → All (λ id. IsOther w id op) b.sent
    → IsSound b
    → IsSound (step w env op b)
unfolding IsSound IsSending IsOnce
step-IsSound w env op b o (f, a, u) =
    let t = step-IsSending w env op b in
    let a' : All (λ id. IsSpent id (step w env op b).jobs.current) b.sent =
      All-zip b.sent (λ id x y. (step-IsSpent id w env op b x (f, y)).1) o a in
    let f' = step-IsSaved w env op b f in
    elim t [
      | inl e ↦ (
        f',
        subst (All (λ id. IsSpent id (step w env op b).jobs.current)) (sym e) a',
        subst IsOnce (sym e) u,
      )
      | inr (id, e, n, s) ↦ (
        f',
        subst (All (λ id. IsSpent id (step w env op b).jobs.current)) (sym e) (s, a'),
        subst IsOnce (sym e)
            (All-map b.sent (λ j y q. n (subst (λ k. IsSpent k b.jobs.current) (sym q) y)) a, u),
      )
    ]

-- Through any run of guests, the host and the worker, with a stop and a start of the broker at any
-- time, and however the file operations end, no job is sent to GitHub twice, if the ids of new jobs
-- are fresh, the file at the start holds the jobs in memory, and no job was sent twice or waits after
-- it was sent before.
pub run-IsOnce :
    (w : World) (ops : List (Env × Op)) (b : Broker)
    → IsFresh w ops b
    → IsSound b
    → IsSound (run w ops b)
unfolding run IsFresh
run-IsOnce w [] b h s = s
run-IsOnce w ((env, op) ∷ ops) b (o, h) s =
    run-IsOnce w ops (step w env op b) h (step-IsSound w env op b o s)
