-- ===== src/Jobs/Kept.antt =====
-- What the edits, an admission and a start keep of the stored jobs, every step of the broker keeps.
use friendzone.Prelude.{
  ◌≡◌, refl, sym, ap, subst, ◌∙◌, inl, inr, some, List, [], ◌∷◌, Option-cases, arith,
}
use friendzone.Prelude.Result.{Result, ok, err}
use friendzone.Storage.{Directory}
use friendzone.Review
use friendzone.State.{AppState, Moment}
use friendzone.Settings.{Settings}
use friendzone.Jobs.{Job, Saved, Jobs, Env, JobsError}
use friendzone.Jobs.Store.{transaction, empty_saved, new}
use friendzone.Jobs.Guest.{
  cancel, acknowledge, delete, decide, cancel_edit, acknowledge_edit, delete_edit, decide_edit,
  admit_job,
}
use friendzone.Jobs.Worker.{
  Outcome, next, stop, send, take_up, finish, finish_edit, ending, admit_edit, Response,
}
use friendzone.Jobs.Atomic.{After, IsSaved, file, transaction-keeps, transaction-IsSaved}
use friendzone.Jobs.Changes.{
  Changes, cancel_edit-Changes, acknowledge_edit-Changes, delete_edit-Changes, decide_edit-Changes,
}
use friendzone.Jobs.Progress.{finish_edit-Changes, admit_edit-Changes}
use friendzone.Jobs.Admit.{IsSubmitted, submit-IsSubmitted}
use friendzone.Jobs.Restart.{all_restarted, IsLoaded, load-IsLoaded, read_saved-some}
use friendzone.Jobs.Turns.{IsTurn, take_up-IsTurn}
use friendzone.Jobs.Steps.{
  World, Broker, Worker, stopped, idle, busy, sending, Op, submit_op, cancel_op, acknowledge_op,
  delete_op, decide_op, wake, take, respond, crash, take_job, step_running, start, step,
}

-- What `Q` needs of a submission: that the admission of the new job keeps it.
abbrev pub IsAdmissible : (Jobs → Type 0) → World → Env → Op → Jobs → Type 0
IsAdmissible Q w env (submit_op _ _ _ container _ input) s =
    (job : Job) (detail : Review.Detail)
    → w.parser.snapshot container (w.parser.to_json input) ≡ some detail
    → job.id ≡ detail.summary.id
    → Q (transaction env (admit_job env job) s).1
IsAdmissible Q w env _ s = Unit

IsSaved-target :
    (s : Jobs) (dir : Directory Saved) → IsSaved s → s.path ≡ some dir → dir.target ≡ some s.current
unfolding IsSaved file
IsSaved-target s dir f p = ground arith

take_job-jobs :
    (w : World) (env : Env) (settings : Settings) (first : Moment) (app : AppState) (job : Job)
    (rest : List Job) (b : Broker)
    → (take_job w env settings first app job rest b).jobs
      ≡ (take_up env w.crypto settings first app job b.jobs).1
unfolding take_job
take_job-jobs w env settings first app job rest b =
    go (take_up env w.crypto settings first app job b.jobs).0 refl
  where
    go :
        (o : Outcome)
        → (take_up env w.crypto settings first app job b.jobs).0 ≡ o
        → (take_job w env settings first app job rest b).jobs
          ≡ (take_up env w.crypto settings first app job b.jobs).1
    go next h = rw (h, take_job) refl
    go (stop e) h = rw (h, take_job) refl
    go (send c d) h = rw (h, take_job) refl

module _ (Q : Jobs → Type 0)
    (edits : (T : Type 0) (env : Env) (edit : Saved → Result JobsError (T × Saved)) (s : Jobs)
      → Q s
      → After (Changes s.current) (edit s.current)
      → Q (transaction env edit s).1) where
  take_up-keeps :
      (env : Env) (w : World) (settings : Settings) (first : Moment) (app : AppState) (job : Job)
      (s : Jobs)
      → Q s
      → Q (take_up env w.crypto settings first app job s).1
  unfolding IsTurn
  take_up-keeps env w settings first app job s h =
      let t = take_up-IsTurn env w.crypto settings first app job s in
      elim t [
        | inl (n, e) ↦ subst Q (sym e) h
        | inr (inl (n, (edit, c, e))) ↦ subst Q (sym e) (edits _ env edit s h c)
        | inr (inr (d, e, o)) ↦
            subst Q (sym e)
              (edits _ env (admit_edit env job d) s h (admit_edit-Changes env job d s.current))
      ]

  wake-keeps :
      (w : World) (env : Env) (b : Broker) (at : Worker)
      → b.worker ≡ at
      → Q b.jobs
      → Q (step_running w env wake b).jobs
  unfolding step_running
  wake-keeps w env b stopped e h = rw (e, step_running) h
  wake-keeps w env b idle e h = rw (e, step_running) h
  wake-keeps w env b (busy l) e h = rw (e, step_running) h
  wake-keeps w env b (sending j d l) e h = rw (e, step_running) h

  take-keeps :
      (w : World) (env : Env) (settings : Settings) (first : Moment) (app : AppState) (b : Broker)
      (at : Worker)
      → b.worker ≡ at
      → Q b.jobs
      → Q (step_running w env (take settings first app) b).jobs
  unfolding step_running
  take-keeps w env settings first app b stopped e h = rw (e, step_running) h
  take-keeps w env settings first app b idle e h = rw (e, step_running) h
  take-keeps w env settings first app b (busy []) e h = rw (e, step_running) h
  take-keeps w env settings first app b (busy (job ∷ rest)) e h =
      rw (e, step_running)
        (subst Q (sym (take_job-jobs w env settings first app job rest b))
          (take_up-keeps env w settings first app job b.jobs h))
  take-keeps w env settings first app b (sending j d l) e h = rw (e, step_running) h

  respond-keeps :
      (w : World) (env : Env) (r : Response) (b : Broker) (at : Worker)
      → b.worker ≡ at
      → Q b.jobs
      → Q (step_running w env (respond r) b).jobs
  unfolding step_running finish
  respond-keeps w env r b stopped e h = rw (e, step_running) h
  respond-keeps w env r b idle e h = rw (e, step_running) h
  respond-keeps w env r b (busy l) e h = rw (e, step_running) h
  respond-keeps w env r b (sending job d l) e h =
      rw (e, step_running)
        (edits _ env (finish_edit env job (ending env w.body d r)) b.jobs h
          (finish_edit-Changes env job w.body d r b.jobs.current))

  step_running-keeps :
      (w : World) (env : Env) (op : Op) (b : Broker)
      → IsAdmissible Q w env op b.jobs
      → Q b.jobs
      → Q (step_running w env op b).jobs
  unfolding step_running IsSubmitted
  step_running-keeps w env (submit_op e settings app container peer input) b a h =
      let t = submit-IsSubmitted env e w.crypto w.parser settings app container peer input b.jobs in
      elim t [
        | inl q ↦ subst Q (sym q) h
        | inr (job, detail, d, i, q) ↦ subst Q (sym q) (a job detail d i)
      ]
  step_running-keeps w env (cancel_op c i id session) b a h =
      unfold cancel in
      edits _ env (cancel_edit env c i id session) b.jobs h
        (cancel_edit-Changes c i id session b.jobs.current env)
  step_running-keeps w env (acknowledge_op c i id session) b a h =
      unfold acknowledge in
      edits _ env (acknowledge_edit env c i id session) b.jobs h
        (acknowledge_edit-Changes c i id session b.jobs.current env)
  step_running-keeps w env (delete_op c i id session) b a h =
      unfold delete in
      edits _ env (delete_edit c i id session) b.jobs h
        (delete_edit-Changes c i id session b.jobs.current)
  step_running-keeps w env (decide_op id f d) b a h =
      unfold decide in
      edits _ env (decide_edit env id f d) b.jobs h (decide_edit-Changes env id f d b.jobs.current)
  step_running-keeps w env wake b a h = wake-keeps w env b b.worker refl h
  step_running-keeps w env (take settings first app) b a h =
      take-keeps w env settings first app b b.worker refl h
  step_running-keeps w env (respond r) b a h = respond-keeps w env r b b.worker refl h
  step_running-keeps w env crash b a h = h

-- The same for what is said of the stored jobs only.
keeps :
    (P : Saved → Type 0)
    → ((before after : Saved) → P before → Changes before after → P after)
    → {T : Type 0} (env : Env) (edit : Saved → Result JobsError (T × Saved)) (s : Jobs)
    → P s.current
    → After (Changes s.current) (edit s.current)
    → P (transaction env edit s).1.current
keeps P changes {T} env edit s h c = transaction-keeps P env edit s h (go (edit s.current) c)
  where
    go : (r : Result JobsError (T × Saved)) → After (Changes s.current) r → After P r
    go (err e) c = tt
    go (ok (t, after)) c = changes s.current after h c

-- A start keeps what a fresh store has and restarted jobs keep.
pub start-keeps :
    (P : Saved → Type 0)
    → ((env : Env) (saved : Saved) → P saved → P (all_restarted env saved))
    → P empty_saved
    → (env : Env) (b : Broker) → IsSaved b.jobs
    → P b.jobs.current
    → IsSaved (start env b).jobs × P (start env b).jobs.current
unfolding start new IsSaved file IsLoaded
start-keeps P restarts empty env b f h = elim (Option-cases b.jobs.path) [
  | inl n ↦ rw (n, start) (inl refl, empty)
  | inr (dir, p) ↦
      let a = load-IsLoaded env dir in
      elim a [
        | inl (s, saved, r, k, n, c, g) ↦
            let q : saved ≡ b.jobs.current =
              read_saved-some env dir (IsSaved-target b.jobs dir f p) k in
            rw (p, start, r) (g, subst P (sym c) (restarts env saved (subst P (sym q) h)))
        | inr (e, r, g) ↦ rw (p, start, r) (inr (ap some (g ∙ IsSaved-target b.jobs dir f p)), h)
      ]
]

-- What every step keeps, with the file.
pub step-keeps :
    (P : Saved → Type 0)
    → ((before after : Saved) → P before → Changes before after → P after)
    → ((env : Env) (saved : Saved) → P saved → P (all_restarted env saved))
    → P empty_saved
    → (w : World) (env : Env) (op : Op) (b : Broker)
    → IsAdmissible (λ s. IsSaved s × P s.current) w env op b.jobs
    → IsSaved b.jobs × P b.jobs.current
    → IsSaved (step w env op b).jobs × P (step w env op b).jobs.current
unfolding step
step-keeps P changes restarts empty w env op b a (f, h) = go b.worker refl
  where
    edits :
        (T : Type 0) (env : Env) (edit : Saved → Result JobsError (T × Saved)) (s : Jobs)
        → IsSaved s × P s.current
        → After (Changes s.current) (edit s.current)
        → IsSaved (transaction env edit s).1 × P (transaction env edit s).1.current
    edits T env edit s (f, h) c = (transaction-IsSaved env edit s f, keeps P changes env edit s h c)

    running : IsSaved (step_running w env op b).jobs × P (step_running w env op b).jobs.current
    running = step_running-keeps (λ s. IsSaved s × P s.current) edits w env op b a (f, h)

    go :
        (at : Worker)
        → b.worker ≡ at
        → IsSaved (step w env op b).jobs × P (step w env op b).jobs.current
    go stopped e = rw (e, step) (start-keeps P restarts empty env b f h)
    go idle e = rw (e, step) running
    go (busy l) e = rw (e, step) running
    go (sending j d l) e = rw (e, step) running

pub step-IsSaved :
    (w : World) (env : Env) (op : Op) (b : Broker) → IsSaved b.jobs → IsSaved (step w env op b).jobs
step-IsSaved w env op b f =
    (step-keeps (λ _. Unit) (λ _ _ _ _. tt) (λ _ _ _. tt) tt w env op b (admissible op) (f, tt)).0
  where
    admissible : (op : Op) → IsAdmissible (λ s. IsSaved s × Unit {0}) w env op b.jobs
    admissible (submit_op _ _ _ _ _ _) =
        λ job detail d i. (transaction-IsSaved env (admit_job env job) b.jobs f, tt)
    admissible op = tt
