-- ===== src/Jobs/Spent.antt =====
-- A job that was sent, or is over, waits no more, whatever happens.
use friendzone.Prelude.{
  length, ◌≡◌, ◌≢◌, refl, sym, ap, subst, ◌∙◌, inl, inr, false, Option, none, some, arith,
  is_some_and, nat_eq, nat_beq_iff, Bool-cases, Option-cases, false≢true,
}
use friendzone.Prelude.Map.{
  lookup, insert, map_values, lookup-insert, lookup-remove, lookup-map_values,
}
use friendzone.Github.{Uuid}
use friendzone.Jobs.{Job, Saved, Jobs, Env, is_waiting, set}
use friendzone.Jobs.Store.{without, prune_for_admission, restarted, empty_saved}
use friendzone.Jobs.Guest.{put, admit_job}
use friendzone.Jobs.Atomic.{After, IsSaved, transaction-keeps, transaction-IsSaved}
use friendzone.Jobs.Prune.{Gives, prune-keeps}
use friendzone.Jobs.Admit.{admit_job-cases, with_job}
use friendzone.Jobs.Steps.{World, Broker, Op, submit_op, step}
use friendzone.Jobs.Turns.{IsAdmission}
use friendzone.Jobs.Kept.{IsAdmissible, step-keeps}
use friendzone.Jobs.Worker.{is_approved}
use friendzone.Review
use friendzone.Jobs.Changes.{Changes, same, moved, removed, IsMove}

-- The job of this id, if there still is one, waits no more.
unfoldable pub IsSpent : Uuid → Saved → Type 0
IsSpent id saved = is_some_and (lookup id saved.jobs) (λ j. is_waiting j.status) ≡ false

IsMove-waits :
    (j j' : Job) → IsMove j j' → is_waiting j.status ≡ false → is_waiting j'.status ≡ false
IsMove-waits j j' m h = elim (Bool-cases (is_waiting j'.status)) [
  | inl y ↦ absurd (false≢true (sym h ∙ m.not_again y))
  | inr n ↦ n
]

Changes-IsSpent :
    (id : Uuid) (before after : Saved) → IsSpent id before → Changes before after → IsSpent id after
unfolding IsSpent put without
Changes-IsSpent id before after h same = h
Changes-IsSpent id before after h (moved i j j' l m) =
    ground (arith, nat_beq_iff i id, lookup-insert i id j' before.jobs, IsMove-waits j j' m)
Changes-IsSpent id before after h (removed i) = ground (arith, lookup-remove i id before.jobs)

restarted-waits : (env : Env) (j : Job) → is_waiting (restarted env j).status ≡ false
unfolding restarted set is_waiting
restarted-waits env j = ground arith

-- After a start no job waits.
restarted-IsSpent :
    (env : Env) (id : Uuid) (saved : Saved)
    → IsSpent id (record saved { jobs = map_values (λ _ j. restarted env j) saved.jobs })
unfolding IsSpent
restarted-IsSpent env id saved = elim (Option-cases (lookup id saved.jobs)) [
  | inl n ↦ rw (lookup-map_values (λ _ j. restarted env j) id saved.jobs, n) refl
  | inr (j, e) ↦
      rw (lookup-map_values (λ _ j. restarted env j) id saved.jobs, e) (restarted-waits env j)
]

without-IsSpent : (id i : Uuid) (saved : Saved) → IsSpent id saved → IsSpent id (without i saved)
without-IsSpent id i saved h = Changes-IsSpent id saved (without i saved) h (removed i)

put-IsSpent :
    (id : Uuid) (job : Job) (saved : Saved)
    → job.id ≢ id
    → IsSpent id saved
    → IsSpent id (record saved { jobs = insert job.id job saved.jobs })
unfolding IsSpent
put-IsSpent id job saved n h =
    ground (arith, nat_beq_iff job.id id, lookup-insert job.id id job saved.jobs)

admit_job-IsSpent :
    (env : Env) (id : Uuid) (job : Job) (saved : Saved)
    → job.id ≢ id
    → IsSpent id saved
    → After (IsSpent id) (admit_job env job saved)
unfolding prune_for_admission
admit_job-IsSpent env id job saved n h = elim (admit_job-cases env job saved) [
  | inl (e, q) ↦ rw q tt
  | inr (pruned, q, a, g, r) ↦
      let k =
        prune-keeps (IsSpent id) (without-IsSpent id) env (length (with_job job saved).jobs)
          (with_job job saved) (put-IsSpent id job saved n h) in
      rw q (subst (Gives (IsSpent id)) r k)
]

empty-IsSpent : (id : Uuid) → IsSpent id empty_saved
unfolding IsSpent empty_saved lookup
empty-IsSpent id = refl

pub IsAdmission-waited :
    (env : Env) (job : Job) (before after : Saved)
    → IsAdmission env job before after
    → ¬ IsSpent job.id before
unfolding IsAdmission IsSpent is_approved is_waiting
IsAdmission-waited env job before after (j, l, a, x, k) h = ground arith

pub IsAdmission-IsSpent :
    (env : Env) (job : Job) (before after : Saved)
    → IsAdmission env job before after
    → IsSpent job.id after
unfolding IsAdmission IsSpent is_waiting
IsAdmission-IsSpent env job before after (j, l, a, x, (j', k, s)) =
    ap (λ (o : Option Job). is_some_and o (λ j. is_waiting j.status)) k ∙ ap is_waiting s

abbrev pub OtherThan : Uuid → Option Review.Detail → Type 0
OtherThan id none = Unit
OtherThan id (some detail) = detail.summary.id ≢ id

-- The op's new job, if there is one, has another id.
unfoldable pub IsOther : World → Uuid → Op → Type 0
IsOther w id (submit_op _ _ _ container _ input) =
    OtherThan id (w.parser.snapshot container (w.parser.to_json input))
IsOther w id _ = Unit

IsOther-IsAdmissible :
    (id : Uuid) (w : World) (env : Env) (op : Op) (s : Jobs)
    → IsOther w id op
    → IsSaved s × IsSpent id s.current
    → IsAdmissible (λ s. IsSaved s × IsSpent id s.current) w env op s
unfolding IsOther
IsOther-IsAdmissible id w env (submit_op _ _ _ container _ input) s o (f, h) = λ job detail d i.
    let n : detail.summary.id ≢ id = subst (OtherThan id) d o in
    (
      transaction-IsSaved env (admit_job env job) s f,
      transaction-keeps (IsSpent id) env (admit_job env job) s h
          (admit_job-IsSpent env id job s.current (λ q. n (sym i ∙ q)) h),
    )
IsOther-IsAdmissible id w env op s o h = tt

-- A step keeps a spent job spent, and what is sent in it was not spent before.
pub step-IsSpent :
    (id : Uuid) (w : World) (env : Env) (op : Op) (b : Broker)
    → IsOther w id op
    → IsSaved b.jobs × IsSpent id b.jobs.current
    → IsSaved (step w env op b).jobs × IsSpent id (step w env op b).jobs.current
step-IsSpent id w env op b o h =
    step-keeps (IsSpent id) (Changes-IsSpent id) (λ env saved _. restarted-IsSpent env id saved)
      (empty-IsSpent id) w env op b (IsOther-IsAdmissible id w env op b.jobs o h) h
