-- ===== src/Jobs/Progress.antt =====
-- What the worker's edits do to the jobs that are stored.
use friendzone.Prelude.{
  ◌≡◌, refl, inl, inr, true, not, ◌||◌, arith, Bool-cases, Option-cases, leb, nat_eq, [],
}
use friendzone.Prelude.Map.{lookup}
use friendzone.Review.{Status}
use friendzone.Jobs.{Job, Saved, Env, UpstreamDiagnostics, is_waiting, is_active, terminal, set}
use friendzone.Jobs.Worker.{
  drop_edit, block_edit, admit_edit, finish_edit, Body, Response, ending, completed, incomplete,
  is_approved, failed, received,
}
use friendzone.Jobs.Atomic.{After}
use friendzone.Jobs.Changes.{Changes, same, moved, set-IsMove, is_waiting-active}

is_approved-waits : (j : Job) → is_approved j.status ≡ true → is_waiting j.status ≡ true
unfolding is_approved is_waiting
is_approved-waits j h = ground arith

pub drop_edit-Changes :
    (env : Env) (job : Job) (saved : Saved) → After (Changes saved) (drop_edit env job saved)
unfolding drop_edit terminal
drop_edit-Changes env job saved = elim (Option-cases (lookup job.id saved.jobs)) [
  | inl n ↦ rw (n, drop_edit) same
  | inr (j, e) ↦ elim (Bool-cases (is_waiting j.status)) [
    | inl y ↦ elim (Bool-cases (leb j.expires_at env.now)) [
      | inl z ↦
          rw (e, drop_edit, y, z) (moved job.id j _ e (set-IsMove env Status.expired _ j refl))
      | inr z ↦
          rw (e, drop_edit, y, z) (moved job.id j _ e (set-IsMove env Status.cancelled _ j refl))
    ]
    | inr n ↦ rw (e, drop_edit, n) same
  ]
]

pub block_edit-Changes :
    (env : Env) (job : Job) (saved : Saved) → After (Changes saved) (block_edit env job saved)
unfolding block_edit terminal
block_edit-Changes env job saved = elim (Option-cases (lookup job.id saved.jobs)) [
  | inl n ↦ rw (n, block_edit) same
  | inr (j, e) ↦ elim (Bool-cases (is_approved j.status)) [
    | inl y ↦ rw (e, block_edit, y) (moved job.id j _ e (set-IsMove env Status.blocked _ j refl))
    | inr n ↦ rw (e, block_edit, n) same
  ]
]

pub admit_edit-Changes :
    (env : Env) (job : Job) (d : UpstreamDiagnostics) (saved : Saved)
    → After (Changes saved) (admit_edit env job d saved)
unfolding admit_edit set
admit_edit-Changes env job d saved = elim (Option-cases (lookup job.id saved.jobs)) [
  | inl n ↦ rw (n, admit_edit) same
  | inr (j, e) ↦ elim (Bool-cases (not (is_approved j.status) || leb j.expires_at env.now)) [
    | inl y ↦ rw (e, admit_edit, y) same
    | inr n ↦
        let w : is_waiting j.status ≡ true = is_approved-waits j (ground arith) in
        rw (e, admit_edit, n)
          (moved job.id j _ e (record {
            same_id = refl;
            same_guest = refl;
            not_again = λ h. w;
            not_revived = λ h. is_waiting-active j w;
          }))
  ]
]

-- A job that was sent is over when its response is in.
ending-terminal :
    (env : Env) (b : Body) (d : UpstreamDiagnostics) (response : Response)
    → terminal (ending env b d response).status ≡ true
unfolding ending completed incomplete terminal
ending-terminal env b d (failed kind total) = refl
ending-terminal env b d (received r) = ground arith

pub finish_edit-Changes :
    (env : Env) (job : Job) (b : Body) (d : UpstreamDiagnostics) (response : Response)
    (saved : Saved)
    → After (Changes saved) (finish_edit env job (ending env b d response) saved)
unfolding finish_edit set is_active
finish_edit-Changes env job b d response saved = elim (Option-cases (lookup job.id saved.jobs)) [
  | inl n ↦ rw (n, finish_edit) tt
  | inr (j, e) ↦
      let m =
        set-IsMove env (ending env b d response).status [] j (ending-terminal env b d response) in
      rw (e, finish_edit)
        (moved job.id j _ e (record {
          same_id = refl;
          same_guest = refl;
          not_again = m.not_again;
          not_revived = m.not_revived;
        }))
]
