-- ===== src/Jobs/Changes.antt =====
-- What an edit may do to the jobs that are stored: nothing, move one job on, or remove some.
use friendzone.Prelude.{
  ◌≡◌, ◌≢◌, refl, ◌⊎◌, inl, inr, true, not, ◌||◌, some, arith, Bool-cases, Option-cases, String,
  leb, ◌==◌, string_eq, nat_eq,
}
use friendzone.Prelude.Text.{Text}
use friendzone.Prelude.Map.{lookup}
use friendzone.Prelude.Result.{ok, err}
use friendzone.Github.{Uuid}
use friendzone.Review
use friendzone.Review.{Status}
use friendzone.Jobs.{Job, Saved, Env, is_waiting, is_active, terminal, is_unknown, set, not_found}
use friendzone.Jobs.Store.{without}
use friendzone.Jobs.Guest.{
  put, owns, owned_job, cancel_edit, acknowledge_edit, delete_edit, decide_edit, decided,
  is_pending_job,
}
use friendzone.Jobs.Atomic.{After}

-- A job that moves on stays the same job, and never waits or works again.
pub record IsMove (j j' : Job) : Type 0 where
  pub same_id : j'.id ≡ j.id
  pub same_guest : j'.container ≡ j.container
  pub not_again : is_waiting j'.status ≡ true → is_waiting j.status ≡ true
  pub not_revived : is_active j' ≡ true → is_active j ≡ true

pub data Changes (before : Saved) : Saved → Type 0 where
  same : Changes before before
  moved :
      (id : Uuid) (j j' : Job)
      → lookup id before.jobs ≡ some j
      → IsMove j j'
      → Changes before (put id j' before)
  removed : (id : Uuid) → Changes before (without id before)

-- A job is found by its owner, or not found.
pub owned_job-cases :
    (container : String) (instance_id id : Uuid) (session : Text) (saved : Saved)
    → (owned_job container instance_id id session saved ≡ err not_found)
      ⊎ ((j : Job) × (owned_job container instance_id id session saved ≡ ok j)
          × (lookup id saved.jobs ≡ some j)
          × (owns container instance_id session j ≡ true))
unfolding owned_job
owned_job-cases container instance_id id session saved =
    elim (Option-cases (lookup id saved.jobs)) [
      | inl n ↦ inl (rw (n, owned_job) refl)
      | inr (j, e) ↦ elim (Bool-cases (owns container instance_id session j)) [
        | inl y ↦ inr (j, rw (e, owned_job, y) refl, e, y)
        | inr n ↦ inl (rw (e, owned_job, n) refl)
      ]
    ]

terminal-not-waiting : (s : Status) → terminal s ≡ true → is_waiting s ≢ true
unfolding terminal is_waiting
terminal-not-waiting s t h = ground arith

-- A job that is set to a status that is over has moved on.
pub set-IsMove :
    (env : Env) (status : Status) (outcome : Text) (j : Job)
    → terminal status ≡ true
    → IsMove j (set env status outcome j)
unfolding set is_active
set-IsMove env status outcome j t = record {
  same_id = refl;
  same_guest = refl;
  not_again = λ h. absurd (terminal-not-waiting status t h);
  not_revived = λ h. ground arith;
}

module _ (container : String) (instance_id id : Uuid) (session : Text) (saved : Saved) where
  pub cancel_edit-Changes :
      (env : Env) → After (Changes saved) (cancel_edit env container instance_id id session saved)
  unfolding cancel_edit terminal
  cancel_edit-Changes env = elim (owned_job-cases container instance_id id session saved) [
    | inl n ↦ rw (n, cancel_edit) tt
    | inr (j, e, l, o) ↦ elim (Bool-cases (is_waiting j.status)) [
      | inl y ↦ rw (e, cancel_edit, y) (moved id j _ l (set-IsMove env Status.cancelled _ j refl))
      | inr n ↦ rw (e, cancel_edit, n) tt
    ]
  ]

  pub acknowledge_edit-Changes :
      (env : Env)
      → After (Changes saved) (acknowledge_edit env container instance_id id session saved)
  unfolding acknowledge_edit is_active
  acknowledge_edit-Changes env = elim (owned_job-cases container instance_id id session saved) [
    | inl n ↦ rw (n, acknowledge_edit) tt
    | inr (j, e, l, o) ↦ elim (Bool-cases (not (terminal j.status) || is_unknown j.status)) [
      | inl y ↦ rw (e, acknowledge_edit, y) tt
      | inr n ↦
          rw (e, acknowledge_edit, n)
            (moved id j _ l (record {
              same_id = refl;
              same_guest = refl;
              not_again = λ h. h;
              not_revived = λ h. h;
            }))
    ]
  ]

  pub delete_edit-Changes :
      After (Changes saved) (delete_edit container instance_id id session saved)
  unfolding delete_edit
  delete_edit-Changes = elim (owned_job-cases container instance_id id session saved) [
    | inl n ↦ rw (n, delete_edit) tt
    | inr (j, e, l, o) ↦ elim (Bool-cases (terminal j.status)) [
      | inl y ↦ rw (e, delete_edit, y) (removed id)
      | inr n ↦ rw (e, delete_edit, n) tt
    ]
  ]

is_pending_job-waits : (j : Job) → is_pending_job j ≡ true → is_waiting j.status ≡ true
unfolding is_pending_job is_waiting
is_pending_job-waits j h = ground arith

pub is_waiting-active : (j : Job) → is_waiting j.status ≡ true → is_active j ≡ true
unfolding is_waiting is_active terminal
is_waiting-active j h = ground arith

decided-IsMove :
    (env : Env) (decision : Review.Decision) (j : Job)
    → is_pending_job j ≡ true
    → IsMove j (decided env decision j)
unfolding decided set terminal
decided-IsMove env Review.Decision.approve j p = record {
  same_id = refl;
  same_guest = refl;
  not_again = λ h. is_pending_job-waits j p;
  not_revived = λ h. is_waiting-active j (is_pending_job-waits j p);
}
decided-IsMove env Review.Decision.deny j p = set-IsMove env Status.denied _ j refl

pub decide_edit-Changes :
    (env : Env) (id : Uuid) (fingerprint : String) (decision : Review.Decision) (saved : Saved)
    → After (Changes saved) (decide_edit env id fingerprint decision saved)
unfolding decide_edit
decide_edit-Changes env id fingerprint decision saved = elim (Option-cases (lookup id saved.jobs)) [
  | inl n ↦ rw (n, decide_edit) tt
  | inr (j, e) ↦
      elim (Bool-cases (
        not (is_pending_job j) || not (j.fingerprint == fingerprint) || leb j.expires_at env.now)) [
          | inl y ↦ rw (e, decide_edit, y) tt
          | inr n ↦
              rw (e, decide_edit, n) (moved id j _ e (decided-IsMove env decision j (ground arith)))
        ]
]
