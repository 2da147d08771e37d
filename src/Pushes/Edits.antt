-- ===== src/Pushes/Edits.antt =====
-- Each edit of the pushes leaves every push reviewed that needs it.
use friendzone.Prelude.{
  ◌≡◌, refl, ◌⊎◌, inl, inr, ◌||◌, not, Bool, true, some, leb, arith, Bool-cases, Option-cases,
  nat_eq, ◌==◌, [], String,
}
use friendzone.Prelude.Text.{Text, text_eq}
use friendzone.Prelude.Map.{lookup}
use friendzone.Prelude.Result.{Result, ok, err, Result-cases}
use friendzone.Review
use friendzone.Review.{Status}
use friendzone.Github.{Uuid}
use friendzone.Pushes.{Review, Job, Saved, Env, unknown_job, set, is_waiting, terminal, is_unknown}
use friendzone.Pushes.Store.{without}
use friendzone.Pushes.Guest.{
  owned_job, owns, cancel_edit, acknowledge_edit, delete_edit, decide_edit, decided, is_pending,
}
use friendzone.Pushes.Worker.{
  change_if, dropped, blocked, prepared, lapsed, drop_edit, block_edit, prepared_edit, lapsed_edit,
  admit_edit, is_approved, is_preparing, finished, finish_edit,
}
use friendzone.Pushes.Atomic.{After}
use friendzone.Pushes.Reviewed.{
  is_reviewed, needs_review, Each, Each-insert, Each-remove, Each-lookup, set-is_reviewed,
}

-- The jobs of a store are reviewed.
abbrev pub AllReviewed : Saved → Type 0
AllReviewed saved = Each saved.jobs

change_if-reviews :
    (p : Status → Bool) (f : Job → Job) (id : Uuid) (saved : Saved)
    → ((job : Job) → is_reviewed job ≡ true → is_reviewed (f job) ≡ true)
    → AllReviewed saved
    → After AllReviewed (change_if p f id saved)
unfolding change_if
change_if-reviews p f id saved k h = elim (Option-cases (lookup id saved.jobs)) [
  | inl n ↦ rw (n, change_if) h
  | inr (j, e) ↦ elim (Bool-cases (p j.status)) [
    | inl y ↦
        rw (e, change_if, y)
          (Each-insert id (f j) saved.jobs (k j (Each-lookup id j saved.jobs h e)) h)
    | inr n ↦ rw (e, change_if, n) h
  ]
]

dropped-is_reviewed :
    (env : Env) (job : Job) → is_reviewed job ≡ true → is_reviewed (dropped env job) ≡ true
unfolding dropped needs_review
dropped-is_reviewed env job h = elim (Bool-cases (leb job.expires_at env.now)) [
  | inl y ↦ rw (y, dropped) (set-is_reviewed env Status.expired _ job refl h)
  | inr n ↦ rw (n, dropped) (set-is_reviewed env Status.cancelled _ job refl h)
]

pub drop_edit-reviews :
    (env : Env) (id : Uuid) (saved : Saved)
    → AllReviewed saved
    → After AllReviewed (drop_edit env id saved)
unfolding drop_edit
drop_edit-reviews env id saved h =
    change_if-reviews is_waiting (dropped env) id saved (dropped-is_reviewed env) h

pub block_edit-reviews :
    (env : Env) (p : Status → Bool) (id : Uuid) (saved : Saved)
    → AllReviewed saved
    → After AllReviewed (block_edit env p id saved)
unfolding block_edit blocked needs_review
block_edit-reviews env p id saved h =
    change_if-reviews p (blocked env) id saved
      (λ job q. set-is_reviewed env Status.blocked _ job refl q) h

pub lapsed_edit-reviews :
    (env : Env) (id : Uuid) (saved : Saved)
    → AllReviewed saved
    → After AllReviewed (lapsed_edit env id saved)
unfolding lapsed_edit lapsed needs_review
lapsed_edit-reviews env id saved h =
    change_if-reviews is_preparing (lapsed env) id saved
      (λ job q. set-is_reviewed env Status.cancelled _ job refl q) h

prepared-is_reviewed :
    (env : Env) (allow_all : Bool) (r : Result Text Review) (job : Job)
    → is_reviewed job ≡ true
    → is_reviewed (prepared env allow_all r job) ≡ true
unfolding prepared needs_review is_reviewed set
prepared-is_reviewed env allow_all r job h = elim (Bool-cases (leb job.expires_at env.now)) [
  | inl y ↦ rw (y, prepared) (set-is_reviewed env Status.expired [] job refl h)
  | inr n ↦ elim (Result-cases r) [
    | inl (e, k) ↦ rw (n, prepared, k) (set-is_reviewed env Status.blocked [] job refl h)
    | inr (review, k) ↦ elim (Bool-cases (review.bundle_sha256 == job.bundle_sha256)) [
      | inr d ↦ rw (n, prepared, k, d) (set-is_reviewed env Status.blocked [] job refl h)
      | inl d ↦ elim (Bool-cases allow_all) [
        | inl a ↦ rw (n, prepared, k, d, a) d
        | inr a ↦ rw (n, prepared, k, d, a) d
      ]
    ]
  ]
]

pub prepared_edit-reviews :
    (env : Env) (allow_all : Bool) (r : Result Text Review) (id : Uuid) (saved : Saved)
    → AllReviewed saved
    → After AllReviewed (prepared_edit env allow_all r id saved)
unfolding prepared_edit
prepared_edit-reviews env allow_all r id saved h = elim (Option-cases (lookup id saved.jobs)) [
  | inl n ↦ rw (n, prepared_edit) tt
  | inr (j, e) ↦
      rw (e, prepared_edit)
        (change_if-reviews is_preparing (prepared env allow_all r) id saved
          (prepared-is_reviewed env allow_all r) h)
]

-- An approved job that is reviewed has its review when it is sent.
sending-is_reviewed :
    (env : Env) (outcome : Text) (job : Job)
    → is_approved job.status ≡ true
    → is_reviewed job ≡ true
    → is_reviewed (set env Status.sending outcome job) ≡ true
unfolding is_reviewed needs_review set is_approved
sending-is_reviewed env outcome job a h = elim (Option-cases job.review) [
  | inl e ↦ ground arith
  | inr (r, e) ↦ ground arith
]

pub admit_edit-reviews :
    (env : Env) (id : Uuid) (saved : Saved)
    → AllReviewed saved
    → After AllReviewed (admit_edit env id saved)
unfolding admit_edit
admit_edit-reviews env id saved h = elim (Option-cases (lookup id saved.jobs)) [
  | inl n ↦ rw (n, admit_edit) h
  | inr (j, e) ↦ elim (Bool-cases (not (is_approved j.status) || leb j.expires_at env.now)) [
    | inl y ↦ rw (e, admit_edit, y) h
    | inr n ↦
        rw (e, admit_edit, n)
          (Each-insert id _ saved.jobs
            (sending-is_reviewed env _ j (ground arith) (Each-lookup id j saved.jobs h e)) h)
  ]
]

finished-is_reviewed :
    (env : Env) (r : Result Text Text) (job : Job)
    → is_reviewed job ≡ true
    → is_reviewed (finished env r job) ≡ true
unfolding finished is_reviewed needs_review
finished-is_reviewed env (ok output) job h =
    set-is_reviewed env Status.response_received [] job refl h
finished-is_reviewed env (err e) job h = set-is_reviewed env Status.unknown [] job refl h

pub finish_edit-reviews :
    (env : Env) (r : Result Text Text) (id : Uuid) (saved : Saved)
    → AllReviewed saved
    → After AllReviewed (finish_edit env r id saved)
unfolding finish_edit
finish_edit-reviews env r id saved h = elim (Option-cases (lookup id saved.jobs)) [
  | inl n ↦ rw (n, finish_edit) tt
  | inr (j, e) ↦
      rw (e, finish_edit)
        (Each-insert id _ saved.jobs
          (finished-is_reviewed env r j (Each-lookup id j saved.jobs h e)) h)
]

-- A job is found by its owner, or not found.
pub owned_job-cases :
    (container : String) (instance_id id : Uuid) (session : Text) (saved : Saved)
    → (owned_job container instance_id id session saved ≡ err unknown_job)
      ⊎ ((j : Job) × (owned_job container instance_id id session saved ≡ ok j)
          × (lookup id saved.jobs ≡ some j))
unfolding owned_job
owned_job-cases container instance_id id session saved =
    elim (Option-cases (lookup id saved.jobs)) [
      | inl n ↦ inl (rw (n, owned_job) refl)
      | inr (j, e) ↦ elim (Bool-cases (owns container instance_id session j)) [
        | inl y ↦ inr (j, rw (e, owned_job, y) refl, e)
        | inr n ↦ inl (rw (e, owned_job, n) refl)
      ]
    ]

module _ (container : String) (instance_id id : Uuid) (session : Text) (saved : Saved) where
  pub cancel_edit-reviews :
      (env : Env)
      → AllReviewed saved
      → After AllReviewed (cancel_edit env container instance_id id session saved)
  unfolding cancel_edit needs_review
  cancel_edit-reviews env h = elim (owned_job-cases container instance_id id session saved) [
    | inl n ↦ rw (n, cancel_edit) tt
    | inr (j, e, l) ↦ elim (Bool-cases (is_waiting j.status)) [
      | inl y ↦
          rw (e, cancel_edit, y)
            (Each-insert id _ saved.jobs
              (set-is_reviewed env Status.cancelled _ j refl (Each-lookup id j saved.jobs h l)) h)
      | inr n ↦ rw (e, cancel_edit, n) tt
    ]
  ]

  pub acknowledge_edit-reviews :
      (env : Env)
      → AllReviewed saved
      → After AllReviewed (acknowledge_edit env container instance_id id session saved)
  unfolding acknowledge_edit is_reviewed
  acknowledge_edit-reviews env h = elim (owned_job-cases container instance_id id session saved) [
    | inl n ↦ rw (n, acknowledge_edit) tt
    | inr (j, e, l) ↦ elim (Bool-cases (not (terminal j.status) || is_unknown j.status)) [
      | inl y ↦ rw (e, acknowledge_edit, y) tt
      | inr n ↦
          rw (e, acknowledge_edit, n)
            (Each-insert id _ saved.jobs (Each-lookup id j saved.jobs h l) h)
    ]
  ]

  pub delete_edit-reviews :
      AllReviewed saved → After AllReviewed (delete_edit container instance_id id session saved)
  unfolding delete_edit without
  delete_edit-reviews h = elim (owned_job-cases container instance_id id session saved) [
    | inl n ↦ rw (n, delete_edit) tt
    | inr (j, e, l) ↦ elim (Bool-cases (terminal j.status)) [
      | inl y ↦ rw (e, delete_edit, y) (Each-remove id saved.jobs h)
      | inr n ↦ rw (e, delete_edit, n) tt
    ]
  ]

decided-is_reviewed :
    (env : Env) (decision : Review.Decision) (job : Job)
    → is_pending job.status ≡ true
    → is_reviewed job ≡ true
    → is_reviewed (decided env decision job) ≡ true
unfolding is_reviewed needs_review decided set is_pending
decided-is_reviewed env Review.approve job a h = elim (Option-cases job.review) [
  | inl e ↦ ground arith
  | inr (r, e) ↦ ground arith
]
decided-is_reviewed env Review.deny job a h = elim (Option-cases job.review) [
  | inl e ↦ ground arith
  | inr (r, e) ↦ ground arith
]

pub decide_edit-reviews :
    (env : Env) (id : Uuid) (fingerprint : Text) (decision : Review.Decision) (saved : Saved)
    → AllReviewed saved
    → After AllReviewed (decide_edit env id fingerprint decision saved)
unfolding decide_edit
decide_edit-reviews env id fingerprint decision saved h =
    elim (Option-cases (lookup id saved.jobs)) [
      | inl n ↦ rw (n, decide_edit) tt
      | inr (j, e) ↦
          elim (Bool-cases (
            not (is_pending j.status)
            || not (j.fingerprint == fingerprint)
            || leb j.expires_at env.now)) [
              | inl y ↦ rw (e, decide_edit, y) tt
              | inr n ↦
                  rw (e, decide_edit, n)
                    (Each-insert id _ saved.jobs
                      (decided-is_reviewed env decision j (ground arith)
                        (Each-lookup id j saved.jobs h e))
                      h)
            ]
    ]
