-- ===== src/Jobs/Owners.antt =====
-- Who may do what to a job.
use friendzone.Prelude.{
  List, [], ◌∷◌, All, filter, map, ◌≡◌, ◌≢◌, refl, sym, ap, subst, ◌∙◌, inl, inr, true, false, not,
  ◌||◌, Option, some, arith, String, leb, ◌==◌, string_eq, str_eq_iff, nat_eq, nat_beq_iff,
  if◌then◌else◌, is_some_and, Option-cases, Bool-cases,
}
use friendzone.Prelude.Text.{Text, text_eq, text_beq_iff}
use friendzone.Prelude.Map.{lookup, lookup-insert}
use friendzone.Prelude.Result.{Result, ok, err}
use friendzone.Github.{Uuid}
use friendzone.Review
use friendzone.Review.{Status}
use friendzone.Jobs.{
  Job, Saved, Jobs, Env, JobsError, not_found, is_active, automatically_removable,
}
use friendzone.Jobs.Store.{transaction, prune_for_admission}
use friendzone.Jobs.Guest.{
  owns, owned_job, get, list, cancel, acknowledge, delete, decide, cancel_edit, acknowledge_edit,
  delete_edit, decide_edit, decided, is_pending_job, put, admit_job,
}
use friendzone.Jobs.Atomic.{IsAtomic, transaction-IsAtomic}
use friendzone.Jobs.Prune.{
  IsKeyed, IsPruned, IsPruning, Gives, insert-IsKeyed, prune_for_admission-IsPruning,
}
use friendzone.Jobs.Admit.{admit_job-cases, with_job}

-- The guest's container, its incarnation and its session are those that the job was submitted with.
unfoldable pub IsSubmitter : String → Uuid → Text → Job → Type 0
IsSubmitter container instance_id session j =
    (j.container ≡ container) × (j.instance_id ≡ instance_id) × (j.submission.session_id ≡ session)

owns-IsSubmitter :
    (container : String) (instance_id : Uuid) (session : Text) (j : Job)
    → owns container instance_id session j ≡ true
    → IsSubmitter container instance_id session j
unfolding owns IsSubmitter
owns-IsSubmitter container instance_id session j h = (
  (str_eq_iff j.container container).0 (ground arith),
  (nat_beq_iff j.instance_id instance_id).0 (ground arith),
  (text_beq_iff j.submission.session_id session).0 (ground arith),
)

filter-IsSubmitter :
    (container : String) (instance_id : Uuid) (session : Text) (jobs : List Job)
    → All
        (IsSubmitter container instance_id session)
        (filter (owns container instance_id session) jobs)
filter-IsSubmitter container instance_id session [] = tt
filter-IsSubmitter container instance_id session (j ∷ jobs) =
    let rest = filter-IsSubmitter container instance_id session jobs in
    elim (Bool-cases (owns container instance_id session j)) [
      | inl y ↦ rw (y) (owns-IsSubmitter container instance_id session j y, rest)
      | inr n ↦ rw (n) rest
    ]

-- A guest whose container, incarnation or session is not that of a job's submission is told that the job
-- is not there when it asks to read it, to cancel it, to acknowledge it or to remove it, and the
-- attempt changes nothing; and all jobs that it can list are of its own submission.
pub foreign_refused :
    (env : Env) (container : String) (instance_id id : Uuid) (session : Text) (s : Jobs) {j : Job}
    → lookup id s.current.jobs ≡ some j
    → (¬ IsSubmitter container instance_id session j)
    → (get container instance_id id session s ≡ err not_found)
      × (cancel env container instance_id id session s ≡ (err not_found, s))
      × (acknowledge env container instance_id id session s ≡ (err not_found, s))
      × (delete env container instance_id id session s ≡ (err not_found, s))
      × All (IsSubmitter container instance_id session) (list container instance_id session s)
unfolding get cancel acknowledge delete cancel_edit acknowledge_edit delete_edit transaction list
foreign_refused env container instance_id id session s {j} l f =
    let o : owns container instance_id session j ≡ false =
      elim (Bool-cases (owns container instance_id session j)) [
        | inl y ↦ absurd (f (owns-IsSubmitter container instance_id session j y))
        | inr n ↦ n
      ] in
    let n : owned_job container instance_id id session s.current ≡ err not_found =
      unfold owned_job in rw (l, owned_job, o) refl in
    (
      n,
      rw (n, cancel, cancel_edit, transaction) refl,
      rw (n, acknowledge, acknowledge_edit, transaction) refl,
      rw (n, delete, delete_edit, transaction) refl,
      filter-IsSubmitter container instance_id session (map (λ e. e.1) s.current.jobs),
    )

is_pending_job-status : (j : Job) → is_pending_job j ≡ true → j.status ≡ Status.pending
unfolding is_pending_job
is_pending_job-status j p = ground arith

abbrev saved_of : {T : Type 0} → Result JobsError (T × Saved) → Saved → Saved
saved_of (ok (_, saved)) default = saved
saved_of (err _) default = default

decide_edit-ok :
    (env : Env) (id : Uuid) (fingerprint : String) (decision : Review.Decision) (saved : Saved)
    {after : Saved}
    → decide_edit env id fingerprint decision saved ≡ ok (tt, after)
    → (j : Job) × (lookup id saved.jobs ≡ some j)
      × (is_pending_job j ≡ true)
      × (j.fingerprint ≡ fingerprint)
      × (leb j.expires_at env.now ≡ false)
      × (put id (decided env decision j) saved ≡ after)
unfolding decide_edit
decide_edit-ok env id fingerprint decision saved {after} h =
    elim (Option-cases (lookup id saved.jobs)) [
      | inl n ↦ ground arith
      | inr (j, e) ↦
          elim (Bool-cases (
            not (is_pending_job j)
            || not (j.fingerprint == fingerprint)
            || leb j.expires_at env.now)) [
              | inl y ↦ ground arith
              | inr n ↦
                  let q : decide_edit env id fingerprint decision saved
                      ≡ ok (tt, put id (decided env decision j) saved) =
                    rw (e, decide_edit, n) refl in
                  (
                    j,
                    e,
                    ground arith,
                    ground (arith, str_eq_iff j.fingerprint fingerprint),
                    ground arith,
                    ap (λ r. saved_of r saved) (sym q ∙ h),
                  )
            ]
    ]

-- A decision of the host takes effect only on a job that is pending, has not expired, and has the
-- fingerprint that the host was shown. Then that job alone moves on.
pub decide-applies :
    (env : Env) (id k : Uuid) (fingerprint : String) (decision : Review.Decision) (s : Jobs)
    → (decide env id fingerprint decision s).0 ≡ ok tt
    → (j : Job) × (lookup id s.current.jobs ≡ some j)
      × (j.status ≡ Status.pending)
      × (j.fingerprint ≡ fingerprint)
      × (leb j.expires_at env.now ≡ false)
      × (lookup k (decide env id fingerprint decision s).1.current.jobs
          ≡ (if id == k then some (decided env decision j) else lookup k s.current.jobs))
unfolding decide IsAtomic put
decide-applies env id k fingerprint decision s h =
    let a = transaction-IsAtomic env (decide_edit env id fingerprint decision) s in
    elim a [
      | inl (t, r, e, f) ↦
          let (j, l, p, q, x, c) =
            decide_edit-ok env id fingerprint decision s.current
              {after = (decide env id fingerprint decision s).1.current} e in
          (
            j,
            l,
            is_pending_job-status j p,
            q,
            x,
            ap (λ (y : Saved). lookup k y.jobs) (sym c)
                ∙ lookup-insert id k (decided env decision j) s.current.jobs,
          )
      | inr (e, r, c, f) ↦ let q : err e ≡ ok tt = sym r ∙ h in cc
    ]

-- What the pruning leaves under an id, when it succeeds.
prune_for_admission-IsPruned :
    (env : Env) (id : Uuid) (before after : Saved)
    → IsKeyed before.jobs
    → prune_for_admission env before ≡ ok after
    → IsPruned env id before after
unfolding IsPruning
prune_for_admission-IsPruned env id before after k r =
    let p = prune_for_admission-IsPruning env id before k in
    elim p [
      | inl (a, e, w, x, y) ↦ subst (Gives (IsPruned env id before)) (sym e ∙ r) y
      | inr (e, f, o) ↦ let c : err e ≡ ok after = sym f ∙ r in cc
    ]

not-removable :
    (env : Env) (job : Job) → is_active job ≡ true → automatically_removable env job ≢ true
unfolding is_active automatically_removable
not-removable env job a r = ground arith

-- A new job that is active and is admitted is stored, whatever the pruning, and under every other id
-- the store is as before but for jobs that may be removed.
pub admit_job-stores :
    (env : Env) (job : Job) (saved : Saved) (id : Uuid) {stored : Job} {after : Saved}
    → IsKeyed saved.jobs
    → is_active job ≡ true
    → job.id ≢ id
    → admit_job env job saved ≡ ok (stored, after)
    → (lookup job.id after.jobs ≡ some job) × IsPruned env id saved after
unfolding IsPruned
admit_job-stores env job saved id {stored} {after} k a n h = elim (admit_job-cases env job saved) [
  | inl (e, q) ↦ let c : err e ≡ ok (stored, after) = sym q ∙ h in cc
  | inr (pruned, q, b, g, r) ↦
      let before = with_job job saved in
      let k' = insert-IsKeyed job saved.jobs k in
      let u : pruned ≡ after = ap (λ r. saved_of r saved) (sym q ∙ h) in
      let here : lookup job.id before.jobs ≡ some job =
        ground (arith, nat_beq_iff job.id job.id, lookup-insert job.id job.id job saved.jobs) in
      let there : lookup id before.jobs ≡ lookup id saved.jobs =
        ground (arith, nat_beq_iff job.id id, lookup-insert job.id id job saved.jobs) in
      let p = prune_for_admission-IsPruned env job.id before after k' (r ∙ ap ok u) in
      let p' = prune_for_admission-IsPruned env id before after k' (r ∙ ap ok u) in
      (
        elim p [
          | inl e ↦ e ∙ here
          | inr (e, (j, l, m)) ↦ absurd (
              not-removable env j
                (subst (λ (o : Option Job). is_some_and o is_active ≡ true) (sym here ∙ l) a) m)
        ],
        elim p' [ inl e ↦ inl (e ∙ there) | inr (e, (j, l, m)) ↦ inr (e, (j, sym there ∙ l, m)) ],
      )
]
