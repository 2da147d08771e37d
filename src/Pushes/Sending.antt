-- ===== src/Pushes/Sending.antt =====
-- When the worker goes on to push a job.
use friendzone.Prelude.{
  ◌≡◌, ◌≢◌, refl, sym, ap, subst, ◌∙◌, inl, inr, ◌||◌, not, Bool, true, false, Option, some, none,
  leb, arith, Bool-cases, Option-cases, is_some, nat_eq, if◌then◌else◌,
}
use friendzone.Prelude.Text.{Text, text}
use friendzone.Prelude.Map.{lookup, insert}
use friendzone.Prelude.Result.{Result, ok, err}
use friendzone.State.{AppState, Moment}
use friendzone.State.Gate.{holds_identity}
use friendzone.Settings.{Settings}
use friendzone.Review.{Status}
use friendzone.Jobs.Credential.{Crypto}
use friendzone.Pushes.{Job, Saved, Pushes, Env, PushError, no_storage, set}
use friendzone.Pushes.Store.{transaction}
use friendzone.Pushes.Worker.{
  Outcome, next, stop, derive, push, continue_with, with_storage, admitted, take_up, keeps_identity,
  is_preparing, is_approved, drop_edit, block_edit, admit_edit, current_git_token,
}
use friendzone.Pushes.Results.{ok-inj, lookup-insert_self, none≢some, some-inj}
use friendzone.Pushes.Atomic.{IsTransaction, transaction-IsTransaction}

-- The token that a job is pushed with, if it is.
abbrev pub pushes_with : Outcome → Option Text
pushes_with (push token) = some token
pushes_with _ = none

pushes_with-continue_with :
    (a : Result PushError (Unit {0}) × Pushes) → pushes_with (continue_with a).0 ≡ none
unfolding continue_with
pushes_with-continue_with (ok _, s) = refl
pushes_with-continue_with (err e, s) = refl

pushes_with-derive :
    (token : Text) (s : Pushes) → pushes_with (with_storage (derive token) s).0 ≡ none
unfolding with_storage
pushes_with-derive token s = elim (Bool-cases (is_some s.artifacts)) [
  | inl y ↦ rw (y, with_storage) refl
  | inr n ↦ rw (n, with_storage) refl
]

-- The admission of a job, and what comes of it.
admitted-pushes :
    (token : Text) (a : Result PushError Bool × Pushes) {t : Text}
    → pushes_with (admitted token a).0 ≡ some t
    → (a.0 ≡ ok true) × (t ≡ token) × ((admitted token a).1 ≡ a.1)
unfolding admitted with_storage
admitted-pushes token (err e, s) h = ground arith
admitted-pushes token (ok false, s) h = ground arith
admitted-pushes token (ok true, s) h = elim (Bool-cases (is_some s.artifacts)) [
  | inl y ↦
      let p : with_storage (push token) s ≡ (push token, s) = rw (y, with_storage) refl in
      (refl, some-inj (sym h ∙ ap (λ o. pushes_with o.0) p), ap (λ o. o.1) p)
  | inr n ↦
      let p : with_storage (push token) s ≡ (stop no_storage, s) = rw (n, with_storage) refl in
      absurd (none≢some (sym (ap (λ o. pushes_with o.0) p) ∙ h))
]

-- What a job that is pushed was before, and is after.
unfoldable pub IsAdmission : Env → Job → Saved → Saved → Type 0
unfolding is_approved
IsAdmission env job before after =
    (j : Job) × (lookup job.id before.jobs ≡ some j)
    × (j.status ≡ Status.approved)
    × (leb j.expires_at env.now ≡ false)
    × (lookup job.id after.jobs
        ≡ some (set env Status.sending (text "Publishing branch to GitHub") j))

is_approved-approved : (s : Status) → is_approved s ≡ true → s ≡ Status.approved
unfolding is_approved
is_approved-approved s h = ground arith

admit_edit-true :
    (env : Env) (job : Job) (before : Saved) {after : Saved}
    → admit_edit env job.id before ≡ ok (true, after)
    → IsAdmission env job before after
unfolding admit_edit IsAdmission
admit_edit-true env job before {after} h = elim (Option-cases (lookup job.id before.jobs)) [
  | inl n ↦ ground arith
  | inr (j, e) ↦ elim (Bool-cases (not (is_approved j.status) || leb j.expires_at env.now)) [
    | inl y ↦ ground arith
    | inr n ↦
        let j' : Job = set env Status.sending (text "Publishing branch to GitHub") j in
        let p : admit_edit env job.id before
            ≡ ok (true, record before { jobs = insert job.id j' before.jobs }) =
          rw (e, admit_edit, n) refl in
        let q = ap (λ a. a.1) (ok-inj p h) in
        (
          j,
          e,
          is_approved-approved j.status (ground arith),
          ground arith,
          ap (λ (x : Saved). lookup job.id x.jobs) (sym q)
              ∙ lookup-insert_self job.id j' before.jobs,
        )
  ]
]

transaction-true :
    (env : Env) (job : Job) (s : Pushes)
    → (transaction env (admit_edit env job.id) s).0 ≡ ok true
    → IsAdmission env job s.current (transaction env (admit_edit env job.id) s).1.current
unfolding IsTransaction
transaction-true env job s h = elim (transaction-IsTransaction env (admit_edit env job.id) s) [
  | inl (t, r, k) ↦
      admit_edit-true env job s.current
        (k ∙ ap (λ b. ok (b, (transaction env (admit_edit env job.id) s).1.current)) (ok-inj r h))
  | inr (f, r, c) ↦ ground arith
]

pushes-not :
    {token : Text} {a : Outcome × Pushes} (b : Outcome × Pushes)
    → a ≡ b
    → pushes_with b.0 ≡ none
    → pushes_with a.0 ≢ some token
pushes-not b e n h = none≢some (sym n ∙ ap (λ o. pushes_with o.0) (sym e) ∙ h)

-- The end of the turn's body for an approved job with a token.
abbrev approved_end : Env → AppState → Job → Text → Pushes → Outcome × Pushes
approved_end env app job t s =
    if not (holds_identity job.container job.peer job.instance_id job.epoch app)
    then (next, s)
    else admitted t (transaction env (admit_edit env job.id) s)

take_up-approved :
    (env : Env) (x : Crypto) (settings : Settings) (first : Moment) (app : AppState) (job : Job)
    (s : Pushes) {token t : Text}
    → current_git_token x settings job.binding ≡ some t
    → take_up env x settings first app job s ≡ approved_end env app job t s
    → pushes_with (take_up env x settings first app job s).0 ≡ some token
    → IsAdmission env job s.current (take_up env x settings first app job s).1.current
      × (holds_identity job.container job.peer job.instance_id job.epoch app ≡ true)
      × (current_git_token x settings job.binding ≡ some token)
take_up-approved env x settings first app job s {token} {t} m e h =
    elim (Bool-cases (holds_identity job.container job.peer job.instance_id job.epoch app)) [
      | inr i ↦
          let p : approved_end env app job t s ≡ (next, s) = rw (i) refl in
          absurd (pushes-not _ (e ∙ p) refl h)
      | inl i ↦
          let p : approved_end env app job t s
              ≡ admitted t (transaction env (admit_edit env job.id) s) =
            rw (i) refl in
          let (r, q, u) =
            admitted-pushes t (transaction env (admit_edit env job.id) s)
              (ap (λ o. pushes_with o.0) (sym (e ∙ p)) ∙ h) in
          (
            subst (λ (s' : Pushes). IsAdmission env job s.current s'.current)
                (sym (ap (λ o. o.1) (e ∙ p) ∙ u)) (transaction-true env job s r),
            i,
            m ∙ ap some (sym q),
          )
    ]

-- The worker goes on to push a job only if the job was stored as approved, had not expired, and is
-- stored as being sent from then on; the guest still held its identity, and the token is the
-- current one of the job's credential.
pub take_up-pushes :
    (env : Env) (x : Crypto) (settings : Settings) (first : Moment) (app : AppState) (job : Job)
    (s : Pushes) {token : Text}
    → pushes_with (take_up env x settings first app job s).0 ≡ some token
    → IsAdmission env job s.current (take_up env x settings first app job s).1.current
      × (holds_identity job.container job.peer job.instance_id job.epoch app ≡ true)
      × (current_git_token x settings job.binding ≡ some token)
unfolding take_up
take_up-pushes env x settings first app job s {token} h =
    elim (Bool-cases (leb job.expires_at first.at || not (keeps_identity first.app job))) [
      | inl y ↦
          let e : take_up env x settings first app job s
              ≡ continue_with (transaction env (drop_edit env job.id) s) =
            rw (y, take_up) refl in
          absurd (pushes-not _ e (pushes_with-continue_with _) h)
      | inr n ↦ elim (Bool-cases (is_preparing job.status)) [
        | inl p ↦ elim (Option-cases (current_git_token x settings job.binding)) [
          | inl m ↦
              let e : take_up env x settings first app job s
                  ≡ continue_with (transaction env (block_edit env is_preparing job.id) s) =
                rw (n, p, m, take_up) refl in
              absurd (pushes-not _ e (pushes_with-continue_with _) h)
          | inr (t, m) ↦
              let e : take_up env x settings first app job s ≡ with_storage (derive t) s =
                rw (n, p, m, take_up) refl in
              absurd (pushes-not _ e (pushes_with-derive t s) h)
        ]
        | inr p ↦ elim (Bool-cases (is_approved job.status)) [
          | inr a ↦
              let e : take_up env x settings first app job s ≡ (next, s) =
                rw (n, p, a, take_up) refl in
              absurd (pushes-not _ e refl h)
          | inl a ↦ elim (Option-cases (current_git_token x settings job.binding)) [
            | inl m ↦
                let e : take_up env x settings first app job s
                    ≡ continue_with (transaction env (block_edit env is_approved job.id) s) =
                  rw (n, p, a, m, take_up) refl in
                absurd (pushes-not _ e (pushes_with-continue_with _) h)
            | inr (t, m) ↦
                take_up-approved env x settings first app job s {token = token} {t = t} m
                  (rw (n, p, a, m, take_up) refl) h
          ]
        ]
      ]
    ]
