-- ===== src/Jobs/Turns.antt =====
-- What the worker's turn does to the jobs, and when it sends one.
use friendzone.Prelude.{
  ◌≡◌, refl, sym, ap, subst, ◌∙◌, ◌⊎◌, inl, inr, ◌||◌, not, Bool, true, false, some, leb, arith,
  Bool-cases, Option-cases, false≢true, nat_eq, nat_beq_iff,
}
use friendzone.Prelude.Map.{lookup, lookup-insert}
use friendzone.Prelude.Result.{Result, ok, err}
use friendzone.State.{AppState, Moment}
use friendzone.State.Gate.{holds_identity}
use friendzone.Settings.{Settings}
use friendzone.Prelude.Text.{text}
use friendzone.Review.{Status}
use friendzone.Jobs.{Job, Saved, Jobs, Env, JobsError, UpstreamDiagnostics, set}
use friendzone.Jobs.Credential.{Crypto, current_credential}
use friendzone.Jobs.Store.{transaction}
use friendzone.Jobs.Guest.{put}
use friendzone.Jobs.Worker.{
  Outcome, send, continue_with, take_up, keeps_identity, is_approved, drop_edit, block_edit,
  admit_edit, sending_diagnostics,
}
use friendzone.Jobs.Atomic.{After, IsAtomic, IsSaved, transaction-IsAtomic}
use friendzone.Jobs.Changes.{Changes}
use friendzone.Jobs.Progress.{drop_edit-Changes, block_edit-Changes}

abbrev pub sends : Outcome → Bool
sends (send _ _) = true
sends _ = false

-- A turn for one job: no transaction, one that sends nothing, or the one that admits the job.
unfoldable pub IsTurn : Env → AppState → Job → Jobs → Outcome → Jobs → Type 0
IsTurn env app job s o s' =
    ((sends o ≡ false) × (s' ≡ s))
    ⊎ (((sends o ≡ false)
          × ((edit : Saved → Result JobsError (Unit {0} × Saved)) × After (Changes s.current)
                (edit s.current)
              × (s' ≡ (transaction env edit s).1)))
        ⊎ ((d : UpstreamDiagnostics) × (s' ≡ (transaction env (admit_edit env job d) s).1)
            × ((sends o ≡ false)
                ⊎ (((transaction env (admit_edit env job d) s).0 ≡ ok true)
                    × (holds_identity job.container job.peer job.instance_id job.epoch app
                        ≡ true)))))

sends-continue_with : (r : Result JobsError (Unit {0})) → sends (continue_with r) ≡ false
unfolding continue_with
sends-continue_with (ok _) = refl
sends-continue_with (err e) = refl

Bool-result :
    (r : Result JobsError Bool) → ((e : JobsError) × (r ≡ err e)) ⊎ ((r ≡ ok true) ⊎ (r ≡ ok false))
Bool-result (err e) = inl (e, refl)
Bool-result (ok true) = inr (inl refl)
Bool-result (ok false) = inr (inr refl)

pub take_up-IsTurn :
    (env : Env) (x : Crypto) (settings : Settings) (first : Moment) (app : AppState) (job : Job)
    (s : Jobs)
    → let (o, s') = take_up env x settings first app job s in IsTurn env app job s o s'
unfolding take_up IsTurn
take_up-IsTurn env x settings first app job s =
    elim (Bool-cases (leb job.expires_at first.at || not (keeps_identity first.app job))) [
      | inl y ↦
          rw (y, take_up)
            (inr (
              inl (
                sends-continue_with _,
                (drop_edit env job, drop_edit-Changes env job s.current, refl),
              )))
      | inr n ↦ elim (Bool-cases (is_approved job.status)) [
        | inr n' ↦ rw (n, n', take_up) (inl (refl, refl))
        | inl a ↦ elim (Option-cases (current_credential x settings job.binding)) [
          | inl m ↦
              rw (n, a, m, take_up)
                (inr (
                  inl (
                    sends-continue_with _,
                    (block_edit env job, block_edit-Changes env job s.current, refl),
                  )))
          | inr (c, m) ↦
              elim (Bool-cases
                (holds_identity job.container job.peer job.instance_id job.epoch app)) [
                  | inr h ↦ rw (n, a, m, h, take_up) (inl (refl, refl))
                  | inl h ↦
                      elim (Bool-result
                        (transaction env (admit_edit env job (sending_diagnostics env job)) s).0) [
                          | inl (e, r) ↦
                              rw (n, a, m, h, take_up, r)
                                (inr (inr (sending_diagnostics env job, refl, inl refl)))
                          | inr (inl r) ↦
                              rw (n, a, m, h, take_up, r)
                                (inr (inr (sending_diagnostics env job, refl, inr (r, refl))))
                          | inr (inr r) ↦
                              rw (n, a, m, h, take_up, r)
                                (inr (inr (sending_diagnostics env job, refl, inl refl)))
                        ]
                ]
        ]
      ]
    ]

abbrev bool_of : Result JobsError Bool → Bool
bool_of (ok b) = b
bool_of (err _) = false

abbrev next_of : Result JobsError (Bool × Saved) → Saved → Saved
next_of (ok (_, saved)) default = saved
next_of (err _) default = default

-- What a job that is sent was before, and is after.
unfoldable pub IsAdmission : Env → Job → Saved → Saved → Type 0
IsAdmission env job before after =
    (j : Job) × (lookup job.id before.jobs ≡ some j)
    × (is_approved j.status ≡ true)
    × (leb j.expires_at env.now ≡ false)
    × ((j' : Job) × (lookup job.id after.jobs ≡ some j') × (j'.status ≡ Status.sending))

admit_edit-true :
    (env : Env) (job : Job) (d : UpstreamDiagnostics) (before : Saved) {after : Saved}
    → admit_edit env job d before ≡ ok (true, after)
    → IsAdmission env job before after
unfolding admit_edit IsAdmission put set
admit_edit-true env job d before {after} h = elim (Option-cases (lookup job.id before.jobs)) [
  | inl n ↦ ground arith
  | inr (j, e) ↦ elim (Bool-cases (not (is_approved j.status) || leb j.expires_at env.now)) [
    | inl y ↦ ground arith
    | inr n ↦
        let j' : Job = record (set env Status.sending (text "Executing on GitHub") j) {
          upstream = some d;
        } in
        let p : admit_edit env job d before ≡ ok (true, put job.id j' before) =
          rw (e, admit_edit, n) refl in
        let q : put job.id j' before ≡ after = ap (λ r. next_of r before) (sym p ∙ h) in
        (
          j,
          e,
          ground arith,
          ground arith,
          (
            j',
            ap (λ (x : Saved). lookup job.id x.jobs) (sym q)
                ∙ ground
                    (arith, nat_beq_iff job.id job.id, lookup-insert job.id job.id j' before.jobs),
            refl,
          ),
        )
  ]
]

transaction-true :
    (env : Env) (edit : Saved → Result JobsError (Bool × Saved)) (s : Jobs)
    → (transaction env edit s).0 ≡ ok true
    → let s' = (transaction env edit s).1 in IsSaved s' × (edit s.current ≡ ok (true, s'.current))
unfolding IsAtomic
transaction-true env edit s r =
    let a = transaction-IsAtomic env edit s in
    elim a [
      | inl (b, q, k, f) ↦
          let t : b ≡ true = ap (λ x. bool_of x) (sym q ∙ r) in
          (f, k ∙ ap (λ c. ok (c, (transaction env edit s).1.current)) t)
      | inr (b, q, c, f) ↦ absurd (false≢true (ap (λ x. bool_of x) (sym q ∙ r)))
    ]

-- A job is sent only once its state is saved as being sent: until then it was approved and had not
-- expired, and the guest that submitted it still had its identity, its approval and its address.
pub take_up-sends :
    (env : Env) (x : Crypto) (settings : Settings) (first : Moment) (app : AppState) (job : Job)
    (s : Jobs)
    → sends (take_up env x settings first app job s).0 ≡ true
    → let s' = (take_up env x settings first app job s).1 in
      IsSaved s'
      × IsAdmission env job s.current s'.current
      × (holds_identity job.container job.peer job.instance_id job.epoch app ≡ true)
unfolding IsTurn IsAtomic
take_up-sends env x settings first app job s h =
    let t = take_up-IsTurn env x settings first app job s in
    elim t [
      | inl (n, e) ↦ absurd (false≢true (sym n ∙ h))
      | inr (inl (n, e)) ↦ absurd (false≢true (sym n ∙ h))
      | inr (inr (d, e, inl n)) ↦ absurd (false≢true (sym n ∙ h))
      | inr (inr (d, e, inr (r, i))) ↦
          let (f, k) = transaction-true env (admit_edit env job d) s r in
          subst
            (λ (s' : Jobs).
              IsSaved s'
              × IsAdmission env job s.current s'.current
              × (holds_identity job.container job.peer job.instance_id job.epoch app ≡ true))
            (sym e)
            (
              f,
              admit_edit-true env job d s.current
                  {after = (transaction env (admit_edit env job d) s).1.current} k,
              i,
            )
    ]
