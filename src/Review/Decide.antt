-- ===== src/Review/Decide.antt =====
-- One decision for each request: it is checked, delivered once, and never revised.
use friendzone.Prelude.{
  ℕ, ◌+◌, String, ◌≡◌, ◌≢◌, inl, inr, ap, Bool, true, false, not, ◌||◌, Option, none, some, List,
  [], ◌∷◌, arith, if◌then◌else◌, nat_eq, nat_beq_iff, ◌==◌, Option-cases, Bool-cases, string_eq,
  str_eq_iff, leb,
}
use friendzone.Prelude.Map.{lookup, insert, lookup-insert}
use friendzone.Prelude.Result.{ok, err}
use friendzone.Github.{Uuid, Resolved}
use friendzone.Review.{Status, active, Decision, Detail, Entry, QueueState, Env, not_waiting}
use friendzone.Review.Queue.{
  archive, cancel_pending, remove_waiting, notify, cancel_container, decide, is_live, refine,
  observe, response_detail, graphql_response_detail, is_response_received, Ticket, WaitEnd, wait,
  enqueue, upload_result, change_guest_upload, set_resolved, resolved, decided_status,
  decided_outcome, wait_limit,
}
use friendzone.Review.Steps.{Op, step, run}
use friendzone.Review.Cancel.{
  pending-notify, pending-archive, pending-cancel_pending, pending-cancel_container,
}

pub pending-refine :
    (id : Uuid) (ready : Status → Bool) (f : Detail → Detail) (q : QueueState)
    → (refine id ready f q).pending ≡ q.pending
unfolding refine notify
pending-refine id ready f q = ground arith

-- A decision that reached its request: the request was waiting and live, the fingerprint was its
-- own, and now it waits no more, while the others wait as before.
pub decide-ok :
    (env : Env) (id : Uuid) (fingerprint : String) (decision : Decision) (q : QueueState)
    → (decide env id fingerprint decision q).0 ≡ ok tt
    → ((entry : Entry) × (lookup id q.pending ≡ some entry)
        × (entry.detail.summary.fingerprint ≡ fingerprint)
        × (is_live env id entry ≡ true))
      × ((j : Uuid)
          → lookup j (decide env id fingerprint decision q).1.pending
            ≡ (if id == j then none else lookup j q.pending))
unfolding decide
decide-ok env id fingerprint decision q h = elim (Option-cases (lookup id q.pending)) [
  | inl n ↦ ground arith
  | inr (entry, e) ↦ (
    (
      entry,
      e,
      ground (arith, str_eq_iff entry.detail.summary.fingerprint fingerprint),
      ground arith,
    ),
    λ j. ground (
      arith,
      pending-archive env id j (decided_status decision) (decided_outcome decision) q,
      pending-notify (archive env id (decided_status decision) (decided_outcome decision) q).1,
    ),
  )
]

abbrev pub IsGone : Uuid → QueueState → Type 0
IsGone id q = lookup id q.pending ≡ none

-- The operation brings no request of this id.
abbrev pub IsOther : Uuid → Op → Type 0
IsOther id (Op.enqueue_op d) = d.summary.id ≢ id
IsOther id _ = Unit

module _ (env : Env) (id : Uuid) where
  archive-IsGone :
      (i : Uuid) (status : Status) (outcome : String) (q : QueueState)
      → IsGone id q
      → IsGone id (archive env i status outcome q).1
  archive-IsGone i status outcome q g = ground (arith, pending-archive env i id status outcome q)

  cancel_pending-IsGone :
      (i : Uuid) (status : Status) (outcome : String) (q : QueueState)
      → IsGone id q
      → IsGone id (cancel_pending env i status outcome q)
  cancel_pending-IsGone i status outcome q g =
      ground (arith, pending-cancel_pending env i id status outcome q)

  remove_waiting-IsGone :
      (i : Uuid) (q : QueueState) → IsGone id q → IsGone id (remove_waiting env i q)
  unfolding remove_waiting
  remove_waiting-IsGone i q g = cancel_pending-IsGone i Status.cancelled _ q g

  wait-IsGone :
      (t : Ticket) (w : WaitEnd) (q : QueueState) → IsGone id q → IsGone id (wait env t w q).1
  unfolding wait
  wait-IsGone t (WaitEnd.received d) q g = remove_waiting-IsGone t.id q g
  wait-IsGone t WaitEnd.timed_out q g =
      remove_waiting-IsGone t.id _ (cancel_pending-IsGone t.id Status.expired _ q g)
  wait-IsGone t WaitEnd.sender_dropped q g = remove_waiting-IsGone t.id q g

  cancel_container-IsGone :
      (c : String) (q : QueueState) → IsGone id q → IsGone id (cancel_container env c q)
  cancel_container-IsGone c q g =
      elim (Option-cases (lookup id (cancel_container env c q).pending)) [
        | inl n ↦ n
        | inr (entry, e) ↦ cc ((pending-cancel_container env c id q e).0)
      ]

  observe-IsGone :
      (i : Uuid) (s : Status) (h : Option ℕ) (o : String) (q : QueueState)
      → IsGone id q
      → IsGone id (observe env i s h o q)
  unfolding observe
  observe-IsGone i s h o q g = rw (pending-refine i active _ q) g

  decide-IsGone :
      (i : Uuid) (f : String) (d : Decision) (q : QueueState)
      → IsGone id q
      → IsGone id (decide env i f d q).1
  unfolding decide
  decide-IsGone i f d q g = elim (Option-cases (lookup i q.pending)) [
    | inl n ↦ rw (n, decide) g
    | inr (entry, e) ↦
        let status = if leb entry.deadline env.instant then Status.expired else Status.cancelled in
        let q' = notify (archive env i (decided_status d) (decided_outcome d) q).1 in
        let done : IsGone id q' =
          rw pending-notify (archive-IsGone i (decided_status d) (decided_outcome d) q g) in
        ground (
          arith,
          archive-IsGone i status "Not sent. Review expired or client stopped waiting." q g,
          pending-notify
              (archive env i status "Not sent. Review expired or client stopped waiting." q).1,
          observe-IsGone i Status.cancelled none "Client stopped waiting. Not sent." q' done,
        )
  ]

  enqueue-IsGone :
      (d : Detail) (q : QueueState)
      → d.summary.id ≢ id
      → IsGone id q
      → IsGone id (enqueue env d q).1
  unfolding enqueue notify
  enqueue-IsGone d q other g = ground (
    arith,
    lookup-insert d.summary.id id (record { detail = d; deadline = env.instant + wait_limit })
        q.pending,
  )

  gone-insert :
      (i : Uuid) (new : Entry) (q : QueueState)
      → i ≢ id
      → IsGone id q
      → lookup id (insert i new q.pending) ≡ none
  gone-insert i new q other g = ground (arith, lookup-insert i id new q.pending)

  set_resolved-IsGone :
      (i : Uuid) (f : String) (t : Resolved) (r : Uuid) (q : QueueState)
      → IsGone id q
      → IsGone id (set_resolved env i f t r q).1
  unfolding set_resolved
  set_resolved-IsGone i f t r q g = elim (Option-cases (lookup i q.pending)) [
    | inl n ↦ rw (n, set_resolved) g
    | inr (entry, e) ↦
        let other : i ≢ id = λ same. cc (e, g, ap (λ k. lookup k q.pending) same) in
        elim (Bool-cases
          (not (entry.detail.summary.fingerprint == f) || not (is_live env i entry))) [
            | inl changed ↦ rw (e, set_resolved, changed) g
            | inr live ↦ elim (Option-cases (resolved env t r entry.detail)) [
              | inl n ↦ rw (e, set_resolved, live, n) (gone-insert i _ q other g)
              | inr (d, x) ↦ rw (e, set_resolved, live, x) (gone-insert i _ q other g)
            ]
          ]
  ]

  change_guest_upload-IsGone :
      (i : Uuid) (c : String) (k : Uuid) (session : String) (removes : Bool) (q : QueueState)
      → IsGone id q
      → IsGone id (change_guest_upload env i c k session removes q).1
  unfolding change_guest_upload notify
  change_guest_upload-IsGone i c k session true q g = ground arith
  change_guest_upload-IsGone i c k session false q g =
      ground (arith, archive-IsGone i Status.cancelled "Cancelled by guest. Not sent." q g)

  step-IsGone : (op : Op) (q : QueueState) → IsOther id op → IsGone id q → IsGone id (step env op q)
  unfolding step upload_result response_detail graphql_response_detail
  step-IsGone (Op.enqueue_op d) q o g = enqueue-IsGone d q o g
  step-IsGone (Op.upload_result_op i url) q o g = g
  step-IsGone (Op.change_guest_upload_op i c k s r) q o g = change_guest_upload-IsGone i c k s r q g
  step-IsGone (Op.response_detail_op i s t) q o g = rw (pending-refine i is_response_received _ q) g
  step-IsGone (Op.graphql_response_detail_op i d) q o g =
      rw (pending-refine i is_response_received _ q) g
  step-IsGone (Op.observe_op i s h t) q o g = observe-IsGone i s h t q g
  step-IsGone (Op.decide_op i f d) q o g = decide-IsGone i f d q g
  step-IsGone (Op.set_resolved_op i f t r) q o g = set_resolved-IsGone i f t r q g
  step-IsGone (Op.cancel_container_op c) q o g = cancel_container-IsGone c q g
  step-IsGone (Op.wait_op t w) q o g = wait-IsGone t w q g
  step-IsGone (Op.drop_op i) q o g = remove_waiting-IsGone i q g

abbrev pub AllOther : Uuid → List (Env × Op) → Type 0
AllOther id [] = Unit
AllOther id ((env, op) ∷ ops) = IsOther id op × AllOther id ops

run-IsGone :
    (id : Uuid) (ops : List (Env × Op)) (q : QueueState)
    → AllOther id ops
    → IsGone id q
    → IsGone id (run ops q)
unfolding run
run-IsGone id [] q o g = g
run-IsGone id ((env, op) ∷ ops) q o g =
    run-IsGone id ops (step env op q) o.1 (step-IsGone env id op q o.0 g)

decide-gone :
    (env : Env) (id : Uuid) (f : String) (d : Decision) (q : QueueState)
    → IsGone id q
    → decide env id f d q ≡ (err not_waiting, q)
unfolding decide
decide-gone env id f d q g = rw (g, decide)

-- One decision for each request: once one was delivered, whatever happens afterwards (short of a
-- new request under the same id) every further decision is refused and changes nothing.
pub decide_once :
    (env later : Env) (id : Uuid) (f f' : String) (d d' : Decision) (q : QueueState)
    (ops : List (Env × Op))
    → (decide env id f d q).0 ≡ ok tt
    → AllOther id ops
    → let q' = run ops (decide env id f d q).1 in decide later id f' d' q' ≡ (err not_waiting, q')
decide_once env later id f f' d d' q ops h o =
    decide-gone later id f' d' (run ops (decide env id f d q).1) (
      run-IsGone id ops (decide env id f d q).1 o
        (ground (arith, (decide-ok env id f d q h).1 id, nat_beq_iff id id)))
