-- ===== src/Review/Bounds.antt =====
-- Every operation of the queue keeps the invariant, in any order.
use friendzone.Prelude.{
  ℕ, ◌+◌, String, ◌≡◌, ◌⊎◌, inl, inr, refl, ap, Bool, true, false, not, none, some, List, [], ◌∷◌,
  arith, length, filter, All-filter, length-filter-le, if◌then◌else◌, nat_eq, ◌==◌, string_eq,
  str_eq_iff, Option-cases, Bool-cases, leb, or-eq-false, ◌||◌, any, is_some,
}
use friendzone.Prelude.Map.{lookup, insert}
use friendzone.Prelude.Counts.{
  count, length-insert-le, length-insert_old, count-insert-le, count-insert_old,
}
use friendzone.Prelude.Result.{Result, ok, err}
use friendzone.Github.{Uuid, Resolved}
use friendzone.Review.{
  Status, active, Decision, Detail, Entry, QueueState, Env, QueueError, client_stopped,
}
use friendzone.Review.Queue.{
  notify, is_live, is_of, archive, has_id, enqueue, change_guest_upload, observe, decide,
  set_resolved, inspect, is_guest_upload, is_pending, resolved, with_limits, decided_status,
  decided_outcome, wait_limit,
}
use friendzone.Review.Steps.{Op, step, run}
use friendzone.Review.Invariant.{
  IsReleased, IsValid, notify-IsValid, archive-IsValid, cancel_container-IsValid,
  remove_waiting-IsValid, wait-IsValid, response_detail-IsValid, graphql_response_detail-IsValid,
  observe-IsValid, upload_result-IsValid,
}

if-IsValid {ℓ} :
    {A : Type ℓ} (b : Bool) (x y : A × QueueState)
    → IsValid x.1
    → IsValid y.1
    → IsValid (if b then x else y).1
if-IsValid true x y vx vy = vx
if-IsValid false x y vx vy = vy

decided_status-ends :
    (decision : Decision)
    → (active (decided_status decision) ≡ false) ⊎ (decided_status decision ≡ Status.approved)
unfolding decided_status active
decided_status-ends Decision.approve = inr refl
decided_status-ends Decision.deny = inl refl

lapsed-ends :
    (b : Bool)
    → (active (if b then Status.expired else Status.cancelled) ≡ false)
      ⊎ ((if b then Status.expired else Status.cancelled) ≡ Status.approved)
unfolding active
lapsed-ends true = inl refl
lapsed-ends false = inl refl

decide-IsValid :
    (env : Env) (id : Uuid) (fingerprint : String) (decision : Decision) (q : QueueState)
    → IsValid q
    → IsValid (decide env id fingerprint decision q).1
unfolding decide
decide-IsValid env id fingerprint decision q v = elim (Option-cases (lookup id q.pending)) [
  | inl n ↦ rw (n, decide) v
  | inr (entry, e) ↦
      let status = if leb entry.deadline env.instant then Status.expired else Status.cancelled in
      let lapsed = notify-IsValid _ (
        archive-IsValid env id status "Not sent. Review expired or client stopped waiting." q
          (lapsed-ends (leb entry.deadline env.instant)) v) in
      let q' = notify (archive env id (decided_status decision) (decided_outcome decision) q).1 in
      let done : IsValid q' = notify-IsValid _ (
        archive-IsValid env id (decided_status decision) (decided_outcome decision) q
          (decided_status-ends decision) v) in
      let stopped : String = "Client stopped waiting. Not sent." in
      elim (Bool-cases (entry.detail.summary.fingerprint == fingerprint)) [
        | inr f ↦ rw (e, decide, f) v
        | inl f ↦ elim (Bool-cases (is_live env id entry)) [
          | inr l ↦ rw (e, decide, f, l) lapsed
          | inl l ↦
              rw (e, decide, f, l)
                (if-IsValid {A = Result QueueError (Unit {0})} env.sends (ok tt, q')
                  (err client_stopped, observe env id Status.cancelled none stopped q') done
                  (observe-IsValid env id Status.cancelled none stopped q' done))
        ]
      ]
]

is_of-eq :
    (c : String) (id : Uuid) (entry : Entry)
    → is_of c (id, entry) ≡ true
    → entry.detail.summary.container ≡ c
unfolding is_of
is_of-eq c id entry h = (str_eq_iff _ c).0 h

-- A request that was let in leaves both limits kept.
insert-IsValid :
    (entry : Entry) (q : QueueState)
    → (leb q.capacity (length q.pending)
        || leb q.per_guest (count (is_of entry.detail.summary.container) q.pending))
      ≡ false
    → IsValid q
    → IsValid (record q { pending = insert entry.detail.summary.id entry q.pending })
insert-IsValid entry q room v =
    let id = entry.detail.summary.id in
    let (short, few) =
      or-eq-false (leb q.capacity (length q.pending))
        (leb q.per_guest (count (is_of entry.detail.summary.container) q.pending)) room in
    record {
      fits = ground (arith, length-insert-le id entry q.pending);
      fair = λ c.
          ground
            (arith, count-insert-le (is_of c) id entry q.pending, is_of-eq c id entry, v.fair c);
      history = v.history;
      released = v.released;
    }

enqueue-IsValid :
    (env : Env) (d : Detail) (q : QueueState) → IsValid q → IsValid (enqueue env d q).1
unfolding enqueue
enqueue-IsValid env d q v =
    let c = d.summary.container in
    let entry : Entry = record { detail = d; deadline = env.instant + wait_limit } in
    elim (Bool-cases
      (is_some (lookup d.summary.id q.pending) || any (has_id d.summary.id) q.recent)) [
        | inl dup ↦ rw (dup, enqueue) v
        | inr new ↦
            elim (Bool-cases
              (leb q.capacity (length q.pending) || leb q.per_guest (count (is_of c) q.pending))) [
                | inl crowded ↦ rw (new, enqueue, crowded) v
                | inr room ↦
                    rw (new, enqueue, room) (notify-IsValid _ (insert-IsValid entry q room v))
              ]
      ]

-- The comment target of a waiting request is updated in place.
replace-IsValid :
    (id : Uuid) (old new : Entry) (q : QueueState)
    → lookup id q.pending ≡ some old
    → new.detail.summary.container ≡ old.detail.summary.container
    → IsValid q
    → IsValid (record q { pending = insert id new q.pending })
unfolding is_of
replace-IsValid id old new q e same v = record {
  fits = omega (arith, length-insert_old id new old q.pending e, v.fits);
  fair = λ c.
      omega (
        arith,
        count-insert_old (is_of c) id new old q.pending e (ap (λ k. k == c) same),
        v.fair c,
      );
  history = v.history;
  released = v.released;
}

resolved-container :
    (env : Env) (target : Resolved) (revision : Uuid) (d : Detail) {d' : Detail}
    → resolved env target revision d ≡ some d'
    → d'.summary.container ≡ d.summary.container
unfolding resolved
resolved-container env target revision d {d'} h = ground arith

set_resolved-IsValid :
    (env : Env) (id : Uuid) (fingerprint : String) (target : Resolved) (revision : Uuid)
    (q : QueueState)
    → IsValid q
    → IsValid (set_resolved env id fingerprint target revision q).1
unfolding set_resolved
set_resolved-IsValid env id fingerprint target revision q v =
    elim (Option-cases (lookup id q.pending)) [
      | inl n ↦ rw (n, set_resolved) v
      | inr (entry, e) ↦
          elim (Bool-cases
            (not (entry.detail.summary.fingerprint == fingerprint) || not (is_live env id entry))) [
              | inl changed ↦ rw (e, set_resolved, changed) v
              | inr live ↦ elim (Option-cases (resolved env target revision entry.detail)) [
                | inl n ↦ rw (e, set_resolved, live, n) (replace-IsValid id entry _ q e refl v)
                | inr (d, r) ↦
                    rw (e, set_resolved, live, r)
                      (replace-IsValid id entry (record entry { detail = d }) q e
                        (resolved-container env target revision entry.detail r) v)
              ]
            ]
    ]

filter-IsValid :
    (p : Detail → Bool) (q : QueueState)
    → IsValid q
    → IsValid (record q { recent = filter p q.recent })
filter-IsValid p q v = record {
  fits = v.fits;
  fair = v.fair;
  history = omega (arith, length-filter-le p q.recent, v.history);
  released = All-filter IsReleased p q.recent v.released;
}

change_guest_upload-IsValid :
    (env : Env) (id : Uuid) (c : String) (i : Uuid) (session : String) (removes : Bool)
    (q : QueueState)
    → IsValid q
    → IsValid (change_guest_upload env id c i session removes q).1
unfolding change_guest_upload active
change_guest_upload-IsValid env id c i session true q v = elim (Option-cases (inspect id q)) [
  | inl n ↦ rw (n, change_guest_upload) v
  | inr (d, e) ↦ elim (Bool-cases (is_guest_upload c i session d)) [
    | inr other ↦ rw (e, change_guest_upload, other) v
    | inl mine ↦
        rw (e, change_guest_upload, mine)
          (if-IsValid (active d.summary.status) _ _ v
            (notify-IsValid _ (filter-IsValid (λ r. not (has_id id r)) q v)))
  ]
]
change_guest_upload-IsValid env id c i session false q v = elim (Option-cases (inspect id q)) [
  | inl n ↦ rw (n, change_guest_upload) v
  | inr (d, e) ↦ elim (Bool-cases (is_guest_upload c i session d)) [
    | inr other ↦ rw (e, change_guest_upload, other) v
    | inl mine ↦
        rw (e, change_guest_upload, mine)
          (if-IsValid (not (is_pending d.summary.status)) _ _ v (
            notify-IsValid _ (
              archive-IsValid env id Status.cancelled "Cancelled by guest. Not sent." q (inl refl)
                v)))
  ]
]

-- Whatever the sequence of operations, a queue that was valid stays valid.
step-IsValid : (env : Env) (op : Op) (q : QueueState) → IsValid q → IsValid (step env op q)
unfolding step
step-IsValid env (Op.enqueue_op d) q v = enqueue-IsValid env d q v
step-IsValid env (Op.upload_result_op id url) q v = upload_result-IsValid id url q v
step-IsValid env (Op.change_guest_upload_op id c i s r) q v =
    change_guest_upload-IsValid env id c i s r q v
step-IsValid env (Op.response_detail_op id s o) q v = response_detail-IsValid env id s o q v
step-IsValid env (Op.graphql_response_detail_op id d) q v =
    graphql_response_detail-IsValid env id d q v
step-IsValid env (Op.observe_op id s h o) q v = observe-IsValid env id s h o q v
step-IsValid env (Op.decide_op id f d) q v = decide-IsValid env id f d q v
step-IsValid env (Op.set_resolved_op id f t r) q v = set_resolved-IsValid env id f t r q v
step-IsValid env (Op.cancel_container_op c) q v = cancel_container-IsValid env c q v
step-IsValid env (Op.wait_op t w) q v = wait-IsValid env t w q v
step-IsValid env (Op.drop_op id) q v = remove_waiting-IsValid env id q v

-- Whatever the operations and their order, a queue that keeps its limits (on the requests that wait,
-- on those of one guest, on the outcomes kept), and in which every outcome that is over holds no
-- upload's bytes, still does afterwards.
pub run-IsValid : (ops : List (Env × Op)) (q : QueueState) → IsValid q → IsValid (run ops q)
unfolding run
run-IsValid [] q v = v
run-IsValid ((env, op) ∷ ops) q v = run-IsValid ops (step env op q) (step-IsValid env op q v)

-- The queue that the broker starts with.
pub with_limits-IsValid : (capacity per_guest : ℕ) → IsValid (with_limits capacity per_guest)
unfolding with_limits
with_limits-IsValid capacity per_guest = record {
  fits = omega arith;
  fair = λ c. omega arith;
  history = omega arith;
  released = tt;
}
