-- ===== src/Review/Queue/Decisions.antt =====
-- The outcomes of `impl Queue` and `impl Ticket`: an answer is observed, a request is decided,
-- cancelled or waited for.
use friendzone.Prelude.{
  ℕ, String, Bool, not, ◌&&◌, ◌||◌, Option, none, some, List, [], ◌∷◌, map, ◌==◌, string_eq, nat_eq,
  option_eq, leb, filter, find?, any, if◌then◌else◌,
}
use friendzone.Prelude.Map.{Map, lookup, insert}
use friendzone.Prelude.Result.{Result, ok, err}
use friendzone.Github.{Uuid, Resolved}
use friendzone.Review.{
  Status, active, Decision, approve, deny, Diagnostics, Detail, Entry, QueueState, Env, QueueError,
  not_waiting, fingerprint_mismatch, not_sent, client_stopped, changed, no_context, review_expired,
  review_cancelled,
}
use friendzone.Review.Queue.Archive.{
  notify, drop_content, is_response_received, archive, has_id, is_of,
}
use friendzone.Review.Queue.Requests.{Ticket, is_live, update_first}

unfoldable pub tracks_response : Uuid → QueueState → Bool
unfolding has_id
tracks_response id q = any (λ d. has_id id d && d.graphql) q.recent

-- The operations that refine one retained outcome: nothing is changed, and nobody is notified, where
-- there is no such detail or `ready` refuses its status.
unfoldable pub refine : Uuid → (Status → Bool) → (Detail → Detail) → QueueState → QueueState
unfolding has_id update_first notify
refine id ready f q = elim (find? (has_id id) q.recent) [
  | none ↦ q
  | some d ↦
      if not (ready d.summary.status)
      then q
      else notify (record q { recent = update_first (has_id id) f q.recent })
]

unfoldable pub response_detail : Env → Uuid → Status → String → QueueState → QueueState
unfolding refine is_response_received
response_detail env id status outcome = refine id is_response_received (λ d. record d {
  summary = record d.summary { status = status; outcome = some outcome; updated_at = env.now };
})

unfoldable pub graphql_response_detail : Env → Uuid → Diagnostics → QueueState → QueueState
unfolding refine is_response_received
graphql_response_detail env id diagnostics = refine id is_response_received (λ d. record d {
  summary = record d.summary {
    status = Status.graphql_error;
    outcome =
        some
          "The HTTP exchange completed, but the GraphQL response reported application errors. Inspect the diagnostics below before retrying.";
    updated_at = env.now;
  };
  graphql_response = some diagnostics;
})

-- The changes of `observe` to the detail.
unfoldable pub observed : Env → Status → Option ℕ → String → Detail → Detail
unfolding drop_content active
observed env status http_status outcome d =
    let d' : Detail = record d {
      summary = record d.summary {
        status = status;
        updated_at = env.now;
        http_status = http_status;
        outcome = some outcome;
      };
    } in
    if active status then d' else drop_content d'

unfoldable pub observe : Env → Uuid → Status → Option ℕ → String → QueueState → QueueState
unfolding refine observed active
observe env id status http_status outcome =
    refine id active (observed env status http_status outcome)

unfoldable pub cancel_pending : Env → Uuid → Status → String → QueueState → QueueState
unfolding archive notify
cancel_pending env id status outcome q =
    let (found, q') = archive env id status outcome q in if found then notify q' else q

unfoldable pub decided_status : Decision → Status
decided_status approve = Status.approved
decided_status deny = Status.denied

unfoldable pub decided_outcome : Decision → String
decided_outcome approve = "Approved once; checking current policy before sending."
decided_outcome deny = "Denied by host. Not sent."

-- `decide`: `ok` means that the decision reached the waiting request.
unfoldable pub decide :
    Env → Uuid → String → Decision → QueueState → Result QueueError (Unit {0}) × QueueState
unfolding archive notify observe is_live decided_status decided_outcome
decide env id fingerprint decision q = elim (lookup id q.pending) [
  | none ↦ (err not_waiting, q)
  | some entry ↦
      if not (entry.detail.summary.fingerprint == fingerprint)
      then (err fingerprint_mismatch, q)
      else if not (is_live env id entry)
      then (
        err not_sent,
        notify
            (archive env id
              (if leb entry.deadline env.instant then Status.expired else Status.cancelled)
              "Not sent. Review expired or client stopped waiting." q).1,
      )
      else let q' =
          notify (archive env id (decided_status decision) (decided_outcome decision) q).1 in
        if env.sends then (ok tt, q') else (
          err client_stopped,
          observe env id Status.cancelled none "Client stopped waiting. Not sent." q',
        )
]

-- The changes of `set_resolved` to the detail; `none` where there is no comment context.
unfoldable pub resolved : Env → Resolved → Uuid → Detail → Option Detail
resolved env target revision d = elim d.comment_context [
  | none ↦ none
  | some c ↦ some (record d {
    resolved_target = some target;
    comment_context = some (record c { revision = revision });
    resolution_id = some env.new_id;
  })
]

-- The resolved target is written before the context is asked for, so it stays after that error.
unfoldable pub set_resolved :
    Env → Uuid → String → Resolved → Uuid → QueueState → Result QueueError Detail × QueueState
unfolding is_live resolved
set_resolved env id fingerprint target revision q = elim (lookup id q.pending) [
  | none ↦ (err not_waiting, q)
  | some entry ↦
      if not (entry.detail.summary.fingerprint == fingerprint) || not (is_live env id entry)
      then (err changed, q)
      else elim (resolved env target revision entry.detail) [
        | none ↦ (
          err no_context,
          record q {
            pending =
                insert id
                  (record entry { detail = record entry.detail { resolved_target = some target } })
                  q.pending;
          },
        )
        | some d ↦ (ok d, record q { pending = insert id (record entry { detail = d }) q.pending })
      ]
]

-- The ids that `cancel_container` collects.
unfoldable pub ids_of : String → Map Uuid Entry → List Uuid
unfolding is_of
ids_of container m = map (λ e. e.0) (filter (is_of container) m)

unfoldable pub archive_all : Env → List Uuid → QueueState → QueueState
unfolding archive
archive_all env [] q = q
archive_all env (id ∷ ids) q =
    archive_all env ids
      (archive env id Status.cancelled "Container permissions changed. Not sent." q).1

unfoldable pub cancel_container : Env → String → QueueState → QueueState
unfolding ids_of archive_all notify
cancel_container env container q = notify (archive_all env (ids_of container q.pending) q)

-- `Queue::remove`, which `Drop for Ticket` calls.
unfoldable pub remove_waiting : Env → Uuid → QueueState → QueueState
unfolding cancel_pending
remove_waiting env id =
    cancel_pending env id Status.cancelled "Waiting request was cancelled. Not sent."

-- How a ticket's wait ends: a decision arrives, the deadline passes, or the sender is dropped.
pub data WaitEnd : Type 0 where
  received : Decision → WaitEnd
  timed_out sender_dropped : WaitEnd

-- `Ticket::wait`; the ticket is dropped when it returns.
unfoldable pub wait : Env → Ticket → WaitEnd → QueueState → Result QueueError Decision × QueueState
unfolding cancel_pending remove_waiting
wait env t (received decision) q = (ok decision, remove_waiting env t.id q)
wait env t timed_out q = (
  err review_expired,
  remove_waiting env t.id
      (cancel_pending env t.id Status.expired "No decision within 2 minutes. Not sent." q),
)
wait env t sender_dropped q = (err review_cancelled, remove_waiting env t.id q)
