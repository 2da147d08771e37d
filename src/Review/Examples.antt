-- ===== src/Review/Examples.antt =====
-- A short life of the queue, to which the theorems are applied.
use friendzone.Prelude.{
  ◌≡◌, refl, true, false, none, some, List, [], ◌∷◌, nat_eq, ◌==◌, if◌then◌else◌, string_eq,
}
use friendzone.Prelude.Map.{lookup, insert}
use friendzone.Prelude.Result.{err}
use friendzone.Review.{Status, Decision, Detail, Entry, QueueState, Env, not_waiting}
use friendzone.Review.Queue.{new, enqueue, decide, is_live}
use friendzone.Review.Steps.{Op, run}
use friendzone.Review.Invariant.{IsValid}
use friendzone.Review.Bounds.{run-IsValid, with_limits-IsValid}
use friendzone.Review.Decide.{decide-ok, decide_once}

abbrev env : Env
env = record { now = 5; instant = 0; closed = λ _. false; sends = true; new_id = 9 }

abbrev post : Detail
post = record {
  summary = record {
    id = 1;
    container = "alice";
    method = "POST";
    url = "https://api.github.com/graphql";
    created_at = 5;
    expires_at = 120005;
    fingerprint = "f1";
    body_bytes = 0;
    reason = "GitHub operation requires approval.";
    status = Status.pending;
    updated_at = 5;
    http_status = none;
    outcome = none;
  };
  headers = [];
  body = [];
  graphql = false;
  file_upload = none;
  graphql_response = none;
  graphql_read = false;
  comment_permission_supported = false;
  resolved_target = none;
  resolution_id = none;
  comment_context = none;
}

abbrev other : Detail
other = record post { summary = record post.summary { id = 2; container = "bob" } }

abbrev waiting : QueueState
waiting = (enqueue env other (enqueue env post new).1).1

abbrev entry : Entry
entry = record { detail = other; deadline = 120000 }

abbrev operations : List (Env × Op)
operations =
    (env, Op.enqueue_op post)
    ∷ (env, Op.enqueue_op other)
    ∷ (env, Op.decide_op 1 "f1" Decision.approve)
    ∷ (env, Op.cancel_container_op "bob")
    ∷ (env, Op.observe_op 1 Status.sending none "sent")
    ∷ []

run-IsValid_example : IsValid (run operations new)
unfolding new
run-IsValid_example = run-IsValid operations new (with_limits-IsValid 32 8)

decide-ok_example :
    ((e : Entry) × (lookup 1 waiting.pending ≡ some e)
      × (e.detail.summary.fingerprint ≡ "f1")
      × (is_live env 1 e ≡ true))
    × ((j : _)
        → lookup j (decide env 1 "f1" Decision.approve waiting).1.pending
          ≡ (if 1 == j then none else lookup j waiting.pending))
unfolding enqueue decide lookup insert new
decide-ok_example = decide-ok env 1 "f1" Decision.approve waiting refl

abbrev later : List (Env × Op)
later = (env, Op.cancel_container_op "bob") ∷ (env, Op.observe_op 1 Status.sending none "sent") ∷ []

decide_once_example :
    let q = run later (decide env 1 "f1" Decision.deny waiting).1 in
    decide env 1 "f1" Decision.approve q ≡ (err not_waiting, q)
unfolding enqueue decide lookup insert new
decide_once_example =
    decide_once env env 1 "f1" "f1" Decision.deny Decision.approve waiting later refl (tt, (tt, tt))

abbrev denied : QueueState
denied = (decide env 1 "f1" Decision.deny waiting).1
