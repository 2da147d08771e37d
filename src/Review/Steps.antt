-- ===== src/Review/Steps.antt =====
-- Every change of the queue as one step, and runs of steps in any order: handlers, workers and
-- dropped connections interleave as the lock is taken.
use friendzone.Prelude.{ℕ, String, Bool, Option, List, [], ◌∷◌}
use friendzone.Github.{Uuid, Resolved}
use friendzone.Review.{Status, Decision, Diagnostics, Detail, QueueState, Env}
use friendzone.Review.Queue.{
  Ticket, WaitEnd, enqueue, upload_result, change_guest_upload, response_detail,
  graphql_response_detail, observe, decide, set_resolved, cancel_container, remove_waiting, wait,
}

pub data Op : Type 0 where
  enqueue_op : Detail → Op
  upload_result_op : Uuid → String → Op
  change_guest_upload_op : Uuid → String → Uuid → String → Bool → Op
  response_detail_op : Uuid → Status → String → Op
  graphql_response_detail_op : Uuid → Diagnostics → Op
  observe_op : Uuid → Status → Option ℕ → String → Op
  decide_op : Uuid → String → Decision → Op
  set_resolved_op : Uuid → String → Resolved → Uuid → Op
  cancel_container_op : String → Op
  wait_op : Ticket → WaitEnd → Op
  drop_op : Uuid → Op

unfoldable pub step : Env → Op → QueueState → QueueState
step env (enqueue_op d) q = (enqueue env d q).1
step env (upload_result_op id url) q = upload_result id url q
step env (change_guest_upload_op id c i s r) q = (change_guest_upload env id c i s r q).1
step env (response_detail_op id s o) q = response_detail env id s o q
step env (graphql_response_detail_op id d) q = graphql_response_detail env id d q
step env (observe_op id s h o) q = observe env id s h o q
step env (decide_op id f d) q = (decide env id f d q).1
step env (set_resolved_op id f t r) q = (set_resolved env id f t r q).1
step env (cancel_container_op c) q = cancel_container env c q
step env (wait_op t w) q = (wait env t w q).1
step env (drop_op id) q = remove_waiting env id q

unfoldable pub run : List (Env × Op) → QueueState → QueueState
unfolding step
run [] q = q
run ((env, op) ∷ ops) q = run ops (step env op q)
