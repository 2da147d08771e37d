-- ===== src/State/Permitted.antt =====
-- The permissions to comment, and the log, leave the pins as they are.
use friendzone.Prelude.{
  inl, inr, String, Bool, true, false, not, ◌||◌, any, leb, length, ◌==◌, nat_eq, string_eq,
  Option-cases, Bool-cases,
}
use Prim.Native.String.{◌++◌ as str_append}
use friendzone.Prelude.Map.{lookup}
use friendzone.Prelude.Result.{Result, Result-cases, ok, err}
use friendzone.Github.{Uuid, CommentContext, Target}
use friendzone.Github.Checks.{validate_target}
use friendzone.State.{
  Containers, StateError, AppState, Env, Verdict, container_removed, authorization_changed,
  too_many_permissions, unknown_container, contains, permission_removed, touch_container, notify,
}
use friendzone.State.Log.{record_activity}
use friendzone.State.Policy.{Killed, update_policy}
use friendzone.State.Permissions.{
  grant_update, revoke_update, log_permission, reviewed_target, add_comment_permission,
  grant_reviewed_comment, revoke_comment_permission,
}
use friendzone.State.Pins.{
  IsUniquelyPinned, IsKept, insert-IsUniquelyPinned, own-IsFree, or_default-IsFree, ok-IsKept,
  err-IsKept,
}
use friendzone.State.Published.{update_policy-IsUniquelyPinned}

grant_update-IsKept :
    (env : Env) (name : String) (c : CommentContext) (target : Target) (m : Containers)
    (killed : Killed)
    → IsUniquelyPinned m
    → IsKept (grant_update env name c target m killed)
unfolding grant_update
grant_update-IsKept env name c target m killed u = elim (Option-cases (lookup name m)) [
  | inl n ↦ rw (n, grant_update) (err-IsKept container_removed)
  | inr (r, e) ↦
      elim (Bool-cases (
        not r.approved
        || contains name killed
        || not (r.policy_epoch == c.epoch)
        || not (r.comment_revision == c.revision))) [
          | inl y ↦ rw (e, grant_update, y) (err-IsKept authorization_changed)
          | inr a ↦ elim (Bool-cases (leb 32 (length r.comment_permissions))) [
            | inl y ↦ rw (e, grant_update, a, y) (err-IsKept too_many_permissions)
            | inr b ↦
                rw (e, grant_update, a, b)
                  (ok-IsKept _ killed
                    (insert-IsUniquelyPinned name _ m u (own-IsFree name r m u e)))
          ]
        ]
]

revoke_update-IsKept :
    (env : Env) (name : String) (id : Uuid) (m : Containers) (killed : Killed)
    → IsUniquelyPinned m
    → IsKept (revoke_update env name id m killed)
unfolding revoke_update
revoke_update-IsKept env name id m killed u = elim (Option-cases (lookup name m)) [
  | inl n ↦ rw (n, revoke_update) (err-IsKept unknown_container)
  | inr (r, e) ↦ elim (Bool-cases (any (λ g. g.id == id) r.comment_permissions)) [
    | inr a ↦ rw (e, revoke_update, a) (err-IsKept permission_removed)
    | inl a ↦
        rw (e, revoke_update, a)
          (ok-IsKept _ killed (insert-IsUniquelyPinned name _ m u (own-IsFree name r m u e)))
  ]
]

pub record_activity-IsUniquelyPinned :
    (env : Env) (name method url : String) (verdict : Verdict) (guest_traffic : Bool) (s : AppState)
    → IsUniquelyPinned s.state.containers
    → IsUniquelyPinned
        (record_activity env name method url verdict guest_traffic s).1.state.containers
unfolding record_activity notify touch_container
record_activity-IsUniquelyPinned env name method url verdict false s u = u
record_activity-IsUniquelyPinned env name method url verdict true s u =
    insert-IsUniquelyPinned name _ s.state.containers u
      (or_default-IsFree env name s.state.containers u)

log_permission-IsUniquelyPinned :
    (env : Env) (name method : String) (id : Uuid) (a : Result StateError (Unit {0}) × AppState)
    → IsUniquelyPinned a.1.state.containers
    → IsUniquelyPinned (log_permission env name method id a).1.state.containers
unfolding log_permission
log_permission-IsUniquelyPinned env name method id (err e, s) u = u
log_permission-IsUniquelyPinned env name method id (ok _, s) u =
    record_activity-IsUniquelyPinned env name method
      (str_append "friendzone:comment-permission/" (env.show_id id)) Verdict.allowed false s u

pub add_comment_permission-IsUniquelyPinned :
    (env : Env) (name : String) (c : CommentContext) (target : Target) (s : AppState)
    → IsUniquelyPinned s.state.containers
    → IsUniquelyPinned (add_comment_permission env name c target s).1.state.containers
unfolding add_comment_permission
add_comment_permission-IsUniquelyPinned env name c target s u =
    elim (Result-cases (validate_target target)) [
      | inl (e, h) ↦ rw (h, add_comment_permission) u
      | inr (a, h) ↦
          rw (h, add_comment_permission)
            (log_permission-IsUniquelyPinned env name "GRANT" env.grant_id
              (update_policy env (grant_update env name c target) s)
              (update_policy-IsUniquelyPinned env (grant_update env name c target) s u
                (grant_update-IsKept env name c target _ _ u)))
    ]

pub grant_reviewed_comment-IsUniquelyPinned :
    (env : Env) (id : Uuid) (fingerprint : String) (resolution_id : Uuid) (target : Target)
    (s : AppState)
    → IsUniquelyPinned s.state.containers
    → IsUniquelyPinned
        (grant_reviewed_comment env id fingerprint resolution_id target s).1.state.containers
unfolding grant_reviewed_comment
grant_reviewed_comment-IsUniquelyPinned env id fingerprint resolution_id target s u =
    elim (Result-cases (reviewed_target env id fingerprint resolution_id target s)) [
      | inl (e, h) ↦ rw (h, grant_reviewed_comment) u
      | inr ((name, c), h) ↦
          rw (h, grant_reviewed_comment)
            (add_comment_permission-IsUniquelyPinned env name c target s u)
    ]

pub revoke_comment_permission-IsUniquelyPinned :
    (env : Env) (name : String) (id : Uuid) (s : AppState)
    → IsUniquelyPinned s.state.containers
    → IsUniquelyPinned (revoke_comment_permission env name id s).1.state.containers
unfolding revoke_comment_permission
revoke_comment_permission-IsUniquelyPinned env name id s u =
    log_permission-IsUniquelyPinned env name "REVOKE" id
      (update_policy env (revoke_update env name id) s)
      (update_policy-IsUniquelyPinned env (revoke_update env name id) s u
        (revoke_update-IsKept env name id _ _ u))
