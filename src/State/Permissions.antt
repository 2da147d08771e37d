-- ===== src/State/Permissions.antt =====
-- Saved comment permissions: `AppState`'s grants, revocations, and the admission under a grant.
use friendzone.Prelude.{
  String, Bool, true, false, not, ◌&&◌, ◌||◌, Option, none, some, List, [], ◌∷◌, ◌++◌, filter, any,
  length, leb, ◌==◌, string_eq, option_eq, nat_eq, is_none_or, is_some_and, if◌then◌else◌,
}
use friendzone.Prelude.Map.{lookup, insert}
use Prim.Native.String.{◌++◌ as str_append}
use friendzone.Prelude.Text.{text_eq, string_of, decimal}
use friendzone.Prelude.Result.{Result, ok, err, ◌>>=◌, ◌>>◌, bail_if, context}
use friendzone.Github.{
  Uuid, IpAddr, Grant, Target, Binding, CommentContext, binding_beq, grant_beq, same_identity,
}
use friendzone.Github.Checks.{validate_target}
use friendzone.Review.Queue
use friendzone.State.{
  Verdict, AppState, Env, StateError, container_removed, authorization_changed,
  too_many_permissions, unknown_container, permission_removed, request_not_waiting, review_changed,
  no_comment_command, bad_grant, contains, pin_allows,
}
use friendzone.State.Policy.{Update, update_policy}
use friendzone.State.Log.{record_activity, update_event}

-- The same subject under the same credential: the grant that a new one replaces.
unfoldable pub is_same_grant : Target → Binding → Grant → Bool
is_same_grant target binding g = g.target.node_id == target.node_id && binding_beq g.binding binding

unfoldable pub grant_update : Env → String → CommentContext → Target → Update
unfolding is_same_grant contains
grant_update env container c target containers killed = do
  r ← context (lookup container containers) container_removed
  bail_if
      (not r.approved
        || contains container killed
        || not (r.policy_epoch == c.epoch)
        || not (r.comment_revision == c.revision))
      authorization_changed
  bail_if (leb 32 (length r.comment_permissions)) too_many_permissions
  ok (
    insert container
        (record r {
          comment_permissions =
              filter (λ g. not (is_same_grant target c.binding g)) r.comment_permissions
              ++ record {
                id = env.grant_id;
                target = target;
                binding = c.binding;
                created_at = env.now;
              }
                ∷ [];
          comment_revision = env.revision;
          managed = true;
        })
        containers,
    killed,
  )

-- The event of the log that follows a change of permissions: `format!("…/{id}")` is its URL.
unfoldable pub log_permission :
    Env
    → String
    → String
    → Uuid
    → Result StateError (Unit {0}) × AppState
    → Result StateError Uuid × AppState
unfolding record_activity
log_permission env container method id (err e, s) = (err e, s)
log_permission env container method id (ok _, s) = (
  ok id,
  (record_activity env container method
      (str_append "friendzone:comment-permission/" (env.show_id id)) Verdict.allowed false s).1,
)

unfoldable pub add_comment_permission :
    Env → String → CommentContext → Target → AppState → Result StateError Uuid × AppState
unfolding grant_update update_policy log_permission
add_comment_permission env container c target s = elim (validate_target target) [
  | err e ↦ (err (bad_grant e), s)
  | ok _ ↦
      log_permission env container "GRANT" env.grant_id
        (update_policy env (grant_update env container c target) s)
]

unfoldable pub reviewed_target :
    Env → Uuid → String → Uuid → Target → AppState → Result StateError (String × CommentContext)
reviewed_target env id fingerprint resolution_id target s = do
  d ← context (Queue.detail_of env.review id s.reviews) request_not_waiting
  bail_if
      (not (d.summary.fingerprint == fingerprint)
        || not (d.resolution_id == some resolution_id)
        || not (is_some_and d.resolved_target (λ r. same_identity r.target target)))
      review_changed
  c ← context d.comment_context no_comment_command
  ok (d.summary.container, c)

unfoldable pub grant_reviewed_comment :
    Env → Uuid → String → Uuid → Target → AppState → Result StateError Uuid × AppState
unfolding reviewed_target add_comment_permission
grant_reviewed_comment env id fingerprint resolution_id target s =
    elim (reviewed_target env id fingerprint resolution_id target s) [
      | err e ↦ (err e, s)
      | ok (container, c) ↦ add_comment_permission env container c target s
    ]

unfoldable pub revoke_update : Env → String → Uuid → Update
revoke_update env container id containers killed = do
  r ← context (lookup container containers) unknown_container
  bail_if (not (any (λ g. g.id == id) r.comment_permissions)) permission_removed
  ok (
    insert container
        (record r {
          comment_permissions = filter (λ g. not (g.id == id)) r.comment_permissions;
          comment_revision = env.revision;
        })
        containers,
    killed,
  )

unfoldable pub revoke_comment_permission :
    Env → String → Uuid → AppState → Result StateError (Unit {0}) × AppState
unfolding revoke_update update_policy log_permission
revoke_comment_permission env container id s =
    let (r, s') =
      log_permission env container "REVOKE" id
        (update_policy env (revoke_update env container id) s) in
    (elim r [ ok _ ↦ ok tt | err e ↦ err e ], s')

unfoldable pub comment_permissions : String → Binding → AppState → List Grant
comment_permissions container binding s = elim (lookup container s.state.containers) [
  | none ↦ []
  | some r ↦ filter (λ g. binding_beq g.binding binding) r.comment_permissions
]

unfoldable pub comment_revision : String → AppState → Option Uuid
comment_revision container s = elim (lookup container s.state.containers) [
  | none ↦ none
  | some r ↦ some r.comment_revision
]

unfoldable pub is_comment_admitted : String → IpAddr → Uuid → Grant → Target → AppState → Bool
unfolding contains pin_allows
is_comment_admitted container peer epoch grant target s = not (
    contains container s.state.killed
    || is_none_or (lookup container s.state.containers) (λ r.
      not r.approved
      || not (r.policy_epoch == epoch)
      || not (pin_allows r.pinned_ip peer)
      || not (any (λ g. grant_beq g grant) r.comment_permissions))
    || not (same_identity grant.target target))

-- `format!("comment permission {}: {} #{}; broker-reconstructed addComment", …)`
unfoldable pub comment_detail : Env → Grant → Target → String
unfolding string_of decimal
comment_detail env grant target = str_append "comment permission " (
    str_append (env.show_id grant.id) (
      str_append ": " (
        str_append (string_of target.repository) (
          str_append " #"
            (str_append (string_of (decimal target.number)) "; broker-reconstructed addComment")))))

unfoldable pub admit_comment :
    Env → Uuid → String → IpAddr → Uuid → Grant → Target → AppState → Bool × AppState
unfolding is_comment_admitted update_event comment_detail
admit_comment env event container peer epoch grant target s =
    if is_comment_admitted container peer epoch grant target s
    then (
      true,
      update_event event
          (λ e. record e {
            verdict = Verdict.allowed;
            detail = some (comment_detail env grant target);
          })
          s,
    )
    else (false, s)
