-- ===== src/State/Grants.antt =====
-- A permission to comment that was revoked from a container.
use friendzone.Prelude.{
  ◌≡◌, refl, sym, ap, ◌∙◌, ◌⊎◌, inl, inr, Bool, true, false, not, some, List, [], ◌∷◌, String,
  arith, any, filter, ◌==◌, nat_eq, nat_beq_iff, string_eq, eq_self, Option-cases, Bool-cases,
}
use mathlib.Core.Option
use friendzone.Prelude.Map.{lookup, insert, lookup-insert}
use friendzone.Prelude.Result.{Result, ok, err}
use friendzone.Github.{Uuid, IpAddr, Grant, Target, grant_beq}
use Prim.Native.String.{◌++◌ as str_append}
use friendzone.State.Log.{record_activity}
use friendzone.State.{
  Verdict, notify, touch_container, AppState, ContainerRecord, Containers, Env, StateError,
  unknown_container, permission_removed,
}
use friendzone.State.Policy.{Update, Killed, update_policy, publish}
use friendzone.State.Permissions.{
  is_comment_admitted, revoke_update, revoke_comment_permission, log_permission,
}
use friendzone.State.Epochs.{renewed, finds, lookup-invalidate, update_policy-ok}

no_grant :
    (grant : Grant) (id : Uuid) (grants : List Grant)
    → grant.id ≡ id
    → any (λ g. grant_beq g grant) (filter (λ g. not (g.id == id)) grants) ≡ false
unfolding grant_beq
no_grant grant id [] e = refl
no_grant grant id (g ∷ gs) e =
    ground (arith, nat_beq_iff g.id grant.id, nat_beq_iff g.id id, no_grant grant id gs e)

-- A container without the grant admits no comment under it.
lookup-rejects :
    (container : String) (peer : IpAddr) (epoch : Uuid) (grant : Grant) (target : Target)
    (s : AppState) {r : ContainerRecord}
    → lookup container s.state.containers ≡ some r
    → any (λ g. grant_beq g grant) r.comment_permissions ≡ false
    → is_comment_admitted container peer epoch grant target s ≡ false
unfolding is_comment_admitted
lookup-rejects container peer epoch grant target s {r} l n = ground arith

-- The grants of a container after a revocation.
abbrev revoked : Env → Uuid → ContainerRecord → ContainerRecord
revoked env id r = record r {
  comment_permissions = filter (λ g. not (g.id == id)) r.comment_permissions;
  comment_revision = env.revision;
}

revoke_update-cases :
    (env : Env) (container : String) (id : Uuid) (m : Containers) (killed : Killed)
    → ((e : StateError) × (revoke_update env container id m killed ≡ err e))
      ⊎ ((r : ContainerRecord) × (revoke_update env container id m killed
            ≡ ok (insert container (revoked env id r) m, killed)))
unfolding revoke_update
revoke_update-cases env container id m killed = elim (Option-cases (lookup container m)) [
  | inl n ↦ rw (n, revoke_update) (inl (unknown_container, refl))
  | inr (r, e) ↦ elim (Bool-cases (any (λ g. g.id == id) r.comment_permissions)) [
    | inl y ↦ rw (e, revoke_update, y) (inr (r, refl))
    | inr n ↦ rw (e, revoke_update, n) (inl (permission_removed, refl))
  ]
]

renewed-no_grant :
    (env : Env) (container : String) (b : Bool) (id : Uuid) (r : ContainerRecord) (grant : Grant)
    → grant.id ≡ id
    → any (λ g. grant_beq g grant) (renewed env container b (revoked env id r)).comment_permissions
      ≡ false
renewed-no_grant env container true id r grant e = no_grant grant id r.comment_permissions e
renewed-no_grant env container false id r grant e = no_grant grant id r.comment_permissions e

update_policy-fails :
    (env : Env) (update : Update) (s : AppState) (e : StateError)
    → update s.state.containers s.state.killed ≡ err e
    → (update_policy env update s).0 ≡ err e
unfolding update_policy
update_policy-fails env update s e q = rw (q, update_policy) refl

update_policy-revoked :
    (env : Env) (container : String) (id : Uuid) (s : AppState) (grant : Grant)
    → grant.id ≡ id
    → (update_policy env (revoke_update env container id) s).0 ≡ ok tt
    → (r : ContainerRecord) × (lookup container
          (update_policy env (revoke_update env container id) s).1.state.containers
        ≡ some r)
      × (any (λ g. grant_beq g grant) r.comment_permissions ≡ false)
unfolding publish
update_policy-revoked env container id s grant g o =
    elim (revoke_update-cases env container id s.state.containers s.state.killed) [
      | inl (e, q) ↦
          let c : err e ≡ ok tt =
            sym (update_policy-fails env (revoke_update env container id) s e q) ∙ o in
          cc
      | inr (r, q) ↦
          let m = insert container (revoked env id r) s.state.containers in
          let (path, p) =
            update_policy-ok env (revoke_update env container id) s {m = m}
              {killed = s.state.killed} q o in
          let b = any (finds s.state.killed s.state.killed m container) s.state.containers in
          let l : lookup container m ≡ some (revoked env id r) = ground (
            arith,
            eq_self container,
            lookup-insert container container (revoked env id r) s.state.containers,
          ) in
          (
            renewed env container b (revoked env id r),
            ap (λ (a : AppState). lookup container a.state.containers) p
                ∙ lookup-invalidate env s.state.killed s.state.killed container s.state.containers m
                    s.reviews
                ∙ ap (Option.map (renewed env container b)) l,
            renewed-no_grant env container b id r grant g,
          )
    ]

-- After a revocation that succeeds, the container that it was revoked from is admitted to no comment
-- under a permission with that id, whatever address, epoch and target it asks with.
pub revoke_comment_permission-rejects :
    (env : Env) (container : String) (id : Uuid) (peer : IpAddr) (epoch : Uuid) (grant : Grant)
    (target : Target) (s : AppState)
    → grant.id ≡ id
    → (revoke_comment_permission env container id s).0 ≡ ok tt
    → is_comment_admitted container peer epoch grant target
        (revoke_comment_permission env container id s).1
      ≡ false
unfolding revoke_comment_permission log_permission record_activity notify touch_container
revoke_comment_permission-rejects env container id peer epoch grant target s g o =
    go (update_policy env (revoke_update env container id) s).0 refl
  where
    u : AppState
    u = (update_policy env (revoke_update env container id) s).1

    go :
        (x : Result StateError (Unit {0}))
        → (update_policy env (revoke_update env container id) s).0 ≡ x
        → is_comment_admitted container peer epoch grant target
            (revoke_comment_permission env container id s).1
          ≡ false
    go (err e) h =
        let k : (revoke_comment_permission env container id s).0 ≡ err e =
          rw (h, revoke_comment_permission, log_permission) refl in
        let c : err e ≡ ok tt = sym k ∙ o in cc
    go (ok tt) h =
        let (r, l, n) = update_policy-revoked env container id s grant g h in
        rw (h, revoke_comment_permission, log_permission)
          (lookup-rejects container peer epoch grant target
            (record_activity env container "REVOKE"
              (str_append "friendzone:comment-permission/" (env.show_id id)) Verdict.allowed false
              u).1
            {r = r} l n)
