-- ===== src/State/Steps.antt =====
-- What the host and the guests may do to the registry, as steps: every method of `AppState` that
-- writes the containers, which are the policy writers, those of the permissions to comment among
-- them, the gates that note where a guest connects from, and the log, which notes its traffic.
use friendzone.Prelude.{String, Bool, Option, List, [], ◌∷◌}
use friendzone.Github.{IpAddr, Uuid, CommentContext, Target}
use friendzone.Policy.{ClineAccess}
use friendzone.State.{AppState, Env, Verdict}
use friendzone.State.Log.{record_activity}
use friendzone.State.Permissions.{
  add_comment_permission, grant_reviewed_comment, revoke_comment_permission,
}
use friendzone.State.Registry.{
  add_container, approve_container, set_pinned_ip, remove_container, reset_containers,
  set_cline_access, set_killed,
}
use friendzone.State.Gate.{authorize, announce_guest, authorize_proxy_peer, persist_guest_identity}

pub data Operation : Type 0 where
  add : String → Option IpAddr → Operation
  approve : String → Bool → Operation
  pin : String → Option IpAddr → Operation
  remove : String → Operation
  reset : Operation
  give_access : String → ClineAccess → Operation
  kill : String → Bool → Operation
  persist : Operation
  connect : String → IpAddr → Operation
  announce : String → IpAddr → Operation
  identify : IpAddr → Option String → Operation
  log : String → String → String → Verdict → Bool → Operation
  permit : String → CommentContext → Target → Operation
  permit_reviewed : Uuid → String → Uuid → Target → Operation
  revoke : String → Uuid → Operation

unfoldable pub step : Env → Operation → AppState → AppState
unfolding add_container approve_container set_pinned_ip remove_container reset_containers
    set_cline_access set_killed persist_guest_identity authorize announce_guest authorize_proxy_peer
    record_activity add_comment_permission grant_reviewed_comment revoke_comment_permission
step env (add name ip) s = (add_container env name ip s).1
step env (approve name pin_to_last_ip) s = (approve_container env name pin_to_last_ip s).1
step env (pin name ip) s = (set_pinned_ip env name ip s).1
step env (remove name) s = (remove_container env name s).1
step env reset s = (reset_containers env s).1
step env (give_access name access) s = (set_cline_access env name access s).1
step env (kill name killed) s = (set_killed env name killed s).1
step env persist s = (persist_guest_identity env s).1
step env (connect name peer) s = (authorize env name peer s).1
step env (announce name peer) s = (announce_guest env name peer s).1
step env (identify peer presented) s = (authorize_proxy_peer env peer presented s).1
step env (log name method url verdict guest_traffic) s =
    (record_activity env name method url verdict guest_traffic s).1
step env (permit name c target) s = (add_comment_permission env name c target s).1
step env (permit_reviewed id fingerprint resolution_id target) s =
    (grant_reviewed_comment env id fingerprint resolution_id target s).1
step env (revoke name id) s = (revoke_comment_permission env name id s).1

-- The operations in the order in which the lock lets them in.
unfoldable pub run : List (Env × Operation) → AppState → AppState
unfolding step
run [] s = s
run ((env, op) ∷ ops) s = run ops (step env op s)
