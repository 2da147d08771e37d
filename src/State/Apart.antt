-- ===== src/State/Apart.antt =====
-- The pins of the registry stay apart in every run.
use friendzone.Prelude.{◌≡◌, refl, String, Bool, Option, List, [], ◌∷◌, string_eq}
use friendzone.Prelude.Map.{lookup}
use friendzone.Prelude.Result.{Result, ok, err}
use friendzone.Github.{IpAddr}
use friendzone.State.{StateError, Authorization, AppState, Env, touch_container, notify}
use friendzone.State.Registry.{
  add_container, approve_container, set_pinned_ip, remove_container, reset_containers,
  set_cline_access, set_killed, reset_update, add_update, approve_update, pin_update, remove_update,
  access_update, kill_update,
}
use friendzone.State.Gate.{
  touch, authorize, announce_guest, authorize_proxy_peer, persist_guest_identity, announced_name,
  names_where, is_pinned_to, peer_name, peer_verdict, touched,
}
use friendzone.State.Pins.{
  IsUniquelyPinned, insert-IsUniquelyPinned, or_default-IsFree, IsKept, ok-IsKept,
  add_update-IsKept, approve_update-IsKept, pin_update-IsKept, remove_update-IsKept,
  access_update-IsKept, kill_update-IsKept,
}
use friendzone.State.Steps.{
  Operation, add, approve, pin, remove, reset, give_access, kill, persist, connect, announce,
  identify, log, permit, permit_reviewed, revoke, step, run,
}
use friendzone.State.Published.{update_policy-IsUniquelyPinned}
use friendzone.State.Permitted.{
  record_activity-IsUniquelyPinned, add_comment_permission-IsUniquelyPinned,
  grant_reviewed_comment-IsUniquelyPinned, revoke_comment_permission-IsUniquelyPinned,
}

touch-IsUniquelyPinned :
    (env : Env) (name : String) (peer : IpAddr) (s : AppState)
    → IsUniquelyPinned s.state.containers
    → IsUniquelyPinned (touch env name peer s).state.containers
unfolding touch touch_container
touch-IsUniquelyPinned env name peer s u =
    insert-IsUniquelyPinned name _ s.state.containers u
      (or_default-IsFree env name s.state.containers u)

announce_guest-IsUniquelyPinned :
    (env : Env) (name : String) (peer : IpAddr) (s : AppState)
    → IsUniquelyPinned s.state.containers
    → IsUniquelyPinned (announce_guest env name peer s).1.state.containers
unfolding announce_guest notify
announce_guest-IsUniquelyPinned env name peer s u =
    go (announced_name name (names_where (is_pinned_to peer) s.state.containers)) refl
  where
    go :
        (o : Result StateError (String × Bool))
        → announced_name name (names_where (is_pinned_to peer) s.state.containers) ≡ o
        → IsUniquelyPinned (announce_guest env name peer s).1.state.containers
    go (err e) h = rw (h, announce_guest) u
    go (ok (n, p)) h = rw (h, announce_guest) (touch-IsUniquelyPinned env n peer s u)

authorize_proxy_peer-IsUniquelyPinned :
    (env : Env) (peer : IpAddr) (presented : Option String) (s : AppState)
    → IsUniquelyPinned s.state.containers
    → IsUniquelyPinned (authorize_proxy_peer env peer presented s).1.state.containers
unfolding authorize_proxy_peer notify
authorize_proxy_peer-IsUniquelyPinned env peer presented s u =
    go (peer_name peer presented s.state.containers) refl
  where
    go :
        (o : Result StateError String)
        → peer_name peer presented s.state.containers ≡ o
        → IsUniquelyPinned (authorize_proxy_peer env peer presented s).1.state.containers
    go (err e) h = rw (h, authorize_proxy_peer) u
    go (ok n) h = judge (peer_verdict peer presented (touched env n (touch env n peer s))) refl
      where
        judge :
            (v : Result StateError Authorization)
            → peer_verdict peer presented (touched env n (touch env n peer s)) ≡ v
            → IsUniquelyPinned (authorize_proxy_peer env peer presented s).1.state.containers
        judge (err e) k = rw (h, authorize_proxy_peer, k) (touch-IsUniquelyPinned env n peer s u)
        judge (ok v) k = rw (h, authorize_proxy_peer, k) (touch-IsUniquelyPinned env n peer s u)

pub empty-IsUniquelyPinned : IsUniquelyPinned []
unfolding IsUniquelyPinned lookup
empty-IsUniquelyPinned a b r q ip e eb pa pb = cc

-- Every step of the host or of a guest keeps the pins apart.
pub step-IsUniquelyPinned :
    (env : Env) (op : Operation) (s : AppState)
    → IsUniquelyPinned s.state.containers
    → IsUniquelyPinned (step env op s).state.containers
unfolding step IsKept
step-IsUniquelyPinned env (add name ip) s u =
    unfold add_container in
    update_policy-IsUniquelyPinned env (add_update env name ip) s u
      (add_update-IsKept env name ip _ _ u)
step-IsUniquelyPinned env (approve name b) s u =
    unfold approve_container in
    update_policy-IsUniquelyPinned env (approve_update name b) s u
      (approve_update-IsKept name b _ _ u)
step-IsUniquelyPinned env (pin name ip) s u =
    unfold set_pinned_ip in
    update_policy-IsUniquelyPinned env (pin_update name ip) s u (pin_update-IsKept name ip _ _ u)
step-IsUniquelyPinned env (remove name) s u =
    unfold remove_container in
    update_policy-IsUniquelyPinned env (remove_update name) s u (remove_update-IsKept name _ _ u)
step-IsUniquelyPinned env reset s u =
    unfold reset_containers in
    update_policy-IsUniquelyPinned env reset_update s u (ok-IsKept [] [] empty-IsUniquelyPinned)
step-IsUniquelyPinned env (give_access name access) s u =
    unfold set_cline_access in
    update_policy-IsUniquelyPinned env (access_update name access) s u
      (access_update-IsKept name access _ _ u)
step-IsUniquelyPinned env (kill name b) s u =
    unfold set_killed in
    update_policy-IsUniquelyPinned env (kill_update env name b) s u
      (kill_update-IsKept env name b _ _ u)
step-IsUniquelyPinned env persist s u =
    unfold persist_guest_identity in
    update_policy-IsUniquelyPinned env (λ m killed. ok (m, killed)) s u
      (ok-IsKept s.state.containers s.state.killed u)
step-IsUniquelyPinned env (connect name peer) s u =
    unfold authorize in unfold notify in touch-IsUniquelyPinned env name peer s u
step-IsUniquelyPinned env (announce name peer) s u =
    announce_guest-IsUniquelyPinned env name peer s u
step-IsUniquelyPinned env (identify peer presented) s u =
    authorize_proxy_peer-IsUniquelyPinned env peer presented s u
step-IsUniquelyPinned env (log name method url verdict guest_traffic) s u =
    record_activity-IsUniquelyPinned env name method url verdict guest_traffic s u
step-IsUniquelyPinned env (permit name c target) s u =
    add_comment_permission-IsUniquelyPinned env name c target s u
step-IsUniquelyPinned env (permit_reviewed id fingerprint resolution_id target) s u =
    grant_reviewed_comment-IsUniquelyPinned env id fingerprint resolution_id target s u
step-IsUniquelyPinned env (revoke name id) s u =
    revoke_comment_permission-IsUniquelyPinned env name id s u

-- In every run of the operations that write the containers (the policy writers, the permissions to
-- comment, the gates and the log), whatever they are and however the file operations end, no two
-- containers are ever pinned to one address, if none were at its start.
pub run-IsUniquelyPinned :
    (ops : List (Env × Operation)) (s : AppState)
    → IsUniquelyPinned s.state.containers
    → IsUniquelyPinned (run ops s).state.containers
unfolding run
run-IsUniquelyPinned [] s u = u
run-IsUniquelyPinned ((env, op) ∷ ops) s u =
    run-IsUniquelyPinned ops (step env op s) (step-IsUniquelyPinned env op s u)
