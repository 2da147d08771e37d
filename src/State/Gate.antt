-- ===== src/State/Gate.antt =====
-- The gates of `AppState`: who a connection is, and what may be admitted.
use friendzone.Prelude.{
  String, Bool, true, false, not, ◌&&◌, ◌||◌, Option, none, some, List, [], ◌∷◌, map, filter, ◌==◌,
  string_eq, option_eq, nat_eq, is_none, is_none_or, is_some_and, if◌then◌else◌,
}
use friendzone.Prelude.Map.{lookup}
use friendzone.Prelude.Result.{Result, ok, err}
use friendzone.Github
use friendzone.Github.{Uuid, IpAddr}
use friendzone.Policy.{allows_all}
use friendzone.Review
use friendzone.Review.Queue
use friendzone.Review.Queue.{Ticket}
use friendzone.State.{
  Verdict, Authorization, ContainerRecord, Containers, AppState, Env, StateError, many_pinned,
  not_owner, no_pin, many_pending, no_explicit_pin, notify, touch_container, contains, pin_allows,
  or_default,
}
use friendzone.State.Policy.{update_policy}
use friendzone.State.Log.{update_event}

-- The names of the containers that pass a test.
unfoldable pub names_where : (ContainerRecord → Bool) → Containers → List String
names_where p m = map (λ e. e.0) (filter (λ e. p (e.1)) m)

unfoldable pub is_pinned_to : IpAddr → ContainerRecord → Bool
is_pinned_to peer r = r.pinned_ip == some peer

unfoldable pub is_pending_at : IpAddr → ContainerRecord → Bool
is_pending_at peer r = not r.approved && r.last_ip == some peer

-- The verdict on a record, by its approval and its pin.
unfoldable pub authorization : ContainerRecord → IpAddr → Authorization
unfolding pin_allows
authorization r peer =
    if not r.approved
    then Authorization.pending
    else if not (pin_allows r.pinned_ip peer)
    then Authorization.ip_mismatch
    else Authorization.allowed

-- `containers.get(name).expect("just touched")`: the touched record always is there.
unfoldable pub touched : Env → String → AppState → ContainerRecord
unfolding or_default
touched env name s = or_default env name s.state.containers

unfoldable pub touch : Env → String → IpAddr → AppState → AppState
unfolding touch_container
touch env name peer s = record s { state = touch_container env name (some peer) s.state }

unfoldable pub authorize : Env → String → IpAddr → AppState → Authorization × AppState
unfolding touch touched authorization notify
authorize env container peer s =
    let s' = touch env container peer s in
    (authorization (touched env container s') peer, notify s')

-- The name under which a guest announces itself, and whether a pin says so.
unfoldable pub announced_name : String → List String → Result StateError (String × Bool)
announced_name requested [] = ok (requested, false)
announced_name requested (owner ∷ []) = ok (owner, true)
announced_name requested (_ ∷ _ ∷ _) = err many_pinned

unfoldable pub announce_guest :
    Env → String → IpAddr → AppState → Result StateError (String × Authorization × Bool) × AppState
unfolding names_where is_pinned_to announced_name touch touched authorization notify
announce_guest env requested peer s =
    elim (announced_name requested (names_where (is_pinned_to peer) s.state.containers)) [
      | err e ↦ (err e, s)
      | ok (name, pinned) ↦
          let s' = touch env name peer s in
          (ok (name, authorization (touched env name s') peer, pinned), notify s')
    ]

unfoldable pub sole_pending : List String → Result StateError String
sole_pending [] = err no_pin
sole_pending (candidate ∷ []) = ok candidate
sole_pending (_ ∷ _ ∷ _) = err many_pending

-- The owner of a presented name: an address that is pinned must be pinned to it.
unfoldable pub presented_name : String → List String → Result StateError String
presented_name name [] = ok name
presented_name name (owner ∷ []) = if owner == name then ok name else err not_owner
presented_name name (_ ∷ _ ∷ _) = err many_pinned

unfoldable pub unpresented_name : List String → List String → Result StateError String
unfolding sole_pending
unpresented_name [] pending = sole_pending pending
unpresented_name (owner ∷ []) pending = ok owner
unpresented_name (_ ∷ _ ∷ _) pending = err many_pinned

unfoldable pub peer_name : IpAddr → Option String → Containers → Result StateError String
unfolding presented_name unpresented_name names_where is_pinned_to is_pending_at
peer_name peer none m =
    unpresented_name (names_where (is_pinned_to peer) m) (names_where (is_pending_at peer) m)
peer_name peer (some name) m = presented_name name (names_where (is_pinned_to peer) m)

-- The verdict; an early return leaves the touched state and notifies nobody.
unfoldable pub peer_verdict :
    IpAddr → Option String → ContainerRecord → Result StateError Authorization
unfolding pin_allows is_pinned_to
peer_verdict peer presented r =
    if not r.approved
    then ok Authorization.pending
    else if not (pin_allows r.pinned_ip peer)
    then ok Authorization.ip_mismatch
    else if is_none presented && not (is_pinned_to peer r)
    then err no_explicit_pin
    else ok Authorization.allowed

unfoldable pub authorize_proxy_peer :
    Env → IpAddr → Option String → AppState → Result StateError (String × Authorization) × AppState
unfolding peer_name peer_verdict touch touched notify
authorize_proxy_peer env peer presented s = elim (peer_name peer presented s.state.containers) [
  | err e ↦ (err e, s)
  | ok name ↦
      let s' = touch env name peer s in
      elim (peer_verdict peer presented (touched env name s')) [
        | err e ↦ (err e, s')
        | ok verdict ↦ (ok (name, verdict), notify s')
      ]
]

-- The shared test: approved, not killed, at the right address.
unfoldable pub is_authorized : String → IpAddr → AppState → ContainerRecord → Bool
unfolding pin_allows contains
is_authorized container peer s r =
    r.approved && not (contains container s.state.killed) && pin_allows r.pinned_ip peer

unfoldable pub is_admitted : String → IpAddr → Uuid → AppState → Bool
unfolding pin_allows contains
is_admitted container peer epoch s = not (
    contains container s.state.killed
    || is_none_or (lookup container s.state.containers)
        (λ r. not r.approved || not (r.policy_epoch == epoch) || not (pin_allows r.pinned_ip peer)))

unfoldable pub admit_request : Uuid → String → IpAddr → Uuid → String → AppState → Bool × AppState
unfolding is_admitted update_event
admit_request id container peer epoch reason s =
    if is_admitted container peer epoch s
    then (
      true,
      update_event id (λ e. record e { verdict = Verdict.allowed; detail = some reason }) s,
    )
    else (false, s)

unfoldable pub is_github : Github.Destination → Bool
is_github Github.github = true
is_github Github.linear = false

unfoldable pub auto_approves_upload : AppState → Review.Detail → Bool
unfolding is_github
auto_approves_upload s d =
    allows_all s.github_policy && is_some_and d.file_upload (λ upload. is_github upload.destination)

unfoldable pub admit_review : Env → Uuid → String → IpAddr → Uuid → AppState → Bool × AppState
unfolding admit_request auto_approves_upload
admit_review env id container peer epoch s =
    let auto = is_some_and (Queue.inspect id s.reviews) (auto_approves_upload s) in
    let (admitted, s') =
      admit_request id container peer epoch
        (if auto
          then "GitHub allow-all policy; forwarding request"
          else "approved once by host; forwarding original request")
        s in
    if admitted
    then (
      true,
      record s' {
        reviews =
            Queue.observe env.review id Review.Status.sending none
              (if auto
                then "GitHub allow-all policy. Waiting for upstream response."
                else "Approved once. Waiting for upstream response.")
              s'.reviews;
      },
    )
    else (false, s')

unfoldable pub admit_graphql_read : Uuid → String → IpAddr → Uuid → AppState → Bool × AppState
unfolding admit_request
admit_graphql_read id container peer epoch =
    admit_request id container peer epoch "read-only GitHub GraphQL query; automatically allowed"

unfoldable pub admit_lfs_download : Uuid → String → IpAddr → Uuid → AppState → Bool × AppState
unfolding admit_request
admit_lfs_download id container peer epoch =
    admit_request id container peer epoch "Git LFS download batch; automatically allowed"

unfoldable pub review_epoch : String → IpAddr → AppState → Option Uuid
unfolding is_authorized
review_epoch container peer s = elim (lookup container s.state.containers) [
  | none ↦ none
  | some r ↦ if is_authorized container peer s r then some r.policy_epoch else none
]

unfoldable pub persist_guest_identity : Env → AppState → Result StateError (Unit {0}) × AppState
unfolding update_policy
persist_guest_identity env = update_policy env (λ containers killed. ok (containers, killed))

unfoldable pub async_identity : String → IpAddr → AppState → Option (Uuid × Uuid)
unfolding is_authorized
async_identity container peer s = elim (lookup container s.state.containers) [
  | none ↦ none
  | some r ↦ if is_authorized container peer s r then some (r.instance_id, r.policy_epoch) else none
]

-- `with_async_identity`: whether the action runs; it returns the default where it does not.
unfoldable pub holds_identity : String → IpAddr → Uuid → Uuid → AppState → Bool
unfolding pin_allows contains
holds_identity container peer instance_id epoch s = not (
    contains container s.state.killed
    || is_none_or (lookup container s.state.containers) (λ r.
      not r.approved
      || not (r.instance_id == instance_id)
      || not (r.policy_epoch == epoch)
      || not (pin_allows r.pinned_ip peer)))

unfoldable pub with_async_identity {ℓ} :
    {T : Type ℓ}
    → String
    → IpAddr
    → Uuid
    → Uuid
    → T
    → (AppState → Result StateError T × AppState)
    → AppState
    → Result StateError T × AppState
unfolding holds_identity
with_async_identity container peer instance_id epoch default action s =
    if holds_identity container peer instance_id epoch s then action s else (ok default, s)

pub data EnqueueError : Type 0 where
  container_removed policy_changed : EnqueueError
  queue : Review.QueueError → EnqueueError

-- What follows an upload that the allow-all policy approves.
unfoldable pub auto_approve :
    Env → Review.Detail → Ticket → AppState → Result EnqueueError Ticket × AppState
auto_approve env d ticket s =
    let (decided, reviews) =
      Queue.decide env.review d.summary.id d.summary.fingerprint Review.approve s.reviews in
    elim decided [
      | err e ↦ (err (queue e), record s { reviews = reviews })
      | ok _ ↦ (
        ok ticket,
        record s {
          reviews =
              Queue.observe env.review d.summary.id Review.Status.approved none
                "GitHub allow-all policy; checking current guest policy before sending." reviews;
        },
      )
    ]

unfoldable pub enqueue_review :
    Env → Review.Detail → IpAddr → Uuid → AppState → Result EnqueueError Ticket × AppState
unfolding auto_approve auto_approves_upload pin_allows contains
enqueue_review env d peer epoch s = elim (lookup d.summary.container s.state.containers) [
  | none ↦ (err container_removed, s)
  | some r ↦
      if not (r.policy_epoch == epoch)
        || not r.approved
        || contains d.summary.container s.state.killed
        || not (pin_allows r.pinned_ip peer)
      then (err policy_changed, s)
      else let (queued, reviews) = Queue.enqueue env.review d s.reviews in
        let s' : AppState = record s { reviews = reviews } in
        elim queued [
          | err e ↦ (err (queue e), s')
          | ok ticket ↦
              if auto_approves_upload s d then auto_approve env d ticket s' else (ok ticket, s')
        ]
]
