-- ===== src/State/Registry.antt =====
-- The policy writers of `AppState`: what the host decides about a container.
use friendzone.Prelude.{
  String, Bool, true, false, not, ◌&&◌, Option, none, some, [], any, ◌==◌, string_eq, option_eq,
  nat_eq, is_some, if◌then◌else◌,
}
use friendzone.Prelude.Map.{lookup, insert, remove, map_values}
use friendzone.Prelude.Result.{Result, ok, ◌>>=◌, ◌>>◌, bail_if, context}
use friendzone.Github.{IpAddr}
use friendzone.Policy.{ClineAccess, basic}
use friendzone.State.{
  ContainerRecord, Containers, AppState, Env, StateError, unknown_container, no_address_observed,
  pinned_to_other, or_default, contains, insert_name, remove_name,
}
use friendzone.State.Policy.{Update, update_policy}

-- A container that gives up its address to another loses its approval with it.
unfoldable pub release : String → IpAddr → String → ContainerRecord → ContainerRecord
release name ip other r =
    if not (other == name) && r.pinned_ip == some ip
    then record r { pinned_ip = none; last_ip = none; approved = false; managed = true }
    else r

unfoldable pub release_address : String → Option IpAddr → Containers → Containers
unfolding release
release_address name none containers = containers
release_address name (some ip) containers = map_values (release name ip) containers

unfoldable pub add_update : Env → String → Option IpAddr → Update
unfolding release_address or_default
add_update env name ip containers killed =
    let released = release_address name ip containers in
    let r = or_default env name released in
    ok (
      insert name
          (record r {
            approved = true;
            managed = true;
            pinned_ip = if is_some ip then ip else r.pinned_ip;
          })
          released,
      killed,
    )

unfoldable pub add_container :
    Env → String → Option IpAddr → AppState → Result StateError (Unit {0}) × AppState
unfolding add_update update_policy
add_container env name ip = update_policy env (add_update env name ip)

unfoldable pub pins_other : String → IpAddr → String × ContainerRecord → Bool
pins_other name ip (other, r) = not (other == name) && r.pinned_ip == some ip

unfoldable pub check_unique_pin : Containers → String → Option IpAddr → Result StateError (Unit {0})
unfolding pins_other
check_unique_pin containers name none = ok tt
check_unique_pin containers name (some ip) =
    bail_if (any (pins_other name ip) containers) pinned_to_other

-- The pin that an approval sets: the last address seen, if the host asks for it.
unfoldable pub approval_pin : Containers → String → Bool → Result StateError (Option IpAddr)
approval_pin containers name false = ok none
approval_pin containers name true = do
  r ← context (lookup name containers) unknown_container
  ip ← context r.last_ip no_address_observed
  ok (some ip)

unfoldable pub approve_update : String → Bool → Update
unfolding approval_pin check_unique_pin
approve_update name pin_to_last_ip containers killed = do
  pin ← approval_pin containers name pin_to_last_ip
  check_unique_pin containers name pin
  r ← context (lookup name containers) unknown_container
  ok (
    insert name
        (record r {
          pinned_ip = if is_some pin then pin else r.pinned_ip;
          approved = true;
          managed = true;
        })
        containers,
    killed,
  )

unfoldable pub approve_container :
    Env → String → Bool → AppState → Result StateError (Unit {0}) × AppState
unfolding approve_update update_policy
approve_container env name pin_to_last_ip = update_policy env (approve_update name pin_to_last_ip)

unfoldable pub pin_update : String → Option IpAddr → Update
unfolding check_unique_pin
pin_update name ip containers killed = do
  check_unique_pin containers name ip
  r ← context (lookup name containers) unknown_container
  ok (insert name (record r { pinned_ip = ip; managed = true }) containers, killed)

unfoldable pub set_pinned_ip :
    Env → String → Option IpAddr → AppState → Result StateError (Unit {0}) × AppState
unfolding pin_update update_policy
set_pinned_ip env name ip = update_policy env (pin_update name ip)

unfoldable pub remove_update : String → Update
unfolding remove_name
remove_update name containers killed = ok (remove name containers, remove_name name killed)

unfoldable pub remove_container : Env → String → AppState → Result StateError (Unit {0}) × AppState
unfolding remove_update update_policy
remove_container env name = update_policy env (remove_update name)

abbrev pub reset_update : Update
reset_update containers killed = ok ([], [])

unfoldable pub reset_containers : Env → AppState → Result StateError (Unit {0}) × AppState
unfolding update_policy
reset_containers env = update_policy env reset_update

unfoldable pub is_killed : String → AppState → Bool
unfolding contains
is_killed name s = contains name s.state.killed

-- An unknown name has the restrictive mode.
unfoldable pub cline_access : String → AppState → ClineAccess
cline_access name s = elim (lookup name s.state.containers) [
  | none ↦ basic
  | some r ↦ r.cline_access
]

unfoldable pub access_update : String → ClineAccess → Update
access_update name access containers killed = do
  r ← context (lookup name containers) unknown_container
  ok (insert name (record r { cline_access = access; managed = true }) containers, killed)

unfoldable pub set_cline_access :
    Env → String → ClineAccess → AppState → Result StateError (Unit {0}) × AppState
unfolding access_update update_policy
set_cline_access env name access = update_policy env (access_update name access)

unfoldable pub kill_update : Env → String → Bool → Update
unfolding or_default insert_name remove_name
kill_update env name kill containers killed = ok (
  insert name (record (or_default env name containers) { managed = true }) containers,
  if kill then insert_name name killed else remove_name name killed,
)

unfoldable pub set_killed : Env → String → Bool → AppState → Result StateError (Unit {0}) × AppState
unfolding kill_update update_policy
set_killed env name kill = update_policy env (kill_update env name kill)
