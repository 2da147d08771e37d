-- ===== src/State.antt =====
-- src/state.rs: the registry of containers, the request log, and the gates in front of both.
pub mod Policy
pub mod Load
pub mod Log
pub mod Registry
pub mod Gate
pub mod Permissions
pub mod Transaction
pub mod Epochs
pub mod Pins
pub mod Steps
pub mod Published
pub mod Permitted
pub mod Apart
pub mod Peers
pub mod Grants
pub mod Paging
pub mod Sequences
pub mod Examples
use friendzone.Prelude.{
  ℕ, ◌+◌, String, Bool, true, false, Option, none, some, List, [], ◌∷◌, not, any, filter,
  is_some_and, ◌==◌, nat_eq, if◌then◌else◌, is_some, string_eq,
}
use friendzone.Prelude.Map.{Map, lookup, insert}
use friendzone.Github.{Uuid, DateTime, IpAddr, Grant}
use friendzone.Policy.{ClineAccess, basic, GithubPolicy}
use friendzone.Storage.{Directory, Faults}
use friendzone.Review
use friendzone.Review.{QueueState}
use friendzone.Review.Queue
use friendzone.Github.Checks.{CheckError}

pub data Verdict : Type 0 where
  allowed blocked pending : Verdict

pub record RequestEvent : Type 0 where
  pub id : Uuid
  pub sequence : ℕ
  pub at : DateTime
  pub container : String
  pub method : String
  pub url : String
  pub verdict : Verdict
  pub status : Option ℕ
  pub detail : Option String

pub data Authorization : Type 0 where
  allowed pending ip_mismatch : Authorization

pub record ContainerRecord : Type 0 where
  pub last_activity : Option DateTime
  pub approved : Bool
  pub pinned_ip : Option IpAddr
  pub last_ip : Option IpAddr
  pub managed : Bool
  pub policy_epoch : Uuid
  pub instance_id : Uuid
  pub comment_permissions : List Grant
  pub comment_revision : Uuid
  pub cline_access : ClineAccess

pub record SavedContainer : Type 0 where
  pub name : String
  pub instance_id : Uuid
  pub approved : Bool
  pub killed : Bool
  pub pinned_ip : Option IpAddr
  pub comment_permissions : List Grant
  pub cline_access : ClineAccess

pub record SavedContainers : Type 0 where
  pub version : ℕ
  pub containers : List SavedContainer

abbrev pub Containers : Type 0
Containers = Map String ContainerRecord

pub record StateData : Type 0 where
  pub requests : List RequestEvent
  pub next_sequence : ℕ
  pub killed : List String
  pub containers : Containers

-- `AppState`, without the GitHub client, the jobs and the pushes. `policy_path` is the directory
-- that holds `containers.json`, or `none` where policy is not saved. The version that subscribers
-- watch is shared with the queue, and stands in it.
pub record AppState : Type 0 where
  pub state : StateData
  pub policy_path : Option (Directory SavedContainers)
  pub github_policy : GithubPolicy
  pub reviews : QueueState

-- What one look at the state finds: the clock, and the state at that time.
pub record Moment : Type 0 where
  pub at : DateTime
  pub app : AppState

-- What an operation asks of its surroundings: the clock, the outcome of file operations, and the
-- UUIDs that it draws: those of a new record, one epoch for each name, one for an event and one for a
-- grant. `show_id` is the `Display` of a UUID, which the `uuid` crate writes.
pub record Env : Type 0 where
  pub now : DateTime
  pub faults : Faults SavedContainers
  pub epoch : Uuid
  pub instance_id : Uuid
  pub revision : Uuid
  pub new_epoch : String → Uuid
  pub new_id : Uuid
  pub grant_id : Uuid
  pub show_id : Uuid → String
  pub review : Review.Env

-- The errors of the operations; a message of the source is a constructor.
pub data StateError : Type 0 where
  not_saved unknown_container no_address_observed pinned_to_other many_pinned not_owner no_pin
        many_pending no_explicit_pin authorization_changed too_many_permissions permission_removed
        container_removed policy_changed unsupported_version bad_name duplicate_grant
        request_not_waiting review_changed no_comment_command no_directory unreadable_policy
        malformed_policy :
      StateError
  bad_grant : CheckError → StateError

-- `LOG_CAPACITY`
abbrev pub log_capacity : ℕ
log_capacity = 10000

-- `AppState::notify`
unfoldable pub notify : AppState → AppState
unfolding Queue.notify
notify s = record s { reviews = Queue.notify s.reviews }

-- `ContainerRecord::default`
unfoldable pub default_record : Env → ContainerRecord
default_record env = record {
  last_activity = none;
  approved = false;
  pinned_ip = none;
  last_ip = none;
  managed = false;
  policy_epoch = env.epoch;
  instance_id = env.instance_id;
  comment_permissions = [];
  comment_revision = env.revision;
  cline_access = basic;
}

-- `containers.entry(name).or_default()`
unfoldable pub or_default : Env → String → Containers → ContainerRecord
unfolding default_record
or_default env name m = elim (lookup name m) [ none ↦ default_record env | some record' ↦ record' ]

-- `StateData::touch_container`
unfoldable pub touch_container : Env → String → Option IpAddr → StateData → StateData
unfolding or_default
touch_container env name ip s =
    let r = or_default env name s.containers in
    record s {
      containers =
          insert name
            (record r {
              last_activity = some env.now;
              last_ip = if is_some ip then ip else r.last_ip;
            })
            s.containers;
    }

-- `HashSet<String>` of killed names.
unfoldable pub contains : String → List String → Bool
contains name names = any (λ n. n == name) names

unfoldable pub insert_name : String → List String → List String
unfolding contains
insert_name name names = if contains name names then names else name ∷ names

unfoldable pub remove_name : String → List String → List String
remove_name name names = filter (λ n. not (n == name)) names

-- The address test of every gate: a pin, if there is one, names the peer.
unfoldable pub pin_allows : Option IpAddr → IpAddr → Bool
pin_allows pin peer = not (is_some_and pin (λ ip. not (ip == peer)))
