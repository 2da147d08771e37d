-- ===== src/State/Load.antt =====
-- `AppState::load`: the policy that is read back from containers.json at a start of the broker.
pub mod Restored
use friendzone.Prelude.{
  ℕ, String, Bool, true, false, not, ◌||◌, Option, none, some, List, [], ◌∷◌, any, map, length, ltb,
  ◌==◌, nat_eq, string_eq, is_some, if◌then◌else◌,
}
use friendzone.Prelude.Map.{lookup, insert}
use friendzone.Prelude.Result.{Result, ok, err, ◌>>=◌, ◌>>◌, bail_if}
use friendzone.Storage.{Directory}
use friendzone.Policy.{GithubPolicy}
use friendzone.Github.{Uuid, Grant}
use friendzone.Github.Checks.{validate_grant}
use friendzone.Review.Queue
use friendzone.State.{
  ContainerRecord, SavedContainer, SavedContainers, Containers, AppState, Env, StateError,
  default_record, insert_name, bad_name, too_many_permissions, bad_grant, duplicate_grant,
  unsupported_version, no_directory, unreadable_policy, malformed_policy,
}
use friendzone.State.Policy.{Killed}

-- What `create_dir_all`, `fs::read` and `serde_json` make of the file: `serde_json` is not part of the repository.
pub data Reading : Type 0 where
  no_folder not_found unreadable malformed : Reading
  parsed : SavedContainers → Reading

-- The loop over the grants of one entry, which keeps the IDs it has seen.
unfoldable pub check_grants : List Uuid → List Grant → Result StateError (Unit {0})
check_grants ids [] = ok tt
check_grants ids (g ∷ gs) =
    let rest = check_grants (g.id ∷ ids) gs in
    elim (validate_grant g) [
      | err e ↦ err (bad_grant e)
      | ok _ ↦ if any (λ id. id == g.id) ids then err duplicate_grant else rest
    ]

-- The record of an entry. `..Default::default()` draws UUIDs for what is not saved.
unfoldable pub restored : Env → SavedContainer → ContainerRecord
unfolding default_record
restored env entry = record (default_record env) {
  approved = entry.approved;
  instance_id = entry.instance_id;
  pinned_ip = entry.pinned_ip;
  managed = true;
  comment_permissions = entry.comment_permissions;
  cline_access = entry.cline_access;
}

-- The policy in the file, or the empty one where there is no file.
unfoldable pub saved_in : Reading → Result StateError SavedContainers
saved_in no_folder = err no_directory
saved_in not_found = ok (record { version = 1; containers = [] })
saved_in unreadable = err unreadable_policy
saved_in malformed = err malformed_policy
saved_in (parsed saved) = ok saved

-- `is_blank` is `trim().is_empty()`, whose tables are Unicode's; `envs` has the UUIDs drawn for each name.
module _ (is_blank : String → Bool) (envs : String → Env) where
  unfoldable pub load_entry :
      SavedContainer → Containers → Killed → Result StateError (Containers × Killed)
  unfolding check_grants restored
  load_entry entry containers killed = do
    bail_if (is_blank entry.name || is_some (lookup entry.name containers)) bad_name
    bail_if (ltb 32 (length entry.comment_permissions)) too_many_permissions
    check_grants [] entry.comment_permissions
    ok (
      insert entry.name (restored (envs entry.name) entry) containers,
      if entry.killed then insert_name entry.name killed else killed,
    )

  unfoldable pub load_entries :
      List SavedContainer → Containers → Killed → Result StateError (Containers × Killed)
  unfolding load_entry
  load_entries [] containers killed = ok (containers, killed)
  load_entries (entry ∷ entries) containers killed = do
    (containers', killed') ← load_entry entry containers killed
    load_entries entries containers' killed'

  unfoldable pub load : Reading → Directory SavedContainers → Result StateError AppState
  unfolding saved_in load_entries
  load reading directory = do
    saved ← saved_in reading
    bail_if (not (saved.version == 1)) unsupported_version
    (containers, killed) ← load_entries saved.containers [] []
    ok (record {
      state = record { requests = []; next_sequence = 0; killed = killed; containers = containers };
      policy_path = some directory;
      github_policy = GithubPolicy.review;
      reviews = Queue.new;
    })
