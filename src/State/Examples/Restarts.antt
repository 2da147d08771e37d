-- ===== src/State/Examples/Restarts.antt =====
-- A saved policy that is read at a start, to which the theorem is applied.
use friendzone.Prelude.{
  All, any, ◌==◌, ◌≡◌, refl, String, true, false, none, some, [], ◌∷◌, string_eq,
}
use friendzone.Prelude.Map.{lookup, insert}
use friendzone.Policy.{basic, GithubPolicy}
use friendzone.Review.Queue.{with_limits, new}
use friendzone.State.{insert_name, SavedContainers, AppState}
use friendzone.Prelude.Result.{ok}
use friendzone.Storage.{Directory}
use friendzone.State.Load.{saved_in, Reading, load}
use friendzone.State.Load.Restored.{IsRestored, load-IsRestored}
use friendzone.State.Examples.{alice, env}

-- A file with a container that was killed.
abbrev file : SavedContainers
file = record {
  version = 1;
  containers =
      record {
        name = "alice";
        instance_id = 2;
        approved = true;
        killed = true;
        pinned_ip = some 7;
        comment_permissions = [];
        cline_access = basic;
      }
      ∷ [];
}

abbrev directory : Directory SavedContainers
directory = record { target = some file; temporary = none }

abbrev reloaded : AppState
reloaded = record {
  state = record {
    requests = [];
    next_sequence = 0;
    killed = "alice" ∷ [];
    containers = ("alice", record alice { policy_epoch = 10; comment_revision = 12 }) ∷ [];
  };
  policy_path = some directory;
  github_policy = GithubPolicy.review;
  reviews = with_limits 32 8;
}

load-IsRestored_example :
    (saved : SavedContainers) × (saved_in (Reading.parsed file) ≡ ok saved)
    × (saved.version ≡ 1)
    × All
        (IsRestored (λ name. name == "") (λ _. env) reloaded.state.containers reloaded.state.killed)
        saved.containers
    × ((j : String)
        → any (λ e. e.name == j) saved.containers ≡ false
        → lookup j reloaded.state.containers ≡ none)
    × (reloaded.state.requests ≡ [])
unfolding load lookup insert_name insert with_limits new
load-IsRestored_example =
    load-IsRestored (λ name. name == "") (λ _. env) (Reading.parsed file) directory reloaded refl
