-- ===== src/State/Examples.antt =====
-- Runs of the registry and of its gates on a small state, to which the theorems are applied.
mod Logs
mod Restarts
use friendzone.Prelude.{
  All, any, ◌==◌, ℕ, ◌++◌, ◌≡◌, refl, ◌⊎◌, arith, String, true, false, Option, none, some, List, [],
  ◌∷◌, string_eq,
}
use friendzone.Prelude.Map.{lookup, insert}
use friendzone.Prelude.Text.{text, text_beq, is_empty}
use friendzone.Github.{Grant, grant_beq}
use friendzone.Policy.{basic, GithubPolicy}
use friendzone.Review.Queue.{with_limits, new}
use friendzone.State.{
  insert_name, SavedContainers, RequestEvent, Verdict, ContainerRecord, AppState, Env, pin_allows,
}
use friendzone.State.Policy.{is_changed, update_policy}
use friendzone.State.Registry.{kill_update}
use friendzone.State.Gate.{admit_request, authorize_proxy_peer}
use friendzone.State.Transaction.{IsAtomic, update_policy-IsAtomic}
use friendzone.State.Epochs.{IsRevoked, update_policy-revokes}
use friendzone.State.Pins.{IsUniquelyPinned}
use friendzone.State.Steps.{Operation, add, kill, identify, pin, log, revoke, run}
use friendzone.State.Apart.{empty-IsUniquelyPinned, run-IsUniquelyPinned}
use friendzone.State.Permissions.{
  revoke_comment_permission, revoke_update, is_comment_admitted, log_permission,
}
use friendzone.Prelude.Result.{ok}
use friendzone.Storage.{Directory}
use friendzone.State.Load.{saved_in, Reading, load}
use friendzone.State.Load.Restored.{IsRestored, load-IsRestored}
use friendzone.State.Log.{LogQuery, log_page, matches}
use friendzone.State.Paging.{log_page-continues}
use friendzone.State.Sequences.{
  LogOperation, record_event, annotate_event, block_event, IsOrdered, run-IsOrdered,
}
use friendzone.State.Sequences
use friendzone.State.Grants.{revoke_comment_permission-rejects}
use friendzone.State.Peers.{IsAllowed, authorize_proxy_peer-allowed}

abbrev pub alice : ContainerRecord
alice = record {
  last_activity = none;
  approved = true;
  pinned_ip = some 7;
  last_ip = none;
  managed = true;
  policy_epoch = 1;
  instance_id = 2;
  comment_permissions = [];
  comment_revision = 3;
  cline_access = basic;
}

abbrev pub start : AppState
start = record {
  state = record {
    requests = [];
    next_sequence = 0;
    killed = [];
    containers = ("alice", alice) ∷ [];
  };
  policy_path = some (record { target = none; temporary = none });
  github_policy = GithubPolicy.review;
  reviews = with_limits 4 2;
}

abbrev pub env : Env
env = record {
  now = 100;
  faults = record {
    opens = true;
    writes = true;
    syncs = true;
    renames = true;
    removes = true;
    partial = record { version = 1; containers = [] };
  };
  epoch = 10;
  instance_id = 11;
  revision = 12;
  new_epoch = λ _. 13;
  new_id = 14;
  grant_id = 16;
  show_id = λ _. "id";
  review = record { now = 100; instant = 0; closed = λ _. false; sends = true; new_id = 15 };
}

update_policy-revokes_example :
    IsRevoked "alice" 7 2 5 1 (update_policy env (kill_update env "alice" true) start).1
unfolding lookup insert kill_update is_changed update_policy with_limits
update_policy-revokes_example =
    update_policy-revokes env (kill_update env "alice" true) start "alice" 7 2 5
      {m = insert "alice" alice (("alice", alice) ∷ [])} {killed = "alice" ∷ []} {old = alice} refl
      refl refl (omega arith) refl

update_policy-IsAtomic_example :
    IsAtomic start
      (update_policy env (kill_update env "alice" true) start).0
      (update_policy env (kill_update env "alice" true) start).1
update_policy-IsAtomic_example = update_policy-IsAtomic env (kill_update env "alice" true) start

abbrev operations : List (Env × Operation)
operations =
    (env, add "bob" (some 7))
    ∷ (env, kill "alice" true)
    ∷ (env, identify 7 none)
    ∷ (env, log "carol" "GET" "https://api.dev/" Verdict.allowed true)
    ∷ (env, revoke "alice" 3)
    ∷ (env, pin "alice" (some 7))
    ∷ []

abbrev empty : AppState
empty = record start { state = record start.state { containers = [] } }

run-IsUniquelyPinned_example : IsUniquelyPinned (run operations empty).state.containers
run-IsUniquelyPinned_example = run-IsUniquelyPinned operations empty empty-IsUniquelyPinned

authorize_proxy_peer-allowed_example :
    (r : ContainerRecord) × (lookup "alice" start.state.containers ≡ some r)
    × (r.approved ≡ true)
    × (pin_allows r.pinned_ip 7 ≡ true)
    × (((◌≡◌ {A = Option String} none none) × (r.pinned_ip ≡ some 7))
        ⊎ (◌≡◌ {A = Option String} none (some "alice")))
unfolding authorize_proxy_peer lookup insert with_limits
authorize_proxy_peer-allowed_example =
    authorize_proxy_peer-allowed env 7 none start {name = "alice"} refl

-- alice may comment under the permission 21, until it is revoked.
abbrev grant : Grant
grant = record {
  id = 21;
  target = record {
    node_id = text "PR_1";
    repository_id = text "R_1";
    repository = text "o/r";
    kind = text "PullRequest";
    number = 1;
    title = text "t";
    url = text "https://github.com/o/r/pull/1";
  };
  binding = record { entry = text "github"; digest = text "8" };
  created_at = 90;
}

abbrev granted : AppState
granted = record start {
  state = record start.state {
    containers = ("alice", record alice { comment_permissions = grant ∷ [] }) ∷ [];
  };
}

admitted_before_revocation : is_comment_admitted "alice" 7 1 grant grant.target granted ≡ true
unfolding is_comment_admitted lookup grant_beq text_beq text
admitted_before_revocation = refl

revoke_comment_permission-rejects_example :
    is_comment_admitted "alice" 7 13 grant grant.target
      (revoke_comment_permission env "alice" 21 granted).1
    ≡ false
unfolding revoke_comment_permission revoke_update update_policy log_permission insert lookup
revoke_comment_permission-rejects_example =
    revoke_comment_permission-rejects env "alice" 21 7 13 grant grant.target granted refl refl
