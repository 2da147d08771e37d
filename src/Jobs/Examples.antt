-- ===== src/Jobs/Examples.antt =====
-- A job from its submission to a stop of the broker, to which the theorems are applied.
use friendzone.Prelude.{
  false≢true, All, ◌≡◌, ◌⊎◌, ◌≤◌, refl, inr, true, false, none, some, List, [], ◌∷◌, ◌++◌, arith,
  length, string_eq, nat_eq, leb, wrapping_inc,
}
use friendzone.Prelude.Text.{Text, text, len, strip_prefix, split_once, text_beq, text_beq_iff}
use friendzone.Prelude.Map.{lookup, insert, map_values}
use friendzone.Prelude.Result.{err}
use friendzone.Storage.{Faults}
use friendzone.Routing.Examples.{parse}
use friendzone.Review
use friendzone.Review.{Status, Detail}
use friendzone.State.Examples
use friendzone.State.{Moment}
use friendzone.State.Gate.{holds_identity}
use friendzone.Settings.{Settings, EscrowEntry}
use friendzone.Jobs.{Job, Saved, Jobs, Env, Submission, Variables, not_found, max_result, is_active}
use friendzone.Jobs.Credential.{Crypto}
use friendzone.Jobs.Store.{transaction, empty_saved, load, prune_for_admission}
use friendzone.Jobs.Guest.{get, list, cancel, acknowledge, delete, decide, cancel_edit, admit_job}
use friendzone.Jobs.Worker.{take_up, read_body, chunk}
use friendzone.Jobs.Atomic.{IsAtomic, IsSaved, transaction-IsAtomic}
use friendzone.Jobs.Prune.{IsKeyed, IsPruned, IsPruning, prune_for_admission-IsPruning}
use friendzone.Jobs.Steps.{World, Broker, Op, submit_op, wake, take, crash, idle, run}
use friendzone.Jobs.Turns.{IsAdmission, take_up-sends}
use friendzone.Jobs.Restart.{IsRestarted, load-restarts, all_restarted}
use friendzone.Jobs.Once.{IsSound, IsFresh, IsOnce, run-IsOnce}
use friendzone.Jobs.Limits.{IsLimited, run-IsLimited, empty-IsLimited}
use friendzone.Jobs.Owners.{IsSubmitter, foreign_refused, decide-applies, admit_job-stores}
use friendzone.Jobs.Reading.{whole, read_body_lem}

abbrev entry : EscrowEntry
entry = record {
  name = text "gh";
  hosts = text "api.github.com" ∷ [];
  header = text "authorization";
  prefix = text "Bearer ";
  fake = text "fz-gh";
  real_env = none;
  guest_env = none;
}

abbrev settings : Settings
settings = record {
  entries = entry ∷ [];
  secrets = (text "gh", text "real") ∷ [];
  saved_entries = none;
  saved_secrets = [];
}

abbrev crypto : Crypto
crypto = record {
  external = record {
    parse = parse;
    decode = λ _. none;
    encode = λ b. b;
    is_session = λ _. false;
    env_var = λ _. none;
  };
  sha256 = λ _. text "d";
  is_header_value = λ _. true;
}

abbrev query : Detail
query = record {
  summary = record {
    id = 1;
    container = "alice";
    method = "POST";
    url = "https://api.github.com/graphql";
    created_at = 5;
    expires_at = 120005;
    fingerprint = "f1";
    body_bytes = 0;
    reason = "";
    status = Status.pending;
    updated_at = 5;
    http_status = none;
    outcome = none;
  };
  headers = [];
  body = [];
  graphql = true;
  file_upload = none;
  graphql_response = none;
  graphql_read = true;
  comment_permission_supported = false;
  resolved_target = none;
  resolution_id = none;
  comment_context = none;
}

abbrev world : World
world = record {
  crypto = crypto;
  parser = record { to_json = λ s. s.query; snapshot = λ _ _. some query };
  body = record { errors = λ _. none; decode = λ b. b };
}

abbrev faults : Faults Saved
faults = record {
  opens = true;
  writes = true;
  syncs = true;
  renames = true;
  removes = true;
  partial = record { version = 1; jobs = [] };
}

abbrev env : Env
env = record { now = 100; faults = faults; reads = true; size = λ s. length s.jobs }

abbrev now : Moment
now = record { at = 100; app = Examples.start }

abbrev submission : Submission
submission = record {
  request_key = text "k";
  session_id = text "s";
  query = text "query { viewer { login } }";
  variables = Variables.null;
  operation_name = none;
}

abbrev nothing : Saved
nothing = record { version = 1; jobs = [] }

abbrev broker : Broker
broker = record {
  jobs = record {
    current = nothing;
    path = some (record { target = some nothing; temporary = none });
    changes = 0;
  };
  worker = idle;
  sent = [];
}

abbrev submitted : Env × Op
submitted = (env, submit_op Examples.env settings Examples.start "alice" 7 submission)

abbrev operations : List (Env × Op)
operations =
    submitted
    ∷ (env, wake)
    ∷ (env, take settings now Examples.start)
    ∷ (env, crash)
    ∷ (env, wake)
    ∷ (env, wake)
    ∷ (env, take settings now Examples.start)
    ∷ []

run-IsOnce_example : IsSound (run world operations broker)
unfolding IsFresh IsSound IsSaved IsOnce text len lookup strip_prefix split_once text_beq insert
    map_values
run-IsOnce_example =
    run-IsOnce world operations broker
      (tt, (tt, (tt, ((tt, tt), ((tt, tt), ((tt, tt), ((tt, tt), tt))))))) (inr refl, tt, tt)

run-IsLimited_example :
    IsSaved (run world operations broker).jobs
    × IsLimited (run world operations broker).jobs.current
unfolding IsSaved empty_saved
run-IsLimited_example = run-IsLimited world operations broker (inr refl, empty-IsLimited)

abbrev job : Job
job = record {
  id = 1;
  container = "alice";
  instance_id = 2;
  epoch = 1;
  peer = 7;
  submission = submission;
  body = text "query { viewer { login } }";
  fingerprint = "f1";
  binding = record { entry = text "gh"; digest = text "d" };
  status = Status.pending;
  created_at = 50;
  updated_at = 50;
  expires_at = 500;
  http_status = none;
  outcome = [];
  result = none;
  upstream = none;
  acknowledged_at = none;
}

-- A store with a job that was delivered, one that is pending, and one that was being sent.
abbrev delivered : Job
delivered = record job { id = 2; status = Status.response_received; acknowledged_at = some 60 }

abbrev sent : Job
sent = record job { id = 3; status = Status.sending }

abbrev stored : Saved
stored = record { version = 1; jobs = (1, job) ∷ (2, delivered) ∷ (3, sent) ∷ [] }

abbrev jobs : Jobs
jobs = record {
  current = stored;
  path = some (record { target = some stored; temporary = none });
  changes = 4;
}

stored-IsKeyed : IsKeyed stored.jobs
unfolding IsKeyed lookup
stored-IsKeyed = (refl, refl, (refl, refl, (refl, refl, tt)))

transaction-IsAtomic_example :
    let edit = cancel_edit env "alice" 2 1 (text "s") in
    let (r, s') = transaction env edit jobs in IsAtomic (edit stored) jobs r s'
transaction-IsAtomic_example =
    transaction-IsAtomic env (cancel_edit env "alice" 2 1 (text "s")) jobs

prune_for_admission-IsPruning_example : IsPruning env 1 stored (prune_for_admission env stored)
prune_for_admission-IsPruning_example = prune_for_admission-IsPruning env 1 stored stored-IsKeyed

abbrev restarted_jobs : Jobs
restarted_jobs = record {
  current = all_restarted env stored;
  path = some (record { target = some (all_restarted env stored); temporary = none });
  changes = wrapping_inc 0;
}

load-restarts_example :
    IsSaved restarted_jobs
    × ((j' : Job) × (lookup 3 restarted_jobs.current.jobs ≡ some j') × IsRestarted sent j')
unfolding load lookup map_values
load-restarts_example =
    load-restarts env (record { target = some stored; temporary = none }) 3 {s = restarted_jobs}
      {before = stored} {j = sent} refl refl refl

-- An approved job, in a store of its own.
abbrev approved : Job
approved = record job { status = Status.approved }

abbrev approved_jobs : Jobs
approved_jobs = record {
  current = record { version = 1; jobs = (1, approved) ∷ [] };
  path = none;
  changes = 0;
}

take_up-sends_example :
    let s' = (take_up env crypto settings now Examples.start approved approved_jobs).1 in
    IsSaved s'
    × IsAdmission env approved approved_jobs.current s'.current
    × (holds_identity "alice" 7 2 1 Examples.start ≡ true)
unfolding take_up text lookup strip_prefix split_once text_beq insert
take_up-sends_example =
    take_up-sends env crypto settings now Examples.start approved approved_jobs refl

abbrev fresh : Job
fresh = record job { id = 4 }

abbrev admitted : Saved
admitted = record { version = 1; jobs = (1, job) ∷ (2, delivered) ∷ (3, sent) ∷ (4, fresh) ∷ [] }

admit_job-stores_example : (lookup 4 admitted.jobs ≡ some fresh) × IsPruned env 2 stored admitted
unfolding admit_job insert is_active
admit_job-stores_example =
    admit_job-stores env fresh stored 2 {stored = fresh} {after = admitted} stored-IsKeyed refl
      (omega arith) refl

other_session : ¬ IsSubmitter "alice" 2 (text "other") job
unfolding text text_beq IsSubmitter
other_session (c, i, e) = false≢true ((text_beq_iff (text "s") (text "other")).1 e)

foreign_refused_example :
    (get "alice" 2 1 (text "other") jobs ≡ err not_found)
    × (cancel env "alice" 2 1 (text "other") jobs ≡ (err not_found, jobs))
    × (acknowledge env "alice" 2 1 (text "other") jobs ≡ (err not_found, jobs))
    × (delete env "alice" 2 1 (text "other") jobs ≡ (err not_found, jobs))
    × All (IsSubmitter "alice" 2 (text "other")) (list "alice" 2 (text "other") jobs)
unfolding lookup
foreign_refused_example =
    foreign_refused env "alice" 2 1 (text "other") jobs {j = job} refl other_session

decide-applies_example :
    (j : Job) × (lookup 1 stored.jobs ≡ some j)
    × (j.status ≡ Status.pending)
    × (j.fingerprint ≡ "f1")
    × (leb j.expires_at env.now ≡ false)
    × (lookup 3 (decide env 1 "f1" Review.deny jobs).1.current.jobs ≡ lookup 3 stored.jobs)
unfolding decide lookup insert
decide-applies_example = decide-applies env 1 3 "f1" Review.deny jobs refl

read_body_lem_example :
    let (kept, _, error) = read_body (chunk (1 ∷ 2 ∷ []) ∷ chunk (3 ∷ []) ∷ []) [] 0 in
    (length kept ≤ max_result)
    × (((error ≡ none) × (kept ≡ [] ++ whole (chunk (1 ∷ 2 ∷ []) ∷ chunk (3 ∷ []) ∷ [])))
        ⊎ ((e : Text) × (error ≡ some e)))
read_body_lem_example = read_body_lem (chunk (1 ∷ 2 ∷ []) ∷ chunk (3 ∷ []) ∷ []) [] 0 (omega arith)

-- The job is sent once, though the broker stops before the response and the worker takes turns again.
sent_once : (run world operations broker).sent ≡ 1 ∷ []
unfolding run text len lookup strip_prefix split_once text_beq insert map_values
sent_once = refl
