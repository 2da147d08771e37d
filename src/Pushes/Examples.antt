-- ===== src/Pushes/Examples.antt =====
-- A push from its submission to its verified end, to which the theorems are applied.
use friendzone.Prelude.{
  arith, ◌≢◌, false≢true, ◌≡◌, refl, inr, true, false, none, some, List, [], ◌∷◌, ◌++◌,
}
use friendzone.Prelude.Text.{
  Text, text, text_beq, text_beq_iff, split_once, len, is_ascii_hexdigit, is_ascii_alphanumeric,
  to_ascii_lowercase, is_empty, strip_prefix, eq_ignore_ascii_case,
}
use friendzone.Prelude.Map.{lookup, insert}
use friendzone.Prelude.Result.{ok}
use friendzone.Routing.Examples.{parse}
use friendzone.Review.{Status, approve}
use friendzone.State.Examples
use friendzone.State.{Moment}
use friendzone.State.Gate.{holds_identity}
use friendzone.State.Log.{contains_text}
use friendzone.Github.Checks.{split_slash}
use friendzone.Settings.{Settings, EscrowEntry}
use friendzone.Jobs.Credential.{Crypto}
use friendzone.Pushes.{Submission, Review, Artifact, Job, Pushes, Env, is_waiting}
use friendzone.Pushes.Checks.{parse_ls_remote}
use friendzone.Pushes.Store.{load, stored}
use friendzone.Pushes.Git.{Answers, PushAnswers, prepare, execute}
use friendzone.Pushes.Worker.{take_up, current_git_token}
use friendzone.Pushes.Stalled.{Fails, take_up-stalls}
use friendzone.Pushes.Derived.{IsDerived, IsVerified, prepare-derives, execute-verifies}
use friendzone.Pushes.Letters.{prepare-refuses_upper}
use friendzone.Pushes.Sending.{IsAdmission, take_up-pushes}
use friendzone.Pushes.Steps.{Op, submit_op, decide_op, take_op, derived_op, run}
use friendzone.Pushes.Always.{IsSound}
use friendzone.Pushes.Runs.{IsPushable, run-IsSound, run-pushes}

abbrev entry : EscrowEntry
entry = record {
  name = text "gh";
  hosts = text "api.github.com" ∷ text "github.com" ∷ [];
  header = text "authorization";
  prefix = text "Bearer ";
  fake = text "fz-gh";
  real_env = none;
  guest_env = none;
}

abbrev settings : Settings
settings = record {
  entries = entry ∷ [];
  secrets = (text "gh", text "real") ∷ [];
  saved_entries = none;
  saved_secrets = [];
}

abbrev crypto : Crypto
crypto = record {
  external = record {
    parse = parse;
    decode = λ _. none;
    encode = λ b. b;
    is_session = λ _. false;
    env_var = λ _. none;
  };
  sha256 = λ _. text "d";
  is_header_value = λ _. true;
}

abbrev env : Env
env = record {
  now = 100;
  new_id = 1;
  faults = record {
    opens = true;
    writes = true;
    syncs = true;
    renames = true;
    removes = true;
    partial = record { version = 2; jobs = [] };
  };
  renames_bundle = true;
  removes_bundle = true;
  size = λ _. 1;
}

abbrev now : Moment
now = record { at = 100; app = Examples.start }

abbrev base : Text
base = text "aaaaaaaaaaaaaaaaaaaaaaaaaaaaaaaaaaaaaaaa"

abbrev head : Text
head = text "bbbbbbbbbbbbbbbbbbbbbbbbbbbbbbbbbbbbbbbb"

abbrev digest : Text
digest = text "cccccccccccccccccccccccccccccccccccccccccccccccccccccccccccccccc"

abbrev submission : Submission
submission = record {
  request_key = text "k";
  session_id = text "s";
  repository = text "o/r";
  branch = text "b";
  base_oid = base;
  expected_oid = base;
}

abbrev bundle : Artifact
bundle = record { bytes = 10; sha256 = digest }

abbrev job : Job
job = record {
  id = 1;
  container = "alice";
  instance_id = 2;
  epoch = 1;
  peer = 7;
  submission = submission;
  review = none;
  bundle_sha256 = digest;
  bundle_bytes = 10;
  fingerprint = text "d";
  binding = record { entry = text "gh"; digest = text "d" };
  status = Status.preparing;
  created_at = 50;
  updated_at = 50;
  expires_at = 86400100;
  outcome = [];
  result = none;
  acknowledged_at = none;
}

abbrev pushes_of : Job → Pushes
pushes_of j = record {
  current = record { version = 2; jobs = (1, j) ∷ [] };
  path =
      some
        (record { target = some (record { version = 2; jobs = (1, j) ∷ [] }); temporary = none });
  artifacts = some ((1, bundle) ∷ []);
  changes = 0;
}

abbrev late : Job
late = record job { expires_at = 100 }

take_up-stalls_example : Fails (
    load env crypto
      (some
        (stored 1 (take_up env crypto settings now Examples.start late (pushes_of late)).1.current))
      (record { target = none; temporary = none })
      ((1, bundle) ∷ []))
unfolding lookup is_waiting take_up
take_up-stalls_example =
    take_up-stalls env env crypto settings now Examples.start late (pushes_of late) 1
      (record { target = none; temporary = none }) ((1, bundle) ∷ []) refl refl refl refl
      (omega arith) refl

abbrev approved : Job
approved = record job { status = Status.approved }

take_up-pushes_example :
    let s' = (take_up env crypto settings now Examples.start approved (pushes_of approved)).1 in
    IsAdmission env approved (pushes_of approved).current s'.current
    × (holds_identity "alice" 7 2 1 Examples.start ≡ true)
    × (current_git_token crypto settings approved.binding ≡ some (text "real"))
unfolding lookup take_up text_beq strip_prefix split_once
take_up-pushes_example =
    take_up-pushes env crypto settings now Examples.start approved (pushes_of approved)
      {token = text "real"} refl

abbrev answers : Answers
answers = record {
  header =
      some
        (text "# v2 git bundle" ∷ (45 ∷ (base ++ text " c")) ∷ (head ++ text " refs/heads/b") ∷ []);
  bundle_sha256 = digest;
  initialized = true;
  remote_lines = some ((base ++ (9 ∷ text "refs/heads/b")) ∷ []);
  fetched_base = true;
  base_rev = base;
  base_type = text "commit";
  verified = true;
  imported = true;
  head_rev = head;
  head_type = text "commit";
  is_ancestor = true;
  described = true;
}

abbrev review : Review
review = record {
  repository = text "o/r";
  branch = text "b";
  expected_oid = base;
  base_oid = base;
  head_oid = head;
  bundle_sha256 = digest;
  bundle_bytes = 10;
}

prepare-derives_example : IsDerived job answers review
unfolding prepare text text_beq parse_ls_remote split_once len is_ascii_hexdigit to_ascii_lowercase
    is_empty eq_ignore_ascii_case
prepare-derives_example = prepare-derives job answers {r = review} refl refl

abbrev sent : Job
sent = record job { status = Status.sending; review = some review }

abbrev push_answers : PushAnswers
push_answers = record {
  bundle_sha256 = some digest;
  before = some ((base ++ (9 ∷ text "refs/heads/b")) ∷ []);
  push = some (true, text "ok");
  observed = some ((head ++ (9 ∷ text "refs/heads/b")) ∷ []);
}

execute-verifies_example : IsVerified sent push_answers
unfolding execute text text_beq parse_ls_remote split_once len is_ascii_hexdigit to_ascii_lowercase
    is_empty
execute-verifies_example =
    execute-verifies sent push_answers
      {out = text "ok" ++ (10 ∷ text "Verified refs/heads/b at ") ++ head} refl

abbrev operations : List (Env × Op)
operations =
    (env, submit_op Examples.env settings Examples.start "alice" 7 submission bundle)
    ∷ (env, take_op settings now Examples.start job)
    ∷ (env, derived_op Examples.start job (ok review))
    ∷ (env, decide_op 1 (text "d") approve)
    ∷ []

abbrev pushes : Pushes
pushes = record {
  current = record { version = 2; jobs = [] };
  path = some (record { target = some (record { version = 2; jobs = [] }); temporary = none });
  artifacts = some [];
  changes = 0;
}

run-IsSound_example : IsSound (run crypto operations pushes)
unfolding IsSound
run-IsSound_example = run-IsSound crypto operations pushes (inr refl, tt)

run-pushes_example : IsPushable 1 (run crypto operations pushes).current
unfolding IsSound take_up lookup text text_beq strip_prefix split_once run len split_slash
    is_ascii_alphanumeric contains_text is_ascii_hexdigit insert
run-pushes_example =
    run-pushes crypto operations pushes env settings now Examples.start approved
      {token = text "real"} (inr refl, tt) refl

abbrev upper : Submission
upper = record submission { expected_oid = text "AAAAAAAAAAAAAAAAAAAAAAAAAAAAAAAAAAAAAAAA" }

upper-not_lower : to_ascii_lowercase upper.expected_oid ≢ upper.expected_oid
unfolding text_beq to_ascii_lowercase text
upper-not_lower e = false≢true ((text_beq_iff _ upper.expected_oid).1 e)

prepare-refuses_upper_example : prepare upper 10 answers ≢ ok review
prepare-refuses_upper_example = prepare-refuses_upper upper 10 answers review upper-not_lower
