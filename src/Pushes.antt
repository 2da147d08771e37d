-- ===== src/Pushes.antt =====
-- src/pushes.rs: the durable Git pushes, their data and the facts about one of them.
pub mod Checks
pub mod Store
pub mod Submit
pub mod Guest
pub mod Git
pub mod Worker
pub mod Results
pub mod Atomic
pub mod Stalled
pub mod Derived
pub mod Sending
pub mod Reviewed
pub mod Edits
pub mod Room
pub mod Steps
pub mod Always
pub mod Asked
pub mod Runs
pub mod Letters
mod Examples
use friendzone.Prelude.{
  ℕ, ◌+◌, ◌*◌, String, Bool, true, false, not, ◌&&◌, ◌||◌, Option, none, leb, is_some,
}
use friendzone.Prelude.Text.{Text}
use friendzone.Prelude.Map.{Map}
use friendzone.Storage.{Directory, Faults}
use friendzone.Github.{Uuid, DateTime, IpAddr, Binding}
use friendzone.Review.{Status}
use friendzone.State.{StateError}
use friendzone.Jobs.{hour, unacknowledged_retention_hours}

abbrev pub max_bundle : ℕ
max_bundle = 32 * 1024 * 1024

abbrev pub max_storage : ℕ
max_storage = 256 * 1024 * 1024

-- The bound on the metadata's file.
abbrev pub max_metadata : ℕ
max_metadata = 64 * 1024 * 1024

abbrev pub max_jobs : ℕ
max_jobs = 32

abbrev pub review_hours : ℕ
review_hours = 24

pub record Submission : Type 0 where
  pub request_key : Text
  pub session_id : Text
  pub repository : Text
  pub branch : Text
  pub base_oid : Text
  pub expected_oid : Text

-- `Review`, without the commits, the files and the patch, which only the browser shows.
pub record Review : Type 0 where
  pub repository : Text
  pub branch : Text
  pub expected_oid : Text
  pub base_oid : Text
  pub head_oid : Text
  pub bundle_sha256 : Text
  pub bundle_bytes : ℕ

pub record Job : Type 0 where
  pub id : Uuid
  pub container : String
  pub instance_id : Uuid
  pub epoch : Uuid
  pub peer : IpAddr
  pub submission : Submission
  pub review : Option Review
  pub bundle_sha256 : Text
  pub bundle_bytes : ℕ
  pub fingerprint : Text
  pub binding : Binding
  pub status : Status
  pub created_at : DateTime
  pub updated_at : DateTime
  pub expires_at : DateTime
  pub outcome : Text
  pub result : Option Text
  pub acknowledged_at : Option DateTime

pub record Saved : Type 0 where
  pub version : ℕ
  pub jobs : Map Uuid Job

-- A bundle's file, of which the length and the SHA-256 are read.
pub record Artifact : Type 0 where
  pub bytes : ℕ
  pub sha256 : Text

-- `Pushes`: the jobs, the directory of `git-push-jobs.json`, the bundles under their jobs' IDs, and
-- the version that subscribers watch. A value without a directory has no artifacts either.
pub record Pushes : Type 0 where
  pub current : Saved
  pub path : Option (Directory Saved)
  pub artifacts : Option (Map Uuid Artifact)
  pub changes : ℕ

-- What an operation asks of its surroundings: the clock, the ID that it draws, the outcomes of file
-- operations, and the length of the metadata that `serde_json` writes.
pub record Env : Type 0 where
  pub now : DateTime
  pub new_id : Uuid
  pub faults : Faults Saved
  pub renames_bundle : Bool
  pub removes_bundle : Bool
  pub size : Saved → ℕ

pub data PushError : Type 0 where
  no_key bad_repository bad_branch bad_digest bad_oid bad_bundle not_authorized bad_credential
        no_storage not_renamed too_many_active too_many_of_guest no_capacity out_of_fuel too_large
        not_saved unknown_job not_cancellable not_terminal not_acknowledgeable not_pending
        not_removed job_disappeared bad_advertisement too_many_jobs wrong_id size_overflow
        over_storage no_artifact wrong_artifact broken_integrity wrong_review no_review not_read
        unsupported bad_header bad_remote git_failed not_published :
      PushError
  state_error : StateError → PushError

-- `Job::terminal`
unfoldable pub terminal : Status → Bool
terminal Status.preparing = false
terminal Status.pending = false
terminal Status.approved = false
terminal Status.sending = false
terminal _ = true

unfoldable pub is_active : Job → Bool
unfolding terminal
is_active job = not (terminal job.status)

unfoldable pub is_unknown : Status → Bool
is_unknown Status.unknown = true
is_unknown _ = false

-- `Status::Preparing | Status::Pending | Status::Approved`
unfoldable pub is_waiting : Status → Bool
is_waiting Status.preparing = true
is_waiting Status.pending = true
is_waiting Status.approved = true
is_waiting _ = false

-- `Job::set`
unfoldable pub set : Env → Status → Text → Job → Job
set env status outcome job = record job { status = status; outcome = outcome; updated_at = env.now }

-- `Job::automatically_removable`; the hour is added on the other side of the comparison.
unfoldable pub automatically_removable : Env → Job → Bool
unfolding terminal is_unknown
automatically_removable env job =
    terminal job.status
    && not (is_unknown job.status)
    && (is_some job.acknowledged_at
        || leb (job.updated_at + unacknowledged_retention_hours * hour) env.now)
