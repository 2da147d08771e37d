-- ===== src/Jobs.antt =====
-- src/jobs.rs: the durable jobs, which guests submit and the broker's worker sends to GitHub.
pub mod Credential
pub mod Store
pub mod Guest
pub mod Worker
pub mod Atomic
pub mod Prune
pub mod Changes
pub mod Progress
pub mod Admit
pub mod Steps
pub mod Turns
pub mod Restart
pub mod Kept
pub mod Spent
pub mod Limits
pub mod Owners
pub mod Reading
mod Examples
pub mod Once
use friendzone.Prelude.{
  ℕ, ◌+◌, ◌-◌, ◌*◌, String, Bool, true, false, not, ◌&&◌, ◌||◌, Option, none, List, [], leb,
  is_some,
}
use friendzone.Prelude.Text.{Text}
use friendzone.Prelude.Map.{Map}
use friendzone.Storage.{Directory, Faults}
use friendzone.Github.{Uuid, DateTime, IpAddr, Binding}
use friendzone.Review.{Status}
use friendzone.State.{StateError}

-- The limits, in bytes and in milliseconds.
abbrev pub max_payload : ℕ
max_payload = 10 * 1024 * 1024

abbrev pub max_result : ℕ
max_result = 4 * 1024 * 1024

abbrev pub max_storage : ℕ
max_storage = 256 * 1024 * 1024

abbrev pub max_jobs : ℕ
max_jobs = 100

abbrev pub hour : ℕ
hour = 60 * 60 * 1000

abbrev pub review_hours : ℕ
review_hours = 24

abbrev pub unacknowledged_retention_hours : ℕ
unacknowledged_retention_hours = 1

-- The limits of `submit` on the jobs that are not over.
abbrev pub max_active : ℕ
max_active = 32

abbrev pub max_active_of_guest : ℕ
max_active_of_guest = 8

pub record UpstreamDiagnostics : Type 0 where
  pub approved_at : Option DateTime
  pub started_at : Option DateTime
  pub headers_at : Option DateTime
  pub finished_at : Option DateTime
  pub accepted_to_approval_ms : Option ℕ
  pub approval_to_admission_ms : Option ℕ
  pub accepted_to_admission_ms : Option ℕ
  pub time_to_headers_ms : Option ℕ
  pub total_ms : Option ℕ
  pub remote_addr : Option Text
  pub http_version : Option Text
  pub response_headers : List (Text × Text)
  pub response_bytes : Option ℕ
  pub response_complete : Option Bool
  pub transport_error : Option Text

-- `UpstreamDiagnostics::default()`
unfoldable pub no_diagnostics : UpstreamDiagnostics
no_diagnostics = record {
  approved_at = none;
  started_at = none;
  headers_at = none;
  finished_at = none;
  accepted_to_approval_ms = none;
  approval_to_admission_ms = none;
  accepted_to_admission_ms = none;
  time_to_headers_ms = none;
  total_ms = none;
  remote_addr = none;
  http_version = none;
  response_headers = [];
  response_bytes = none;
  response_complete = none;
  transport_error = none;
}

-- A `serde_json::Value`, as far as `submit` looks into it; the text is its JSON.
pub data Variables : Type 0 where
  null : Variables
  object other : Text → Variables

pub record Submission : Type 0 where
  pub request_key : Text
  pub session_id : Text
  pub query : Text
  pub variables : Variables
  pub operation_name : Option Text

-- `Job`, without the facts that the browser shows.
pub record Job : Type 0 where
  pub id : Uuid
  pub container : String
  pub instance_id : Uuid
  pub epoch : Uuid
  pub peer : IpAddr
  pub submission : Submission
  pub body : Text
  pub fingerprint : String
  pub binding : Binding
  pub status : Status
  pub created_at : DateTime
  pub updated_at : DateTime
  pub expires_at : DateTime
  pub http_status : Option ℕ
  pub outcome : Text
  pub result : Option Text
  pub upstream : Option UpstreamDiagnostics
  pub acknowledged_at : Option DateTime

pub record Saved : Type 0 where
  pub version : ℕ
  pub jobs : Map Uuid Job

-- `Inner`: the data, and the directory that holds `async-jobs.json`, if there is one.
pub record Jobs : Type 0 where
  pub current : Saved
  pub path : Option (Directory Saved)
  pub changes : ℕ

-- What an operation asks of its surroundings: the clock, the outcome of file operations, and the
-- length of the JSON that `serde_json` writes.
pub record Env : Type 0 where
  pub now : DateTime
  pub faults : Faults Saved
  pub reads : Bool
  pub size : Saved → ℕ

-- The errors of the operations; a message of the source is a constructor, and `out_of_fuel` is none
-- of the source's: no operation returns it.
pub data JobsError : Type 0 where
  not_saved not_read too_large unsupported size_overflow no_capacity too_many_active
        too_many_of_guest bad_keys bad_query payload_too_large not_authorized no_credential
        not_parsed not_found execution_started not_terminal still_active not_pending job_missing
        out_of_fuel :
      JobsError
  state_error : StateError → JobsError

-- `Job::terminal`
unfoldable pub terminal : Status → Bool
terminal Status.pending = false
terminal Status.approved = false
terminal Status.sending = false
terminal _ = true

-- `matches!(status, Status::Pending | Status::Approved)`
unfoldable pub is_waiting : Status → Bool
is_waiting Status.pending = true
is_waiting Status.approved = true
is_waiting _ = false

unfoldable pub is_unknown : Status → Bool
is_unknown Status.unknown = true
is_unknown _ = false

unfoldable pub is_active : Job → Bool
unfolding terminal
is_active job = not (terminal job.status)

-- `Job::set`
unfoldable pub set : Env → Status → Text → Job → Job
set env status outcome job = record job { status = status; outcome = outcome; updated_at = env.now }

-- `Job::automatically_removable`; the hour is added on the other side of the comparison.
unfoldable pub automatically_removable : Env → Job → Bool
unfolding terminal is_unknown
automatically_removable env job =
    terminal job.status
    && not (is_unknown job.status)
    && (is_some job.acknowledged_at
        || leb (job.updated_at + unacknowledged_retention_hours * hour) env.now)

-- `wall_elapsed_ms`: it stops at 0, as the source's `max(0)` does.
unfoldable pub wall_elapsed_ms : DateTime → DateTime → ℕ
wall_elapsed_ms start end = end - start
