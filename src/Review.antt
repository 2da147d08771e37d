-- ===== src/Review.antt =====
-- src/review.rs: the queue of requests that wait for one decision of the host.
pub mod Queue
pub mod Steps
pub mod Invariant
pub mod Bounds
pub mod Decide
pub mod Cancel
mod Examples
use friendzone.Prelude.{ℕ, String, Bool, true, false, Option, none, some, List}
use friendzone.Prelude.Text.{Text}
use friendzone.Prelude.Map.{Map}
use friendzone.Github.{Uuid, DateTime, CommentContext, Resolved, Upload}

pub data Status : Type 0 where
  preparing pending approved sending response_received graphql_error denied expired cancelled
        blocked upstream_error unknown :
      Status

-- `Status::active`
unfoldable pub active : Status → Bool
active Status.preparing = true
active Status.pending = true
active Status.approved = true
active Status.sending = true
active _ = false

-- The host's decision.
pub data Decision : Type 0 where
  approve deny : Decision

-- `Summary`, without the display fields that the queue only carries along (`facts`, `request_key`,
-- `upstream`, `display_binding`, `asynchronous`).
pub record Summary : Type 0 where
  pub id : Uuid
  pub container : String
  pub method : String
  pub url : String
  pub created_at : DateTime
  pub expires_at : DateTime
  pub fingerprint : String
  pub body_bytes : ℕ
  pub reason : String
  pub status : Status
  pub updated_at : DateTime
  pub http_status : Option ℕ
  pub outcome : Option String

-- `GraphqlResponseDiagnostics`, without the bounded texts.
pub record Diagnostics : Type 0 where
  pub error_count : ℕ
  pub data_present : Bool
  pub response_bytes : ℕ

-- `Detail`; `graphql` says whether there is a parsed view.
pub record Detail : Type 0 where
  pub summary : Summary
  pub headers : List (String × String)
  pub body : Text
  pub graphql : Bool
  pub file_upload : Option Upload
  pub graphql_response : Option Diagnostics
  pub graphql_read : Bool
  pub comment_permission_supported : Bool
  pub resolved_target : Option Resolved
  pub resolution_id : Option Uuid
  pub comment_context : Option CommentContext

-- `Entry`; the sender is the other end of a ticket, see `Env`.
pub record Entry : Type 0 where
  pub detail : Detail
  pub deadline : ℕ

-- `QueueData` and the fields of `Inner`; `changes` is the version that subscribers watch.
pub record QueueState : Type 0 where
  pub pending : Map Uuid Entry
  pub recent : List Detail
  pub changes : ℕ
  pub capacity : ℕ
  pub per_guest : ℕ

-- What an operation asks of its surroundings: the wall clock, the monotonic clock (in
-- milliseconds), whether the sender of a waiting request is closed, whether a decision reaches its
-- ticket, and the next UUID.
pub record Env : Type 0 where
  pub now : DateTime
  pub instant : ℕ
  pub closed : Uuid → Bool
  pub sends : Bool
  pub new_id : Uuid

-- The errors of the queue's operations.
pub data QueueError : Type 0 where
  already_waiting full not_waiting fingerprint_mismatch not_sent client_stopped changed no_context
        upload_not_found still_active not_pending review_expired review_cancelled :
      QueueError
