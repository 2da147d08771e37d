-- ===== src/Review/Queue.antt =====
-- The operations of the review queue: `impl QueueData`, `impl Queue` and `impl Ticket`.
pub mod Archive
pub mod Requests
pub mod Decisions
pub use friendzone.Review.Queue.Archive.{max_pending, max_per_guest, wait_limit, history_limit}
unfoldable pub use friendzone.Review.Queue.Archive.{
  with_limits, new, notify, drop_content, is_approved, is_pending, is_response_received, archived,
  trim, archive, has_id, is_of,
}
pub use friendzone.Review.Queue.Requests.{Ticket}
unfoldable pub use friendzone.Review.Queue.Requests.{
  enqueue, is_live, detail_of, inspect, update_first, set_url, upload_result, is_guest_upload,
  change_guest_upload,
}
pub use friendzone.Review.Queue.Decisions.{WaitEnd}
unfoldable pub use friendzone.Review.Queue.Decisions.{
  tracks_response, refine, response_detail, graphql_response_detail, observed, observe,
  cancel_pending, decided_status, decided_outcome, decide, resolved, set_resolved, ids_of,
  archive_all, cancel_container, remove_waiting, wait,
}
