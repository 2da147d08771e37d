-- ===== src/Jobs/Guest.antt =====
-- src/jobs.rs: what guests and the host ask of the jobs.
pub mod Submit
pub mod Requests
pub use friendzone.Jobs.Guest.Submit.{Parser}
unfoldable pub use friendzone.Jobs.Guest.Submit.{
  is_null_or_object, checked_body, sole_binding, admission, new_job, is_active_of, admit_job,
  submit_as, submit,
}
unfoldable pub use friendzone.Jobs.Guest.Requests.{
  owns, owned_job, get, list, put, cancel_edit, cancel, acknowledge_edit, acknowledge, delete_edit,
  delete, decided, is_pending_job, decide_edit, decide,
}
