-- ===== src/Jobs/Worker.antt =====
-- src/jobs.rs: one turn of the worker, `Jobs::tick`, in the pieces between which others run.
pub mod Turn
pub mod Finish
pub use friendzone.Jobs.Worker.Turn.{Outcome, next, stop, send}
unfoldable pub use friendzone.Jobs.Worker.Turn.{
  work, is_approved, keeps_identity, drop_edit, block_edit, sending_diagnostics, admit_edit,
  continue_with, take_up,
}
pub use friendzone.Jobs.Worker.Finish.{
  Received, Body, Ending, Chunk, chunk, broken, Response, failed, received, Errors, array,
  not_array,
}
unfoldable pub use friendzone.Jobs.Worker.Finish.{
  saturating_add, read_body, has_errors, completed, incomplete, ending, finish_edit, finish,
}
