-- ===== src/Storage.antt =====
-- src/storage.rs: the atomic replacement of a file.
pub mod Atomic
mod Examples
use friendzone.Prelude.{Bool, true, false, ◌&&◌, Option, none, some, if◌then◌else◌}
use friendzone.Prelude.Result.{Result, ok, err}

-- A directory with the destination and the staging file beside it. The staging file's name holds a
-- fresh UUID, so it is a place of its own.
pub record Directory (C : Type 0) : Type 0 where
  pub target : Option C
  pub temporary : Option C

-- Whether each call on the file system succeeds, and what a failed write leaves in its file.
pub record Faults (C : Type 0) : Type 0 where
  pub opens : Bool
  pub writes : Bool
  pub syncs : Bool
  pub renames : Bool
  pub removes : Bool
  pub partial : C

pub data IoError : Type 0 where
  io_error : IoError

module _ {C : Type 0} where
  -- `fs::rename(&temporary, path)`
  abbrev rename : Directory C → Directory C
  rename d = record { target = d.temporary; temporary = none }

  -- `let _ = fs::remove_file(&temporary)`
  abbrev remove_temporary : Faults C → Directory C → Directory C
  remove_temporary f d = if f.removes then record d { temporary = none } else d

  -- The closure of `atomic_write`: its result and the directory that it leaves.
  unfoldable pub stage : Faults C → C → Directory C → Result IoError (Unit {0}) × Directory C
  stage f contents d =
      if f.opens
      then (if f.writes
          then (if f.syncs
              then (if f.renames
                  then (ok tt, rename (record d { temporary = some contents }))
                  else (err io_error, record d { temporary = some contents }))
              else (err io_error, record d { temporary = some contents }))
          else (err io_error, record d { temporary = some f.partial }))
      else (err io_error, d)

  unfoldable pub atomic_write : Faults C → C → Directory C → Result IoError (Unit {0}) × Directory C
  unfolding stage
  atomic_write f contents d =
      let (r, d') = stage f contents d in
      elim r [ ok u ↦ (ok u, d') | err e ↦ (err e, remove_temporary f d') ]
