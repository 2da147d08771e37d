-- ===== src/Storage/Examples.antt =====
-- A write whose rename fails.
use friendzone.Prelude.{◌≡◌, ◌⊎◌, ℕ, true, false, none, some}
use friendzone.Prelude.Result.{ok, err}
use friendzone.Storage.{Directory, Faults, io_error, atomic_write}
use friendzone.Storage.Atomic.{atomic_write_lem}

abbrev faults : Faults ℕ
faults = record {
  opens = true;
  writes = true;
  syncs = true;
  renames = false;
  removes = true;
  partial = 0;
}

abbrev directory : Directory ℕ
directory = record { target = some 1; temporary = none }

atomic_write_example :
    let (r, d') = atomic_write faults 2 directory in
    ((r ≡ ok tt) × (d'.target ≡ some 2) × (d'.temporary ≡ none))
    ⊎ ((r ≡ err io_error) × (d'.target ≡ directory.target))
atomic_write_example = atomic_write_lem faults 2 directory
