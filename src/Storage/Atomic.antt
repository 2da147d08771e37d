-- ===== src/Storage/Atomic.antt =====
-- The destination holds the old contents or the new ones, never a part.
use friendzone.Prelude.{◌≡◌, true, none, some, arith, ◌⊎◌}
use friendzone.Prelude.Result.{ok, err}
use friendzone.Storage.{Directory, Faults, io_error, atomic_write}

module _ {C : Type 0} (f : Faults C) (contents : C) (d : Directory C) where
  -- A write that succeeds publishes the contents and leaves no staging file; one that fails leaves
  -- the destination as it was.
  pub atomic_write_lem :
      let (r, d') = atomic_write f contents d in
      ((r ≡ ok tt) × (d'.target ≡ some contents) × (d'.temporary ≡ none))
      ⊎ ((r ≡ err io_error) × (d'.target ≡ d.target))
  unfolding atomic_write
  atomic_write_lem = ground arith

  pub atomic_write-clean :
      d.temporary ≡ none → f.removes ≡ true → (atomic_write f contents d).1.temporary ≡ none
  unfolding atomic_write
  atomic_write-clean h e = ground arith
