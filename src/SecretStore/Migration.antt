-- ===== src/SecretStore/Migration.antt =====
-- `open` and `migrate`: the credentials move from `secrets.json` to the credential store.
use friendzone.Prelude.{
  Option, none, some, [], ◌∷◌, ◌++◌, Bool, true, false, not, ◌==◌, ◌&&◌, is_some, is_none,
  if◌then◌else◌, unwrap_or,
}
use friendzone.Prelude.Text.{Text, text, text_eq}
use friendzone.Github.{Uuid}
use friendzone.SecretStore.{
  Values, Codec, Mode, os, file, ok, locked, file_mode_refused, invalid_legacy, invalid_marker,
  credentials_missing, conflict, migration_not_verified,
}
use friendzone.SecretStore.Entries.{
  M, pure, raise, ◌>>=◌, ◌>>◌, bail_if, read_legacy_file, read_marker, write_marker, remove_legacy,
}
use friendzone.SecretStore.Vault.{load, save}

-- `b"{\"version\":1}\n"`
unfoldable pub marker_contents : Text
marker_contents = text "{\"version\":1}" ++ 10 ∷ []

-- `==` of `Values`
unfoldable pub values_beq : Values → Values → Bool
values_beq [] [] = true
values_beq [] (b ∷ bs) = false
values_beq (a ∷ as') [] = false
values_beq (a ∷ as') (b ∷ bs) = a.0 == b.0 && a.1 == b.1 && values_beq as' bs

unfoldable pub is_values : Option Values → Values → Bool
unfolding values_beq
is_values none old = false
is_values (some v) old = values_beq v old

abbrev pub legacy_values : Option (Option Values) → M (Option Values)
legacy_values none = pure none
legacy_values (some none) = raise invalid_legacy
legacy_values (some (some values)) = pure (some values)

unfoldable pub read_legacy : M (Option Values)
unfolding read_legacy_file
read_legacy = read_legacy_file >>= legacy_values

-- `marker.exists()`, which no error leaves.
unfoldable pub marker_exists : M Bool
marker_exists w = (ok (is_some w.disk.marker), w)

unfoldable pub check_marker : Option Values → Option Text → M (Unit {0})
unfolding marker_contents
check_marker saved none = pure tt
check_marker saved (some contents) =
    bail_if (not (contents == marker_contents)) invalid_marker
    >> bail_if (is_none saved) credentials_missing

-- `if !marker.exists() { atomic_write(marker, …)? }`
unfoldable pub write_marker_once : M (Unit {0})
unfolding marker_exists write_marker marker_contents
write_marker_once = marker_exists >>= λ here. if here then pure tt else write_marker marker_contents

module _ (x : Codec) (id : Uuid) where
  -- Without `secrets.json`.
  unfoldable pub start_vault : Option Values → M Values
  unfolding save write_marker_once
  start_vault (some values) = write_marker_once >> pure values
  start_vault none = save x id [] >> (write_marker_once >> pure [])

  unfoldable pub copy_legacy : Option Values → Values → M (Unit {0})
  unfolding save values_beq
  copy_legacy (some saved) old = bail_if (not (values_beq saved old)) conflict
  copy_legacy none old = save x id old

  -- With it: it is copied, read back, and only then removed.
  unfoldable pub move_legacy : Option Values → Values → M Values
  unfolding copy_legacy load is_values write_marker_once remove_legacy
  move_legacy saved old = do
    copy_legacy saved old
    stored ← load x
    bail_if (not (is_values stored old)) migration_not_verified
    write_marker_once
    remove_legacy
    pure old

  abbrev pub migrate_from : Option Values → Option Values → M Values
  unfolding start_vault move_legacy
  migrate_from saved none = start_vault saved
  migrate_from saved (some old) = move_legacy saved old

  -- `migrate`, with the UUID that its save draws.
  unfoldable pub migrate : M Values
  unfolding load read_marker check_marker read_legacy migrate_from
  migrate = do
    saved ← load x
    contents ← read_marker
    check_marker saved contents
    legacy ← read_legacy
    migrate_from saved legacy

  abbrev pub open_mode : Mode → Bool → M Values
  unfolding migrate
  open_mode os here = migrate
  open_mode file here =
      bail_if here file_mode_refused >> (read_legacy >>= λ values. pure (unwrap_or values []))

  -- `open`; whether the lock of the directory is taken is an input.
  unfoldable pub open_store : Mode → Bool → M Values
  unfolding open_mode marker_exists
  open_store mode is_locked =
      bail_if is_locked locked >> (marker_exists >>= λ here. open_mode mode here)
