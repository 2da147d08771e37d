-- ===== src/Settings.antt =====
-- src/settings.rs: the escrow of credentials, its entries and its secrets.
pub mod Substitute
pub mod Pinned
pub mod Basic
pub mod Revoke
mod Examples
use friendzone.Prelude.{
  ℕ, Bool, true, false, not, ◌&&◌, ◌||◌, Option, none, some, List, [], ◌∷◌, ◌++◌, ◌==◌, any, filter,
  find?, is_some, if◌then◌else◌,
}
use mathlib.Core.Option
use friendzone.Prelude.Text.{Text, text_eq, text, is_empty, starts_with, to_ascii_lowercase}
use friendzone.Prelude.Map.{Map, lookup, insert, remove}
use friendzone.Prelude.Result.{Result, ok, err}
use friendzone.Http.{UrlParser}

pub record EscrowEntry : Type 0 where
  pub name : Text
  pub hosts : List Text
  pub header : Text
  pub prefix : Text
  pub fake : Text
  pub real_env : Option Text
  pub guest_env : Option Text

abbrev pub Secrets : Type 0
Secrets = Map Text Text

-- The settings, with what the last successful writes left in `escrow.json` and in the secret store.
pub record Settings : Type 0 where
  pub entries : List EscrowEntry
  pub secrets : Secrets
  pub saved_entries : Option (List EscrowEntry)
  pub saved_secrets : Secrets

-- Whether the two stores report that they took a write. A write of `escrow.json` that fails leaves its
-- file as `partial` says. The secret store is replaced as a whole; a save that reports an error may
-- have replaced it all the same, which `replaces_secrets` says.
pub record Env : Type 0 where
  pub saves_secrets : Bool
  pub replaces_secrets : Bool
  pub writes_entries : Bool
  pub partial : Option (List EscrowEntry)
  pub new_fake : Text

-- The code outside this repository: the URL parser, the standard base64 of bytes, whether a stored
-- text parses as a Cline session (`serde_json`), and the environment variables.
pub record External : Type 0 where
  pub parse : UrlParser
  pub decode : Text → Option (List ℕ)
  pub encode : List ℕ → Text
  pub is_session : Text → Bool
  pub env_var : Text → Option Text

pub data SettingsError : Type 0 where
  secrets_not_saved entries_not_written already_exists no_entry no_session_text : SettingsError

-- `Secrets::save`
unfoldable pub save : Env → Secrets → Settings → Result SettingsError (Unit {0}) × Settings
save env values s =
    if env.saves_secrets then (ok tt, record s { secrets = values; saved_secrets = values }) else (
      err secrets_not_saved,
      record s { saved_secrets = if env.replaces_secrets then values else s.saved_secrets },
    )

-- `write_json` to `escrow.json`.
unfoldable pub write_entries :
    Env → List EscrowEntry → Settings → Result SettingsError (Unit {0}) × Settings
write_entries env entries s =
    if env.writes_entries
    then (ok tt, record s { saved_entries = some entries })
    else (err entries_not_written, record s { saved_entries = env.partial })

-- A result with the value that goes with success.
abbrev with_value {ℓ} : {A : Type ℓ} → A → Result SettingsError (Unit {0}) → Result SettingsError A
with_value a (ok _) = ok a
with_value a (err e) = err e

unfoldable pub has_name : Text → EscrowEntry → Bool
has_name name entry = entry.name == name

-- The entry is in memory even where the write fails.
unfoldable pub add_entry :
    Env → EscrowEntry → Settings → Result SettingsError EscrowEntry × Settings
unfolding write_entries has_name is_empty
add_entry env entry s =
    let entry' : EscrowEntry =
      if is_empty entry.fake then record entry { fake = env.new_fake } else entry in
    if any (has_name entry'.name) s.entries
    then (err already_exists, s)
    else let (r, s') =
        write_entries env (s.entries ++ (entry' ∷ []))
          (record s { entries = s.entries ++ (entry' ∷ []) }) in
      (with_value entry' r, s')

-- `iter_mut().find(…)`: the first entry of that name is edited.
unfoldable pub edit_first : Text → (EscrowEntry → EscrowEntry) → List EscrowEntry → List EscrowEntry
unfolding has_name
edit_first name f [] = []
edit_first name f (e ∷ es) =
    let rest = edit_first name f es in if has_name name e then f e ∷ es else e ∷ rest

unfoldable pub update_entry :
    Env
    → Text
    → List Text
    → Text
    → Text
    → Option Text
    → Settings
    → Result SettingsError EscrowEntry × Settings
unfolding write_entries has_name edit_first
update_entry env name hosts header prefix guest_env s = elim (find? (has_name name) s.entries) [
  | none ↦ (err no_entry, s)
  | some entry ↦
      let edit : EscrowEntry → EscrowEntry =
        λ e. record e { hosts = hosts; header = header; prefix = prefix; guest_env = guest_env } in
      let entries = edit_first name edit s.entries in
      let (r, s') = write_entries env entries (record s { entries = entries }) in
      (with_value (edit entry) r, s')
]

-- `ClineSession::secret_name`
unfoldable pub session_name : Text → Text
session_name entry = text "cline-oauth:" ++ entry

unfoldable pub remove_entry : Env → Text → Settings → Result SettingsError (Unit {0}) × Settings
unfolding save write_entries session_name has_name
remove_entry env name s =
    let (saved, s') = save env (remove (session_name name) (remove name s.secrets)) s in
    elim saved [
      | err e ↦ (err e, s')
      | ok _ ↦
          let updated = filter (λ e. not (has_name name e)) s'.entries in
          let (written, s'') = write_entries env updated s' in
          elim written [ err e ↦ (err e, s'') | ok _ ↦ (ok tt, record s'' { entries = updated }) ]
    ]

unfoldable pub set_secret :
    Env → Text → Text → Settings → Result SettingsError (Unit {0}) × Settings
unfolding save session_name
set_secret env name value s = save env (remove (session_name name) (insert name value s.secrets)) s

-- `session` is the JSON text of the session, where it has one.
unfoldable pub set_cline_session :
    Env → Text → Option Text → Text → Settings → Result SettingsError (Unit {0}) × Settings
unfolding save session_name
set_cline_session env entry none access s = (err no_session_text, s)
set_cline_session env entry (some session) access s =
    save env (insert entry access (insert (session_name entry) session s.secrets)) s

unfoldable pub secret : Text → Settings → Option Text
secret name s = lookup name s.secrets

unfoldable pub remove_secret : Env → Text → Settings → Result SettingsError (Unit {0}) × Settings
unfolding save
remove_secret env name s = save env (remove name s.secrets) s

-- `ClineSession::load(…).is_some()`
unfoldable pub has_session : External → Text → Settings → Bool
unfolding secret session_name
has_session x name s = elim (secret (session_name name) s) [
  | none ↦ false
  | some t ↦ x.is_session t
]

-- Cline's auth adapter prefixes OAuth access tokens.
unfoldable pub with_workos : Bool → Text → Text
with_workos session value =
    if session && not (starts_with (text "workos:") (to_ascii_lowercase value))
    then text "workos:" ++ value
    else value

-- The secret, or the environment's value.
unfoldable pub stored_value : External → EscrowEntry → Settings → Option Text
unfolding secret
stored_value x entry s = elim (secret entry.name s) [
  | some v ↦ some v
  | none ↦ elim entry.real_env [ none ↦ none | some var ↦ x.env_var var ]
]

unfoldable pub real_value : External → EscrowEntry → Settings → Option Text
unfolding stored_value has_session with_workos
real_value x entry s =
    Option.map (with_workos (has_session x entry.name s)) (stored_value x entry s)

unfoldable pub guest_line : EscrowEntry → Text
guest_line entry = elim entry.guest_env [
  | none ↦ []
  | some var ↦ text "export " ++ (var ++ (text "=" ++ (entry.fake ++ text "\n")))
]

unfoldable pub guest_lines : List EscrowEntry → Text
unfolding guest_line
guest_lines [] = []
guest_lines (e ∷ es) = guest_line e ++ guest_lines es

unfoldable pub guest_env_lines : Settings → Text
unfolding guest_lines
guest_env_lines s =
    text "# Friendzone fake credentials; real values stay on the host.\n" ++ guest_lines s.entries
