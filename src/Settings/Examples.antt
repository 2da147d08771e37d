-- ===== src/Settings/Examples.antt =====
-- A small escrow, to which the theorems are applied.
use friendzone.Prelude.{
  ◌≡◌, refl, ◌⊎◌, ◌↔◌, ℕ, true, false, Option, none, some, List, [], ◌∷◌, ◌++◌, ◌+◌, ◌-◌, arith,
  All, ◌==◌, if◌then◌else◌, ap, nat_eq,
}
use friendzone.Prelude.Text.{
  Text, text, text_eq, text_beq, split_once, strip_prefix, eq_ignore_ascii_case, to_ascii_lowercase,
}
use friendzone.Prelude.Map.{lookup}
use friendzone.Routing.Examples.{parse}
use friendzone.Settings.{EscrowEntry, Settings, Env, External, has_session, remove_entry}
use friendzone.Settings.Substitute.{
  pass, replace, substitute, replacement, is_cline_entry, is_cline_credential_host, matches_plainly,
  basic_username, basic_credentials, as_bytes, trim_spaces,
}
use friendzone.Settings.Pinned.{
  substitute-replace, substitute-pass, IsPassed, substitute-no_cline, IsAbsent, Replaced,
}
use friendzone.Settings.Basic.{IsBase64, replacement-basic}
use friendzone.Settings.Revoke.{IsRevoked, IsUnrevoked, remove_entry-revokes}

-- A code that shifts every byte past the space.
abbrev shift : List ℕ → Text
shift [] = []
shift (b ∷ bs) = (33 + b) ∷ shift bs

abbrev unshift : Text → List ℕ
unshift [] = []
unshift (c ∷ s) = (c - 33) ∷ unshift s

abbrev external : External
external = record {
  parse = parse;
  decode = λ t. some (unshift t);
  encode = shift;
  is_session = λ _. false;
  env_var = λ _. none;
}

unshift-shift : (b : List ℕ) → unshift (shift b) ≡ b
unshift-shift [] = refl
unshift-shift (b ∷ bs) = ground (arith, unshift-shift bs)

shift-trimmed : (b : List ℕ) → trim_spaces (shift b) ≡ shift b
unfolding trim_spaces
shift-trimmed [] = refl
shift-trimmed (b ∷ bs) = ground arith

external-IsBase64 : IsBase64 external
external-IsBase64 b = (ap some (unshift-shift b), shift-trimmed b)

abbrev entry : EscrowEntry
entry = record {
  name = text "llm";
  hosts = text "api.dev" ∷ [];
  header = text "authorization";
  prefix = text "Bearer ";
  fake = text "fz-1";
  real_env = none;
  guest_env = none;
}

abbrev escrow : Settings
escrow = record {
  entries = entry ∷ [];
  secrets = (text "llm", text "real") ∷ [];
  saved_entries = none;
  saved_secrets = [];
}

abbrev env : Env
env = record {
  saves_secrets = true;
  replaces_secrets = true;
  writes_entries = false;
  partial = none;
  new_fake = text "fz-2";
}

abbrev fake_header : Text → Option Text
fake_header name = if name == text "authorization" then some (text "Bearer fz-1") else none

abbrev own_header : Text → Option Text
own_header name = if name == text "authorization" then some (text "Bearer own") else none

substitute-replace_example :
    (before after : List EscrowEntry) × (e : EscrowEntry) × (escrow.entries ≡ before ++ (e ∷ after))
    × All (IsAbsent external escrow fake_header) before
    × Replaced external escrow
        (text "api.dev")
        fake_header
        (text "authorization")
        (text "Bearer real")
        e
unfolding substitute text lookup text_beq strip_prefix split_once
substitute-replace_example =
    substitute-replace external escrow (text "api.dev") (text "/v1") fake_header
      {header = text "authorization"} {v = text "Bearer real"} refl

substitute-no_cline_example :
    (e : EscrowEntry) × Replaced external escrow
      (text "api.dev")
      fake_header
      (text "authorization")
      (text "Bearer real")
      e
    × (is_cline_entry external e ≡ false)
    × (has_session external e.name escrow ≡ false)
unfolding substitute text lookup text_beq strip_prefix split_once is_cline_credential_host
substitute-no_cline_example =
    substitute-no_cline external escrow (text "api.dev") (text "/v1") fake_header
      {header = text "authorization"} {v = text "Bearer real"} refl refl

substitute-pass_example :
    (substitute external escrow (text "evil.dev") (text "/v1") own_header ≡ pass)
    ↔ All (IsPassed external escrow (text "evil.dev") (text "/v1") own_header) (entry ∷ [])
substitute-pass_example = substitute-pass external escrow (text "evil.dev") (text "/v1") own_header

replacement-basic_example :
    (sent : Text) × (replacement external escrow entry
        (text "Basic " ++ shift (text "me:fz-1"))
        (text "real")
      ≡ replace entry.header sent)
    × (basic_credentials external sent ≡ some (text "me", as_bytes (text "real")))
unfolding matches_plainly basic_username text text_beq strip_prefix lookup eq_ignore_ascii_case
    to_ascii_lowercase split_once
replacement-basic_example =
    replacement-basic external escrow entry (text "Basic " ++ shift (text "me:fz-1")) (text "real")
      {username = text "me"} external-IsBase64 refl refl refl refl

remove_entry-revokes_example :
    let (r, s') = remove_entry env (text "llm") escrow in
    ((true ≡ true) × IsRevoked (text "llm") (text "llm") escrow r s')
    ⊎ ((true ≡ false) × IsUnrevoked (text "llm") escrow r s')
remove_entry-revokes_example = remove_entry-revokes env (text "llm") (text "llm") escrow
