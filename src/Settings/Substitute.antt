-- ===== src/Settings/Substitute.antt =====
-- `Settings::substitute`, and the tests on which it stands.
use friendzone.Prelude.{
  ℕ, Bool, not, ◌&&◌, ◌||◌, Option, none, some, List, [], ◌∷◌, ◌++◌, ◌==◌, any, leb, nat_eq,
  is_some, is_some_and, if◌then◌else◌, unwrap_or, ◌+◌,
}
use Prim.Native.Nat.{◌/◌, ◌%◌}
use friendzone.Prelude.Text.{
  Text, text_eq, text, is_empty, strip_prefix, split_once, eq_ignore_ascii_case,
}
use friendzone.Routing.{host_matches}
use friendzone.Policy.Cline.{cline_api_host}
use friendzone.Settings.{EscrowEntry, Settings, External, has_session, real_value}

-- The reasons of a refusal, with what their messages name.
pub data Refusal : Type 0 where
  refresh_is_host_owned : Refusal
  not_pinned : Text → Text → Refusal
  no_real_value : Text → Refusal
  not_basic_value : Text → Refusal

-- `Substitution`
pub data Substitution : Type 0 where
  pass : Substitution
  replace : Text → Text → Substitution
  block : Refusal → Substitution

-- `entry.hosts.iter().any(|h| host_matches(h, host))`
unfoldable pub is_pinned : External → EscrowEntry → Text → Bool
unfolding host_matches
is_pinned x entry host = any (λ h. host_matches x.parse h host) entry.hosts

unfoldable pub is_cline_entry : External → EscrowEntry → Bool
unfolding host_matches cline_api_host
is_cline_entry x entry = any (λ h. host_matches x.parse h cline_api_host) entry.hosts

unfoldable pub is_cline_credential_host : External → Settings → Text → Bool
unfolding is_cline_entry is_pinned has_session
is_cline_credential_host x s host =
    any (λ e. (is_cline_entry x e || has_session x e.name s) && is_pinned x e host) s.entries

-- The UTF-8 form of a code point, and of a text (`as_bytes`).
unfoldable pub utf8 : ℕ → List ℕ
utf8 c =
    if leb c 0x7f
    then c ∷ []
    else if leb c 0x7ff
    then (0xc0 + c / 0x40) ∷ (0x80 + c % 0x40) ∷ []
    else if leb c 0xffff
    then (0xe0 + c / 0x1000) ∷ (0x80 + c / 0x40 % 0x40) ∷ (0x80 + c % 0x40) ∷ []
    else (0xf0 + c / 0x40000)
      ∷ (0x80 + c / 0x1000 % 0x40)
      ∷ (0x80 + c / 0x40 % 0x40)
      ∷ (0x80 + c % 0x40)
      ∷ []

unfoldable pub as_bytes : Text → List ℕ
unfolding utf8
as_bytes [] = []
as_bytes (c ∷ s) = utf8 c ++ as_bytes s

-- `u8::is_ascii_control`
unfoldable pub is_ascii_control : ℕ → Bool
is_ascii_control c = leb c 31 || c == 127

-- `trim_start_matches(' ')`
unfoldable pub trim_spaces : Text → Text
trim_spaces [] = []
trim_spaces (c ∷ s) = let rest = trim_spaces s in if c == b' ' then rest else c ∷ s

unfoldable pub basic_credentials : External → Text → Option (List ℕ × List ℕ)
unfolding is_ascii_control trim_spaces text
basic_credentials x value = elim (split_once b' ' value) [
  | none ↦ none
  | some (scheme, encoded) ↦
      if not (eq_ignore_ascii_case scheme (text "Basic"))
      then none
      else elim (x.decode (trim_spaces encoded)) [
        | none ↦ none
        | some decoded ↦ if any is_ascii_control decoded then none else split_once b':' decoded
      ]
]

unfoldable pub github_token_matches : External → EscrowEntry → Text → Bool
unfolding is_pinned text
github_token_matches x entry value =
    eq_ignore_ascii_case entry.header (text "authorization")
    && entry.prefix == text "Bearer "
    && is_pinned x entry (text "api.github.com")
    && is_some_and (split_once b' ' value) (λ p.
      eq_ignore_ascii_case (p.0) (text "token") && not (is_empty entry.fake) && p.1 == entry.fake)

-- The username of Basic credentials whose password is the fake.
unfoldable pub basic_username : External → EscrowEntry → Text → Option (List ℕ)
unfolding basic_credentials as_bytes text
basic_username x entry value =
    if eq_ignore_ascii_case entry.header (text "authorization")
    then elim (basic_credentials x value) [
      | none ↦ none
      | some (username, password) ↦
          if not (is_empty entry.fake) && password == as_bytes entry.fake
          then some username
          else none
    ]
    else none

-- `literal_match || oauth_facade_match || github_token`
unfoldable pub matches_plainly : External → Settings → EscrowEntry → Text → Bool
unfolding has_session github_token_matches text
matches_plainly x s entry value =
    let presented = unwrap_or (strip_prefix entry.prefix value) value in
    presented == entry.fake
    || has_session x entry.name s
      && is_some_and (strip_prefix (text "workos:") presented) (λ token. token == entry.fake)
    || github_token_matches x entry value

-- The replacement, once the real value is known.
unfoldable pub replacement : External → Settings → EscrowEntry → Text → Text → Substitution
unfolding matches_plainly basic_username is_ascii_control as_bytes text
replacement x s entry value real =
    if matches_plainly x s entry value
    then replace entry.header (entry.prefix ++ real)
    else if is_empty real || any is_ascii_control (as_bytes real)
    then block (not_basic_value entry.name)
    else replace entry.header (
        text "Basic "
        ++ x.encode (unwrap_or (basic_username x entry value) [] ++ (b':' ∷ as_bytes real)))

-- What a fake that was presented leads to.
unfoldable pub resolve : External → Settings → Text → EscrowEntry → Text → Substitution
unfolding is_pinned real_value replacement
resolve x s host entry value =
    if not (is_pinned x entry host)
    then block (not_pinned entry.name host)
    else elim (real_value x entry s) [
      | none ↦ block (no_real_value entry.name)
      | some real ↦ replacement x s entry value real
    ]

-- A header that carries the entry's fake in one of the four ways.
unfoldable pub carries_fake : External → Settings → EscrowEntry → Text → Bool
unfolding matches_plainly basic_username
carries_fake x s entry value =
    matches_plainly x s entry value || is_some (basic_username x entry value)

-- A refresh of a session that the host owns.
unfoldable pub is_owned_refresh : External → Settings → Text → Text → EscrowEntry → Bool
unfolding has_session is_pinned text
is_owned_refresh x s host path entry =
    has_session x entry.name s && path == text "/api/v1/auth/refresh" && is_pinned x entry host

-- The loop over the entries.
unfoldable pub substitute_in :
    External → Settings → Text → Text → (Text → Option Text) → List EscrowEntry → Substitution
unfolding is_owned_refresh carries_fake resolve
substitute_in x s host path get_header [] = pass
substitute_in x s host path get_header (entry ∷ entries) =
    let rest = substitute_in x s host path get_header entries in
    if is_owned_refresh x s host path entry
    then block refresh_is_host_owned
    else elim (get_header entry.header) [
      | none ↦ rest
      | some value ↦ if carries_fake x s entry value then resolve x s host entry value else rest
    ]

unfoldable pub substitute : External → Settings → Text → Text → (Text → Option Text) → Substitution
unfolding substitute_in
substitute x s host path get_header = substitute_in x s host path get_header s.entries
