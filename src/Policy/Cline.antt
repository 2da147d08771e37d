-- ===== src/Policy/Cline.antt =====
-- src/policy.rs: the gate in front of Cline's API, for each container.
pub mod Keys
pub mod Allowlist
use mathlib.Core.Option
use friendzone.Prelude.{
  ℕ, String, Bool, true, false, not, ◌&&◌, ◌||◌, Option, none, some, ◌==◌, string_eq, drop, length,
  is_some_and, if◌then◌else◌,
}
use friendzone.Prelude.Text.{
  Text, text_eq, text, is_empty, starts_with, strip_prefix, split_once, eq_ignore_ascii_case,
}
use friendzone.Http.{Request, HeaderValue, UrlParser}
use friendzone.Routing.{host_matches}
use friendzone.Policy.{ClineAccess, basic, full, is_read_method}

-- `CLINE_API_HOST`
unfoldable pub cline_api_host : Text
cline_api_host = text "api.cline.bot"

-- Why a request is denied; the source's three messages.
pub data Reason : Type 0 where
  api_keys cloud_session not_basic : Reason

-- `ClineVerdict`. `synthetic` answers with an empty list of sessions.
pub data ClineVerdict : Type 0 where
  allow : ClineVerdict
  deny : Reason → ClineVerdict
  synthetic : ClineVerdict

-- `tail == "api-keys" || tail.starts_with("api-keys/")`
unfoldable pub is_api_keys_tail : Text → Bool
is_api_keys_tail tail = tail == text "api-keys" || starts_with (text "api-keys/") tail

-- The block after `path.starts_with("/api/v1/organizations/")`.
unfoldable pub is_organization_keys : Text → Bool
unfolding is_api_keys_tail
is_organization_keys path =
    elim (split_once b'/' (drop (length (text "/api/v1/organizations/")) path)) [
      | none ↦ false
      | some (_, tail) ↦ is_api_keys_tail tail
    ]

unfoldable pub is_api_key_management : Text → Bool
unfolding is_organization_keys
is_api_key_management path =
    path == text "/api/v1/api-keys"
    || path == text "/api/v1/api-keys/"
    || starts_with (text "/api/v1/api-keys/") path
    || starts_with (text "/api/v1/organizations/") path && is_organization_keys path

-- `Some((id, "balance" | "usages" | "payments")) if !id.is_empty() && id != "me"`
unfoldable pub is_user_report : Option (Text × Text) → Bool
is_user_report none = false
is_user_report (some (id, tail)) =
    (tail == text "balance" || tail == text "usages" || tail == text "payments")
    && not (is_empty id)
    && not (id == text "me")

-- `Some((member, "usages")) if !member.is_empty()`
unfoldable pub is_member_report : Option (Text × Text) → Bool
is_member_report none = false
is_member_report (some (member, tail)) = tail == text "usages" && not (is_empty member)

-- The paths below one organization, cut at the first slash.
unfoldable pub segment_allows : Bool → Text → Text → Bool
unfolding is_member_report
segment_allows read id tail =
    if is_empty id
    then false
    else if tail == text "balance"
    then read
    else elim (strip_prefix (text "members/") tail) [
      | none ↦ false
      | some member_rest ↦ read && is_member_report (split_once b'/' member_rest)
    ]

-- The paths below `/api/v1/organizations/`.
unfoldable pub organization_allows : Bool → Text → Bool
unfolding segment_allows
organization_allows read rest = elim (split_once b'/' rest) [
  | none ↦ read && not (is_empty rest)
  | some (id, tail) ↦ segment_allows read id tail
]

-- The last arm of `basic_allows`.
unfoldable pub account_allows : Bool → Text → Bool
unfolding is_user_report organization_allows
account_allows read path = elim (strip_prefix (text "/api/v1/users/") path) [
  | some rest ↦ read && is_user_report (split_once b'/' rest)
  | none ↦ elim (strip_prefix (text "/api/v1/organizations/") path) [
    | some rest ↦ organization_allows read rest
    | none ↦ false
  ]
]

unfoldable pub basic_allows : String → Text → Bool
unfolding account_allows is_read_method
basic_allows method path =
    let read = is_read_method method in
    if path == text "/"
    then method == "HEAD"
    else if path == text "/banners/v2/messages" || path == text "/api/v1/users/me/remote-config"
    then method == "GET"
    else if path == text "/api/v1/chat/completions" || path == text "/api/v1/images"
    then method == "POST"
    else if path == text "/api/v1/search/websearch" || path == text "/api/v1/search/webfetch"
    then method == "POST"
    else if path == text "/api/v1/ai/cline/recommended-models"
    then read
    else if path == text "/api/v1/users/me" || path == text "/api/v1/users/me/plan"
    then read
    else if path == text "/api/v1/users/active-account"
    then method == "PUT"
    else account_allows read path

-- The test for a WebSocket upgrade.
unfoldable pub is_upgrade : Request → Bool
is_upgrade req = elim (req.header "upgrade") [
  | none ↦ false
  | some value ↦ is_some_and value (λ v. eq_ignore_ascii_case v (text "websocket"))
]

-- What the basic mode says of a request to a governed host.
unfoldable pub basic_verdict : Request → ClineVerdict
unfolding is_upgrade
basic_verdict req =
    if is_upgrade req
    then deny cloud_session
    else if (req.path == text "/api/v1/session" || req.path == text "/api/v1/session/")
        && (req.method == "GET" || req.method == "HEAD")
    then synthetic
    else if basic_allows req.method req.path
    then allow
    else deny not_basic

unfoldable pub governed_verdict : Request → ClineAccess → ClineVerdict
unfolding is_api_key_management
governed_verdict req access =
    if is_api_key_management req.path
    then deny api_keys
    else elim access [ full ↦ allow | basic ↦ basic_verdict req ]

module _ (parse : UrlParser) where
  -- `cline_verdict`; the last argument tells the hosts that a Cline credential is pinned to.
  unfoldable pub cline_verdict : Request → ClineAccess → (Text → Bool) → ClineVerdict
  unfolding governed_verdict
  cline_verdict req access is_cline_host =
      if req.method == "CONNECT" then allow else elim req.host [
        | none ↦ allow
        | some host ↦
            if not (host_matches parse host cline_api_host) && not (is_cline_host host)
            then allow
            else governed_verdict req access
      ]
