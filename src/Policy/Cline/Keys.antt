-- ===== src/Policy/Cline/Keys.antt =====
-- No guest reaches Cline's API keys, and the basic mode is the narrower one.
use friendzone.Prelude.{
  ◌≡◌, ◌≢◌, ◌⊎◌, Bool, true, some, ◌∷◌, ◌++◌, string_eq, arith, str_eq_iff, or-true_right,
}
use friendzone.Prelude.Text.{
  Text, text_eq, text, starts_with-append, split_once-append, drop-append, NoChar, text_beq_self,
}
use friendzone.Http.{Request, UrlParser}
use friendzone.Routing.{host_matches}
use friendzone.Policy.{ClineAccess, basic, full}
use friendzone.Policy.Cline.{
  cline_api_host, allow, deny, api_keys, is_api_keys_tail, is_organization_keys,
  is_api_key_management, governed_verdict, cline_verdict,
}

-- The paths that manage keys, as the API documents them: a user's, and an organization's.
pub data IsKeyPath : Text → Type 0 where
  user : (path : Text) → path ≡ text "/api/v1/api-keys" → IsKeyPath path
  user_key : (rest path : Text) → path ≡ text "/api/v1/api-keys/" ++ rest → IsKeyPath path
  organization :
      (id path : Text)
      → NoChar b'/' id
      → path ≡ text "/api/v1/organizations/" ++ (id ++ b'/' ∷ text "api-keys")
      → IsKeyPath path
  organization_key :
      (id rest path : Text)
      → NoChar b'/' id
      → path ≡ text "/api/v1/organizations/" ++ (id ++ b'/' ∷ (text "api-keys/" ++ rest))
      → IsKeyPath path

is_organization_keys-append :
    (id tail : Text)
    → NoChar b'/' id
    → is_api_keys_tail tail ≡ true
    → is_organization_keys (text "/api/v1/organizations/" ++ (id ++ b'/' ∷ tail)) ≡ true
unfolding is_organization_keys
is_organization_keys-append id tail n h = ground (
  arith,
  drop-append (text "/api/v1/organizations/") (id ++ b'/' ∷ tail),
  split_once-append b'/' id tail n,
)

organization_keys-append :
    (id tail : Text)
    → NoChar b'/' id
    → is_api_keys_tail tail ≡ true
    → is_api_key_management (text "/api/v1/organizations/" ++ (id ++ b'/' ∷ tail)) ≡ true
unfolding is_api_key_management
organization_keys-append id tail n h = ground (
  arith,
  starts_with-append (text "/api/v1/organizations/") (id ++ b'/' ∷ tail),
  is_organization_keys-append id tail n h,
)

is_api_keys_tail-exact : is_api_keys_tail (text "api-keys") ≡ true
unfolding is_api_keys_tail
is_api_keys_tail-exact = rw (text_beq_self (text "api-keys"))

is_api_keys_tail-append : (rest : Text) → is_api_keys_tail (text "api-keys/" ++ rest) ≡ true
unfolding is_api_keys_tail
is_api_keys_tail-append rest = or-true_right _ (starts_with-append (text "api-keys/") rest)

IsKeyPath-managed : (path : Text) → IsKeyPath path → is_api_key_management path ≡ true
unfolding is_api_key_management
IsKeyPath-managed path (user _ e) = rw (e, text_beq_self (text "/api/v1/api-keys"))
IsKeyPath-managed path (user_key rest _ e) =
    rw e (ground (arith, starts_with-append (text "/api/v1/api-keys/") rest))
IsKeyPath-managed path (organization id _ n e) =
    rw e (organization_keys-append id (text "api-keys") n is_api_keys_tail-exact)
IsKeyPath-managed path (organization_key id rest _ n e) =
    rw e (organization_keys-append id (text "api-keys/" ++ rest) n (is_api_keys_tail-append rest))

module _ (parse : UrlParser) (req : Request) (is_cline_host : Text → Bool) where
  -- The request is decrypted, and its host is Cline's or one that the credential is pinned to.
  abbrev pub IsGoverned : Text → Type 0
  IsGoverned host =
      (req.method ≢ "CONNECT")
      × (req.host ≡ some host)
      × ((host_matches parse host cline_api_host ≡ true) ⊎ (is_cline_host host ≡ true))

  pub cline_verdict-governed :
      {host : Text} (access : ClineAccess)
      → IsGoverned host
      → cline_verdict parse req access is_cline_host ≡ governed_verdict req access
  unfolding cline_verdict
  cline_verdict-governed access (m, e, g) = ground (arith, str_eq_iff req.method "CONNECT")

  -- On every governed host, in every mode, a path that manages API keys is denied.
  pub cline_verdict-keys :
      {host : Text} (access : ClineAccess)
      → IsGoverned host
      → IsKeyPath req.path
      → cline_verdict parse req access is_cline_host ≡ deny api_keys
  unfolding governed_verdict
  cline_verdict-keys access g k =
      rw (cline_verdict-governed access g) (ground (arith, IsKeyPath-managed req.path k))

  -- What the basic mode forwards, the full mode forwards too.
  pub cline_verdict_mono :
      cline_verdict parse req basic is_cline_host ≡ allow
      → cline_verdict parse req full is_cline_host ≡ allow
  unfolding cline_verdict governed_verdict
  cline_verdict_mono h = ground arith
