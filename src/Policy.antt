-- ===== src/Policy.antt =====
-- src/policy.rs: which requests flow and which wait for a review.
pub mod Cline
mod Examples
use friendzone.Prelude.{
  ℕ, String, Bool, true, false, not, ◌&&◌, ◌||◌, Option, none, some, List, [], ◌∷◌, ◌==◌, string_eq,
  any, if◌then◌else◌,
}
use friendzone.Prelude.Text.{Text, text, ends_with}
use friendzone.Http.{Request, UrlParser}
use friendzone.Routing.{host_matches}

pub data Access : Type 0 where
  read write : Access

pub data Decision : Type 0 where
  unpoliced allow_read allow_all require_review : Decision

pub data GithubPolicy : Type 0 where
  review allow_all : GithubPolicy

-- `state::ClineAccess`: what a guest may do on Cline's API host.
pub data ClineAccess : Type 0 where
  basic full : ClineAccess

-- `GithubPolicy::allows_all`
abbrev pub allows_all : GithubPolicy → Bool
allows_all GithubPolicy.review = false
allows_all GithubPolicy.allow_all = true

unfoldable pub github_hosts : List Text
github_hosts =
    text "github.com"
    ∷ text "api.github.com"
    ∷ text "codeload.github.com"
    ∷ text "raw.githubusercontent.com"
    ∷ text "objects.githubusercontent.com"
    ∷ text "uploads.github.com"
    ∷ []

-- `matches!(method, "GET" | "HEAD" | "OPTIONS")`
unfoldable pub is_read_method : String → Bool
is_read_method m = m == "GET" || m == "HEAD" || m == "OPTIONS"

unfoldable pub github_access : Request → Access
unfolding is_read_method
github_access req =
    if is_read_method req.method
    then read
    else if req.method == "POST" && ends_with (text "/git-upload-pack") req.path
    then read
    else write

abbrev of_access : Access → Decision
of_access read = allow_read
of_access write = require_review

module _ (parse : UrlParser) where
  unfoldable pub is_github_host : Text → Bool
  is_github_host host = any (λ github. host_matches parse host github) github_hosts

  unfoldable pub classify_host : Request → GithubPolicy → Text → Decision
  unfolding github_access is_read_method is_github_host
  classify_host req policy host =
      if host_matches parse host (text "api.linear.app")
      then (if is_read_method req.method then allow_read else require_review)
      else if not (is_github_host host)
      then unpoliced
      else if allows_all policy
      then Decision.allow_all
      else of_access (github_access req)

  unfoldable pub classify : Request → GithubPolicy → Decision
  unfolding classify_host
  classify req policy =
      if req.method == "CONNECT"
      then unpoliced
      else elim req.host [ none ↦ unpoliced | some host ↦ classify_host req policy host ]

-- `note`: the explanation shown for a decision.
unfoldable pub note : Decision → Option String
note require_review =
    some "friendzone: this write requires review; this request format is not reviewable"
note _ = none
