-- ===== src/Github/Checks.antt =====
-- `Target::validate`, `validate_repository` and `Grant::validate` of src/github.rs.
use friendzone.Prelude.{
  ℕ, Bool, not, ◌||◌, Option, none, some, List, [], ◌∷◌, ◌++◌, ◌==◌, string_eq, nat_eq, ltb, length,
  all, any, if◌then◌else◌,
}
use friendzone.Prelude.Text.{
  Text, text, text_eq, is_empty, is_ascii_alphanumeric, is_ascii_hexdigit, len, decimal,
}
use friendzone.Prelude.Result.{Result, ◌>>=◌, ◌>>◌, bail_if, context}
use friendzone.Github.{Target, Grant}

pub data CheckError : Type 0 where
  bad_metadata bad_repository not_issue_or_pull bad_url bad_binding : CheckError

-- One more character in front of the pieces of a text.
push_front : ℕ → List Text → List Text
push_front c [] = (c ∷ []) ∷ []
push_front c (piece ∷ pieces) = if c == b'/' then [] ∷ piece ∷ pieces else (c ∷ piece) ∷ pieces

-- `s.split('/')`: the pieces between the slashes, one more than there are slashes.
unfoldable pub split_slash : Text → List Text
unfolding push_front
split_slash [] = [] ∷ []
split_slash (c ∷ s) = push_front c (split_slash s)

is_name_byte : ℕ → Bool
is_name_byte c = is_ascii_alphanumeric c || c == b'-' || c == b'_' || c == b'.'

is_bad_part : Text → Bool
is_bad_part part =
    is_empty part || part == text "." || part == text ".." || not (all is_name_byte part)

unfoldable pub validate_repository : Text → Result CheckError (Unit {0})
unfolding split_slash is_bad_part is_name_byte
validate_repository repository =
    let parts = split_slash repository in
    bail_if (not (length parts == 2) || any is_bad_part parts) bad_repository

-- The path segment of a kind of target.
url_segment : Text → Option Text
url_segment kind =
    if kind == text "Issue"
    then some (text "issues")
    else if kind == text "PullRequest"
    then some (text "pull")
    else none

expected_url : Target → Text → Text
expected_url t segment =
    text "https://github.com/" ++ (t.repository ++ b'/' ∷ (segment ++ b'/' ∷ decimal t.number))

-- `Target::validate`
unfoldable pub validate_target : Target → Result CheckError (Unit {0})
unfolding validate_repository url_segment expected_url
validate_target t = do
  bail_if
      (is_empty t.node_id
        || ltb 512 (len t.node_id)
        || is_empty t.repository_id
        || ltb 512 (len t.repository_id)
        || t.number == 0
        || ltb 4096 (len t.title))
      bad_metadata
  validate_repository t.repository
  segment ← context (url_segment t.kind) not_issue_or_pull
  bail_if (not (t.url == expected_url t segment)) bad_url

-- `Grant::validate`
unfoldable pub validate_grant : Grant → Result CheckError (Unit {0})
unfolding validate_target
validate_grant g = do
  validate_target g.target
  bail_if
      (is_empty g.binding.entry
        || not (len g.binding.digest == 64)
        || not (all is_ascii_hexdigit g.binding.digest))
      bad_binding
