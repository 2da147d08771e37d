-- ===== src/Pushes/Checks.antt =====
-- src/pushes.rs: the checks of a submission and of what Git says of a branch.
use friendzone.Prelude.{
  ℕ, Bool, true, false, not, ◌&&◌, ◌||◌, Option, some, List, [], ◌∷◌, ◌==◌, nat_eq, all, any,
  length, ltb, is_some,
}
use friendzone.Prelude.Text.{
  Text, text, text_eq, len, is_empty, starts_with, ends_with, split_once, is_ascii_alphanumeric,
  is_ascii_hexdigit, to_ascii_lowercase,
}
use friendzone.Prelude.Result.{Result, ok, ◌>>=◌, ◌>>◌, bail_if, context}
use friendzone.Github.Checks.{split_slash}
use friendzone.State.Log.{contains_text}
use friendzone.Pushes.{
  Submission, PushError, no_key, bad_repository, bad_branch, bad_digest, bad_oid, bad_advertisement,
}

-- `ZERO_OID`
unfoldable pub zero_oid : Text
zero_oid = text "0000000000000000000000000000000000000000"

unfoldable pub is_name_byte : ℕ → Bool
is_name_byte c = is_ascii_alphanumeric c || c == b'-' || c == b'_' || c == b'.'

unfoldable pub is_bad_part : Text → Bool
unfolding is_name_byte
is_bad_part part =
    is_empty part
    || ltb 100 (len part)
    || starts_with (text ".") part
    || ends_with (text ".") part
    || not (all is_name_byte part)

unfoldable pub validate_repository : Text → Result PushError (Unit {0})
unfolding is_bad_part
validate_repository repository =
    let parts = split_slash repository in
    bail_if (not (length parts == 2) || any is_bad_part parts) bad_repository

-- A component of a branch that Git does not accept.
unfoldable pub is_bad_component : Text → Bool
is_bad_component part =
    is_empty part
    || starts_with (text ".") part
    || ends_with (text ".") part
    || ends_with (text ".lock") part

unfoldable pub is_branch_byte : ℕ → Bool
unfolding is_name_byte
is_branch_byte c = c == b'/' || is_name_byte c

unfoldable pub is_bad_branch : Text → Bool
unfolding is_bad_component is_branch_byte
is_bad_branch branch =
    is_empty branch
    || ltb 240 (len branch)
    || starts_with (text "refs/") branch
    || starts_with (text "/") branch
    || starts_with (text ".") branch
    || ends_with (text "/") branch
    || ends_with (text ".") branch
    || contains_text (text "..") branch
    || contains_text (text "//") branch
    || contains_text (text "@{") branch
    || ends_with (text ".lock") branch
    || any is_bad_component (split_slash branch)
    || not (all is_branch_byte branch)

unfoldable pub validate_branch : Text → Result PushError (Unit {0})
unfolding is_bad_branch
validate_branch branch = bail_if (is_bad_branch branch) bad_branch

unfoldable pub validate_sha256 : Text → Result PushError (Unit {0})
validate_sha256 digest =
    bail_if (not (len digest == 64) || not (all is_ascii_hexdigit digest)) bad_digest

unfoldable pub validate_oid : Text → Bool → Result PushError (Unit {0})
unfolding zero_oid
validate_oid oid zero_allowed =
    bail_if
      (not (len oid == 40)
        || not (all is_ascii_hexdigit oid)
        || not zero_allowed && oid == zero_oid)
      bad_oid

unfoldable pub validate_submission : Submission → Result PushError (Unit {0})
unfolding validate_repository validate_branch validate_oid
validate_submission input = do
  bail_if
      (is_empty input.request_key
        || ltb 128 (len input.request_key)
        || is_empty input.session_id
        || ltb 256 (len input.session_id))
      no_key
  validate_repository input.repository
  validate_branch input.branch
  validate_oid input.base_oid false
  validate_oid input.expected_oid true

-- One line of `git ls-remote`, after what the lines before it gave.
unfoldable pub ls_remote_line : Text → Text → Option Text → Result PushError (Option Text)
unfolding validate_oid
ls_remote_line expected_ref line found = do
  parts ← context (split_once 9 line) bad_advertisement
  validate_oid (parts.0) false
  bail_if (not (parts.1 == expected_ref) || is_some found) bad_advertisement
  ok (some (to_ascii_lowercase (parts.0)))

-- `parse_ls_remote`, on the lines of the answer: the object of the one branch that it names.
unfoldable pub parse_ls_remote : Text → List Text → Option Text → Result PushError (Option Text)
unfolding ls_remote_line
parse_ls_remote expected_ref [] found = ok found
parse_ls_remote expected_ref (line ∷ lines) found =
    ls_remote_line expected_ref line found >>= λ next. parse_ls_remote expected_ref lines next
