-- ===== src/Pushes/Git.antt =====
-- src/pushes.rs: what is made of the answers of Git: a bundle's header, the review that is derived from
-- a bundle, and the push of a reviewed head. The commands themselves run outside the repository.
use friendzone.Prelude.{
  ℕ, Bool, false, not, ◌||◌, Option, none, some, List, [], ◌∷◌, ◌++◌, ◌==◌, nat_eq, option_eq,
  if◌then◌else◌, is_some,
}
use friendzone.Prelude.Text.{
  Text, text, text_eq, is_empty, split_once, to_ascii_lowercase, eq_ignore_ascii_case,
}
use friendzone.Prelude.Result.{Result, ok, err, ◌>>=◌, ◌>>◌, bail_if, context}
use friendzone.Pushes.{
  Submission, Review, Job, PushError, bad_bundle, bad_header, bad_remote, git_failed, not_published,
  no_review,
}
use friendzone.Pushes.Checks.{validate_oid, zero_oid, parse_ls_remote}

-- `BundleHeader`
pub record BundleHeader : Type 0 where
  pub base_oid : Text
  pub head_oid : Text
  pub reference : Text

-- What the lines of a header have declared so far.
pub record Declared : Type 0 where
  pub prerequisite : Option Text
  pub reference : Option (Text × Text)

-- `rest.split_once(' ').map_or(rest, |(oid, _)| oid)`
unfoldable pub first_word : Text → Text
first_word rest = elim (split_once b' ' rest) [ none ↦ rest | some (oid, _) ↦ oid ]

unfoldable pub prerequisite_line : Text → Declared → Result PushError Declared
unfolding first_word validate_oid
prerequisite_line rest d = do
  validate_oid (first_word rest) false
  bail_if (is_some d.prerequisite) bad_header
  ok (record d { prerequisite = some (to_ascii_lowercase (first_word rest)) })

unfoldable pub reference_line : Text → Declared → Result PushError Declared
unfolding validate_oid
reference_line line d = do
  parts ← context (split_once b' ' line) bad_header
  validate_oid (parts.0) false
  bail_if (is_some d.reference) bad_header
  ok (record d { reference = some (to_ascii_lowercase (parts.0), parts.1) })

unfoldable pub header_line : Text → Declared → Result PushError Declared
unfolding prerequisite_line reference_line
header_line [] d = ok d
header_line (c ∷ rest) d =
    if c == b'-' then prerequisite_line rest d else reference_line (c ∷ rest) d

unfoldable pub header_lines : List Text → Declared → Result PushError Declared
unfolding header_line
header_lines [] d = ok d
header_lines (line ∷ lines) d = header_line line d >>= λ next. header_lines lines next

unfoldable pub head_reference : Text → Text
unfolding text
head_reference branch = text "refs/heads/" ++ branch

-- `read_bundle_header`, on the lines up to the empty line, if the file has one in its first 64 KiB.
unfoldable pub read_bundle_header : Option (List Text) → Text → Result PushError BundleHeader
unfolding header_lines head_reference text
read_bundle_header none branch = err bad_header
read_bundle_header (some []) branch = err bad_header
read_bundle_header (some (first ∷ lines)) branch = do
  bail_if (not (first == text "# v2 git bundle")) bad_header
  d ← header_lines lines (record { prerequisite = none; reference = none })
  base_oid ← context d.prerequisite bad_header
  r ← context d.reference bad_header
  bail_if (not (r.1 == head_reference branch)) bad_header
  ok (record { base_oid = base_oid; head_oid = r.0; reference = r.1 })

-- The answers of Git in `prepare_remote`; a command that fails gives `none` or `false`.
pub record Answers : Type 0 where
  pub header : Option (List Text)
  pub bundle_sha256 : Text
  pub initialized : Bool
  pub remote_lines : Option (List Text)
  pub fetched_base : Bool
  pub base_rev : Text
  pub base_type : Text
  pub verified : Bool
  pub imported : Bool
  pub head_rev : Text
  pub head_type : Text
  pub is_ancestor : Bool
  pub described : Bool

unfoldable pub is_commit : Text → Bool
is_commit t = t == text "commit"

-- The target branch is as the submission expects it.
unfoldable pub check_target : Submission → Option Text → Result PushError (Unit {0})
unfolding zero_oid
check_target input current =
    if input.expected_oid == zero_oid
    then bail_if (is_some current) bad_remote
    else bail_if (not (current == some input.expected_oid)) bad_remote

-- `prepare_remote`: the review of a bundle. `described` is the success of the checks of the objects and
-- of the reading of commits, files and patch.
unfoldable pub prepare : Submission → ℕ → Answers → Result PushError Review
unfolding read_bundle_header check_target is_commit head_reference
prepare input bundle_bytes a = do
  h ← read_bundle_header a.header input.branch
  bail_if (not (eq_ignore_ascii_case input.base_oid h.base_oid)) bad_bundle
  bail_if (not a.initialized) git_failed
  lines ← context a.remote_lines git_failed
  current ← parse_ls_remote (head_reference input.branch) lines none
  check_target input current
  bail_if (not a.fetched_base) git_failed
  bail_if (not (a.base_rev == h.base_oid) || not (is_commit a.base_type)) bad_bundle
  bail_if (not a.verified) git_failed
  bail_if (not a.imported) git_failed
  bail_if (not (a.head_rev == h.head_oid)) bad_bundle
  bail_if (not (is_commit a.head_type)) bad_bundle
  bail_if (h.base_oid == a.head_rev) bad_bundle
  bail_if (not a.is_ancestor) bad_bundle
  bail_if (not a.described) bad_bundle
  ok (record {
    repository = input.repository;
    branch = input.branch;
    expected_oid = to_ascii_lowercase input.expected_oid;
    base_oid = h.base_oid;
    head_oid = a.head_rev;
    bundle_sha256 = a.bundle_sha256;
    bundle_bytes = bundle_bytes;
  })

-- The answers in `execute_remote`: the digest of the bundle's file, the branch before the push,
-- whether the push succeeds with its redacted output, and the branch after it.
pub record PushAnswers : Type 0 where
  pub bundle_sha256 : Option Text
  pub before : Option (List Text)
  pub push : Option (Bool × Text)
  pub observed : Option (List Text)

-- `(expected_oid != ZERO_OID).then_some(expected_oid)`
unfoldable pub expected_branch : Submission → Option Text
unfolding zero_oid
expected_branch input = if input.expected_oid == zero_oid then none else some input.expected_oid

-- `execute_remote`
unfoldable pub execute : Job → PushAnswers → Result PushError Text
unfolding head_reference expected_branch text
execute job a = do
  r ← context job.review no_review
  digest ← context a.bundle_sha256 git_failed
  bail_if (not (digest == r.bundle_sha256)) bad_bundle
  lines ← context a.before git_failed
  before ← parse_ls_remote (head_reference job.submission.branch) lines none
  bail_if (not (before == expected_branch job.submission)) bad_remote
  output ← context a.push git_failed
  bail_if (not (output.0)) not_published
  after_lines ← context a.observed git_failed
  observed ← parse_ls_remote (head_reference job.submission.branch) after_lines none
  bail_if (not (observed == some r.head_oid)) not_published
  ok (
      if is_empty (output.1)
      then text "Verified " ++ (head_reference job.submission.branch ++ (text " at " ++ r.head_oid))
      else output.1
        ++ (10
            ∷ (text "Verified "
                ++ (head_reference job.submission.branch ++ (text " at " ++ r.head_oid)))))

-- The lease of the push, and what it pushes: the branch must still be what the submission expects.
unfoldable pub push_arguments : Job → List Text
unfolding head_reference zero_oid text
push_arguments job =
    let target = head_reference job.submission.branch in
    (text "--force-with-lease="
      ++ (target
          ++ (b':'
              ∷ (if job.submission.expected_oid == zero_oid
                  then []
                  else job.submission.expected_oid))))
    ∷ (text "refs/friendzone/head:" ++ target)
    ∷ []
