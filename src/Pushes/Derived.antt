-- ===== src/Pushes/Derived.antt =====
-- What Git's answers must be for a review to be derived, and for a push to be verified.
use friendzone.Prelude.{
  ◌≡◌, refl, ap, subst, ◌∙◌, ◌||◌, not, true, false, none, some, Option, List, ◌==◌, arith, nat_eq,
  nat_beq_iff, option_eq,
}
use friendzone.Prelude.Text.{Text, text_eq, text_beq_iff, eq_ignore_ascii_case, to_ascii_lowercase}
use friendzone.Prelude.Result.{ok, bail_if, context}
use friendzone.Pushes.{Submission, Review, Job}
use friendzone.Pushes.Checks.{parse_ls_remote}
use friendzone.Pushes.Store.{is_review_of}
use friendzone.Pushes.Results.{bind-ok, bail-ok, context-ok, ok-inj, not-false, equal-from}
use friendzone.Pushes.Git.{
  Answers, PushAnswers, read_bundle_header, check_target, is_commit, head_reference, prepare,
  execute, expected_branch,
}

-- What a review says that Git answered about the bundle and the branch.
unfoldable pub IsDerived : Job → Answers → Review → Type 0
unfolding is_review_of
IsDerived job a r =
    (is_review_of job r ≡ true)
    × ((r.base_oid == r.head_oid) ≡ false)
    × (a.is_ancestor ≡ true)
    × ((lines : List Text) × (current : Option Text) × (a.remote_lines ≡ some lines)
        × (parse_ls_remote (head_reference job.submission.branch) lines none ≡ ok current)
        × (check_target job.submission current ≡ ok tt))

-- The review of a bundle whose header has the base `b`.
abbrev review : Job → Answers → Text → Review
review job a b = record {
  repository = job.submission.repository;
  branch = job.submission.branch;
  expected_oid = to_ascii_lowercase job.submission.expected_oid;
  base_oid = b;
  head_oid = a.head_rev;
  bundle_sha256 = a.bundle_sha256;
  bundle_bytes = job.bundle_bytes;
}

review-is_review_of :
    (job : Job) (a : Answers) (b : Text)
    → eq_ignore_ascii_case job.submission.base_oid b ≡ true
    → a.bundle_sha256 ≡ job.bundle_sha256
    → is_review_of job (review job a b) ≡ true
unfolding is_review_of
review-is_review_of job a b e d = ground (
  arith,
  e,
  text_beq_iff job.submission.repository job.submission.repository,
  text_beq_iff job.submission.branch job.submission.branch,
  text_beq_iff (to_ascii_lowercase job.submission.expected_oid)
      (to_ascii_lowercase job.submission.expected_oid),
  text_beq_iff a.bundle_sha256 job.bundle_sha256,
  nat_beq_iff job.bundle_bytes job.bundle_bytes,
)

-- A review that is derived for a job, with the digest of the job's bundle, is one that the start
-- of the broker accepts as the job's; its head is not its base but descends from it, and the
-- branch was as the submission expects.
pub prepare-derives :
    (job : Job) (a : Answers) {r : Review}
    → prepare job.submission job.bundle_bytes a ≡ ok r
    → r.bundle_sha256 ≡ job.bundle_sha256
    → IsDerived job a r
unfolding prepare IsDerived
prepare-derives job a {r} h digest =
    let (h1, e1, k1) = bind-ok (read_bundle_header a.header job.submission.branch) _ h in
    let (_, e2, k2) =
      bind-ok (bail_if (not (eq_ignore_ascii_case job.submission.base_oid h1.base_oid)) _) _ k1 in
    let (_, _, k3) = bind-ok (bail_if (not a.initialized) _) _ k2 in
    let (lines, e4, k4) = bind-ok (context a.remote_lines _) _ k3 in
    let (current, e5, k5) =
      bind-ok (parse_ls_remote (head_reference job.submission.branch) lines none) _ k4 in
    let (_, e6, k6) = bind-ok (check_target job.submission current) _ k5 in
    let (_, _, k7) = bind-ok (bail_if (not a.fetched_base) _) _ k6 in
    let (_, _, k8) =
      bind-ok (bail_if (not (a.base_rev == h1.base_oid) || not (is_commit a.base_type)) _) _ k7 in
    let (_, _, k9) = bind-ok (bail_if (not a.verified) _) _ k8 in
    let (_, _, k10) = bind-ok (bail_if (not a.imported) _) _ k9 in
    let (_, _, k11) = bind-ok (bail_if (not (a.head_rev == h1.head_oid)) _) _ k10 in
    let (_, _, k12) = bind-ok (bail_if (not (is_commit a.head_type)) _) _ k11 in
    let (_, e13, k13) = bind-ok (bail_if (h1.base_oid == a.head_rev) _) _ k12 in
    let (_, e14, k14) = bind-ok (bail_if (not a.is_ancestor) _) _ k13 in
    let (_, _, k15) = bind-ok (bail_if (not a.described) _) _ k14 in
    subst (IsDerived job a) (ok-inj refl k15) (
      review-is_review_of job a h1.base_oid (not-false _ (bail-ok _ _ e2))
          (ap (λ (r : Review). r.bundle_sha256) (ok-inj refl k15) ∙ digest),
      bail-ok _ _ e13,
      not-false _ (bail-ok _ _ e14),
      (lines, current, context-ok a.remote_lines _ e4, e5, e6),
    )

-- What `git ls-remote` says of the branch of a submission.
unfoldable pub IsBranch : Submission → Option (List Text) → Option Text → Type 0
IsBranch input answer oid =
    (lines : List Text) × (answer ≡ some lines)
    × (parse_ls_remote (head_reference input.branch) lines none ≡ ok oid)

-- What is known of a push that is verified.
unfoldable pub IsVerified : Job → PushAnswers → Type 0
unfolding IsBranch
IsVerified job a =
    (r : Review) × (job.review ≡ some r)
    × (a.bundle_sha256 ≡ some r.bundle_sha256)
    × IsBranch job.submission a.before (expected_branch job.submission)
    × IsBranch job.submission a.observed (some r.head_oid)
    × ((output : Text) × (a.push ≡ some (true, output)))

-- A push that ends well had a review, and the bundle's file had the digest of that review; the
-- branch was as the submission expects before the push, Git reported success, and afterwards the
-- branch was at the reviewed head.
pub execute-verifies :
    (job : Job) (a : PushAnswers) {out : Text} → execute job a ≡ ok out → IsVerified job a
unfolding execute IsVerified IsBranch
execute-verifies job a h =
    let (r, e1, k1) = bind-ok (context job.review _) _ h in
    let (digest, e2, k2) = bind-ok (context a.bundle_sha256 _) _ k1 in
    let (_, e3, k3) = bind-ok (bail_if (not (digest == r.bundle_sha256)) _) _ k2 in
    let (lines, e4, k4) = bind-ok (context a.before _) _ k3 in
    let (found, e5, k5) =
      bind-ok (parse_ls_remote (head_reference job.submission.branch) lines none) _ k4 in
    let (_, e6, k6) = bind-ok (bail_if (not (found == expected_branch job.submission)) _) _ k5 in
    let (output, e7, k7) = bind-ok (context a.push _) _ k6 in
    let (_, e8, k8) = bind-ok (bail_if (not output.0) _) _ k7 in
    let (after_lines, e9, k9) = bind-ok (context a.observed _) _ k8 in
    let (observed, e10, k10) =
      bind-ok (parse_ls_remote (head_reference job.submission.branch) after_lines none) _ k9 in
    let (_, e11, _) = bind-ok (bail_if (not (observed == some r.head_oid)) _) _ k10 in
    (
      r,
      context-ok job.review _ e1,
      context-ok a.bundle_sha256 _ e2
          ∙ ap some (equal-from digest r.bundle_sha256 (bail-ok _ _ e3)),
      (lines, context-ok a.before _ e4, e5 ∙ ap ok (equal-from found _ (bail-ok _ _ e6))),
      (
        after_lines,
        context-ok a.observed _ e9,
        e10 ∙ ap ok (equal-from observed _ (bail-ok _ _ e11)),
      ),
      (
        output.1,
        context-ok a.push _ e7 ∙ ap (λ b. some (b, output.1)) (not-false _ (bail-ok _ _ e8)),
      ),
    )
