-- ===== src/Pushes/Letters.antt =====
-- The object IDs of a submission in upper case, which the check of the branch refuses.
use friendzone.Prelude.{
  ◌≡◌, ◌≢◌, refl, sym, ◌||◌, subst, ◌∙◌, inl, inr, not, false, Option, some, none, List, [], ◌∷◌,
  ◌==◌, ℕ, arith, Bool-cases, is_some, option_eq,
}
use friendzone.Prelude.Text.{
  Text, text, text_eq, text_beq_iff, split_once, to_ascii_lowercase, eq_ignore_ascii_case,
}
use friendzone.Prelude.Result.{ok, bail_if, context}
use friendzone.Pushes.{Submission, Review, bad_advertisement, bad_remote}
use friendzone.Pushes.Checks.{ls_remote_line, parse_ls_remote, validate_oid, zero_oid}
use friendzone.Pushes.Git.{Answers, prepare, check_target, read_bundle_header, head_reference}
use friendzone.Pushes.Results.{bind-ok, bail-ok, ok-inj, equal-from}

lower_twice : (s : Text) → to_ascii_lowercase (to_ascii_lowercase s) ≡ to_ascii_lowercase s
unfolding to_ascii_lowercase
lower_twice [] = refl
lower_twice (c ∷ s) = ground (arith, lower_twice s)

-- An object ID, if there is one, that is in lower case.
abbrev IsLower : Option Text → Type 0
IsLower none = Unit
IsLower (some oid) = to_ascii_lowercase oid ≡ oid

ls_remote_line-IsLower :
    (expected line : Text) (found : Option Text) {next : Option Text}
    → ls_remote_line expected line found ≡ ok next
    → IsLower next
unfolding ls_remote_line
ls_remote_line-IsLower expected line found h =
    let (parts, _, k1) = bind-ok (context (split_once 9 line) bad_advertisement) _ h in
    let (_, _, k2) = bind-ok (validate_oid parts.0 false) _ k1 in
    let (_, _, k3) = bind-ok (bail_if (not (parts.1 == expected) || is_some found) _) _ k2 in
    subst IsLower (ok-inj refl k3) (lower_twice parts.0)

parse_ls_remote-IsLower :
    (expected : Text) (lines : List Text) (found : Option Text) {oid : Option Text}
    → IsLower found
    → parse_ls_remote expected lines found ≡ ok oid
    → IsLower oid
unfolding parse_ls_remote
parse_ls_remote-IsLower expected [] found l h = subst IsLower (ok-inj refl h) l
parse_ls_remote-IsLower expected (line ∷ lines) found l h =
    let (next, e, k) = bind-ok (ls_remote_line expected line found) _ h in
    parse_ls_remote-IsLower expected lines next (ls_remote_line-IsLower expected line found e) k

zero_lower : to_ascii_lowercase zero_oid ≡ zero_oid
unfolding to_ascii_lowercase zero_oid text
zero_lower = refl

check_target-lower :
    (input : Submission) (current : Option Text)
    → IsLower current
    → check_target input current ≡ ok tt
    → to_ascii_lowercase input.expected_oid ≡ input.expected_oid
unfolding check_target
check_target-lower input current l h = elim (Bool-cases (input.expected_oid == zero_oid)) [
  | inl y ↦
      let z = (text_beq_iff input.expected_oid zero_oid).0 y in
      subst (λ o. to_ascii_lowercase o ≡ o) (sym z) zero_lower
  | inr n ↦
      let p : check_target input current
          ≡ bail_if (not (current == some input.expected_oid)) bad_remote =
        rw (n, check_target) refl in
      subst IsLower (equal-from current (some input.expected_oid) (bail-ok _ _ (sym p ∙ h))) l
]

-- No answers of Git give a review to a submission whose expected object ID is not in lower case.
pub prepare-refuses_upper :
    (input : Submission) (n : ℕ) (a : Answers) (r : Review)
    → to_ascii_lowercase input.expected_oid ≢ input.expected_oid
    → prepare input n a ≢ ok r
unfolding prepare
prepare-refuses_upper input n a r u h =
    let (h1, _, k1) = bind-ok (read_bundle_header a.header input.branch) _ h in
    let (_, _, k2) =
      bind-ok (bail_if (not (eq_ignore_ascii_case input.base_oid h1.base_oid)) _) _ k1 in
    let (_, _, k3) = bind-ok (bail_if (not a.initialized) _) _ k2 in
    let (lines, _, k4) = bind-ok (context a.remote_lines _) _ k3 in
    let (current, e5, k5) =
      bind-ok (parse_ls_remote (head_reference input.branch) lines none) _ k4 in
    let (_, e6, _) = bind-ok (check_target input current) _ k5 in
    u (
      check_target-lower input current
        (parse_ls_remote-IsLower (head_reference input.branch) lines none tt e5) e6)
