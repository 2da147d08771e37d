-- ===== src/Pushes/Reviewed.antt =====
-- No push waits for a person, is approved or is sent without a review of its bundle: the predicate,
-- and the edits that keep it.
use friendzone.Prelude.{
  ◌≡◌, refl, inl, inr, not, Bool, true, false, some, none, arith, Bool-cases, Option-cases, nat_eq,
  ◌==◌, [], ◌∷◌, All,
}
use friendzone.Prelude.Text.{Text, text_eq}
use friendzone.Prelude.Map.{Map, lookup, insert, remove}
use friendzone.Review.{Status}
use friendzone.Github.{Uuid}
use friendzone.Pushes.{Job, Env, set}

unfoldable pub needs_review : Status → Bool
needs_review Status.pending = true
needs_review Status.approved = true
needs_review Status.sending = true
needs_review Status.denied = true
needs_review _ = false

unfoldable pub is_reviewed : Job → Bool
unfolding needs_review
is_reviewed job = elim job.review [
  | none ↦ not (needs_review job.status)
  | some r ↦ r.bundle_sha256 == job.bundle_sha256
]

unfoldable pub Each : Map Uuid Job → Type 0
unfolding is_reviewed
Each jobs = All (λ e. is_reviewed (e.1) ≡ true) jobs

pub Each-insert :
    (id : Uuid) (job : Job) (jobs : Map Uuid Job)
    → is_reviewed job ≡ true
    → Each jobs
    → Each (insert id job jobs)
unfolding Each insert
Each-insert id job [] p h = (p, tt)
Each-insert id job ((i, j) ∷ jobs) p (q, h) = elim (Bool-cases (i == id)) [
  | inl y ↦ rw (y) (p, h)
  | inr n ↦ rw (n) (q, Each-insert id job jobs p h)
]

pub Each-remove : (id : Uuid) (jobs : Map Uuid Job) → Each jobs → Each (remove id jobs)
unfolding Each remove
Each-remove id [] h = tt
Each-remove id ((i, j) ∷ jobs) (q, h) = elim (Bool-cases (i == id)) [
  | inl y ↦ rw (y) (Each-remove id jobs h)
  | inr n ↦ rw (n) (q, Each-remove id jobs h)
]

pub Each-lookup :
    (id : Uuid) (job : Job) (jobs : Map Uuid Job)
    → Each jobs
    → lookup id jobs ≡ some job
    → is_reviewed job ≡ true
unfolding Each lookup
Each-lookup id job [] h l = ground arith
Each-lookup id job ((i, j) ∷ jobs) (q, h) l = ground (arith, q, Each-lookup id job jobs h)

-- A job set to a status that needs no review.
pub set-is_reviewed :
    (env : Env) (status : Status) (outcome : Text) (job : Job)
    → needs_review status ≡ false
    → is_reviewed job ≡ true
    → is_reviewed (set env status outcome job) ≡ true
unfolding set is_reviewed
set-is_reviewed env status outcome job n h = elim (Option-cases job.review) [
  | inl e ↦ rw (e, is_reviewed, n) refl
  | inr (r, e) ↦ ground arith
]
