-- ===== src/Pushes/Store.antt =====
-- src/pushes.rs: the store of the pushes, its transactions, its start and its pruning.
use friendzone.Prelude.{
  ℕ, zero, suc, ◌+◌, ◌-◌, ◌^◌, Bool, true, false, not, ◌&&◌, ◌||◌, Option, none, some, List, [],
  ◌∷◌, ◌==◌, nat_eq, leb, ltb, length, any, filter, if◌then◌else◌, wrapping_inc, min,
}
use friendzone.Prelude.Text.{Text, text, text_eq, eq_ignore_ascii_case, to_ascii_lowercase}
use friendzone.Prelude.Map.{Map, lookup, remove, map_values}
use friendzone.Prelude.Result.{Result, ok, err, ◌>>=◌, ◌>>◌, bail_if, context}
use friendzone.Storage.{Directory, atomic_write}
use friendzone.Github.{Uuid, Binding}
use friendzone.Review.{Status}
use friendzone.Jobs.Credential.{Crypto, hashed}
use friendzone.Pushes.{
  Submission, Review, Artifact, Job, Saved, Pushes, Env, PushError, too_large, not_saved,
  no_capacity, out_of_fuel, too_many_jobs, wrong_id, size_overflow, over_storage, bad_bundle,
  no_artifact, wrong_artifact, broken_integrity, wrong_review, no_review, unsupported, not_read,
  set, automatically_removable, max_bundle, max_storage, max_metadata, max_jobs,
}
use friendzone.Pushes.Checks.{validate_submission, validate_sha256}

unfoldable pub empty_saved : Saved
empty_saved = record { version = 2; jobs = [] }

-- `Pushes::new`
unfoldable pub new : Pushes
unfolding empty_saved
new = record { current = empty_saved; path = none; artifacts = none; changes = 0 }

unfoldable pub replace : Saved → Pushes → Pushes
replace next s = record s { current = next; changes = wrapping_inc s.changes }

-- What a transaction does with the data that its edit leaves: the file is written first.
unfoldable pub commit : {T : Type 0} → Env → T → Saved → Pushes → Result PushError T × Pushes
unfolding replace atomic_write
commit env t next s = if ltb max_metadata (env.size next) then (err too_large, s) else elim s.path [
  | none ↦ (ok t, replace next s)
  | some dir ↦
      let (written, dir') = atomic_write env.faults next dir in
      let s' : Pushes = record s { path = some dir' } in
      elim written [ ok _ ↦ (ok t, replace next s') | err _ ↦ (err not_saved, s') ]
]

unfoldable pub transaction :
    {T : Type 0}
    → Env
    → (Saved → Result PushError (T × Saved))
    → Pushes
    → Result PushError T × Pushes
unfolding commit
transaction env edit s = elim (edit s.current) [
  | err e ↦ (err e, s)
  | ok (t, next) ↦ commit env t next s
]

-- `fingerprint`
unfoldable pub fingerprint : Crypto → Submission → Text → Binding → Text
unfolding hashed
fingerprint x input bundle_sha256 binding = x.sha256 (
    hashed (
      input.repository ∷ input.branch ∷ input.base_oid ∷ input.expected_oid ∷ bundle_sha256
      ∷ binding.entry ∷ binding.digest ∷ []))

-- Whether a review is that of its request.
unfoldable pub is_review_of : Job → Review → Bool
is_review_of job r =
    r.repository == job.submission.repository
    && r.branch == job.submission.branch
    && eq_ignore_ascii_case job.submission.base_oid r.base_oid
    && r.expected_oid == to_ascii_lowercase job.submission.expected_oid
    && r.bundle_sha256 == job.bundle_sha256
    && r.bundle_bytes == job.bundle_bytes

-- `Status::Preparing | Status::Blocked | Status::Cancelled`
unfoldable pub needs_no_review : Status → Bool
needs_no_review Status.preparing = true
needs_no_review Status.blocked = true
needs_no_review Status.cancelled = true
needs_no_review _ = false

unfoldable pub check_review : Job → Result PushError (Unit {0})
unfolding is_review_of needs_no_review
check_review job = elim job.review [
  | none ↦ bail_if (not (needs_no_review job.status)) no_review
  | some r ↦ bail_if (not (is_review_of job r)) wrong_review
]

-- The job's bundle, which must be there with its length and digest.
unfoldable pub check_artifact : Crypto → Option Artifact → Job → Result PushError (Unit {0})
unfolding fingerprint
check_artifact x artifact job = do
  a ← context artifact no_artifact
  bail_if (not (a.bytes == job.bundle_bytes)) wrong_artifact
  validate_sha256 job.bundle_sha256
  bail_if
      (not (a.sha256 == job.bundle_sha256)
        || not (fingerprint x job.submission a.sha256 job.binding == job.fingerprint))
      broken_integrity

-- The loop of `load` over the saved jobs, with the bytes of the bundles before them.
unfoldable pub check_jobs :
    Crypto → Map Uuid Artifact → Map Uuid Job → ℕ → Result PushError (Unit {0})
unfolding check_artifact check_review
check_jobs x artifacts [] stored = ok tt
check_jobs x artifacts ((id, job) ∷ jobs) stored =
    let rest = check_jobs x artifacts jobs (stored + job.bundle_bytes) in
    bail_if (not (job.id == id)) wrong_id
    >> (validate_submission job.submission
        >> (bail_if (job.bundle_bytes == 0 || ltb max_bundle job.bundle_bytes) bad_bundle
            >> (bail_if (leb (2 ^ 64) (stored + job.bundle_bytes)) size_overflow
                >> (bail_if (ltb max_storage (stored + job.bundle_bytes)) over_storage
                    >> (check_artifact x (lookup id artifacts) job
                        >> (check_review job >> rest))))))

unfoldable pub not_sent : Env → Job → Job
unfolding set text
not_sent env job =
    set env Status.cancelled
      (text "Broker restarted before Git push. Not sent; submit a new bundle if still needed.") job

-- What `load` makes of a job that the last run left.
unfoldable pub restarted : Env → Job → Job
unfolding set text not_sent
restarted env job = elim job.status [
  | Status.sending ↦
      set env Status.unknown
        (text "Broker restarted during Git push. Not retried; inspect the remote branch.") job
  | Status.preparing ↦ not_sent env job
  | Status.pending ↦ not_sent env job
  | Status.approved ↦ not_sent env job
  | _ ↦ job
]

-- What `load` finds in `git-push-jobs.json`; a file of version 1 has been archived.
pub data Reading : Type 0 where
  unreadable version_one : Reading
  stored : ℕ → Saved → Reading

unfoldable pub read_saved : Option Reading → Result PushError Saved
unfolding empty_saved
read_saved none = ok empty_saved
read_saved (some unreadable) = err not_read
read_saved (some version_one) = ok empty_saved
read_saved (some (stored size saved)) = do
  bail_if (ltb max_metadata size) too_large
  bail_if (not (saved.version == 2)) unsupported
  ok saved

-- The bundles of stored jobs, after `remove_orphans`.
unfoldable pub owned_artifacts : Saved → Map Uuid Artifact → Map Uuid Artifact
owned_artifacts saved = filter (λ a. any (λ j. j.0 == a.0) saved.jobs)

-- `Pushes::load`, from what is read, with the directory and the bundles.
unfoldable pub load :
    Env → Crypto → Option Reading → Directory Saved → Map Uuid Artifact → Result PushError Pushes
unfolding read_saved check_jobs restarted transaction owned_artifacts
load env x reading dir artifacts = do
  saved ← read_saved reading
  bail_if (ltb max_jobs (length saved.jobs)) too_many_jobs
  check_jobs x artifacts saved.jobs 0
  let next : Saved = record saved { jobs = map_values (λ _ job. restarted env job) saved.jobs }
  let (r, s) =
      transaction env (λ saved. ok (tt, saved))
        (record { current = next; path = some dir; artifacts = some artifacts; changes = 0 })
  r >> ok (record s { artifacts = some (owned_artifacts next artifacts) })

-- `min_by_key(|job| (job.updated_at, job.id))`
unfoldable pub is_before : Job → Job → Bool
is_before a b = ltb a.updated_at b.updated_at || a.updated_at == b.updated_at && ltb a.id b.id

unfoldable pub oldest_removable : Env → Map Uuid Job → Option Job
unfolding automatically_removable is_before
oldest_removable env [] = none
oldest_removable env ((_, job) ∷ jobs) =
    let rest = oldest_removable env jobs in
    if not (automatically_removable env job) then rest else elim rest [
      | none ↦ some job
      | some other ↦ if is_before other job then some other else some job
    ]

-- The bytes of all bundles.
unfoldable pub stored_bytes : Map Uuid Job → ℕ
stored_bytes [] = 0
stored_bytes ((_, job) ∷ jobs) = job.bundle_bytes + stored_bytes jobs

unfoldable pub without : Uuid → Saved → Saved
without id saved = record saved { jobs = remove id saved.jobs }

-- `stored_bytes.saturating_add(incoming_bytes)`, and the test of the loop.
unfoldable pub is_within : ℕ → Saved → Bool
unfolding stored_bytes
is_within incoming saved =
    leb (length saved.jobs) max_jobs
    && leb (min (stored_bytes saved.jobs + incoming) (2 ^ 64 - 1)) max_storage

-- The loop, on fuel: what is left, and the IDs that are removed, the first one first.
unfoldable pub prune : Env → ℕ → ℕ → Saved → Result PushError (Saved × List Uuid)
unfolding is_within oldest_removable without
prune env incoming zero saved = if is_within incoming saved then ok (saved, []) else err out_of_fuel
prune env incoming (suc fuel) saved = elim (is_within incoming saved) [
  | true ↦ ok (saved, [])
  | false ↦ elim (oldest_removable env saved.jobs) [
    | none ↦ err no_capacity
    | some job ↦
        prune env incoming fuel (without job.id saved) >>= λ more. ok (more.0, job.id ∷ more.1)
  ]
]

unfoldable pub prune_for_admission : Env → ℕ → Saved → Result PushError (Saved × List Uuid)
unfolding prune
prune_for_admission env incoming saved = prune env incoming (length saved.jobs) saved
