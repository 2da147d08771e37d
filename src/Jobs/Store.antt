-- ===== src/Jobs/Store.antt =====
-- src/jobs.rs: the store of the jobs, its transactions, its start and its pruning.
use friendzone.Prelude.{
  ℕ, zero, suc, ◌+◌, ◌*◌, ◌^◌, Bool, true, false, not, ◌&&◌, ◌||◌, Option, none, some, [], ◌∷◌,
  ◌==◌, nat_eq, leb, ltb, length, if◌then◌else◌, wrapping_inc, unwrap_or,
}
use friendzone.Prelude.Text.{text}
use friendzone.Prelude.Map.{Map, remove, map_values}
use friendzone.Prelude.Counts.{count}
use friendzone.Prelude.Result.{Result, ok, err, ◌>>=◌, context}
use friendzone.Storage.{Directory, atomic_write}
use friendzone.Github.{Uuid}
use friendzone.Review.{Status}
use friendzone.Jobs.{
  Job, Saved, Jobs, Env, JobsError, not_saved, not_read, too_large, unsupported, size_overflow,
  no_capacity, out_of_fuel, is_active, set, automatically_removable, max_result, max_storage,
  max_jobs,
}

unfoldable pub empty_saved : Saved
empty_saved = record { version = 1; jobs = [] }

-- `Jobs::new`
unfoldable pub new : Jobs
unfolding empty_saved
new = record { current = empty_saved; path = none; changes = 0 }

-- How many jobs are not over.
unfoldable pub active_jobs : Saved → ℕ
unfolding is_active
active_jobs saved = count (λ e. is_active (e.1)) saved.jobs

-- What is reserved for the results of the jobs that are not over.
abbrev pub reserve : ℕ
reserve = max_result * 6 + 4096

unfoldable pub replace : Saved → Jobs → Jobs
replace next s = record s { current = next; changes = wrapping_inc s.changes }

-- What a transaction does with the data that its edit leaves: the file is written first.
unfoldable pub commit {ℓ} : {T : Type ℓ} → Env → T → Saved → Jobs → Result JobsError T × Jobs
unfolding active_jobs replace atomic_write
commit env t next s =
    if ltb max_storage (env.size next + active_jobs next * reserve)
    then (err too_large, s)
    else elim s.path [
      | none ↦ (ok t, replace next s)
      | some dir ↦
          let (written, dir') = atomic_write env.faults next dir in
          let s' : Jobs = record s { path = some dir' } in
          elim written [ ok _ ↦ (ok t, replace next s') | err _ ↦ (err not_saved, s') ]
    ]

unfoldable pub transaction {ℓ} :
    {T : Type ℓ} → Env → (Saved → Result JobsError (T × Saved)) → Jobs → Result JobsError T × Jobs
unfolding commit
transaction env edit s = elim (edit s.current) [
  | err e ↦ (err e, s)
  | ok (t, next) ↦ commit env t next s
]

-- What `load` makes of a job that the last run left.
unfoldable pub restarted : Env → Job → Job
unfolding set text
restarted env job = elim job.status [
  | Status.sending ↦
      set env Status.unknown
        (text "Broker restarted during execution. Not retried; inspect upstream state.") job
  | Status.pending ↦
      set env Status.cancelled
        (text "Broker restarted before execution. Not sent; submit a new request if still needed.")
        job
  | Status.approved ↦
      set env Status.cancelled
        (text "Broker restarted before execution. Not sent; submit a new request if still needed.")
        job
  | _ ↦ job
]

-- What `load` finds in the file.
unfoldable pub read_saved : Env → Directory Saved → Result JobsError Saved
unfolding empty_saved
read_saved env dir = if not env.reads then err not_read else elim dir.target [
  | none ↦ ok empty_saved
  | some saved ↦ if ltb max_storage (env.size saved) then err too_large else ok saved
]

-- `Jobs::load`: the result, and the directory that it leaves.
unfoldable pub load : Env → Directory Saved → Result JobsError Jobs × Directory Saved
unfolding read_saved restarted transaction
load env dir = elim (read_saved env dir) [
  | err e ↦ (err e, dir)
  | ok saved ↦
      if not (saved.version == 1) || ltb max_jobs (length saved.jobs)
      then (err unsupported, dir)
      else let next : Saved = record saved {
        jobs = map_values (λ _ job. restarted env job) saved.jobs;
      } in
        let (r, s) =
          transaction {0} env (λ saved. ok (tt, saved))
            (record { current = next; path = some dir; changes = 0 }) in
        let dir' : Directory Saved = unwrap_or s.path dir in
        elim r [ err e ↦ (err e, dir') | ok _ ↦ (ok s, dir') ]
]

-- `usize` has 64 bits.
unfoldable pub checked : ℕ → Option ℕ
checked n = if ltb n (2 ^ 64) then some n else none

unfoldable pub storage_usage : Env → Saved → Result JobsError ℕ
unfolding active_jobs checked
storage_usage env saved = do
  reserved ← context (checked (active_jobs saved * reserve)) size_overflow
  context (checked (env.size saved + reserved)) size_overflow

-- The test of the pruning loop.
unfoldable pub is_within : Env → Saved → Result JobsError Bool
unfolding storage_usage
is_within env saved =
    if leb (length saved.jobs) max_jobs
    then (storage_usage env saved >>= λ usage. ok (leb usage max_storage))
    else ok false

-- `min_by_key(|job| (job.updated_at, job.id))`
unfoldable pub is_before : Job → Job → Bool
is_before a b = ltb a.updated_at b.updated_at || a.updated_at == b.updated_at && ltb a.id b.id

-- The oldest of the jobs that may be removed.
unfoldable pub oldest_removable : Env → Map Uuid Job → Option Job
unfolding automatically_removable is_before
oldest_removable env [] = none
oldest_removable env ((_, job) ∷ jobs) =
    let rest = oldest_removable env jobs in
    if not (automatically_removable env job) then rest else elim rest [
      | none ↦ some job
      | some other ↦ if is_before other job then some other else some job
    ]

unfoldable pub without : Uuid → Saved → Saved
without id saved = record saved { jobs = remove id saved.jobs }

-- One turn of the loop; `again` is what follows the choice of a job to remove.
unfoldable pub turn : Env → (Job → Result JobsError Saved) → Saved → Result JobsError Saved
unfolding is_within oldest_removable
turn env again saved = elim (is_within env saved) [
  | err e ↦ err e
  | ok true ↦ ok saved
  | ok false ↦ elim (oldest_removable env saved.jobs) [
    | none ↦ err no_capacity
    | some job ↦ again job
  ]
]

-- The loop, on fuel.
unfoldable pub prune : Env → ℕ → Saved → Result JobsError Saved
unfolding turn without
prune env zero saved = turn env (λ _. err out_of_fuel) saved
prune env (suc fuel) saved = turn env (λ job. prune env fuel (without job.id saved)) saved

-- As much fuel as there are jobs: each turn removes one.
unfoldable pub prune_for_admission : Env → Saved → Result JobsError Saved
unfolding prune
prune_for_admission env saved = prune env (length saved.jobs) saved
