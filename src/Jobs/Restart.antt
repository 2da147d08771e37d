-- ===== src/Jobs/Restart.antt =====
-- The start of the broker: what `load` makes of the jobs that the last run left.
use friendzone.Prelude.{
  ◌≡◌, ◌≢◌, refl, sym, ap, subst, ◌∙◌, ◌⊎◌, inl, inr, ◌||◌, not, true, false, Option, none, some,
  arith, length, ltb, ◌==◌, nat_eq, Bool-cases, unwrap_or,
}
use mathlib.Core.Option
use friendzone.Prelude.Map.{lookup, map_values, lookup-map_values}
use friendzone.Prelude.Result.{Result, ok, err}
use friendzone.Storage.{Directory}
use friendzone.Github.{Uuid}
use friendzone.Review.{Status}
use friendzone.Jobs.{
  Job, Saved, Jobs, Env, JobsError, terminal, is_active, is_waiting, set, max_jobs, unsupported,
}
use friendzone.Jobs.Store.{load, read_saved, restarted, transaction}
use friendzone.Jobs.Atomic.{IsAtomic, IsSaved, file, transaction-IsAtomic}

-- All jobs as `load` changes them.
abbrev pub all_restarted : Env → Saved → Saved
all_restarted env saved = record saved { jobs = map_values (λ _ job. restarted env job) saved.jobs }

-- The end of a start: the jobs, changed and saved, or an error and the file as it was.
unfoldable pub IsLoaded : Env → Directory Saved → Result JobsError Jobs → Directory Saved → Type 0
IsLoaded env dir r dir' =
    ((s : Jobs) × (saved : Saved) × (r ≡ ok s)
      × (read_saved env dir ≡ ok saved)
      × (ltb max_jobs (length saved.jobs) ≡ false)
      × (s.current ≡ all_restarted env saved)
      × IsSaved s)
    ⊎ ((e : JobsError) × (r ≡ err e) × (dir'.target ≡ dir.target))

abbrev saved_of : Result JobsError (Unit {0} × Saved) → Saved → Saved
saved_of (ok (_, saved)) default = saved
saved_of (err _) default = default

target-unwrap_or :
    (dir : Directory Saved) (o : Option (Directory Saved)) {t : Option Saved}
    → Option.map (λ d. d.target) o ≡ some t
    → (unwrap_or o dir).target ≡ t
target-unwrap_or dir none h = cc
target-unwrap_or dir (some d) h = cc

load-saved :
    (env : Env) (dir : Directory Saved) (saved : Saved)
    → read_saved env dir ≡ ok saved
    → let (r, dir') = load env dir in IsLoaded env dir r dir'
unfolding load IsLoaded IsAtomic file
load-saved env dir saved h =
    elim (Bool-cases (not (saved.version == 1) || ltb max_jobs (length saved.jobs))) [
      | inl y ↦ rw (h, y, load) (inr (unsupported, refl, refl))
      | inr n ↦
          let s : Jobs = record {
            current = all_restarted env saved;
            path = some dir;
            changes = 0;
          } in
          let a = transaction-IsAtomic env (λ saved. ok (tt, saved)) s in
          elim a [
            | inl (t, r, e, f) ↦
                rw (h, n, load, r)
                  (inl (
                    (transaction {0} env (λ saved. ok (tt, saved)) s).1,
                    saved,
                    refl,
                    refl,
                    ground arith,
                    ap (λ r. saved_of r s.current) (sym e),
                    f,
                  ))
            | inr (e, r, c, f) ↦ rw (h, n, load, r) (inr (e, refl, target-unwrap_or dir _ f))
          ]
    ]

pub load-IsLoaded :
    (env : Env) (dir : Directory Saved) → let (r, dir') = load env dir in IsLoaded env dir r dir'
unfolding load IsLoaded
load-IsLoaded env dir = go (read_saved env dir) refl
  where
    go :
        (o : Result JobsError Saved)
        → read_saved env dir ≡ o
        → let (r, dir') = load env dir in IsLoaded env dir r dir'
    go (err e) h = rw (h, load) (inr (e, refl, refl))
    go (ok saved) h = load-saved env dir saved h

-- What a start makes of one job: it is not active; one that was being sent is now unknown; and one
-- that was over is as it was.
unfoldable pub IsRestarted : Job → Job → Type 0
IsRestarted j j' =
    (is_active j' ≡ false)
    × (((terminal j.status ≡ true) × (j' ≡ j))
        ⊎ ((j.status ≡ Status.sending) × (j'.status ≡ Status.unknown))
        ⊎ ((is_waiting j.status ≡ true) × (j'.status ≡ Status.cancelled)))

restarted-cases :
    (env : Env) (j : Job) (s : Status) → j.status ≡ s → IsRestarted j (restarted env j)
unfolding IsRestarted restarted set is_active terminal is_waiting
restarted-cases env j Status.sending e = (ground arith, inr (inl (e, ground arith)))
restarted-cases env j Status.pending e = (ground arith, inr (inr (ground arith, ground arith)))
restarted-cases env j Status.approved e = (ground arith, inr (inr (ground arith, ground arith)))
restarted-cases env j s e = (ground arith, inl (ground arith, ground arith))

pub restarted-IsRestarted : (env : Env) (j : Job) → IsRestarted j (restarted env j)
restarted-IsRestarted env j = restarted-cases env j j.status refl

abbrev jobs_of : Result JobsError Jobs → Jobs → Jobs
jobs_of (ok s) default = s
jobs_of (err _) default = default

not-ok : {e : JobsError} {s : Jobs} → err e ≢ ok s
not-ok {e} {s} h = cc

pub read_saved-some :
    (env : Env) (dir : Directory Saved) {before saved : Saved}
    → dir.target ≡ some before
    → read_saved env dir ≡ ok saved
    → saved ≡ before
unfolding read_saved
read_saved-some env dir {before} {saved} t k = ground arith

-- After a start that succeeds, no job is active: one that was being sent is unknown, one that waited
-- is cancelled, and one that was over is as it was; and the file holds the jobs as they are then.
pub load-restarts :
    (env : Env) (dir : Directory Saved) (id : Uuid) {s : Jobs} {before : Saved} {j : Job}
    → (load env dir).0 ≡ ok s
    → dir.target ≡ some before
    → lookup id before.jobs ≡ some j
    → IsSaved s × ((j' : Job) × (lookup id s.current.jobs ≡ some j') × IsRestarted j j')
unfolding IsLoaded read_saved
load-restarts env dir id {s} {before} {j} r t l =
    let a = load-IsLoaded env dir in
    elim a [
      | inl (s', saved, q, k, n, c, f) ↦
          let u : s' ≡ s = ap (λ x. jobs_of x s) (sym q ∙ r) in
          let b : saved ≡ before = read_saved-some env dir t k in
          (
            subst IsSaved u f,
            (
              restarted env j,
              ap (λ (x : Jobs). lookup id x.current.jobs) (sym u)
                  ∙ ap (λ (x : Saved). lookup id x.jobs) c
                  ∙ lookup-map_values (λ _ job. restarted env job) id saved.jobs
                  ∙ ap (Option.map (restarted env)) (ap (λ (x : Saved). lookup id x.jobs) b ∙ l),
              restarted-IsRestarted env j,
            ),
          )
      | inr (e, q, x) ↦ absurd (not-ok {s = s} (sym q ∙ r))
    ]
