-- ===== src/Pushes/Room.antt =====
-- The edits of many pushes: the admission of one, the removal of old ones and the start.
use friendzone.Prelude.{
  ◌≡◌, refl, inl, inr, true, leb, Bool-cases, Option-cases, nat_eq, string_eq, ◌==◌, ◌&&◌, List, [],
  ◌∷◌, ℕ, zero, suc, length,
}
use friendzone.Prelude.Text.{text_eq}
use friendzone.Prelude.Counts.{count}
use friendzone.Prelude.Map.{Map, map_values}
use friendzone.Prelude.Result.{Result, ok, err, ◌>>=◌}
use friendzone.Review.{Status}
use friendzone.Github.{Uuid}
use friendzone.Pushes.{Job, Saved, Env, PushError, is_active}
use friendzone.Pushes.Store.{
  without, prune, is_within, oldest_removable, restarted, not_sent, prune_for_admission,
}
use friendzone.Pushes.Submit.{put, admit_job}
use friendzone.Pushes.Atomic.{After}
use friendzone.Pushes.Reviewed.{
  is_reviewed, needs_review, Each, Each-insert, Each-remove, set-is_reviewed,
}
use friendzone.Pushes.Edits.{AllReviewed}

-- What holds of the first part of a result, if there is one.
abbrev Gives : {T : Type 0} → (Saved → Type 0) → Result PushError (Saved × T) → Type 0
Gives P (ok a) = P a.0
Gives P (err _) = Unit

Gives-more :
    {T U : Type 0} (r : Result PushError (Saved × T)) (f : T → U)
    → Gives AllReviewed r
    → Gives AllReviewed (r >>= λ more. ok (more.0, f more.1))
Gives-more (ok a) f h = h
Gives-more (err e) f h = tt

without-reviews : (id : Uuid) (saved : Saved) → AllReviewed saved → AllReviewed (without id saved)
unfolding without
without-reviews id saved h = Each-remove id saved.jobs h

After-pruned :
    (r : Result PushError (Saved × List Uuid)) (job : Job)
    → Gives AllReviewed r
    → After {T = Job × List Uuid} AllReviewed (r >>= λ pruned. ok ((job, pruned.1), pruned.0))
After-pruned (ok a) job h = h
After-pruned (err e) job h = tt

prune-reviews :
    (env : Env) (incoming fuel : ℕ) (saved : Saved)
    → AllReviewed saved
    → Gives AllReviewed (prune env incoming fuel saved)
unfolding prune
prune-reviews env incoming zero saved h = elim (Bool-cases (is_within incoming saved)) [
  | inl y ↦ rw (y, prune) h
  | inr n ↦ rw (n, prune) tt
]
prune-reviews env incoming (suc fuel) saved h = elim (Bool-cases (is_within incoming saved)) [
  | inl y ↦ rw (y, prune) h
  | inr n ↦ elim (Option-cases (oldest_removable env saved.jobs)) [
    | inl e ↦ rw (n, prune, e) tt
    | inr (job, e) ↦
        rw (n, prune, e)
          (Gives-more (prune env incoming fuel (without job.id saved)) (λ ids. job.id ∷ ids)
            (prune-reviews env incoming fuel (without job.id saved)
              (without-reviews job.id saved h)))
  ]
]

pub admit_job-reviews :
    (env : Env) (job : Job) (saved : Saved)
    → is_reviewed job ≡ true
    → AllReviewed saved
    → After AllReviewed (admit_job env job saved)
unfolding admit_job put prune_for_admission
admit_job-reviews env job saved p h =
    elim (Bool-cases (leb 8 (count (λ e. is_active (e.1)) saved.jobs))) [
      | inl y ↦ rw (y, admit_job) tt
      | inr n ↦
          elim (Bool-cases
            (leb 4 (count (λ e. (e.1).container == job.container && is_active (e.1)) saved.jobs))) [
              | inl y ↦ rw (n, y, admit_job) tt
              | inr m ↦
                  rw (n, m, admit_job)
                    (After-pruned (prune_for_admission env 0 (put job saved)) job (
                      prune-reviews env 0 (length (put job saved).jobs) (put job saved)
                        (Each-insert job.id job saved.jobs p h)))
            ]
    ]

restarted-is_reviewed :
    (env : Env) (job : Job) → is_reviewed job ≡ true → is_reviewed (restarted env job) ≡ true
unfolding restarted not_sent needs_review
restarted-is_reviewed env job h = go job.status refl
  where
    go : (status : Status) → job.status ≡ status → is_reviewed (restarted env job) ≡ true
    go Status.sending e = rw (e, restarted) (set-is_reviewed env Status.unknown _ job refl h)
    go Status.preparing e = rw (e, restarted) (set-is_reviewed env Status.cancelled _ job refl h)
    go Status.pending e = rw (e, restarted) (set-is_reviewed env Status.cancelled _ job refl h)
    go Status.approved e = rw (e, restarted) (set-is_reviewed env Status.cancelled _ job refl h)
    go status e = rw (e, restarted) h

pub restarted-reviews :
    (env : Env) (jobs : Map Uuid Job)
    → Each jobs
    → Each (map_values (λ _ job. restarted env job) jobs)
unfolding Each map_values
restarted-reviews env [] h = tt
restarted-reviews env ((id, job) ∷ jobs) (p, h) =
    (restarted-is_reviewed env job p, restarted-reviews env jobs h)
