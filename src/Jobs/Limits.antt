-- ===== src/Jobs/Limits.antt =====
-- The limits on the stored jobs, through every run.
use friendzone.Prelude.{
  ◌≤◌, ◌≡◌, sym, ap, subst, ◌∙◌, inl, inr, Bool, true, false, some, List, [], ◌∷◌, arith, length,
  leb, String, nat_eq, nat_beq_iff, string_eq, Bool-cases, and-eq-true, false≢true,
}
use friendzone.Prelude.Map.{Map, lookup, insert, map_values, lookup-map_values}
use friendzone.Prelude.Counts.{
  count, length-insert_old, length-remove-le, count-insert-le, count-insert-le_old, count-remove-le,
  count-map_values-le, length-map_values,
}
use mathlib.Core.Option
use friendzone.Prelude.Result.{ok, err}
use friendzone.Github.{Uuid}
use friendzone.Jobs.{Job, Saved, Env, is_active, set, max_jobs, max_active, max_active_of_guest}
use friendzone.Jobs.Store.{
  active_jobs, without, empty_saved, restarted, is_within, prune_for_admission,
}
use friendzone.Jobs.Guest.{put, is_active_of, admit_job}
use friendzone.Jobs.Atomic.{After, IsSaved, transaction-keeps, transaction-IsSaved}
use friendzone.Jobs.Changes.{Changes, same, moved, removed, IsMove, is_waiting-active}
use friendzone.Jobs.Prune.{
  IsKeyed, IsPruning, Gives, remove-IsKeyed, insert-IsKeyed, prune-keeps,
  prune_for_admission-IsPruning,
}
use friendzone.Jobs.Admit.{admit_job-cases, with_job}
use friendzone.Jobs.Restart.{all_restarted, IsRestarted, restarted-IsRestarted}
use friendzone.Jobs.Kept.{IsAdmissible, step-keeps}
use friendzone.Jobs.Steps.{World, Broker, Op, submit_op, step, run}

abbrev active_entry : Uuid × Job → Bool
active_entry e = is_active (e.1)

-- The limits on the jobs that are not over, all and of one guest, and no id under a wrong key.
pub record IsBounded (saved : Saved) : Type 0 where
  pub keyed : IsKeyed saved.jobs
  pub active : active_jobs saved ≤ max_active
  pub fair : (container : String) → count (is_active_of container) saved.jobs ≤ max_active_of_guest

lookup-IsKeyed :
    (id : Uuid) (m : Map Uuid Job) {j : Job} → IsKeyed m → lookup id m ≡ some j → j.id ≡ id
unfolding IsKeyed lookup
lookup-IsKeyed id [] {j} k h = cc
lookup-IsKeyed id ((i, x) ∷ m) {j} (e, n, k) h =
    ground (arith, nat_beq_iff i id, lookup-IsKeyed id m {j = j} k)

is_active_of-move :
    (container : String) (id : Uuid) (j j' : Job)
    → IsMove j j'
    → is_active_of container (id, j') ≡ true
    → is_active_of container (id, j) ≡ true
unfolding is_active_of
is_active_of-move container id j j' m h = ground (arith, m.same_guest, m.not_revived)

put-IsKeyed :
    (id : Uuid) (j j' : Job) (m : Map Uuid Job)
    → lookup id m ≡ some j
    → IsMove j j'
    → IsKeyed m
    → IsKeyed (insert id j' m)
put-IsKeyed id j j' m l v k =
    let e : j'.id ≡ id = v.same_id ∙ lookup-IsKeyed id m {j = j} k l in
    subst (λ i. IsKeyed (insert i j' m)) e (insert-IsKeyed j' m k)

Changes-IsBounded :
    (before after : Saved) → IsBounded before → Changes before after → IsBounded after
unfolding put without active_jobs
Changes-IsBounded before after h same = h
Changes-IsBounded before after h (moved i j j' l m) = record {
  keyed = put-IsKeyed i j j' before.jobs l m h.keyed;
  active =
      omega (arith, h.active, count-insert-le_old active_entry i j' j before.jobs l m.not_revived);
  fair = λ c. omega (
    arith,
    h.fair c,
    count-insert-le_old (is_active_of c) i j' j before.jobs l (is_active_of-move c i j j' m),
  );
}
Changes-IsBounded before after h (removed i) = record {
  keyed = remove-IsKeyed i before.jobs h.keyed;
  active = omega (arith, h.active, count-remove-le active_entry i before.jobs);
  fair = λ c. omega (arith, h.fair c, count-remove-le (is_active_of c) i before.jobs);
}

-- The same, and no more jobs than fit.
unfoldable pub IsLimited : Saved → Type 0
IsLimited saved = IsBounded saved × (length saved.jobs ≤ max_jobs)

Changes-IsLimited :
    (before after : Saved) → IsLimited before → Changes before after → IsLimited after
unfolding IsLimited put without
Changes-IsLimited before after (b, l) same = (b, l)
Changes-IsLimited before after (b, l) (moved i j j' e m) = (
  Changes-IsBounded before (put i j' before) b (moved i j j' e m),
  omega (arith, l, length-insert_old i j' j before.jobs e),
)
Changes-IsLimited before after (b, l) (removed i) = (
  Changes-IsBounded before (without i before) b (removed i),
  omega (arith, l, length-remove-le i before.jobs),
)

-- A new job, where the limits leave room for one.
with_job-IsBounded :
    (job : Job) (saved : Saved)
    → leb max_active (active_jobs saved) ≡ false
    → leb max_active_of_guest (count (is_active_of job.container) saved.jobs) ≡ false
    → IsBounded saved
    → IsBounded (with_job job saved)
unfolding active_jobs
with_job-IsBounded job saved a g h = record {
  keyed = insert-IsKeyed job saved.jobs h.keyed;
  active = ground (arith, count-insert-le active_entry job.id job saved.jobs);
  fair = λ c. elim (Bool-cases (is_active_of c (job.id, job))) [
    | inl y ↦
        let e : job.container ≡ c =
          (string_eq.beq_iff job.container c).0 (unfold is_active_of in (and-eq-true _ _ y).0) in
        let r : leb max_active_of_guest (count (is_active_of c) saved.jobs) ≡ false =
          subst (λ x. leb max_active_of_guest (count (is_active_of x) saved.jobs) ≡ false) e g in
        ground (arith, count-insert-le (is_active_of c) job.id job saved.jobs)
    | inr n ↦ ground (arith, h.fair c, count-insert-le (is_active_of c) job.id job saved.jobs)
  ];
}

is_within-fits :
    (env : Env) (saved : Saved) → is_within env saved ≡ ok true → length saved.jobs ≤ max_jobs
unfolding is_within
is_within-fits env saved h = ground arith

admit_job-IsLimited :
    (env : Env) (job : Job) (saved : Saved)
    → IsLimited saved
    → After IsLimited (admit_job env job saved)
unfolding IsLimited IsPruning prune_for_admission
admit_job-IsLimited env job saved (b, l) = elim (admit_job-cases env job saved) [
  | inl (e, q) ↦ rw q tt
  | inr (pruned, q, a, g, r) ↦
      let before = with_job job saved in
      let n = with_job-IsBounded job saved a g b in
      let k : IsBounded pruned = subst (Gives IsBounded) r (
        prune-keeps IsBounded (λ i s h. Changes-IsBounded s (without i s) h (removed i)) env
          (length before.jobs) before n) in
      let p = prune_for_admission-IsPruning env 0 before n.keyed in
      rw q (
        k,
        elim p [
          | inl (after, e, w, x, y) ↦
              subst (Gives (λ s. length s.jobs ≤ max_jobs)) (sym e ∙ r) (is_within-fits env after w)
          | inr (e, f, o) ↦ let c : err e ≡ ok pruned = sym f ∙ r in cc
        ],
      )
]

restarted-IsMove : (env : Env) (j : Job) → IsMove j (restarted env j)
unfolding IsRestarted restarted set
restarted-IsMove env j =
    let inactive = (restarted-IsRestarted env j).0 in
    record {
      same_id = ground arith;
      same_guest = ground arith;
      not_again = λ h. absurd (false≢true (sym inactive ∙ is_waiting-active (restarted env j) h));
      not_revived = λ h. absurd (false≢true (sym inactive ∙ h));
    }

all_restarted-IsKeyed :
    (env : Env) (m : Map Uuid Job) → IsKeyed m → IsKeyed (map_values (λ _ j. restarted env j) m)
unfolding IsKeyed map_values
all_restarted-IsKeyed env [] k = tt
all_restarted-IsKeyed env ((i, j) ∷ m) (e, n, k) = (
  (restarted-IsMove env j).same_id ∙ e,
  lookup-map_values (λ _ j. restarted env j) i m ∙ ap (Option.map (restarted env)) n,
  all_restarted-IsKeyed env m k,
)

all_restarted-IsLimited :
    (env : Env) (saved : Saved) → IsLimited saved → IsLimited (all_restarted env saved)
unfolding IsLimited active_jobs
all_restarted-IsLimited env saved (b, l) = (
  record {
    keyed = all_restarted-IsKeyed env saved.jobs b.keyed;
    active = omega (
      arith,
      b.active,
      count-map_values-le active_entry (λ _ j. restarted env j) saved.jobs
          (λ i j. (restarted-IsMove env j).not_revived),
    );
    fair = λ c. omega (
      arith,
      b.fair c,
      count-map_values-le (is_active_of c) (λ _ j. restarted env j) saved.jobs
          (λ i j. is_active_of-move c i j (restarted env j) (restarted-IsMove env j)),
    );
  },
  omega (arith, l, length-map_values (λ _ j. restarted env j) saved.jobs),
)

pub empty-IsLimited : IsLimited empty_saved
unfolding IsLimited empty_saved active_jobs IsKeyed
empty-IsLimited =
    (record { keyed = tt; active = omega arith; fair = λ c. omega arith }, omega arith)

step-IsLimited :
    (w : World) (env : Env) (op : Op) (b : Broker)
    → IsSaved b.jobs × IsLimited b.jobs.current
    → IsSaved (step w env op b).jobs × IsLimited (step w env op b).jobs.current
step-IsLimited w env op b (f, h) =
    step-keeps IsLimited Changes-IsLimited all_restarted-IsLimited empty-IsLimited w env op b
      (admissible op) (f, h)
  where
    admissible : (op : Op) → IsAdmissible (λ s. IsSaved s × IsLimited s.current) w env op b.jobs
    admissible (submit_op _ _ _ _ _ _) = λ job detail d i. (
      transaction-IsSaved env (admit_job env job) b.jobs f,
      transaction-keeps IsLimited env (admit_job env job) b.jobs h
          (admit_job-IsLimited env job b.jobs.current h),
    )
    admissible op = tt

-- In every run, with stops and starts of the broker at any time and however the file operations end,
-- the file, if there is one, holds the jobs in memory, at most 100 are stored, at most 32 are active
-- and at most 8 of one guest, and each is stored under its own id, if all this holds at the start.
pub run-IsLimited :
    (w : World) (ops : List (Env × Op)) (b : Broker)
    → IsSaved b.jobs × IsLimited b.jobs.current
    → IsSaved (run w ops b).jobs × IsLimited (run w ops b).jobs.current
unfolding run
run-IsLimited w [] b h = h
run-IsLimited w ((env, op) ∷ ops) b h =
    run-IsLimited w ops (step w env op b) (step-IsLimited w env op b h)
