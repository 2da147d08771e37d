-- ===== src/State/Epochs.antt =====
-- What `AppState::update_policy` takes away from a container whose authorization it changes.
use friendzone.Prelude.{
  ◌≡◌, refl, ap, sym, subst, ◌∙◌, arith, inl, inr, ◌≢◌, String, Bool, true, false, ◌&&◌, Option,
  none, some, [], ◌∷◌, any, ◌==◌, string_eq, option_eq, nat_eq, nat_beq_iff, if◌then◌else◌,
  Option-cases, Bool-cases, eq_self, is_some_and,
}
use mathlib.Core.Option
use friendzone.Prelude.Map.{lookup, lookup-insert, lookup-of_any}
use friendzone.Prelude.Result.{ok, err}
use friendzone.Github.{Uuid, IpAddr}
use friendzone.Storage.{Directory, atomic_write}
use friendzone.Storage.Atomic.{atomic_write_lem}
use friendzone.Review.{QueueState, Entry}
use friendzone.Review.Queue
use friendzone.Review.Queue.{is_of}
use friendzone.Review.Cancel.{pending-cancel_container}
use friendzone.State.{
  ContainerRecord, SavedContainers, Containers, AppState, Env, not_saved, notify,
}
use friendzone.State.Policy.{
  Killed, Update, saved_policy, is_changed, renew_epoch, invalidate, publish, commit, update_policy,
}
use friendzone.State.Gate.{is_admitted, holds_identity}

abbrev pub renewed : Env → String → Bool → ContainerRecord → ContainerRecord
renewed env name b r = if b then record r { policy_epoch = env.new_epoch name } else r

lookup-renew_epoch :
    (env : Env) (name k : String) (m : Containers)
    → lookup k (renew_epoch env name m) ≡ Option.map (renewed env k (name == k)) (lookup k m)
unfolding renew_epoch
lookup-renew_epoch env name k m = elim (Option-cases (lookup name m)) [
  | inl n ↦ rw (n, renew_epoch) (ground (arith, string_eq.beq_iff name k))
  | inr (r, e) ↦
      rw (e, renew_epoch, lookup-insert name k (record r { policy_epoch = env.new_epoch name }) m)
        (ground (arith, string_eq.beq_iff name k))
]

is_changed-renew_epoch :
    (env : Env) (before killed : Killed) (name k : String) (m : Containers) (old : ContainerRecord)
    → is_changed before killed (renew_epoch env name m) k old ≡ is_changed before killed m k old
unfolding is_changed
is_changed-renew_epoch env before killed name k m old =
    rw (is_changed, lookup-renew_epoch env name k m)
      (elim (Option-cases (lookup k m)) [ inl n ↦ rw n refl | inr (r, e) ↦ rw e (ground arith) ])

-- Whether the loop over `old` finds a change of the container `k`.
abbrev pub finds : Killed → Killed → Containers → String → String × ContainerRecord → Bool
finds before killed m k e = e.0 == k && is_changed before killed m (e.0) (e.1)

any-finds :
    (env : Env) (before killed : Killed) (name k : String) (m old : Containers)
    → any (finds before killed (renew_epoch env name m) k) old ≡ any (finds before killed m k) old
any-finds env before killed name k m [] = refl
any-finds env before killed name k m (e ∷ old) = ground (
  arith,
  is_changed-renew_epoch env before killed name (e.0) m (e.1),
  any-finds env before killed name k m old,
  string_eq.beq_iff (e.0) k,
  is_changed-renew_epoch env before killed name k m (e.1),
)

pub lookup-invalidate :
    (env : Env) (before killed : Killed) (k : String) (old m : Containers) (q : QueueState)
    → lookup k ((invalidate env before killed old (m, q)).0)
      ≡ Option.map (renewed env k (any (finds before killed m k) old)) (lookup k m)
unfolding invalidate
lookup-invalidate env before killed k [] m q = elim (Option-cases (lookup k m)) [
  | inl n ↦ rw n refl
  | inr (r, e) ↦ rw e refl
]
lookup-invalidate env before killed k ((name, r) ∷ rest) m q =
    elim (Bool-cases (is_changed before killed m name r)) [
      | inl t ↦
          rw
            (
              t,
              invalidate,
              lookup-invalidate env before killed k rest,
              any-finds env before killed name k m rest,
              lookup-renew_epoch env name k m,
            )
            (ground arith)
      | inr f ↦ rw (f, invalidate, lookup-invalidate env before killed k rest) (ground arith)
    ]

pending-invalidate :
    (env : Env) (before killed : Killed) (k : String) (old m : Containers) (q : QueueState)
    (j : Uuid) {entry : Entry}
    → lookup j ((invalidate env before killed old (m, q)).1).pending ≡ some entry
    → (lookup j q.pending ≡ some entry)
      × (any (finds before killed m k) old ≡ true → is_of k (j, entry) ≡ false)
unfolding invalidate
pending-invalidate env before killed k [] m q j h = (h, λ t. cc)
pending-invalidate env before killed k ((name, r) ∷ rest) m q j {entry} h =
    elim (Bool-cases (is_changed before killed m name r)) [
      | inl t ↦
          let (p, n) =
            pending-invalidate env before killed k rest (renew_epoch env name m)
              (Queue.cancel_container env.review name q) j {entry = entry}
              (subst
                (λ b.
                  lookup j
                    ((invalidate env before killed rest (
                        if b
                        then (renew_epoch env name m, Queue.cancel_container env.review name q)
                        else (m, q))).1
                      ).pending
                  ≡ some entry)
                t h) in
          let (w, o) = pending-cancel_container env.review name j q {entry = entry} p in
          (
            w,
            λ a.
                ground (arith, string_eq.beq_iff name k, any-finds env before killed name k m rest),
          )
      | inr f ↦
          let (p, n) = pending-invalidate env before killed k rest m q j {entry = entry} (
            subst
              (λ b.
                lookup j
                  ((invalidate env before killed rest (
                      if b
                      then (renew_epoch env name m, Queue.cancel_container env.review name q)
                      else (m, q))).1
                    ).pending
                ≡ some entry)
              f h) in
          (p, λ a. ground arith)
    ]

-- A success publishes what the update made.
pub update_policy-ok :
    (env : Env) (update : Update) (s : AppState) {m : Containers} {killed : Killed}
    → update s.state.containers s.state.killed ≡ ok (m, killed)
    → (update_policy env update s).0 ≡ ok tt
    → (path : Option (Directory SavedContainers)) × ((update_policy env update s).1
        ≡ publish env m killed (record s { policy_path = path }))
unfolding update_policy commit
update_policy-ok env update s {m} {killed} h o = elim (Option-cases s.policy_path) [
  | inl n ↦ (
    none,
    rw (h, update_policy, n, commit)
        (ap (λ p. publish env m killed (record s { policy_path = p })) n),
  )
  | inr (dir, e) ↦ elim (atomic_write_lem env.faults (saved_policy m killed) dir) [
    | inl w ↦ (
      some ((atomic_write env.faults (saved_policy m killed) dir).1),
      rw (h, update_policy, e, commit, w.0) refl,
    )
    | inr w ↦
        let x : (update_policy env update s).0 ≡ err not_saved =
          rw (h, update_policy, e, commit, w.0) refl in
        cc
  ]
]

-- What a lost epoch leaves: no request is admitted and no identity holds under it, and no request
-- of the container waits.
abbrev pub IsRevoked : String → IpAddr → Uuid → Uuid → Uuid → AppState → Type 0
IsRevoked name peer id j epoch s =
    (is_admitted name peer epoch s ≡ false)
    × (holds_identity name peer id epoch s ≡ false)
    × (is_some_and (lookup j s.reviews.pending) (λ entry. is_of name (j, entry)) ≡ false)

lookup-finds :
    (before killed : Killed) (m : Containers) (name : String) (old : ContainerRecord)
    (l : Containers)
    → lookup name l ≡ some old
    → is_changed before killed m name old ≡ true
    → any (finds before killed m name) l ≡ true
lookup-finds before killed m name old l h c =
    elim (Bool-cases (any (finds before killed m name) l)) [
      | inl t ↦ t
      | inr f ↦
          ground
            (arith, lookup-of_any (finds before killed m name) name l {v = old} f h, eq_self name)
    ]

-- Without the epoch of the record no request is admitted, and no identity holds.
not-admitted :
    (name : String) (peer : IpAddr) (epoch : Uuid) (s : AppState)
    → ((r : ContainerRecord) → lookup name s.state.containers ≡ some r → r.policy_epoch ≢ epoch)
    → is_admitted name peer epoch s ≡ false
unfolding is_admitted
not-admitted name peer epoch s h = elim (Option-cases (lookup name s.state.containers)) [
  | inl n ↦ rw (n, is_admitted) (ground arith)
  | inr (r, e) ↦
      let d = h r e in rw (e, is_admitted) (ground (arith, nat_beq_iff r.policy_epoch epoch))
]

not-holds :
    (name : String) (peer : IpAddr) (id epoch : Uuid) (s : AppState)
    → ((r : ContainerRecord) → lookup name s.state.containers ≡ some r → r.policy_epoch ≢ epoch)
    → holds_identity name peer id epoch s ≡ false
unfolding holds_identity
not-holds name peer id epoch s h = elim (Option-cases (lookup name s.state.containers)) [
  | inl n ↦ rw (n, holds_identity) (ground arith)
  | inr (r, e) ↦
      let d = h r e in rw (e, holds_identity) (ground (arith, nat_beq_iff r.policy_epoch epoch))
]

renewed-epoch :
    (env : Env) (name : String) (o : Option ContainerRecord) (r : ContainerRecord)
    → some r ≡ Option.map (renewed env name true) o
    → r.policy_epoch ≡ env.new_epoch name
renewed-epoch env name none r h = cc
renewed-epoch env name (some q) r h = ground arith

none_waits :
    (env : Env) (before killed : Killed) (k : String) (old m : Containers) (q : QueueState)
    (j : Uuid)
    → any (finds before killed m k) old ≡ true
    → is_some_and
        (lookup j ((invalidate env before killed old (m, q)).1).pending)
        (λ entry. is_of k (j, entry))
      ≡ false
none_waits env before killed k old m q j f =
    elim (Option-cases (lookup j ((invalidate env before killed old (m, q)).1).pending)) [
      | inl n ↦ rw n refl
      | inr (entry, e) ↦
          rw e ((pending-invalidate env before killed k old m q j {entry = entry} e).1 f)
    ]

publish-IsRevoked :
    (env : Env) (s : AppState) (name : String) (peer : IpAddr) (id j : Uuid) (m : Containers)
    (killed : Killed) (old : ContainerRecord)
    → lookup name s.state.containers ≡ some old
    → is_changed s.state.killed killed m name old ≡ true
    → env.new_epoch name ≢ old.policy_epoch
    → IsRevoked name peer id j old.policy_epoch (publish env m killed s)
unfolding publish notify
publish-IsRevoked env s name peer id j m killed old h c d =
    let f = lookup-finds s.state.killed killed m name old s.state.containers h c in
    let l : lookup name (invalidate env s.state.killed killed s.state.containers (m, s.reviews)).0
        ≡ Option.map (renewed env name true) (lookup name m) =
      rw (sym f)
        (lookup-invalidate env s.state.killed killed name s.state.containers m s.reviews) in
    let n : (r : ContainerRecord)
        → lookup name (publish env m killed s).state.containers ≡ some r
        → r.policy_epoch ≢ old.policy_epoch =
      λ r e g. d (sym (renewed-epoch env name (lookup name m) r (sym e ∙ l)) ∙ g) in
    (
      not-admitted name peer old.policy_epoch (publish env m killed s) n,
      not-holds name peer id old.policy_epoch (publish env m killed s) n,
      none_waits env s.state.killed killed name s.state.containers m s.reviews j f,
    )

-- When a policy change succeeds and removes a container, kills or resumes it, or changes its
-- approval or its pin, then, provided that its new epoch differs from the old one, no request is
-- admitted under the old epoch from any address, no asynchronous identity of that epoch holds, and
-- none of the container's requests waits for review.
pub update_policy-revokes :
    (env : Env) (update : Update) (s : AppState) (name : String) (peer : IpAddr) (id j : Uuid)
    {m : Containers} {killed : Killed} {old : ContainerRecord}
    → lookup name s.state.containers ≡ some old
    → update s.state.containers s.state.killed ≡ ok (m, killed)
    → is_changed s.state.killed killed m name old ≡ true
    → env.new_epoch name ≢ old.policy_epoch
    → (update_policy env update s).0 ≡ ok tt
    → IsRevoked name peer id j old.policy_epoch (update_policy env update s).1
unfolding publish notify
update_policy-revokes env update s name peer id j {m} {killed} {old} h u c d o =
    let (path, e) = update_policy-ok env update s u o in
    subst (IsRevoked name peer id j old.policy_epoch) (sym e)
      (publish-IsRevoked env (record s { policy_path = path }) name peer id j m killed old h c d)
