-- ===== src/State/Policy.antt =====
-- `AppState::update_policy`, the one transaction of every policy writer.
use friendzone.Prelude.{
  String, Bool, true, false, not, ◌||◌, none, some, List, [], ◌∷◌, map, filter, ◌==◌, string_eq,
  option_eq, nat_eq, is_none_or, if◌then◌else◌,
}
use Prim.Native.Nat.{Ordering}
use Prim.Native.String.{compare as compare_text}
use friendzone.Prelude.Map.{lookup, insert}
use friendzone.Prelude.Result.{Result, ok, err}
use friendzone.Storage.{atomic_write}
use friendzone.Review.{QueueState}
use friendzone.Review.Queue
use friendzone.State.{
  ContainerRecord, SavedContainer, SavedContainers, Containers, AppState, Env, StateError,
  not_saved, notify, contains,
}

abbrev pub Killed : Type 0
Killed = List String

-- One entry of the saved policy.
unfoldable pub saved_container : Killed → String × ContainerRecord → SavedContainer
unfolding contains
saved_container killed (name, r) = record {
  name = name;
  instance_id = r.instance_id;
  approved = r.approved;
  killed = contains name killed;
  pinned_ip = r.pinned_ip;
  comment_permissions = r.comment_permissions;
  cline_access = r.cline_access;
}

-- `a.name.cmp(&b.name)` puts `a` no later than `b`.
sorts_before : SavedContainer → SavedContainer → Bool
sorts_before a b = elim (compare_text a.name b.name) [ Ordering.gt ↦ false | _ ↦ true ]

unfoldable pub insert_sorted : SavedContainer → List SavedContainer → List SavedContainer
unfolding sorts_before
insert_sorted a [] = a ∷ []
insert_sorted a (b ∷ bs) = if sorts_before a b then a ∷ b ∷ bs else b ∷ insert_sorted a bs

-- `entries.sort_by(|a, b| a.name.cmp(&b.name))`
unfoldable pub sort_by_name : List SavedContainer → List SavedContainer
unfolding insert_sorted
sort_by_name [] = []
sort_by_name (a ∷ as') = insert_sorted a (sort_by_name as')

-- The policy that is written: the managed containers, by name.
unfoldable pub saved_policy : Containers → Killed → SavedContainers
unfolding saved_container sort_by_name
saved_policy containers killed = record {
  version = 1;
  containers = sort_by_name (map (saved_container killed) (filter (λ e. (e.1).managed) containers));
}

unfoldable pub bool_ne : Bool → Bool → Bool
bool_ne true b = not b
bool_ne false b = b

-- Whether the authorization of a container differs from what it was.
unfoldable pub is_changed : Killed → Killed → Containers → String → ContainerRecord → Bool
unfolding bool_ne contains
is_changed before killed containers name old =
    is_none_or (lookup name containers)
      (λ new. bool_ne new.approved old.approved || not (new.pinned_ip == old.pinned_ip))
    || bool_ne (contains name before) (contains name killed)

-- `if let Some(record) = containers.get_mut(name) { record.policy_epoch = … }`
unfoldable pub renew_epoch : Env → String → Containers → Containers
renew_epoch env name containers = elim (lookup name containers) [
  | none ↦ containers
  | some r ↦ insert name (record r { policy_epoch = env.new_epoch name }) containers
]

-- The loop over the containers before the update.
unfoldable pub invalidate :
    Env → Killed → Killed → Containers → Containers × QueueState → Containers × QueueState
unfolding is_changed renew_epoch
invalidate env before killed [] (containers, reviews) = (containers, reviews)
invalidate env before killed ((name, old) ∷ rest) (containers, reviews) =
    invalidate env before killed rest (
      if is_changed before killed containers name old
      then (renew_epoch env name containers, Queue.cancel_container env.review name reviews)
      else (containers, reviews))

-- From the loop to the notification.
unfoldable pub publish : Env → Containers → Killed → AppState → AppState
unfolding invalidate notify
publish env containers killed s =
    let (containers', reviews') =
      invalidate env s.state.killed killed s.state.containers (containers, s.reviews) in
    notify (record s {
      state = record s.state { containers = containers'; killed = killed };
      reviews = reviews';
    })

abbrev pub Update : Type 0
Update = Containers → Killed → Result StateError (Containers × Killed)

-- What `update_policy` does with the outcome of the update: the file is written first.
unfoldable pub commit :
    Env → Containers → Killed → AppState → Result StateError (Unit {0}) × AppState
unfolding publish saved_policy atomic_write
commit env containers killed s = elim s.policy_path [
  | none ↦ (ok tt, publish env containers killed s)
  | some dir ↦
      let (written, dir') = atomic_write env.faults (saved_policy containers killed) dir in
      let s' : AppState = record s { policy_path = some dir' } in
      elim written [
        | ok _ ↦ (ok tt, publish env containers killed s')
        | err _ ↦ (err not_saved, s')
      ]
]

unfoldable pub update_policy : Env → Update → AppState → Result StateError (Unit {0}) × AppState
unfolding commit
update_policy env update s = elim (update s.state.containers s.state.killed) [
  | err e ↦ (err e, s)
  | ok (containers, killed) ↦ commit env containers killed s
]
