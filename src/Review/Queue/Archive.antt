-- ===== src/Review/Queue/Archive.antt =====
-- The queue and the record of its outcomes: `impl QueueData`.
use friendzone.Prelude.{
  ℕ, ◌*◌, String, Bool, true, false, none, some, List, [], ◌∷◌, ◌++◌, ◌==◌, string_eq, nat_eq,
  option_eq, ltb, length, if◌then◌else◌, wrapping_inc,
}
use friendzone.Prelude.Map.{lookup, remove}
use friendzone.Github.{Uuid}
use friendzone.Review.{Status, Detail, Entry, QueueState, Env}

abbrev pub max_pending : ℕ
max_pending = 32

abbrev pub max_per_guest : ℕ
max_per_guest = 8

-- `WAIT_LIMIT`, in milliseconds.
abbrev pub wait_limit : ℕ
wait_limit = 120 * 1000

abbrev pub history_limit : ℕ
history_limit = 100

-- `Queue::with_limits`
unfoldable pub with_limits : ℕ → ℕ → QueueState
with_limits capacity per_guest = record {
  pending = [];
  recent = [];
  changes = 0;
  capacity = capacity;
  per_guest = per_guest;
}

-- `Queue::new`
unfoldable pub new : QueueState
unfolding with_limits
new = with_limits max_pending max_per_guest

unfoldable pub notify : QueueState → QueueState
notify q = record q { changes = wrapping_inc q.changes }

-- `if let Some(upload) = &mut detail.file_upload { upload.content = None; }`
unfoldable pub drop_content : Detail → Detail
drop_content d = elim d.file_upload [
  | none ↦ d
  | some upload ↦ record d { file_upload = some (record upload { content = none }) }
]

unfoldable pub is_approved : Status → Bool
is_approved Status.approved = true
is_approved _ = false

unfoldable pub is_pending : Status → Bool
is_pending Status.pending = true
is_pending _ = false

unfoldable pub is_response_received : Status → Bool
is_response_received Status.response_received = true
is_response_received _ = false

-- The changes of `archive` to the detail.
unfoldable pub archived : Env → Status → String → Detail → Detail
unfolding is_approved drop_content
archived env status outcome d =
    let d' : Detail = record d {
      summary = record d.summary { status = status; updated_at = env.now; outcome = some outcome };
      comment_context = none;
      comment_permission_supported = false;
    } in
    if is_approved status then d' else drop_content d'

-- `while recent.len() > HISTORY_LIMIT { recent.pop_front(); }`
unfoldable pub trim : List Detail → List Detail
trim [] = []
trim (d ∷ ds) = let rest = trim ds in if ltb history_limit (length (d ∷ ds)) then rest else d ∷ ds

-- `QueueData::archive`: whether there was such a request, and the new state.
unfoldable pub archive : Env → Uuid → Status → String → QueueState → Bool × QueueState
unfolding archived trim
archive env id status outcome q = elim (lookup id q.pending) [
  | none ↦ (false, q)
  | some entry ↦ (
    true,
    record q {
      pending = remove id q.pending;
      recent = trim (q.recent ++ archived env status outcome entry.detail ∷ []);
    },
  )
]

unfoldable pub has_id : Uuid → Detail → Bool
has_id id d = d.summary.id == id

unfoldable pub is_of : String → Uuid × Entry → Bool
is_of container (_, entry) = entry.detail.summary.container == container
