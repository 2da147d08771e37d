-- ===== src/Review/Queue/Requests.antt =====
-- The requests of `impl Queue`: a request is added, looked up, and its upload is changed.
use friendzone.Prelude.{
  ℕ, ◌+◌, String, Bool, false, not, ◌&&◌, ◌||◌, Option, none, some, List, [], ◌∷◌, ◌==◌, string_eq,
  nat_eq, option_eq, leb, ltb, length, filter, find?, any, is_some, if◌then◌else◌,
}
use friendzone.Prelude.Map.{lookup, insert}
use friendzone.Prelude.Result.{Result, ok, err}
use friendzone.Github.{Uuid}
use friendzone.Review.{
  Status, active, Detail, Entry, QueueState, Env, QueueError, already_waiting, full,
  upload_not_found, still_active, not_pending,
}
use friendzone.Review.Queue.Archive.{wait_limit, notify, is_pending, archive, has_id, is_of}

-- A ticket: the request that it waits for, and until when.
pub record Ticket : Type 0 where
  pub id : Uuid
  pub deadline : ℕ

unfoldable pub enqueue : Env → Detail → QueueState → Result QueueError Ticket × QueueState
unfolding has_id is_of notify
enqueue env detail q =
    let id = detail.summary.id in
    let deadline = env.instant + wait_limit in
    if is_some (lookup id q.pending) || any (has_id id) q.recent
    then (err already_waiting, q)
    else if leb q.capacity (length q.pending)
        || leb q.per_guest (length (filter (is_of detail.summary.container) q.pending))
    then (err full, q)
    else (
      ok (record { id = id; deadline = deadline }),
      notify (record q {
        pending = insert id (record { detail = detail; deadline = deadline }) q.pending;
      }),
    )

-- `entry.deadline > now && !entry.sender.is_closed()`
unfoldable pub is_live : Env → Uuid → Entry → Bool
is_live env id entry = ltb env.instant entry.deadline && not (env.closed id)

-- `Queue::detail`
unfoldable pub detail_of : Env → Uuid → QueueState → Option Detail
unfolding is_live
detail_of env id q = elim (lookup id q.pending) [
  | none ↦ none
  | some entry ↦ if is_live env id entry then some entry.detail else none
]

unfoldable pub inspect : Uuid → QueueState → Option Detail
unfolding has_id
inspect id q = elim (lookup id q.pending) [
  | none ↦ find? (has_id id) q.recent
  | some entry ↦ some entry.detail
]

-- `if let Some(detail) = recent.iter_mut().find(…) { … }`
unfoldable pub update_first : (Detail → Bool) → (Detail → Detail) → List Detail → List Detail
update_first p f [] = []
update_first p f (d ∷ ds) = if p d then f d ∷ ds else d ∷ update_first p f ds

unfoldable pub set_url : String → Detail → Detail
set_url url d = elim d.file_upload [
  | none ↦ d
  | some upload ↦ record d { file_upload = some (record upload { url = some url }) }
]

unfoldable pub upload_result : Uuid → String → QueueState → QueueState
unfolding has_id update_first set_url
upload_result id url q = record q { recent = update_first (has_id id) (set_url url) q.recent }

-- Whether `uploads::guest_result` gives the guest a view of the upload.
unfoldable pub is_guest_upload : String → Uuid → String → Detail → Bool
is_guest_upload container instance_id session d = elim d.file_upload [
  | none ↦ false
  | some upload ↦ not (
      not (d.summary.container == container)
      || not (upload.instance_id == instance_id)
      || not (upload.session_id == session))
]

unfoldable pub change_guest_upload :
    Env
    → Uuid
    → String
    → Uuid
    → String
    → Bool
    → QueueState
    → Result QueueError (Unit {0}) × QueueState
unfolding inspect is_guest_upload archive is_pending notify has_id active
change_guest_upload env id container instance_id session removes q = elim (inspect id q) [
  | none ↦ (err upload_not_found, q)
  | some d ↦
      if not (is_guest_upload container instance_id session d)
      then (err upload_not_found, q)
      else if removes
      then (if active d.summary.status
          then (err still_active, q)
          else (ok tt, notify (record q { recent = filter (λ r. not (has_id id r)) q.recent })))
      else if not (is_pending d.summary.status)
      then (err not_pending, q)
      else (ok tt, notify (archive env id Status.cancelled "Cancelled by guest. Not sent." q).1)
]
