-- ===== src/Review/Cancel.antt =====
-- What an archived or cancelled request leaves in the queue.
use friendzone.Prelude.{
  String, ◌≡◌, inl, inr, refl, Bool, true, false, none, some, List, [], ◌∷◌, arith, any,
  if◌then◌else◌, nat_eq, nat_beq_iff, ◌==◌, Option-cases, Bool-cases, string_eq,
}
use friendzone.Prelude.Map.{Map, lookup, lookup-remove}
use friendzone.Github.{Uuid}
use friendzone.Review.{Status, Entry, QueueState, Env}
use friendzone.Review.Queue.{
  archive, cancel_pending, notify, archive_all, ids_of, is_of, cancel_container,
}

pub pending-notify : (q : QueueState) → (notify q).pending ≡ q.pending
unfolding notify
pending-notify q = refl

-- Archiving takes one request from those that wait, and no other.
pub pending-archive :
    (env : Env) (id j : Uuid) (status : Status) (outcome : String) (q : QueueState)
    → lookup j (archive env id status outcome q).1.pending
      ≡ (if id == j then none else lookup j q.pending)
unfolding archive
pending-archive env id j status outcome q = elim (Option-cases (lookup id q.pending)) [
  | inl n ↦ rw (n, archive) (ground (arith, nat_beq_iff id j))
  | inr (entry, e) ↦ rw (e, archive) (lookup-remove id j q.pending)
]

pub pending-cancel_pending :
    (env : Env) (id j : Uuid) (status : Status) (outcome : String) (q : QueueState)
    → lookup j (cancel_pending env id status outcome q).pending
      ≡ (if id == j then none else lookup j q.pending)
unfolding cancel_pending archive
pending-cancel_pending env id j status outcome q = elim (Option-cases (lookup id q.pending)) [
  | inl n ↦ rw (n, cancel_pending, archive) (ground (arith, nat_beq_iff id j))
  | inr (entry, e) ↦ rw (e, cancel_pending, archive) (unfold notify in lookup-remove id j q.pending)
]

abbrev pub holds : Uuid → List Uuid → Bool
holds j = any (λ i. i == j)

pub pending-archive_all :
    (env : Env) (ids : List Uuid) (j : Uuid) (q : QueueState)
    → lookup j (archive_all env ids q).pending ≡ (if holds j ids then none else lookup j q.pending)
unfolding archive_all
pending-archive_all env [] j q = refl
pending-archive_all env (id ∷ ids) j q = ground (
  arith,
  pending-archive env id j Status.cancelled "Container permissions changed. Not sent." q,
  pending-archive_all env ids j
      (archive env id Status.cancelled "Container permissions changed. Not sent." q).1,
)

holds-ids_of :
    (c : String) (j : Uuid) (m : Map Uuid Entry) {entry : Entry}
    → lookup j m ≡ some entry
    → is_of c (j, entry) ≡ true
    → holds j (ids_of c m) ≡ true
unfolding lookup ids_of
holds-ids_of c j [] e h = cc
holds-ids_of c j ((i, x) ∷ m) {entry} e h =
    ground (arith, nat_beq_iff i j, holds-ids_of c j m {entry = entry})

-- After a guest's policy has changed none of its requests waits, and whatever still waits is
-- unchanged.
pub pending-cancel_container :
    (env : Env) (c : String) (j : Uuid) (q : QueueState) {entry : Entry}
    → lookup j (cancel_container env c q).pending ≡ some entry
    → (lookup j q.pending ≡ some entry) × (is_of c (j, entry) ≡ false)
unfolding cancel_container notify
pending-cancel_container env c j q {entry} h = elim (Bool-cases (holds j (ids_of c q.pending))) [
  | inl y ↦ ground (arith, pending-archive_all env (ids_of c q.pending) j q)
  | inr n ↦
      let e : lookup j q.pending ≡ some entry =
        ground (arith, pending-archive_all env (ids_of c q.pending) j q) in
      (e, ground (arith, holds-ids_of c j q.pending {entry = entry} e))
]
