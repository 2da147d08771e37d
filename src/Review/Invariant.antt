-- ===== src/Review/Invariant.antt =====
-- The bounds of the queue, and that finished uploads give up their content.
use friendzone.Prelude.{
  ℕ, ◌≤◌, String, ◌≡◌, ◌⊎◌, inl, inr, refl, subst, Bool, true, false, Option, none, some, List, [],
  ◌∷◌, ◌++◌, arith, length, find?, All, All-append, nat_eq, string_eq, Option-cases, Bool-cases,
}
use friendzone.Prelude.Map.{lookup}
use friendzone.Prelude.Counts.{count, length-remove-le, count-remove-le}
use friendzone.Github.{Uuid}
use friendzone.Review.{Status, active, Detail, QueueState, Env, Diagnostics}
use friendzone.Review.Queue.{
  history_limit, notify, is_of, trim, archived, archive, has_id, update_first, refine, Ticket,
  WaitEnd, upload_result, response_detail, graphql_response_detail, observe, cancel_container,
  remove_waiting, wait, cancel_pending, archive_all, drop_content, observed, set_url,
  is_response_received, ids_of,
}

-- The file's bytes, if the detail carries an upload that still has them.
abbrev pub content_of : Detail → Option (List ℕ)
content_of d = elim d.file_upload [ none ↦ none | some upload ↦ upload.content ]

-- Only an upload that is still under way holds its bytes.
abbrev pub IsReleased : Detail → Type 0
IsReleased d = (active d.summary.status ≡ true) ⊎ (content_of d ≡ none)

pub record IsValid (q : QueueState) : Type 0 where
  pub fits : length q.pending ≤ q.capacity
  pub fair : (container : String) → count (is_of container) q.pending ≤ q.per_guest
  pub history : length q.recent ≤ history_limit
  pub released : All IsReleased q.recent

length-trim-le : (ds : List Detail) → length (trim ds) ≤ history_limit
unfolding trim
length-trim-le [] = omega arith
length-trim-le (d ∷ ds) = ground (arith, length-trim-le ds)

trim-IsReleased : (ds : List Detail) → All IsReleased ds → All IsReleased (trim ds)
unfolding trim
trim-IsReleased [] h = tt
trim-IsReleased (d ∷ ds) h = ground (arith, trim-IsReleased ds h.1)

drop_content-IsReleased : (d : Detail) → content_of (drop_content d) ≡ none
unfolding drop_content
drop_content-IsReleased d = ground arith

archived-IsReleased :
    (env : Env) (status : Status) (outcome : String) (d : Detail)
    → (active status ≡ false) ⊎ (status ≡ Status.approved)
    → IsReleased (archived env status outcome d)
unfolding archived active
archived-IsReleased env Status.approved outcome d h = inl refl
archived-IsReleased env status outcome d h = inr (drop_content-IsReleased _)

observed-IsReleased :
    (env : Env) (status : Status) (http : Option ℕ) (outcome : String) (d : Detail)
    → IsReleased (observed env status http outcome d)
unfolding observed
observed-IsReleased env status http outcome d = elim (Bool-cases (active status)) [
  | inl e ↦ inl (rw e e)
  | inr e ↦ inr (rw e (drop_content-IsReleased _))
]

set_url-IsReleased : (url : String) (d : Detail) → IsReleased d → IsReleased (set_url url d)
unfolding set_url
set_url-IsReleased url d h = ground arith

module _ (p : Detail → Bool) where
  find?-IsReleased :
      (ds : List Detail) {d : Detail} → find? p ds ≡ some d → All IsReleased ds → IsReleased d
  find?-IsReleased [] e h = cc
  find?-IsReleased (x ∷ ds) {d} e h = elim (Bool-cases (p x)) [
    | inl y ↦ subst IsReleased {x = x} {y = d} (ground arith) h.0
    | inr n ↦ find?-IsReleased ds {d = d} (ground arith) h.1
  ]

module _ (p : Detail → Bool) (f : Detail → Detail) where
  update_first-IsReleased :
      (ds : List Detail) (d : Detail)
      → find? p ds ≡ some d
      → IsReleased (f d)
      → All IsReleased ds
      → All IsReleased (update_first p f ds)
  unfolding update_first
  update_first-IsReleased [] d e k h = tt
  update_first-IsReleased (x ∷ ds) d e k h = elim (Bool-cases (p x)) [
    | inl y ↦ rw y (subst (λ z. IsReleased (f z)) {x = d} {y = x} (ground arith) k, h.1)
    | inr n ↦ rw n (h.0, update_first-IsReleased ds d (ground arith) k h.1)
  ]

  length-update_first : (ds : List Detail) → length (update_first p f ds) ≡ length ds
  unfolding update_first
  length-update_first [] = refl
  length-update_first (d ∷ ds) = ground (arith, length-update_first ds)

update-All-IsReleased :
    (p : Detail → Bool) (url : String) (ds : List Detail)
    → All IsReleased ds
    → All IsReleased (update_first p (set_url url) ds)
unfolding update_first
update-All-IsReleased p url [] h = tt
update-All-IsReleased p url (d ∷ ds) h =
    ground (arith, set_url-IsReleased url d h.0, update-All-IsReleased p url ds h.1)

pub notify-IsValid : (q : QueueState) → IsValid q → IsValid (notify q)
unfolding notify
notify-IsValid q v = record {
  fits = v.fits;
  fair = v.fair;
  history = v.history;
  released = v.released;
}

module _ (env : Env) (id : Uuid) (status : Status) (outcome : String) (q : QueueState) where
  pub archive-IsValid :
      (active status ≡ false) ⊎ (status ≡ Status.approved)
      → IsValid q
      → IsValid (archive env id status outcome q).1
  unfolding archive
  archive-IsValid h v = elim (Option-cases (lookup id q.pending)) [
    | inl n ↦ rw (n, archive) v
    | inr (entry, e) ↦
        let d = archived env status outcome entry.detail in
        rw (e, archive)
          (record {
            fits = omega (arith, length-remove-le id q.pending, v.fits);
            fair = λ c. omega (arith, count-remove-le (is_of c) id q.pending, v.fair c);
            history = length-trim-le (q.recent ++ d ∷ []);
            released = trim-IsReleased (q.recent ++ d ∷ []) (
                All-append IsReleased q.recent (d ∷ []) v.released
                  (archived-IsReleased env status outcome entry.detail h, tt));
          })
  ]

  pub cancel_pending-IsValid :
      active status ≡ false → IsValid q → IsValid (cancel_pending env id status outcome q)
  unfolding cancel_pending
  cancel_pending-IsValid h v =
      ground (arith, archive-IsValid (inl h) v, notify-IsValid (archive env id status outcome q).1)

-- `refine` keeps the bounds, and the release of content if its change does.
refine-IsValid :
    (id : Uuid) (ready : Status → Bool) (f : Detail → Detail) (q : QueueState)
    → ((d : Detail) → ready d.summary.status ≡ true → IsReleased d → IsReleased (f d))
    → IsValid q
    → IsValid (refine id ready f q)
unfolding refine notify
refine-IsValid id ready f q k v = elim (Option-cases (find? (has_id id) q.recent)) [
  | inl n ↦ rw (n, refine) v
  | inr (d, e) ↦ elim (Bool-cases (ready d.summary.status)) [
    | inr r ↦ rw (e, refine, r) v
    | inl r ↦
        rw (e, refine, r)
          (record {
            fits = v.fits;
            fair = v.fair;
            history = omega (arith, length-update_first (has_id id) f q.recent, v.history);
            released =
                update_first-IsReleased (has_id id) f q.recent d e
                  (k d r (find?-IsReleased (has_id id) q.recent e v.released)) v.released;
          })
  ]
]

pub archive_all-IsValid :
    (env : Env) (ids : List Uuid) (q : QueueState) → IsValid q → IsValid (archive_all env ids q)
unfolding archive_all active
archive_all-IsValid env [] q v = v
archive_all-IsValid env (id ∷ ids) q v =
    archive_all-IsValid env ids _ (archive-IsValid env id Status.cancelled _ q (inl refl) v)

pub cancel_container-IsValid :
    (env : Env) (container : String) (q : QueueState)
    → IsValid q
    → IsValid (cancel_container env container q)
unfolding cancel_container
cancel_container-IsValid env container q v =
    notify-IsValid _ (archive_all-IsValid env (ids_of container q.pending) q v)

pub remove_waiting-IsValid :
    (env : Env) (id : Uuid) (q : QueueState) → IsValid q → IsValid (remove_waiting env id q)
unfolding remove_waiting active
remove_waiting-IsValid env id q v = cancel_pending-IsValid env id Status.cancelled _ q refl v

pub wait-IsValid :
    (env : Env) (t : Ticket) (w : WaitEnd) (q : QueueState) → IsValid q → IsValid (wait env t w q).1
unfolding wait active
wait-IsValid env t (WaitEnd.received decision) q v = remove_waiting-IsValid env t.id q v
wait-IsValid env t WaitEnd.timed_out q v =
    remove_waiting-IsValid env t.id _ (cancel_pending-IsValid env t.id Status.expired _ q refl v)
wait-IsValid env t WaitEnd.sender_dropped q v = remove_waiting-IsValid env t.id q v

-- A response that was received has no content left, whatever its status becomes.
released-of_received :
    (d : Detail) → is_response_received d.summary.status ≡ true → IsReleased d → content_of d ≡ none
unfolding is_response_received active
released-of_received d r h = ground arith

pub response_detail-IsValid :
    (env : Env) (id : Uuid) (status : Status) (outcome : String) (q : QueueState)
    → IsValid q
    → IsValid (response_detail env id status outcome q)
unfolding response_detail
response_detail-IsValid env id status outcome q v =
    refine-IsValid id is_response_received _ q (λ d r h. inr (released-of_received d r h)) v

pub graphql_response_detail-IsValid :
    (env : Env) (id : Uuid) (diagnostics : Diagnostics) (q : QueueState)
    → IsValid q
    → IsValid (graphql_response_detail env id diagnostics q)
unfolding graphql_response_detail
graphql_response_detail-IsValid env id diagnostics q v =
    refine-IsValid id is_response_received _ q (λ d r h. inr (released-of_received d r h)) v

pub observe-IsValid :
    (env : Env) (id : Uuid) (status : Status) (http : Option ℕ) (outcome : String) (q : QueueState)
    → IsValid q
    → IsValid (observe env id status http outcome q)
unfolding observe
observe-IsValid env id status http outcome q v =
    refine-IsValid id active _ q (λ d _ _. observed-IsReleased env status http outcome d) v

pub upload_result-IsValid :
    (id : Uuid) (url : String) (q : QueueState) → IsValid q → IsValid (upload_result id url q)
unfolding upload_result
upload_result-IsValid id url q v = record {
  fits = v.fits;
  fair = v.fair;
  history = omega (arith, length-update_first (has_id id) (set_url url) q.recent, v.history);
  released = update-All-IsReleased (has_id id) url q.recent v.released;
}
