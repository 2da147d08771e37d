-- ===== src/State/Sequences.antt =====
-- The request log stays in the order of its sequences, within its capacity.
use friendzone.Prelude.{
  ◌≡◌, refl, sym, subst, inl, inr, ℕ, ◌+◌, zero, suc, Bool, true, false, Option, none, String, List,
  [], ◌∷◌, ◌++◌, arith, any, drop, length, All, All-append, All-drop, All-map, ltb, Bool-cases, ◌<◌,
  ◌≤◌, length-append, length-drop, wrapping_inc-of_lt, u64_mod,
}
use friendzone.Github.{Uuid}
use friendzone.Review
use friendzone.Review.Queue
use friendzone.State.{RequestEvent, AppState, Env, Verdict, log_capacity, touch_container, notify}
use friendzone.State.Log.{
  push_event, record_activity, update_event, update_newest, has_id, annotate, mark_blocked,
}
use friendzone.State.Paging.{IsIncreasing}

-- The events that are kept are in the order of their sequences, none is above the last sequence
-- given out, and there are no more than the log's capacity.
pub record IsOrdered (events : List RequestEvent) (given_out : ℕ) : Type 0 where
  pub increasing : IsIncreasing events
  pub given : All (λ e. e.sequence ≤ given_out) events
  pub bounded : length events ≤ log_capacity

snoc-IsIncreasing :
    (es : List RequestEvent) (e : RequestEvent)
    → All (λ d. d.sequence < e.sequence) es
    → IsIncreasing es
    → IsIncreasing (es ++ e ∷ [])
snoc-IsIncreasing [] e a h = (tt, tt)
snoc-IsIncreasing (d ∷ es) e a h = (
  All-append (λ c. d.sequence < c.sequence) es (e ∷ []) h.0 (a.0, tt),
  snoc-IsIncreasing es e a.1 h.1,
)

drop-IsIncreasing : (n : ℕ) (es : List RequestEvent) → IsIncreasing es → IsIncreasing (drop n es)
drop-IsIncreasing zero es h = h
drop-IsIncreasing (suc n) [] h = h
drop-IsIncreasing (suc n) (e ∷ es) h = drop-IsIncreasing n es h.1

push_event-IsIncreasing :
    (e : RequestEvent) (es : List RequestEvent)
    → All (λ d. d.sequence < e.sequence) es
    → IsIncreasing es
    → IsIncreasing (push_event e es)
unfolding push_event
push_event-IsIncreasing e es a h = elim (Bool-cases (ltb log_capacity (length (es ++ e ∷ [])))) [
  | inl y ↦ rw y (drop-IsIncreasing 1 (es ++ e ∷ []) (snoc-IsIncreasing es e a h))
  | inr n ↦ rw n (snoc-IsIncreasing es e a h)
]

push_event-All :
    (P : RequestEvent → Type 0) (e : RequestEvent) (es : List RequestEvent)
    → P e
    → All P es
    → All P (push_event e es)
unfolding push_event
push_event-All P e es p a = elim (Bool-cases (ltb log_capacity (length (es ++ e ∷ [])))) [
  | inl y ↦ rw y (All-drop P 1 (es ++ e ∷ []) (All-append P es (e ∷ []) a (p, tt)))
  | inr n ↦ rw n (All-append P es (e ∷ []) a (p, tt))
]

push_event-length :
    (e : RequestEvent) (es : List RequestEvent)
    → length es ≤ log_capacity
    → length (push_event e es) ≤ log_capacity
unfolding push_event
push_event-length e es h =
    ground (arith, h, length-append es (e ∷ []), length-drop 1 (es ++ e ∷ []))

-- A change of the newest event with an id keeps the sequences.
module _ (p : RequestEvent → Bool) (f : RequestEvent → RequestEvent)
    (k : (e : RequestEvent) → (f e).sequence ≡ e.sequence) where
  update_newest-All :
      (P : ℕ → Type 0) (es : List RequestEvent)
      → All (λ e. P e.sequence) es
      → All (λ e. P e.sequence) (update_newest p f es)
  unfolding update_newest
  update_newest-All P [] a = tt
  update_newest-All P (e ∷ es) a = elim (Bool-cases (any p es)) [
    | inl y ↦ rw y (a.0, update_newest-All P es a.1)
    | inr n ↦ elim (Bool-cases (p e)) [
      | inl y ↦ rw (n, y) (subst P (sym (k e)) a.0, a.1)
      | inr m ↦ rw (n, m) a
    ]
  ]

  update_newest-IsIncreasing :
      (es : List RequestEvent) → IsIncreasing es → IsIncreasing (update_newest p f es)
  unfolding update_newest
  update_newest-IsIncreasing [] h = tt
  update_newest-IsIncreasing (e ∷ es) h = elim (Bool-cases (any p es)) [
    | inl y ↦
        rw y (update_newest-All (λ n. e.sequence < n) es h.0, update_newest-IsIncreasing es h.1)
    | inr n ↦ elim (Bool-cases (p e)) [ inl y ↦ rw (n, y) (rw (k e) h) | inr m ↦ rw (n, m) h ]
  ]

  length-update_newest : (es : List RequestEvent) → length (update_newest p f es) ≡ length es
  unfolding update_newest
  length-update_newest [] = refl
  length-update_newest (e ∷ es) = ground (arith, length-update_newest es)

push_event-IsOrdered :
    (e : RequestEvent) (es : List RequestEvent) (n : ℕ)
    → e.sequence ≡ n + 1
    → IsOrdered es n
    → IsOrdered (push_event e es) e.sequence
push_event-IsOrdered e es n q h = record {
  increasing =
      push_event-IsIncreasing e es (All-map es (λ d l. omega (arith, l, q)) h.given) h.increasing;
  given =
      push_event-All (λ d. d.sequence ≤ e.sequence) e es (omega arith)
        (All-map es (λ d l. omega (arith, l, q)) h.given);
  bounded = push_event-length e es h.bounded;
}

record_activity-IsOrdered :
    (env : Env) (container method url : String) (verdict : Verdict) (guest_traffic : Bool)
    (s : AppState)
    → s.state.next_sequence + 1 < u64_mod
    → IsOrdered s.state.requests s.state.next_sequence
    → let s' = (record_activity env container method url verdict guest_traffic s).1 in
      IsOrdered s'.state.requests s'.state.next_sequence
      × (s'.state.next_sequence ≡ s.state.next_sequence + 1)
unfolding record_activity notify touch_container
record_activity-IsOrdered env container method url verdict true s l h =
    let w = wrapping_inc-of_lt s.state.next_sequence l in
    (push_event-IsOrdered _ s.state.requests s.state.next_sequence w h, w)
record_activity-IsOrdered env container method url verdict false s l h =
    let w = wrapping_inc-of_lt s.state.next_sequence l in
    (push_event-IsOrdered _ s.state.requests s.state.next_sequence w h, w)

update_event-IsOrdered :
    (id : Uuid) (f : RequestEvent → RequestEvent) (s : AppState)
    → ((e : RequestEvent) → (f e).sequence ≡ e.sequence)
    → IsOrdered s.state.requests s.state.next_sequence
    → IsOrdered (update_event id f s).state.requests s.state.next_sequence
unfolding update_event notify
update_event-IsOrdered id f s k h = record {
  increasing = update_newest-IsIncreasing (has_id id) f k s.state.requests h.increasing;
  given =
      update_newest-All (has_id id) f k (λ n. n ≤ s.state.next_sequence) s.state.requests h.given;
  bounded =
      subst (λ n. n ≤ log_capacity) (sym (length-update_newest (has_id id) f k s.state.requests))
        h.bounded;
}

-- What is done to the log.
pub data LogOperation : Type 0 where
  record_event : Env → String → String → String → Verdict → Bool → LogOperation
  annotate_event : Uuid → Option ℕ → Option String → LogOperation
  block_event : Env → Uuid → ℕ → String → LogOperation

unfoldable pub step : LogOperation → AppState → AppState
unfolding record_activity annotate mark_blocked
step (record_event env container method url verdict guest) s =
    (record_activity env container method url verdict guest s).1
step (annotate_event id status detail) s = annotate id status detail s
step (block_event env id status detail) s = mark_blocked env id status detail s

unfoldable pub run : List LogOperation → AppState → AppState
unfolding step
run [] s = s
run (o ∷ os) s = run os (step o s)

step-IsOrdered :
    (o : LogOperation) (s : AppState)
    → s.state.next_sequence + 1 < u64_mod
    → IsOrdered s.state.requests s.state.next_sequence
    → IsOrdered (step o s).state.requests (step o s).state.next_sequence
      × ((step o s).state.next_sequence ≤ s.state.next_sequence + 1)
unfolding step annotate mark_blocked update_event notify
step-IsOrdered (record_event env container method url verdict guest) s l h =
    let (k, w) = record_activity-IsOrdered env container method url verdict guest s l h in
    (k, omega (arith, w))
step-IsOrdered (annotate_event id status detail) s l h =
    (update_event-IsOrdered id _ s (λ e. refl) h, omega arith)
step-IsOrdered (block_event env id status detail) s l h = (
  update_event-IsOrdered id _
      (record s {
        reviews = Queue.observe env.review id Review.Status.blocked none detail s.reviews;
      })
      (λ e. refl) h,
  omega arith,
)

-- Whatever is recorded, annotated and blocked, the log keeps its events in the order of their
-- sequences, none above the last one given out, and no more than its capacity, as long as the
-- sequences do not reach 2 ^ 64.
pub run-IsOrdered :
    (os : List LogOperation) (s : AppState)
    → s.state.next_sequence + length os < u64_mod
    → IsOrdered s.state.requests s.state.next_sequence
    → IsOrdered (run os s).state.requests (run os s).state.next_sequence
unfolding run
run-IsOrdered [] s l h = h
run-IsOrdered (o ∷ os) s l h =
    let (k, n) = step-IsOrdered o s (omega (arith, l)) h in
    run-IsOrdered os (step o s) (omega (arith, l, n)) k
