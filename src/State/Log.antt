-- ===== src/State/Log.antt =====
-- The request log of `AppState`: recording, annotating, and paging through it.
use friendzone.Prelude.{
  ℕ, ◌-◌, String, Bool, true, false, ◌&&◌, ◌||◌, Option, none, some, List, [], ◌∷◌, ◌++◌, filter,
  any, length, take, drop, ltb, ◌==◌, min, max, string_eq, nat_eq, is_some, is_none_or, unwrap_or,
  if◌then◌else◌, wrapping_inc,
}
use friendzone.Prelude.Text.{Text, text, text_eq, is_empty, starts_with, decimal}
use mathlib.Core.List.{reverse}
use friendzone.Github.{Uuid}
use friendzone.Review
use friendzone.Review.Queue
use friendzone.State.{Verdict, RequestEvent, AppState, Env, notify, touch_container, log_capacity}

-- `push_back`, then `pop_front` if the log is over its capacity.
unfoldable pub push_event : RequestEvent → List RequestEvent → List RequestEvent
push_event e events =
    let events' = events ++ e ∷ [] in
    if ltb log_capacity (length events') then drop 1 events' else events'

-- `record_activity`
unfoldable pub record_activity :
    Env → String → String → String → Verdict → Bool → AppState → Uuid × AppState
unfolding touch_container push_event notify
record_activity env container method url verdict guest_traffic s =
    let data' = if guest_traffic then touch_container env container none s.state else s.state in
    let sequence = wrapping_inc data'.next_sequence in
    (
      env.new_id,
      notify (record s {
        state = record data' {
          next_sequence = sequence;
          requests =
              push_event
                (record {
                  id = env.new_id;
                  sequence = sequence;
                  at = env.now;
                  container = container;
                  method = method;
                  url = url;
                  verdict = verdict;
                  status = none;
                  detail = none;
                })
                data'.requests;
        };
      }),
    )

-- `record` and `record_unattributed`
unfoldable pub record_request :
    Env → String → String → String → Verdict → AppState → Uuid × AppState
unfolding record_activity
record_request env container method url verdict =
    record_activity env container method url verdict true

unfoldable pub record_unattributed :
    Env → String → String → String → Verdict → AppState → Uuid × AppState
unfolding record_activity
record_unattributed env label method url verdict =
    record_activity env label method url verdict false

unfoldable pub has_id : Uuid → RequestEvent → Bool
has_id id e = e.id == id

-- `if let Some(event) = requests.iter_mut().rev().find(…) { … }`: the newest one that fits.
unfoldable pub update_newest :
    (RequestEvent → Bool) → (RequestEvent → RequestEvent) → List RequestEvent → List RequestEvent
update_newest p f [] = []
update_newest p f (e ∷ es) =
    if any p es then e ∷ update_newest p f es else if p e then f e ∷ es else e ∷ es

-- A change of the newest event with this id, and the notification.
unfoldable pub update_event : Uuid → (RequestEvent → RequestEvent) → AppState → AppState
unfolding has_id update_newest notify
update_event id f s = notify (record s {
  state = record s.state { requests = update_newest (has_id id) f s.state.requests };
})

unfoldable pub annotate : Uuid → Option ℕ → Option String → AppState → AppState
unfolding update_event
annotate id status detail = update_event id (λ e. record e {
  status = if is_some status then status else e.status;
  detail = if is_some detail then detail else e.detail;
})

unfoldable pub mark_blocked : Env → Uuid → ℕ → String → AppState → AppState
unfolding update_event
mark_blocked env id status detail s =
    update_event id
      (λ e. record e { verdict = Verdict.blocked; status = some status; detail = some detail })
      (record s {
        reviews = Queue.observe env.review id Review.Status.blocked none detail s.reviews;
      })

pub record LogQuery : Type 0 where
  pub search : Text
  pub container : Text
  pub verdict : Text
  pub before : Option ℕ
  pub limit : Option ℕ

pub record LogPage : Type 0 where
  pub requests : List RequestEvent
  pub next_before : Option ℕ
  pub retained : ℕ
  pub capacity : ℕ
  pub evicted : ℕ

abbrev pub verdict_name : Verdict → Text
verdict_name Verdict.allowed = text "allowed"
verdict_name Verdict.blocked = text "blocked"
verdict_name Verdict.pending = text "pending"

-- `haystack.contains(needle)`
unfoldable pub contains_text : Text → Text → Bool
contains_text needle [] = is_empty needle
contains_text needle (c ∷ s) = starts_with needle (c ∷ s) || contains_text needle s

-- `format!("{} {} {} {} {}", …)`
unfoldable pub event_text : RequestEvent → Text
event_text e =
    text e.container
    ++ (b' '
        ∷ (text e.method
            ++ (b' '
                ∷ (text e.url
                    ++ (b' '
                        ∷ (elim e.status [ none ↦ [] | some n ↦ decimal n ]
                            ++ (b' ' ∷ text (unwrap_or e.detail ""))))))))

abbrev pub last_sequence : List RequestEvent → Option ℕ
last_sequence [] = none
last_sequence (e ∷ []) = some e.sequence
last_sequence (e ∷ d ∷ es) = last_sequence (d ∷ es)

-- `limit.unwrap_or(200).clamp(1, 500)`
unfoldable pub page_limit : Option ℕ → ℕ
page_limit limit = min 500 (max 1 (unwrap_or limit 200))

-- `to_lowercase`, whose tables are Unicode's, is a parameter.
module _ (lower : Text → Text) where
  -- The test on everything but the cursor.
  unfoldable pub fits : LogQuery → RequestEvent → Bool
  unfolding event_text contains_text
  fits query e =
      (is_empty query.container || query.container == text e.container)
      && (is_empty query.verdict || query.verdict == verdict_name e.verdict)
      && (is_empty (lower query.search)
          || contains_text (lower query.search) (lower (event_text e)))

  unfoldable pub is_match : LogQuery → RequestEvent → Bool
  unfolding fits
  is_match query e = is_none_or query.before (λ before. ltb e.sequence before) && fits query e

  -- The events that fit, the newest first.
  unfoldable pub matches : LogQuery → List RequestEvent → List RequestEvent
  unfolding is_match
  matches query events = filter (is_match query) (reverse events)

  unfoldable pub log_page : LogQuery → AppState → LogPage
  unfolding matches page_limit
  log_page query s =
      let found = matches query s.state.requests in
      let limit = page_limit query.limit in
      let requests = take limit found in
      record {
        requests = requests;
        next_before = elim (drop limit found) [ [] ↦ none | e ∷ es ↦ last_sequence requests ];
        retained = length s.state.requests;
        capacity = log_capacity;
        evicted = s.state.next_sequence - length s.state.requests;
      }
