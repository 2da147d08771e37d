-- ===== src/State/Examples/Logs.antt =====
-- The log of a small state, to which the theorems are applied.
use friendzone.Prelude.{ℕ, ◌++◌, ◌≡◌, refl, arith, true, none, some, List, [], ◌∷◌, string_eq}
use friendzone.Prelude.Text.{is_empty}
use friendzone.State.{RequestEvent, Verdict, AppState}
use friendzone.State.Log.{LogQuery, log_page, matches}
use friendzone.State.Paging.{log_page-continues}
use friendzone.State.Sequences.{
  LogOperation, record_event, annotate_event, block_event, IsOrdered, run-IsOrdered,
}
use friendzone.State.Sequences
use friendzone.State.Examples.{env, start}

abbrev log_operations : List LogOperation
log_operations =
    record_event env "alice" "GET" "https://example.com/" Verdict.allowed true
    ∷ record_event env "alice" "GET" "https://example.org/" Verdict.pending true
    ∷ annotate_event 14 (some 200) none
    ∷ block_event env 14 403 "blocked"
    ∷ []

start-IsOrdered : IsOrdered start.state.requests start.state.next_sequence
start-IsOrdered = record { increasing = tt; given = tt; bounded = omega arith }

run-IsOrdered_example :
    IsOrdered
      (Sequences.run log_operations start).state.requests
      (Sequences.run log_operations start).state.next_sequence
run-IsOrdered_example = run-IsOrdered log_operations start (omega arith) start-IsOrdered

-- Two requests stand in the log, and a page shows one of them.
abbrev event : ℕ → RequestEvent
event n = record {
  id = n;
  sequence = n;
  at = 100;
  container = "alice";
  method = "GET";
  url = "https://example.com/";
  verdict = Verdict.allowed;
  status = none;
  detail = none;
}

abbrev logged : AppState
logged = record start {
  state = record start.state { requests = event 1 ∷ event 2 ∷ []; next_sequence = 2 };
}

abbrev query : LogQuery
query = record { search = []; container = []; verdict = []; before = none; limit = some 1 }

next_page : (log_page (λ t. t) query logged).next_before ≡ some 2
unfolding log_page is_empty
next_page = refl

log_page-continues_example :
    matches (λ t. t) query logged.state.requests
    ≡ (log_page (λ t. t) query logged).requests
      ++ elim (log_page (λ t. t) query logged).next_before [
        | none ↦ []
        | some b ↦ matches (λ t. t) (record query { before = some b }) logged.state.requests
      ]
log_page-continues_example = log_page-continues (λ t. t) query logged ((omega arith, tt), (tt, tt))
