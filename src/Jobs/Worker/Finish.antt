-- ===== src/Jobs/Worker/Finish.antt =====
-- What the worker makes of the response to a job (src/jobs.rs).
use friendzone.Prelude.{
  ℕ, ◌+◌, ◌-◌, ◌^◌, Bool, true, false, not, Option, none, some, List, [], ◌∷◌, ◌++◌, ◌==◌, nat_eq,
  option_eq, leb, length, min, is_none, if◌then◌else◌,
}
use friendzone.Prelude.Text.{Text, text, decimal}
use friendzone.Prelude.Map.{lookup}
use friendzone.Prelude.Result.{Result, ok, ◌>>=◌, context}
use friendzone.Review.{Status}
use friendzone.Jobs.{
  Job, Saved, Jobs, Env, JobsError, UpstreamDiagnostics, job_missing, set, max_result,
}
use friendzone.Jobs.Store.{transaction}
use friendzone.Jobs.Guest.{put}
use friendzone.Jobs.Worker.Turn.{continue_with, Outcome}

-- What reading the body gives, one piece at a time: bytes, or an error of the transfer.
pub data Chunk : Type 0 where
  chunk : List ℕ → Chunk
  broken : Text → Chunk

-- What GitHub answers, by `reqwest`: the kind of a failure, or a response.
pub record Received : Type 0 where
  pub http : ℕ
  pub headers_at : ℕ
  pub time_to_headers_ms : ℕ
  pub total_ms : ℕ
  pub remote_addr : Option Text
  pub http_version : Text
  pub response_headers : List (Text × Text)
  pub chunks : List Chunk

pub data Response : Type 0 where
  failed : Text → ℕ → Response
  received : Received → Response

-- The field `errors` of a JSON body, as `serde_json` reads it: an array of some length, or not.
pub data Errors : Type 0 where
  array : ℕ → Errors
  not_array : Errors

-- The code outside this repository that reads a body.
pub record Body : Type 0 where
  pub errors : List ℕ → Option Errors
  pub decode : List ℕ → Text

unfoldable pub saturating_add : ℕ → ℕ → ℕ
saturating_add a b = min (a + b) (2 ^ 64 - 1)

-- The loop over the body: the bytes that are kept, how many were observed, and the error.
unfoldable pub read_body : List Chunk → List ℕ → ℕ → List ℕ × ℕ × Option Text
unfolding saturating_add text
read_body [] bytes observed = (bytes, observed, none)
read_body (broken e ∷ _) bytes observed = (bytes, observed, some e)
read_body (chunk c ∷ rest) bytes observed =
    let more = read_body rest (bytes ++ c) (saturating_add observed (length c)) in
    if leb (length bytes + length c) max_result
    then more
    else (bytes, saturating_add observed (length c), some (text "response_too_large"))

unfoldable pub has_errors : Option Errors → Bool
has_errors none = false
has_errors (some not_array) = true
has_errors (some (array n)) = not (n == 0)

-- How a job ends.
pub record Ending : Type 0 where
  pub status : Status
  pub http_status : Option ℕ
  pub outcome : Text
  pub result : Option Text
  pub upstream : UpstreamDiagnostics

-- A response whose body is complete.
unfoldable pub completed : Body → Received → List ℕ → UpstreamDiagnostics → Ending
unfolding has_errors text decimal
completed b r bytes d = record {
  status =
      if leb 400 r.http
      then Status.upstream_error
      else if has_errors (b.errors bytes)
      then Status.graphql_error
      else Status.response_received;
  http_status = some r.http;
  outcome =
      if leb 400 r.http
      then text "Upstream endpoint returned HTTP "
        ++ (decimal r.http ++ text "; inspect the response before retrying")
      else if has_errors (b.errors bytes)
      then text "GraphQL errors returned"
      else text "Response received";
  result = some (b.decode bytes);
  upstream = d;
}

unfoldable pub incomplete : Received → Text → UpstreamDiagnostics → Ending
unfolding text
incomplete r error d = record {
  status = Status.unknown;
  http_status = some r.http;
  outcome =
      text "Response incomplete ("
      ++ (error ++ text ") or over 4 MiB; inspect upstream before retrying");
  result = none;
  upstream = d;
}

unfoldable pub ending : Env → Body → UpstreamDiagnostics → Response → Ending
unfolding read_body completed incomplete text
ending env b d (failed kind total) = record {
  status = Status.unknown;
  http_status = none;
  outcome = text "No reply after sending (" ++ (kind ++ text "); not automatically retried");
  result = none;
  upstream = record d {
    finished_at = some env.now;
    total_ms = some total;
    response_bytes = some 0;
    response_complete = some false;
    transport_error = some kind;
  };
}
ending env b d (received r) =
    let (bytes, observed, error) = read_body r.chunks [] 0 in
    let d' : UpstreamDiagnostics = record d {
      headers_at = some r.headers_at;
      finished_at = some env.now;
      time_to_headers_ms = some r.time_to_headers_ms;
      total_ms = some r.total_ms;
      remote_addr = r.remote_addr;
      http_version = some r.http_version;
      response_headers = r.response_headers;
      response_bytes = some observed;
      response_complete = some (is_none error);
      transport_error = error;
    } in
    elim error [ none ↦ completed b r bytes d' | some e ↦ incomplete r e d' ]

unfoldable pub finish_edit : Env → Job → Ending → Saved → Result JobsError (Unit {0} × Saved)
unfolding set put
finish_edit env job e saved = do
  j ← context (lookup job.id saved.jobs) job_missing
  ok (
    tt,
    put job.id
        (record (set env e.status e.outcome j) {
          http_status = e.http_status;
          result = e.result;
          upstream = some e.upstream;
        })
        saved,
  )

-- The turn's body for one job, from the response on.
unfoldable pub finish : Env → Body → Job → UpstreamDiagnostics → Response → Jobs → Outcome × Jobs
unfolding ending finish_edit transaction continue_with
finish env b job d response s =
    let (r, s') = transaction env (finish_edit env job (ending env b d response)) s in
    (continue_with r, s')
