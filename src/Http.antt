-- ===== src/Http.antt =====
-- What the broker reads of an HTTP request. The request type and the URL parser come from
-- third-party crates (`hudsucker::hyper::Request`, `reqwest::Url`), so a request is the parts that
-- the code asks for.
use friendzone.Prelude.{ℕ, String, Option}
use friendzone.Prelude.Text.{Text}

-- A header value: `to_str().ok()`, with `none` for a value that is not text.
abbrev pub HeaderValue : Type 0
HeaderValue = Option Text

pub record Request : Type 0 where
  -- `method().as_str()`
  pub method : String
  -- `uri().host()`
  pub host : Option Text
  -- `uri().path()`
  pub path : Text
  -- `headers().get(name)`
  pub header : String → Option HeaderValue

-- What the broker reads of a parsed `reqwest::Url`.
pub record Url : Type 0 where
  pub port : Option ℕ
  pub path : Text
  pub host_str : Option Text

-- `reqwest::Url::parse(text).ok()`
abbrev pub UrlParser : Type 0
UrlParser = Text → Option Url
