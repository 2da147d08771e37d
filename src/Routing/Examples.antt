-- ===== src/Routing/Examples.antt =====
-- A parser for `http://host/`, and the comparison of hosts under it.
use friendzone.Prelude.{none, some, nat_eq}
use friendzone.Prelude.Text.{text, strip_prefix, split_once}
use friendzone.Http.{UrlParser}

abbrev pub parse : UrlParser
parse t = elim (strip_prefix (text "http://") t) [
  | none ↦ none
  | some r ↦ elim (split_once b'/' r) [
    | none ↦ none
    | some (h, p) ↦ some (record { port = none; path = text "/"; host_str = some h })
  ]
]
