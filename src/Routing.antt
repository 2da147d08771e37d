-- ===== src/Routing.antt =====
-- src/routing.rs: the canonical form of a host name, by which every gate compares hosts.
pub mod Hosts
pub mod Examples
use friendzone.Prelude.{
  ℕ, Bool, true, false, not, ◌&&◌, ◌||◌, Option, none, some, List, [], ◌∷◌, ◌++◌, ◌==◌, leb, any,
  is_some, if◌then◌else◌, nat_eq,
}
use mathlib.Core.Option
use friendzone.Prelude.Text.{text_eq, Text, text, is_empty, starts_with, ends_with}
use friendzone.Http.{Url, UrlParser}

-- `char::is_whitespace`: the code points of Unicode's White_Space.
unfoldable pub is_whitespace : ℕ → Bool
is_whitespace c =
    leb 9 c && leb c 13
    || c == 32
    || c == 0x85
    || c == 0xa0
    || c == 0x1680
    || leb 0x2000 c && leb c 0x200a
    || c == 0x2028
    || c == 0x2029
    || c == 0x202f
    || c == 0x205f
    || c == 0x3000

-- `char::is_control`: Unicode's Cc.
unfoldable pub is_control : ℕ → Bool
is_control c = leb c 31 || leb 127 c && leb c 159

unfoldable pub contains_char : Text → ℕ → Bool
contains_char s c = any (λ d. d == c) s

-- `host.trim_end_matches('.')`
unfoldable pub trim_dots : Text → Text
trim_dots [] = []
trim_dots (c ∷ s) = let rest = trim_dots s in if c == b'.' && is_empty rest then [] else c ∷ rest

-- A character that no host may hold.
unfoldable pub rejected_char : ℕ → Bool
unfolding is_whitespace is_control contains_char text
rejected_char c = is_whitespace c || is_control c || contains_char (text "/\\@?#\"'") c

-- The tests of `normalize_host` on the parsed URL.
unfoldable pub is_plain_host : Text → Url → Bool
unfolding contains_char starts_with ends_with text
is_plain_host host url = not (
    is_some url.port
    || not (url.path == text "/")
    || not (starts_with (text "[") host) && contains_char host b':'
    || starts_with (text "[") host && not (ends_with (text "]") host))

module _ (parse : UrlParser) where
  unfoldable pub normalize_host : Text → Option Text
  unfolding rejected_char is_plain_host trim_dots text is_empty
  normalize_host host =
      if is_empty host || any rejected_char host
      then none
      else elim (parse (text "http://" ++ host ++ text "/")) [
        | none ↦ none
        | some url ↦ if is_plain_host host url then Option.map trim_dots url.host_str else none
      ]

  -- `settings::host_matches`
  unfoldable pub host_matches : Text → Text → Bool
  unfolding normalize_host
  host_matches pinned host = elim (normalize_host pinned) [
    | none ↦ false
    | some p ↦ elim (normalize_host host) [ none ↦ false | some h ↦ p == h ]
  ]
