-- ===== src/Policy/Examples.antt =====
-- The gates on small requests, to which the theorems are applied.
use friendzone.Prelude.{◌≡◌, ◌≢◌, inl, refl, false, none, some, string_eq, str_eq_iff, false≢true}
use friendzone.Prelude.Text.{text, strip_prefix, split_once, text_beq}
use friendzone.Http.{Request}
use friendzone.Routing.{host_matches}
use friendzone.Routing.Examples.{parse}
use friendzone.Policy.{full}
use friendzone.Policy.Cline.{cline_verdict, deny, api_keys, cline_api_host}
use friendzone.Policy.Cline.Keys.{user, cline_verdict-keys}

abbrev keys : Request
keys = record {
  method = "GET";
  host = some (text "api.cline.bot");
  path = text "/api/v1/api-keys";
  header = λ _. none;
}

abbrev chat : Request
chat = record keys { method = "POST"; path = text "/api/v1/chat/completions" }

reads_keys : keys.method ≢ "CONNECT"
reads_keys e = false≢true ((str_eq_iff "GET" "CONNECT").1 e)

cline_verdict-keys_example : cline_verdict parse keys full (λ _. false) ≡ deny api_keys
unfolding host_matches text strip_prefix split_once text_beq cline_api_host
cline_verdict-keys_example =
    cline_verdict-keys parse keys (λ _. false) {host = text "api.cline.bot"} full
      (reads_keys, refl, inl refl) (user (text "/api/v1/api-keys") refl)
