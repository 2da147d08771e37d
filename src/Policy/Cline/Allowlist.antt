-- ===== src/Policy/Cline/Allowlist.antt =====
-- What the basic mode forwards, against a description that does not follow the code's matches.
use friendzone.Prelude.{
  String, ◌≡◌, ◌≢◌, ◌⊎◌, inl, inr, true, false, ◌||◌, ◌&&◌, [], ◌∷◌, ◌++◌, ◌==◌, string_eq, arith,
  str_eq_iff, Option-cases, Bool-cases,
}
use friendzone.Prelude.Text.{
  Text, text_eq, text, is_empty, strip_prefix, strip_prefix-eq-some, split_once, split_once-eq-some,
  NoChar, text_beq_iff,
}
use friendzone.Policy.{is_read_method}
use friendzone.Policy.Cline.{
  is_user_report, is_member_report, segment_allows, organization_allows, account_allows,
  basic_allows,
}

-- A fixed path with one method, a fixed path that is read, or a report below one segment.
pub data IsBasic (method : String) (path : Text) : Type 0 where
  probe : method ≡ "HEAD" → path ≡ text "/" → IsBasic method path
  banner : method ≡ "GET" → path ≡ text "/banners/v2/messages" → IsBasic method path
  config : method ≡ "GET" → path ≡ text "/api/v1/users/me/remote-config" → IsBasic method path
  chat : method ≡ "POST" → path ≡ text "/api/v1/chat/completions" → IsBasic method path
  images : method ≡ "POST" → path ≡ text "/api/v1/images" → IsBasic method path
  websearch : method ≡ "POST" → path ≡ text "/api/v1/search/websearch" → IsBasic method path
  webfetch : method ≡ "POST" → path ≡ text "/api/v1/search/webfetch" → IsBasic method path
  account : method ≡ "PUT" → path ≡ text "/api/v1/users/active-account" → IsBasic method path
  models :
      is_read_method method ≡ true
      → path ≡ text "/api/v1/ai/cline/recommended-models"
      → IsBasic method path
  me : is_read_method method ≡ true → path ≡ text "/api/v1/users/me" → IsBasic method path
  plan : is_read_method method ≡ true → path ≡ text "/api/v1/users/me/plan" → IsBasic method path
  user_report :
      (id tail : Text)
      → is_read_method method ≡ true
      → NoChar b'/' id
      → id ≢ []
      → id ≢ text "me"
      → (tail ≡ text "balance") ⊎ (tail ≡ text "usages") ⊎ (tail ≡ text "payments")
      → path ≡ text "/api/v1/users/" ++ (id ++ b'/' ∷ tail)
      → IsBasic method path
  organization :
      (id : Text)
      → is_read_method method ≡ true
      → id ≢ []
      → path ≡ text "/api/v1/organizations/" ++ id
      → IsBasic method path
  organization_balance :
      (id : Text)
      → is_read_method method ≡ true
      → NoChar b'/' id
      → id ≢ []
      → path ≡ text "/api/v1/organizations/" ++ (id ++ b'/' ∷ text "balance")
      → IsBasic method path
  member_usages :
      (id member : Text)
      → is_read_method method ≡ true
      → NoChar b'/' id
      → id ≢ []
      → NoChar b'/' member
      → member ≢ []
      → path
        ≡ text "/api/v1/organizations/"
          ++ (id ++ b'/' ∷ (text "members/" ++ (member ++ b'/' ∷ text "usages")))
      → IsBasic method path

not-is_empty : (s : Text) → is_empty s ≡ false → s ≢ []
unfolding is_empty
not-is_empty [] h = cc
not-is_empty (c ∷ s) h = λ e. cc

report_sound :
    (tail : Text)
    → (tail == text "balance" || tail == text "usages" || tail == text "payments") ≡ true
    → (tail ≡ text "balance") ⊎ (tail ≡ text "usages") ⊎ (tail ≡ text "payments")
report_sound tail h = ground (
  arith,
  text_beq_iff tail (text "balance"),
  text_beq_iff tail (text "usages"),
  text_beq_iff tail (text "payments"),
)

module _ (method : String) where
  member_sound :
      (id tail member_rest path : Text)
      → NoChar b'/' id
      → id ≢ []
      → tail ≡ text "members/" ++ member_rest
      → path ≡ text "/api/v1/organizations/" ++ (id ++ b'/' ∷ tail)
      → (is_read_method method && is_member_report (split_once b'/' member_rest)) ≡ true
      → IsBasic method path
  unfolding is_member_report
  member_sound id tail member_rest path plain n t e h =
      elim (Option-cases (split_once b'/' member_rest)) [
        | inl n' ↦ ground arith
        | inr (p, s) ↦
            let (plain', cut) = split_once-eq-some b'/' member_rest {a = p.0} {b = p.1} s in
            member_usages id p.0 (ground arith) plain n plain' (not-is_empty p.0 (ground arith))
              (ground (arith, text_beq_iff p.1 (text "usages")))
      ]

  -- The path below an organization, cut at its first slash.
  segment_sound :
      (id tail rest path : Text)
      → NoChar b'/' id
      → rest ≡ id ++ b'/' ∷ tail
      → path ≡ text "/api/v1/organizations/" ++ rest
      → segment_allows (is_read_method method) id tail ≡ true
      → IsBasic method path
  unfolding segment_allows
  segment_sound id tail rest path plain cut e h = elim (Bool-cases (tail == text "balance")) [
    | inl b ↦
        organization_balance id (ground arith) plain (not-is_empty id (ground arith))
          (ground (arith, text_beq_iff tail (text "balance")))
    | inr b ↦ elim (Option-cases (strip_prefix (text "members/") tail)) [
      | inl m ↦ ground arith
      | inr (member_rest, m) ↦
          member_sound id tail member_rest path plain (not-is_empty id (ground arith))
            (strip_prefix-eq-some (text "members/") tail m) (ground arith) (ground arith)
    ]
  ]

  organization_sound :
      (rest path : Text)
      → organization_allows (is_read_method method) rest ≡ true
      → path ≡ text "/api/v1/organizations/" ++ rest
      → IsBasic method path
  unfolding organization_allows
  organization_sound rest path h e = elim (Option-cases (split_once b'/' rest)) [
    | inl n ↦ organization rest (ground arith) (not-is_empty rest (ground arith)) e
    | inr (p, s) ↦
        let (plain, cut) = split_once-eq-some b'/' rest {a = p.0} {b = p.1} s in
        segment_sound p.0 p.1 rest path plain cut e (ground arith)
  ]

  user_sound :
      (rest path : Text)
      → (is_read_method method && is_user_report (split_once b'/' rest)) ≡ true
      → path ≡ text "/api/v1/users/" ++ rest
      → IsBasic method path
  unfolding is_user_report
  user_sound rest path h e = elim (Option-cases (split_once b'/' rest)) [
    | inl n ↦ ground arith
    | inr (p, s) ↦
        let (plain, cut) = split_once-eq-some b'/' rest {a = p.0} {b = p.1} s in
        user_report p.0 p.1 (ground arith) plain (not-is_empty p.0 (ground arith))
          (ground (arith, text_beq_iff p.0 (text "me"))) (report_sound p.1 (ground arith))
          (ground arith)
  ]

  account_sound :
      (path : Text) → account_allows (is_read_method method) path ≡ true → IsBasic method path
  unfolding account_allows
  account_sound path h = elim (Option-cases (strip_prefix (text "/api/v1/users/") path)) [
    | inr (rest, e) ↦
        user_sound rest path (ground arith) (strip_prefix-eq-some (text "/api/v1/users/") path e)
    | inl e ↦ elim (Option-cases (strip_prefix (text "/api/v1/organizations/") path)) [
      | inr (rest, e') ↦
          organization_sound rest path (ground arith)
            (strip_prefix-eq-some (text "/api/v1/organizations/") path e')
      | inl e' ↦ ground arith
    ]
  ]

either : (path a b : Text) → (path == a || path == b) ≡ true → (path ≡ a) ⊎ (path ≡ b)
either path a b h = ground (arith, text_beq_iff path a, text_beq_iff path b)

module _ (method : String) (path : Text) where
  banner_sound :
      (path == text "/banners/v2/messages" || path == text "/api/v1/users/me/remote-config") ≡ true
      → (method == "GET") ≡ true
      → IsBasic method path
  banner_sound p m = elim (either path _ _ p) [
    | inl e ↦ banner ((str_eq_iff method "GET").0 m) e
    | inr e ↦ config ((str_eq_iff method "GET").0 m) e
  ]

  chat_sound :
      (path == text "/api/v1/chat/completions" || path == text "/api/v1/images") ≡ true
      → (method == "POST") ≡ true
      → IsBasic method path
  chat_sound p m = elim (either path _ _ p) [
    | inl e ↦ chat ((str_eq_iff method "POST").0 m) e
    | inr e ↦ images ((str_eq_iff method "POST").0 m) e
  ]

  search_sound :
      (path == text "/api/v1/search/websearch" || path == text "/api/v1/search/webfetch") ≡ true
      → (method == "POST") ≡ true
      → IsBasic method path
  search_sound p m = elim (either path _ _ p) [
    | inl e ↦ websearch ((str_eq_iff method "POST").0 m) e
    | inr e ↦ webfetch ((str_eq_iff method "POST").0 m) e
  ]

  me_sound :
      (path == text "/api/v1/users/me" || path == text "/api/v1/users/me/plan") ≡ true
      → is_read_method method ≡ true
      → IsBasic method path
  me_sound p m = elim (either path _ _ p) [ inl e ↦ me m e | inr e ↦ plan m e ]

  -- Every request that the basic allowlist admits is one that the description lists.
  pub basic_allows_sound : basic_allows method path ≡ true → IsBasic method path
  unfolding basic_allows
  basic_allows_sound h = elim (Bool-cases (path == text "/")) [
    | inl a ↦
        probe (ground (arith, str_eq_iff method "HEAD"))
          (ground (arith, text_beq_iff path (text "/")))
    | inr a ↦
        elim (Bool-cases
          (path == text "/banners/v2/messages" || path == text "/api/v1/users/me/remote-config")) [
            | inl b ↦ banner_sound b (ground arith)
            | inr b ↦
                elim (Bool-cases
                  (path == text "/api/v1/chat/completions" || path == text "/api/v1/images")) [
                    | inl c ↦ chat_sound c (ground arith)
                    | inr c ↦
                        elim (Bool-cases (
                          path == text "/api/v1/search/websearch"
                          || path == text "/api/v1/search/webfetch")) [
                            | inl d ↦ search_sound d (ground arith)
                            | inr d ↦
                                elim (Bool-cases
                                  (path == text "/api/v1/ai/cline/recommended-models")) [
                                    | inl f ↦ models (ground arith) ((text_beq_iff _ _).0 f)
                                    | inr f ↦
                                        elim (Bool-cases (
                                          path == text "/api/v1/users/me"
                                          || path == text "/api/v1/users/me/plan")) [
                                            | inl g ↦ me_sound g (ground arith)
                                            | inr g ↦
                                                elim (Bool-cases
                                                  (path == text "/api/v1/users/active-account")) [
                                                    | inl k ↦
                                                        account
                                                          ((str_eq_iff method "PUT").0
                                                            (ground arith))
                                                          ((text_beq_iff _ _).0 k)
                                                    | inr k ↦
                                                        account_sound method path (ground arith)
                                                  ]
                                          ]
                                  ]
                          ]
                  ]
          ]
  ]
