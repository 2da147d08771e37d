-- ===== src/Settings/Basic.antt =====
-- HTTP Basic credentials: the password is replaced, and the username is kept.
use friendzone.Prelude.{
  ◌≡◌, refl, ap, ◌∙◌, arith, inl, inr, ℕ, Bool, true, false, ◌||◌, some, List, [], ◌∷◌, ◌++◌, any,
  Option-cases,
}
use friendzone.Prelude.Text.{
  Text, text, text_eq, is_empty, split_once, split_once-append, split_once-eq-some, NoChar,
  eq_ignore_ascii_case, text_beq_self, to_ascii_lowercase,
}
use friendzone.Settings.{EscrowEntry, Settings, External}
use friendzone.Settings.Substitute.{
  replace, is_ascii_control, trim_spaces, as_bytes, basic_credentials, basic_username,
  matches_plainly, replacement,
}

-- What the code relies on of base64: it decodes what it encodes, and no code starts with a space.
abbrev pub IsBase64 : External → Type 0
IsBase64 x =
    (b : List ℕ) → (x.decode (x.encode b) ≡ some b) × (trim_spaces (x.encode b) ≡ x.encode b)

any-append : (p : ℕ → Bool) (s t : List ℕ) → any p (s ++ t) ≡ (any p s || any p t)
any-append p [] t = refl
any-append p (c ∷ s) t = ground (arith, any-append p s t)

scheme-split : (r : Text) → split_once b' ' (text "Basic " ++ r) ≡ some (text "Basic", r)
unfolding split_once text
scheme-split r = refl

scheme-matches : eq_ignore_ascii_case (text "Basic") (text "Basic") ≡ true
unfolding eq_ignore_ascii_case
scheme-matches = text_beq_self (to_ascii_lowercase (text "Basic"))

colon-plain : is_ascii_control b':' ≡ false
unfolding is_ascii_control
colon-plain = refl

-- Credentials that are written are read back.
basic_credentials-encode :
    (x : External) (username password : List ℕ)
    → IsBase64 x
    → NoChar b':' username
    → any is_ascii_control username ≡ false
    → any is_ascii_control password ≡ false
    → basic_credentials x (text "Basic " ++ x.encode (username ++ (b':' ∷ password)))
      ≡ some (username, password)
unfolding basic_credentials
basic_credentials-encode x u p b n cu cp =
    let pair : List ℕ = u ++ (b':' ∷ p) in
    let c : any is_ascii_control pair ≡ false =
      ground (arith, any-append is_ascii_control u (b':' ∷ p), colon-plain) in
    rw (basic_credentials, scheme-split (x.encode pair), scheme-matches, (b pair).1, (b pair).0, c)
      (split_once-append b':' u p n)

-- What is read holds no colon in its username, and no control character.
basic_credentials-plain :
    (x : External) (value : Text) {username password : List ℕ}
    → basic_credentials x value ≡ some (username, password)
    → NoChar b':' username × (any is_ascii_control username ≡ false)
unfolding basic_credentials
basic_credentials-plain x value {username = u} {password = p} h =
    elim (Option-cases (split_once b' ' value)) [
      | inl n ↦ ground arith
      | inr (q, e) ↦ elim (Option-cases (x.decode (trim_spaces q.1))) [
        | inl n ↦ ground arith
        | inr (d, k) ↦
            let w : (split_once b':' d ≡ some (u, p)) × (any is_ascii_control d ≡ false) =
              ground arith in
            let (n, g) = split_once-eq-some b':' d {a = u} {b = p} (w.0) in
            (n, ground (arith, any-append is_ascii_control u (b':' ∷ p)))
      ]
    ]

basic_username-plain :
    (x : External) (e : EscrowEntry) (value : Text) {username : List ℕ}
    → basic_username x e value ≡ some username
    → NoChar b':' username × (any is_ascii_control username ≡ false)
unfolding basic_username
basic_username-plain x e value {username = u} h = elim (Option-cases (basic_credentials x value)) [
  | inl n ↦ ground arith
  | inr (q, k) ↦
      let g : q.0 ≡ u = ground arith in
      basic_credentials-plain x value {username = u} {password = q.1}
        (k ∙ ap (λ z. some (z, q.1)) g)
]

-- With the documented behaviour of base64: where the fake is the password of Basic credentials, and
-- no plain form of it matches, a real value that is not empty and holds no control character is
-- sent as the password, and the credentials that are sent are read back with the username kept.
pub replacement-basic :
    (x : External) (s : Settings) (e : EscrowEntry) (value real : Text) {username : List ℕ}
    → IsBase64 x
    → matches_plainly x s e value ≡ false
    → basic_username x e value ≡ some username
    → is_empty real ≡ false
    → any is_ascii_control (as_bytes real) ≡ false
    → (sent : Text) × (replacement x s e value real ≡ replace e.header sent)
      × (basic_credentials x sent ≡ some (username, as_bytes real))
unfolding replacement
replacement-basic x s e value real {username = u} b m n r c =
    let (plain, controls) = basic_username-plain x e value {username = u} n in
    (
      text "Basic " ++ x.encode (u ++ (b':' ∷ as_bytes real)),
      rw (replacement, m, r, c, n) refl,
      basic_credentials-encode x u (as_bytes real) b plain controls c,
    )
