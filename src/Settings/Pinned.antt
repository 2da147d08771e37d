-- ===== src/Settings/Pinned.antt =====
-- Where `Settings::substitute` sends a real credential, and when it passes or refuses a request.
use friendzone.Prelude.{
  ◌≡◌, refl, ap, sym, ◌∙◌, arith, ◌⊎◌, ◌↔◌, subst, inl, inr, ◌≢◌, Bool, true, false, ◌&&◌, ◌||◌,
  Option, some, List, [], ◌∷◌, ◌++◌, any, All, is_some_and, Option-cases, Bool-cases,
}
use friendzone.Prelude.Text.{Text, text_eq}
use friendzone.Settings.{EscrowEntry, Settings, External, real_value, has_session}
use friendzone.Settings.Substitute.{
  refresh_is_host_owned, pass, replace, block, is_pinned, is_cline_entry, is_cline_credential_host,
  replacement, resolve, carries_fake, is_owned_refresh, substitute_in, substitute,
}

-- The entry's fake stands in none of the request's headers.
abbrev pub IsAbsent : External → Settings → (Text → Option Text) → EscrowEntry → Type 0
IsAbsent x s get_header e = is_some_and (get_header e.header) (carries_fake x s e) ≡ false

any-member :
    (p : EscrowEntry → Bool) (before after : List EscrowEntry) (e : EscrowEntry)
    → any p (before ++ (e ∷ after)) ≡ false
    → p e ≡ false
any-member p [] after e h = ground arith
any-member p (b ∷ before) after e h = any-member p before after e (ground arith)

-- What a replacement of a header's value rests on: the first of the entries whose fake is
-- presented, which is pinned to the host and whose real value is known.
abbrev pub Replaced :
    External → Settings → Text → (Text → Option Text) → Text → Text → EscrowEntry → Type 0
Replaced x s host get_header header v e =
    (value real : Text) × (header ≡ e.header)
    × (get_header header ≡ some value)
    × (carries_fake x s e value ≡ true)
    × (is_pinned x e host ≡ true)
    × (real_value x e s ≡ some real)
    × (replacement x s e value real ≡ replace header v)

module _ (x : External) (s : Settings) (host path : Text) (get_header : Text → Option Text) where
  -- The three ways in which the loop takes an entry.
  substitute_in-cases :
      (e : EscrowEntry) (es : List EscrowEntry)
      → let r = substitute_in x s host path get_header (e ∷ es) in
        (r ≡ block refresh_is_host_owned)
        ⊎ ((IsAbsent x s get_header e × (r ≡ substitute_in x s host path get_header es))
            ⊎ ((value : Text) × (get_header e.header ≡ some value)
                × (carries_fake x s e value ≡ true)
                × (r ≡ resolve x s host e value)))
  unfolding substitute_in
  substitute_in-cases e es = elim (Bool-cases (is_owned_refresh x s host path e)) [
    | inl t ↦ inl (rw (t, substitute_in) refl)
    | inr f ↦ elim (Option-cases (get_header e.header)) [
      | inl n ↦ inr (inl (rw n refl, rw (f, n, substitute_in) refl))
      | inr (value, g) ↦ elim (Bool-cases (carries_fake x s e value)) [
        | inl c ↦ inr (inr (value, g, c, rw (f, g, c, substitute_in) refl))
        | inr c ↦ inr (inl (rw g c, rw (f, g, c, substitute_in) refl))
      ]
    ]
  ]

  replacement-header :
      (e : EscrowEntry) (value real : Text) {header v : Text}
      → replacement x s e value real ≡ replace header v
      → header ≡ e.header
  unfolding replacement
  replacement-header e value real h = ground arith

  replacement-not_pass : (e : EscrowEntry) (value real : Text) → replacement x s e value real ≢ pass
  unfolding replacement
  replacement-not_pass e value real h = ground arith

  resolve-not_pass : (e : EscrowEntry) (value : Text) → resolve x s host e value ≢ pass
  unfolding resolve
  resolve-not_pass e value h = elim (Option-cases (real_value x e s)) [
    | inl n ↦ ground arith
    | inr (real, g) ↦ ground (arith, replacement-not_pass e value real)
  ]

  resolve-replace :
      (e : EscrowEntry) (value : Text) {header v : Text}
      → get_header e.header ≡ some value
      → carries_fake x s e value ≡ true
      → resolve x s host e value ≡ replace header v
      → Replaced x s host get_header header v e
  unfolding resolve
  resolve-replace e value {header} {v} g c h = elim (Option-cases (real_value x e s)) [
    | inl n ↦ ground arith
    | inr (real, k) ↦
        let q : replacement x s e value real ≡ replace header v = ground arith in
        let w : header ≡ e.header = replacement-header e value real q in
        (value, real, w, ap get_header w ∙ g, c, ground arith, k, q)
  ]

  -- What the loop finds of an entry that it passes over.
  abbrev pub IsPassed : EscrowEntry → Type 0
  IsPassed e = IsAbsent x s get_header e × (is_owned_refresh x s host path e ≡ false)

  substitute_in-passes :
      (e : EscrowEntry) (es : List EscrowEntry)
      → IsPassed e
      → substitute_in x s host path get_header (e ∷ es) ≡ substitute_in x s host path get_header es
  unfolding substitute_in
  substitute_in-passes e es (a, o) = elim (Option-cases (get_header e.header)) [
    | inl n ↦ rw (o, n, substitute_in) refl
    | inr (value, g) ↦
        let c : carries_fake x s e value ≡ false =
          subst (λ v. is_some_and v (carries_fake x s e) ≡ false) g a in
        rw (o, g, c, substitute_in) refl
  ]

  owned-not_pass :
      (e : EscrowEntry) (es : List EscrowEntry)
      → substitute_in x s host path get_header (e ∷ es) ≡ pass
      → is_owned_refresh x s host path e ≡ false
  unfolding substitute_in
  owned-not_pass e es h = elim (Bool-cases (is_owned_refresh x s host path e)) [
    | inl t ↦ ground arith
    | inr f ↦ f
  ]

  pass-IsPassed :
      (es : List EscrowEntry) → substitute_in x s host path get_header es ≡ pass → All IsPassed es
  pass-IsPassed [] h = tt
  pass-IsPassed (e ∷ es) h =
      let o = owned-not_pass e es h in
      elim (substitute_in-cases e es) [
        | inl b ↦ cc
        | inr (inl (a, r)) ↦ ((a, o), pass-IsPassed es (sym r ∙ h))
        | inr (inr (value, g, c, r)) ↦ elim (resolve-not_pass e value (sym r ∙ h)) [ ]
      ]

  IsPassed-pass :
      (es : List EscrowEntry) → All IsPassed es → substitute_in x s host path get_header es ≡ pass
  unfolding substitute_in
  IsPassed-pass [] h = refl
  IsPassed-pass (e ∷ es) (p, h) = substitute_in-passes e es p ∙ IsPassed-pass es h

  replace-in :
      (es : List EscrowEntry) {header v : Text}
      → substitute_in x s host path get_header es ≡ replace header v
      → (before after : List EscrowEntry) × (e : EscrowEntry) × (es ≡ before ++ (e ∷ after))
        × All (IsAbsent x s get_header) before
        × Replaced x s host get_header header v e
  replace-in [] h = unfold substitute_in in cc
  replace-in (e ∷ es) {header} {v} h = elim (substitute_in-cases e es) [
    | inl b ↦ cc
    | inr (inl (a, r)) ↦
        let (before, after, f, eq, all', z) = replace-in es {header = header} {v = v} (sym r ∙ h) in
        (e ∷ before, after, f, ap (λ l. e ∷ l) eq, (a, all'), z)
    | inr (inr (value, g, c, r)) ↦
        ([], es, e, refl, tt, resolve-replace e value {header = header} {v = v} g c (sym r ∙ h))
  ]

  -- A header is rewritten only for an entry that is pinned to the request's host, whose fake stands
  -- in that header, and whose real value is known; the header is then that entry's replacement, and
  -- no entry before it has its fake in the request.
  pub substitute-replace :
      {header v : Text}
      → substitute x s host path get_header ≡ replace header v
      → (before after : List EscrowEntry) × (e : EscrowEntry) × (s.entries ≡ before ++ (e ∷ after))
        × All (IsAbsent x s get_header) before
        × Replaced x s host get_header header v e
  unfolding substitute
  substitute-replace h = replace-in s.entries h

  -- A request passes unchanged exactly where, for every entry, its fake does not stand in the header
  -- of the entry and the request is not a refresh of a session of the entry that the host owns.
  pub substitute-pass : (substitute x s host path get_header ≡ pass) ↔ All IsPassed s.entries
  unfolding substitute
  substitute-pass = (pass-IsPassed s.entries, IsPassed-pass s.entries)

  -- Toward a host that Cline's gate does not cover no account of Cline is sent: the entry whose
  -- value replaces the fake has no Cline host and holds no session.
  pub substitute-no_cline :
      {header v : Text}
      → substitute x s host path get_header ≡ replace header v
      → is_cline_credential_host x s host ≡ false
      → (e : EscrowEntry) × Replaced x s host get_header header v e
        × (is_cline_entry x e ≡ false)
        × (has_session x e.name s ≡ false)
  unfolding is_cline_credential_host
  substitute-no_cline {header} {v} r n =
      let (before, after, e, q, a, z) = substitute-replace {header = header} {v = v} r in
      let p : EscrowEntry → Bool =
        λ e. (is_cline_entry x e || has_session x e.name s) && is_pinned x e host in
      let m : any p (before ++ (e ∷ after)) ≡ false = ap (any p) (sym q) ∙ n in
      let k : p e ≡ false = any-member p before after e m in
      let (value, real, w, g, c, pinned, known, rest) = z in (e, z, ground arith, ground arith)
