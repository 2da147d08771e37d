-- ===== src/Routing/Hosts.antt =====
-- Hosts are compared by their canonical forms: the comparison is a partial equivalence, so gates
-- that use it can never disagree about a host.
use friendzone.Prelude.{
  ℕ, ◌≡◌, ◌≢◌, true, some, [], ◌∷◌, arith, inl, inr, ◌==◌, Option-cases, ◌&&◌, if◌then◌else◌,
  nat_eq,
}
use friendzone.Prelude.Text.{Text, text_beq_iff, is_empty}
use friendzone.Http.{UrlParser}
use friendzone.Routing.{normalize_host, host_matches, trim_dots}

abbrev pub EndsPlain : Text → Type 0
EndsPlain [] = Unit
EndsPlain (c ∷ []) = c ≢ b'.'
EndsPlain (c ∷ d ∷ s) = EndsPlain (d ∷ s)

-- One round of `trim_dots`.
keep-EndsPlain :
    (c : ℕ) (t : Text) → EndsPlain t → EndsPlain (if c == b'.' && is_empty t then [] else c ∷ t)
unfolding is_empty
keep-EndsPlain c [] h = ground arith
keep-EndsPlain c (d ∷ t) h = ground arith

-- No canonical host ends in a dot.
pub trim_dots-EndsPlain : (s : Text) → EndsPlain (trim_dots s)
unfolding trim_dots
trim_dots-EndsPlain [] = tt
trim_dots-EndsPlain (c ∷ s) = keep-EndsPlain c (trim_dots s) (trim_dots-EndsPlain s)

module _ (parse : UrlParser) where
  pub host_matches_iff :
      (a b : Text)
      → host_matches parse a b ≡ true
      → (h : Text) × (normalize_host parse a ≡ some h) × (normalize_host parse b ≡ some h)
  unfolding host_matches
  host_matches_iff a b m = elim (Option-cases (normalize_host parse a)) [
    | inl e ↦ ground arith
    | inr (h, e) ↦ elim (Option-cases (normalize_host parse b)) [
      | inl e' ↦ ground arith
      | inr (k, e') ↦ (h, e, ground (arith, text_beq_iff h k))
    ]
  ]

  pub host_matches_of_eq :
      (a b h : Text)
      → normalize_host parse a ≡ some h
      → normalize_host parse b ≡ some h
      → host_matches parse a b ≡ true
  unfolding host_matches
  host_matches_of_eq a b h p q = ground (arith, text_beq_iff h h)

  -- Two pins that match one host match each other.
  pub host_matches_trans :
      (a b c : Text)
      → host_matches parse a b ≡ true
      → host_matches parse b c ≡ true
      → host_matches parse a c ≡ true
  host_matches_trans a b c p q =
      let (h, pa, pb) = host_matches_iff a b p in
      let (k, qb, qc) = host_matches_iff b c q in host_matches_of_eq a c h pa (cc)

  pub host_matches_symm :
      (a b : Text) → host_matches parse a b ≡ true → host_matches parse b a ≡ true
  host_matches_symm a b p =
      let (h, pa, pb) = host_matches_iff a b p in host_matches_of_eq b a h pb pa
