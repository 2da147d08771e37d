-- ===== src/State/Paging.antt =====
-- The pages of the request log: what one page leaves out, the next one shows.
use friendzone.Prelude.{
  subst, Option-cases, ◌≤◌, ◌≡◌, refl, ◌⊎◌, inl, inr, sym, ap, ◌∙◌, ℕ, zero, suc, Bool, true, none,
  some, List, [], ◌∷◌, ◌++◌, arith, filter, take, drop, All, All-append, All-filter, All-map, ltb,
  is_none_or, Bool-cases, take-append-drop, ◌<◌,
}
use mathlib.Core.List.{reverse, reverse-cons}
use friendzone.Prelude.Text.{Text}
use friendzone.State.{RequestEvent, AppState}
use friendzone.State.Log.{LogQuery, fits, is_match, matches, log_page, page_limit, last_sequence}

-- The oldest first, and the newest first, without two of one sequence.
abbrev pub IsIncreasing : List RequestEvent → Type 0
IsIncreasing [] = Unit
IsIncreasing (e ∷ es) = All (λ d. e.sequence < d.sequence) es × IsIncreasing es

abbrev IsDecreasing : List RequestEvent → Type 0
IsDecreasing [] = Unit
IsDecreasing (e ∷ es) = All (λ d. d.sequence < e.sequence) es × IsDecreasing es

snoc-IsDecreasing :
    (es : List RequestEvent) (e : RequestEvent)
    → All (λ d. e.sequence < d.sequence) es
    → IsDecreasing es
    → IsDecreasing (es ++ e ∷ [])
snoc-IsDecreasing [] e a h = (tt, tt)
snoc-IsDecreasing (d ∷ es) e a h = (
  All-append (λ c. c.sequence < d.sequence) es (e ∷ []) h.0 (a.0, tt),
  snoc-IsDecreasing es e a.1 h.1,
)

All-reverse : (P : RequestEvent → Type 0) (es : List RequestEvent) → All P es → All P (reverse es)
All-reverse P [] a = tt
All-reverse P (e ∷ es) a =
    rw (reverse-cons e es) (All-append P (reverse es) (e ∷ []) (All-reverse P es a.1) (a.0, tt))

reverse-IsDecreasing : (es : List RequestEvent) → IsIncreasing es → IsDecreasing (reverse es)
reverse-IsDecreasing [] h = tt
reverse-IsDecreasing (e ∷ es) h = rw (reverse-cons e es) (
    snoc-IsDecreasing (reverse es) e (All-reverse (λ d. e.sequence < d.sequence) es h.0)
      (reverse-IsDecreasing es h.1))

filter-IsDecreasing :
    (p : RequestEvent → Bool) (es : List RequestEvent)
    → IsDecreasing es
    → IsDecreasing (filter p es)
filter-IsDecreasing p [] h = tt
filter-IsDecreasing p (e ∷ es) h = elim (Bool-cases (p e)) [
  | inl y ↦ rw y (All-filter (λ d. d.sequence < e.sequence) p es h.0, filter-IsDecreasing p es h.1)
  | inr n ↦ rw n (filter-IsDecreasing p es h.1)
]

All-take :
    (P : RequestEvent → Type 0) (n : ℕ) (es : List RequestEvent) → All P es → All P (take n es)
All-take P zero es a = tt
All-take P (suc n) [] a = tt
All-take P (suc n) (e ∷ es) a = (a.0, All-take P n es a.1)

-- What holds of every event's sequence holds of the last one.
last_sequence-All :
    (P : ℕ → Type 0) (es : List RequestEvent) (b : ℕ)
    → All (λ e. P e.sequence) es
    → last_sequence es ≡ some b
    → P b
last_sequence-All P [] b a h = cc
last_sequence-All P (e ∷ []) b a h = let k : e.sequence ≡ b = cc in subst P k a.0
last_sequence-All P (e ∷ d ∷ es) b a h = last_sequence-All P (d ∷ es) b a.1 h

filter-older :
    (b : ℕ) (es : List RequestEvent)
    → All (λ d. d.sequence < b) es
    → filter (λ e. ltb e.sequence b) es ≡ es
filter-older b [] a = refl
filter-older b (e ∷ es) a = ground (arith, filter-older b es a.1, a.0)

-- The events older than the last one of a page are those that the page leaves out.
filter-drop :
    (n : ℕ) (es : List RequestEvent) (b : ℕ)
    → IsDecreasing es
    → last_sequence (take n es) ≡ some b
    → filter (λ e. ltb e.sequence b) es ≡ drop n es
filter-drop zero es b d h = cc
filter-drop (suc n) [] b d h = cc
filter-drop (suc zero) (e ∷ es) b d h =
    let k : e.sequence ≡ b = cc in ground (arith, k, filter-older e.sequence es d.0)
filter-drop (suc (suc n)) (e ∷ []) b d h = let k : e.sequence ≡ b = cc in ground (arith, k)
filter-drop (suc (suc n)) (e ∷ c ∷ es) b d h =
    let l : b < e.sequence =
      last_sequence-All (λ s. s < e.sequence) (take (suc n) (c ∷ es)) b
        (All-take (λ x. x.sequence < e.sequence) (suc n) (c ∷ es) d.0) h in
    ground (arith, l, filter-drop (suc n) (c ∷ es) b d.1 h)

All-match : (p : RequestEvent → Bool) (es : List RequestEvent) → All (λ e. p e ≡ true) (filter p es)
All-match p [] = tt
All-match p (e ∷ es) = elim (Bool-cases (p e)) [
  | inl y ↦ rw y (y, All-match p es)
  | inr n ↦ rw n (All-match p es)
]

-- The cursor narrows the events that fit to those that are older.
filter-is_match :
    (lower : Text → Text) (query : LogQuery) (b : ℕ) (es : List RequestEvent)
    → is_none_or query.before (λ before. ltb b before) ≡ true
    → filter (is_match lower (record query { before = some b })) es
      ≡ filter (λ e. ltb e.sequence b) (filter (is_match lower query) es)
unfolding is_match fits
filter-is_match lower query b [] h = refl
filter-is_match lower query b (e ∷ es) h = elim (Option-cases query.before) [
  | inl n ↦ ground (arith, filter-is_match lower query b es h)
  | inr (c, k) ↦ ground (arith, filter-is_match lower query b es h)
]

last_sequence-some :
    (e : RequestEvent) (es : List RequestEvent) → (b : ℕ) × (last_sequence (e ∷ es) ≡ some b)
last_sequence-some e [] = (e.sequence, refl)
last_sequence-some e (d ∷ es) = last_sequence-some d es

-- A page that leaves something out is not empty.
take-last :
    (n : ℕ) (es : List RequestEvent)
    → 1 ≤ n
    → (drop n es ≡ [])
      ⊎ ((b : ℕ) × (last_sequence (take n es) ≡ some b)
          × (e : RequestEvent) × (rest : List RequestEvent) × (drop n es ≡ e ∷ rest))
take-last zero es l = absurd (omega (arith, l))
take-last (suc n) [] l = inl refl
take-last (suc n) (e ∷ es) l = go (drop n es) refl
  where
    go :
        (ds : List RequestEvent)
        → drop n es ≡ ds
        → (drop n es ≡ [])
          ⊎ ((b : ℕ) × (last_sequence (e ∷ take n es) ≡ some b)
              × (d : RequestEvent) × (rest : List RequestEvent) × (drop n es ≡ d ∷ rest))
    go [] h = inl h
    go (d ∷ ds) h = let (b, k) = last_sequence-some e (take n es) in inr (b, k, d, ds, h)

match-before :
    (lower : Text → Text) (query : LogQuery) (e : RequestEvent)
    → is_match lower query e ≡ true
    → is_none_or query.before (λ before. ltb e.sequence before) ≡ true
unfolding is_match
match-before lower query e h = ground (arith, h)

-- A page and the pages after it: where a query's page names a cursor, the same query with that
-- cursor finds all that the page left out, in the same order, and nothing else; where it names
-- none, the page is all that the query finds. The events stand in the log in the order of their
-- sequences.
pub log_page-continues :
    (lower : Text → Text) (query : LogQuery) (s : AppState)
    → IsIncreasing s.state.requests
    → matches lower query s.state.requests
      ≡ (log_page lower query s).requests ++ elim (log_page lower query s).next_before [
        | none ↦ []
        | some b ↦ matches lower (record query { before = some b }) s.state.requests
      ]
unfolding log_page matches page_limit
log_page-continues lower query s i =
    let n = page_limit query.limit in
    let m = filter (is_match lower query) (reverse s.state.requests) in
    let d : IsDecreasing m =
      filter-IsDecreasing (is_match lower query) (reverse s.state.requests)
        (reverse-IsDecreasing s.state.requests i) in
    elim (take-last n m (omega arith)) [
      | inl e ↦ rw e (sym (ap (λ x. take n m ++ x) (sym e) ∙ take-append-drop n m))
      | inr (b, l, x, rest, e) ↦
          let older : is_none_or query.before (λ before. ltb b before) ≡ true =
            last_sequence-All (λ c. is_none_or query.before (λ before. ltb c before) ≡ true)
              (take n m) b
              (All-take (λ c. is_none_or query.before (λ before. ltb c.sequence before) ≡ true) n m
                (All-map m (λ c k. match-before lower query c k)
                  (All-match (is_match lower query) (reverse s.state.requests))))
              l in
          let cut : filter (is_match lower (record query { before = some b }))
                (reverse s.state.requests)
              ≡ drop n m =
            filter-is_match lower query b (reverse s.state.requests) older
            ∙ filter-drop n m b d l in
          rw (e, l, cut) (sym (take-append-drop n m))
    ]
