-- ===== src/SecretStore/Migrating.antt =====
-- A migration loses no credentials, wherever it is cut off, and overwrites neither source.
use friendzone.Prelude.{
  ◌≡◌, refl, sym, ◌∙◌, subst, Option, none, some, List, [], ◌∷◌, true, false, ◌==◌, nat_eq,
  string_eq, any, Bool-cases, Option-cases, ap, arith, inl, inr, ◌⊎◌,
}
use friendzone.Prelude.Text.{Text, text_eq}
use friendzone.Github.{Uuid}
use friendzone.SecretStore.{Values, Disk, Codec}
use friendzone.SecretStore.Entries.{
  M, pure, ◌>>◌, read_legacy_file, read_marker, write_marker, remove_legacy,
}
use friendzone.SecretStore.Vault.{load, save}
use friendzone.SecretStore.Migration.{
  values_beq, read_legacy, check_marker, marker_exists, write_marker_once, copy_legacy, move_legacy,
  migrate, migrate_from, legacy_values, marker_contents,
}
use friendzone.SecretStore.Outcomes.{
  From, From-pure, From-call, From-bind, From-read, From-then, From-check, From-weaken,
  From-bail_if, Reads,
}
use friendzone.SecretStore.Reading.{HasValues-same}
use friendzone.SecretStore.Invariant.{Holds}
use friendzone.SecretStore.Cleaning.{HeldWith}
use friendzone.SecretStore.Staging.{IsCodec, Holds-more}
use friendzone.SecretStore.Saving.{load-From, save-From}

values_beq-eq : (a b : Values) → values_beq a b ≡ true → a ≡ b
unfolding values_beq
values_beq-eq [] [] h = refl
values_beq-eq [] (b ∷ bs) h = cc
values_beq-eq (a ∷ as') [] h = cc
values_beq-eq ((k, v) ∷ as') ((j, w) ∷ bs) h =
    ground (arith, h, text_eq.beq_iff k j, text_eq.beq_iff v w, values_beq-eq as' bs)

-- What changes nothing, whether it returns or fails.
abbrev Looks : {A : Type 0} → Disk → M A → Type 0
Looks d m = From d m (λ _ e. e ≡ d) (λ e. e ≡ d)

From-look :
    {A : Type 0} {d : Disk} {I : Disk → Type 0} (m : M (Unit {0})) (k : M A) (P : A → Disk → Type 0)
    → I d
    → Looks d m
    → From d k P I
    → From d (m >> k) P I
From-look {A} {d} {I} m k P i h g =
    From-then m k (λ e. e ≡ d) P (From-weaken m _ _ _ I (λ _ e q. q) (λ e q. subst I (sym q) i) h)
      (λ e q. subst (λ c. From c k P I) (sym q) g)

check_marker-Looks :
    (d : Disk) (saved : Option Values) (o : Option Text) → Looks d (check_marker saved o)
unfolding check_marker
check_marker-Looks d saved none = From-pure _ _ refl
check_marker-Looks d saved (some contents) =
    From-check _ _ _ _ refl (λ _. From-bail_if _ _ _ refl (λ _. refl))

read_legacy-From :
    (d : Disk) (old : Values)
    → d.legacy ≡ some (some old)
    → From d read_legacy (Reads d (λ r. r ≡ some old)) (λ e. e ≡ d)
unfolding read_legacy read_legacy_file
read_legacy-From d old h =
    From-read _ legacy_values (λ o. o ≡ some (some old)) _ refl
      (From-call (λ e. e.legacy) (λ e. e) _ (refl, h) refl refl)
      (λ o q.
        subst (λ p. From d (legacy_values p) (Reads d (λ r. r ≡ some old)) (λ e. e ≡ d)) (sym q)
          (From-pure _ _ (refl, refl)))

module _ (x : Codec) (c : IsCodec x) (ids : List Uuid) (id : Uuid) (old : Values)
    (v : Option Values) where
  -- The credentials of `secrets.json` are there still, or in the store, and the store was not
  -- overwritten, except where it was empty.
  pub record IsSafe (d : Disk) : Type 0 where
    pub not_lost : (d.legacy ≡ some (some old)) ⊎ Holds x (id ∷ ids) d (some old)
    pub not_overwritten : Holds x (id ∷ ids) d v ⊎ ((v ≡ none) × Holds x (id ∷ ids) d (some old))

  -- They are copied, and what the store held was the same or nothing.
  record IsCopied (d : Disk) : Type 0 where
    held : Holds x (id ∷ ids) d (some old)
    before : (v ≡ some old) ⊎ (v ≡ none)

  IsCopied-IsSafe : (d : Disk) → IsCopied d → IsSafe d
  IsCopied-IsSafe d h = record {
    not_lost = inr h.held;
    not_overwritten = elim (h.before) [
      | inl e ↦ inl (subst (Holds x (id ∷ ids) d) (sym e) h.held)
      | inr e ↦ inr (e, h.held)
    ];
  }

  untouched : (d : Disk) → d.legacy ≡ some (some old) → Holds x ids d v → IsSafe d
  untouched d l h = record { not_lost = inl l; not_overwritten = inl (Holds-more x ids id d v h) }

  -- The files are not of the store.
  Holds-files :
      (d : Disk) (l : Option (Option Values)) (m : Option Text)
      → Holds x (id ∷ ids) d (some old)
      → Holds x (id ∷ ids) (record d { legacy = l; marker = m }) (some old)
  Holds-files d l m h = record {
    manifest = h.manifest;
    under = record {
      valid = h.under.valid;
      stored = h.under.stored;
      known = h.under.known;
      values =
          HasValues-same x d (record d { legacy = l; marker = m }) h.manifest.current (some old)
            (λ g q n. refl) h.under.values;
    };
  }

  IsCopied-files :
      (d : Disk) (l : Option (Option Values)) (m : Option Text)
      → IsCopied d
      → IsCopied (record d { legacy = l; marker = m })
  IsCopied-files d l m h = record { held = Holds-files d l m h.held; before = h.before }

  write_marker_once-From : (d : Disk) → IsCopied d → From d write_marker_once (λ _. IsCopied) IsSafe
  unfolding write_marker_once write_marker marker_exists
  write_marker_once-From d h =
      From-read marker_exists _ (λ _. Unit {0}) _ (IsCopied-IsSafe d h)
        (record { at = λ fs. (refl, tt) })
        (λ here _. elim (Bool-cases here) [
          | inl y ↦ rw y (From-pure _ _ h)
          | inr n ↦
              let k = IsCopied-files d d.legacy (some marker_contents) h in
              rw n (
                From-call _ _ _ k (IsCopied-IsSafe d h)
                  (IsCopied-IsSafe (record d { marker = some marker_contents }) k))
        ])

  copy_legacy-From :
      (d : Disk)
      → any (λ i. i == id) ids ≡ false
      → d.legacy ≡ some (some old)
      → Holds x ids d v
      → From d (copy_legacy x id v old) (λ _. IsCopied) IsSafe
  unfolding copy_legacy
  copy_legacy-From d fresh l h = elim (Option-cases v) [
    | inl n ↦
        subst (λ w. From d (copy_legacy x id w old) (λ _. IsCopied) IsSafe) (sym n)
          (From-weaken (save x id old) _ _ _ _ (λ _ e q. record { held = q.0; before = inr n })
            (λ e q. record {
              not_lost = inl (q.1.0 ∙ l);
              not_overwritten = elim (q.0) [ inl k ↦ inl k | inr k ↦ inr (n, k) ];
            })
            (save-From x c ids id old d v fresh h))
    | inr (w, n) ↦
        subst (λ w. From d (copy_legacy x id w old) (λ _. IsCopied) IsSafe) (sym n)
          (From-bail_if _ _ _ (untouched d l h) (λ y.
            let e : w ≡ old = values_beq-eq w old (ground (arith, y)) in
            let o : v ≡ some old = n ∙ ap some e in
            record {
              held = subst (Holds x (id ∷ ids) d) o (Holds-more x ids id d v h);
              before = inl o;
            }))
  ]

  -- A load keeps what has been copied.
  load-IsCopied :
      (d : Disk) → IsCopied d → From d (load x) (λ r e. (r ≡ some old) × IsCopied e) IsSafe
  load-IsCopied d h =
      From-weaken (load x) _ _ _ _ (λ r e q. (q.0, record { held = q.1.0; before = h.before }))
        (λ e q. IsCopied-IsSafe e (record { held = q.0; before = h.before }))
        (load-From x (id ∷ ids) d (some old) h.held)

  abbrev Moved : Values → Disk → Type 0
  Moved r e = (r ≡ old) × Holds x (id ∷ ids) e (some old) × (e.legacy ≡ none)

  finish_move :
      (d : Disk)
      → IsCopied d
      → From d (write_marker_once >> (remove_legacy >> pure old)) Moved IsSafe
  unfolding remove_legacy
  finish_move d h = From-then _ _ IsCopied _ (write_marker_once-From d h) (λ e k.
      let r = IsCopied-files e none e.marker k in
      From-then _ _ (λ f. Holds x (id ∷ ids) f (some old) × (f.legacy ≡ none)) _
        (From-call _ _ _ (r.held, refl) (IsCopied-IsSafe e k)
          (IsCopied-IsSafe (record e { legacy = none }) r))
        (λ f q. From-pure _ _ (refl, q.0, q.1)))

  move_legacy-From :
      (d : Disk)
      → any (λ i. i == id) ids ≡ false
      → d.legacy ≡ some (some old)
      → Holds x ids d v
      → From d (move_legacy x id v old) Moved IsSafe
  unfolding move_legacy
  move_legacy-From d fresh l h = From-then _ _ IsCopied _ (copy_legacy-From d fresh l h) (λ e k.
      From-bind _ _ _ _ (load-IsCopied e k)
        (λ r f q. From-check _ _ _ _ (IsCopied-IsSafe f q.1) (λ _. finish_move f q.1)))

  -- A migration that returns has moved the credentials of `secrets.json`: it returns them, the store
  -- holds them, and the file is gone. One that fails or is cut off, at any call, has not lost them:
  -- the file is as it was or the store holds them; and the store still holds what it held, unless
  -- that was nothing. The store holds values at the start, and the drawn ID is new.
  pub migrate-keeps :
      (d : Disk)
      → any (λ i. i == id) ids ≡ false
      → d.legacy ≡ some (some old)
      → Holds x ids d v
      → From d
          (migrate x id)
          (λ r e. (r ≡ old) × Holds x (id ∷ ids) e (some old) × (e.legacy ≡ none))
          IsSafe
  unfolding migrate read_marker
  migrate-keeps d fresh l h =
      From-bind (load x) _ (λ s e. (s ≡ v) × HeldWith x ids v d e) _
        (From-weaken (load x) _ _ _ _ (λ s e q. q) (λ e q. untouched e (q.1.0 ∙ l) q.0)
          (load-From x ids d v h))
        (λ s e q.
          let k : e.legacy ≡ some (some old) = q.1.1.0 ∙ l in
          let safe = untouched e k q.1.0 in
          From-read read_marker _ (λ _. Unit {0}) _ safe
            (From-call (λ f. f.marker) (λ f. f) _ (refl, tt) refl refl)
            (λ contents _.
              From-look (check_marker s contents) _ _ safe (check_marker-Looks e s contents) (
                From-read read_legacy _ (λ r. r ≡ some old) _ safe (read_legacy-From e old k)
                  (λ r p.
                    subst (λ t. From e (migrate_from x id t r) Moved IsSafe) (sym q.0)
                      (subst (λ t. From e (migrate_from x id v t) Moved IsSafe) (sym p)
                        (move_legacy-From e fresh k q.1.0))))))
