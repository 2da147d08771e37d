-- ===== src/SecretStore/Saving.antt =====
-- A load returns what the entries hold, and a save leaves what they held or what it was given.
use friendzone.Prelude.{
  ◌≡◌, refl, subst, Option, some, List, ◌∷◌, false, ◌==◌, nat_eq, inl, ◌⊎◌, any,
}
use friendzone.Prelude.Text.{text_eq}
use friendzone.Github.{Uuid}
use friendzone.SecretStore.{Values, Disk, Manifest, Codec}
use friendzone.SecretStore.Entries.{M, ◌>>=◌}
use friendzone.SecretStore.Vault.{manifest, load, new_generation, save}
use friendzone.SecretStore.Outcomes.{
  From, From-pure, From-bind, From-read, From-then, From-check, From-weaken,
}
use friendzone.SecretStore.Reading.{HasBytes, HasValues-unique, current_values-From}
use friendzone.SecretStore.Invariant.{IsStored-unique, HoldsUnder, Holds, manifest-From}
use friendzone.SecretStore.Cleaning.{SameFiles, HeldWith, cleanup-From}
use friendzone.SecretStore.Staging.{
  IsCodec, known-IsApart, generation_good, stage-From, commit-From, Holds-more,
}

module _ (x : Codec) (ids : List Uuid) (d : Disk) (v : Option Values) where
  -- The manifest that is read is the one under which the values are held.
  read_under :
      {A : Type 0} (f : Manifest → M A) (P : A → Disk → Type 0) (I : Disk → Type 0)
      → Holds x ids d v
      → I d
      → ((m : Manifest) → HoldsUnder x ids d m v → From d (f m) P I)
      → From d (manifest >>= f) P I
  read_under f P I h i k = From-read manifest f _ P i (manifest-From d) (λ m q.
      let e : h.manifest ≡ m = IsStored-unique d.manifest h.manifest m h.under.stored q.1 in
      k m (subst (λ n. HoldsUnder x ids d n v) e h.under))

  pub load-From :
      Holds x ids d v → From d (load x) (λ r e. (r ≡ v) × HeldWith x ids v d e) (HeldWith x ids v d)
  unfolding load
  load-From h =
      read_under _ _ _ h (h, (refl, refl))
        (λ m u.
          From-read _ _ _ _ (h, (refl, refl)) (current_values-From x d m.current)
            (λ r q. From-bind _ _ _ _ (cleanup-From x ids d m v d u (refl, refl)) (λ n e c.
              From-pure _ _ (
                HasValues-unique x d m.current r v q u.values,
                (record { manifest = n; under = c.0 }, c.1),
              ))))

module _ (x : Codec) (c : IsCodec x) (ids : List Uuid) (id : Uuid) (values : Values) (d : Disk)
    (v : Option Values) where
  -- What a save leaves that does not return: the old values or the new ones.
  abbrev pub Undecided : Disk → Type 0
  Undecided e = (Holds x (id ∷ ids) e v ⊎ Holds x (id ∷ ids) e (some values)) × SameFiles d e

  old : (e : Disk) → HeldWith x ids v d e → Undecided e
  old e h = (inl (Holds-more x ids id e v h.0), h.1)

  pub save-From :
      any (λ i. i == id) ids ≡ false
      → Holds x ids d v
      → From d (save x id values) (λ _. HeldWith x (id ∷ ids) (some values) d) Undecided
  unfolding save
  save-From fresh h = read_under x ids d v _ _ _ h (old d (h, (refl, refl))) (λ m u.
      From-bind _ _ _ _
        (From-weaken _ _ _ _ _ (λ n e q. q) old (cleanup-From x ids d m v d u (refl, refl)))
        (λ n e q. From-check _ _ _ _ (old e (record { manifest = n; under = q.0 }, q.1)) (λ small.
          let apart = known-IsApart ids id n.current fresh q.0.known in
          let good = generation_good x c ids id values small in
          From-then _ _
            (λ f.
              HoldsUnder x ids f
                (record n { pending = some (new_generation x id (x.to_vec values)) }) v
              × SameFiles d f
              × HasBytes x f (new_generation x id (x.to_vec values)) (x.to_vec values))
            _
            (From-weaken _ _ _ _ _ (λ _ f r. r) old
              (stage-From x c ids id values d n v q.3 q.4 apart good e q.0 q.1))
            (λ f r.
              commit-From x c ids id values d n v q.3 q.4 apart good f q.0.valid r.0 r.1 r.2))))
