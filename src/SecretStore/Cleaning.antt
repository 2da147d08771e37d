-- ===== src/SecretStore/Cleaning.antt =====
-- What is not of the current generation may be written and removed.
use friendzone.Prelude.{
  ◌≡◌, refl, sym, ◌∙◌, subst, ℕ, zero, suc, ◌+◌, Option, none, some, List, [], ◌∷◌, false, ◌==◌,
  ◌||◌, nat_eq, arith, is_some, Bool-cases, inl, inr, if◌then◌else◌,
}
use friendzone.Github.{Uuid}
use friendzone.SecretStore.{Bytes, Values, Disk, Generation, Manifest, parsed, Codec}
use friendzone.SecretStore.Entries.{
  pure, ◌>>◌, write_manifest, write_chunk, delete_chunk, set_chunk,
}
use friendzone.SecretStore.Vault.{
  is_same_id, is_aliased, has_bad_generation, publish, delete_chunks, delete_generation, cleanup,
  write_chunks,
}
use friendzone.SecretStore.Outcomes.{From, From-pure, From-call, From-then, From-weaken}
use friendzone.SecretStore.Reading.{HasValues, HasValues-same}
use friendzone.SecretStore.Invariant.{IsManifest, IsStored, IsKnown, HoldsUnder, Holds}

-- The manifest, the files, and the chunks of this generation are the same.
pub record SameAt (o : Option Generation) (d e : Disk) : Type 0 where
  pub manifest : e.manifest ≡ d.manifest
  pub legacy : e.legacy ≡ d.legacy
  pub marker : e.marker ≡ d.marker
  pub chunks : (g : Generation) → o ≡ some g → (n : ℕ) → e.chunk g.id n ≡ d.chunk g.id n

pub SameAt-refl : (o : Option Generation) (d : Disk) → SameAt o d d
SameAt-refl o d = record { manifest = refl; legacy = refl; marker = refl; chunks = λ g q n. refl }

pub SameAt-trans :
    (o : Option Generation) (c d e : Disk) → SameAt o c d → SameAt o d e → SameAt o c e
SameAt-trans o c d e h k = record {
  manifest = k.manifest ∙ h.manifest;
  legacy = k.legacy ∙ h.legacy;
  marker = k.marker ∙ h.marker;
  chunks = λ g q n. k.chunks g q n ∙ h.chunks g q n;
}

-- No generation that is there has this ID.
abbrev pub IsApart : Option Generation → Uuid → Type 0
IsApart o id = (g : Generation) → o ≡ some g → (g.id == id) ≡ false

set_chunk-SameAt :
    (o : Option Generation) (id : Uuid) (index : ℕ) (b : Option Bytes) (d : Disk)
    → IsApart o id
    → SameAt o d (set_chunk id index b d)
set_chunk-SameAt o id index b d a = record {
  manifest = refl;
  legacy = refl;
  marker = refl;
  chunks = λ g q n. rw (a g q) refl;
}

module _ (o : Option Generation) (id : Uuid) (apart : IsApart o id) where
  pub delete_chunks-From :
      (d : Disk) (index left : ℕ)
      → From d (delete_chunks id index left) (λ _. SameAt o d) (SameAt o d)
  unfolding delete_chunks delete_chunk
  delete_chunks-From d index zero = From-pure _ _ (SameAt-refl o d)
  delete_chunks-From d index (suc left) =
      let k = set_chunk-SameAt o id index none d apart in
      From-then _ _ (SameAt o d) _ (From-call _ _ _ k (SameAt-refl o d) k) (λ e h.
        From-weaken _ (λ _. SameAt o e) _ (SameAt o e) _ (λ _ f. SameAt-trans o d e f h)
          (λ f. SameAt-trans o d e f h) (delete_chunks-From e (index + 1) left))

  pub write_chunks-From :
      (d : Disk) (index : ℕ) (chunks : List Bytes)
      → From d (write_chunks id index chunks) (λ _. SameAt o d) (SameAt o d)
  unfolding write_chunks write_chunk
  write_chunks-From d index [] = From-pure _ _ (SameAt-refl o d)
  write_chunks-From d index (b ∷ chunks) =
      let k = set_chunk-SameAt o id index (some b) d apart in
      From-then _ _ (SameAt o d) _ (From-call _ _ _ k (SameAt-refl o d) k) (λ e h.
        From-weaken _ (λ _. SameAt o e) _ (SameAt o e) _ (λ _ f. SameAt-trans o d e f h)
          (λ f. SameAt-trans o d e f h) (write_chunks-From e (index + 1) chunks))

same_id-apart :
    (o : Option Generation) (g h : Generation)
    → o ≡ some h
    → is_same_id o (some g) ≡ false
    → (h.id == g.id) ≡ false
unfolding is_same_id
same_id-apart o g h q n = subst (λ t. is_same_id t (some g) ≡ false) q n

pub delete_generation-From :
    (o p : Option Generation) (d : Disk)
    → is_same_id o p ≡ false
    → From d (delete_generation p) (λ _. SameAt o d) (SameAt o d)
unfolding delete_generation
delete_generation-From o none d n = From-pure _ _ (SameAt-refl o d)
delete_generation-From o (some g) d n =
    delete_chunks-From o g.id (λ h q. same_id-apart o g h q n) d 0 g.chunks

distinct_ids :
    (m : Manifest)
    → IsManifest m
    → (is_same_id m.current m.pending ≡ false) × (is_same_id m.current m.retired ≡ false)
unfolding is_aliased
distinct_ids m h = ground (arith, h.distinct)

-- The files that a migration reads are the same.
abbrev pub SameFiles : Disk → Disk → Type 0
SameFiles d e = (e.legacy ≡ d.legacy) × (e.marker ≡ d.marker)

module _ (x : Codec) (ids : List Uuid) where
  pub HoldsUnder-SameAt :
      (d e : Disk) (m : Manifest) (v : Option Values)
      → HoldsUnder x ids d m v
      → SameAt m.current d e
      → HoldsUnder x ids e m v
  HoldsUnder-SameAt d e m v h s = record {
    valid = h.valid;
    stored = subst (λ t. IsStored t m) (sym s.manifest) h.stored;
    known = h.known;
    values = HasValues-same x d e m.current v s.chunks h.values;
  }

  -- The manifest is replaced by one that keeps the current generation.
  pub publish-HoldsUnder :
      (d : Disk) (m n : Manifest) (v : Option Values)
      → HoldsUnder x ids d m v
      → IsManifest n
      → n.current ≡ m.current
      → HoldsUnder x ids (record d { manifest = some (parsed n) }) n v
  publish-HoldsUnder d m n v h k c = record {
    valid = k;
    stored = refl;
    known = subst (IsKnown ids) (sym c) h.known;
    values =
        HasValues-same x d (record d { manifest = some (parsed n) }) n.current v (λ g q i. refl)
          (subst (λ o. HasValues x d o v) (sym c) h.values);
  }

  abbrev pub HeldWith : Option Values → Disk → Disk → Type 0
  HeldWith v d e = Holds x ids e v × SameFiles d e

  -- What `cleanup` makes of a manifest.
  abbrev pub cleaned : Manifest → Manifest
  cleaned m = record m { pending = none; retired = none }

  cleaned-IsManifest : (m : Manifest) → IsManifest m → IsManifest (cleaned m)
  unfolding has_bad_generation is_aliased is_same_id
  cleaned-IsManifest m h = record {
    versioned = h.versioned;
    bounded = ground (arith, h.bounded);
    distinct = ground (arith, h.distinct);
  }

  abbrev pub Cleaned : Disk → Manifest → Option Values → Manifest → Disk → Type 0
  Cleaned b m v m' e =
      HoldsUnder x ids e m' v
      × SameFiles b e
      × (m'.current ≡ m.current)
      × (m'.pending ≡ none)
      × (m'.retired ≡ none)

  -- The removal of what is obsolete keeps the values, wherever it is cut off. The files are those of
  -- an earlier state `b`.
  module _ (b : Disk) (m : Manifest) (v : Option Values) where
    kept :
        (d e : Disk)
        → HoldsUnder x ids d m v
        → SameFiles b d
        → SameAt m.current d e
        → HoldsUnder x ids e m v × SameFiles b e
    kept d e h f s = (HoldsUnder-SameAt d e m v h s, (s.legacy ∙ f.0, s.marker ∙ f.1))

    delete_step :
        (d : Disk) (p : Option Generation)
        → is_same_id m.current p ≡ false
        → HoldsUnder x ids d m v
        → SameFiles b d
        → From d
            (delete_generation p)
            (λ _ e. HoldsUnder x ids e m v × SameFiles b e)
            (HeldWith v b)
    delete_step d p n h f =
        From-weaken _ (λ _. SameAt m.current d) _ (SameAt m.current d) _ (λ _ e. kept d e h f)
          (λ e s. let (k, g) = kept d e h f s in (record { manifest = m; under = k }, g))
          (delete_generation-From m.current p d n)

    -- The end of `cleanup`, where all but the current generation is gone.
    finish :
        (d : Disk)
        → HoldsUnder x ids d m v
        → SameFiles b d
        → From d
            (if is_some m.pending || is_some m.retired
              then publish (cleaned m) >> pure (cleaned m)
              else pure m)
            (Cleaned b m v)
            (HeldWith v b)
    unfolding publish write_manifest
    finish d h f = elim (Bool-cases (is_some m.pending || is_some m.retired)) [
      | inl y ↦
          let k = publish-HoldsUnder d m (cleaned m) v h (cleaned-IsManifest m h.valid) refl in
          rw y (
            From-then _ _ (λ e. Cleaned b m v (cleaned m) e) _
              (From-call _ _ _ (k, f, refl, refl, refl) (record { manifest = m; under = h }, f)
                (record { manifest = cleaned m; under = k }, f))
              (λ e c. From-pure _ _ c))
      | inr n ↦ rw n (From-pure _ _ (h, f, refl, ground arith, ground arith))
    ]

    pub cleanup-From :
        (d : Disk)
        → HoldsUnder x ids d m v
        → SameFiles b d
        → From d (cleanup m) (Cleaned b m v) (HeldWith v b)
    unfolding cleanup
    cleanup-From d h f =
        let (p, r) = distinct_ids m h.valid in
        From-then _ _ (λ e. HoldsUnder x ids e m v × SameFiles b e) _
          (delete_step d m.pending p h f)
          (λ e k.
            From-then _ _ (λ e. HoldsUnder x ids e m v × SameFiles b e) _
              (delete_step e m.retired r k.0 k.1) (λ g l. finish g l.0 l.1))
