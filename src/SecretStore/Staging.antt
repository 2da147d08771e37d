-- ===== src/SecretStore/Staging.antt =====
-- A save up to its journal, and the replacement of the current generation.
use friendzone.Prelude.{
  ◌≡◌, refl, ap, ◌∙◌, subst, ◌<◌, Option, none, some, List, ◌∷◌, true, false, not, ◌==◌, nat_eq,
  arith, Bool-cases, inl, inr, ◌⊎◌, any, all, length, ltb,
}
use friendzone.Prelude.Text.{len, text_eq, is_ascii_hexdigit}
use friendzone.Github.{Uuid}
use friendzone.SecretStore.{
  Bytes, Values, Disk, Generation, Manifest, parsed, Codec, World, Run, ok, err, died, max_chunks,
}
use friendzone.SecretStore.Entries.{M, write_manifest}
use friendzone.SecretStore.Vault.{
  is_same_id, is_aliased, is_bad_generation, has_bad_generation, publish, cleanup, new_generation,
  stage, commit, chunk_count, ignored,
}
use friendzone.SecretStore.Outcomes.{
  Ends, From, From-call, From-read, From-then, From-weaken, From-bail_if,
}
use friendzone.SecretStore.Reading.{HasBytes, bytes_of-From}
use friendzone.SecretStore.Invariant.{IsManifest, IsKnown, HoldsUnder, Holds}
use friendzone.SecretStore.Cleaning.{
  SameAt, IsApart, write_chunks-From, SameFiles, HoldsUnder-SameAt, publish-HoldsUnder, HeldWith,
  cleanup-From,
}

-- What is assumed of the encodings: they can be undone, and a digest has 64 hexadecimal digits.
pub record IsCodec (x : Codec) : Type 0 where
  pub decodes : (bytes : Bytes) → x.decode (x.encode bytes) ≡ some bytes
  pub parses : (values : Values) → x.from_slice (x.to_vec values) ≡ some values
  pub long : (bytes : Bytes) → len (x.digest bytes) ≡ 64
  pub hex : (bytes : Bytes) → all is_ascii_hexdigit (x.digest bytes) ≡ true
  pub not_empty : (values : Values) → 0 < length (x.encode (x.to_vec values))

-- A run whose errors are ignored.
From-ignored :
    {A : Type 0} {d : Disk} (k : M A) (Q : Disk → Type 0) (P : Unit {0} → Disk → Type 0)
    (I : Disk → Type 0)
    → From d k (λ _. Q) Q
    → ((e : Disk) → Q e → P tt e × I e)
    → From d (λ w. ignored (k w)) P I
From-ignored {A} {d} k Q P I h f = record {
  at = λ fs. go (k (record { disk = d; fates = fs })) (h.at fs);
}
  where
    go : (r : Run A × World) → Ends (λ _. Q) Q r → Ends P I (ignored r)
    go (ok a, w) q = (f w.disk q).0
    go (err e, w) q = (f w.disk q).0
    go (died, w) q = (f w.disk q).1

IsApart-is_same_id :
    (o : Option Generation) (g : Generation) → IsApart o g.id → is_same_id o (some g) ≡ false
unfolding is_same_id
IsApart-is_same_id none g a = refl
IsApart-is_same_id (some f) g a = a f refl

-- The journal of a new generation is a manifest, and so is the one that makes it the current one.
module _ (m : Manifest) (g : Generation) (h : IsManifest m) (b : is_bad_generation g ≡ false)
    (s : is_same_id m.current (some g) ≡ false) where
  journal-IsManifest : m.retired ≡ none → IsManifest (record m { pending = some g })
  unfolding has_bad_generation is_aliased is_same_id
  journal-IsManifest r = record {
    versioned = h.versioned;
    bounded = ground (arith, h.bounded, b);
    distinct = ground (arith, h.distinct, s);
  }

  committed-IsManifest :
      IsManifest (record m { current = some g; pending = none; retired = m.current })
  unfolding has_bad_generation is_aliased is_same_id
  committed-IsManifest = record {
    versioned = h.versioned;
    bounded = ground (arith, h.bounded, b);
    distinct = ground (arith, h.distinct, s, nat_eq.beq_iff);
  }

pub known-IsApart :
    (ids : List Uuid) (id : Uuid) (o : Option Generation)
    → any (λ i. i == id) ids ≡ false
    → IsKnown ids o
    → IsApart o id
known-IsApart ids id none fresh k g q = cc
known-IsApart ids id (some f) fresh k g q = elim (Bool-cases (g.id == id)) [
  | inl y ↦
      let e : f ≡ g = cc in
      let i : f.id ≡ id = ap (λ (a : Generation). a.id) e ∙ (nat_eq.beq_iff g.id id).0 y in
      let t : any (λ j. j == id) ids ≡ true = subst (λ n. any (λ j. j == n) ids ≡ true) i k in cc
  | inr n ↦ n
]

IsKnown-cons :
    (ids : List Uuid) (id : Uuid) (o : Option Generation) → IsKnown ids o → IsKnown (id ∷ ids) o
IsKnown-cons ids id none k = tt
IsKnown-cons ids id (some g) k = ground (arith, k)

HoldsUnder-more :
    (x : Codec) (ids : List Uuid) (id : Uuid) (d : Disk) (m : Manifest) (v : Option Values)
    → HoldsUnder x ids d m v
    → HoldsUnder x (id ∷ ids) d m v
HoldsUnder-more x ids id d m v h = record {
  valid = h.valid;
  stored = h.stored;
  known = IsKnown-cons ids id m.current h.known;
  values = h.values;
}

pub Holds-more :
    (x : Codec) (ids : List Uuid) (id : Uuid) (d : Disk) (v : Option Values)
    → Holds x ids d v
    → Holds x (id ∷ ids) d v
Holds-more x ids id d v h = record {
  manifest = h.manifest;
  under = HoldsUnder-more x ids id d h.manifest v h.under;
}

module _ (x : Codec) (c : IsCodec x) (ids : List Uuid) (id : Uuid) (values : Values) where
  abbrev pub bytes : Bytes
  bytes = x.to_vec values

  abbrev pub generation : Generation
  generation = new_generation x id bytes

  pub generation_good :
      ltb max_chunks (chunk_count (x.encode bytes)) ≡ false → is_bad_generation generation ≡ false
  unfolding is_bad_generation
  generation_good h = ground (arith, h, c.long bytes, c.hex bytes, c.not_empty values)

  module _ (b : Disk) (m : Manifest) (v : Option Values) (pending : m.pending ≡ none)
      (retired : m.retired ≡ none) (apart : IsApart m.current id)
      (good : is_bad_generation generation ≡ false) where
    abbrev pub journal : Manifest
    journal = record m { pending = some generation }

    kept :
        (d e : Disk)
        → HoldsUnder x ids d journal v
        → SameFiles b d
        → SameAt m.current d e
        → HoldsUnder x ids e journal v × SameFiles b e
    kept d e h f s = (HoldsUnder-SameAt x ids d e journal v h s, (s.legacy ∙ f.0, s.marker ∙ f.1))

    same_bytes : (written : Bytes) → not (written == bytes) ≡ false → written ≡ bytes
    same_bytes written n = (text_eq.beq_iff written bytes).0 (ground (arith, n))

    -- Up to the journal, the chunks and their verification, the old values are held.
    pub stage-From :
        (d : Disk)
        → HoldsUnder x ids d m v
        → SameFiles b d
        → From d
            (stage x id bytes m)
            (λ _ e. HoldsUnder x ids e journal v × SameFiles b e × HasBytes x e generation bytes)
            (HeldWith x ids v b)
    unfolding stage publish write_manifest
    stage-From d h f =
        let k =
          publish-HoldsUnder x ids d m journal v h
            (journal-IsManifest m generation h.valid good
              (IsApart-is_same_id m.current generation apart) retired)
            refl in
        From-then _ _ (λ e. HoldsUnder x ids e journal v × SameFiles b e) _
          (From-call _ _ _ (k, f) (record { manifest = m; under = h }, f)
            (record { manifest = journal; under = k }, f))
          (λ e p.
            From-then _ _ (λ g. HoldsUnder x ids g journal v × SameFiles b g) _
              (From-weaken _ (λ _. SameAt m.current e) _ (SameAt m.current e) _
                (λ _ g s. kept e g p.0 p.1 s)
                (λ g s.
                  let (q, r) = kept e g p.0 p.1 s in (record { manifest = journal; under = q }, r))
                (write_chunks-From m.current id apart e 0 _))
              (λ g q.
                From-read _ _ _ _ (record { manifest = journal; under = q.0 }, q.1)
                  (bytes_of-From x g generation)
                  (λ written w.
                    From-bail_if _ _ _ (record { manifest = journal; under = q.0 }, q.1)
                      (λ n. (q.0, q.1, subst (HasBytes x g generation) (same_bytes written n) w)))))

    abbrev pub committed : Manifest
    committed = record m { current = some generation; pending = none; retired = m.current }

    -- What is held when the run is cut off: the old values or the new ones.
    abbrev pub OldOrNew : Disk → Type 0
    OldOrNew e = (Holds x (id ∷ ids) e v ⊎ Holds x (id ∷ ids) e (some values)) × SameFiles b e

    pub commit-From :
        (d : Disk)
        → IsManifest m
        → HoldsUnder x ids d journal v
        → SameFiles b d
        → HasBytes x d generation bytes
        → From d (commit x generation m) (λ _. HeldWith x (id ∷ ids) (some values) b) OldOrNew
    unfolding commit publish write_manifest
    commit-From d valid h f w =
        let k : HoldsUnder x (id ∷ ids) (record d { manifest = some (parsed committed) }) committed
            (some values) =
          record {
            valid =
                committed-IsManifest m generation valid good
                  (IsApart-is_same_id m.current generation apart);
            stored = refl;
            known = ground (arith, nat_eq.beq_iff id id);
            values = (
              bytes,
              record {
                encoded = w.encoded;
                collected = w.collected;
                decodes = w.decodes;
                digests = w.digests;
              },
              values,
              c.parses values,
              refl,
            );
          } in
        From-then _ _ (λ e. HoldsUnder x (id ∷ ids) e committed (some values) × SameFiles b e) _
          (From-call _ _ _ (k, f)
            (inl (record { manifest = journal; under = HoldsUnder-more x ids id d journal v h }), f)
            (inr (record { manifest = committed; under = k }), f))
          (λ e p.
            From-ignored (cleanup committed) (HeldWith x (id ∷ ids) (some values) b) _ _
              (From-weaken _ _ _ _ _ (λ n g q. (record { manifest = n; under = q.0 }, q.1))
                (λ g q. q) (cleanup-From x (id ∷ ids) b committed (some values) e p.0 p.1))
              (λ g q. (q, (inr q.0, q.1))))
