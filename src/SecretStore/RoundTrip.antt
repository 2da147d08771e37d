-- ===== src/SecretStore/RoundTrip.antt =====
-- Where no call fails, what a save was given is what the next load returns.
use friendzone.Prelude.{
  ◌≡◌, refl, ap, ◌∙◌, subst, ◌≤◌, Option, none, some, List, [], ◌∷◌, false, ◌==◌, nat_eq, arith,
  any, ltb, eq_self, length,
}
use friendzone.Prelude.Text.{text_eq}
use friendzone.Github.{Uuid}
use friendzone.SecretStore.{Bytes, Values, Disk, Manifest, Codec, max_chunks}
use friendzone.SecretStore.Vault.{split_chunks, chunk_count}
use friendzone.SecretStore.Reading.{collect}
use friendzone.SecretStore.{parsed, Codec}
use friendzone.SecretStore.Entries.{write_manifest}
use friendzone.SecretStore.Vault.{publish, load, new_generation, stage, commit, save}
use friendzone.SecretStore.Outcomes.{Ends}
use friendzone.SecretStore.Reading.{HasBytes}
use friendzone.SecretStore.Invariant.{Holds}
use friendzone.SecretStore.Cleaning.{HeldWith}
use friendzone.SecretStore.Staging.{IsCodec}
use friendzone.SecretStore.Saving.{save-From, Undecided}
use friendzone.SecretStore.Chunks.{
  Returns, Returns-bind, Returns-then, written, write_chunks-Returns, collect-written,
  split_chunks-All, joined-split_chunks, length-split_chunks,
}
use friendzone.SecretStore.Success.{
  cleanup-Returns, bytes_of-Returns, manifest-Returns, load-Returns,
}

module _ (x : Codec) (c : IsCodec x) (id : Uuid) (values : Values) where
  abbrev bytes : Bytes
  bytes = x.to_vec values

  abbrev chunks : List Bytes
  chunks = split_chunks (length (x.encode bytes)) (x.encode bytes)

  written-HasBytes :
      (d : Disk) → HasBytes x (written id 0 chunks d) (new_generation x id bytes) bytes
  written-HasBytes d = record {
    encoded = x.encode bytes;
    collected =
        let b = x.encode bytes in
        subst (λ n. collect (written id 0 chunks d).chunk id 0 n ≡ some b)
          (length-split_chunks (length b) b (omega arith))
          (collect-written id 0 chunks d (split_chunks-All (length b) b)
            ∙ ap some (joined-split_chunks (length b) b (omega arith)));
    decodes = c.decodes bytes;
    digests = eq_self (x.digest bytes);
  }

  stage-Returns : (d : Disk) (m : Manifest) → (e : Disk) × Returns d (stage x id bytes m) tt e
  unfolding stage publish write_manifest
  stage-Returns d m =
      let p = record d {
        manifest = some (parsed (record m { pending = some (new_generation x id bytes) }));
      } in
      let e = written id 0 chunks p in
      (
        e,
        Returns-then d p e _ _ tt refl (
            Returns-then p e e _ _ tt (write_chunks-Returns p id 0 chunks) (
              Returns-bind e e e _ _ bytes tt (bytes_of-Returns x e _ bytes (written-HasBytes p))
                (rw (eq_self bytes) refl))),
      )

  commit-Returns :
      (d : Disk) (m : Manifest)
      → (e : Disk) × Returns d (commit x (new_generation x id bytes) m) tt e
  unfolding commit publish write_manifest
  commit-Returns d m =
      let n : Manifest = record m {
        current = some (new_generation x id bytes);
        pending = none;
        retired = m.current;
      } in
      let p = record d { manifest = some (parsed n) } in
      let (k, e, h) = cleanup-Returns p n in (e, Returns-then d p e _ _ tt refl (rw h refl))

  -- A snapshot of at most 4,096 chunks is saved, if no call fails, and the load after it returns it.
  pub save-load :
      (ids : List Uuid) (d : Disk) (v : Option Values)
      → chunk_count (x.encode bytes) ≤ max_chunks
      → any (λ i. i == id) ids ≡ false
      → Holds x ids d v
      → (e : Disk) × Returns d (save x id values) tt e
        × (f : Disk) × Returns e (load x) (some values) f
  unfolding save
  save-load ids d v fits fresh h =
      let m = h.manifest in
      let (n, e, p) = cleanup-Returns d m in
      let (f, q) = stage-Returns e n in
      let (g, r) = commit-Returns f n in
      let done : Returns d (save x id values) tt g =
        Returns-bind d d g _ _ m tt (manifest-Returns x ids d m v h.under) (
          Returns-bind d e g _ _ n tt p (
            Returns-then e e g _ _ tt
              (let t : ltb max_chunks (chunk_count (x.encode bytes)) ≡ false =
                  ground (arith, fits) in
                rw t refl)
              (Returns-then e f g _ _ tt q r))) in
      let k : Holds x (id ∷ ids) g (some values) =
        (subst (Ends (λ _. HeldWith x (id ∷ ids) (some values) d) (Undecided x c ids id values d v))
          done ((save-From x c ids id values d v fresh h).at [])).0 in
      let (i, l) = load-Returns x (id ∷ ids) g (some values) k in (g, done, i, l)
