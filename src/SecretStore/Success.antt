-- ===== src/SecretStore/Success.antt =====
-- Where no call fails, a save of a snapshot that fits is done, and the next load returns it.
use friendzone.Prelude.{
  ◌≡◌, refl, sym, ℕ, zero, suc, ◌+◌, Option, none, some, List, ◌++◌, false, nat_eq, arith, ltb,
  length, is_some, ◌||◌, Bool-cases, Option-cases, inl, inr,
}
use friendzone.Prelude.Text.{text_eq}
use friendzone.Github.{Uuid}
use friendzone.SecretStore.{Bytes, Values, Disk, Generation, Manifest, Codec, chunk_bytes}
use friendzone.SecretStore.Entries.{◌>>=◌, ◌>>◌, read_chunk, set_chunk, delete_chunk}
use friendzone.SecretStore.Vault.{read_chunks, check_chunk}
use friendzone.SecretStore.Reading.{collect}
use friendzone.SecretStore.{Stored, malformed, parsed, Codec}
use friendzone.SecretStore.Entries.{read_manifest, write_manifest}
use friendzone.SecretStore.Vault.{
  manifest, check_stored, publish, delete_chunks, delete_generation, cleanup, decoded, bytes_of,
  parsed_values, current_values, load,
}
use friendzone.SecretStore.Reading.{HasBytes, HasValues}
use friendzone.SecretStore.Invariant.{IsManifest, IsStored, HoldsUnder, Holds}
use friendzone.SecretStore.Chunks.{Returns, Returns-bind, Returns-then}

read_chunk-Returns :
    (d : Disk) (id : Uuid) (index : ℕ) (b : Bytes)
    → d.chunk id index ≡ some b
    → ltb chunk_bytes (length b) ≡ false
    → Returns d (read_chunk id index >>= check_chunk) b d
unfolding read_chunk check_chunk ◌>>=◌ ◌>>◌
read_chunk-Returns d id index b h l = rw (h, check_chunk, l) refl

collect-suc :
    (chunk : Uuid → ℕ → Option Bytes) (id : Uuid) (index left : ℕ) (e : Bytes)
    → collect chunk id index (suc left) ≡ some e
    → (b : Bytes) × (chunk id index ≡ some b)
      × (ltb chunk_bytes (length b) ≡ false)
      × (r : Bytes) × (collect chunk id (index + 1) left ≡ some r)
      × (e ≡ b ++ r)
unfolding collect
collect-suc chunk id index left e h = elim (Option-cases (chunk id index)) [
  | inl n ↦ absurd (ground (arith, n, h))
  | inr (b, p) ↦ elim (Option-cases (collect chunk id (index + 1) left)) [
    | inl n ↦ absurd (ground (arith, p, n, h))
    | inr (r, q) ↦ (b, p, ground (arith, p, h), r, q, ground (arith, p, q, h))
  ]
]

read_chunks-Returns :
    (d : Disk) (id : Uuid) (index left : ℕ) (e : Bytes)
    → collect d.chunk id index left ≡ some e
    → Returns d (read_chunks id index left) e d
unfolding read_chunks collect
read_chunks-Returns d id index zero e h = cc
read_chunks-Returns d id index (suc left) e h =
    let (b, p, l, r, q, j) = collect-suc d.chunk id index left e h in
    Returns-bind d d d _ _ b e (read_chunk-Returns d id index b p l)
      (Returns-bind d d d _ _ r e (read_chunks-Returns d id (index + 1) left r q) (rw j refl))

delete_chunks-Returns :
    (d : Disk) (id : Uuid) (index left : ℕ)
    → (e : Disk) × Returns d (delete_chunks id index left) tt e
unfolding delete_chunks delete_chunk
delete_chunks-Returns d id index zero = (d, refl)
delete_chunks-Returns d id index (suc left) =
    let d' = set_chunk id index none d in
    let (e, h) = delete_chunks-Returns d' id (index + 1) left in
    (e, Returns-then d d' e _ _ tt refl h)

delete_generation-Returns :
    (d : Disk) (o : Option Generation) → (e : Disk) × Returns d (delete_generation o) tt e
unfolding delete_generation
delete_generation-Returns d none = (d, refl)
delete_generation-Returns d (some g) = delete_chunks-Returns d g.id 0 g.chunks

pub cleanup-Returns :
    (d : Disk) (m : Manifest) → (n : Manifest) × (e : Disk) × Returns d (cleanup m) n e
unfolding cleanup publish write_manifest
cleanup-Returns d m =
    let (e, h) = delete_generation-Returns d m.pending in
    let (f, k) = delete_generation-Returns e m.retired in
    elim (Bool-cases (is_some m.pending || is_some m.retired)) [
      | inl y ↦
          let n : Manifest = record m { pending = none; retired = none } in
          (
            n,
            record f { manifest = some (parsed n) },
            Returns-then d e _ _ _ n h (
                Returns-then e f _ _ _ n k (
                  rw y
                    (Returns-then f (record f { manifest = some (parsed n) }) _ _ _ n refl refl))),
          )
      | inr n ↦ (m, f, Returns-then d e f _ _ m h (Returns-then e f f _ _ m k (rw n refl)))
    ]

check_stored-Returns :
    (d : Disk) (s : Option Stored) (m : Manifest)
    → IsManifest m
    → IsStored s m
    → Returns d (check_stored s) m d
unfolding check_stored ◌>>◌ ◌>>=◌
check_stored-Returns d none m h q = rw q refl
check_stored-Returns d (some malformed) m h q = absurd q
check_stored-Returns d (some (parsed n)) m h q = rw (sym q, h.versioned, h.bounded, h.distinct) refl

module _ (x : Codec) where
  pub bytes_of-Returns :
      (d : Disk) (g : Generation) (b : Bytes) → HasBytes x d g b → Returns d (bytes_of x g) b d
  unfolding bytes_of decoded ◌>>◌ ◌>>=◌
  bytes_of-Returns d g b h =
      rw (read_chunks-Returns d g.id 0 g.chunks h.encoded h.collected)
        (rw (h.decodes, decoded, h.digests) refl)

  current_values-Returns :
      (d : Disk) (o : Option Generation) (v : Option Values)
      → HasValues x d o v
      → Returns d (current_values x o) v d
  unfolding current_values parsed_values
  current_values-Returns d none v h = rw h refl
  current_values-Returns d (some g) v (b, h, y, p, q) =
      Returns-bind d d d _ _ b v (bytes_of-Returns d g b h) (rw (p, parsed_values, q) refl)

  pub manifest-Returns :
      (ids : List Uuid) (d : Disk) (m : Manifest) (v : Option Values)
      → HoldsUnder x ids d m v
      → Returns d manifest m d
  unfolding manifest read_manifest
  manifest-Returns ids d m v h =
      Returns-bind d d d _ _ d.manifest m refl
        (check_stored-Returns d d.manifest m h.valid h.stored)

  pub load-Returns :
      (ids : List Uuid) (d : Disk) (v : Option Values)
      → Holds x ids d v
      → (e : Disk) × Returns d (load x) v e
  unfolding load
  load-Returns ids d v h =
      let m = h.manifest in
      let (n, e, c) = cleanup-Returns d m in
      (
        e,
        Returns-bind d d e _ _ m v (manifest-Returns ids d m v h.under) (
            Returns-bind d d e _ _ v v (current_values-Returns d m.current v h.under.values)
              (Returns-bind d e e _ _ n v c refl)),
      )
