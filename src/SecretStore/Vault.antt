-- ===== src/SecretStore/Vault.antt =====
-- `Vault`: its manifest, the reading of a snapshot, the removal of what is obsolete, loading and saving.
use friendzone.Prelude.{
  ℕ, zero, suc, ◌+◌, ◌-◌, Option, none, some, List, [], ◌∷◌, ◌++◌, Bool, false, not, ◌||◌, ◌==◌,
  nat_eq, ltb, length, take, drop, all, if◌then◌else◌, is_some_and, is_some,
}
use Prim.Native.Nat.{◌/◌}
use friendzone.Prelude.Text.{len, text_eq, is_ascii_hexdigit}
use friendzone.Github.{Uuid}
use friendzone.SecretStore.{
  Bytes, Values, chunk_bytes, max_chunks, Generation, Manifest, Stored, malformed, parsed, World,
  invalid_manifest, unsupported_version, invalid_generation, aliased_generations,
  incomplete_snapshot, invalid_chunk_size, invalid_encoding, digest_mismatch, invalid_snapshot,
  too_large, not_verified, Run, ok, err, died, Codec,
}
use friendzone.SecretStore.Entries.{
  M, pure, raise, ◌>>=◌, ◌>>◌, bail_if, read_manifest, write_manifest, read_chunk, write_chunk,
  delete_chunk,
}

unfoldable pub is_bad_generation : Generation → Bool
is_bad_generation g =
    g.chunks == 0
    || ltb max_chunks g.chunks
    || not (len g.digest == 64)
    || not (all is_ascii_hexdigit g.digest)

-- Both generations are there, with one ID.
unfoldable pub is_same_id : Option Generation → Option Generation → Bool
is_same_id (some g) (some h) = g.id == h.id
is_same_id (some g) none = false
is_same_id none h = false

-- The IDs of the generations that are there are not pairwise distinct.
unfoldable pub is_aliased : Manifest → Bool
unfolding is_same_id
is_aliased m =
    is_same_id m.current m.pending
    || is_same_id m.current m.retired
    || is_same_id m.pending m.retired

unfoldable pub has_bad_generation : Manifest → Bool
unfolding is_bad_generation
has_bad_generation m =
    is_some_and m.current is_bad_generation
    || is_some_and m.pending is_bad_generation
    || is_some_and m.retired is_bad_generation

abbrev pub empty_manifest : Manifest
empty_manifest = record { version = 1; current = none; pending = none; retired = none }

-- The checks of `Vault::manifest`.
unfoldable pub check_stored : Option Stored → M Manifest
unfolding is_aliased has_bad_generation
check_stored none = pure empty_manifest
check_stored (some malformed) = raise invalid_manifest
check_stored (some (parsed m)) =
    bail_if (not (m.version == 1)) unsupported_version
    >> (bail_if (has_bad_generation m) invalid_generation
        >> (bail_if (is_aliased m) aliased_generations >> pure m))

unfoldable pub manifest : M Manifest
unfolding read_manifest check_stored
manifest = read_manifest >>= check_stored

unfoldable pub publish : Manifest → M (Unit {0})
unfolding write_manifest
publish m = write_manifest m

-- One chunk, which must be there and not too long.
unfoldable pub check_chunk : Option Bytes → M Bytes
check_chunk none = raise incomplete_snapshot
check_chunk (some bytes) = bail_if (ltb chunk_bytes (length bytes)) invalid_chunk_size >> pure bytes

-- The loop of `Vault::bytes` from `index`, with the chunks that are left.
unfoldable pub read_chunks : Uuid → ℕ → ℕ → M Bytes
unfolding read_chunk check_chunk
read_chunks id index zero = pure []
read_chunks id index (suc left) = (read_chunk id index >>= check_chunk) >>= λ bytes.
    read_chunks id (index + 1) left >>= λ rest. pure (bytes ++ rest)

-- The loop of `Vault::cleanup` over the chunks of one generation.
unfoldable pub delete_chunks : Uuid → ℕ → ℕ → M (Unit {0})
unfolding delete_chunk
delete_chunks id index zero = pure tt
delete_chunks id index (suc left) = delete_chunk id index >> delete_chunks id (index + 1) left

unfoldable pub delete_generation : Option Generation → M (Unit {0})
unfolding delete_chunks
delete_generation none = pure tt
delete_generation (some g) = delete_chunks g.id 0 g.chunks

-- `Vault::cleanup`, which returns the manifest that it changed.
unfoldable pub cleanup : Manifest → M Manifest
unfolding delete_generation publish
cleanup m =
    delete_generation m.pending
    >> (delete_generation m.retired
        >> (if is_some m.pending || is_some m.retired
            then (let m' : Manifest = record m { pending = none; retired = none } in
                publish m' >> pure m')
            else pure m))

-- `encoded.as_bytes().chunks(CHUNK_BYTES)`; the fuel is the length, and each turn takes some bytes.
unfoldable pub split_chunks : ℕ → Bytes → List Bytes
split_chunks zero bytes = []
split_chunks (suc fuel) [] = []
split_chunks (suc fuel) (b ∷ bytes) =
    take chunk_bytes (b ∷ bytes) ∷ split_chunks fuel (drop chunk_bytes (b ∷ bytes))

-- `encoded.len().div_ceil(CHUNK_BYTES)`
abbrev pub chunk_count : Bytes → ℕ
chunk_count bytes = (length bytes + (chunk_bytes - 1)) / chunk_bytes

unfoldable pub write_chunks : Uuid → ℕ → List Bytes → M (Unit {0})
unfolding write_chunk
write_chunks id index [] = pure tt
write_chunks id index (bytes ∷ rest) =
    write_chunk id index bytes >> write_chunks id (index + 1) rest

-- The end of a run of which only its death is passed on: `if cleanup(…).is_err() { warn }`.
abbrev pub ignored : {A : Type 0} → Run A × World → Run (Unit {0}) × World
ignored (ok a, w) = (ok tt, w)
ignored (err e, w) = (ok tt, w)
ignored (died, w) = (died, w)

module _ (x : Codec) where
  unfoldable pub decoded : Generation → Bytes → M Bytes
  decoded g encoded = elim (x.decode encoded) [
    | none ↦ raise invalid_encoding
    | some bytes ↦ bail_if (not (x.digest bytes == g.digest)) digest_mismatch >> pure bytes
  ]

  -- `Vault::bytes`
  unfoldable pub bytes_of : Generation → M Bytes
  unfolding read_chunks decoded
  bytes_of g = read_chunks g.id 0 g.chunks >>= decoded g

  unfoldable pub parsed_values : Bytes → M (Option Values)
  parsed_values bytes = elim (x.from_slice bytes) [
    | none ↦ raise invalid_snapshot
    | some values ↦ pure (some values)
  ]

  -- The values of the current generation, if there is one.
  unfoldable pub current_values : Option Generation → M (Option Values)
  unfolding bytes_of parsed_values
  current_values none = pure none
  current_values (some g) = bytes_of g >>= parsed_values

  -- `Vault::load`
  unfoldable pub load : M (Option Values)
  unfolding manifest current_values cleanup
  load = do m ← manifest; values ← current_values m.current; _ ← cleanup m; pure values

  abbrev pub new_generation : Uuid → Bytes → Generation
  new_generation id bytes = record {
    id = id;
    chunks = chunk_count (x.encode bytes);
    digest = x.digest bytes;
  }

  -- From the manifest that has been cleaned: the journal, the chunks and their verification.
  unfoldable pub stage : Uuid → Bytes → Manifest → M (Unit {0})
  unfolding publish write_chunks split_chunks bytes_of
  stage id bytes m =
      publish (record m { pending = some (new_generation id bytes) })
      >> (write_chunks id 0 (split_chunks (length (x.encode bytes)) (x.encode bytes))
          >> (bytes_of (new_generation id bytes) >>= λ written.
              bail_if (not (written == bytes)) not_verified))

  -- The replacement of the current generation, and what is removed after it.
  unfoldable pub commit : Generation → Manifest → M (Unit {0})
  unfolding publish cleanup
  commit g m =
      let m' : Manifest = record m { current = some g; pending = none; retired = m.current } in
      publish m' >> λ w. ignored (cleanup m' w)

  -- `Vault::save`, with the UUID that it draws.
  unfoldable pub save : Uuid → Values → M (Unit {0})
  unfolding manifest cleanup stage commit
  save id values = do
    m ← manifest
    m' ← cleanup m
    bail_if (ltb max_chunks (chunk_count (x.encode (x.to_vec values)))) too_large
    stage id (x.to_vec values) m'
    commit (new_generation id (x.to_vec values)) m'
