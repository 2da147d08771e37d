-- ===== src/SecretStore.antt =====
-- src/secret_store.rs: the snapshots of the secrets in the credential store of the operating system.
pub mod Entries
pub mod Vault
pub mod Outcomes
pub mod Reading
pub mod Invariant
pub mod Cleaning
pub mod Staging
pub mod Saving
pub mod Chunks
pub mod Success
pub mod RoundTrip
pub mod Migration
pub mod Migrating
mod Examples
pub mod Register
use friendzone.Prelude.{ℕ, String, Option, none, some, List}
use friendzone.Prelude.Text.{Text}
use friendzone.Github.{Uuid}

-- Bytes, one number for each.
abbrev pub Bytes : Type 0
Bytes = List ℕ

-- `Values`, a `HashMap`, as the list of its pairs in the order of their keys: equal maps are equal.
abbrev pub Values : Type 0
Values = List (Text × Text)

-- `CHUNK_BYTES`
abbrev pub chunk_bytes : ℕ
chunk_bytes = 2000

-- `MAX_CHUNKS`
abbrev pub max_chunks : ℕ
max_chunks = 4096

pub record Generation : Type 0 where
  pub id : Uuid
  pub chunks : ℕ
  pub digest : Text

pub record Manifest : Type 0 where
  pub version : ℕ
  pub current : Option Generation
  pub pending : Option Generation
  pub retired : Option Generation

-- What `serde_json` makes of the bytes of the manifest's entry.
pub data Stored : Type 0 where
  malformed : Stored
  parsed : Manifest → Stored

-- The entries of the credential store: the manifest, and the chunks by their generation and index,
-- which `Generation::key` writes as one text, `{id}-{index}`. Beside them stand the files that a
-- migration reads: `secrets.json` and the marker `os-secret-store.json`.
pub record Disk : Type 0 where
  pub manifest : Option Stored
  pub chunk : Uuid → ℕ → Option Bytes
  pub legacy : Option (Option Values)
  pub marker : Option Text

-- What happens to a call of the credential store or of the file system: it works, it fails without an
-- effect or after it, or the process ends before it. One entry is replaced as a whole.
pub data Fate : Type 0 where
  works fails fails_late dies : Fate

-- The fates of the calls to come, in order; after the last of them every call works.
pub record World : Type 0 where
  pub disk : Disk
  pub fates : List Fate

-- `Mode`
pub data Mode : Type 0 where
  os file : Mode

pub data VaultError : Type 0 where
  unavailable invalid_manifest unsupported_version invalid_generation aliased_generations
        incomplete_snapshot invalid_chunk_size invalid_encoding digest_mismatch invalid_snapshot
        too_large not_verified locked file_mode_refused invalid_legacy invalid_marker
        credentials_missing conflict migration_not_verified :
      VaultError

-- How a run ends; `died` is a process that ended on the way.
pub data Run (A : Type 0) : Type 0 where
  ok : A → Run A
  err : VaultError → Run A
  died : Run A

-- The base64 encoding, the SHA-256 digest in hexadecimal and `serde_json` are not of the repository.
pub record Codec : Type 0 where
  pub encode : Bytes → Bytes
  pub decode : Bytes → Option Bytes
  pub digest : Bytes → Text
  pub to_vec : Values → Bytes
  pub from_slice : Bytes → Option Values
