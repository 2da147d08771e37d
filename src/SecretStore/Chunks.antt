-- ===== src/SecretStore/Chunks.antt =====
-- Where no call fails: what is written in chunks is read back as it was.
use friendzone.Prelude.{
  ◌≡◌, refl, ap, ◌∙◌, ℕ, zero, suc, ◌+◌, ◌<◌, ◌≤◌, some, List, [], ◌∷◌, ◌++◌, nat_eq, arith, length,
  take, drop, All, length-take-le, length-drop, take-append-drop,
}
use friendzone.Prelude.Text.{text_eq}
use friendzone.Github.{Uuid}
use friendzone.SecretStore.{Bytes, Disk, ok, chunk_bytes}
use friendzone.SecretStore.Entries.{M, ◌>>=◌, ◌>>◌, write_chunk, set_chunk}
use friendzone.SecretStore.Vault.{write_chunks, split_chunks, chunk_count}
use friendzone.SecretStore.Reading.{collect}

-- Without failures: the value that is returned and the entries that are left.
abbrev pub Returns : {A : Type 0} → Disk → M A → A → Disk → Type 0
Returns d m a e = m (record { disk = d; fates = [] }) ≡ (ok a, record { disk = e; fates = [] })

pub Returns-bind :
    {A B : Type 0} (d e f : Disk) (m : M A) (k : A → M B) (a : A) (b : B)
    → Returns d m a e
    → Returns e (k a) b f
    → Returns d (m >>= k) b f
unfolding ◌>>=◌
Returns-bind d e f m k a b h g = rw h g

pub Returns-then :
    {B : Type 0} (d e f : Disk) (m : M (Unit {0})) (k : M B) (b : B)
    → Returns d m tt e
    → Returns e k b f
    → Returns d (m >> k) b f
unfolding ◌>>◌
Returns-then d e f m k b h g = Returns-bind d e f m (λ _. k) tt b h g

-- The entries after the chunks of a list are written from an index on.
abbrev pub written : Uuid → ℕ → List Bytes → Disk → Disk
written id index [] d = d
written id index (b ∷ chunks) d = written id (index + 1) chunks (set_chunk id index (some b) d)

pub write_chunks-Returns :
    (d : Disk) (id : Uuid) (index : ℕ) (chunks : List Bytes)
    → Returns d (write_chunks id index chunks) tt (written id index chunks d)
unfolding write_chunks write_chunk
write_chunks-Returns d id index [] = refl
write_chunks-Returns d id index (b ∷ chunks) =
    Returns-then d (set_chunk id index (some b) d) _ _ _ tt refl
      (write_chunks-Returns (set_chunk id index (some b) d) id (index + 1) chunks)

abbrev pub joined : List Bytes → Bytes
joined [] = []
joined (b ∷ chunks) = b ++ joined chunks

written-before :
    (id : Uuid) (index n : ℕ) (chunks : List Bytes) (d : Disk)
    → n < index
    → (written id index chunks d).chunk id n ≡ d.chunk id n
written-before id index n [] d l = refl
written-before id index n (b ∷ chunks) d l =
    written-before id (index + 1) n chunks (set_chunk id index (some b) d) (omega (arith, l))
    ∙ ground (arith, l)

pub collect-written :
    (id : Uuid) (index : ℕ) (chunks : List Bytes) (d : Disk)
    → All (λ b. length b ≤ chunk_bytes) chunks
    → collect (written id index chunks d).chunk id index (length chunks) ≡ some (joined chunks)
unfolding collect
collect-written id index [] d a = refl
collect-written id index (b ∷ chunks) d a =
    let e = set_chunk id index (some b) d in
    ground (
      arith,
      a.0,
      written-before id (index + 1) index chunks e,
      collect-written id (index + 1) chunks e a.1,
    )

-- The chunks of the encoding.
pub split_chunks-All :
    (fuel : ℕ) (b : Bytes) → All (λ c. length c ≤ chunk_bytes) (split_chunks fuel b)
unfolding split_chunks
split_chunks-All zero b = tt
split_chunks-All (suc fuel) [] = tt
split_chunks-All (suc fuel) (x ∷ b) =
    (length-take-le chunk_bytes (x ∷ b), split_chunks-All fuel (drop chunk_bytes (x ∷ b)))

pub joined-split_chunks :
    (fuel : ℕ) (b : Bytes) → length b ≤ fuel → joined (split_chunks fuel b) ≡ b
unfolding split_chunks
joined-split_chunks zero [] l = refl
joined-split_chunks zero (x ∷ b) l = absurd (omega (arith, l))
joined-split_chunks (suc fuel) [] l = refl
joined-split_chunks (suc fuel) (x ∷ b) l =
    ap (λ r. take chunk_bytes (x ∷ b) ++ r)
      (joined-split_chunks fuel (drop chunk_bytes (x ∷ b))
        (omega (arith, l, length-drop chunk_bytes (x ∷ b))))
    ∙ take-append-drop chunk_bytes (x ∷ b)

pub length-split_chunks :
    (fuel : ℕ) (b : Bytes) → length b ≤ fuel → length (split_chunks fuel b) ≡ chunk_count b
unfolding split_chunks
length-split_chunks zero [] l = omega arith
length-split_chunks zero (x ∷ b) l = absurd (omega (arith, l))
length-split_chunks (suc fuel) [] l = omega arith
length-split_chunks (suc fuel) (x ∷ b) l = omega (
  arith,
  l,
  length-drop chunk_bytes (x ∷ b),
  length-split_chunks fuel (drop chunk_bytes (x ∷ b))
      (omega (arith, l, length-drop chunk_bytes (x ∷ b))),
)
