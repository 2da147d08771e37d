-- ===== src/SecretStore/Reading.antt =====
-- A snapshot that is read is the one that the entries hold.
use friendzone.Prelude.{
  ◌≡◌, refl, sym, ap, ◌∙◌, ℕ, zero, suc, ◌+◌, Option, none, some, [], ◌++◌, true, false, ◌==◌, ltb,
  length, if◌then◌else◌, arith, Option-cases, inl, inr,
}
use mathlib.Core.Option
use friendzone.Prelude.Text.{text_eq}
use friendzone.Github.{Uuid}
use friendzone.SecretStore.{Bytes, Values, Disk, chunk_bytes, Generation, Codec}
use friendzone.SecretStore.Entries.{◌>>=◌, read_chunk}
use friendzone.SecretStore.Vault.{
  check_chunk, read_chunks, decoded, bytes_of, parsed_values, current_values,
}
use friendzone.SecretStore.Outcomes.{
  From, From-pure, From-raise, From-call, From-read, From-check, Reads,
}

-- The chunks of a generation from an index on, joined, if all are there and none is too long.
unfoldable pub collect : (Uuid → ℕ → Option Bytes) → Uuid → ℕ → ℕ → Option Bytes
collect chunk id index zero = some []
collect chunk id index (suc left) = elim (chunk id index) [
  | none ↦ none
  | some b ↦
      if ltb chunk_bytes (length b)
      then none
      else Option.map (λ rest. b ++ rest) (collect chunk id (index + 1) left)
]

check_chunk-From :
    (d : Disk) (o : Option Bytes)
    → From d
        (check_chunk o)
        (Reads d (λ b. (o ≡ some b) × (ltb chunk_bytes (length b) ≡ false)))
        (λ d'. d' ≡ d)
unfolding check_chunk
check_chunk-From d none = From-raise _ _ refl
check_chunk-From d (some b) = From-check _ _ _ _ refl (λ n. From-pure _ _ (refl, (refl, n)))

read_chunk-From :
    (d : Disk) (id : Uuid) (index : ℕ)
    → From d
        (read_chunk id index >>= check_chunk)
        (Reads d (λ b. (d.chunk id index ≡ some b) × (ltb chunk_bytes (length b) ≡ false)))
        (λ d'. d' ≡ d)
unfolding read_chunk
read_chunk-From d id index =
    From-read (read_chunk id index) check_chunk (λ o. d.chunk id index ≡ o) _ refl
      (From-call (λ e. e.chunk id index) (λ e. e) _ (refl, refl) refl refl)
      (λ o q. rw q (check_chunk-From d o))

pub read_chunks-From :
    (d : Disk) (id : Uuid) (index left : ℕ)
    → From d
        (read_chunks id index left)
        (Reads d (λ e. collect d.chunk id index left ≡ some e))
        (λ d'. d' ≡ d)
unfolding read_chunks collect
read_chunks-From d id index zero = From-pure _ _ (refl, refl)
read_chunks-From d id index (suc left) = From-read _ _ _ _ refl (read_chunk-From d id index) (λ b q.
    From-read _ _ _ _ refl (read_chunks-From d id (index + 1) left)
      (λ rest r. From-pure _ _ (refl, rw (q.0, collect, q.1, r) refl)))

collect-same :
    (c d : Uuid → ℕ → Option Bytes) (id : Uuid) (index left : ℕ)
    → ((n : ℕ) → c id n ≡ d id n)
    → collect c id index left ≡ collect d id index left
unfolding collect
collect-same c d id index zero same = refl
collect-same c d id index (suc left) same =
    ground (arith, same index, collect-same c d id (index + 1) left same)

module _ (x : Codec) where
  -- The entries hold the bytes of a generation, as they were encoded, with their digest.
  pub record HasBytes (d : Disk) (g : Generation) (bytes : Bytes) : Type 0 where
    pub encoded : Bytes
    pub collected : collect d.chunk g.id 0 g.chunks ≡ some encoded
    pub decodes : x.decode encoded ≡ some bytes
    pub digests : (x.digest bytes == g.digest) ≡ true

  decoded-From :
      (d : Disk) (g : Generation) (e : Bytes)
      → collect d.chunk g.id 0 g.chunks ≡ some e
      → From d (decoded x g e) (Reads d (HasBytes d g)) (λ d'. d' ≡ d)
  unfolding decoded
  decoded-From d g e c = elim (Option-cases (x.decode e)) [
    | inl n ↦ rw (n, decoded) (From-raise _ _ refl)
    | inr (b, q) ↦
        rw (q, decoded)
          (From-check _ _ _ _ refl (λ n. From-pure _ _ (
            refl,
            record { encoded = e; collected = c; decodes = q; digests = ground (arith, n) },
          )))
  ]

  pub bytes_of-From :
      (d : Disk) (g : Generation) → From d (bytes_of x g) (Reads d (HasBytes d g)) (λ d'. d' ≡ d)
  unfolding bytes_of
  bytes_of-From d g = From-read _ _ _ _ refl (read_chunks-From d g.id 0 g.chunks) (decoded-From d g)

  -- The values that the entries hold as those of a generation, or none.
  abbrev pub HasValues : Disk → Option Generation → Option Values → Type 0
  HasValues d none v = v ≡ none
  HasValues d (some g) v =
      (bytes : Bytes) × HasBytes d g bytes
      × (values : Values) × (x.from_slice bytes ≡ some values)
      × (v ≡ some values)

  parsed_values-From :
      (d : Disk) (g : Generation) (bytes : Bytes)
      → HasBytes d g bytes
      → From d (parsed_values x bytes) (Reads d (HasValues d (some g))) (λ d'. d' ≡ d)
  unfolding parsed_values
  parsed_values-From d g bytes h = elim (Option-cases (x.from_slice bytes)) [
    | inl n ↦ rw (n, parsed_values) (From-raise _ _ refl)
    | inr (v, q) ↦ rw (q, parsed_values) (From-pure _ _ (refl, (bytes, h, v, q, refl)))
  ]

  pub current_values-From :
      (d : Disk) (o : Option Generation)
      → From d (current_values x o) (Reads d (HasValues d o)) (λ d'. d' ≡ d)
  unfolding current_values
  current_values-From d none = From-pure _ _ (refl, refl)
  current_values-From d (some g) =
      From-read _ _ _ _ refl (bytes_of-From d g) (parsed_values-From d g)

  HasBytes-unique :
      (d : Disk) (g : Generation) (b c : Bytes) → HasBytes d g b → HasBytes d g c → b ≡ c
  HasBytes-unique d g b c h k =
      let e : some h.encoded ≡ some k.encoded = sym h.collected ∙ k.collected in
      let f : h.encoded ≡ k.encoded = cc in
      let q : some b ≡ some c = sym h.decodes ∙ ap x.decode f ∙ k.decodes in cc

  -- The entries hold one value only.
  pub HasValues-unique :
      (d : Disk) (o : Option Generation) (v w : Option Values)
      → HasValues d o v
      → HasValues d o w
      → v ≡ w
  HasValues-unique d none v w h k = h ∙ sym k
  HasValues-unique d (some g) v w (b, h, y, p, q) (c, k, z, r, s) =
      let e : b ≡ c = HasBytes-unique d g b c h k in
      let f : some y ≡ some z = sym p ∙ ap x.from_slice e ∙ r in q ∙ f ∙ sym s

  -- The values depend on the chunks of the generation only.
  pub HasValues-same :
      (d e : Disk) (o : Option Generation) (v : Option Values)
      → ((g : Generation) → o ≡ some g → (n : ℕ) → e.chunk g.id n ≡ d.chunk g.id n)
      → HasValues d o v
      → HasValues e o v
  HasValues-same d e none v same h = h
  HasValues-same d e (some g) v same (b, h, y, p, q) = (
    b,
    record {
      encoded = h.encoded;
      collected = collect-same e.chunk d.chunk g.id 0 g.chunks (same g refl) ∙ h.collected;
      decodes = h.decodes;
      digests = h.digests;
    },
    y,
    p,
    q,
  )
