-- ===== src/Jobs/Reading.antt =====
-- The body of a response: what is kept of it.
use friendzone.Prelude.{
  ℕ, ◌+◌, ◌≤◌, ◌≡◌, refl, sym, ◌∙◌, none, some, List, [], ◌∷◌, ◌++◌, arith, length, length-append,
  leb, Bool-cases, inl, inr, ◌⊎◌,
}
use mathlib.Core.List.{append_assoc, append-nil}
use friendzone.Prelude.Text.{Text}
use friendzone.Jobs.{max_result}
use friendzone.Jobs.Worker.{Chunk, chunk, broken, read_body, saturating_add}

-- All the bytes that were sent, up to an error.
abbrev pub whole : List Chunk → List ℕ
whole [] = []
whole (chunk c ∷ rest) = c ++ whole rest
whole (broken _ ∷ _) = []

-- Where what was kept before does not exceed 4 MiB, what is kept of a response's body does not either,
-- and it is all that was sent, after what was kept before, unless an error is reported.
pub read_body_lem :
    (chunks : List Chunk) (bytes : List ℕ) (observed : ℕ)
    → length bytes ≤ max_result
    → let (kept, _, error) = read_body chunks bytes observed in
      (length kept ≤ max_result)
      × (((error ≡ none) × (kept ≡ bytes ++ whole chunks)) ⊎ ((e : Text) × (error ≡ some e)))
unfolding read_body
read_body_lem [] bytes observed h = (h, inl (refl, sym (append-nil bytes)))
read_body_lem (broken x ∷ rest) bytes observed h = (h, inr (x, refl))
read_body_lem (chunk c ∷ rest) bytes observed h =
    elim (Bool-cases (leb (length bytes + length c) max_result)) [
      | inl y ↦
          let (l, k) =
            read_body_lem rest (bytes ++ c) (saturating_add observed (length c))
              (ground (arith, length-append bytes c)) in
          rw (y, read_body)
            (
              l,
              elim k [
                | inl (n, e) ↦ inl (n, e ∙ append_assoc bytes c (whole rest))
                | inr e ↦ inr e
              ],
            )
      | inr n ↦ rw (n, read_body) (h, inr (_, refl))
    ]
