-- ===== src/Jobs/Credential.antt =====
-- src/github.rs: `Credential`, the real credential that a job is bound to, and its digest.
use friendzone.Prelude.{
  ℕ, ◌^◌, Bool, not, ◌||◌, Option, none, some, List, [], ◌∷◌, ◌++◌, ◌==◌, zero, suc, length, find?,
  if◌then◌else◌,
}
use Prim.Native.Nat.{◌/◌, ◌%◌}
use friendzone.Prelude.Text.{Text, text, text_eq}
use friendzone.Github.{Binding, binding_beq}
use friendzone.Settings.{EscrowEntry, Settings, External, real_value, has_name}
use friendzone.Settings.Substitute.{is_pinned, as_bytes}

-- The code outside this repository: that of the settings, the SHA-256 of bytes in hexadecimal
-- (`sha2`), and whether a text is a valid value of a header (`reqwest`).
pub record Crypto : Type 0 where
  pub external : External
  pub sha256 : List ℕ → Text
  pub is_header_value : Text → Bool

-- `Credential`
pub record Credential : Type 0 where
  pub binding : Binding
  pub header_value : Text

-- `to_be_bytes` of a number of `n` bytes.
unfoldable pub be_bytes : ℕ → ℕ → List ℕ
be_bytes zero v = []
be_bytes (suc n) v = v / 256 ^ n % 256 ∷ be_bytes n v

-- The values that are hashed, each after its length.
unfoldable pub hashed : List Text → List ℕ
unfolding be_bytes as_bytes
hashed [] = []
hashed (v ∷ vs) = be_bytes 8 (length (as_bytes v)) ++ (as_bytes v ++ hashed vs)

-- `Credential::from_entry`
unfoldable pub from_entry : Crypto → Settings → EscrowEntry → Option Credential
unfolding is_pinned real_value hashed text
from_entry x s e =
    if not (is_pinned x.external e (text "api.github.com"))
      || not (e.header == text "authorization")
      || not (e.prefix == text "Bearer ")
    then none
    else elim (real_value x.external e s) [
      | none ↦ none
      | some real ↦
          let header_value = text "Bearer " ++ real in
          if not (x.is_header_value header_value)
          then none
          else some (record {
            binding = record {
              entry = e.name;
              digest = x.sha256 (hashed (e.name ∷ e.fake ∷ e.header ∷ e.prefix ∷ real ∷ []));
            };
            header_value = header_value;
          })
    ]

-- `Credential::current`: the credential of a binding, as long as its digest is the same.
unfoldable pub current_credential : Crypto → Settings → Binding → Option Credential
unfolding from_entry has_name binding_beq
current_credential x s binding = elim (find? (has_name binding.entry) s.entries) [
  | none ↦ none
  | some e ↦ elim (from_entry x s e) [
    | none ↦ none
    | some credential ↦ if binding_beq credential.binding binding then some credential else none
  ]
]

-- The credentials of all entries, of which `submit` wants exactly one.
unfoldable pub credentials : Crypto → Settings → List EscrowEntry → List Credential
unfolding from_entry
credentials x s [] = []
credentials x s (e ∷ es) = elim (from_entry x s e) [
  | none ↦ credentials x s es
  | some credential ↦ credential ∷ credentials x s es
]
