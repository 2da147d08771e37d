-- ===== src/SecretStore/Entries.antt =====
-- The calls of the credential store and of the file system, and runs of them that may fail or end.
use friendzone.Prelude.{
  ℕ, ◌==◌, ◌&&◌, nat_eq, Option, none, some, List, [], ◌∷◌, Bool, true, false, if◌then◌else◌,
}
use friendzone.Prelude.Text.{Text}
use friendzone.Github.{Uuid}
use friendzone.SecretStore.{
  Bytes, Values, Disk, Manifest, Stored, parsed, Fate, works, fails, fails_late, dies, World,
  VaultError, unavailable, Run, ok, err, died,
}

abbrev pub M : Type 0 → Type 0
M A = World → Run A × World

abbrev pub pure : {A : Type 0} → A → M A
pure a w = (ok a, w)

abbrev pub raise : {A : Type 0} → VaultError → M A
raise e w = (err e, w)

abbrev pub after : {A B : Type 0} → (A → M B) → Run A × World → Run B × World
after f (ok a, w) = f a w
after f (err e, w) = (err e, w)
after f (died, w) = (died, w)

infixl 5 ◌>>=◌ ◌>>◌
unfoldable pub ◌>>=◌ : {A B : Type 0} → M A → (A → M B) → M B
◌>>=◌ m f w = after f (m w)

unfoldable pub ◌>>◌ : {B : Type 0} → M (Unit {0}) → M B → M B
unfolding ◌>>=◌
m >> k = m >>= λ _. k

abbrev pub bail_if : Bool → VaultError → M (Unit {0})
bail_if true e = raise e
bail_if false e = pure tt

-- The one call that is made next, with its effect.
abbrev pub fate_call : {A : Type 0} → A → (Disk → Disk) → Fate → Disk → List Fate → Run A × World
fate_call a effect works d fs = (ok a, record { disk = effect d; fates = fs })
fate_call a effect fails d fs = (err unavailable, record { disk = d; fates = fs })
fate_call a effect fails_late d fs = (err unavailable, record { disk = effect d; fates = fs })
fate_call a effect dies d fs = (died, record { disk = d; fates = fs })

abbrev pub call_with : {A : Type 0} → A → (Disk → Disk) → Disk → List Fate → Run A × World
call_with a effect d [] = fate_call a effect works d []
call_with a effect d (f ∷ fs) = fate_call a effect f d fs

-- A call that reads `value` and changes the entries by `effect`.
unfoldable pub call : {A : Type 0} → (Disk → A) → (Disk → Disk) → M A
call value effect w = call_with (value w.disk) effect w.disk w.fates

abbrev pub set_chunk : Uuid → ℕ → Option Bytes → Disk → Disk
set_chunk id index bytes d = record d {
  chunk = λ i n. if i == id && n == index then bytes else d.chunk i n;
}

-- `entries.read`, `entries.write` and `entries.delete`
unfoldable pub read_manifest : M (Option Stored)
unfolding call
read_manifest = call (λ d. d.manifest) (λ d. d)

unfoldable pub write_manifest : Manifest → M (Unit {0})
unfolding call
write_manifest m = call (λ _. tt) (λ d. record d { manifest = some (parsed m) })

unfoldable pub read_chunk : Uuid → ℕ → M (Option Bytes)
unfolding call
read_chunk id index = call (λ d. d.chunk id index) (λ d. d)

unfoldable pub write_chunk : Uuid → ℕ → Bytes → M (Unit {0})
unfolding call
write_chunk id index bytes = call (λ _. tt) (set_chunk id index (some bytes))

unfoldable pub delete_chunk : Uuid → ℕ → M (Unit {0})
unfolding call
delete_chunk id index = call (λ _. tt) (set_chunk id index none)

-- `fs::read` of a file, its `exists`, `atomic_write` of the marker, and `fs::remove_file`.
unfoldable pub read_legacy_file : M (Option (Option Values))
unfolding call
read_legacy_file = call (λ d. d.legacy) (λ d. d)

unfoldable pub read_marker : M (Option Text)
unfolding call
read_marker = call (λ d. d.marker) (λ d. d)

unfoldable pub write_marker : Text → M (Unit {0})
unfolding call
write_marker contents = call (λ _. tt) (λ d. record d { marker = some contents })

unfoldable pub remove_legacy : M (Unit {0})
unfolding call
remove_legacy = call (λ _. tt) (λ d. record d { legacy = none })
