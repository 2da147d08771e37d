-- ===== src/SecretStore/Examples.antt =====
-- Runs of the secret store with a small encoding, to which the theorems are applied.
use friendzone.Prelude.{
  ◌≡◌, refl, ap, ◌∙◌, zero, suc, ◌<◌, Option, none, some, List, [], ◌∷◌, ◌++◌, map, length, arith,
}
use mathlib.Core.Option
use mathlib.Core.List.{append-nil, append_assoc}
use friendzone.Prelude.Text.{Text, text, len, is_ascii_hexdigit, text_beq}
use friendzone.SecretStore.Entries.{◌>>=◌, ◌>>◌}
use friendzone.SecretStore.{Bytes, Values, Disk, Fate, Codec, works, dies}
use friendzone.SecretStore.Vault.{load, save, empty_manifest}
use friendzone.SecretStore.Outcomes.{From}
use friendzone.SecretStore.Invariant.{Holds, empty_manifest-IsManifest}
use friendzone.SecretStore.Staging.{IsCodec}
use friendzone.SecretStore.Register.{
  Operation, loads, saves, saved, unanswered, loaded, run, Accepts, run-refines, drawn,
}
use friendzone.SecretStore.Chunks.{Returns}
use friendzone.SecretStore.RoundTrip.{save-load}
use friendzone.SecretStore.Migration.{migrate}
use friendzone.SecretStore.Migrating.{IsSafe, migrate-keeps}

-- A text ends by a zero, and its code points are one higher.
write_text : Text → Bytes → Bytes
write_text t rest = map suc t ++ 0 ∷ rest

to_vec : Values → Bytes
unfolding write_text
to_vec [] = 0 ∷ []
to_vec ((k, v) ∷ values) = 1 ∷ write_text k (write_text v (to_vec values))

data Place : Type 0 where
  item : Place
  key : Text → Place
  value : Text → Text → Place

parse : Place → Bytes → Option Values
parse item [] = none
parse item (zero ∷ []) = some []
parse item (zero ∷ b ∷ rest) = none
parse item (suc n ∷ rest) = parse (key []) rest
parse (key k) [] = none
parse (key k) (zero ∷ rest) = parse (value k []) rest
parse (key k) (suc c ∷ rest) = parse (key (k ++ c ∷ [])) rest
parse (value k v) [] = none
parse (value k v) (zero ∷ rest) = Option.map (λ values. (k, v) ∷ values) (parse item rest)
parse (value k v) (suc c ∷ rest) = parse (value k (v ++ c ∷ [])) rest

parse-key :
    (k t : Text) (rest : Bytes) → parse (key k) (write_text t rest) ≡ parse (value (k ++ t) []) rest
unfolding parse write_text
parse-key k [] rest = rw append-nil refl
parse-key k (c ∷ t) rest =
    parse-key (k ++ c ∷ []) t rest ∙ ap (λ s. parse (value s []) rest) (append_assoc k (c ∷ []) t)

parse-value :
    (k v t : Text) (rest : Bytes)
    → parse (value k v) (write_text t rest)
      ≡ Option.map (λ values. (k, v ++ t) ∷ values) (parse item rest)
unfolding parse write_text
parse-value k v [] rest = rw append-nil refl
parse-value k v (c ∷ t) rest =
    parse-value k (v ++ c ∷ []) t rest
    ∙ ap (λ s. Option.map (λ values. (k, s) ∷ values) (parse item rest)) (append_assoc v (c ∷ []) t)

parse-to_vec : (values : Values) → parse item (to_vec values) ≡ some values
unfolding parse to_vec
parse-to_vec [] = refl
parse-to_vec ((k, v) ∷ values) =
    parse-key [] k (write_text v (to_vec values))
    ∙ parse-value k [] v (to_vec values)
    ∙ ap (Option.map (λ rest. (k, v) ∷ rest)) (parse-to_vec values)

zeros : Text
zeros = text "0000000000000000000000000000000000000000000000000000000000000000"

abbrev codec : Codec
codec = record {
  encode = λ b. b;
  decode = some;
  digest = λ _. zeros;
  to_vec = to_vec;
  from_slice = parse item;
}

to_vec-not_empty : (values : Values) → 0 < length (to_vec values)
unfolding to_vec
to_vec-not_empty [] = omega arith
to_vec-not_empty (e ∷ values) = omega arith

codec-IsCodec : IsCodec codec
unfolding zeros len text is_ascii_hexdigit
codec-IsCodec = record {
  decodes = λ b. refl;
  parses = parse-to_vec;
  long = λ _. refl;
  hex = λ _. refl;
  not_empty = to_vec-not_empty;
}

abbrev blank : Disk
blank = record { manifest = none; chunk = λ _ _. none; legacy = none; marker = none }

blank-Holds : Holds codec [] blank none
blank-Holds = record {
  manifest = empty_manifest;
  under = record { valid = empty_manifest-IsManifest; stored = refl; known = tt; values = refl };
}

abbrev first_values : Values
first_values = (text "github", text "ghp_1") ∷ []

abbrev second_values : Values
second_values = (text "github", text "ghp_2") ∷ []

-- A save, one that dies after its journal and its first chunk, and a load.
abbrev operations : List (Operation × List Fate)
operations =
    (saves 1 first_values, [])
    ∷ (saves 2 second_values, works ∷ works ∷ works ∷ dies ∷ [])
    ∷ (loads, [])
    ∷ []

cut_off : (run codec operations blank).0 ≡ saved ∷ unanswered ∷ loaded (some first_values) ∷ []
unfolding run ◌>>=◌ ◌>>◌ to_vec text text_beq zeros len is_ascii_hexdigit parse
cut_off = refl

run-refines_example :
    let (answers, e) = run codec operations blank in
    (w : Option Values) × Accepts operations none answers w × Holds codec (drawn [] operations) e w
run-refines_example =
    run-refines codec codec-IsCodec [] operations blank none (refl, (refl, tt)) blank-Holds

save-load_example :
    (e : Disk) × Returns blank (save codec 1 first_values) tt e
    × (f : Disk) × Returns e (load codec) (some first_values) f
unfolding to_vec text
save-load_example =
    save-load codec codec-IsCodec 1 first_values [] blank none (omega arith) refl blank-Holds

-- A directory with a `secrets.json` that has not been migrated.
abbrev unmigrated : Disk
unmigrated = record blank { legacy = some (some first_values) }

unmigrated-Holds : Holds codec [] unmigrated none
unmigrated-Holds = record {
  manifest = empty_manifest;
  under = record { valid = empty_manifest-IsManifest; stored = refl; known = tt; values = refl };
}

migrate-keeps_example :
    From unmigrated
      (migrate codec 1)
      (λ r e. (r ≡ first_values) × Holds codec (1 ∷ []) e (some first_values) × (e.legacy ≡ none))
      (IsSafe codec codec-IsCodec [] 1 first_values none)
migrate-keeps_example =
    migrate-keeps codec codec-IsCodec [] 1 first_values none unmigrated refl refl unmigrated-Holds
