-- ===== src/Settings/Revoke.antt =====
-- What the writers of the secrets leave behind.
use friendzone.Prelude.{
  ◌≡◌, refl, ap, ◌∙◌, arith, ◌⊎◌, inl, inr, ◌≢◌, ◌+◌, Bool, true, false, none, some, ◌==◌,
  if◌then◌else◌, not, any, filter, List, [], ◌∷◌, Bool-cases, eq_self, length,
}
use friendzone.Prelude.Text.{Text, text, text_eq, text_beq_iff}
use friendzone.Prelude.Map.{lookup, insert, remove, lookup-insert, lookup-remove}
use friendzone.Prelude.Result.{Result, ok, err}
use friendzone.Settings.{
  EscrowEntry, Secrets, Settings, Env, External, SettingsError, secrets_not_saved,
  entries_not_written, has_name, save, write_entries, session_name, remove_entry, set_secret,
  has_session, stored_value, real_value, with_workos, secret,
}

session_name-length : (n : Text) → length (session_name n) ≡ 12 + length n
unfolding session_name text
session_name-length n = omega (arith)

session_name-ne : (n : Text) → session_name n ≢ n
session_name-ne n h = omega (arith, session_name-length n, ap length h)

lookup-remove_both :
    (a b k : Text) (m : Secrets)
    → lookup k (remove b (remove a m))
      ≡ (if b == k then none else if a == k then none else lookup k m)
lookup-remove_both a b k m = rw (lookup-remove b k (remove a m), lookup-remove a k m) refl

-- The secrets without those of an entry, and of its session.
abbrev without : Text → Secrets → Secrets
without name m = remove (session_name name) (remove name m)

-- What is left where the secret store took the write: both stores without the entry's secrets, and the
-- entry gone if its write succeeds.
unfoldable pub IsRevoked :
    Text → Text → Settings → Result SettingsError (Unit {0}) → Settings → Type 0
IsRevoked name k s r s' =
    (s'.saved_secrets ≡ s'.secrets)
    × (lookup k s'.secrets
        ≡ (if session_name name == k then none else if name == k then none else lookup k s.secrets))
    × (((r ≡ ok tt)
          × (any (has_name name) s'.entries ≡ false)
          × (s'.saved_entries ≡ some s'.entries))
        ⊎ ((r ≡ err entries_not_written) × (s'.entries ≡ s.entries)))

-- What is left where it reported an error: nothing is revoked in memory or removed from the entries,
-- and the store holds the old secrets or the new ones.
unfoldable pub IsUnrevoked : Text → Settings → Result SettingsError (Unit {0}) → Settings → Type 0
IsUnrevoked name s r s' =
    (r ≡ err secrets_not_saved)
    × (s'.secrets ≡ s.secrets)
    × (s'.entries ≡ s.entries)
    × (s'.saved_entries ≡ s.saved_entries)
    × ((s'.saved_secrets ≡ s.saved_secrets) ⊎ (s'.saved_secrets ≡ without name s.secrets))

none_named :
    (name : Text) (es : List EscrowEntry)
    → any (has_name name) (filter (λ e. not (has_name name e)) es) ≡ false
none_named name [] = refl
none_named name (e ∷ es) = ground (arith, none_named name es)

-- The outcomes of the two stores, one by one.
remove_entry-cases :
    (saves replaces writes : Bool) (env : Env) (name k : Text) (s : Settings)
    → let env' : Env = record env {
      saves_secrets = saves;
      replaces_secrets = replaces;
      writes_entries = writes;
    } in
      let (r, s') = remove_entry env' name s in
      ((saves ≡ true) × IsRevoked name k s r s') ⊎ ((saves ≡ false) × IsUnrevoked name s r s')
unfolding remove_entry save write_entries IsRevoked IsUnrevoked
remove_entry-cases true b true env name k s = inl (
  refl,
  (
    refl,
    lookup-remove_both name (session_name name) k s.secrets,
    inl (refl, none_named name s.entries, refl),
  ),
)
remove_entry-cases true b false env name k s =
    inl (refl, (refl, lookup-remove_both name (session_name name) k s.secrets, inr (refl, refl)))
remove_entry-cases false true c env name k s = inr (refl, (refl, refl, refl, refl, inr refl))
remove_entry-cases false false c env name k s = inr (refl, (refl, refl, refl, refl, inl refl))

-- Removing an entry revokes its secrets before anything else. If the secret store takes the write, the
-- entry's secret and its session are gone from memory and from the store, and every other secret is
-- as it was; then the entry is gone from memory and from its file, or its write fails and the
-- entries in memory stay. If the secret store reports an error, so does the call: the secrets and
-- the entries in memory and the entries' file are as they were, and the store holds the old secrets
-- or the new ones.
pub remove_entry-revokes :
    (env : Env) (name k : Text) (s : Settings)
    → let (r, s') = remove_entry env name s in
      ((env.saves_secrets ≡ true) × IsRevoked name k s r s')
      ⊎ ((env.saves_secrets ≡ false) × IsUnrevoked name s r s')
remove_entry-revokes env name k s =
    remove_entry-cases env.saves_secrets env.replaces_secrets env.writes_entries env name k s

-- A static secret that is saved replaces the session of its entry: the entry's real value is the
-- secret itself.
set_secret-real_value :
    (env : Env) (x : External) (e : EscrowEntry) (value : Text) (s : Settings)
    → (set_secret env e.name value s).0 ≡ ok tt
    → let s' = (set_secret env e.name value s).1 in
      (has_session x e.name s' ≡ false) × (real_value x e s' ≡ some value)
unfolding set_secret save has_session real_value
set_secret-real_value env x e value s o = elim (Bool-cases env.saves_secrets) [
  | inl t ↦
      let m = remove (session_name e.name) (insert e.name value s.secrets) in
      let p : (set_secret env e.name value s).1.secrets ≡ m = rw (t, set_secret, save) refl in
      let a : lookup (session_name e.name) (set_secret env e.name value s).1.secrets ≡ none =
        ap (lookup (session_name e.name)) p
        ∙ ground (
          arith,
          lookup-remove (session_name e.name) (session_name e.name) (insert e.name value s.secrets),
          eq_self (session_name e.name),
        ) in
      let b : lookup e.name (set_secret env e.name value s).1.secrets ≡ some value =
        ap (lookup e.name) p
        ∙ ground (
          arith,
          lookup-remove (session_name e.name) e.name (insert e.name value s.secrets),
          lookup-insert e.name e.name value s.secrets,
          eq_self e.name,
          text_beq_iff (session_name e.name) e.name,
          session_name-ne e.name,
        ) in
      let c : has_session x e.name (set_secret env e.name value s).1 ≡ false =
        rw (has_session, secret, a) refl in
      (c, rw (real_value, c, stored_value, secret, b) (unfold with_workos in refl))
  | inr f ↦ ground arith
]
