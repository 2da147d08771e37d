-- ===== src/State/Load/Restored.antt =====
-- What a start restores is what was saved.
use friendzone.Prelude.{
  ◌≡◌, refl, sym, ap, subst, ◌∙◌, inl, inr, Bool, false, ◌||◌, ◌&&◌, none, some, String, List, [],
  ◌∷◌, arith, any, All, length, ◌==◌, ◌≤◌, string_eq, if◌then◌else◌, string_eq, eq_self, true,
}
use friendzone.Prelude.Map.{lookup, insert, lookup-insert}
use friendzone.Prelude.Result.{Result-cases, ok}
use friendzone.Storage.{Directory}
use friendzone.State.{
  StateData, ContainerRecord, SavedContainer, SavedContainers, Containers, AppState, Env, contains,
  insert_name, default_record,
}
use friendzone.State.Policy.{Killed}
use friendzone.State.Load.{Reading, restored, load_entry, load_entries, load, saved_in}

module _ (is_blank : String → Bool) (envs : String → Env) where
  -- The killed names after an entry.
  abbrev killed_after : SavedContainer → Killed → Killed
  killed_after entry killed = if entry.killed then insert_name entry.name killed else killed

  load_entries-cons :
      (e : SavedContainer) (es : List SavedContainer) (m : Containers) (k : Killed)
      {p : Containers × Killed}
      → load_entries is_blank envs (e ∷ es) m k ≡ ok p
      → (is_blank e.name ≡ false)
        × (lookup e.name m ≡ none)
        × (length e.comment_permissions ≤ 32)
        × (load_entries is_blank envs es
              (insert e.name (restored (envs e.name) e) m)
              (killed_after e k)
            ≡ ok p)
  unfolding load_entries load_entry
  load_entries-cons e es m k h = ground (arith, h)

  contains-killed_after :
      (j : String) (e : SavedContainer) (k : Killed)
      → contains j (killed_after e k) ≡ (contains j k || (e.killed && e.name == j))
  unfolding contains insert_name
  contains-killed_after j e k = ground (arith, string_eq.beq_iff e.name j)

  -- A container that was restored stays as it is in the rest of the loop.
  load_entries-keeps :
      (es : List SavedContainer) (m m' : Containers) (k k' : Killed) (j : String)
      {r : ContainerRecord}
      → lookup j m ≡ some r
      → load_entries is_blank envs es m k ≡ ok (m', k')
      → (lookup j m' ≡ some r) × (contains j k' ≡ contains j k)
  unfolding load_entries
  load_entries-keeps [] m m' k k' j l h = ground (arith, l, h)
  load_entries-keeps (e ∷ es) m m' k k' j {r} l h =
      let (_, n, _, h') = load_entries-cons e es m k h in
      let v = restored (envs e.name) e in
      let d : (e.name == j) ≡ false = ground (arith, string_eq.beq_iff e.name j) in
      let (f, c) =
        load_entries-keeps es (insert e.name v m) m' (killed_after e k) k' j {r = r}
          (rw (lookup-insert e.name j v m, d) l) h' in
      (f, c ∙ ground (arith, contains-killed_after j e k))

  -- Only the names in the file are restored.
  load_entries-no_other :
      (es : List SavedContainer) (m m' : Containers) (k k' : Killed) (j : String)
      → lookup j m ≡ none
      → any (λ e. e.name == j) es ≡ false
      → load_entries is_blank envs es m k ≡ ok (m', k')
      → lookup j m' ≡ none
  unfolding load_entries
  load_entries-no_other [] m m' k k' j l a h = ground (arith, l, h)
  load_entries-no_other (e ∷ es) m m' k k' j l a h =
      let (_, n, _, h') = load_entries-cons e es m k h in
      let v = restored (envs e.name) e in
      let d : (e.name == j) ≡ false = ground arith in
      load_entries-no_other es (insert e.name v m) m' (killed_after e k) k' j
        (rw (lookup-insert e.name j v m, d) l) (ground arith) h'

  -- The record of an entry: what the file holds, with no address seen yet, and an epoch and a revision
  -- that are drawn anew.
  pub IsRecordOf : SavedContainer → ContainerRecord → Type 0
  IsRecordOf e r =
      (r.approved ≡ e.approved)
      × (r.pinned_ip ≡ e.pinned_ip)
      × (r.instance_id ≡ e.instance_id)
      × (r.comment_permissions ≡ e.comment_permissions)
      × (r.cline_access ≡ e.cline_access)
      × (r.managed ≡ true)
      × (r.last_ip ≡ none)
      × (r.last_activity ≡ none)
      × (r.policy_epoch ≡ (envs e.name).epoch)
      × (r.comment_revision ≡ (envs e.name).revision)

  -- What an entry of the file promises of the state after the start.
  pub IsRestored : Containers → Killed → SavedContainer → Type 0
  IsRestored m k e =
      ((r : ContainerRecord) × (lookup e.name m ≡ some r) × IsRecordOf e r)
      × (contains e.name k ≡ e.killed)
      × (is_blank e.name ≡ false)
      × (length e.comment_permissions ≤ 32)

  restored-IsRecordOf : (e : SavedContainer) → IsRecordOf e (restored (envs e.name) e)
  unfolding restored default_record IsRecordOf
  restored-IsRecordOf e = (refl, refl, refl, refl, refl, refl, refl, refl, refl, refl)

  load_entries-IsRestored :
      (es : List SavedContainer) (m m' : Containers) (k k' : Killed)
      → ((j : String) → lookup j m ≡ none → contains j k ≡ false)
      → load_entries is_blank envs es m k ≡ ok (m', k')
      → All (IsRestored m' k') es
  unfolding load_entries IsRestored
  load_entries-IsRestored [] m m' k k' i h = tt
  load_entries-IsRestored (e ∷ es) m m' k k' i h =
      let (b, n, g, h') = load_entries-cons e es m k h in
      let v = restored (envs e.name) e in
      let (f, c) =
        load_entries-keeps es (insert e.name v m) m' (killed_after e k) k' e.name {r = v}
          (rw (lookup-insert e.name e.name v m, eq_self e.name) refl) h' in
      (
        (
          (v, f, restored-IsRecordOf e),
          c ∙ ground (arith, contains-killed_after e.name e k, i e.name n, eq_self e.name),
          b,
          g,
        ),
        load_entries-IsRestored es (insert e.name v m) m' (killed_after e k) k'
            (λ j l. ground (arith, lookup-insert e.name j v m, contains-killed_after j e k, i j))
            h',
      )

  load-cases :
      (reading : Reading) (directory : Directory SavedContainers) (s : AppState)
      → load is_blank envs reading directory ≡ ok s
      → (saved : SavedContainers) × (saved_in reading ≡ ok saved)
        × (saved.version ≡ 1)
        × (m : Containers) × (k : Killed) × (load_entries is_blank envs saved.containers [] []
            ≡ ok (m, k))
        × (s.state ≡ record { requests = []; next_sequence = 0; killed = k; containers = m })
  unfolding load
  load-cases reading directory s h = elim (Result-cases (saved_in reading)) [
    | inl (e, q) ↦ absurd (ground (arith, q, h))
    | inr (saved, q) ↦ elim (Result-cases (load_entries is_blank envs saved.containers [] [])) [
      | inl (e, c) ↦ absurd (ground (arith, q, c, h))
      | inr ((m, k), c) ↦ (saved, q, ground (arith, q, c, h), m, k, c, ground (arith, q, c, h))
    ]
  ]

  -- A start that succeeds read the policy of version 1, or found no file. Each entry is restored with the
  -- approval, the pin, the incarnation, the permissions and the access that the file holds, no address
  -- seen, and a fresh epoch and revision, and is killed exactly where the file says so. No other
  -- container is known, nothing is logged, and no name is blank and no container has more than 32
  -- permissions.
  pub load-IsRestored :
      (reading : Reading) (directory : Directory SavedContainers) (s : AppState)
      → load is_blank envs reading directory ≡ ok s
      → (saved : SavedContainers) × (saved_in reading ≡ ok saved)
        × (saved.version ≡ 1)
        × All (IsRestored s.state.containers s.state.killed) saved.containers
        × ((j : String)
            → any (λ e. e.name == j) saved.containers ≡ false
            → lookup j s.state.containers ≡ none)
        × (s.state.requests ≡ [])
  unfolding load contains lookup
  load-IsRestored reading directory s h =
      let (saved, e, v, m, k, l, q) = load-cases reading directory s h in
      (
        saved,
        e,
        v,
        subst (λ (d : StateData). All (IsRestored d.containers d.killed) saved.containers) (sym q)
            (load_entries-IsRestored saved.containers [] m [] k (λ j n. refl) l),
        λ j a.
            subst (λ (d : StateData). lookup j d.containers ≡ none) (sym q)
              (load_entries-no_other saved.containers [] m [] k j refl a l),
        ap (λ (d : StateData). d.requests) q,
      )
