-- ===== src/SecretStore/Register.antt =====
-- The vault is a register that is written as a whole: any run of loads and saves, each of which may
-- fail or be cut off at any call, answers as the register does.
use friendzone.Prelude.{
  ◌≡◌, refl, Option, some, List, [], ◌∷◌, false, ◌==◌, nat_eq, any, inl, inr, ◌⊎◌,
}
use friendzone.Github.{Uuid}
use friendzone.SecretStore.{Values, Disk, Fate, World, Run, ok, err, died, Codec}
use friendzone.SecretStore.Vault.{load, save}
use friendzone.SecretStore.Outcomes.{Ends}
use friendzone.SecretStore.Invariant.{Holds}
use friendzone.SecretStore.Cleaning.{HeldWith}
use friendzone.SecretStore.Staging.{IsCodec}
use friendzone.SecretStore.Saving.{load-From, save-From, Undecided}

pub data Operation : Type 0 where
  loads : Operation
  saves : Uuid → Values → Operation

-- What the caller learns: nothing, if the call failed or the process ended.
pub data Answer : Type 0 where
  loaded : Option Values → Answer
  saved unanswered : Answer

abbrev load_answer : Run (Option Values) × World → Answer × Disk
load_answer (ok v, w) = (loaded v, w.disk)
load_answer (err e, w) = (unanswered, w.disk)
load_answer (died, w) = (unanswered, w.disk)

abbrev save_answer : Run (Unit {0}) × World → Answer × Disk
save_answer (ok u, w) = (saved, w.disk)
save_answer (err e, w) = (unanswered, w.disk)
save_answer (died, w) = (unanswered, w.disk)

-- The register: a load answers with its value; a save that is answered has written its own, and one
-- that is not answered has written it or nothing.
abbrev pub Allows : Operation → Option Values → Answer → Option Values → Type 0
Allows loads v (loaded r) w = (r ≡ v) × (w ≡ v)
Allows loads v saved w = ⊥
Allows loads v unanswered w = w ≡ v
Allows (saves id values) v (loaded r) w = ⊥
Allows (saves id values) v saved w = w ≡ some values
Allows (saves id values) v unanswered w = (w ≡ v) ⊎ (w ≡ some values)

-- The register, through a run of operations with their answers.
abbrev pub Accepts :
    List (Operation × List Fate) → Option Values → List Answer → Option Values → Type 0
Accepts [] v [] w = w ≡ v
Accepts [] v (a ∷ answers) w = ⊥
Accepts (o ∷ os) v [] w = ⊥
Accepts (o ∷ os) v (a ∷ answers) w =
    (u : Option Values) × Allows (o.0) v a u × Accepts os u answers w

-- No save draws an ID that was drawn before.
abbrev pub IsFresh : List Uuid → List (Operation × List Fate) → Type 0
IsFresh ids [] = Unit
IsFresh ids ((loads, fates) ∷ os) = IsFresh ids os
IsFresh ids ((saves id values, fates) ∷ os) =
    (any (λ i. i == id) ids ≡ false) × IsFresh (id ∷ ids) os

-- The IDs that are drawn in a run.
abbrev pub drawn : List Uuid → List (Operation × List Fate) → List Uuid
drawn ids [] = ids
drawn ids ((loads, fates) ∷ os) = drawn ids os
drawn ids ((saves id values, fates) ∷ os) = drawn (id ∷ ids) os

module _ (x : Codec) where
  -- One operation, with the fates of its calls.
  unfoldable pub perform : Operation → List Fate → Disk → Answer × Disk
  unfolding load save
  perform loads fates d = load_answer (load x (record { disk = d; fates = fates }))
  perform (saves id values) fates d =
      save_answer (save x id values (record { disk = d; fates = fates }))

  unfoldable pub run : List (Operation × List Fate) → Disk → List Answer × Disk
  unfolding perform
  run [] d = ([], d)
  run ((o, fates) ∷ os) d =
      let (a, d') = perform o fates d in let (answers, e) = run os d' in (a ∷ answers, e)

  perform-loads :
      (ids : List Uuid) (d : Disk) (v : Option Values) (fates : List Fate)
      → Holds x ids d v
      → let (a, e) = perform loads fates d in Allows loads v a v × Holds x ids e v
  unfolding perform
  perform-loads ids d v fates h =
      go (load x (record { disk = d; fates = fates })) ((load-From x ids d v h).at fates)
    where
      go :
          (r : Run (Option Values) × World)
          → Ends (λ s e. (s ≡ v) × HeldWith x ids v d e) (HeldWith x ids v d) r
          → let (a, e) = load_answer r in Allows loads v a v × Holds x ids e v
      go (ok s, w) q = ((q.0, refl), q.1.0)
      go (err e, w) q = (refl, q.0)
      go (died, w) q = (refl, q.0)

  perform-saves :
      (c : IsCodec x) (ids : List Uuid) (id : Uuid) (values : Values) (d : Disk) (v : Option Values)
      (fates : List Fate)
      → any (λ i. i == id) ids ≡ false
      → Holds x ids d v
      → let (a, e) = perform (saves id values) fates d in
        (u : Option Values) × Allows (saves id values) v a u × Holds x (id ∷ ids) e u
  unfolding perform
  perform-saves c ids id values d v fates n h =
      go (save x id values (record { disk = d; fates = fates }))
        ((save-From x c ids id values d v n h).at fates)
    where
      undecided :
          (e : Disk)
          → Undecided x c ids id values d v e
          → (u : Option Values) × ((u ≡ v) ⊎ (u ≡ some values)) × Holds x (id ∷ ids) e u
      undecided e q = elim (q.0) [ inl k ↦ (v, inl refl, k) | inr k ↦ (some values, inr refl, k) ]

      go :
          (r : Run (Unit {0}) × World)
          → Ends (λ _. HeldWith x (id ∷ ids) (some values) d) (Undecided x c ids id values d v) r
          → let (a, e) = save_answer r in
            (u : Option Values) × Allows (saves id values) v a u × Holds x (id ∷ ids) e u
      go (ok u, w) q = (some values, refl, q.0)
      go (err e, w) q = undecided w.disk q
      go (died, w) q = undecided w.disk q

  -- The vault refines the register. In any run of loads and saves, each with any fates of its calls,
  -- the answers are those that the register allows from the values that were held, and the values
  -- that the register is left with are held at the end, if no save draws an ID that was drawn before.
  pub run-refines :
      (c : IsCodec x) (ids : List Uuid) (os : List (Operation × List Fate)) (d : Disk)
      (v : Option Values)
      → IsFresh ids os
      → Holds x ids d v
      → let (answers, e) = run os d in
        (w : Option Values) × Accepts os v answers w × Holds x (drawn ids os) e w
  unfolding run
  run-refines c ids [] d v f h = (v, refl, h)
  run-refines c ids ((loads, fates) ∷ os) d v f h =
      let (a, k) = perform-loads ids d v fates h in
      let (w, l, m) = run-refines c ids os (perform loads fates d).1 v f k in (w, (v, a, l), m)
  run-refines c ids ((saves id values, fates) ∷ os) d v f h =
      let (u, a, k) = perform-saves c ids id values d v fates f.0 h in
      let (w, l, m) = run-refines c (id ∷ ids) os (perform (saves id values) fates d).1 u f.1 k in
      (w, (u, a, l), m)
