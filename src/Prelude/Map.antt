-- ===== src/Prelude/Map.antt =====
-- Rust's `HashMap` and `BTreeMap` as an association list. Where the program iterates over a map,
-- the order of the list stands for the map's order, which no theorem assumes.
use mathlib.Core.Path.{◌≡◌, refl}
use mathlib.Core.Bool.{Bool, false}
use mathlib.Core.Option
use mathlib.Core.Option.{Option, none, some}
use mathlib.Core.List.{List, [], ◌∷◌}
use native.Mathlib.Omega.{arith}
use friendzone.Prelude.Tests.{Eq, ◌==◌, if◌then◌else◌}
use friendzone.Prelude.Lists.{any}

abbrev pub Map {ℓ κ} : Type ℓ → Type κ → Type (ℓ ⊔ κ)
Map K V = List (K × V)

module _ {ℓ κ} {K : Type ℓ} {V : Type κ} ⦃e : Eq K⦄ where
  -- `m.get(k)`
  unfoldable pub lookup : K → Map K V → Option V
  lookup k [] = none
  lookup k ((j, v) ∷ m) = if j == k then some v else lookup k m

  -- `m.insert(k, v)`
  unfoldable pub insert : K → V → Map K V → Map K V
  insert k v [] = (k, v) ∷ []
  insert k v ((j, w) ∷ m) = if j == k then (k, v) ∷ m else (j, w) ∷ insert k v m

  -- `m.remove(k)`
  unfoldable pub remove : K → Map K V → Map K V
  remove k [] = []
  remove k ((j, w) ∷ m) = let rest = remove k m in if j == k then rest else (j, w) ∷ rest

  -- A pass over `m.iter_mut()`.
  unfoldable pub map_values : (K → V → V) → Map K V → Map K V
  map_values f [] = []
  map_values f ((j, w) ∷ m) = (j, f j w) ∷ map_values f m

  pub lookup-insert :
      (k j : K) (v : V) (m : Map K V)
      → lookup j (insert k v m) ≡ (if k == j then some v else lookup j m)
  unfolding lookup insert
  lookup-insert k j v [] = ground arith
  lookup-insert k j v ((i, w) ∷ m) =
      ground (arith, e.beq_iff k j, e.beq_iff i k, e.beq_iff i j, lookup-insert k j v m)

  pub lookup-remove :
      (k j : K) (m : Map K V) → lookup j (remove k m) ≡ (if k == j then none else lookup j m)
  unfolding lookup remove
  lookup-remove k j [] = ground arith
  lookup-remove k j ((i, w) ∷ m) =
      ground (arith, e.beq_iff k j, e.beq_iff i k, e.beq_iff i j, lookup-remove k j m)

  pub lookup-map_values :
      (f : K → V → V) (k : K) (m : Map K V)
      → lookup k (map_values f m) ≡ Option.map (f k) (lookup k m)
  unfolding lookup map_values
  lookup-map_values f k [] = refl
  lookup-map_values f k ((j, w) ∷ m) = ground (arith, e.beq_iff j k, lookup-map_values f k m)

  -- What no entry satisfies, no value that is looked up satisfies.
  pub lookup-of_any :
      (p : K × V → Bool) (k : K) (m : Map K V) {v : V}
      → any p m ≡ false
      → lookup k m ≡ some v
      → p (k, v) ≡ false
  unfolding lookup
  lookup-of_any p k [] n h = cc
  lookup-of_any p k ((j, w) ∷ m) {v} n h =
      ground (arith, e.beq_iff j k, lookup-of_any p k m {v = v})
