-- ===== src/Prelude/Counts.antt =====
-- How many entries of a map pass a test, under the operations on the map.
use Prim.Native.Nat.{ℕ, ◌+◌, ◌≤◌}
use mathlib.Core.Path.{◌≡◌, refl}
use mathlib.Core.Bool.{Bool, true}
use mathlib.Core.Option.{some}
use mathlib.Core.List.{[], ◌∷◌}
use native.Mathlib.Omega.{arith}
use friendzone.Prelude.Tests.{Eq, if◌then◌else◌}
use friendzone.Prelude.Lists.{filter, length}
use friendzone.Prelude.Map.{Map, lookup, insert, remove, map_values}

module _ {ℓ κ} {K : Type ℓ} {V : Type κ} ⦃e : Eq K⦄ where
  abbrev pub count : (K × V → Bool) → Map K V → ℕ
  count p m = length (filter p m)

  pub length-insert-le : (k : K) (v : V) (m : Map K V) → length (insert k v m) ≤ length m + 1
  unfolding insert
  length-insert-le k v [] = omega arith
  length-insert-le k v ((j, w) ∷ m) = ground (arith, length-insert-le k v m)

  pub length-insert_old :
      (k : K) (v w : V) (m : Map K V) → lookup k m ≡ some w → length (insert k v m) ≡ length m
  unfolding insert lookup
  length-insert_old k v w [] h = cc
  length-insert_old k v w ((j, u) ∷ m) h = ground (arith, length-insert_old k v w m)

  pub length-remove-le : (k : K) (m : Map K V) → length (remove k m) ≤ length m
  unfolding remove
  length-remove-le k [] = omega arith
  length-remove-le k ((j, w) ∷ m) = ground (arith, length-remove-le k m)

  module _ (p : K × V → Bool) where
    pub count-insert-le :
        (k : K) (v : V) (m : Map K V)
        → count p (insert k v m) ≤ count p m + (if p (k, v) then 1 else 0)
    unfolding insert
    count-insert-le k v [] = ground arith
    count-insert-le k v ((j, w) ∷ m) = ground (arith, count-insert-le k v m)

    pub count-insert_old :
        (k : K) (v w : V) (m : Map K V)
        → lookup k m ≡ some w
        → p (k, v) ≡ p (k, w)
        → count p (insert k v m) ≡ count p m
    unfolding insert lookup
    count-insert_old k v w [] h s = cc
    count-insert_old k v w ((j, u) ∷ m) h s =
        ground (arith, e.beq_iff j k, count-insert_old k v w m)

    pub count-remove-le : (k : K) (m : Map K V) → count p (remove k m) ≤ count p m
    unfolding remove
    count-remove-le k [] = omega arith
    count-remove-le k ((j, w) ∷ m) = ground (arith, count-remove-le k m)

    -- A new value that passes the test only if the old one did.
    pub count-insert-le_old :
        (k : K) (v w : V) (m : Map K V)
        → lookup k m ≡ some w
        → (p (k, v) ≡ true → p (k, w) ≡ true)
        → count p (insert k v m) ≤ count p m
    unfolding insert lookup
    count-insert-le_old k v w [] h s = cc
    count-insert-le_old k v w ((j, u) ∷ m) h s =
        ground
          (arith, s, e.beq_iff j k, λ (g : lookup k m ≡ some w). count-insert-le_old k v w m g s)

    -- Every value is replaced by one that passes the test only if it did.
    pub count-map_values-le :
        (f : K → V → V) (m : Map K V)
        → ((k : K) (v : V) → p (k, f k v) ≡ true → p (k, v) ≡ true)
        → count p (map_values f m) ≤ count p m
    unfolding map_values
    count-map_values-le f [] s = omega arith
    count-map_values-le f ((j, u) ∷ m) s = ground (arith, s j u, count-map_values-le f m s)

  pub length-map_values : (f : K → V → V) (m : Map K V) → length (map_values f m) ≡ length m
  unfolding map_values
  length-map_values f [] = refl
  length-map_values f ((j, u) ∷ m) = omega (arith, length-map_values f m)
