-- ===== src/Prelude/Maps.antt =====
-- Go's `map` as an association list. A key that is written again keeps one entry.
use Prim.Native.Nat.{◌≤◌, suc}
use mathlib.Core.Path.{◌≡◌, refl}
use mathlib.Core.Bool.{Bool}
use mathlib.Core.Option.{Option, none, some}
use mathlib.Core.List.{List, [], ◌∷◌}
use native.Mathlib.Omega.{arith}
use lacert.Prelude.Tests.{if◌then◌else◌, Eq}
use lacert.Prelude.Lists.{length}

abbrev pub Map {ℓ κ} : Type ℓ → Type κ → Type (ℓ ⊔ κ)
Map K V = List (K × V)

abbrev pub unless {κ} : {V : Type κ} → (V → Bool) → Option V → Option V
unless p none = none
unless p (some v) = if p v then none else some v

module _ {ℓ κ} {K : Type ℓ} {V : Type κ} ⦃e : Eq K⦄ where
  -- `v, ok := m[k]`
  unfoldable pub lookup : K → Map K V → Option V
  lookup k [] = none
  lookup k ((j, x) ∷ kvs) = if e.tests j k then some x else lookup k kvs

  -- `m[k] = v`
  unfoldable pub insert : K → V → Map K V → Map K V
  insert k x [] = (k, x) ∷ []
  insert k x ((j, y) ∷ kvs) =
      let rest = insert k x kvs in if e.tests j k then (k, x) ∷ kvs else (j, y) ∷ rest

  -- `delete(m, k)`
  unfoldable pub delete : K → Map K V → Map K V
  delete k [] = []
  delete k ((j, x) ∷ kvs) = let rest = delete k kvs in if e.tests j k then rest else (j, x) ∷ rest

  -- `for k, v := range m { if test(v) { delete(m, k) } }`
  unfoldable pub delete_if : (V → Bool) → Map K V → Map K V
  delete_if p [] = []
  delete_if p ((k, x) ∷ kvs) =
      let rest = delete_if p kvs in if p x then delete k rest else (k, x) ∷ rest

  pub lookup-insert :
      (k j : K) (x : V) (kvs : Map K V)
      → lookup j (insert k x kvs) ≡ (if e.tests k j then some x else lookup j kvs)
  unfolding lookup insert
  lookup-insert k j x [] = refl
  lookup-insert k j x ((i, y) ∷ kvs) =
      ground (arith, e.tests_iff k j, e.tests_iff i k, e.tests_iff i j, lookup-insert k j x kvs)

  pub lookup-insert_self : (k : K) (x : V) (kvs : Map K V) → lookup k (insert k x kvs) ≡ some x
  lookup-insert_self k x kvs = ground (arith, lookup-insert k k x kvs, e.tests_iff k k)

  pub lookup-delete :
      (k j : K) (kvs : Map K V)
      → lookup j (delete k kvs) ≡ (if e.tests k j then none else lookup j kvs)
  unfolding lookup delete
  lookup-delete k j [] = ground arith
  lookup-delete k j ((i, y) ∷ kvs) =
      ground (arith, e.tests_iff k j, e.tests_iff i k, e.tests_iff i j, lookup-delete k j kvs)

  pub lookup-delete_if :
      (p : V → Bool) (j : K) (kvs : Map K V) → lookup j (delete_if p kvs) ≡ unless p (lookup j kvs)
  unfolding lookup delete_if
  lookup-delete_if p j [] = refl
  lookup-delete_if p j ((i, y) ∷ kvs) =
      ground (arith, e.tests_iff i j, lookup-delete i j (delete_if p kvs), lookup-delete_if p j kvs)

  pub length-insert : (k : K) (x : V) (kvs : Map K V) → length (insert k x kvs) ≤ suc (length kvs)
  unfolding insert
  length-insert k x [] = omega arith
  length-insert k x ((j, y) ∷ kvs) = ground (arith, length-insert k x kvs)

pub ruleset map_laws = (lookup-insert, lookup-delete, lookup-delete_if)
