-- ===== src/Prelude/Keys.antt =====
-- The keys of an association list, and its size.
use Prim.Native.Nat.{suc}
use mathlib.Core.Path.{◌≡◌, refl}
use mathlib.Core.Option.{none, some}
use mathlib.Core.List.{[], ◌∷◌}
use native.Mathlib.Omega.{arith}
use lacert.Prelude.Tests.{Eq}
use lacert.Prelude.Lists.{length}
use lacert.Prelude.Maps.{Map, lookup, insert, delete, lookup-insert, lookup-delete}

module _ {ℓ κ} {K : Type ℓ} {V : Type κ} ⦃e : Eq K⦄ where
  -- No key comes twice.
  unfoldable pub Unique : Map K V → Type κ
  Unique [] = Unit
  Unique ((k, x) ∷ kvs) = (lookup k kvs ≡ none) × Unique kvs

  pub Unique-insert : (k : K) (x : V) (kvs : Map K V) → Unique kvs → Unique (insert k x kvs)
  unfolding Unique insert lookup
  Unique-insert k x [] u = ground arith
  Unique-insert k x ((j, y) ∷ kvs) (new, u) = ground (
    arith,
    new,
    u,
    e.tests_iff j k,
    e.tests_iff k j,
    lookup-insert k j x kvs,
    Unique-insert k x kvs u,
  )

  pub Unique-delete : (k : K) (kvs : Map K V) → Unique kvs → Unique (delete k kvs)
  unfolding Unique delete
  Unique-delete k [] u = u
  Unique-delete k ((j, y) ∷ kvs) (new, u) =
      ground (arith, new, lookup-delete k j kvs, Unique-delete k kvs u)

  delete-absent : (k : K) (kvs : Map K V) → lookup k kvs ≡ none → delete k kvs ≡ kvs
  unfolding lookup delete
  delete-absent k [] h = refl
  delete-absent k ((j, y) ∷ kvs) h = ground (arith, h, delete-absent k kvs)

  pub length-delete :
      (k : K) (x : V) (kvs : Map K V)
      → Unique kvs
      → lookup k kvs ≡ some x
      → length kvs ≡ suc (length (delete k kvs))
  unfolding Unique lookup delete
  length-delete k x [] u h = absurd (ground arith)
  length-delete k x ((j, y) ∷ kvs) (new, u) h =
      ground (arith, new, h, e.tests_iff j k, delete-absent k kvs, length-delete k x kvs u)

  pub length-insert_new :
      (k : K) (x : V) (kvs : Map K V)
      → lookup k kvs ≡ none
      → length (insert k x kvs) ≡ suc (length kvs)
  unfolding lookup insert
  length-insert_new k x [] h = refl
  length-insert_new k x ((j, y) ∷ kvs) h = ground (arith, h, length-insert_new k x kvs)

  pub length-insert_old :
      (k : K) (x y : V) (kvs : Map K V)
      → lookup k kvs ≡ some y
      → length (insert k x kvs) ≡ length kvs
  unfolding lookup insert
  length-insert_old k x y [] h = absurd (ground arith)
  length-insert_old k x y ((j, z) ∷ kvs) h = ground (arith, h, length-insert_old k x y kvs)
