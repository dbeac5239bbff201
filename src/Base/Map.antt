-- ===== src/Base/Map.antt =====
-- Go's `map[string]V`, as the list of its entries with distinct keys. Go visits the entries in an
-- unspecified order: where that matters the visiting order is a parameter.
use Prim.Native.Nat.{◌+◌, ◌≤◌}
use mathlib.Core.Path.{◌≡◌, refl}
use mathlib.Core.Option.{Option, none, some}
use mathlib.Core.List.{List, [], ◌∷◌}
use native.Mathlib.Omega.{arith}
use earthion_blockchain_dev.Base.Tests.{if◌then◌else◌}
use earthion_blockchain_dev.Base.Lists.{length}
use earthion_blockchain_dev.Base.ByteStrings.{Bytes, bytes_equal, bytes_equal_iff}

abbrev pub Map {ℓ} : Type ℓ → Type ℓ
Map V = List (Bytes × V)

module _ {ℓ} {V : Type ℓ} where
  -- `v, ok := m[k]`
  unfoldable pub lookup : Bytes → Map V → Option V
  lookup k [] = none
  lookup k ((j, v) ∷ m) = if bytes_equal j k then some v else lookup k m

  -- `m[k] = v`
  unfoldable pub insert : Bytes → V → Map V → Map V
  insert k v [] = (k, v) ∷ []
  insert k v ((j, w) ∷ m) = if bytes_equal j k then (j, v) ∷ m else (j, w) ∷ insert k v m

  -- `delete(m, k)`
  unfoldable pub erase : Bytes → Map V → Map V
  erase k [] = []
  erase k ((j, v) ∷ m) = let rest = erase k m in if bytes_equal j k then rest else (j, v) ∷ rest

  pub lookup-insert :
      (k j : Bytes) (v : V) (m : Map V)
      → lookup j (insert k v m) ≡ (if bytes_equal k j then some v else lookup j m)
  unfolding lookup insert
  lookup-insert k j v [] = refl
  lookup-insert k j v ((i, w) ∷ m) =
      ground (
        arith,
        bytes_equal_iff k j,
        bytes_equal_iff i k,
        bytes_equal_iff i j,
        lookup-insert k j v m,
      )

  pub lookup-erase :
      (k j : Bytes) (m : Map V)
      → lookup j (erase k m) ≡ (if bytes_equal k j then none else lookup j m)
  unfolding lookup erase
  lookup-erase k j [] = ground arith
  lookup-erase k j ((i, w) ∷ m) =
      ground
        (arith, bytes_equal_iff k j, bytes_equal_iff i k, bytes_equal_iff i j, lookup-erase k j m)

  -- No key stands twice.
  unfoldable pub IsMap : Map V → Type ℓ
  IsMap [] = Unit
  IsMap ((k, v) ∷ m) = (lookup k m ≡ none) × IsMap m

  pub insert-IsMap : (k : Bytes) (v : V) (m : Map V) → IsMap m → IsMap (insert k v m)
  unfolding IsMap insert
  insert-IsMap k v [] h = unfold lookup in (refl, tt)
  insert-IsMap k v ((j, w) ∷ m) h = ground (
    arith,
    insert-IsMap k v m h.1,
    lookup-insert k j v m,
    bytes_equal_iff j k,
    bytes_equal_iff k j,
  )

  pub erase-IsMap : (k : Bytes) (m : Map V) → IsMap m → IsMap (erase k m)
  unfolding IsMap erase
  erase-IsMap k [] h = tt
  erase-IsMap k ((j, v) ∷ m) h =
      ground
        (arith, erase-IsMap k m h.1, lookup-erase k j m, bytes_equal_iff j k, bytes_equal_iff k j)

  pub length-insert :
      (k : Bytes) (v : V) (m : Map V)
      → length (insert k v m) ≡ (elim (lookup k m) [ none ↦ length m + 1 | some _ ↦ length m ])
  unfolding lookup insert
  length-insert k v [] = omega arith
  length-insert k v ((j, w) ∷ m) = ground (arith, length-insert k v m)

  pub length-erase : (k : Bytes) (m : Map V) → length (erase k m) ≤ length m
  unfolding erase
  length-erase k [] = omega arith
  length-erase k ((j, v) ∷ m) = ground (arith, length-erase k m)
