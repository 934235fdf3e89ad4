-- ===== src/Common/TypedMap.antt =====
-- What the code relies on of `zMap.TypedMap[uint64, V]` (package zUtil, not part of the
-- repository): its operations, and the documented behaviour of a map.
use Prim.Native.Nat.{ℕ}
use mathlib.Core.Path.{◌≡◌, refl}
use mathlib.Core.List.{List, [], ◌∷◌}
use mathlib.Core.Option.{Option, none, some}
use native.Mathlib.Omega.{arith}
use z_engine.Common.Tests.{◌==◌, if◌then◌else◌}

module _ {V : Type 0} where
  -- The value under a key in a list of entries.
  abbrev pub lookup : ℕ → List (ℕ × V) → Option V
  lookup k [] = none
  lookup k ((j, v) ∷ es) = if j == k then some v else lookup k es

  abbrev pub erase : ℕ → List (ℕ × V) → List (ℕ × V)
  erase k [] = []
  erase k ((j, v) ∷ es) = if j == k then erase k es else (j, v) ∷ erase k es

  -- No key stands twice.
  abbrev pub Distinct : List (ℕ × V) → Type 0
  Distinct [] = Unit
  Distinct ((k, v) ∷ es) = (lookup k es ≡ none) × Distinct es

-- `Load`, `Store`, `Delete` and `Range`; `LoadOrStore` is a load and, where that finds nothing,
-- a store.
pub record TypedMap (V : Type 0) : Type 1 where
  pub Map : Type 0
  pub empty : Map
  pub load : Map → ℕ → Option V
  pub store : Map → ℕ → V → Map
  pub delete : Map → ℕ → Map
  pub range : Map → List (ℕ × V)
  pub load-empty : (k : ℕ) → load empty k ≡ none
  pub load-store :
      (m : Map) (k : ℕ) (v : V) (j : ℕ)
      → load (store m k v) j ≡ (if k == j then some v else load m j)
  pub load-delete : (m : Map) (k j : ℕ) → load (delete m k) j ≡ (if k == j then none else load m j)
  pub lookup-range : (m : Map) (k : ℕ) → lookup k (range m) ≡ load m k
  pub range-Distinct : (m : Map) → Distinct (range m)

module _ {V : Type 0} where
  pub lookup-erase :
      (m : List (ℕ × V)) (k j : ℕ) → lookup j (erase k m) ≡ (if k == j then none else lookup j m)
  lookup-erase [] k j = ground arith
  lookup-erase ((i, v) ∷ m) k j = ground (arith, lookup-erase m k j)

  pub erase-Distinct : (m : List (ℕ × V)) (k : ℕ) → Distinct m → Distinct (erase k m)
  erase-Distinct [] k d = tt
  erase-Distinct ((i, v) ∷ m) k d = ground (arith, lookup-erase m k i, erase-Distinct m k d.1)

  pub lookup-insert :
      (m : List (ℕ × V)) (k : ℕ) (v : V) (j : ℕ)
      → lookup j ((k, v) ∷ erase k m) ≡ (if k == j then some v else lookup j m)
  lookup-insert m k v j = ground (arith, lookup-erase m k j)

  pub insert-Distinct :
      (m : List (ℕ × V)) (k : ℕ) (v : V) → Distinct m → Distinct ((k, v) ∷ erase k m)
  insert-Distinct m k v d = ground (arith, lookup-erase m k k, erase-Distinct m k d)

-- An association list with one entry for each key, which the tests take for the map.
abbrev pub entries : (V : Type 0) → TypedMap V
entries V = record {
  Map = (m : List (ℕ × V)) × Distinct m;
  empty = ([], tt);
  load = λ m k. lookup k m.0;
  store = λ m k v. ((k, v) ∷ erase k m.0, insert-Distinct m.0 k v m.1);
  delete = λ m k. (erase k m.0, erase-Distinct m.0 k m.1);
  range = λ m. m.0;
  load-empty = λ k. refl;
  load-store = λ m k v j. lookup-insert m.0 k v j;
  load-delete = λ m k j. lookup-erase m.0 k j;
  lookup-range = λ m k. refl;
  range-Distinct = λ m. m.1;
}
