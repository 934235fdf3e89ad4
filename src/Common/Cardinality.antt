-- ===== src/Common/Cardinality.antt =====
-- The number of entries of a map, whatever order `Range` meets them in.
use Prim.Native.Nat.{ℕ, suc}
use mathlib.Core.Path.{◌≡◌, refl}
use mathlib.Core.Bool.{true}
use mathlib.Core.List.{List, [], ◌∷◌}
use mathlib.Core.Option.{none}
use native.Mathlib.Omega.{arith}
use z_engine.Common.Tests.{==-refl, is_some}
use z_engine.Common.Lists.{length}
use z_engine.Common.TypedMap.{TypedMap, lookup, erase, Distinct, lookup-erase, erase-Distinct}

module _ {V : Type 0} where
  erase-absent : (es : List (ℕ × V)) (k : ℕ) → lookup k es ≡ none → length (erase k es) ≡ length es
  erase-absent [] k h = refl
  erase-absent ((j, v) ∷ es) k h = ground (arith, erase-absent es k)

  length-erase :
      (es : List (ℕ × V)) (k : ℕ)
      → Distinct es
      → is_some (lookup k es) ≡ true
      → suc (length (erase k es)) ≡ length es
  length-erase [] k d h = ground arith
  length-erase ((j, v) ∷ es) k d h = ground (arith, length-erase es k d.1, erase-absent es k)

  -- Two lists with the same keys have the same length.
  same_length :
      (es fs : List (ℕ × V))
      → Distinct es
      → Distinct fs
      → ((j : ℕ) → is_some (lookup j es) ≡ is_some (lookup j fs))
      → length es ≡ length fs
  same_length [] [] d e h = refl
  same_length [] ((k, w) ∷ fs) d e h = ground (arith, h k, ==-refl k)
  same_length ((k, v) ∷ es) fs d e h =
      let here : is_some (lookup k fs) ≡ true = ground (arith, h k, ==-refl k) in
      let tail : length es ≡ length (erase k fs) =
        same_length es (erase k fs) d.1 (erase-Distinct fs k e)
          (λ j. ground (arith, h j, lookup-erase fs k j, d.0)) in
      omega (arith, tail, length-erase fs k e here)

module _ {V : Type 0} (map' : TypedMap V) where
  open map' use {
    Map, load, store, delete, range, load-empty, empty, load-store, load-delete, lookup-range,
    range-Distinct,
  }

  abbrev pub size : Map → ℕ
  size m = length (range m)

  size_same : (m n : Map) → ((j : ℕ) → is_some (load m j) ≡ is_some (load n j)) → size m ≡ size n
  size_same m n h =
      same_length (range m) (range n) (range-Distinct m) (range-Distinct n)
        (λ j. ground (arith, h j, lookup-range m j, lookup-range n j))

  pub size-empty : size empty ≡ 0
  size-empty =
      same_length (range empty) [] (range-Distinct empty) tt
        (λ j. ground (arith, lookup-range empty j, load-empty j))

  pub size-delete : (m : Map) (k : ℕ) → is_some (load m k) ≡ true → suc (size (delete m k)) ≡ size m
  size-delete m k h =
      let same : size (delete m k) ≡ length (erase k (range m)) =
        same_length (range (delete m k)) (erase k (range m)) (range-Distinct (delete m k))
          (erase-Distinct (range m) k (range-Distinct m))
          (λ j. ground (
            arith,
            lookup-range (delete m k) j,
            load-delete m k j,
            lookup-erase (range m) k j,
            lookup-range m j,
          )) in
      omega (
        arith,
        same,
        length-erase (range m) k (range-Distinct m) (ground (arith, lookup-range m k)),
      )

  pub size-store_known :
      (m : Map) (k : ℕ) (v : V) → is_some (load m k) ≡ true → size (store m k v) ≡ size m
  size-store_known m k v h = size_same (store m k v) m (λ j. ground (arith, load-store m k v j))

  pub size-store_new :
      (m : Map) (k : ℕ) (v : V) → load m k ≡ none → size (store m k v) ≡ suc (size m)
  size-store_new m k v h =
      let known : is_some (load (store m k v) k) ≡ true =
        ground (arith, load-store m k v k, ==-refl k) in
      let less : size (delete (store m k v) k) ≡ size m =
        size_same (delete (store m k v) k) m
          (λ j. ground (arith, load-delete (store m k v) k j, load-store m k v j)) in
      omega (arith, size-delete (store m k v) k known, less)
