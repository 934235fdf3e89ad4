-- ===== src/Net/KeyRotation/History.antt =====
-- Which keys `GetKeyByID` of zNet/key_rotation.go still finds after any number of rotations.
use z_engine.Common.{
  ltb, leb, if◌then◌else◌, length, get_elem?, ℤ, pos, ℕ, zero, suc, ◌+◌, ◌-◌, ◌^◌, ◌≤◌, ◌<◌, min,
  ◌≡◌, refl, sym, ap, subst, ◌&&◌, none, some, List, [], ◌∷◌, arith,
}
use z_engine.Common.TypedMap.{lookup, erase}
use z_engine.Net.Wire.{Bytes}
use z_engine.Net.KeyRotation.{
  KeyRotationData, KeyRotationManager, new_key_rotation_manager, min_key_id, trim, rotate_keys,
  rotate, find_key, get_key_by_id,
}

-- The keys, newest first, after some rotations.
abbrev pub issued : List Bytes → List (Bytes × ℕ) → List Bytes
issued ks [] = ks
issued ks ((k, now) ∷ rs) = issued (k ∷ ks) rs

-- Rotations with the keys and at the times of a list.
pub rotate_all : KeyRotationManager → List (Bytes × ℕ) → KeyRotationManager
rotate_all m [] = m
rotate_all m ((k, now) ∷ rs) = rotate_all (rotate m k now).0 rs

-- Entries that are the newest of a list of keys, each under its place from the end.
abbrev Chain : List (ℕ × Bytes) → List Bytes → Type 0
Chain [] ks = Unit
Chain ((j, v) ∷ es) [] = ⊥
Chain ((j, v) ∷ es) (k ∷ ks) = (j ≡ suc (length ks)) × (v ≡ k) × Chain es ks

Chain-le : (es : List (ℕ × Bytes)) (ks : List Bytes) → Chain es ks → length es ≤ length ks
Chain-le [] ks c = omega arith
Chain-le ((j, v) ∷ es) [] c = absurd c
Chain-le ((j, v) ∷ es) (k ∷ ks) c = omega (arith, Chain-le es ks c.2)

erase_above :
    (es : List (ℕ × Bytes)) (ks : List Bytes) (j : ℕ)
    → Chain es ks
    → length ks < j
    → erase j es ≡ es
erase_above [] ks j c h = refl
erase_above ((i, v) ∷ es) [] j c h = absurd c
erase_above ((i, v) ∷ es) (k ∷ ks) j c h = ground (arith, erase_above es ks j c.2)

min_key_id-Chain :
    (es : List (ℕ × Bytes)) (ks : List Bytes)
    → Chain es ks
    → min_key_id (suc (length ks)) es ≡ suc (length ks) - length es
unfolding min_key_id
min_key_id-Chain [] ks c = omega arith
min_key_id-Chain ((j, v) ∷ es) [] c = absurd c
min_key_id-Chain ((j, v) ∷ es) (k ∷ ks) c = ground (arith, min_key_id-Chain es ks c.2)

min_key_id_all :
    (es : List (ℕ × Bytes)) (ks : List Bytes)
    → Chain es ks
    → 0 < length es
    → min_key_id 0 es ≡ suc (length ks) - length es
unfolding min_key_id
min_key_id_all [] ks c h = absurd (omega arith)
min_key_id_all ((j, v) ∷ es) [] c h = absurd c
min_key_id_all ((j, v) ∷ es) (k ∷ ks) c h = ground (arith, min_key_id-Chain es ks c.2)

erase_oldest :
    (es : List (ℕ × Bytes)) (ks : List Bytes)
    → Chain es ks
    → 0 < length es
    → let rest = erase (suc (length ks) - length es) es in
      Chain rest ks × (suc (length rest) ≡ length es)
erase_oldest [] ks c h = absurd (omega arith)
erase_oldest ((j, v) ∷ es) [] c h = absurd c
erase_oldest ((j, v) ∷ []) (k ∷ ks) c h = ground arith
erase_oldest ((j, v) ∷ e ∷ es) (k ∷ ks) c h =
    ground (arith, erase_oldest (e ∷ es) ks c.2 (omega arith))

get_elem?-zero : (k : Bytes) (ks : List Bytes) (n : ℕ) → n ≡ 0 → get_elem? (k ∷ ks) n ≡ some k
get_elem?-zero k ks zero h = refl
get_elem?-zero k ks (suc n) h = absurd (omega arith)

get_elem?-suc :
    (k : Bytes) (ks : List Bytes) (n m : ℕ) → n ≡ suc m → get_elem? (k ∷ ks) n ≡ get_elem? ks m
get_elem?-suc k ks zero m h = absurd (omega arith)
get_elem?-suc k ks (suc n) m h = ap (get_elem? ks) (omega arith)

-- What a key id finds among the entries.
lookup-Chain :
    (es : List (ℕ × Bytes)) (ks : List Bytes) (j : ℕ)
    → Chain es ks
    → lookup j es ≡ (
        if leb j (length ks) && ltb (length ks) (j + length es)
        then get_elem? ks (length ks - j)
        else none)
lookup-Chain [] ks j c = ground arith
lookup-Chain ((i, v) ∷ es) [] j c = absurd c
lookup-Chain ((i, v) ∷ es) (k ∷ ks) j c = ground (
  arith,
  lookup-Chain es ks j c.2,
  get_elem?-zero k ks (suc (length ks) - j),
  get_elem?-suc k ks (suc (length ks) - j) (length ks - j),
)

-- After some rotations with a history of h keys: the current key is the newest, its id counts the
-- keys, and the entries are the newest min(h, …) of the others.
record Holds (h : ℕ) (d : KeyRotationData) (older : List Bytes) : Type 0 where
  id : d.current_key_id ≡ suc (length older)
  chain : Chain d.previous_keys older
  size : length d.previous_keys ≡ min h (length older)

trim-Holds :
    (h : ℕ) (d : KeyRotationData) (older : List Bytes)
    → Holds h d older
    → let es = (d.current_key_id, d.current_key) ∷ d.previous_keys in
      let ks = d.current_key ∷ older in
      Chain (trim (pos h) es) ks × (length (trim (pos h) es) ≡ min h (length ks))
unfolding trim
trim-Holds h d older v =
    let es : List (ℕ × Bytes) = (d.current_key_id, d.current_key) ∷ d.previous_keys in
    let ks : List Bytes = d.current_key ∷ older in
    let c : Chain es ks = (v.id, refl, v.chain) in
    ground (
      arith,
      Chain-le es ks c,
      min_key_id_all es ks c (omega arith),
      erase_oldest es ks c (omega arith),
      v.size,
    )

rotate_keys-Holds :
    (h : ℕ) (d : KeyRotationData) (older : List Bytes) (k : Bytes)
    → length older + 2 < 2 ^ 32
    → Holds h d older
    → Holds h (rotate_keys (pos h) d k) (d.current_key ∷ older)
unfolding rotate_keys
rotate_keys-Holds h d older k small v =
    let same : erase d.current_key_id d.previous_keys ≡ d.previous_keys =
      erase_above d.previous_keys older d.current_key_id v.chain (omega (arith, v.id)) in
    let (chain, size) = trim-Holds h d older v in
    record {
      id = omega (arith, v.id);
      chain =
          subst
            (λ es.
              Chain (trim (pos h) ((d.current_key_id, d.current_key) ∷ es)) (d.current_key ∷ older))
            (sym same) chain;
      size =
          subst
            (λ es.
              length (trim (pos h) ((d.current_key_id, d.current_key) ∷ es))
              ≡ min h (length (d.current_key ∷ older)))
            (sym same) size;
    }

-- What a key id finds, by its distance from the newest.
find_key-Holds :
    (h : ℕ) (d : KeyRotationData) (older : List Bytes) (j : ℕ)
    → Holds h d older
    → let ks = d.current_key ∷ older in
      find_key d j ≡ (
        if ltb 0 j && leb j (length ks) && leb (length ks) (j + h)
        then get_elem? ks (length ks - j)
        else none)
unfolding find_key
find_key-Holds h d older j v =
    let ks : List Bytes = d.current_key ∷ older in
    ground (
      arith,
      v.id,
      v.size,
      lookup-Chain d.previous_keys older j v.chain,
      get_elem?-zero d.current_key older (suc (length older) - j),
      get_elem?-suc d.current_key older (suc (length older) - j) (length older - j),
    )

rotate_all-keys :
    (h : ℕ) (m : KeyRotationManager) (older : List Bytes) (rs : List (Bytes × ℕ)) (j : ℕ)
    → m.max_history_keys ≡ pos h
    → length older + length rs + 1 < 2 ^ 32
    → Holds h m.keys older
    → let ks = issued (m.keys.current_key ∷ older) rs in
      get_key_by_id (rotate_all m rs) j ≡ (
        if ltb 0 j && leb j (length ks) && leb (length ks) (j + h)
        then get_elem? ks (length ks - j)
        else none)
unfolding rotate_all rotate get_key_by_id
rotate_all-keys h m older [] j e small v = find_key-Holds h m.keys older j v
rotate_all-keys h m older ((k, now) ∷ rs) j e small v =
    let next : Holds h (rotate_keys m.max_history_keys m.keys k) (m.keys.current_key ∷ older) =
      subst (λ z. Holds h (rotate_keys z m.keys k) (m.keys.current_key ∷ older)) (sym e)
        (rotate_keys-Holds h m.keys older k (omega arith) v) in
    rotate_all-keys h (rotate m k now).0 (m.keys.current_key ∷ older) rs j e (omega arith) next

-- A manager with room for h old keys finds, after any rotations whose ids do not wrap around, the
-- key that was issued under each id, as long as at most h newer ones were issued since; it finds
-- nothing under any other id.
pub get_key_by_id-rotate_all :
    (h : ℕ) (interval : ℤ) (initial : Bytes) (start : ℕ) (rs : List (Bytes × ℕ)) (key_id : ℕ)
    → length rs + 1 < 2 ^ 32
    → let ks = issued (initial ∷ []) rs in
      get_key_by_id (rotate_all (new_key_rotation_manager interval (pos h) initial start) rs) key_id
      ≡ (if ltb 0 key_id && leb key_id (length ks) && leb (length ks) (key_id + h)
          then get_elem? ks (length ks - key_id)
          else none)
unfolding new_key_rotation_manager
get_key_by_id-rotate_all h interval initial start rs key_id small =
    rotate_all-keys h (new_key_rotation_manager interval (pos h) initial start) [] rs key_id refl
      (omega arith) (record { id = refl; chain = tt; size = omega arith })
