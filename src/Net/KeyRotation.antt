-- ===== src/Net/KeyRotation.antt =====
-- zNet/key_rotation.go, `KeyRotationManager` and `KeyRotationNotify`. A Go map is a list of entries
-- with one for each key, newest first; its iteration order is not relied on. `generateAESKey`
-- reads `crypto/rand`: the new key is an argument. Times are nanoseconds, `lastRotation` seconds.
pub mod History
pub mod Notify
use z_engine.Common.{
  ltb, ◌==◌, if◌then◌else◌, length, ℤ, pos, negsuc, ltb_ℤ, leb_ℤ, ◌-ℤ◌, ℕ, ◌+◌, ◌-◌, ◌*◌, ◌/◌, ◌%◌,
  ◌^◌, Bool, ◌||◌, Option, none, some, List, [], ◌∷◌, ◌++◌,
}
use z_engine.Common.TypedMap.{lookup, erase}
use z_engine.Net.Wire.{ByteOrder, little_endian, Bytes, put, get, to_uint, to_int}
use z_engine.Net.Packet.{slice}

-- `keyRotationData`.
pub record KeyRotationData : Type 0 where
  pub current_key : Bytes
  pub current_key_id : ℕ
  pub previous_keys : List (ℕ × Bytes)

-- `KeyRotationManager`; `data` is the atomic value.
pub record KeyRotationManager : Type 0 where
  pub keys : KeyRotationData
  pub interval : ℤ
  pub max_history_keys : ℤ
  pub last_rotation : ℤ

abbrev nanoseconds : ℕ
nanoseconds = 1000000000

-- `time.Now().Unix()`.
unix : ℕ → ℤ
unix now = pos (now / nanoseconds)

-- `time.Unix(s, 0)`.
seconds : ℤ → ℤ
seconds (pos s) = pos (s * nanoseconds)
seconds (negsuc s) = negsuc (s * nanoseconds + (nanoseconds - 1))

-- `NewKeyRotationManager`.
unfoldable pub new_key_rotation_manager : ℤ → ℤ → Bytes → ℕ → KeyRotationManager
unfolding unix
new_key_rotation_manager interval max_history_keys initial_key now = record {
  keys = record { current_key = initial_key; current_key_id = 1; previous_keys = [] };
  interval = interval;
  max_history_keys = max_history_keys;
  last_rotation = unix now;
}

-- The loop that looks for the least key id, 0 for none.
pub min_key_id : ℕ → List (ℕ × Bytes) → ℕ
min_key_id least [] = least
min_key_id least ((k, v) ∷ es) = min_key_id (if least == 0 || ltb k least then k else least) es

-- `if len(previousKeys) > maxHistoryKeys`: one entry, the oldest, goes.
pub trim : ℤ → List (ℕ × Bytes) → List (ℕ × Bytes)
unfolding min_key_id
trim max_history_keys es =
    let least = min_key_id 0 es in
    if ltb_ℤ max_history_keys (pos (length es))
    then (if ltb 0 least then erase least es else es)
    else es

pub rotate_keys : ℤ → KeyRotationData → Bytes → KeyRotationData
unfolding trim
rotate_keys max_history_keys d new_key = record {
  current_key = new_key;
  current_key_id = (d.current_key_id + 1) % 2 ^ 32;
  previous_keys =
      trim max_history_keys
        ((d.current_key_id, d.current_key) ∷ erase d.current_key_id d.previous_keys);
}

-- `Rotate`.
unfoldable pub rotate : KeyRotationManager → Bytes → ℕ → KeyRotationManager × (Bytes × ℕ)
unfolding rotate_keys unix
rotate m new_key now =
    let keys = rotate_keys m.max_history_keys m.keys new_key in
    (record m { keys = keys; last_rotation = unix now }, (keys.current_key, keys.current_key_id))

-- `GetCurrentKey` and `GetKeyByID`.
unfoldable pub get_current_key : KeyRotationManager → Bytes × ℕ
get_current_key m = (m.keys.current_key, m.keys.current_key_id)

pub find_key : KeyRotationData → ℕ → Option Bytes
find_key d key_id =
    if key_id == d.current_key_id then some d.current_key else lookup key_id d.previous_keys

unfoldable pub get_key_by_id : KeyRotationManager → ℕ → Option Bytes
unfolding find_key
get_key_by_id m key_id = find_key m.keys key_id

-- `ShouldRotate`: `time.Since(last) >= interval`.
unfoldable pub should_rotate : KeyRotationManager → ℕ → Bool
unfolding seconds
should_rotate m now = leb_ℤ m.interval (pos now -ℤ seconds m.last_rotation)

-- One tick of the goroutine that `StartAutoRotation` starts: the key and id that
-- `notifySessions` hands to `UpdateKey` of every session, if the key was rotated.
unfoldable pub on_tick : KeyRotationManager → Bytes → ℕ → KeyRotationManager × Option (Bytes × ℕ)
on_tick m new_key now =
    let (m', update) = rotate m new_key now in
    if should_rotate m now then (m', some update) else (m, none)

-- `KeyRotationNotify`.
pub record KeyRotationNotify : Type 0 where
  pub key_id : ℕ
  pub timestamp : ℤ
  pub nonce : ℕ

order_or_default : Option ByteOrder → ByteOrder
order_or_default none = little_endian
order_or_default (some o) = o

-- `MarshalWithByteOrder`; the three writes tile the 20 bytes.
unfoldable pub marshal_notify : Option ByteOrder → KeyRotationNotify → Bytes
unfolding order_or_default
marshal_notify order k =
    let o = order_or_default order in
    put o 4 k.key_id ++ (put o 8 (to_uint 64 k.timestamp) ++ put o 8 k.nonce)

-- `UnmarshalWithByteOrder`; `none` is the result false, with the receiver left alone.
unfoldable pub unmarshal_notify : Option ByteOrder → Bytes → Option KeyRotationNotify
unfolding order_or_default
unmarshal_notify order bytes =
    let o = order_or_default order in
    if ltb (length bytes) 20
    then none
    else some (record {
      key_id = get o (slice 0 4 bytes);
      timestamp = to_int 64 (get o (slice 4 12 bytes));
      nonce = get o (slice 12 20 bytes);
    })
