-- ===== src/Examples/Replays.antt =====
-- The theorems on replay protection and key rotation, with lists of entries as the maps.
use z_engine.Common.{
  ltb, leb, if◌then◌else◌, length, get_elem?, pos, ◌≤ℤ◌, ◌+ℤ◌, ℕ, ◌+◌, ◌-◌, ◌^◌, ◌≡◌, refl, ◌↔◌,
  ◌⊎◌, inl, Bool, true, false, ◌&&◌, none, List, [], ◌∷◌, arith,
}
use z_engine.Common.TypedMap.{TypedMap, entries}
use z_engine.Net.Wire.{to_int, to_uint, Bytes}
use z_engine.Net.Replay.{
  validate_sequence, SequenceInfo, SequenceManager, is_fresh, first_info, new_sequence_manager,
}
use z_engine.Net.Replay.Freshness.{is_fresh_iff}
use z_engine.Net.Replay.Manager.{
  Arrival, deliver, deliver_all, deliver_again, IsNewest, IsLate, newest_accepted_once,
  late_accepted_again,
}
use z_engine.Net.KeyRotation.{KeyRotationNotify, get_key_by_id, new_key_rotation_manager}
use z_engine.Net.KeyRotation.History.{issued, rotate_all, get_key_by_id-rotate_all}

abbrev windows : TypedMap Bool
windows = entries Bool

abbrev infos : TypedMap (SequenceInfo windows.Map)
infos = entries (SequenceInfo windows.Map)

abbrev manager : SequenceManager infos.Map
manager = new_sequence_manager windows infos 64 (pos 30)

abbrev arrival : ℕ → Arrival
arrival seq = record { now = pos 1000; sid = 5; seq = seq; timestamp = pos 990 }

accepted : (deliver windows infos manager (arrival 10)).1 ≡ true
unfolding new_sequence_manager deliver validate_sequence is_fresh to_int to_uint
accepted = refl

newest : IsNewest windows infos manager (arrival 10)
unfolding new_sequence_manager
newest = inl refl

newest_accepted_once_example :
    (deliver windows infos
      (deliver_all windows infos
        (deliver windows infos manager (arrival 10)).0
        (arrival 11 ∷ arrival 8 ∷ []))
      (arrival 10)).1
    ≡ false
newest_accepted_once_example =
    newest_accepted_once windows infos manager (arrival 10) (arrival 10)
      (arrival 11 ∷ arrival 8 ∷ []) (ground arith) (ground arith) newest accepted refl refl

abbrev opened : SequenceManager infos.Map
opened = (deliver windows infos manager (arrival 10)).0

late : IsLate windows infos opened (arrival 8)
unfolding new_sequence_manager deliver first_info is_fresh validate_sequence to_int to_uint
late = record {
  info = first_info windows 10;
  known = refl;
  below = ground arith;
  inside = ground arith;
  missing = refl;
  fresh = refl;
}

late_accepted_again_example :
    (deliver windows infos (deliver_again windows infos 2 opened (arrival 8)) (arrival 8)).1 ≡ true
late_accepted_again_example = late_accepted_again windows infos 2 opened (arrival 8) late

is_fresh_iff_example : (is_fresh (pos 30) (pos 1000) (pos 980) ≡ true) ↔ (
    (pos 980 ≡ pos 0)
    ⊎ (((pos 980 ≤ℤ (pos 1000 +ℤ pos 30)) × (pos 1000 ≤ℤ (pos 980 +ℤ pos 30)))
        ⊎ (pos 980 +ℤ pos (2 ^ 63) ≡ pos 1000)))
is_fresh_iff_example = is_fresh_iff 30 1000 (pos 980) (ground arith) (ground arith) (ground arith)

abbrev rotations : List (Bytes × ℕ)
rotations = (2 ∷ [], 10) ∷ (3 ∷ [], 20) ∷ []

get_key_by_id-rotate_all_example :
    let ks = issued ((1 ∷ []) ∷ []) rotations in
    get_key_by_id (rotate_all (new_key_rotation_manager (pos 5) (pos 1) (1 ∷ []) 0) rotations) 2 ≡ (
      if ltb 0 2 && leb 2 (length ks) && leb (length ks) (2 + 1)
      then get_elem? ks (length ks - 2)
      else none)
get_key_by_id-rotate_all_example =
    get_key_by_id-rotate_all 1 (pos 5) (1 ∷ []) 0 rotations 2 (ground arith)

abbrev notice : KeyRotationNotify
notice = record { key_id = 7; timestamp = pos 1000; nonce = 9 }
