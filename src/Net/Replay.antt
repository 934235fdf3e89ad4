-- ===== src/Net/Replay.antt =====
-- zNet/key_rotation.go, `SequenceManager`: the replay window of each session. Its two maps are
-- `zMap.TypedMap`s and enter as parameters; a session's info is a pointer in Go, so what a call
-- changes in it is stored back. Concurrent calls for one session are not modelled.
pub mod Window
pub mod Freshness
pub mod Manager
use z_engine.Common.{
  ltb, leb, ◌==◌, if◌then◌else◌, is_some, ℤ, pos, ltb_ℤ, eqb_ℤ, ℕ, zero, suc, ◌+◌, ◌-◌, ◌%◌, ◌^◌,
  Bool, true, false, not, Option, none, some,
}
use z_engine.Common.TypedMap.{TypedMap}
use z_engine.Net.Wire.{to_uint, to_int}

-- `SessionSequenceInfo` over the type of its window map.
pub record SequenceInfo (M : Type 0) : Type 0 where
  pub last_seq : ℕ
  pub window_start : ℕ
  pub window : M

-- `a - b` and `-a` on `int64`.
abbrev pub sub64 : ℤ → ℤ → ℤ
sub64 a b = to_int 64 (to_uint 64 a + 2 ^ 64 - to_uint 64 b)

abbrev pub neg64 : ℤ → ℤ
neg64 a = sub64 (pos 0) a

-- The test of a packet's timestamp against the clock, both in seconds; 0 skips it.
unfoldable pub is_fresh : ℤ → ℤ → ℤ → Bool
is_fresh tolerance now timestamp =
    if eqb_ℤ timestamp (pos 0)
    then true
    else (let diff = sub64 now timestamp in
        not (ltb_ℤ tolerance (if ltb_ℤ diff (pos 0) then neg64 diff else diff)))

module _ (windows : TypedMap Bool) where
  open windows use {Map, empty, load, store, delete}

  -- `for i := start; i < start + count; i++ { window.Delete(i) }`.
  pub delete_range : Map → ℕ → ℕ → Map
  delete_range m start zero = m
  delete_range m start (suc count) = delete_range (delete m start) (suc start) count

  -- The first packet of a session.
  unfoldable pub first_info : ℕ → SequenceInfo Map
  first_info seq = record { last_seq = seq; window_start = seq; window = store empty seq true }

  -- The lower end of the window after a new highest number; `seq + 1` is a `uint64`.
  pub next_start : ℕ → ℕ → ℕ
  next_start window_size seq =
      let next = (seq + 1) % 2 ^ 64 in if ltb window_size next then next - window_size else 0

  -- A number above the last one: it is recorded, and the window slides.
  unfoldable pub slide : ℕ → SequenceInfo Map → ℕ → SequenceInfo Map
  unfolding delete_range next_start
  slide window_size info seq =
      let window = store info.window seq true in
      let start = info.window_start in
      let start' = next_start window_size seq in
      if ltb start start'
      then record {
        last_seq = seq;
        window_start = start';
        window = delete_range window start (start' - start);
      }
      else record { last_seq = seq; window_start = start; window = window }

  -- The part of `ValidateSequence` behind the load of a known session.
  unfoldable pub validate_known : ℕ → SequenceInfo Map → ℕ → SequenceInfo Map × Bool
  validate_known window_size info seq =
      if leb seq info.last_seq
      then (if seq == info.last_seq
          then (info, false)
          else if ltb (info.last_seq - seq) window_size
          then (info, not (is_some (load info.window seq)))
          else (info, false))
      else if is_some (load info.window seq)
      then (info, false)
      else (slide window_size info seq, true)

-- `SequenceManager` over the type of its map of sessions.
pub record SequenceManager (S : Type 0) : Type 0 where
  pub sessions : S
  pub window_size : ℕ
  pub timestamp_tolerance : ℤ

module _ (windows : TypedMap Bool) (infos : TypedMap (SequenceInfo windows.Map)) where
  -- `NewSequenceManager`.
  unfoldable pub new_sequence_manager : ℕ → ℤ → SequenceManager infos.Map
  new_sequence_manager window_size tolerance = record {
    sessions = infos.empty;
    window_size = window_size;
    timestamp_tolerance = tolerance;
  }

  store_back :
      SequenceManager infos.Map
      → ℕ
      → SequenceInfo windows.Map × Bool
      → SequenceManager infos.Map × Bool
  store_back m sid (info, accepted) =
      (record m { sessions = infos.store m.sessions sid info }, accepted)

  validate_session :
      SequenceManager infos.Map
      → ℕ
      → Option (SequenceInfo windows.Map)
      → ℕ
      → SequenceManager infos.Map × Bool
  unfolding store_back
  validate_session m sid none seq = store_back m sid (first_info windows seq, true)
  validate_session m sid (some info) seq =
      store_back m sid (validate_known windows m.window_size info seq)

  -- `ValidateSequence`, with the time of the clock as an argument.
  unfoldable pub validate_sequence :
      SequenceManager infos.Map → ℤ → ℕ → ℕ → ℤ → SequenceManager infos.Map × Bool
  unfolding validate_session
  validate_sequence m now sid seq timestamp =
      if is_fresh m.timestamp_tolerance now timestamp
      then validate_session m sid (infos.load m.sessions sid) seq
      else (m, false)

  -- `RemoveSession`.
  unfoldable pub remove_session : SequenceManager infos.Map → ℕ → SequenceManager infos.Map
  remove_session m sid = record m { sessions = infos.delete m.sessions sid }
