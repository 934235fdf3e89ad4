-- ===== src/Net/Replay/Window.antt =====
-- What the replay window of zNet/key_rotation.go remembers of one session.
use z_engine.Common.{
  ltb, leb, if◌then◌else◌, is_some, ℕ, zero, suc, ◌+◌, ◌-◌, ◌^◌, ◌≤◌, ◌<◌, ◌≡◌, refl, ◌⊎◌, inl, inr,
  Bool, true, false, ◌&&◌, none, arith,
}
use z_engine.Common.TypedMap.{TypedMap}
use z_engine.Net.Replay.{SequenceInfo, delete_range, first_info, next_start, slide, validate_known}

module _ (windows : TypedMap Bool) where
  open windows use {Map, load, store, delete, load-store, load-delete, load-empty}

  load-delete_range :
      (m : Map) (start count j : ℕ)
      → load (delete_range windows m start count) j
        ≡ (if leb start j && ltb j (start + count) then none else load m j)
  unfolding delete_range
  load-delete_range m start zero j = ground arith
  load-delete_range m start (suc count) j =
      ground (arith, load-delete_range (delete m start) (suc start) count j, load-delete m start j)

  -- A number that is not to be accepted again: it is not above the last one, and it is below the
  -- window or recorded in it.
  pub record Seen (window_size : ℕ) (info : SequenceInfo Map) (seq : ℕ) : Type 0 where
    pub passed : seq ≤ info.last_seq
    pub recorded : (window_size ≤ info.last_seq - seq) ⊎ (is_some (load info.window seq) ≡ true)

  pub first_info-Seen : (window_size seq : ℕ) → Seen window_size (first_info windows seq) seq
  unfolding first_info
  first_info-Seen window_size seq = ground (arith, load-store windows.empty seq true seq)

  slide-Seen :
      (window_size : ℕ) (info : SequenceInfo Map) (seq old : ℕ)
      → seq < 2 ^ 64
      → info.last_seq < seq
      → (old ≡ seq) ⊎ Seen window_size info old
      → Seen window_size (slide windows window_size info seq) old
  unfolding slide
  slide-Seen window_size info seq old small above h =
      let start' : ℕ = next_start windows window_size seq in
      let kept =
        load-delete_range (store info.window seq true) info.window_start
          (start' - info.window_start) old in
      let stored = load-store info.window seq true old in
      record { passed = ground arith; recorded = ground (arith, kept, stored) }

  -- A number that was accepted as the highest so far is remembered.
  pub validate_known-Seen :
      (window_size : ℕ) (info : SequenceInfo Map) (seq : ℕ)
      → seq < 2 ^ 64
      → info.last_seq < seq
      → (validate_known windows window_size info seq).1 ≡ true
      → Seen window_size (validate_known windows window_size info seq).0 seq
  unfolding validate_known
  validate_known-Seen window_size info seq small above h =
      ground (arith, slide-Seen window_size info seq seq small above (inl refl))

  -- Whatever numbers come in, a number that is remembered stays so.
  pub Seen-validate_known :
      (window_size : ℕ) (info : SequenceInfo Map) (seq old : ℕ)
      → seq < 2 ^ 64
      → Seen window_size info old
      → Seen window_size (validate_known windows window_size info seq).0 old
  unfolding validate_known
  Seen-validate_known window_size info seq old small h =
      ground
        (arith, λ (p : info.last_seq < seq). slide-Seen window_size info seq old small p (inr h))

  -- And is refused.
  pub validate_known-refuses :
      (window_size : ℕ) (info : SequenceInfo Map) (old : ℕ)
      → Seen window_size info old
      → validate_known windows window_size info old ≡ (info, false)
  unfolding validate_known
  validate_known-refuses window_size info old h = ground arith

  -- Every recorded number lies between the start of the window and the last number.
  pub record Bounded (window_size : ℕ) (info : SequenceInfo Map) : Type 0 where
    pub inside :
        (j : ℕ)
        → is_some (load info.window j) ≡ true
        → (info.window_start ≤ j) × (j ≤ info.last_seq)
    pub ordered : info.window_start ≤ info.last_seq
    pub width : info.last_seq < info.window_start + window_size

  pub first_info-Bounded :
      (window_size seq : ℕ) → 0 < window_size → Bounded window_size (first_info windows seq)
  unfolding first_info
  first_info-Bounded window_size seq h = record {
    inside = λ j s. ground (arith, load-store windows.empty seq true j, load-empty j);
    ordered = omega arith;
    width = omega arith;
  }

  -- The recorded numbers of a session stay within one window's width of each other, as long as the
  -- numbers stay below the last `uint64`.
  pub validate_known-Bounded :
      (window_size : ℕ) (info : SequenceInfo Map) (seq : ℕ)
      → 0 < window_size
      → seq + 1 < 2 ^ 64
      → Bounded window_size info
      → Bounded window_size (validate_known windows window_size info seq).0
  unfolding validate_known slide
  validate_known-Bounded window_size info seq pos_size small b =
      let start' : ℕ = next_start windows window_size seq in
      let kept =
        load-delete_range (store info.window seq true) info.window_start
          (start' - info.window_start) in
      record {
        inside =
            λ j s. ground (arith, kept j, load-store info.window seq true j, b.inside j, b.ordered);
        ordered = ground (arith, b.ordered);
        width = ground (arith, b.width);
      }
