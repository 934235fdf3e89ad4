-- ===== src/Net/Replay/Manager.antt =====
-- Replay protection of zNet/key_rotation.go over whole histories of packets, of any sessions.
use z_engine.Common.{
  ◌==◌, ==_iff, Bool-cases, All, ℤ, ℕ, zero, suc, ◌-◌, ◌^◌, ◌<◌, ◌≡◌, refl, sym, ap, ◌∙◌, subst,
  ◌⊎◌, inl, inr, Bool, true, false, Option, none, some, List, [], ◌∷◌, arith,
}
use z_engine.Common.TypedMap.{TypedMap}
use z_engine.Net.Replay.{
  SequenceInfo, SequenceManager, is_fresh, first_info, validate_known, validate_sequence,
  validate_session,
}
use z_engine.Net.Replay.Window.{
  Seen, first_info-Seen, validate_known-Seen, Seen-validate_known, validate_known-refuses,
}

-- A packet as the session layer presents it, with the second at which it came.
pub record Arrival : Type 0 where
  pub now : ℤ
  pub sid : ℕ
  pub seq : ℕ
  pub timestamp : ℤ

none≢some : {A : Type 0} {a : A} → ¬ (none ≡ some a)
none≢some h = cc

some_eq : {A : Type 0} {a b : A} → some a ≡ some b → a ≡ b
some_eq h = cc

module _ (windows : TypedMap Bool) (infos : TypedMap (SequenceInfo windows.Map)) where
  unfoldable pub deliver : SequenceManager infos.Map → Arrival → SequenceManager infos.Map × Bool
  deliver m a = validate_sequence windows infos m a.now a.sid a.seq a.timestamp

  pub deliver_all : SequenceManager infos.Map → List Arrival → SequenceManager infos.Map
  unfolding deliver
  deliver_all m [] = m
  deliver_all m (a ∷ as') = deliver_all (deliver m a).0 as'

  -- A packet that opens its session or is above all numbers of it.
  abbrev pub IsNewest : SequenceManager infos.Map → Arrival → Type 0
  IsNewest m a =
      (infos.load m.sessions a.sid ≡ none)
      ⊎ ((info : SequenceInfo windows.Map) × (infos.load m.sessions a.sid ≡ some info)
          × (info.last_seq < a.seq))

  record Remembers (m : SequenceManager infos.Map) (sid seq : ℕ) : Type 0 where
    info : SequenceInfo windows.Map
    known : infos.load m.sessions sid ≡ some info
    seen : Seen windows m.window_size info seq

  -- A store under any key keeps what is remembered of a session, if the new info does.
  store-Remembers :
      (m : SequenceManager infos.Map) (k : ℕ) (info : SequenceInfo windows.Map) (sid seq : ℕ)
      → (k ≡ sid → Seen windows m.window_size info seq)
      → Remembers m sid seq
      → Remembers (record m { sessions = infos.store m.sessions k info }) sid seq
  store-Remembers m k info sid seq h r = elim (Bool-cases (k == sid)) [
    | inl same ↦ record {
      info = info;
      known = ground (arith, infos.load-store m.sessions k info sid);
      seen = h ((==_iff k sid).0 same);
    }
    | inr other ↦ record {
      info = r.info;
      known = ground (arith, infos.load-store m.sessions k info sid, r.known);
      seen = r.seen;
    }
  ]

  validate_session-Remembers :
      (m : SequenceManager infos.Map) (k : ℕ) (o : Option (SequenceInfo windows.Map)) (new : ℕ)
      (sid seq : ℕ)
      → new < 2 ^ 64
      → infos.load m.sessions k ≡ o
      → Remembers m sid seq
      → Remembers (validate_session windows infos m k o new).0 sid seq
  unfolding validate_session
  validate_session-Remembers m k none new sid seq small e r =
      store-Remembers m k (first_info windows new) sid seq
        (λ same. absurd (none≢some (sym e ∙ ap (infos.load m.sessions) same ∙ r.known))) r
  validate_session-Remembers m k (some info) new sid seq small e r =
      store-Remembers m k (validate_known windows m.window_size info new).0 sid seq
        (λ same.
          let e' : info ≡ r.info = some_eq (sym e ∙ ap (infos.load m.sessions) same ∙ r.known) in
          Seen-validate_known windows m.window_size info new seq small
            (subst (λ i. Seen windows m.window_size i seq) (sym e') r.seen))
        r

  deliver-Remembers :
      (m : SequenceManager infos.Map) (a : Arrival) (sid seq : ℕ)
      → a.seq < 2 ^ 64
      → Remembers m sid seq
      → Remembers (deliver m a).0 sid seq
  unfolding deliver validate_sequence
  deliver-Remembers m a sid seq small r =
      elim (Bool-cases (is_fresh m.timestamp_tolerance a.now a.timestamp)) [
        | inl e ↦ rw e (
            validate_session-Remembers m a.sid (infos.load m.sessions a.sid) a.seq sid seq small
              refl r)
        | inr e ↦ rw e r
      ]

  deliver_all-Remembers :
      (m : SequenceManager infos.Map) (as' : List Arrival) (sid seq : ℕ)
      → All (λ (a : Arrival). a.seq < 2 ^ 64) as'
      → Remembers m sid seq
      → Remembers (deliver_all m as') sid seq
  unfolding deliver_all
  deliver_all-Remembers m [] sid seq h r = r
  deliver_all-Remembers m (a ∷ as') sid seq h r =
      deliver_all-Remembers (deliver m a).0 as' sid seq h.1 (deliver-Remembers m a sid seq h.0 r)

  -- A number that is remembered is refused.
  Remembers-refused :
      (m : SequenceManager infos.Map) (a : Arrival)
      → Remembers m a.sid a.seq
      → (deliver m a).1 ≡ false
  unfolding deliver validate_sequence
  Remembers-refused m a r =
      let refuses = validate_known-refuses windows m.window_size r.info a.seq r.seen in
      ground (arith, r.known, refuses)

  -- A packet that is accepted as the newest of its session is remembered.
  accepted-Remembers :
      (m : SequenceManager infos.Map) (a : Arrival)
      → a.seq < 2 ^ 64
      → IsNewest m a
      → (deliver m a).1 ≡ true
      → Remembers (deliver m a).0 a.sid a.seq
  unfolding deliver validate_sequence
  accepted-Remembers m a small (inl e) h =
      let info = first_info windows a.seq in
      elim (Bool-cases (is_fresh m.timestamp_tolerance a.now a.timestamp)) [
        | inl f ↦
            rw (f, e, validate_session)
              (record {
                info = info;
                known = ground (arith, infos.load-store m.sessions a.sid info a.sid);
                seen = first_info-Seen windows m.window_size a.seq;
              })
        | inr f ↦ absurd (ground arith)
      ]
  accepted-Remembers m a small (inr (info, e, above)) h =
      let next = validate_known windows m.window_size info a.seq in
      elim (Bool-cases (is_fresh m.timestamp_tolerance a.now a.timestamp)) [
        | inl f ↦
            rw (f, e, validate_session)
              (record {
                info = next.0;
                known = ground (arith, infos.load-store m.sessions a.sid next.0 a.sid);
                seen =
                    validate_known-Seen windows m.window_size info a.seq small above (ground arith);
              })
        | inr f ↦ absurd (ground arith)
      ]

  -- A packet that was accepted as the newest of its session is never accepted again, by whatever
  -- clock and timestamp, after any packets of any sessions; sequence numbers are `uint64`s, and no
  -- session is removed in between.
  pub newest_accepted_once :
      (m : SequenceManager infos.Map) (a b : Arrival) (between : List Arrival)
      → a.seq < 2 ^ 64
      → All (λ (c : Arrival). c.seq < 2 ^ 64) between
      → IsNewest m a
      → (deliver m a).1 ≡ true
      → b.sid ≡ a.sid
      → b.seq ≡ a.seq
      → (deliver (deliver_all (deliver m a).0 between) b).1 ≡ false
  newest_accepted_once m a b between small all_small newest h same_sid same_seq =
      let r =
        deliver_all-Remembers (deliver m a).0 between a.sid a.seq all_small
          (accepted-Remembers m a small newest h) in
      Remembers-refused (deliver_all (deliver m a).0 between) b (rw (same_sid, same_seq) r)

  -- The same packet, n times in a row.
  pub deliver_again : ℕ → SequenceManager infos.Map → Arrival → SequenceManager infos.Map
  unfolding deliver
  deliver_again zero m a = m
  deliver_again (suc n) m a = deliver_again n (deliver m a).0 a

  -- A number below the last one, inside the window, of which no packet has come.
  pub record IsLate (m : SequenceManager infos.Map) (a : Arrival) : Type 0 where
    pub info : SequenceInfo windows.Map
    pub known : infos.load m.sessions a.sid ≡ some info
    pub below : a.seq < info.last_seq
    pub inside : info.last_seq - a.seq < m.window_size
    pub missing : windows.load info.window a.seq ≡ none
    pub fresh : is_fresh m.timestamp_tolerance a.now a.timestamp ≡ true

  late_accepted :
      (m : SequenceManager infos.Map) (a : Arrival) → IsLate m a → (deliver m a).1 ≡ true
  unfolding deliver validate_sequence validate_known
  late_accepted m a l = ground (arith, l.known, l.fresh, l.missing)

  deliver-IsLate :
      (m : SequenceManager infos.Map) (a : Arrival) → IsLate m a → IsLate (deliver m a).0 a
  unfolding deliver validate_sequence validate_known
  deliver-IsLate m a l =
      let same : validate_known windows m.window_size l.info a.seq ≡ (l.info, true) =
        ground (arith, l.missing) in
      rw (l.fresh, l.known, validate_session)
        (rw same (record {
          info = l.info;
          known = ground (arith, infos.load-store m.sessions a.sid l.info a.sid);
          below = l.below;
          inside = l.inside;
          missing = l.missing;
          fresh = l.fresh;
        }))

  -- A fresh packet below the highest number of its session, inside the window and not recorded in
  -- it, is not recorded when it is accepted: however often it came before, it is accepted again.
  pub late_accepted_again :
      (n : ℕ) (m : SequenceManager infos.Map) (a : Arrival)
      → IsLate m a
      → (deliver (deliver_again n m a) a).1 ≡ true
  unfolding deliver_again
  late_accepted_again zero m a l = late_accepted m a l
  late_accepted_again (suc n) m a l = late_accepted_again n (deliver m a).0 a (deliver-IsLate m a l)
