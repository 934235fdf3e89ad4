-- ===== src/Consistency/Outbox/Steps.antt =====
-- zConsistency/memory_store_v2.go: the calls that change a `MemoryOutbox`, against the state
-- diagram of a request id.
use z_engine.Common.{
  if◌then◌else◌, Result, ok, err, ℕ, ◌≡◌, refl, ◌⊎◌, inl, inr, Bool, true, false, not, ◌&&◌, Option,
  none, some, List, arith,
}
use z_engine.Common.TypedMap.{TypedMap}
use z_engine.Consistency.Contract.{
  Time, Duration, OutboxState, unknown, enqueued, transported, applied, dead_letter, is_state,
  OutboxMessage, Context, StoreError, check_context, validate_request, outbox_state,
  invalid_transition,
}
use z_engine.Consistency.Outbox.{
  Outbox, checked, insert_new, move, transition, attempt, record_attempt, bury, move_to_dead_letter,
  remove, complete, enqueue, purge_dead_letters,
}

-- The calls of `OutboxStoreV2` that change the store, with their arguments; a transition is
-- `MarkTransported` or `MarkApplied`, a purge is `PurgeDeadLettersContext`.
pub data Call : Type 0 where
  enqueue_call : OutboxMessage → Call
  transition_call : ℕ → OutboxState → Call
  attempt_call : ℕ → Option (List ℕ) → Call
  bury_call : ℕ → List ℕ → Call
  complete_call : ℕ → OutboxState → Call
  purge_call : Duration → Call

-- The edges of the diagram: a request that no store holds is `none`.
abbrev pub may_move : Option OutboxState → Option OutboxState → Bool
may_move none none = true
may_move none (some enqueued) = true
may_move (some transported) none = true
may_move (some applied) none = true
may_move (some enqueued) (some transported) = true
may_move (some enqueued) (some dead_letter) = true
may_move (some transported) (some enqueued) = true
may_move (some transported) (some applied) = true
may_move (some transported) (some dead_letter) = true
may_move (some s) (some t) = is_state s t
may_move _ _ = false

-- The edges of one call: a purge, and only that, may also remove a dead letter.
abbrev pub may_move_by : Call → Option OutboxState → Option OutboxState → Bool
may_move_by (purge_call older_than) (some dead_letter) none = true
may_move_by (purge_call older_than) (some s) (some t) = is_state s t
may_move_by (purge_call older_than) none none = true
may_move_by (purge_call older_than) _ _ = false
may_move_by _ s t = may_move s t

-- A result less its value.
abbrev done : Result StoreError ℕ → Result StoreError (Unit {0})
done (ok n) = ok tt
done (err e) = err e

abbrev phase_of : Option OutboxMessage → Option OutboxState
phase_of none = none
phase_of (some m) = some (outbox_state m)

module _ (map' : TypedMap OutboxMessage) where
  open map' use {Map, load, store, delete, load-store, load-delete}

  -- The state of a request in a store.
  abbrev pub phase : Outbox map' → ℕ → Option OutboxState
  phase o k = phase_of (load o.messages k)

  -- A call at a time.
  unfoldable pub run :
      Outbox map' → Context → Time → Call → Outbox map' × Result StoreError (Unit {0})
  run o ctx now (enqueue_call m) = enqueue map' o ctx now m
  run o ctx now (transition_call k t) = transition map' o ctx k t
  run o ctx now (attempt_call k cause) = record_attempt map' o ctx k now cause
  run o ctx now (bury_call k reason) = move_to_dead_letter map' o ctx k now reason
  run o ctx now (complete_call k t) = complete map' o ctx k t
  run o ctx now (purge_call older_than) =
      let (p, r) = purge_dead_letters map' o ctx now older_than in (p, done r)

  checked-err :
      (o : Outbox map') (r : Result StoreError (Unit {0}))
      (p : Outbox map' × Result StoreError (Unit {0})) (h : (p.0 ≡ o) ⊎ (p.1 ≡ ok tt))
      → ((checked map' o r p).0 ≡ o) ⊎ ((checked map' o r p).1 ≡ ok tt)
  checked-err o (ok a) p h = h
  checked-err o (err e) p h = inl refl

  insert_new-err :
      (o : Outbox map') (now : Time) (m : OutboxMessage) (f : Option OutboxMessage)
      → ((insert_new map' o now m f).0 ≡ o) ⊎ ((insert_new map' o now m f).1 ≡ ok tt)
  unfolding insert_new
  insert_new-err o now m (some old) = inl refl
  insert_new-err o now m none = inr refl

  move-err :
      (o : Outbox map') (k : ℕ) (t : OutboxState) (f : Option OutboxMessage)
      → ((move map' o k t f).0 ≡ o) ⊎ ((move map' o k t f).1 ≡ ok tt)
  unfolding move
  move-err o k t none = inl refl
  move-err o k t (some m) = ground arith

  attempt-err :
      (o : Outbox map') (k : ℕ) (now : Time) (cause : Option (List ℕ)) (f : Option OutboxMessage)
      → ((attempt map' o k now cause f).0 ≡ o) ⊎ ((attempt map' o k now cause f).1 ≡ ok tt)
  unfolding attempt
  attempt-err o k now cause none = inl refl
  attempt-err o k now cause (some m) = ground arith

  bury-err :
      (o : Outbox map') (k : ℕ) (now : Time) (reason : List ℕ) (f : Option OutboxMessage)
      → ((bury map' o k now reason f).0 ≡ o) ⊎ ((bury map' o k now reason f).1 ≡ ok tt)
  unfolding bury
  bury-err o k now reason none = inl refl
  bury-err o k now reason (some m) = ground arith

  remove-err :
      (o : Outbox map') (k : ℕ) (t : OutboxState) (f : Option OutboxMessage)
      → ((remove map' o k t f).0 ≡ o) ⊎ ((remove map' o k t f).1 ≡ ok tt)
  unfolding remove
  remove-err o k t none = inl refl
  remove-err o k t (some m) = ground arith

  complete-err :
      (o : Outbox map') (k : ℕ) (t : OutboxState) (b : Bool) (e : StoreError)
      → ((if b then (o, err e) else remove map' o k t (load o.messages k)).0 ≡ o)
        ⊎ ((if b then (o, err e) else remove map' o k t (load o.messages k)).1 ≡ ok tt)
  complete-err o k t true e = inl refl
  complete-err o k t false e = remove-err o k t (load o.messages k)

  purge-err :
      (o p : Outbox map') (r : Result StoreError (Unit {0})) (n : ℕ) (e : StoreError)
      → done (checked map' o r (p, ok n)).1 ≡ err e
      → (checked map' o r (p, ok n)).0 ≡ o
  purge-err o p (ok a) n e h = ground arith
  purge-err o p (err x) n e h = refl

  -- A call on an outbox that returns an error leaves the outbox as it was.
  pub run-err :
      (o : Outbox map') (ctx : Context) (now : Time) (c : Call) (e : StoreError)
      (h : (run o ctx now c).1 ≡ err e)
      → (run o ctx now c).0 ≡ o
  unfolding run enqueue transition record_attempt move_to_dead_letter complete purge_dead_letters
  run-err o ctx now (enqueue_call m) e h = ground (
    arith,
    checked-err o (validate_request ctx m.request_id) _
        (insert_new-err o now m (load o.messages m.request_id)),
  )
  run-err o ctx now (transition_call k t) e h =
      ground (arith, checked-err o (validate_request ctx k) _ (move-err o k t (load o.messages k)))
  run-err o ctx now (attempt_call k cause) e h = ground (
    arith,
    checked-err o (validate_request ctx k) _ (attempt-err o k now cause (load o.messages k)),
  )
  run-err o ctx now (bury_call k reason) e h = ground (
    arith,
    checked-err o (validate_request ctx k) _ (bury-err o k now reason (load o.messages k)),
  )
  run-err o ctx now (complete_call k t) e h = ground (
    arith,
    checked-err o (validate_request ctx k) _ (
        complete-err o k t (not (is_state t transported) && not (is_state t applied))
          (invalid_transition k unknown t)),
  )
  run-err o ctx now (purge_call older_than) e h = purge-err o _ (check_context ctx) _ e h
