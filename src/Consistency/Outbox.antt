-- ===== src/Consistency/Outbox.antt =====
-- zConsistency/memory_store_v2.go, `MemoryOutbox`: the durable-enqueue contract over a
-- `zMap.TypedMap`, which enters as a parameter. A call is made under the store's lock, with the
-- time that `time.Now()` gives in it as an argument.
pub mod Steps
pub mod Listing
pub mod Purge
use z_engine.Common.{
  ◌>>=◌, ◌>>◌, ◌==◌, if◌then◌else◌, Result, ok, err, length, take, ℤ, pos, leb_ℤ, ℕ, ◌+◌, Bool, not,
  ◌&&◌, ◌||◌, Option, none, some, List, [], ◌∷◌,
}
use z_engine.Common.TypedMap.{TypedMap}
use z_engine.Consistency.Contract.{
  Time, Duration, OutboxState, unknown, enqueued, transported, applied, dead_letter, is_state,
  OutboxMessage, Context, StoreError, entry_exists, entry_not_found, invalid_transition,
  check_context, validate_request, outbox_state, set_outbox_state, clone_outbox_message,
  normalized_limit, add_time, sub_time,
}
use z_engine.Consistency.Selection.{sort_messages, is_dead}
use z_engine.Consistency.Retry.{retry_delay}

-- `MemoryOutbox` over the type of its map.
pub record MemoryOutbox (M : Type 0) : Type 0 where
  pub messages : M
  pub max_retries : ℤ
  pub retry_backoff : Duration
  pub max_retry_delay : Duration

-- `NewMemoryOutbox` with its default options.
unfoldable pub new_memory_outbox : {M : Type 0} → M → MemoryOutbox M
new_memory_outbox messages = record {
  messages = messages;
  max_retries = pos 5;
  retry_backoff = pos 500000000;
  max_retry_delay = pos 30000000000;
}

-- `if t.IsZero() { t = u }`.
abbrev or_time : Time → Time → Time
or_time t u = if t == 0 then u else t

module _ (map' : TypedMap OutboxMessage) where
  open map' use {Map, load, store, delete, range}

  abbrev pub Outbox : Type 0
  Outbox = MemoryOutbox Map

  -- The message that `Enqueue` stores.
  pub enqueued_message : Outbox → Time → OutboxMessage → OutboxMessage
  enqueued_message o now m =
      let created = or_time m.created_at now in
      let delay = retry_delay o.retry_backoff o.max_retry_delay 0 in
      clone_outbox_message (
        set_outbox_state
          (record m {
            created_at = created;
            next_retry_at = or_time m.next_retry_at (add_time created delay);
          })
          enqueued)

  insert_new :
      Outbox → Time → OutboxMessage → Option OutboxMessage → Outbox × Result StoreError (Unit {0})
  unfolding enqueued_message
  insert_new o now m (some old) = (o, err entry_exists)
  insert_new o now m none =
      (record o { messages = store o.messages m.request_id (enqueued_message o now m) }, ok tt)

  -- A call that has passed its checks, or the error of the check with the store as it was.
  abbrev checked {ℓ} :
      {A : Type ℓ}
      → Outbox
      → Result StoreError (Unit {0})
      → Outbox × Result StoreError A
      → Outbox × Result StoreError A
  checked o (ok a) r = r
  checked o (err e) r = (o, err e)

  -- `Enqueue`.
  unfoldable pub enqueue :
      Outbox → Context → Time → OutboxMessage → Outbox × Result StoreError (Unit {0})
  unfolding insert_new
  enqueue o ctx now m =
      checked o (validate_request ctx m.request_id)
        (insert_new o now m (load o.messages m.request_id))

  found : Option OutboxMessage → Result StoreError OutboxMessage
  found none = err entry_not_found
  found (some m) = ok (clone_outbox_message m)

  -- `Get`.
  unfoldable pub get_message : Outbox → Context → ℕ → Result StoreError OutboxMessage
  unfolding found
  get_message o ctx request_id = do
    validate_request ctx request_id
    found (load o.messages request_id)

  -- A message stored again under its id.
  abbrev put_back : Outbox → ℕ → OutboxMessage → Outbox × Result StoreError (Unit {0})
  put_back o request_id m = (record o { messages = store o.messages request_id m }, ok tt)

  move : Outbox → ℕ → OutboxState → Option OutboxMessage → Outbox × Result StoreError (Unit {0})
  move o request_id target none = (o, err entry_not_found)
  move o request_id target (some m) =
      let current = outbox_state m in
      if is_state current target
      then (o, ok tt)
      else if (is_state target transported && is_state current enqueued)
          || (is_state target applied && is_state current transported)
      then put_back o request_id (set_outbox_state m target)
      else (o, err (invalid_transition request_id current target))

  -- `transition`; `MarkTransported` and `MarkApplied` are it at their target.
  unfoldable pub transition :
      Outbox → Context → ℕ → OutboxState → Outbox × Result StoreError (Unit {0})
  unfolding move
  transition o ctx request_id target =
      checked o (validate_request ctx request_id)
        (move o request_id target (load o.messages request_id))

  -- The message after an attempt; `cause` is the text of the error, if there was one.
  pub attempted : Outbox → Time → Option (List ℕ) → OutboxMessage → OutboxMessage
  attempted o now cause m =
      let delay = retry_delay o.retry_backoff o.max_retry_delay m.attempts in
      let next = record m {
        attempts = m.attempts + 1;
        last_attempt_at = now;
        next_retry_at = add_time now delay;
      } in
      elim cause [
        | none ↦ next
        | some text ↦ set_outbox_state (record next { last_error = text }) enqueued
      ]

  attempt :
      Outbox
      → ℕ
      → Time
      → Option (List ℕ)
      → Option OutboxMessage
      → Outbox × Result StoreError (Unit {0})
  unfolding attempted
  attempt o request_id now cause none = (o, err entry_not_found)
  attempt o request_id now cause (some m) =
      let current = outbox_state m in
      if is_state current applied || is_state current dead_letter
      then (o, err (invalid_transition request_id current enqueued))
      else put_back o request_id (attempted o now cause m)

  -- `RecordAttempt`.
  unfoldable pub record_attempt :
      Outbox → Context → ℕ → Time → Option (List ℕ) → Outbox × Result StoreError (Unit {0})
  unfolding attempt
  record_attempt o ctx request_id now cause =
      checked o (validate_request ctx request_id)
        (attempt o request_id now cause (load o.messages request_id))

  bury : Outbox → ℕ → Time → List ℕ → Option OutboxMessage → Outbox × Result StoreError (Unit {0})
  bury o request_id now reason none = (o, err entry_not_found)
  bury o request_id now reason (some m) =
      let current = outbox_state m in
      if is_state current dead_letter
      then (o, ok tt)
      else if is_state current applied
      then (o, err (invalid_transition request_id current dead_letter))
      else put_back o request_id
          (set_outbox_state (record m { last_error = reason; last_attempt_at = now }) dead_letter)

  -- `MoveToDeadLetter`.
  unfoldable pub move_to_dead_letter :
      Outbox → Context → ℕ → Time → List ℕ → Outbox × Result StoreError (Unit {0})
  unfolding bury
  move_to_dead_letter o ctx request_id now reason =
      checked o (validate_request ctx request_id)
        (bury o request_id now reason (load o.messages request_id))

  remove : Outbox → ℕ → OutboxState → Option OutboxMessage → Outbox × Result StoreError (Unit {0})
  remove o request_id terminal none = (o, err entry_not_found)
  remove o request_id terminal (some m) =
      if not (is_state (outbox_state m) terminal)
      then (o, err (invalid_transition request_id (outbox_state m) terminal))
      else (record o { messages = delete o.messages request_id }, ok tt)

  -- `Complete`.
  unfoldable pub complete :
      Outbox → Context → ℕ → OutboxState → Outbox × Result StoreError (Unit {0})
  unfolding remove
  complete o ctx request_id terminal = checked o (validate_request ctx request_id) (
      if not (is_state terminal transported) && not (is_state terminal applied)
      then (o, err (invalid_transition request_id unknown terminal))
      else remove o request_id terminal (load o.messages request_id))

  -- The messages that `Range` meets and a listing includes.
  pub included : (OutboxMessage → Bool) → List (ℕ × OutboxMessage) → List OutboxMessage
  included p [] = []
  included p ((k, m) ∷ es) =
      let rest = included p es in if p m then clone_outbox_message m ∷ rest else rest

  -- `listV2`, of which `ListUnresolved`, `ListRetryableContext` and `ListDeadLettersContext` are
  -- the cases of `is_unresolved`, `is_retryable` and `is_dead`; and `countV2`.
  unfoldable pub list_messages :
      Outbox → Context → ℤ → (OutboxMessage → Bool) → Result StoreError (List OutboxMessage)
  unfolding included sort_messages
  list_messages o ctx limit p = do
    check_context ctx
    ok (take (normalized_limit limit) (sort_messages (included p (range o.messages))))

  unfoldable pub count_messages : Outbox → Context → (OutboxMessage → Bool) → Result StoreError ℕ
  unfolding included
  count_messages o ctx p = do check_context ctx; ok (length (included p (range o.messages)))

  -- The ids that a purge collects.
  pub is_purged : Duration → Time → OutboxMessage → Bool
  is_purged older_than now m =
      is_dead m
      && (leb_ℤ older_than (pos 0)
          || leb_ℤ older_than (sub_time now (or_time m.last_attempt_at m.created_at)))

  purged_ids : Duration → Time → List (ℕ × OutboxMessage) → List ℕ
  unfolding is_purged
  purged_ids older_than now [] = []
  purged_ids older_than now ((k, m) ∷ es) =
      let rest = purged_ids older_than now es in
      if is_purged older_than now m then k ∷ rest else rest

  delete_all : Map → List ℕ → Map
  delete_all m [] = m
  delete_all m (k ∷ ks) = delete_all (delete m k) ks

  -- `PurgeDeadLettersContext`.
  unfoldable pub purge_dead_letters :
      Outbox → Context → Time → Duration → Outbox × Result StoreError ℕ
  unfolding purged_ids delete_all
  purge_dead_letters o ctx now older_than =
      let ids = purged_ids older_than now (range o.messages) in
      checked o (check_context ctx)
        (record o { messages = delete_all o.messages ids }, ok (length ids))
