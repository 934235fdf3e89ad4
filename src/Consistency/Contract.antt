-- ===== src/Consistency/Contract.antt =====
-- zConsistency/store_v2.go and the types of memory_store.go: messages, their states, and the
-- checks that every store makes. A time is in nanoseconds, and 0 is Go's zero time; a duration is
-- an integer with its `int64` range. Text is a list of code points.
use z_engine.Common.{
  ◌>>◌, ◌==◌, if◌then◌else◌, Result, ok, err, guard, ℤ, pos, negsuc, ◌-ℤ◌, ℕ, zero, suc, ◌+◌, ◌-◌,
  Bool, true, false, not, List,
}
use z_engine.Net.Wire.{Bytes}

abbrev pub Time : Type 0
Time = ℕ

abbrev pub Duration : Type 0
Duration = ℤ

-- `OutboxState`.
pub data OutboxState : Type 0 where
  unknown enqueued transported applied dead_letter : OutboxState

abbrev pub is_state : OutboxState → OutboxState → Bool
is_state unknown unknown = true
is_state enqueued enqueued = true
is_state transported transported = true
is_state applied applied = true
is_state dead_letter dead_letter = true
is_state _ _ = false

-- The fields of `OutboxMessage` that no store looks at.
pub record Content : Type 0 where
  pub topic : List ℕ
  pub target_server_id : List ℕ
  pub target_map_id : ℤ
  pub proto_id : ℤ
  pub payload : Bytes

-- `OutboxMessage`.
pub record OutboxMessage : Type 0 where
  pub request_id : ℕ
  pub content : Content
  pub sent : Bool
  pub acked : Bool
  pub attempts : ℕ
  pub last_error : List ℕ
  pub is_dead_letter : Bool
  pub created_at : Time
  pub last_attempt_at : Time
  pub next_retry_at : Time
  pub state : OutboxState

-- A `context.Context` argument: nil, done, or neither.
pub data Context : Type 0 where
  nil_context done_context live_context : Context

pub data StoreError : Type 0 where
  invalid_context context_done invalid_request_id entry_exists entry_not_found
        invalid_consistency_transition :
      StoreError
  invalid_transition : ℕ → OutboxState → OutboxState → StoreError

-- `checkConsistencyContext` and `validateConsistencyRequest`.
unfoldable pub check_context : Context → Result StoreError (Unit {0})
check_context nil_context = err invalid_context
check_context done_context = err context_done
check_context live_context = ok tt

unfoldable pub validate_request : Context → ℕ → Result StoreError (Unit {0})
unfolding check_context
validate_request ctx request_id = do
  check_context ctx
  guard (not (request_id == 0)) invalid_request_id

-- `outboxState`.
unfoldable pub outbox_state : OutboxMessage → OutboxState
outbox_state m =
    if m.is_dead_letter
    then dead_letter
    else if m.acked
    then applied
    else if m.sent
    then transported
    else enqueued

-- `setOutboxState`.
unfoldable pub set_outbox_state : OutboxMessage → OutboxState → OutboxMessage
set_outbox_state m unknown = record m { state = unknown }
set_outbox_state m enqueued = record m {
  state = enqueued;
  sent = false;
  acked = false;
  is_dead_letter = false;
}
set_outbox_state m transported = record m {
  state = transported;
  sent = true;
  acked = false;
  is_dead_letter = false;
}
set_outbox_state m applied = record m {
  state = applied;
  sent = true;
  acked = true;
  is_dead_letter = false;
}
set_outbox_state m dead_letter = record m {
  state = dead_letter;
  acked = false;
  is_dead_letter = true;
}

-- `cloneOutboxMessage`; its copy of the payload is the payload.
unfoldable pub clone_outbox_message : OutboxMessage → OutboxMessage
clone_outbox_message m = record m { state = outbox_state m }

-- `normalizedLimit`.
unfoldable pub normalized_limit : ℤ → ℕ
normalized_limit (pos zero) = 100
normalized_limit (pos (suc n)) = suc n
normalized_limit (negsuc n) = 100

-- `t.Add(d)` and `t.Sub(u)`; the latter's saturation, at 292 years, is left out.
unfoldable pub add_time : Time → Duration → Time
add_time t (pos d) = t + d
add_time t (negsuc d) = t - suc d

unfoldable pub sub_time : Time → Time → Duration
unfolding ◌-ℤ◌
sub_time t u = pos t -ℤ pos u
