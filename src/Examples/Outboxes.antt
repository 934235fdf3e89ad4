-- ===== src/Examples/Outboxes.antt =====
-- The theorems on the outbox, with a list of entries as its map.
use z_engine.Common.{ok, err, length, All, pos, ◌≤◌, ◌≡◌, refl, ◌⊎◌, false, List, [], ◌∷◌, ◌++◌}
use mathlib.Core.List.{Perm}
use z_engine.Common.TypedMap.{TypedMap, entries}
use z_engine.Consistency.Contract.{
  validate_request, outbox_state, clone_outbox_message, set_outbox_state, unknown, enqueued,
  applied, OutboxMessage, live_context, invalid_transition, normalized_limit,
}
use z_engine.Consistency.Outbox.{transition, enqueue, Outbox, new_memory_outbox, list_messages}
use z_engine.Consistency.Selection.{is_unresolved}
use z_engine.Consistency.Outbox.Steps.{enqueue_call, transition_call, bury_call, run, run-err}
use z_engine.Consistency.Outbox.Listing.{Sorted, Listed, all_listed, list_messages_lem}

abbrev messages : TypedMap OutboxMessage
messages = entries OutboxMessage

abbrev empty_outbox : Outbox messages
empty_outbox = new_memory_outbox messages.empty

abbrev message : OutboxMessage
message = record {
  request_id = 7;
  content = record {
    topic = [];
    target_server_id = [];
    target_map_id = pos 1;
    proto_id = pos 42;
    payload = 1 ∷ [];
  };
  sent = false;
  acked = false;
  attempts = 0;
  last_error = [];
  is_dead_letter = false;
  created_at = 100;
  last_attempt_at = 0;
  next_retry_at = 0;
  state = unknown;
}

-- An outbox with one message.
abbrev outbox : Outbox messages
outbox = (run messages empty_outbox live_context 100 (enqueue_call message)).0

refused :
    (run messages outbox live_context 200 (transition_call 7 applied)).1
    ≡ err (invalid_transition 7 enqueued applied)
unfolding run new_memory_outbox transition validate_request enqueue outbox_state
    clone_outbox_message set_outbox_state
refused = refl

run-err_example : (run messages outbox live_context 200 (transition_call 7 applied)).0 ≡ outbox
run-err_example =
    run-err messages outbox live_context 200 (transition_call 7 applied)
      (invalid_transition 7 enqueued applied) refused

list_messages_example :
    (ms : List OutboxMessage) × (rest : List OutboxMessage) × (list_messages messages outbox
        live_context
        (pos 10)
        is_unresolved
      ≡ ok ms)
    × Perm (ms ++ rest) (all_listed messages is_unresolved (messages.range outbox.messages))
    × Sorted (ms ++ rest)
    × (length ms ≤ normalized_limit (pos 10))
    × ((rest ≡ []) ⊎ (length ms ≡ normalized_limit (pos 10)))
    × All (Listed messages outbox.messages is_unresolved) ms
list_messages_example = list_messages_lem messages outbox (pos 10) is_unresolved

abbrev buried : Outbox messages
buried = (run messages outbox live_context 300 (bury_call 7 [])).0
