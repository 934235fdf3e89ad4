-- ===== src/Consistency/Selection.antt =====
-- zConsistency/memory_store_v2.go: the order of the listings of a `MemoryOutbox`, and what each
-- of them includes.
use z_engine.Common.{ltb, ◌==◌, if◌then◌else◌, ℤ, pos, ltb_ℤ, Bool, not, ◌&&◌, ◌||◌, List, [], ◌∷◌}
use z_engine.Consistency.Contract.{
  Time, enqueued, transported, dead_letter, is_state, OutboxMessage, outbox_state,
}

-- The order of `sort.Slice`, and a sort by it.
unfoldable pub is_before : OutboxMessage → OutboxMessage → Bool
is_before a b =
    if a.created_at == b.created_at
    then ltb a.request_id b.request_id
    else ltb a.created_at b.created_at

unfoldable pub insert_message : OutboxMessage → List OutboxMessage → List OutboxMessage
unfolding is_before
insert_message a [] = a ∷ []
insert_message a (b ∷ bs) = if is_before b a then b ∷ insert_message a bs else a ∷ b ∷ bs

unfoldable pub sort_messages : List OutboxMessage → List OutboxMessage
unfolding insert_message
sort_messages [] = []
sort_messages (m ∷ ms) = insert_message m (sort_messages ms)

-- The `include` functions of the listings.
unfoldable pub is_unresolved : OutboxMessage → Bool
is_unresolved m = is_state (outbox_state m) enqueued || is_state (outbox_state m) transported

unfoldable pub is_retryable : ℤ → Time → OutboxMessage → Bool
unfolding is_unresolved
is_retryable max_retries now m =
    is_unresolved m
    && ltb_ℤ (pos m.attempts) max_retries
    && (m.next_retry_at == 0 || not (ltb now m.next_retry_at))

unfoldable pub is_dead : OutboxMessage → Bool
is_dead m = is_state (outbox_state m) dead_letter
