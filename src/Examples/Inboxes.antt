-- ===== src/Examples/Inboxes.antt =====
-- The theorems on the inbox, with a list of entries as its map.
use z_engine.Common.{ok, ◌≡◌, refl, ◌≢◌, false, List, [], ◌∷◌, arith}
use z_engine.Common.TypedMap.{TypedMap, entries}
use z_engine.Consistency.Contract.{validate_request, live_context}
use z_engine.Consistency.Inbox.{
  mark_processed, InboxEntry, Inbox, new_memory_inbox, accepted, processed, state_processed,
  acquire, status, try_accept,
}
use z_engine.Consistency.Inbox.Admission.{
  call, Call, acquire_call, mark_call, abandon_call, try_accept_call, release_call, run,
  accepted_once, processed_for_good,
}

abbrev requests : TypedMap InboxEntry
requests = entries InboxEntry

abbrev empty_inbox : Inbox requests
empty_inbox = new_memory_inbox requests

first_acquire : (acquire requests empty_inbox live_context 7 100).1 ≡ ok accepted
unfolding acquire new_memory_inbox validate_request
first_acquire = refl

abbrev others : List Call
others =
    acquire_call live_context 8 110
    ∷ mark_call live_context 7 120
    ∷ abandon_call live_context 8
    ∷ release_call 9
    ∷ []

accepted_once_example :
    let p = run requests (acquire requests empty_inbox live_context 7 100).0 others in
    ((acquire requests p live_context 7 200).1 ≢ ok accepted)
    × ((try_accept requests p 7 200).1 ≡ false)
accepted_once_example =
    accepted_once requests empty_inbox live_context live_context 7 100 200 others first_acquire
      (ground arith)

abbrev busy_inbox : Inbox requests
busy_inbox =
    run requests empty_inbox (acquire_call live_context 7 100 ∷ mark_call live_context 7 120 ∷ [])

busy-processed : status requests busy_inbox live_context 7 ≡ ok state_processed
unfolding status run validate_request call mark_processed acquire new_memory_inbox
busy-processed = refl

abbrev retries : List Call
retries = try_accept_call 7 130 ∷ abandon_call live_context 7 ∷ []

processed_for_good_example :
    (status requests (run requests busy_inbox retries) live_context 7 ≡ ok state_processed)
    × (acquire requests (run requests busy_inbox retries) live_context 7 300
        ≡ (run requests busy_inbox retries, ok processed))
processed_for_good_example =
    processed_for_good requests busy_inbox live_context 7 300 retries busy-processed (ground arith)
