-- ===== src/Examples/Deliveries.antt =====
-- zNet/delivery.go: a queue of two packets, with a command that waits for room.
use z_engine.Common.{pos, ℕ, ◌≡◌, refl, ◌⊎◌, Bool, false, none, List, [], ◌∷◌}
use z_engine.Net.Delivery.{enqueue_turn, new_outbound_queue, try_dequeue, enqueue_latest}
use z_engine.Net.Delivery.Senders.{
  new_system, Action, send_command, send_frame, wake, receive_ready, dequeue, act, run,
}
use z_engine.Net.Delivery.Index.{Inv, run_queue-Inv}
use z_engine.Net.Delivery.Order.{InOrder, run-InOrder}
use z_engine.Net.Delivery.Wakeups.{Awake, run-Awake}
use z_engine.Net.Delivery.Frames.{Queued, Dropped, enqueue_latest-Queued}

abbrev never : ℕ → Bool
never e = false

abbrev exchange : List Action
exchange =
    send_command 10
    ∷ send_frame 11 7
    ∷ send_command 12
    ∷ send_frame 13 7
    ∷ receive_ready
    ∷ dequeue
    ∷ wake 0
    ∷ []

admits-both : (run never exchange (new_system (pos 2))).accepted ≡ 10 ∷ 12 ∷ []
unfolding run act enqueue_latest enqueue_turn new_system new_outbound_queue try_dequeue
admits-both = refl

run_queue-Inv_example : Inv (run never exchange (new_system (pos 2))).queue
run_queue-Inv_example = run_queue-Inv never (pos 2) exchange

run-InOrder_example : InOrder (run never exchange (new_system (pos 2)))
run-InOrder_example = run-InOrder never (pos 2) exchange

run-Awake_example : Awake (run never exchange (new_system (pos 2)))
run-Awake_example = run-Awake never (pos 2) exchange

stays-open : (run never exchange (new_system (pos 2))).queue.closed ≡ none
unfolding run act enqueue_latest enqueue_turn new_system new_outbound_queue try_dequeue
stays-open = refl

enqueue_latest-Queued_example :
    let q = (run never exchange (new_system (pos 2))).queue in
    let r = (enqueue_latest never 14 8 q).0 in Queued 14 8 r ⊎ Dropped q r
enqueue_latest-Queued_example = enqueue_latest-Queued never (pos 2) exchange 14 8 stays-open
