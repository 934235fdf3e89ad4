-- ===== src/Net/Delivery/Senders.antt =====
-- The senders and the consumer of a queue of zNet/delivery.go, interleaved.
use z_engine.Common.{
  ◌==◌, if◌then◌else◌, Result, ok, err, get_elem?, ℤ, ℕ, zero, suc, Bool, true, false, Option, none,
  some, List, [], ◌∷◌, ◌++◌,
}
use z_engine.Net.Delivery.{
  DeliveryClass, best_effort_event, reliable_command, class_of, QueuedOutbound, DeliveryError,
  nil_packet, invalid_delivery_class, context_error, CloseCause, OutboundQueue, new_outbound_queue,
  Attempt, admitted, refused, waits_for, enqueue_turn, enqueue_latest, try_dequeue, close,
}

-- A call of `Enqueue` for a reliable command that waits for the channel `changed` of a number.
pub record Waiter : Type 0 where
  pub packet : ℕ
  pub changed : ℕ

-- The queue with its callers; the consumer, `process` of the session, is awake between its receipt from
-- `ready` and its `TryDequeue`. `taken` has what it has dequeued, and `accepted` the commands and
-- events that were admitted, in order.
pub record System : Type 0 where
  pub queue : OutboundQueue
  pub waiting : List Waiter
  pub is_awake : Bool
  pub taken : List QueuedOutbound
  pub accepted : List ℕ

unfoldable pub new_system : ℤ → System
new_system capacity = record {
  queue = new_outbound_queue capacity;
  waiting = [];
  is_awake = false;
  taken = [];
  accepted = [];
}

-- What `Enqueue` checks before its loop; the packet may be nil and the context done.
unfoldable pub check_enqueue : Bool → Option ℕ → ℕ → Result DeliveryError DeliveryClass
check_enqueue is_nil context class = if is_nil then err nil_packet else elim context [
  | some e ↦ err (context_error e)
  | none ↦ elim (class_of class) [ none ↦ err invalid_delivery_class | some c ↦ ok c ]
]

abbrev pub without_waiter : ℕ → List Waiter → List Waiter
without_waiter n [] = []
without_waiter zero (w ∷ ws) = ws
without_waiter (suc n) (w ∷ ws) = w ∷ without_waiter n ws

-- A call's turn has ended.
abbrev pub after_turn : ℕ → OutboundQueue × Attempt → System → System
after_turn packet (q, admitted) s = record s { queue = q; accepted = s.accepted ++ (packet ∷ []) }
after_turn packet (q, refused e) s = record s { queue = q }
after_turn packet (q, waits_for n) s = record s {
  queue = q;
  waiting = s.waiting ++ (record { packet = packet; changed = n } ∷ []);
}

-- What takes the lock, or ends a wait. A waiter waits on until its channel is closed.
pub data Action : Type 0 where
  send_event send_command : (packet : ℕ) → Action
  send_frame : (packet key : ℕ) → Action
  wake give_up : (n : ℕ) → Action
  receive_ready dequeue : Action
  close_by : CloseCause → Action

unfoldable pub wake_waiter : (ℕ → Bool) → ℕ → Option Waiter → System → System
wake_waiter is_closed n none s = s
wake_waiter is_closed n (some w) s =
    if w.changed == s.queue.changed
    then s
    else after_turn w.packet (enqueue_turn is_closed reliable_command w.packet s.queue)
        (record s { waiting = without_waiter n s.waiting })

abbrev pub take_item : Option QueuedOutbound → List QueuedOutbound → List QueuedOutbound
take_item none l = l
take_item (some x) l = l ++ (x ∷ [])

unfoldable pub act : (ℕ → Bool) → Action → System → System
unfolding wake_waiter
act is_closed (send_event packet) s =
    after_turn packet (enqueue_turn is_closed best_effort_event packet s.queue) s
act is_closed (send_command packet) s =
    after_turn packet (enqueue_turn is_closed reliable_command packet s.queue) s
act is_closed (send_frame packet key) s = record s {
  queue = (enqueue_latest is_closed packet key s.queue).0;
}
act is_closed (wake n) s = wake_waiter is_closed n (get_elem? s.waiting n) s
act is_closed (give_up n) s = record s { waiting = without_waiter n s.waiting }
act is_closed receive_ready s =
    if s.queue.ready
    then record s { queue = record s.queue { ready = false }; is_awake = true }
    else s
act is_closed dequeue s =
    let (q, x) = try_dequeue s.queue in
    record s { queue = q; is_awake = false; taken = take_item x s.taken }
act is_closed (close_by cause) s = record s { queue = close cause s.queue }

unfoldable pub run : (ℕ → Bool) → List Action → System → System
run is_closed [] s = s
run is_closed (a ∷ rest) s = run is_closed rest (act is_closed a s)
