-- ===== src/Net/Delivery.antt =====
-- zNet/delivery.go: the bounded queue of a session's outbound packets. A step is what the Go code does
-- under the queue's lock; a packet is a number, and so is an element of the list `items`, in the order
-- in which they are made. The metrics are left out.
pub mod Senders
pub mod Elements
pub mod Index
pub mod Order
pub mod Wakeups
pub mod Frames
use z_engine.Common.{
  ltb, leb, ◌==◌, if◌then◌else◌, length, ℤ, pos, pos_part, leb_ℤ, ℕ, ◌+◌, Bool, true, false, Option,
  none, some, List, [], ◌∷◌, ◌++◌,
}
use z_engine.Common.TypedMap.{lookup, erase}

-- `DeliveryClass`.
pub data DeliveryClass : Type 0 where
  latest_frame best_effort_event reliable_command : DeliveryClass

-- The class of a Go `DeliveryClass`, where that is in range.
abbrev pub class_of : ℕ → Option DeliveryClass
class_of n =
    if n == 1
    then some latest_frame
    else if n == 2
    then some best_effort_event
    else if n == 3
    then some reliable_command
    else none

abbrev pub is_latest : DeliveryClass → Bool
is_latest latest_frame = true
is_latest _ = false

-- `queuedOutbound`.
pub record QueuedOutbound : Type 0 where
  pub outbound : ℕ
  pub class : DeliveryClass
  pub key : ℕ

pub data DeliveryError : Type 0 where
  send_queue_full session_closed invalid_delivery_class nil_packet : DeliveryError
  closed_by : ℕ → DeliveryError
  context_error : ℕ → DeliveryError

-- The cause that `Close` keeps: `ErrSessionClosed` where it is given none.
pub data CloseCause : Type 0 where
  default_cause : CloseCause
  caller_cause : ℕ → CloseCause

-- `outboundQueue`, with the elements of the list by their numbers; `changed` is the number of channels
-- that `signalChangedLocked` has closed, and `ready` whether the channel of that name has its token.
pub record OutboundQueue : Type 0 where
  pub capacity : ℕ
  pub items : List (ℕ × QueuedOutbound)
  pub latest : List (ℕ × ℕ)
  pub next_element : ℕ
  pub changed : ℕ
  pub ready : Bool
  pub closed : Option CloseCause

-- `DefaultChanSize`.
abbrev pub default_chan_size : ℕ
default_chan_size = 1024

-- `newOutboundQueue`.
unfoldable pub new_outbound_queue : ℤ → OutboundQueue
new_outbound_queue capacity = record {
  capacity = if leb_ℤ capacity (pos 0) then default_chan_size else pos_part capacity;
  items = [];
  latest = [];
  next_element = 0;
  changed = 0;
  ready = false;
  closed = none;
}

-- `closeErrorLocked`; `is_closed` is `errors.Is` of a cause and `ErrSessionClosed`.
unfoldable pub close_error : (ℕ → Bool) → CloseCause → DeliveryError
close_error is_closed default_cause = session_closed
close_error is_closed (caller_cause e) = if is_closed e then session_closed else closed_by e

-- What a turn of the loop of `Enqueue` comes to: the packet is in the queue, the call returns an error, or
-- it waits for a channel to be closed.
pub data Attempt : Type 0 where
  admitted : Attempt
  refused : DeliveryError → Attempt
  waits_for : ℕ → Attempt

-- `PushBack`, and `signalReadyLocked`.
unfoldable pub push_back : QueuedOutbound → OutboundQueue → OutboundQueue
push_back x q = record q {
  items = q.items ++ ((q.next_element, x) ∷ []);
  next_element = q.next_element + 1;
  ready = true;
}

abbrev full_attempt : DeliveryClass → ℕ → Attempt
full_attempt best_effort_event changed = refused send_queue_full
full_attempt _ changed = waits_for changed

enqueue_at :
    (ℕ → Bool) → DeliveryClass → ℕ → Option CloseCause → OutboundQueue → OutboundQueue × Attempt
unfolding push_back
enqueue_at is_closed class packet (some cause) q = (q, refused (close_error is_closed cause))
enqueue_at is_closed class packet none q =
    if ltb (length q.items) q.capacity
    then (push_back (record { outbound = packet; class = class; key = 0 }) q, admitted)
    else (q, full_attempt class q.changed)

-- A turn of the loop of `Enqueue`, for a command or an event.
unfoldable pub enqueue_turn :
    (ℕ → Bool) → DeliveryClass → ℕ → OutboundQueue → OutboundQueue × Attempt
unfolding enqueue_at
enqueue_turn is_closed class packet q = enqueue_at is_closed class packet q.closed q

-- The value of an element is replaced.
pub put : ℕ → QueuedOutbound → List (ℕ × QueuedOutbound) → List (ℕ × QueuedOutbound)
put id x [] = []
put id x ((j, y) ∷ l) = let rest = put id x l in if j == id then (j, x) ∷ l else (j, y) ∷ rest

-- The loop that looks for the first latest frame.
pub first_latest : List (ℕ × QueuedOutbound) → Option (ℕ × QueuedOutbound)
first_latest [] = none
first_latest ((j, y) ∷ l) =
    let rest = first_latest l in if is_latest y.class then some (j, y) else rest

abbrev pub frame : ℕ → ℕ → QueuedOutbound
frame packet key = record { outbound = packet; class = latest_frame; key = key }

-- The existing frame of the key gets the packet.
abbrev set_outbound :
    ℕ → ℕ → Option QueuedOutbound → List (ℕ × QueuedOutbound) → List (ℕ × QueuedOutbound)
set_outbound id packet none l = l
set_outbound id packet (some x) l = put id (record x { outbound = packet }) l

pub coalesce : ℕ → ℕ → OutboundQueue → OutboundQueue
unfolding put
coalesce id packet q = record q {
  items = set_outbound id packet (lookup id q.items) q.items;
  ready = true;
}

-- The first latest frame makes room, if there is one; else the packet is dropped.
pub replace_first : ℕ → ℕ → Option (ℕ × QueuedOutbound) → OutboundQueue → OutboundQueue
unfolding put
replace_first packet key none q = q
replace_first packet key (some (id, x)) q = record q {
  items = put id (frame packet key) q.items;
  latest = (key, id) ∷ erase key (erase x.key q.latest);
  ready = true;
}

pub add_frame : ℕ → ℕ → OutboundQueue → OutboundQueue
unfolding push_back
add_frame packet key q = record (push_back (frame packet key) q) {
  latest = (key, q.next_element) ∷ erase key q.latest;
}

enqueue_frame : ℕ → ℕ → Option ℕ → OutboundQueue → OutboundQueue
unfolding coalesce replace_first add_frame first_latest
enqueue_frame packet key (some id) q = coalesce id packet q
enqueue_frame packet key none q =
    if leb q.capacity (length q.items)
    then replace_first packet key (first_latest q.items) q
    else add_frame packet key q

enqueue_latest_at :
    (ℕ → Bool) → ℕ → ℕ → Option CloseCause → OutboundQueue → OutboundQueue × Option DeliveryError
unfolding enqueue_frame
enqueue_latest_at is_closed packet key (some cause) q = (q, some (close_error is_closed cause))
enqueue_latest_at is_closed packet key none q =
    (enqueue_frame packet key (lookup key q.latest) q, none)

-- `enqueueLatest`.
unfoldable pub enqueue_latest :
    (ℕ → Bool) → ℕ → ℕ → OutboundQueue → OutboundQueue × Option DeliveryError
unfolding enqueue_latest_at
enqueue_latest is_closed packet key q = enqueue_latest_at is_closed packet key q.closed q

dequeue_items : List (ℕ × QueuedOutbound) → OutboundQueue → OutboundQueue × Option QueuedOutbound
dequeue_items [] q = (q, none)
dequeue_items ((id, x) ∷ rest) q = (
  record q {
    items = rest;
    latest = if is_latest x.class then erase x.key q.latest else q.latest;
    changed = q.changed + 1;
    ready = if ltb 0 (length rest) then true else q.ready;
  },
  some x,
)

-- `TryDequeue`.
unfoldable pub try_dequeue : OutboundQueue → OutboundQueue × Option QueuedOutbound
unfolding dequeue_items
try_dequeue q = dequeue_items q.items q

close_at : CloseCause → Option CloseCause → OutboundQueue → OutboundQueue
close_at cause (some c) q = q
close_at cause none q = record q { closed = some cause; changed = q.changed + 1; ready = true }

-- `Close`, which does its work once.
unfoldable pub close : CloseCause → OutboundQueue → OutboundQueue
unfolding close_at
close cause q = close_at cause q.closed q
