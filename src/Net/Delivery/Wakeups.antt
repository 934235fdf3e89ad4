-- ===== src/Net/Delivery/Wakeups.antt =====
-- No wakeup of a sender or of the consumer of zNet/delivery.go is lost.
use z_engine.Common.{
  ltb, leb, ◌==◌, if◌then◌else◌, ==-refl, Bool-cases, length, get_elem?, length-append, All, ℤ, ℕ,
  zero, suc, ◌≡◌, refl, ap, inl, inr, Bool, true, false, ◌&&◌, ◌||◌, Option, none, some, List, [],
  ◌∷◌, ◌++◌, arith,
}
use z_engine.Common.TypedMap.{lookup}
use z_engine.Net.Delivery.{
  DeliveryClass, latest_frame, best_effort_event, reliable_command, QueuedOutbound, CloseCause,
  OutboundQueue, new_outbound_queue, push_back, enqueue_at, enqueue_turn, first_latest, frame,
  coalesce, replace_first, add_frame, enqueue_frame, enqueue_latest, enqueue_latest_at,
  dequeue_items, try_dequeue, close_at, close, set_outbound, full_attempt,
}
use z_engine.Net.Delivery.Senders.{
  System, new_system, Action, send_event, send_command, send_frame, wake, give_up, receive_ready,
  dequeue, close_by, Waiter, wake_waiter, after_turn, without_waiter, act, run,
}
use z_engine.Net.Delivery.Elements.{length-put}

abbrev pub is_open : OutboundQueue → Bool
is_open q = elim q.closed [ none ↦ true | some c ↦ false ]

-- A sender that waits for the channel that is not closed yet waits for room in an open queue.
abbrev pub waits_well : OutboundQueue → Waiter → Bool
waits_well q w =
    leb w.changed q.changed
    && (if w.changed == q.changed then is_open q && leb q.capacity (length q.items) else true)

-- Where something is queued, the consumer has its signal, or has just received it.
abbrev pub is_signalled : System → Bool
is_signalled s = (length s.queue.items == 0) || (s.queue.ready || s.is_awake)

-- What a step of the queue does to a sender that waits.
abbrev Later : OutboundQueue → OutboundQueue → Type 0
Later q r = (w : Waiter) → waits_well q w ≡ true → waits_well r w ≡ true

All-Later :
    (q r : OutboundQueue) (l : List Waiter)
    → Later q r
    → All (λ w. waits_well q w ≡ true) l
    → All (λ w. waits_well r w ≡ true) l
All-Later q r [] k a = tt
All-Later q r (w ∷ l) k a = (k w a.0, All-Later q r l k a.1)

module _ (q : OutboundQueue) (w : Waiter) (h : waits_well q w ≡ true) where
  push_back-later : (x : QueuedOutbound) → waits_well (push_back x q) w ≡ true
  unfolding push_back
  push_back-later x = ground (arith, h, length-append q.items ((q.next_element, x) ∷ []))

  enqueue_at-later :
      (is_closed : ℕ → Bool) (class : DeliveryClass) (packet : ℕ) (o : Option CloseCause)
      → waits_well (enqueue_at is_closed class packet o q).0 w ≡ true
  unfolding enqueue_at
  enqueue_at-later is_closed class packet (some cause) = h
  enqueue_at-later is_closed class packet none =
      ground (arith, h, push_back-later (record { outbound = packet; class = class; key = 0 }))

  coalesce-later :
      (id packet : ℕ) (o : Option QueuedOutbound)
      → waits_well (record q { items = set_outbound id packet o q.items; ready = true }) w ≡ true
  coalesce-later id packet none = h
  coalesce-later id packet (some x) =
      ground (arith, h, length-put id (record x { outbound = packet }) q.items)

  replace_first-later :
      (packet key : ℕ) (o : Option (ℕ × QueuedOutbound))
      → waits_well (replace_first packet key o q) w ≡ true
  unfolding replace_first
  replace_first-later packet key none = h
  replace_first-later packet key (some (id, x)) =
      ground (arith, h, length-put id (frame packet key) q.items)

  add_frame-later : (packet key : ℕ) → waits_well (add_frame packet key q) w ≡ true
  unfolding add_frame push_back
  add_frame-later packet key =
      ground (arith, h, length-append q.items ((q.next_element, frame packet key) ∷ []))

  enqueue_frame-later :
      (packet key : ℕ) (o : Option ℕ) → waits_well (enqueue_frame packet key o q) w ≡ true
  unfolding enqueue_frame coalesce
  enqueue_frame-later packet key (some id) = coalesce-later id packet (lookup id q.items)
  enqueue_frame-later packet key none = elim (Bool-cases (leb q.capacity (length q.items))) [
    | inl t ↦ rw t (replace_first-later packet key (first_latest q.items))
    | inr t ↦ rw t (add_frame-later packet key)
  ]

  enqueue_latest_at-later :
      (is_closed : ℕ → Bool) (packet key : ℕ) (o : Option CloseCause)
      → waits_well (enqueue_latest_at is_closed packet key o q).0 w ≡ true
  unfolding enqueue_latest_at
  enqueue_latest_at-later is_closed packet key (some cause) = h
  enqueue_latest_at-later is_closed packet key none =
      enqueue_frame-later packet key (lookup key q.latest)

  dequeue_items-later : (l : List (ℕ × QueuedOutbound)) → waits_well (dequeue_items l q).0 w ≡ true
  unfolding dequeue_items
  dequeue_items-later [] = h
  dequeue_items-later ((id, x) ∷ rest) = ground (arith, h)

  close_at-later :
      (cause : CloseCause) (o : Option CloseCause) → waits_well (close_at cause o q) w ≡ true
  unfolding close_at
  close_at-later cause (some c) = h
  close_at-later cause none = ground (arith, h)

pub record Awake (s : System) : Type 0 where
  pub senders : All (λ w. waits_well s.queue w ≡ true) s.waiting
  pub consumer : is_signalled s ≡ true

All-pushed :
    (q : OutboundQueue) (l : List Waiter) (w : Waiter)
    → All (λ w. waits_well q w ≡ true) l
    → waits_well q w ≡ true
    → All (λ w. waits_well q w ≡ true) (l ++ (w ∷ []))
All-pushed q [] w a h = (h, tt)
All-pushed q (x ∷ l) w a h = (a.0, All-pushed q l w a.1 h)

All-without :
    (q : OutboundQueue) (n : ℕ) (l : List Waiter)
    → All (λ w. waits_well q w ≡ true) l
    → All (λ w. waits_well q w ≡ true) (without_waiter n l)
All-without q n [] a = tt
All-without q zero (x ∷ l) a = a.1
All-without q (suc n) (x ∷ l) a = (a.0, All-without q n l a.1)

-- After a turn the sender is done, or waits well.
turn_at-Awake :
    (is_closed : ℕ → Bool) (class : DeliveryClass) (packet : ℕ) (o : Option CloseCause) (s : System)
    → s.queue.closed ≡ o
    → Awake s
    → Awake (after_turn packet (enqueue_at is_closed class packet o s.queue) s)
unfolding enqueue_at push_back
turn_at-Awake is_closed class packet (some cause) s c v = record {
  senders = v.senders;
  consumer = v.consumer;
}
turn_at-Awake is_closed class packet none s c v =
    elim (Bool-cases (ltb (length s.queue.items) s.queue.capacity)) [
      | inl t ↦ rw t (record {
        senders =
            All-Later s.queue
              (push_back (record { outbound = packet; class = class; key = 0 }) s.queue) s.waiting
              (λ w h.
                push_back-later s.queue w h (record { outbound = packet; class = class; key = 0 }))
              v.senders;
        consumer = ground arith;
      })
      | inr t ↦ rw t (full-Awake class (ground (arith, t, c, ==-refl s.queue.changed)))
    ]
  where
    full-Awake :
        (class : DeliveryClass)
        → waits_well s.queue (record { packet = packet; changed = s.queue.changed }) ≡ true
        → Awake (after_turn packet (s.queue, full_attempt class s.queue.changed) s)
    full-Awake latest_frame h = record {
      senders =
          All-pushed s.queue s.waiting (record { packet = packet; changed = s.queue.changed })
            v.senders h;
      consumer = v.consumer;
    }
    full-Awake best_effort_event h = record { senders = v.senders; consumer = v.consumer }
    full-Awake reliable_command h = record {
      senders =
          All-pushed s.queue s.waiting (record { packet = packet; changed = s.queue.changed })
            v.senders h;
      consumer = v.consumer;
    }

wake_waiter-Awake :
    (is_closed : ℕ → Bool) (n : ℕ) (o : Option Waiter) (s : System)
    → Awake s
    → Awake (wake_waiter is_closed n o s)
unfolding wake_waiter enqueue_turn
wake_waiter-Awake is_closed n none s v = v
wake_waiter-Awake is_closed n (some w) s v = elim (Bool-cases (w.changed == s.queue.changed)) [
  | inl t ↦ rw t v
  | inr t ↦ rw t (
      turn_at-Awake is_closed reliable_command w.packet s.queue.closed
        (record s { waiting = without_waiter n s.waiting }) refl
        (record { senders = All-without s.queue n s.waiting v.senders; consumer = v.consumer }))
]

dequeue-signalled :
    (s : System) (l : List (ℕ × QueuedOutbound))
    → s.queue.items ≡ l
    → ((length (dequeue_items l s.queue).0.items == 0)
        || ((dequeue_items l s.queue).0.ready || false))
      ≡ true
unfolding dequeue_items
dequeue-signalled s [] e = ground (arith, ap length e)
dequeue-signalled s ((id, x) ∷ rest) e = ground arith

close-signalled :
    (cause : CloseCause) (s : System) (o : Option CloseCause)
    → is_signalled s ≡ true
    → ((length (close_at cause o s.queue).items == 0)
        || ((close_at cause o s.queue).ready || s.is_awake))
      ≡ true
unfolding close_at
close-signalled cause s (some c) h = h
close-signalled cause s none h = ground arith

frame-signalled :
    (packet key : ℕ) (o : Option ℕ) (q : OutboundQueue) (b : Bool)
    → ((length q.items == 0) || (q.ready || b)) ≡ true
    → ((length (enqueue_frame packet key o q).items == 0)
        || ((enqueue_frame packet key o q).ready || b))
      ≡ true
unfolding enqueue_frame coalesce add_frame push_back replace_first
frame-signalled packet key (some id) q b h = ground arith
frame-signalled packet key none q b h = elim (Bool-cases (leb q.capacity (length q.items))) [
  | inl t ↦ rw t (replace_first-signalled (first_latest q.items))
  | inr t ↦ rw t (ground arith)
]
  where
    replace_first-signalled :
        (o : Option (ℕ × QueuedOutbound))
        → ((length (replace_first packet key o q).items == 0)
            || ((replace_first packet key o q).ready || b))
          ≡ true
    replace_first-signalled none = h
    replace_first-signalled (some (id, x)) = ground arith

latest-signalled :
    (is_closed : ℕ → Bool) (packet key : ℕ) (o : Option CloseCause) (s : System)
    → is_signalled s ≡ true
    → is_signalled (record s { queue = (enqueue_latest_at is_closed packet key o s.queue).0 })
      ≡ true
unfolding enqueue_latest_at
latest-signalled is_closed packet key (some cause) s h = h
latest-signalled is_closed packet key none s h =
    frame-signalled packet key (lookup key s.queue.latest) s.queue s.is_awake h

act-Awake : (is_closed : ℕ → Bool) (a : Action) (s : System) → Awake s → Awake (act is_closed a s)
unfolding act enqueue_turn enqueue_latest try_dequeue close
act-Awake is_closed (send_event packet) s v =
    turn_at-Awake is_closed best_effort_event packet s.queue.closed s refl v
act-Awake is_closed (send_command packet) s v =
    turn_at-Awake is_closed reliable_command packet s.queue.closed s refl v
act-Awake is_closed (send_frame packet key) s v = record {
  senders =
      All-Later s.queue (enqueue_latest is_closed packet key s.queue).0 s.waiting
        (λ w h. enqueue_latest_at-later s.queue w h is_closed packet key s.queue.closed) v.senders;
  consumer = latest-signalled is_closed packet key s.queue.closed s v.consumer;
}
act-Awake is_closed (wake n) s v = wake_waiter-Awake is_closed n (get_elem? s.waiting n) s v
act-Awake is_closed (give_up n) s v = record {
  senders = All-without s.queue n s.waiting v.senders;
  consumer = v.consumer;
}
act-Awake is_closed receive_ready s v =
    elim s.queue.ready
      as (λ b.
        Awake (
          if b
          then record s { queue = record s.queue { ready = false }; is_awake = true }
          else s)) [
            | true ↦ record {
              senders =
                  All-Later s.queue (record s.queue { ready = false }) s.waiting (λ w h. h)
                    v.senders;
              consumer = ground arith;
            }
            | false ↦ v
          ]
act-Awake is_closed dequeue s v = record {
  senders =
      All-Later s.queue (try_dequeue s.queue).0 s.waiting
        (λ w h. dequeue_items-later s.queue w h s.queue.items) v.senders;
  consumer = dequeue-signalled s s.queue.items refl;
}
act-Awake is_closed (close_by cause) s v = record {
  senders =
      All-Later s.queue (close cause s.queue) s.waiting
        (λ w h. close_at-later s.queue w h cause s.queue.closed) v.senders;
  consumer = close-signalled cause s s.queue.closed v.consumer;
}

run_from-Awake :
    (is_closed : ℕ → Bool) (actions : List Action) (s : System)
    → Awake s
    → Awake (run is_closed actions s)
unfolding run
run_from-Awake is_closed [] s v = v
run_from-Awake is_closed (a ∷ rest) s v =
    run_from-Awake is_closed rest (act is_closed a s) (act-Awake is_closed a s v)

-- After any interleaving of senders and the consumer, a sender of a command whose channel is not closed
-- yet waits on an open queue without room, and where a packet is queued the consumer has the token of
-- `ready`, or has received it and has not dequeued since: no wakeup of either is lost.
pub run-Awake :
    (is_closed : ℕ → Bool) (capacity : ℤ) (actions : List Action)
    → Awake (run is_closed actions (new_system capacity))
run-Awake is_closed capacity actions =
    run_from-Awake is_closed actions (new_system capacity)
      (unfold new_system new_outbound_queue in record { senders = tt; consumer = refl })
