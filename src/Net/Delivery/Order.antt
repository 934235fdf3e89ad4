-- ===== src/Net/Delivery/Order.antt =====
-- Commands and events of zNet/delivery.go are delivered once, in the order of their admission.
use mathlib.Core.List.{append-nil, append_assoc}
use z_engine.Common.{
  ltb, leb, ◌==◌, if◌then◌else◌, Bool-cases, length, get_elem?, ℤ, ℕ, ◌≡◌, refl, sym, ap, ◌∙◌, inl,
  inr, Bool, true, false, Option, none, some, List, [], ◌∷◌, ◌++◌, arith,
}
use z_engine.Common.TypedMap.{lookup}
use z_engine.Net.Delivery.{
  DeliveryClass, latest_frame, best_effort_event, reliable_command, is_latest, QueuedOutbound,
  CloseCause, OutboundQueue, new_outbound_queue, push_back, enqueue_at, enqueue_turn, put,
  first_latest, frame, coalesce, replace_first, add_frame, enqueue_frame, enqueue_latest,
  enqueue_latest_at, dequeue_items, try_dequeue, close_at, close, set_outbound, full_attempt,
}
use z_engine.Net.Delivery.Senders.{
  System, new_system, Action, send_event, send_command, send_frame, wake, give_up, receive_ready,
  dequeue, close_by, Waiter, wake_waiter, after_turn, without_waiter, take_item, act, run,
}
use z_engine.Net.Delivery.Index.{Inv, run_queue-Inv, act-Inv}
use z_engine.Net.Delivery.Elements.{is_frame_of, first_latest_lem}

-- The packets that are not latest frames.
abbrev pub commands_of : List QueuedOutbound → List ℕ
commands_of [] = []
commands_of (x ∷ xs) = if is_latest x.class then commands_of xs else x.outbound ∷ commands_of xs

abbrev pub commands : List (ℕ × QueuedOutbound) → List ℕ
commands [] = []
commands ((id, x) ∷ l) = if is_latest x.class then commands l else x.outbound ∷ commands l

commands-push :
    (id : ℕ) (x : QueuedOutbound) (l : List (ℕ × QueuedOutbound))
    → commands (l ++ ((id, x) ∷ []))
      ≡ commands l ++ (if is_latest x.class then [] else x.outbound ∷ [])
commands-push id x [] = ground arith
commands-push id x ((k, y) ∷ l) = ground (arith, commands-push id x l)

commands_of-push :
    (x : QueuedOutbound) (l : List QueuedOutbound)
    → commands_of (l ++ (x ∷ []))
      ≡ commands_of l ++ (if is_latest x.class then [] else x.outbound ∷ [])
commands_of-push x [] = ground arith
commands_of-push x (y ∷ l) = ground (arith, commands_of-push x l)

commands-put :
    (id : ℕ) (x y : QueuedOutbound) (l : List (ℕ × QueuedOutbound))
    → lookup id l ≡ some y
    → is_latest y.class ≡ true
    → is_latest x.class ≡ true
    → commands (put id x l) ≡ commands l
unfolding put
commands-put id x y [] h c d = refl
commands-put id x y ((k, z) ∷ l) h c d = elim (Bool-cases (k == id)) [
  | inl t ↦ let e : z ≡ y = ground arith in ground (arith, t, ap (λ w. is_latest w.class) e, c, d)
  | inr t ↦ ground (arith, t, commands-put id x y l (ground arith) c d)
]

-- What was accepted has been taken, or stands in the queue, in order.
abbrev pub InOrder : System → Type 0
InOrder s = commands_of s.taken ++ commands s.queue.items ≡ s.accepted

module _ (q : OutboundQueue) (v : Inv q) where
  coalesce-commands :
      (id packet key : ℕ) (o : Option QueuedOutbound)
      → lookup id q.items ≡ o
      → is_frame_of key o ≡ true
      → commands (set_outbound id packet o q.items) ≡ commands q.items
  coalesce-commands id packet key none l f = refl
  coalesce-commands id packet key (some x) l f =
      commands-put id (record x { outbound = packet }) x q.items l (ground (arith, f))
        (ground (arith, f))

  replace_first-commands :
      (packet key : ℕ) (o : Option (ℕ × QueuedOutbound))
      → first_latest q.items ≡ o
      → commands (replace_first packet key o q).items ≡ commands q.items
  unfolding replace_first
  replace_first-commands packet key none f = refl
  replace_first-commands packet key (some (id, x)) f =
      let (l, c) = first_latest_lem q.items id x v.distinct f in
      commands-put id (frame packet key) x q.items l c refl

  add_frame-commands : (packet key : ℕ) → commands (add_frame packet key q).items ≡ commands q.items
  unfolding add_frame push_back
  add_frame-commands packet key =
      commands-push q.next_element (frame packet key) q.items ∙ append-nil (commands q.items)

  enqueue_frame-commands :
      (packet key : ℕ) (o : Option ℕ)
      → lookup key q.latest ≡ o
      → commands (enqueue_frame packet key o q).items ≡ commands q.items
  unfolding enqueue_frame coalesce
  enqueue_frame-commands packet key (some id) h =
      coalesce-commands id packet key (lookup id q.items) refl (ground (arith, v.names key, h))
  enqueue_frame-commands packet key none h = elim (Bool-cases (leb q.capacity (length q.items))) [
    | inl t ↦ rw t (replace_first-commands packet key (first_latest q.items) refl)
    | inr t ↦ rw t (add_frame-commands packet key)
  ]

  enqueue_latest_at-commands :
      (is_closed : ℕ → Bool) (packet key : ℕ) (o : Option CloseCause)
      → commands (enqueue_latest_at is_closed packet key o q).0.items ≡ commands q.items
  unfolding enqueue_latest_at
  enqueue_latest_at-commands is_closed packet key (some cause) = refl
  enqueue_latest_at-commands is_closed packet key none =
      enqueue_frame-commands packet key (lookup key q.latest) refl

close_at-items :
    (cause : CloseCause) (o : Option CloseCause) (q : OutboundQueue)
    → (close_at cause o q).items ≡ q.items
unfolding close_at
close_at-items cause (some c) q = refl
close_at-items cause none q = refl

-- A turn accepts the packet exactly where the queue has it at its end.
enqueue_at-InOrder :
    (is_closed : ℕ → Bool) (class : DeliveryClass) (packet : ℕ) (o : Option CloseCause)
    (q : OutboundQueue) (s : System)
    → is_latest class ≡ false
    → commands_of s.taken ++ commands q.items ≡ s.accepted
    → InOrder (after_turn packet (enqueue_at is_closed class packet o q) s)
unfolding enqueue_at push_back
enqueue_at-InOrder is_closed class packet (some cause) q s c h = h
enqueue_at-InOrder is_closed class packet none q s c h =
    elim (Bool-cases (ltb (length q.items) q.capacity)) [
      | inl t ↦ rw t (
          rw
            (
              commands-push q.next_element (record { outbound = packet; class = class; key = 0 })
                  q.items,
              c,
            )
            (sym (append_assoc (commands_of s.taken) (commands q.items) (packet ∷ []))
              ∙ ap (λ l. l ++ (packet ∷ [])) h))
      | inr t ↦ rw t (full-InOrder class)
    ]
  where
    full-InOrder :
        (class : DeliveryClass) → InOrder (after_turn packet (q, full_attempt class q.changed) s)
    full-InOrder latest_frame = h
    full-InOrder best_effort_event = h
    full-InOrder reliable_command = h

commands-front :
    (id : ℕ) (x : QueuedOutbound) (rest : List (ℕ × QueuedOutbound))
    → (if is_latest x.class then [] else x.outbound ∷ []) ++ commands rest
      ≡ commands ((id, x) ∷ rest)
commands-front id x rest = elim (Bool-cases (is_latest x.class)) [
  | inl t ↦ rw t refl
  | inr t ↦ rw t refl
]

dequeue_items-InOrder :
    (l : List (ℕ × QueuedOutbound)) (q : OutboundQueue) (s : System)
    → q.items ≡ l
    → commands_of s.taken ++ commands q.items ≡ s.accepted
    → commands_of (take_item (dequeue_items l q).1 s.taken) ++ commands (dequeue_items l q).0.items
      ≡ s.accepted
unfolding dequeue_items
dequeue_items-InOrder [] q s e h = h
dequeue_items-InOrder ((id, x) ∷ rest) q s e h = rw (commands_of-push x s.taken) (
    append_assoc (commands_of s.taken) (if is_latest x.class then [] else x.outbound ∷ [])
      (commands rest)
    ∙ ap (λ l. commands_of s.taken ++ l) (commands-front id x rest ∙ sym (ap commands e))
    ∙ h)

wake_waiter-InOrder :
    (is_closed : ℕ → Bool) (n : ℕ) (o : Option Waiter) (s : System)
    → InOrder s
    → InOrder (wake_waiter is_closed n o s)
unfolding wake_waiter enqueue_turn
wake_waiter-InOrder is_closed n none s h = h
wake_waiter-InOrder is_closed n (some w) s h = elim (Bool-cases (w.changed == s.queue.changed)) [
  | inl t ↦ rw t h
  | inr t ↦ rw t (
      enqueue_at-InOrder is_closed reliable_command w.packet s.queue.closed s.queue
        (record s { waiting = without_waiter n s.waiting }) refl h)
]

act-InOrder :
    (is_closed : ℕ → Bool) (a : Action) (s : System)
    → Inv s.queue
    → InOrder s
    → InOrder (act is_closed a s)
unfolding act enqueue_turn enqueue_latest try_dequeue close
act-InOrder is_closed (send_event packet) s v h =
    enqueue_at-InOrder is_closed best_effort_event packet s.queue.closed s.queue s refl h
act-InOrder is_closed (send_command packet) s v h =
    enqueue_at-InOrder is_closed reliable_command packet s.queue.closed s.queue s refl h
act-InOrder is_closed (send_frame packet key) s v h =
    ap (λ l. commands_of s.taken ++ l)
      (enqueue_latest_at-commands s.queue v is_closed packet key s.queue.closed)
    ∙ h
act-InOrder is_closed (wake n) s v h = wake_waiter-InOrder is_closed n (get_elem? s.waiting n) s h
act-InOrder is_closed (give_up n) s v h = h
act-InOrder is_closed receive_ready s v h =
    elim s.queue.ready
      as (λ b.
        InOrder (
          if b
          then record s { queue = record s.queue { ready = false }; is_awake = true }
          else s)) [ true ↦ h | false ↦ h ]
act-InOrder is_closed dequeue s v h = dequeue_items-InOrder s.queue.items s.queue s refl h
act-InOrder is_closed (close_by cause) s v h =
    ap (λ l. commands_of s.taken ++ commands l) (close_at-items cause s.queue.closed s.queue) ∙ h

run_from-InOrder :
    (is_closed : ℕ → Bool) (actions : List Action) (s : System)
    → Inv s.queue
    → InOrder s
    → InOrder (run is_closed actions s)
unfolding run
run_from-InOrder is_closed [] s v h = h
run_from-InOrder is_closed (a ∷ rest) s v h =
    run_from-InOrder is_closed rest (act is_closed a s) (act-Inv is_closed a s v)
      (act-InOrder is_closed a s v h)

-- After any interleaving of senders and the consumer, the commands and events that `Enqueue` has admitted,
-- in their order, are those that the consumer has taken followed by those in the queue: none is lost,
-- doubled, overtaken, or displaced by a latest frame.
pub run-InOrder :
    (is_closed : ℕ → Bool) (capacity : ℤ) (actions : List Action)
    → InOrder (run is_closed actions (new_system capacity))
unfolding run new_system
run-InOrder is_closed capacity actions =
    run_from-InOrder is_closed actions (new_system capacity) (run_queue-Inv is_closed capacity [])
      (unfold new_outbound_queue in refl)
