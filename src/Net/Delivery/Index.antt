-- ===== src/Net/Delivery/Index.antt =====
-- The bound and the index of latest frames of a queue of zNet/delivery.go.
use z_engine.Common.{
  ltb, leb, ◌==◌, if◌then◌else◌, ==_iff, ==-refl, Bool-cases, length, get_elem?, length-append, ℤ,
  ℕ, ◌≤◌, ◌<◌, ◌≡◌, refl, ap, subst, inl, inr, Bool, true, false, Option, none, some, List, [], ◌∷◌,
  arith,
}
use z_engine.Common.TypedMap.{lookup, erase, lookup-erase, Distinct}
use z_engine.Net.Delivery.{
  DeliveryClass, best_effort_event, reliable_command, is_latest, QueuedOutbound, CloseCause,
  OutboundQueue, new_outbound_queue, Attempt, admitted, refused, waits_for, push_back, enqueue_at,
  enqueue_turn, put, first_latest, frame, coalesce, replace_first, add_frame, enqueue_frame,
  enqueue_latest, enqueue_latest_at, dequeue_items, try_dequeue, close_at, close, set_outbound,
}
use z_engine.Net.Delivery.Senders.{
  System, new_system, Action, send_event, send_command, send_frame, wake, give_up, receive_ready,
  dequeue, close_by, Waiter, wake_waiter, after_turn, without_waiter, act, run,
}
use z_engine.Net.Delivery.Elements.{
  exists, is_frame_of, names_frame, is_id, is_named, lookup-put, length-put, put-Distinct,
  lookup-push, push-Distinct, first_latest_lem, names_kept, named_kept, named_without, frame_unique,
  named_at, named_replaced,
}

pub record Inv (q : OutboundQueue) : Type 0 where
  pub bounded : length q.items ≤ q.capacity
  pub names : (key : ℕ) → names_frame key (lookup key q.latest) q.items ≡ true
  pub named : (id : ℕ) → is_named id (lookup id q.items) q.latest ≡ true
  pub fresh : (id : ℕ) → (if exists (lookup id q.items) then ltb id q.next_element else true) ≡ true
  pub distinct : Distinct q.items

module _ (q : OutboundQueue) (v : Inv q) where
  push_back-Inv :
      (x : QueuedOutbound)
      → is_latest x.class ≡ false
      → length q.items < q.capacity
      → Inv (push_back x q)
  unfolding push_back
  push_back-Inv x c b = record {
    bounded = omega (arith, b, length-append q.items ((q.next_element, x) ∷ []));
    names = λ key.
        names_kept key (lookup key q.latest) q.items (push_back x q).items
          (λ id h. ground (arith, h, lookup-push q.next_element x id q.items)) (v.names key);
    named = λ id. ground (arith, v.named id, lookup-push q.next_element x id q.items, c);
    fresh = λ id.
        ground
          (arith, v.fresh id, lookup-push q.next_element x id q.items, ==_iff q.next_element id);
    distinct =
        push-Distinct q.next_element x q.items (ground (arith, v.fresh q.next_element)) v.distinct;
  }

  -- No latest frame of the key stands in the queue, where the index names none.
  no_frame : (key id : ℕ) → lookup key q.latest ≡ none → is_frame_of key (lookup id q.items) ≡ false
  no_frame key id h = ground (arith, v.named id, h, no_frame_named (lookup id q.items))
    where
      no_frame_named :
          (o : Option QueuedOutbound) → is_named id o q.latest ≡ true → is_frame_of key o ≡ false
      no_frame_named none n = refl
      no_frame_named (some x) n = elim (Bool-cases (x.key == key)) [
        | inr t ↦ ground (arith, t)
        | inl t ↦
            let e : x.key ≡ key = ground (arith, ==_iff x.key key) in
            ground (arith, t, n, ap (λ k. is_id id (lookup k q.latest)) e, h)
      ]

  add_frame-Inv :
      (packet key : ℕ)
      → lookup key q.latest ≡ none
      → length q.items < q.capacity
      → Inv (add_frame packet key q)
  unfolding add_frame push_back
  add_frame-Inv packet key h b = record {
    bounded = omega (arith, b, length-append q.items ((q.next_element, frame packet key) ∷ []));
    names = λ k. elim (Bool-cases (key == k)) [
      | inl t ↦ rw t (
          ground (
            arith,
            v.fresh q.next_element,
            lookup-push q.next_element (frame packet key) q.next_element q.items,
            ==-refl q.next_element,
            ==_iff key k,
          ))
      | inr t ↦
          rw (t, lookup-erase q.latest key k, t)
            (names_kept k (lookup k q.latest) q.items (add_frame packet key q).items
              (λ id g. ground (arith, g, lookup-push q.next_element (frame packet key) id q.items))
              (v.names k))
    ];
    named = λ id. rw (lookup-push q.next_element (frame packet key) id q.items) (
        named_pushed id (lookup id q.items) (
          named_kept id key q.next_element (lookup id q.items) q.latest (v.named id)
            (no_frame key id h)));
    fresh = λ id. ground (
      arith,
      v.fresh id,
      lookup-push q.next_element (frame packet key) id q.items,
      ==_iff q.next_element id,
    );
    distinct =
        push-Distinct q.next_element (frame packet key) q.items
          (ground (arith, v.fresh q.next_element)) v.distinct;
  }
    where
      named_pushed :
          (id : ℕ) (o : Option QueuedOutbound)
          → is_named id o ((key, q.next_element) ∷ erase key q.latest) ≡ true
          → is_named id
              (if exists o
                then o
                else if q.next_element == id
                then some (frame packet key)
                else none)
              ((key, q.next_element) ∷ erase key q.latest)
            ≡ true
      named_pushed id none n = ground (arith, ==-refl key)
      named_pushed id (some x) n = n

  coalesce-Inv :
      (id packet key : ℕ) (o : Option QueuedOutbound)
      → lookup id q.items ≡ o
      → is_frame_of key o ≡ true
      → Inv (record q { items = set_outbound id packet o q.items; ready = true })
  coalesce-Inv id packet key none l f = ground arith
  coalesce-Inv id packet key (some x) l f = record {
    bounded = omega (arith, v.bounded, length-put id (record x { outbound = packet }) q.items);
    names = λ k.
        names_kept k (lookup k q.latest) q.items (put id (record x { outbound = packet }) q.items)
          (λ j g.
            ground
              (arith, g, l, lookup-put id (record x { outbound = packet }) j q.items, ==_iff id j))
          (v.names k);
    named = λ j. ground (
      arith,
      v.named j,
      l,
      lookup-put id (record x { outbound = packet }) j q.items,
      ==_iff id j,
    );
    fresh = λ j. ground (
      arith,
      v.fresh j,
      l,
      lookup-put id (record x { outbound = packet }) j q.items,
      ==_iff id j,
    );
    distinct = put-Distinct id (record x { outbound = packet }) q.items v.distinct;
  }

  names_replaced :
      (k id : ℕ) (x : QueuedOutbound) (packet key : ℕ)
      → lookup id q.items ≡ some x
      → names_frame k
          (lookup k ((key, id) ∷ erase key (erase x.key q.latest)))
          (put id (frame packet key) q.items)
        ≡ true
  names_replaced k id x packet key l = elim (Bool-cases (key == k)) [
    | inl t ↦
        rw t
          (ground (arith, lookup-put id (frame packet key) id q.items, l, ==-refl id, ==_iff key k))
    | inr t ↦
        rw (t, lookup-erase (erase x.key q.latest) key k, t, lookup-erase q.latest x.key k)
          (elim (Bool-cases (x.key == k)) [
            | inl u ↦ rw u refl
            | inr u ↦ rw u (
                names_kept k (lookup k q.latest) q.items (put id (frame packet key) q.items)
                  (λ j g.
                    ground
                      (arith, g, l, u, lookup-put id (frame packet key) j q.items, ==_iff id j))
                  (v.names k))
          ])
  ]

  replace_first-Inv :
      (packet key : ℕ) (o : Option (ℕ × QueuedOutbound))
      → lookup key q.latest ≡ none
      → first_latest q.items ≡ o
      → Inv (replace_first packet key o q)
  unfolding replace_first
  replace_first-Inv packet key none h f = v
  replace_first-Inv packet key (some (id, x)) h f =
      let (l, c) = first_latest_lem q.items id x v.distinct f in
      record {
        bounded = omega (arith, v.bounded, length-put id (frame packet key) q.items);
        names = λ k. names_replaced k id x packet key l;
        named = λ j.
            rw (lookup-put id (frame packet key) j q.items, l)
              (named_replaced id key j x packet (lookup j q.items) q.latest
                (named_at id x q.latest (ground (arith, v.named id, l)) c) (v.named j)
                (no_frame key j h));
        fresh = λ j.
            ground (arith, v.fresh j, l, lookup-put id (frame packet key) j q.items, ==_iff id j);
        distinct = put-Distinct id (frame packet key) q.items v.distinct;
      }

  names_dequeued :
      (id : ℕ) (x : QueuedOutbound) (rest : List (ℕ × QueuedOutbound))
      → q.items ≡ (id, x) ∷ rest
      → is_latest x.class ≡ true
      → (k : ℕ) → names_frame k (lookup k (erase x.key q.latest)) rest ≡ true
  names_dequeued id x rest e c k =
      rw (lookup-erase q.latest x.key k) (elim (Bool-cases (x.key == k)) [
        | inl t ↦ rw t refl
        | inr t ↦ rw t (
            names_kept k (lookup k q.latest) q.items rest
              (λ i g. ground (arith, g, ap (lookup i) e, t, ==_iff id i)) (v.names k))
      ])

  named_dequeued :
      (id : ℕ) (x : QueuedOutbound) (rest : List (ℕ × QueuedOutbound))
      → q.items ≡ (id, x) ∷ rest
      → is_latest x.class ≡ true
      → (j : ℕ) → is_named j (lookup j rest) (erase x.key q.latest) ≡ true
  named_dequeued id x rest e c j =
      let d : Distinct ((id, x) ∷ rest) = subst Distinct e v.distinct in
      let a = named_at id x q.latest (ground (arith, v.named id, ap (lookup id) e, ==-refl id)) c in
      elim (Bool-cases (id == j)) [
        | inl t ↦
            let i : id ≡ j = ground (arith, ==_iff id j) in
            ground (arith, ap (λ k. lookup k rest) i, d.0)
        | inr t ↦
            let n : is_named j (lookup j rest) q.latest ≡ true =
              ground (arith, v.named j, ap (lookup j) e, t) in
            named_without j x.key (lookup j rest) q.latest n
              (frame_unique j x.key id (lookup j rest) q.latest n a t)
      ]

  dequeue_items-Inv : (l : List (ℕ × QueuedOutbound)) → q.items ≡ l → Inv (dequeue_items l q).0
  unfolding dequeue_items
  dequeue_items-Inv [] e = v
  dequeue_items-Inv ((id, x) ∷ rest) e =
      let d : Distinct ((id, x) ∷ rest) = subst Distinct e v.distinct in
      record {
        bounded = omega (arith, v.bounded, ap length e);
        names = λ k. elim (Bool-cases (is_latest x.class)) [
          | inl c ↦ rw c (names_dequeued id x rest e c k)
          | inr c ↦ rw c (
              names_kept k (lookup k q.latest) q.items rest
                (λ i g. ground (arith, g, ap (lookup i) e, c)) (v.names k))
        ];
        named = λ j. elim (Bool-cases (is_latest x.class)) [
          | inl c ↦ rw c (named_dequeued id x rest e c j)
          | inr c ↦ rw c (ground (arith, v.named j, ap (lookup j) e, d.0, ==_iff id j))
        ];
        fresh = λ j. ground (arith, v.fresh j, ap (lookup j) e, d.0, ==_iff id j);
        distinct = d.1;
      }

  enqueue_at-Inv :
      (is_closed : ℕ → Bool) (class : DeliveryClass) (packet : ℕ) (o : Option CloseCause)
      → is_latest class ≡ false
      → Inv (enqueue_at is_closed class packet o q).0
  unfolding enqueue_at
  enqueue_at-Inv is_closed class packet (some cause) c = v
  enqueue_at-Inv is_closed class packet none c =
      elim (Bool-cases (ltb (length q.items) q.capacity)) [
        | inl t ↦ rw t (
            push_back-Inv (record { outbound = packet; class = class; key = 0 }) c
              (ground (arith, t)))
        | inr t ↦ rw t v
      ]

  enqueue_frame-Inv :
      (packet key : ℕ) (o : Option ℕ) → lookup key q.latest ≡ o → Inv (enqueue_frame packet key o q)
  unfolding enqueue_frame coalesce
  enqueue_frame-Inv packet key (some id) h =
      coalesce-Inv id packet key (lookup id q.items) refl (ground (arith, v.names key, h))
  enqueue_frame-Inv packet key none h = elim (Bool-cases (leb q.capacity (length q.items))) [
    | inl t ↦ rw t (replace_first-Inv packet key (first_latest q.items) h refl)
    | inr t ↦ rw t (add_frame-Inv packet key h (ground (arith, t)))
  ]

  enqueue_latest_at-Inv :
      (is_closed : ℕ → Bool) (packet key : ℕ) (o : Option CloseCause)
      → Inv (enqueue_latest_at is_closed packet key o q).0
  unfolding enqueue_latest_at
  enqueue_latest_at-Inv is_closed packet key (some cause) = v
  enqueue_latest_at-Inv is_closed packet key none =
      enqueue_frame-Inv packet key (lookup key q.latest) refl

  close_at-Inv : (cause : CloseCause) (o : Option CloseCause) → Inv (close_at cause o q)
  unfolding close_at
  close_at-Inv cause (some c) = v
  close_at-Inv cause none = record {
    bounded = v.bounded;
    names = v.names;
    named = v.named;
    fresh = v.fresh;
    distinct = v.distinct;
  }

after_turn-Inv :
    (packet : ℕ) (q : OutboundQueue) (x : Attempt) (s : System)
    → Inv q
    → Inv (after_turn packet (q, x) s).queue
after_turn-Inv packet q admitted s v = v
after_turn-Inv packet q (refused e) s v = v
after_turn-Inv packet q (waits_for n) s v = v

wake_waiter-Inv :
    (is_closed : ℕ → Bool) (n : ℕ) (o : Option Waiter) (s : System)
    → Inv s.queue
    → Inv (wake_waiter is_closed n o s).queue
unfolding wake_waiter
wake_waiter-Inv is_closed n none s v = v
wake_waiter-Inv is_closed n (some w) s v = elim (Bool-cases (w.changed == s.queue.changed)) [
  | inl t ↦ rw t v
  | inr t ↦ rw t (
      after_turn-Inv w.packet (enqueue_turn is_closed reliable_command w.packet s.queue).0
        (enqueue_turn is_closed reliable_command w.packet s.queue).1
        (record s { waiting = without_waiter n s.waiting })
        (unfold enqueue_turn in
          enqueue_at-Inv s.queue v is_closed reliable_command w.packet s.queue.closed refl))
]

receive_ready-Inv : (s : System) → Inv s.queue → Inv (record s.queue { ready = false })
receive_ready-Inv s v = record {
  bounded = v.bounded;
  names = v.names;
  named = v.named;
  fresh = v.fresh;
  distinct = v.distinct;
}

pub act-Inv :
    (is_closed : ℕ → Bool) (a : Action) (s : System) → Inv s.queue → Inv (act is_closed a s).queue
unfolding act enqueue_turn enqueue_latest try_dequeue close
act-Inv is_closed (send_event packet) s v =
    let (q, x) = enqueue_turn is_closed best_effort_event packet s.queue in
    after_turn-Inv packet q x s
      (enqueue_at-Inv s.queue v is_closed best_effort_event packet s.queue.closed refl)
act-Inv is_closed (send_command packet) s v =
    let (q, x) = enqueue_turn is_closed reliable_command packet s.queue in
    after_turn-Inv packet q x s
      (enqueue_at-Inv s.queue v is_closed reliable_command packet s.queue.closed refl)
act-Inv is_closed (send_frame packet key) s v =
    enqueue_latest_at-Inv s.queue v is_closed packet key s.queue.closed
act-Inv is_closed (wake n) s v = wake_waiter-Inv is_closed n (get_elem? s.waiting n) s v
act-Inv is_closed (give_up n) s v = v
act-Inv is_closed receive_ready s v =
    elim s.queue.ready
      as (λ b. Inv (
        System.queue (
          if b
          then record s { queue = record s.queue { ready = false }; is_awake = true }
          else s))) [ true ↦ receive_ready-Inv s v | false ↦ v ]
act-Inv is_closed dequeue s v = dequeue_items-Inv s.queue v s.queue.items refl
act-Inv is_closed (close_by cause) s v = close_at-Inv s.queue v cause s.queue.closed

run_from-Inv :
    (is_closed : ℕ → Bool) (actions : List Action) (s : System)
    → Inv s.queue
    → Inv (run is_closed actions s).queue
unfolding run
run_from-Inv is_closed [] s v = v
run_from-Inv is_closed (a ∷ rest) s v =
    run_from-Inv is_closed rest (act is_closed a s) (act-Inv is_closed a s v)

-- After any interleaving of senders and the consumer the queue has at most `capacity` packets, no element
-- twice; the index names for a key a latest frame of that key, and each latest frame is the one
-- that it names, so that a key has at most one.
pub run_queue-Inv :
    (is_closed : ℕ → Bool) (capacity : ℤ) (actions : List Action)
    → Inv (run is_closed actions (new_system capacity)).queue
run_queue-Inv is_closed capacity actions = run_from-Inv is_closed actions (new_system capacity) (
    unfold new_system new_outbound_queue in
    record {
      bounded = omega arith;
      names = λ key. refl;
      named = λ id. refl;
      fresh = λ id. refl;
      distinct = tt;
    })
