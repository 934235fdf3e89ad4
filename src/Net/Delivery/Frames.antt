-- ===== src/Net/Delivery/Frames.antt =====
-- What becomes of a latest frame in zNet/delivery.go.
use z_engine.Common.{
  leb, ==-refl, Bool-cases, length, ℤ, ℕ, ◌≤◌, ◌≡◌, refl, sym, subst, ◌⊎◌, inl, inr, Bool, true,
  Option, none, some, List, arith,
}
use z_engine.Common.TypedMap.{lookup}
use z_engine.Net.Delivery.{
  QueuedOutbound, OutboundQueue, push_back, first_latest, frame, coalesce, replace_first, add_frame,
  enqueue_frame, enqueue_latest, enqueue_latest_at, set_outbound,
}
use z_engine.Net.Delivery.Senders.{new_system, Action, run}
use z_engine.Net.Delivery.Index.{Inv, run_queue-Inv}
use z_engine.Net.Delivery.Elements.{is_frame_of, lookup-put, lookup-push, first_latest_lem}

-- The frame of the key, which the index names, has the packet.
pub record Queued (packet key : ℕ) (q : OutboundQueue) : Type 0 where
  pub element : ℕ
  pub value : QueuedOutbound
  pub named : lookup key q.latest ≡ some element
  pub found : lookup element q.items ≡ some value
  pub is_frame : is_frame_of key (some value) ≡ true
  pub newest : value.outbound ≡ packet

-- The queue is as it was, and has no room and no latest frame.
abbrev pub Dropped : OutboundQueue → OutboundQueue → Type 0
Dropped q r = (r ≡ q) × (q.capacity ≤ length q.items) × (first_latest q.items ≡ none)

module _ (q : OutboundQueue) (v : Inv q) (packet key : ℕ) where
  coalesce-Queued :
      (id : ℕ) (o : Option QueuedOutbound)
      → lookup key q.latest ≡ some id
      → lookup id q.items ≡ o
      → is_frame_of key o ≡ true
      → Queued packet key (record q { items = set_outbound id packet o q.items; ready = true })
  coalesce-Queued id none n l f = ground arith
  coalesce-Queued id (some x) n l f = record {
    element = id;
    value = record x { outbound = packet };
    named = n;
    found =
        ground (arith, lookup-put id (record x { outbound = packet }) id q.items, l, ==-refl id);
    is_frame = f;
    newest = refl;
  }

  replace_first-Queued :
      (o : Option (ℕ × QueuedOutbound))
      → first_latest q.items ≡ o
      → q.capacity ≤ length q.items
      → Queued packet key (replace_first packet key o q) ⊎ Dropped q (replace_first packet key o q)
  unfolding replace_first
  replace_first-Queued none f b = inr (refl, b, f)
  replace_first-Queued (some (id, x)) f b =
      let (l, c) = first_latest_lem q.items id x v.distinct f in
      inl (record {
        element = id;
        value = frame packet key;
        named = simp (==-refl key) refl;
        found = ground (arith, lookup-put id (frame packet key) id q.items, l, ==-refl id);
        is_frame = ground (arith, ==-refl key);
        newest = refl;
      })

  add_frame-Queued : Queued packet key (add_frame packet key q)
  unfolding add_frame push_back
  add_frame-Queued = record {
    element = q.next_element;
    value = frame packet key;
    named = simp (==-refl key) refl;
    found = ground (
      arith,
      lookup-push q.next_element (frame packet key) q.next_element q.items,
      v.fresh q.next_element,
      ==-refl q.next_element,
    );
    is_frame = ground (arith, ==-refl key);
    newest = refl;
  }

  enqueue_frame-Queued :
      (o : Option ℕ)
      → lookup key q.latest ≡ o
      → Queued packet key (enqueue_frame packet key o q) ⊎ Dropped q (enqueue_frame packet key o q)
  unfolding enqueue_frame coalesce
  enqueue_frame-Queued (some id) n =
      inl (coalesce-Queued id (lookup id q.items) n refl (ground (arith, v.names key, n)))
  enqueue_frame-Queued none n = elim (Bool-cases (leb q.capacity (length q.items))) [
    | inl t ↦ rw t (replace_first-Queued (first_latest q.items) refl (ground (arith, t)))
    | inr t ↦ rw t (inl add_frame-Queued)
  ]

-- `enqueueLatest` on an open queue, after any interleaving of calls, makes the packet the value of the
-- latest frame of its key, which the index names; or it leaves the queue as it is, and then the
-- queue has no room and holds no latest frame.
pub enqueue_latest-Queued :
    (is_closed : ℕ → Bool) (capacity : ℤ) (actions : List Action) (packet key : ℕ)
    → (let q = (run is_closed actions (new_system capacity)).queue in
        let r = (enqueue_latest is_closed packet key q).0 in
        q.closed ≡ none → Queued packet key r ⊎ Dropped q r)
unfolding enqueue_latest enqueue_latest_at
enqueue_latest-Queued is_closed capacity actions packet key o =
    let q = (run is_closed actions (new_system capacity)).queue in
    let x =
      enqueue_frame-Queued q (run_queue-Inv is_closed capacity actions) packet key
        (lookup key q.latest) refl in
    subst
      (λ c.
        Queued packet key (enqueue_latest_at is_closed packet key c q).0
        ⊎ Dropped q (enqueue_latest_at is_closed packet key c q).0)
      (sym o) x
