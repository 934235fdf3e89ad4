-- ===== src/Consistency/Inbox/Admission.antt =====
-- `MemoryInbox`: who gets a request, over any sequence of calls.
use z_engine.Common.{
  ◌==◌, ==-refl, Result, ok, err, is_some, All, ℕ, ◌≡◌, refl, ◌≢◌, Bool, true, false, not, Option,
  none, some, List, [], ◌∷◌, arith,
}
use z_engine.Common.TypedMap.{TypedMap}
use z_engine.Consistency.Contract.{
  Time, Duration, Context, StoreError, validate_request, check_context,
}
use z_engine.Consistency.Inbox.{
  InboxEntry, Inbox, accepted, processed, state_processed, checked, add_entry, drop_entry, admit,
  acquire, state_of, status, mark, mark_processed, give_up, abandon, cleanup_context, accept_new,
  try_accept, ack_entry, ack, release_entry, release, cleanup,
}

-- The calls that change an inbox, with the times that they read.
pub data Call : Type 0 where
  acquire_call : Context → ℕ → Time → Call
  mark_call : Context → ℕ → Time → Call
  abandon_call : Context → ℕ → Call
  cleanup_context_call : Context → Time → Duration → Call
  try_accept_call : ℕ → Time → Call
  ack_call release_call : ℕ → Call
  cleanup_call : Time → Duration → Call

module _ (map' : TypedMap InboxEntry) where
  open map' use {Map, load, store, delete, load-store, load-delete, range}

  unfoldable pub call : Inbox map' → Call → Inbox map'
  call o (acquire_call ctx k now) = (acquire map' o ctx k now).0
  call o (mark_call ctx k now) = (mark_processed map' o ctx k now).0
  call o (abandon_call ctx k) = (abandon map' o ctx k).0
  call o (cleanup_context_call ctx now older_than) = (cleanup_context map' o ctx now older_than).0
  call o (try_accept_call k now) = (try_accept map' o k now).0
  call o (ack_call k) = (ack map' o k).0
  call o (release_call k) = release map' o k
  call o (cleanup_call now older_than) = cleanup map' o now older_than

  unfoldable pub run : Inbox map' → List Call → Inbox map'
  run o [] = o
  run o (c ∷ cs) = run (call o c) cs

  -- The calls that may take the entry of a request away: its release and a cleanup. `Abandon`
  -- may, as long as the request is not processed.
  abbrev pub spares : ℕ → Call → Bool
  spares j (release_call k) = not (k == j)
  spares j (cleanup_context_call ctx now older_than) = false
  spares j (cleanup_call now older_than) = false
  spares j c = true

  abbrev pub spares_unprocessed : ℕ → Call → Bool
  spares_unprocessed j (abandon_call ctx k) = not (k == j)
  spares_unprocessed j c = spares j c

  abbrev is_known : Option InboxEntry → Bool
  is_known o = is_some o

  abbrev is_done : Option InboxEntry → Bool
  is_done none = false
  is_done (some e) = e.acked

  -- A test of what is stored under a request that fails on nothing and holds of a processed entry.
  record IsTest (P : Option InboxEntry → Bool) : Type 0 where
    absent : P none ≡ false
    done : (e : InboxEntry) → e.acked ≡ true → P (some e) ≡ true

  known-IsTest : IsTest is_known
  known-IsTest = record { absent = refl; done = λ e h. refl }

  done-IsTest : IsTest is_done
  done-IsTest = record { absent = refl; done = λ e h. h }

  module _ (P : Option InboxEntry → Bool) (t : IsTest P) where
    -- `P` holds of what an inbox has under a request.
    abbrev Holds : Inbox map' → ℕ → Type 0
    Holds o j = P (load o.entries j) ≡ true

    checked-Holds :
        {A : Type 0} (o : Inbox map') (r : Result StoreError (Unit {0}))
        (p : Inbox map' × Result StoreError A) (j : ℕ)
        → Holds o j
        → Holds p.0 j
        → Holds (checked map' o r p).0 j
    checked-Holds o (ok a) p j h k = k
    checked-Holds o (err e) p j h k = h

    add_entry-Holds :
        (o : Inbox map') (k : ℕ) (now : Time) (j : ℕ)
        → load o.entries k ≡ none
        → Holds o j
        → Holds (add_entry map' o k now) j
    unfolding add_entry
    add_entry-Holds o k now j e h =
        ground
          (arith, load-store o.entries k (record { processed_at = now; acked = false }) j, t.absent)

    admit-Holds :
        (o : Inbox map') (k : ℕ) (now : Time) (f : Option InboxEntry) (j : ℕ)
        → load o.entries k ≡ f
        → Holds o j
        → Holds (admit map' o k now f).0 j
    unfolding admit
    admit-Holds o k now none j e h = add_entry-Holds o k now j e h
    admit-Holds o k now (some entry) j e h = h

    accept_new-Holds :
        (o : Inbox map') (k : ℕ) (now : Time) (f : Option InboxEntry) (j : ℕ)
        → load o.entries k ≡ f
        → Holds o j
        → Holds (accept_new map' o k now f).0 j
    unfolding accept_new
    accept_new-Holds o k now none j e h = add_entry-Holds o k now j e h
    accept_new-Holds o k now (some entry) j e h = h

    mark-Holds :
        (o : Inbox map') (k : ℕ) (now : Time) (f : Option InboxEntry) (j : ℕ)
        → Holds o j
        → Holds (mark map' o k now f).0 j
    unfolding mark
    mark-Holds o k now none j h = h
    mark-Holds o k now (some entry) j h =
        let e : InboxEntry = record { processed_at = now; acked = true } in
        ground (arith, load-store o.entries k e j, t.done e refl)

    ack_entry-Holds :
        (o : Inbox map') (k : ℕ) (f : Option InboxEntry) (j : ℕ)
        → Holds o j
        → Holds (ack_entry map' o k f).0 j
    unfolding ack_entry
    ack_entry-Holds o k none j h = h
    ack_entry-Holds o k (some entry) j h =
        let e : InboxEntry = record entry { acked = true } in
        ground (arith, load-store o.entries k e j, t.done e refl)

    drop_entry-Holds :
        (o : Inbox map') (k j : ℕ) → (k == j) ≡ false → Holds o j → Holds (drop_entry map' o k) j
    unfolding drop_entry
    drop_entry-Holds o k j n h = ground (arith, load-delete o.entries k j)

    release_entry-Holds :
        (o : Inbox map') (k : ℕ) (f : Option InboxEntry) (j : ℕ)
        → (k == j) ≡ false
        → Holds o j
        → Holds (release_entry map' o k f) j
    unfolding release_entry
    release_entry-Holds o k none j n h = h
    release_entry-Holds o k (some entry) j n h = drop_entry-Holds o k j n h

    release-Holds :
        (o : Inbox map') (k j : ℕ) → (k == j) ≡ false → Holds o j → Holds (release map' o k) j
    unfolding release
    release-Holds o k j n h = ground (arith, release_entry-Holds o k (load o.entries k) j n h)

    give_up-Holds :
        (o : Inbox map') (k : ℕ) (f : Option InboxEntry) (j : ℕ)
        → (k == j) ≡ false
        → Holds o j
        → Holds (give_up map' o k f).0 j
    unfolding give_up
    give_up-Holds o k none j n h = h
    give_up-Holds o k (some entry) j n h = ground (arith, drop_entry-Holds o k j n h)

    try_accept-Holds :
        (o : Inbox map') (k : ℕ) (now : Time) (j : ℕ)
        → Holds o j
        → Holds (try_accept map' o k now).0 j
    unfolding try_accept
    try_accept-Holds o k now j h =
        ground (arith, accept_new-Holds o k now (load o.entries k) j refl h)

    call-Holds :
        (o : Inbox map') (c : Call) (j : ℕ)
        → spares_unprocessed j c ≡ true
        → Holds o j
        → Holds (call o c) j
    unfolding call acquire mark_processed abandon ack
    call-Holds o (acquire_call ctx k now) j n h =
        checked-Holds o (validate_request ctx k) _ j h
          (admit-Holds o k now (load o.entries k) j refl h)
    call-Holds o (mark_call ctx k now) j n h =
        checked-Holds o (validate_request ctx k) _ j h (mark-Holds o k now (load o.entries k) j h)
    call-Holds o (abandon_call ctx k) j n h =
        checked-Holds o (validate_request ctx k) _ j h
          (give_up-Holds o k (load o.entries k) j (ground arith) h)
    call-Holds o (cleanup_context_call ctx now older_than) j n h = ground arith
    call-Holds o (try_accept_call k now) j n h = try_accept-Holds o k now j h
    call-Holds o (ack_call k) j n h = ack_entry-Holds o k (load o.entries k) j h
    call-Holds o (release_call k) j n h = release-Holds o k j (ground arith) h
    call-Holds o (cleanup_call now older_than) j n h = ground arith

    run-Holds :
        (o : Inbox map') (cs : List Call) (j : ℕ)
        → All (λ c. spares_unprocessed j c ≡ true) cs
        → Holds o j
        → Holds (run o cs) j
    unfolding run
    run-Holds o [] j n h = h
    run-Holds o (c ∷ cs) j n h = run-Holds (call o c) cs j n.1 (call-Holds o c j n.0 h)

  -- Nothing but a release and a cleanup takes the entry of a processed request.
  give_up-done :
      (o : Inbox map') (k : ℕ) (f : Option InboxEntry) (j : ℕ)
      → load o.entries k ≡ f
      → is_done (load o.entries j) ≡ true
      → is_done (load (give_up map' o k f).0.entries j) ≡ true
  unfolding give_up drop_entry
  give_up-done o k none j e h = h
  give_up-done o k (some entry) j e h = ground (arith, load-delete o.entries k j)

  call-done :
      (o : Inbox map') (c : Call) (j : ℕ)
      → spares j c ≡ true
      → is_done (load o.entries j) ≡ true
      → is_done (load (call o c).entries j) ≡ true
  unfolding call abandon
  call-done o (abandon_call ctx k) j n h =
      checked-Holds is_done done-IsTest o (validate_request ctx k) _ j h
        (give_up-done o k (load o.entries k) j refl h)
  call-done o (acquire_call ctx k now) j n h =
      call-Holds is_done done-IsTest o (acquire_call ctx k now) j refl h
  call-done o (mark_call ctx k now) j n h =
      call-Holds is_done done-IsTest o (mark_call ctx k now) j refl h
  call-done o (cleanup_context_call ctx now older_than) j n h = ground arith
  call-done o (try_accept_call k now) j n h =
      call-Holds is_done done-IsTest o (try_accept_call k now) j refl h
  call-done o (ack_call k) j n h = call-Holds is_done done-IsTest o (ack_call k) j refl h
  call-done o (release_call k) j n h = call-Holds is_done done-IsTest o (release_call k) j n h
  call-done o (cleanup_call now older_than) j n h = ground arith

  run-done :
      (o : Inbox map') (cs : List Call) (j : ℕ)
      → All (λ c. spares j c ≡ true) cs
      → is_done (load o.entries j) ≡ true
      → is_done (load (run o cs).entries j) ≡ true
  unfolding run
  run-done o [] j n h = h
  run-done o (c ∷ cs) j n h = run-done (call o c) cs j n.1 (call-done o c j n.0 h)

  acquire-accepted :
      (o : Inbox map') (ctx : Context) (k : ℕ) (now : Time)
      → (acquire map' o ctx k now).1 ≡ ok accepted
      → (is_known (load (acquire map' o ctx k now).0.entries k) ≡ true) × ((k == 0) ≡ false)
  unfolding acquire admit add_entry validate_request check_context
  acquire-accepted o ctx k now h =
      ground
        (arith, load-store o.entries k (record { processed_at = now; acked = false }) k, ==-refl k)

  known-refuses :
      (o : Inbox map') (ctx : Context) (k : ℕ) (now : Time)
      → is_known (load o.entries k) ≡ true
      → (k == 0) ≡ false
      → ((acquire map' o ctx k now).1 ≢ ok accepted) × ((try_accept map' o k now).1 ≡ false)
  unfolding acquire admit try_accept accept_new validate_request check_context
  known-refuses o ctx k now h n = (ground arith, ground arith)

  -- A request that `Acquire` has accepted is not accepted again, by `Acquire` or by `TryAccept`,
  -- after any calls none of which is a cleanup, or a release or an abandonment of that request.
  pub accepted_once :
      (o : Inbox map') (ctx later : Context) (k : ℕ) (now moment : Time) (cs : List Call)
      → (acquire map' o ctx k now).1 ≡ ok accepted
      → All (λ c. spares_unprocessed k c ≡ true) cs
      → let p = run (acquire map' o ctx k now).0 cs in
        ((acquire map' p later k moment).1 ≢ ok accepted) × ((try_accept map' p k moment).1 ≡ false)
  accepted_once o ctx later k now moment cs h n =
      let a = acquire-accepted o ctx k now h in
      known-refuses (run (acquire map' o ctx k now).0 cs) later k moment
        (run-Holds is_known known-IsTest (acquire map' o ctx k now).0 cs k n a.0) a.1

  status-done :
      (o : Inbox map') (ctx : Context) (k : ℕ)
      → status map' o ctx k ≡ ok state_processed
      → (is_done (load o.entries k) ≡ true) × (validate_request ctx k ≡ ok tt)
  unfolding status state_of
  status-done o ctx k h = ground arith

  done-status :
      (o : Inbox map') (ctx : Context) (k : ℕ) (now : Time)
      → is_done (load o.entries k) ≡ true
      → validate_request ctx k ≡ ok tt
      → (status map' o ctx k ≡ ok state_processed) × (acquire map' o ctx k now ≡ (o, ok processed))
  unfolding status state_of acquire admit
  done-status o ctx k now h v = (ground arith, ground arith)

  -- A processed request stays processed, and is so reported by `Status` and by `Acquire`, after
  -- any calls, abandonments included, none of which is a cleanup or a release of that request.
  pub processed_for_good :
      (o : Inbox map') (ctx : Context) (k : ℕ) (now : Time) (cs : List Call)
      → status map' o ctx k ≡ ok state_processed
      → All (λ c. spares k c ≡ true) cs
      → (status map' (run o cs) ctx k ≡ ok state_processed)
        × (acquire map' (run o cs) ctx k now ≡ (run o cs, ok processed))
  processed_for_good o ctx k now cs h n =
      let d = status-done o ctx k h in done-status (run o cs) ctx k now (run-done o cs k n d.0) d.1
