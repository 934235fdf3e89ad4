-- ===== src/Consistency/Inbox/Count.antt =====
-- The counter of a `MemoryInbox` is the number of its entries.
use z_engine.Common.{
  ◌==◌, ==-refl, Result, ok, err, is_some, length, pos, ℕ, ◌+◌, ◌≡◌, refl, Bool, true, false, ◌||◌,
  Option, none, some, List, [], ◌∷◌, arith,
}
use z_engine.Common.TypedMap.{TypedMap, lookup, Distinct}
use z_engine.Common.Cardinality.{size, size-empty, size-delete, size-store_known, size-store_new}
use z_engine.Consistency.Contract.{Time, StoreError, validate_request, check_context}
use z_engine.Consistency.Inbox.{
  InboxEntry, Inbox, new_memory_inbox, checked, add_entry, drop_entry, admit, acquire, mark,
  mark_processed, give_up, abandon, cleanup_context, clean, delete_ids, collected, is_expired,
  is_older, accept_new, try_accept, ack_entry, ack, release_entry, release, cleanup,
}
use z_engine.Consistency.Inbox.Admission.{
  Call, acquire_call, mark_call, abandon_call, cleanup_context_call, try_accept_call, ack_call,
  release_call, cleanup_call, call, run,
}

module _ (map' : TypedMap InboxEntry) where
  open map' use {
    Map, load, store, delete, range, load-store, load-delete, lookup-range, range-Distinct,
  }

  abbrev IsCounted : Inbox map' → Type 0
  IsCounted o = o.count ≡ pos (size map' o.entries)

  checked-IsCounted :
      {A : Type 0} (o : Inbox map') (r : Result StoreError (Unit {0}))
      (p : Inbox map' × Result StoreError A)
      → IsCounted o
      → IsCounted p.0
      → IsCounted (checked map' o r p).0
  checked-IsCounted o (ok a) p h k = k
  checked-IsCounted o (err e) p h k = h

  add_entry-IsCounted :
      (o : Inbox map') (k : ℕ) (now : Time)
      → load o.entries k ≡ none
      → IsCounted o
      → IsCounted (add_entry map' o k now)
  unfolding add_entry
  add_entry-IsCounted o k now e h =
      ground
        (arith, size-store_new map' o.entries k (record { processed_at = now; acked = false }) e)

  drop_entry-IsCounted :
      (o : Inbox map') (k : ℕ)
      → is_some (load o.entries k) ≡ true
      → IsCounted o
      → IsCounted (drop_entry map' o k)
  unfolding drop_entry
  drop_entry-IsCounted o k e h = ground (arith, size-delete map' o.entries k e)

  admit-IsCounted :
      (o : Inbox map') (k : ℕ) (now : Time) (f : Option InboxEntry)
      → load o.entries k ≡ f
      → IsCounted o
      → IsCounted (admit map' o k now f).0
  unfolding admit
  admit-IsCounted o k now none e h = add_entry-IsCounted o k now e h
  admit-IsCounted o k now (some entry) e h = h

  accept_new-IsCounted :
      (o : Inbox map') (k : ℕ) (now : Time) (f : Option InboxEntry)
      → load o.entries k ≡ f
      → IsCounted o
      → IsCounted (accept_new map' o k now f).0
  unfolding accept_new
  accept_new-IsCounted o k now none e h = add_entry-IsCounted o k now e h
  accept_new-IsCounted o k now (some entry) e h = h

  mark-IsCounted :
      (o : Inbox map') (k : ℕ) (now : Time) (f : Option InboxEntry)
      → load o.entries k ≡ f
      → IsCounted o
      → IsCounted (mark map' o k now f).0
  unfolding mark
  mark-IsCounted o k now none e h = h
  mark-IsCounted o k now (some entry) e h = ground (
    arith,
    size-store_known map' o.entries k (record { processed_at = now; acked = true }) (ground arith),
  )

  ack_entry-IsCounted :
      (o : Inbox map') (k : ℕ) (f : Option InboxEntry)
      → load o.entries k ≡ f
      → IsCounted o
      → IsCounted (ack_entry map' o k f).0
  unfolding ack_entry
  ack_entry-IsCounted o k none e h = h
  ack_entry-IsCounted o k (some entry) e h =
      ground
        (arith, size-store_known map' o.entries k (record entry { acked = true }) (ground arith))

  give_up-IsCounted :
      (o : Inbox map') (k : ℕ) (f : Option InboxEntry)
      → load o.entries k ≡ f
      → IsCounted o
      → IsCounted (give_up map' o k f).0
  unfolding give_up
  give_up-IsCounted o k none e h = h
  give_up-IsCounted o k (some entry) e h = ground (arith, drop_entry-IsCounted o k (ground arith) h)

  release_entry-IsCounted :
      (o : Inbox map') (k : ℕ) (f : Option InboxEntry)
      → load o.entries k ≡ f
      → IsCounted o
      → IsCounted (release_entry map' o k f)
  unfolding release_entry
  release_entry-IsCounted o k none e h = h
  release_entry-IsCounted o k (some entry) e h = drop_entry-IsCounted o k (ground arith) h

  abbrev mem : ℕ → List ℕ → Bool
  mem j [] = false
  mem j (k ∷ ks) = (k == j) || mem j ks

  -- Ids that are all in a map, none twice.
  abbrev Present : Map → List ℕ → Type 0
  Present m [] = Unit
  Present m (k ∷ ks) = (is_some (load m k) ≡ true) × (mem k ks ≡ false) × Present m ks

  delete-Present :
      (m : Map) (k : ℕ) (ks : List ℕ) → mem k ks ≡ false → Present m ks → Present (delete m k) ks
  delete-Present m k [] n h = tt
  delete-Present m k (j ∷ ks) n h =
      (ground (arith, load-delete m k j), h.1, delete-Present m k ks (ground arith) h.2)

  size-delete_ids :
      (m : Map) (ks : List ℕ)
      → Present m ks
      → size map' (delete_ids map' m ks) + length ks ≡ size map' m
  unfolding delete_ids
  size-delete_ids m [] h = omega arith
  size-delete_ids m (k ∷ ks) h = omega (
    arith,
    size-delete_ids (delete m k) ks (delete-Present m k ks h.1 h.2),
    size-delete map' m k h.0,
  )

  mem-collected :
      (p : InboxEntry → Bool) (es : List (ℕ × InboxEntry)) (j : ℕ)
      → lookup j es ≡ none
      → mem j (collected map' p es) ≡ false
  unfolding collected
  mem-collected p [] j h = refl
  mem-collected p ((k, entry) ∷ es) j h = ground (arith, mem-collected p es j)

  collected-Present :
      (m : Map) (p : InboxEntry → Bool) (es : List (ℕ × InboxEntry))
      → Distinct es
      → ((j : ℕ) → is_some (lookup j es) ≡ true → is_some (load m j) ≡ true)
      → Present m (collected map' p es)
  unfolding collected
  collected-Present m p [] d f = tt
  collected-Present m p ((k, entry) ∷ es) d f = ground (
    arith,
    f k (ground (arith, ==-refl k)),
    mem-collected p es k d.0,
    collected-Present m p es d.1 (λ j h. f j (ground arith)),
  )

  clean-IsCounted :
      (o : Inbox map') (p : InboxEntry → Bool)
      → IsCounted o
      → IsCounted (clean map' o (collected map' p (range o.entries)))
  unfolding clean
  clean-IsCounted o p h =
      let ids = collected map' p (range o.entries) in
      ground (
        arith,
        size-delete_ids o.entries ids (
            collected-Present o.entries p (range o.entries) (range-Distinct o.entries)
              (λ j e. ground (arith, lookup-range o.entries j))),
      )

  call-IsCounted : (o : Inbox map') (c : Call) → IsCounted o → IsCounted (call map' o c)
  unfolding call acquire mark_processed abandon ack try_accept release cleanup cleanup_context
  call-IsCounted o (acquire_call ctx k now) h =
      checked-IsCounted o (validate_request ctx k) _ h
        (admit-IsCounted o k now (load o.entries k) refl h)
  call-IsCounted o (mark_call ctx k now) h =
      checked-IsCounted o (validate_request ctx k) _ h
        (mark-IsCounted o k now (load o.entries k) refl h)
  call-IsCounted o (abandon_call ctx k) h =
      checked-IsCounted o (validate_request ctx k) _ h
        (give_up-IsCounted o k (load o.entries k) refl h)
  call-IsCounted o (cleanup_context_call ctx now older_than) h =
      checked-IsCounted o (check_context ctx) _ h
        (clean-IsCounted o (is_expired map' older_than now) h)
  call-IsCounted o (try_accept_call k now) h =
      ground (arith, accept_new-IsCounted o k now (load o.entries k) refl h)
  call-IsCounted o (ack_call k) h = ack_entry-IsCounted o k (load o.entries k) refl h
  call-IsCounted o (release_call k) h =
      ground (arith, release_entry-IsCounted o k (load o.entries k) refl h)
  call-IsCounted o (cleanup_call now older_than) h =
      clean-IsCounted o (is_older map' older_than now) h

  run-IsCounted : (o : Inbox map') (cs : List Call) → IsCounted o → IsCounted (run map' o cs)
  unfolding run
  run-IsCounted o [] h = h
  run-IsCounted o (c ∷ cs) h = run-IsCounted (call map' o c) cs (call-IsCounted o c h)

  -- After any calls on a new inbox, its counter is the number of its entries; the counter is taken
  -- as an integer without bounds.
  count_of_entries :
      (cs : List Call)
      → let o = run map' (new_memory_inbox map') cs in o.count ≡ pos (length (range o.entries))
  unfolding new_memory_inbox
  count_of_entries cs = run-IsCounted (new_memory_inbox map') cs (ground (arith, size-empty map'))
