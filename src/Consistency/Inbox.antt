-- ===== src/Consistency/Inbox.antt =====
-- `MemoryInbox` of zConsistency/memory_store.go and memory_store_v2.go: which request ids are
-- being handled, and which have been. The map enters as a parameter; a call is made under the
-- inbox's lock, with the time that `time.Now()` gives in it as an argument.
pub mod Count
pub mod Admission
use z_engine.Common.{
  ◌>>=◌, ◌>>◌, ◌==◌, if◌then◌else◌, Result, ok, err, is_some, length, ℤ, pos, ltb_ℤ, leb_ℤ, ◌+ℤ◌,
  ◌-ℤ◌, ℕ, Bool, true, false, ◌&&◌, ◌||◌, Option, none, some, List, [], ◌∷◌,
}
use z_engine.Common.TypedMap.{TypedMap}
use z_engine.Consistency.Contract.{
  Time, Duration, Context, StoreError, entry_not_found, invalid_consistency_transition,
  check_context, validate_request, sub_time,
}

-- `inboxEntry`.
pub record InboxEntry : Type 0 where
  pub processed_at : Time
  pub acked : Bool

-- `MemoryInbox` over the type of its map.
pub record MemoryInbox (M : Type 0) : Type 0 where
  pub entries : M
  pub count : ℤ

-- `InboxAcceptResult` and `InboxState`, whose zero values stand beside an error only.
pub data InboxAcceptResult : Type 0 where
  accepted in_progress processed : InboxAcceptResult

pub data InboxState : Type 0 where
  state_in_progress state_processed : InboxState

module _ (map' : TypedMap InboxEntry) where
  open map' use {Map, empty, load, store, delete, range}

  abbrev pub Inbox : Type 0
  Inbox = MemoryInbox Map

  -- `NewMemoryInbox`.
  unfoldable pub new_memory_inbox : Inbox
  new_memory_inbox = record { entries = empty; count = pos 0 }

  -- A call that has passed its checks, or the error of the check with the inbox as it was.
  abbrev checked {ℓ} :
      {A : Type ℓ}
      → Inbox
      → Result StoreError (Unit {0})
      → Inbox × Result StoreError A
      → Inbox × Result StoreError A
  checked o (ok a) r = r
  checked o (err e) r = (o, err e)

  -- A new entry, which the counter counts.
  pub add_entry : Inbox → ℕ → Time → Inbox
  unfolding ◌+ℤ◌
  add_entry o request_id now = record {
    entries = store o.entries request_id (record { processed_at = now; acked = false });
    count = o.count +ℤ pos 1;
  }

  pub drop_entry : Inbox → ℕ → Inbox
  unfolding ◌-ℤ◌
  drop_entry o request_id = record {
    entries = delete o.entries request_id;
    count = o.count -ℤ pos 1;
  }

  admit : Inbox → ℕ → Time → Option InboxEntry → Inbox × Result StoreError InboxAcceptResult
  unfolding add_entry
  admit o request_id now none = (add_entry o request_id now, ok accepted)
  admit o request_id now (some entry) = (o, ok (if entry.acked then processed else in_progress))

  -- `Acquire`.
  unfoldable pub acquire : Inbox → Context → ℕ → Time → Inbox × Result StoreError InboxAcceptResult
  unfolding admit
  acquire o ctx request_id now =
      checked o (validate_request ctx request_id)
        (admit o request_id now (load o.entries request_id))

  state_of : Option InboxEntry → Result StoreError InboxState
  state_of none = err entry_not_found
  state_of (some entry) = ok (if entry.acked then state_processed else state_in_progress)

  -- `Status`.
  unfoldable pub status : Inbox → Context → ℕ → Result StoreError InboxState
  unfolding state_of
  status o ctx request_id = do validate_request ctx request_id; state_of (load o.entries request_id)

  mark : Inbox → ℕ → Time → Option InboxEntry → Inbox × Result StoreError (Unit {0})
  mark o request_id now none = (o, err entry_not_found)
  mark o request_id now (some entry) = if entry.acked then (o, ok tt) else (
    record o { entries = store o.entries request_id (record { processed_at = now; acked = true }) },
    ok tt,
  )

  -- `MarkProcessed`.
  unfoldable pub mark_processed : Inbox → Context → ℕ → Time → Inbox × Result StoreError (Unit {0})
  unfolding mark
  mark_processed o ctx request_id now =
      checked o (validate_request ctx request_id)
        (mark o request_id now (load o.entries request_id))

  give_up : Inbox → ℕ → Option InboxEntry → Inbox × Result StoreError (Unit {0})
  unfolding drop_entry
  give_up o request_id none = (o, err entry_not_found)
  give_up o request_id (some entry) =
      if entry.acked
      then (o, err invalid_consistency_transition)
      else (drop_entry o request_id, ok tt)

  -- `Abandon`.
  unfoldable pub abandon : Inbox → Context → ℕ → Inbox × Result StoreError (Unit {0})
  unfolding give_up
  abandon o ctx request_id =
      checked o (validate_request ctx request_id) (give_up o request_id (load o.entries request_id))

  -- The ids that a cleanup collects by a test, and their deletion.
  pub collected : (InboxEntry → Bool) → List (ℕ × InboxEntry) → List ℕ
  collected p [] = []
  collected p ((k, entry) ∷ es) = let rest = collected p es in if p entry then k ∷ rest else rest

  pub delete_ids : Map → List ℕ → Map
  delete_ids m [] = m
  delete_ids m (k ∷ ks) = delete_ids (delete m k) ks

  pub clean : Inbox → List ℕ → Inbox
  unfolding delete_ids ◌-ℤ◌
  clean o ids = record { entries = delete_ids o.entries ids; count = o.count -ℤ pos (length ids) }

  pub is_expired : Duration → Time → InboxEntry → Bool
  is_expired older_than now entry =
      entry.acked
      && (leb_ℤ older_than (pos 0) || ltb_ℤ older_than (sub_time now entry.processed_at))

  -- `CleanupContext`.
  unfoldable pub cleanup_context : Inbox → Context → Time → Duration → Inbox × Result StoreError ℕ
  unfolding is_expired collected clean
  cleanup_context o ctx now older_than =
      let ids = collected (is_expired older_than now) (range o.entries) in
      checked o (check_context ctx) (clean o ids, ok (length ids))

  -- `TryAccept` of the original interface; `LoadOrStore` is a load and, on a new id, a store.
  accept_new : Inbox → ℕ → Time → Option InboxEntry → Inbox × Bool
  unfolding add_entry
  accept_new o request_id now none = (add_entry o request_id now, true)
  accept_new o request_id now (some entry) = (o, false)

  unfoldable pub try_accept : Inbox → ℕ → Time → Inbox × Bool
  unfolding accept_new
  try_accept o request_id now =
      if request_id == 0 then (o, true) else accept_new o request_id now (load o.entries request_id)

  ack_entry : Inbox → ℕ → Option InboxEntry → Inbox × Bool
  ack_entry o request_id none = (o, false)
  ack_entry o request_id (some entry) =
      (record o { entries = store o.entries request_id (record entry { acked = true }) }, true)

  -- `Ack` and `IsProcessed`.
  unfoldable pub ack : Inbox → ℕ → Inbox × Bool
  unfolding ack_entry
  ack o request_id = ack_entry o request_id (load o.entries request_id)

  unfoldable pub is_processed : Inbox → ℕ → Bool
  is_processed o request_id = is_some (load o.entries request_id)

  release_entry : Inbox → ℕ → Option InboxEntry → Inbox
  unfolding drop_entry
  release_entry o request_id none = o
  release_entry o request_id (some entry) = drop_entry o request_id

  -- `Release`.
  unfoldable pub release : Inbox → ℕ → Inbox
  unfolding release_entry
  release o request_id =
      if request_id == 0 then o else release_entry o request_id (load o.entries request_id)

  pub is_older : Duration → Time → InboxEntry → Bool
  is_older older_than now entry = ltb_ℤ older_than (sub_time now entry.processed_at)

  -- `Cleanup` of the original interface, which does not ask whether an entry is processed.
  unfoldable pub cleanup : Inbox → Time → Duration → Inbox
  unfolding is_older collected clean
  cleanup o now older_than = clean o (collected (is_older older_than now) (range o.entries))
