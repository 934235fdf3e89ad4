-- ===== src/Consistency/Outbox/Purge.antt =====
-- zConsistency/memory_store_v2.go, `PurgeDeadLettersContext`: the two passes of the purge.
use z_engine.Common.{
  ◌==◌, if◌then◌else◌, ℕ, ◌≡◌, refl, Bool, false, ◌||◌, Option, none, some, List, [], ◌∷◌, arith,
}
use z_engine.Common.TypedMap.{TypedMap, lookup, Distinct}
use z_engine.Consistency.Contract.{Time, Duration, OutboxMessage, live_context, check_context}
use z_engine.Consistency.Outbox.{Outbox, is_purged, purged_ids, delete_all, purge_dead_letters}

abbrev mem : ℕ → List ℕ → Bool
mem j [] = false
mem j (k ∷ ks) = (k == j) || mem j ks

module _ (map' : TypedMap OutboxMessage) where
  open map' use {Map, load, delete, range, load-delete, lookup-range, range-Distinct}

  -- What a purge should leave of an entry: all but a message that it is to collect.
  abbrev pub kept : Duration → Time → Option OutboxMessage → Option OutboxMessage
  kept older_than now none = none
  kept older_than now (some m) = if is_purged map' older_than now m then none else some m

  load-delete_all :
      (m : Map) (ks : List ℕ) (j : ℕ)
      → load (delete_all map' m ks) j ≡ (if mem j ks then none else load m j)
  unfolding delete_all
  load-delete_all m [] j = refl
  load-delete_all m (k ∷ ks) j =
      ground (arith, load-delete_all (delete m k) ks j, load-delete m k j)

  purged_of : Duration → Time → Option OutboxMessage → Bool
  purged_of older_than now none = false
  purged_of older_than now (some m) = is_purged map' older_than now m

  mem-purged_ids :
      (older_than : Duration) (now : Time) (es : List (ℕ × OutboxMessage)) (d : Distinct es) (j : ℕ)
      → mem j (purged_ids map' older_than now es) ≡ purged_of older_than now (lookup j es)
  unfolding purged_ids purged_of
  mem-purged_ids older_than now [] d j = refl
  mem-purged_ids older_than now ((k, m) ∷ es) d j =
      ground (arith, mem-purged_ids older_than now es d.1 j)

  -- A purge with a live context succeeds, and leaves under every id what the outbox held there,
  -- less the dead letters that are old enough, or all of them where the age is not positive.
  pub purge_dead_letters_lem :
      (o : Outbox map') (now : Time) (older_than : Duration) (j : ℕ)
      → load (purge_dead_letters map' o live_context now older_than).0.messages j
        ≡ kept older_than now (load o.messages j)
  unfolding purge_dead_letters check_context purged_of
  purge_dead_letters_lem o now older_than j = ground (
    arith,
    load-delete_all o.messages (purged_ids map' older_than now (range o.messages)) j,
    mem-purged_ids older_than now (range o.messages) (range-Distinct o.messages) j,
    lookup-range o.messages j,
  )
