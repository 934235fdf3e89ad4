-- ===== src/Instance/Pool.antt =====
-- zInstance/pool.go: a pool of instances that are built on demand, by key. An operation is what the
-- Go code does under the pool's lock; the functions of the application are called between them,
-- and what they come to is an argument. An entry, which both indexes of the code point to, is
-- kept in the index by id; the other has the ids. Keys and instances are numbers, and the
-- counters, `uint64`s, are taken not to wrap around.
use z_engine.Common.{
  ltb, ◌==◌, if◌then◌else◌, Result, ok, err, ℕ, ◌+◌, ◌-◌, Bool, true, false, ◌&&◌, Option, none,
  some, List, [], ◌∷◌,
}
use z_engine.Common.TypedMap.{lookup, erase}

-- `entryState`.
pub data EntryState : Type 0 where
  creating active destroying : EntryState

abbrev pub is_creating : EntryState → Bool
is_creating creating = true
is_creating _ = false

abbrev pub is_active : EntryState → Bool
is_active active = true
is_active _ = false

-- `entry`, with its id as the key of the index; a time is in nanoseconds and 0 is Go's zero time.
pub record Entry : Type 0 where
  pub generation : ℕ
  pub revision : ℕ
  pub key : ℕ
  pub inst : ℕ
  pub state : EntryState
  pub pinned : Bool
  pub reserved : ℕ
  pub empty_since : ℕ

-- `Pool`; `evicted` has the ids whose instances were evicted and closed, the newest first.
pub record Pool : Type 0 where
  pub next_id : ℕ
  pub next_generation : ℕ
  pub next_key_version : ℕ
  pub by_id : List (ℕ × Entry)
  pub by_key : List (ℕ × List ℕ)
  pub key_version : List (ℕ × ℕ)
  pub evicted : List ℕ

-- `NewPoolWithBase`; `NewPool` has the base 0.
unfoldable pub new_pool_with_base : ℕ → Pool
new_pool_with_base id_base = record {
  next_id = id_base;
  next_generation = 0;
  next_key_version = 0;
  by_id = [];
  by_key = [];
  key_version = [];
  evicted = [];
}

pub data PoolError : Type 0 where
  invalid_capacity nil_builder build_failed instance_creating instance_not_found instance_reserved :
      PoolError

abbrev or_empty : Option (List ℕ) → List ℕ
or_empty none = []
or_empty (some ids) = ids

abbrev or_zero : Option ℕ → ℕ
or_zero none = 0
or_zero (some n) = n

-- `p.byKey[key]` and `p.keyVersion[key]`, with the zero values of a missing key.
abbrev pub group : Pool → ℕ → List ℕ
group p key = or_empty (lookup key p.by_key)

abbrev pub version : Pool → ℕ → ℕ
version p key = or_zero (lookup key p.key_version)

abbrev pub is_nil : List ℕ → Bool
is_nil [] = true
is_nil (k ∷ ks) = false

-- `bumpKeyVersionLocked`.
unfoldable pub bump : ℕ → Pool → Pool
bump key p =
    let next = p.next_key_version + 1 in
    record p {
      next_key_version = next;
      key_version =
          if is_nil (group p key)
          then erase key p.key_version
          else (key, next) ∷ erase key p.key_version;
    }

-- An entry that is changed, with the new version of its key.
unfoldable pub touch : ℕ → Entry → Pool → Pool
unfolding bump
touch id e p = bump e.key (record p { by_id = (id, e) ∷ erase id p.by_id })

unfoldable pub without : ℕ → List ℕ → List ℕ
without id [] = []
without id (k ∷ ks) = let rest = without id ks in if k == id then rest else k ∷ rest

unfoldable pub set_group : ℕ → List ℕ → List (ℕ × List ℕ) → List (ℕ × List ℕ)
set_group key [] m = erase key m
set_group key (k ∷ ks) m = (key, k ∷ ks) ∷ erase key m

-- `removeLocked` and the new version of the key.
unfoldable pub drop_entry : ℕ → Entry → Pool → Pool
unfolding bump set_group without
drop_entry id e p = bump e.key (record p {
  by_id = erase id p.by_id;
  by_key = set_group e.key (without id (group p e.key)) p.by_key;
})

-- The entry that `newEntryLocked` makes.
abbrev pub placeholder : ℕ → Bool → ℕ → Pool → Entry
placeholder key pinned reserved p = record {
  generation = p.next_generation + 1;
  revision = 0;
  key = key;
  inst = 0;
  state = creating;
  pinned = pinned;
  reserved = reserved;
  empty_since = 0;
}

-- `newEntryLocked`; the id of the entry is the new `next_id`.
unfoldable pub new_entry : ℕ → Bool → ℕ → Pool → Pool
unfolding bump
new_entry key pinned reserved p =
    let id = p.next_id + 1 in
    bump key (record p {
      next_id = id;
      next_generation = p.next_generation + 1;
      by_id = (id, placeholder key pinned reserved p) ∷ erase id p.by_id;
      by_key = (key, id ∷ without id (group p key)) ∷ erase key p.by_key;
    })

-- The entry that a creator holds is the one of its id, and is still being created.
abbrev pub is_placeholder : ℕ → Entry → Bool
is_placeholder generation e = e.generation == generation && is_creating e.state

unfoldable pub finish_entry : ℕ → ℕ → ℕ → Option Entry → Pool → Option Pool
unfolding touch
finish_entry id generation inst none p = none
finish_entry id generation inst (some e) p =
    if is_placeholder generation e
    then some (touch id (record e { inst = inst; state = active; revision = e.revision + 1 }) p)
    else none

-- `finishCreation`; `none` is its panic.
unfoldable pub finish_creation : ℕ → ℕ → ℕ → Pool → Option Pool
unfolding finish_entry
finish_creation id generation inst p = finish_entry id generation inst (lookup id p.by_id) p

unfoldable pub fail_entry : ℕ → ℕ → Option Entry → Pool → Pool
unfolding drop_entry
fail_entry id generation none p = p
fail_entry id generation (some e) p = if is_placeholder generation e then drop_entry id e p else p

-- `failCreation`.
unfoldable pub fail_creation : ℕ → ℕ → Pool → Pool
unfolding fail_entry
fail_creation id generation p = fail_entry id generation (lookup id p.by_id) p

-- One reservation more.
abbrev pub one_more : Entry → Entry
one_more e = record e { reserved = e.reserved + 1; empty_since = 0; revision = e.revision + 1 }

unfoldable pub reserve_entry : ℕ → Option Entry → Pool → Pool × Result PoolError (Unit {0})
unfolding touch
reserve_entry id none p = (p, err instance_not_found)
reserve_entry id (some e) p = elim e.state [
  | destroying ↦ (p, err instance_not_found)
  | creating ↦ (p, err instance_creating)
  | active ↦ (touch id (one_more e) p, ok tt)
]

-- `ReserveChecked`.
unfoldable pub reserve_checked : ℕ → Pool → Pool × Result PoolError (Unit {0})
unfolding reserve_entry
reserve_checked id p = reserve_entry id (lookup id p.by_id) p

unfoldable pub release_entry : ℕ → Option Entry → Pool → Pool
unfolding touch
release_entry id none p = p
release_entry id (some e) p =
    if is_active e.state && ltb 0 e.reserved
    then touch id (record e { reserved = e.reserved - 1; revision = e.revision + 1 }) p
    else p

-- `Release`.
unfoldable pub release : ℕ → Pool → Pool
unfolding release_entry
release id p = release_entry id (lookup id p.by_id) p

-- The removal of an entry, whose instance is then evicted and closed.
unfoldable pub evict_entry : ℕ → Entry → Pool → Pool
unfolding drop_entry
evict_entry id e p = let q = drop_entry id e p in record q { evicted = id ∷ q.evicted }

unfoldable pub destroy_entry : ℕ → Option Entry → Pool → Pool × Result PoolError (Unit {0})
unfolding evict_entry
destroy_entry id none p = (p, ok tt)
destroy_entry id (some e) p =
    if is_creating e.state
    then (p, err instance_creating)
    else if ltb 0 e.reserved
    then (p, err instance_reserved)
    else (evict_entry id e p, ok tt)

-- `DestroyChecked`.
unfoldable pub destroy_checked : ℕ → Pool → Pool × Result PoolError (Unit {0})
unfolding destroy_entry
destroy_checked id p = destroy_entry id (lookup id p.by_id) p
