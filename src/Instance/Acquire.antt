-- ===== src/Instance/Acquire.antt =====
-- `AcquireChecked`, `AddChecked` and `AddReservedChecked` of zInstance/pool.go, and what they observe of
-- the pool. What an instance answers of its occupants is an argument, as a capacity is, and both
-- are taken not to be negative; their sums are taken not to overflow.
use z_engine.Common.{
  ltb, ◌==◌, if◌then◌else◌, ℕ, ◌+◌, Bool, true, false, ◌&&◌, ◌||◌, Option, none, some, List, [],
  ◌∷◌,
}
use z_engine.Common.TypedMap.{lookup, erase}
use z_engine.Instance.Pool.{
  creating, active, destroying, is_active, Entry, Pool, PoolError, invalid_capacity, nil_builder,
  group, version, bump, new_entry, one_more,
}

-- `instanceSnapshot`.
pub record InstanceSnapshot : Type 0 where
  pub id : ℕ
  pub generation : ℕ
  pub revision : ℕ
  pub inst : ℕ
  pub reserved : ℕ

-- `occupancySnapshot`.
pub record OccupancySnapshot : Type 0 where
  pub seen : InstanceSnapshot
  pub occupancy : ℕ

abbrev pub snapshot : ℕ → Entry → InstanceSnapshot
snapshot id e = record {
  id = id;
  generation = e.generation;
  revision = e.revision;
  inst = e.inst;
  reserved = e.reserved;
}

-- What `snapshotGroup` returns; `waits_for` is the id of the entry whose channel it returns.
pub record Observation : Type 0 where
  pub key : ℕ
  pub snapshots : List InstanceSnapshot
  pub waits_for : Option ℕ
  pub key_version : ℕ

abbrev pub add_active : ℕ → Option Entry → List InstanceSnapshot → List InstanceSnapshot
add_active id none l = l
add_active id (some e) l = if is_active e.state then snapshot id e ∷ l else l

-- The active entries among the ids, and the first that is being created.
unfoldable pub active_of : List ℕ → Pool → List InstanceSnapshot
active_of [] p = []
active_of (id ∷ ids) p = add_active id (lookup id p.by_id) (active_of ids p)

abbrev pub is_being_created : Option Entry → Bool
is_being_created none = false
is_being_created (some e) = elim e.state [ creating ↦ true | active ↦ false | destroying ↦ false ]

unfoldable pub first_creating : List ℕ → Pool → Option ℕ
first_creating [] p = none
first_creating (id ∷ ids) p =
    let rest = first_creating ids p in
    if is_being_created (lookup id p.by_id) then some id else rest

-- `snapshotGroup`.
unfoldable pub snapshot_group : ℕ → Pool → Observation
snapshot_group key p = record {
  key = key;
  snapshots = active_of (group p key) p;
  waits_for = first_creating (group p key) p;
  key_version = version p key;
}

-- `measureOccupancy`.
unfoldable pub measure_occupancy : (ℕ → ℕ) → List InstanceSnapshot → List OccupancySnapshot
measure_occupancy occupancy [] = []
measure_occupancy occupancy (s ∷ ss) =
    record { seen = s; occupancy = occupancy s.inst } ∷ measure_occupancy occupancy ss

-- The occupants of an instance, with those that are admitted and have not entered yet.
abbrev pub effective : OccupancySnapshot → ℕ
effective s = s.occupancy + s.seen.reserved

-- The loop of `selectCandidate` on the affinity.
unfoldable pub select_affine : ℕ → ℕ → List OccupancySnapshot → Option OccupancySnapshot
select_affine affinity hard_cap [] = none
select_affine affinity hard_cap (s ∷ ss) =
    let rest = select_affine affinity hard_cap ss in
    if s.seen.id == affinity && ltb (effective s) hard_cap then some s else rest

-- Its loop for the least occupied; `none` stands for `best == -1`, with `math.MaxInt` as the least yet.
abbrev pub improves : ℕ → Option OccupancySnapshot → OccupancySnapshot → Bool
improves soft_cap none s = ltb (effective s) soft_cap
improves soft_cap (some b) s = ltb (effective s) soft_cap && ltb (effective s) (effective b)

unfoldable pub select_least :
    ℕ → Option OccupancySnapshot → List OccupancySnapshot → Option OccupancySnapshot
select_least soft_cap best [] = best
select_least soft_cap best (s ∷ ss) =
    select_least soft_cap (if improves soft_cap best s then some s else best) ss

-- A candidate and its limit, or none and the soft one.
abbrev pub with_limit : ℕ → Option OccupancySnapshot → Option (OccupancySnapshot × ℕ)
with_limit limit none = none
with_limit limit (some s) = some (s, limit)

abbrev pub or_else :
    Option (OccupancySnapshot × ℕ) → Option (OccupancySnapshot × ℕ) → Option (OccupancySnapshot × ℕ)
or_else none b = b
or_else (some a) b = some a

-- `selectCandidate`.
unfoldable pub select_candidate :
    List OccupancySnapshot → ℕ → ℕ → ℕ → Option (OccupancySnapshot × ℕ)
unfolding select_affine select_least
select_candidate snapshots affinity soft_cap hard_cap =
    or_else
      (if affinity == 0
        then none
        else with_limit hard_cap (select_affine affinity hard_cap snapshots))
      (with_limit soft_cap (select_least soft_cap none snapshots))

-- What a turn of the loop of `AcquireChecked` comes to: it starts anew, waits for an entry, has reserved
-- an instance, or has an entry to build, by its id and generation.
pub data Turn : Type 0 where
  again : Turn
  waits : ℕ → Turn
  reserved : (id inst : ℕ) → Turn
  builds : (id generation : ℕ) → Turn

-- The candidate is as it was observed, and still has room.
abbrev pub still_fits : OccupancySnapshot → ℕ → Entry → Bool
still_fits c limit e =
    is_active e.state
    && (e.generation == c.seen.generation
        && (e.revision == c.seen.revision && ltb (c.occupancy + e.reserved) limit))

unfoldable pub reserve_observed : ℕ → OccupancySnapshot → ℕ → Option Entry → Pool → Pool × Turn
reserve_observed key c limit none p = (p, again)
reserve_observed key c limit (some e) p =
    if still_fits c limit e
    then (
      bump key (record p { by_id = (c.seen.id, one_more e) ∷ erase c.seen.id p.by_id }),
      reserved c.seen.id e.inst,
    )
    else (p, again)

abbrev pub build_or_wait : ℕ → Option ℕ → Pool → Pool × Turn
build_or_wait key (some id) p = (p, waits id)
build_or_wait key none p =
    let q = new_entry key false 1 p in (q, builds q.next_id q.next_generation)

unfoldable pub take_turn : Observation → Option (OccupancySnapshot × ℕ) → Pool → Pool × Turn
unfolding reserve_observed
take_turn o (some (c, limit)) p = reserve_observed o.key c limit (lookup c.seen.id p.by_id) p
take_turn o none p =
    if version p o.key == o.key_version then build_or_wait o.key o.waits_for p else (p, again)

-- The rest of a turn of `AcquireChecked` after its `snapshotGroup`, to which other calls may have come
-- between.
unfoldable pub acquire :
    Observation → (ℕ → ℕ) → (affinity soft_cap hard_cap : ℕ) → Pool → Pool × Turn
unfolding take_turn
acquire o occupancy affinity soft_cap hard_cap p =
    take_turn o
      (select_candidate (measure_occupancy occupancy o.snapshots) affinity soft_cap hard_cap) p

-- The checks of its arguments; `is_nil` is the test of the builder.
unfoldable pub check_acquire : ℕ → ℕ → Bool → Option PoolError
check_acquire soft_cap hard_cap is_nil =
    if soft_cap == 0 || (hard_cap == 0 || ltb hard_cap soft_cap)
    then some invalid_capacity
    else if is_nil
    then some nil_builder
    else none
