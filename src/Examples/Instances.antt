-- ===== src/Examples/Instances.antt =====
-- zInstance/pool.go: a room is built, and a second player joins it.
use z_engine.Common.{
  get_elem?, ℕ, ◌+◌, ◌≤◌, ◌≡◌, refl, ◌≢◌, true, false, none, some, List, [], ◌∷◌, ◌++◌, arith,
}
use z_engine.Common.TypedMap.{lookup}
use z_engine.Instance.Pool.{
  is_active, reserve_checked, finish_creation, new_pool_with_base, new_entry, without, Entry,
  EntryState,
}
use z_engine.Instance.Acquire.{
  snapshot_group, active_of, first_creating, measure_occupancy, OccupancySnapshot, Observation,
  acquire, select_candidate, reserved, builds,
}
use z_engine.Instance.Run.{
  act, on_pool, World, new_world, Action, observe, acquire_on, built, reserve_on, release_on,
  destroy_on, reap_on, run,
}
use z_engine.Instance.Selection.{Choice, select_candidate-Choice}
use z_engine.Instance.Building.{acquire_builds_when_full, acquire-Reservation, Reservation}
use z_engine.Instance.Reached.{Reached, run-Reached}
use z_engine.Instance.Reserved.{holds, run-holds}

-- Two rooms hold as many players as their number.
abbrev players : ℕ → ℕ
players inst = inst

abbrev one_room : List Action
one_room = observe 5 ∷ acquire_on 0 players 0 2 4 ∷ built 1 1 2 ∷ observe 5 ∷ []

abbrev seen_room : Observation
seen_room = record {
  key = 5;
  snapshots = record { id = 1; generation = 1; revision = 1; inst = 2; reserved = 1 } ∷ [];
  waits_for = none;
  key_version = 2;
}

abbrev room : Entry
room = record {
  generation = 1;
  revision = 1;
  key = 5;
  inst = 2;
  state = EntryState.active;
  pinned = false;
  reserved = 1;
  empty_since = 0;
}

abbrev after_room : World
after_room = run one_room (new_world 0)

observes-room : get_elem? after_room.observed 1 ≡ some seen_room
unfolding run act new_world snapshot_group active_of first_creating on_pool finish_creation acquire
    select_candidate measure_occupancy new_pool_with_base new_entry without
observes-room = refl

has-room : lookup 1 after_room.pool.by_id ≡ some room
unfolding run act on_pool finish_creation new_world acquire select_candidate measure_occupancy
    snapshot_group active_of new_pool_with_base first_creating new_entry
has-room = refl

-- The room is full by the soft capacity 2, so that a second is built.
builds-second : (acquire seen_room players 0 2 4 after_room.pool).1 ≡ builds 2 2
unfolding acquire select_candidate measure_occupancy run act on_pool finish_creation new_world
    snapshot_group active_of new_pool_with_base first_creating new_entry
builds-second = refl

acquire_builds_when_full_example :
    (is_active room.state ≡ true)
    × (2 ≤ players room.inst + room.reserved)
    × (let affinity : ℕ = 0 in affinity ≢ 0 → 1 ≡ affinity → 4 ≤ players room.inst + room.reserved)
acquire_builds_when_full_example =
    acquire_builds_when_full 0 one_room 1 seen_room players 0 2 4 2 2 observes-room builds-second 1
      room has-room refl

-- With its id as the affinity it has room below the hard capacity 4.
reserves-first : (acquire seen_room players 1 2 4 after_room.pool).1 ≡ reserved 1 2
unfolding acquire select_candidate measure_occupancy run act on_pool finish_creation new_world
    snapshot_group active_of new_pool_with_base first_creating new_entry
reserves-first = refl

acquire-Reservation_example :
    Reservation after_room.pool (acquire seen_room players 1 2 4 after_room.pool).0 5 1 2 2 4
acquire-Reservation_example =
    acquire-Reservation 0 one_room 1 seen_room players 1 2 4 1 2 observes-room (omega arith)
      reserves-first

select_candidate-Choice_example :
    let c : OccupancySnapshot = record {
      seen = record { id = 1; generation = 1; revision = 1; inst = 2; reserved = 1 };
      occupancy = 2;
    } in
    Choice (c ∷ []) 0 4 8 (select_candidate (c ∷ []) 0 4 8)
select_candidate-Choice_example =
    let c : OccupancySnapshot = record {
      seen = record { id = 1; generation = 1; revision = 1; inst = 2; reserved = 1 };
      occupancy = 2;
    } in
    select_candidate-Choice (c ∷ []) 0 4 8

run-Reached_example : Reached after_room
run-Reached_example = run-Reached 0 one_room

-- A second reservation, its release, and two attempts to remove the room.
abbrev joining : List Action
joining = reserve_on 1 ∷ destroy_on 1 ∷ release_on 1 ∷ reap_on 9 1 [] ∷ []

joined :
    holds 5 2 2 (lookup 1 (run (one_room ++ (reserve_on 1 ∷ [])) (new_world 0)).pool.by_id) ≡ true
unfolding run act on_pool reserve_checked finish_creation new_world acquire select_candidate
    measure_occupancy snapshot_group active_of new_pool_with_base first_creating new_entry
joined = refl

run-holds_example :
    holds 5 2 1
      (lookup 1 (run joining (run (one_room ++ (reserve_on 1 ∷ [])) (new_world 0))).pool.by_id)
    ≡ true
run-holds_example =
    run-holds 0 (one_room ++ (reserve_on 1 ∷ [])) joining 5 2 1 2 (omega arith) joined
