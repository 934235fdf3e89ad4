-- ===== src/Instance/Run.antt =====
-- The calls of zInstance/pool.go in the order in which they take the pool's lock. The callers'
-- observations of the pool are kept, so that one can act on an old one.
use z_engine.Common.{get_elem?, ℕ, Bool, Option, none, some, List, [], ◌∷◌, ◌++◌}
use z_engine.Instance.Pool.{
  Pool, new_pool_with_base, new_entry, finish_creation, fail_creation, reserve_checked, release,
  destroy_checked,
}
use z_engine.Instance.Acquire.{OccupancySnapshot, Observation, snapshot_group, acquire}
use z_engine.Instance.Reap.{reap}

pub record World : Type 0 where
  pub pool : Pool
  pub observed : List Observation

unfoldable pub new_world : ℕ → World
new_world id_base = record { pool = new_pool_with_base id_base; observed = [] }

-- What takes the lock: an observation of a key, the rest of a turn of `AcquireChecked` on an observation
-- by its number, the start of `addChecked`, the end of a build, and the other calls.
pub data Action : Type 0 where
  observe : (key : ℕ) → Action
  acquire_on : (n : ℕ) (occupancy : ℕ → ℕ) (affinity soft_cap hard_cap : ℕ) → Action
  add : (key : ℕ) (is_pinned : Bool) (reserved : ℕ) → Action
  built : (id generation inst : ℕ) → Action
  failed : (id generation : ℕ) → Action
  reserve_on release_on destroy_on : (id : ℕ) → Action
  reap_on : (now grace : ℕ) (measured : List OccupancySnapshot) → Action

abbrev pub or_same : Pool → Option Pool → Pool
or_same p none = p
or_same p (some q) = q

abbrev pub acquire_with :
    Option Observation → (ℕ → ℕ) → (affinity soft_cap hard_cap : ℕ) → Pool → Pool
acquire_with none occupancy affinity soft_cap hard_cap p = p
acquire_with (some o) occupancy affinity soft_cap hard_cap p =
    (acquire o occupancy affinity soft_cap hard_cap p).0

-- The pool after an action.
unfoldable pub on_pool : Action → World → Pool
on_pool (observe key) w = w.pool
on_pool (acquire_on n occupancy affinity soft_cap hard_cap) w =
    acquire_with (get_elem? w.observed n) occupancy affinity soft_cap hard_cap w.pool
on_pool (add key is_pinned reserved) w = new_entry key is_pinned reserved w.pool
on_pool (built id generation inst) w = or_same w.pool (finish_creation id generation inst w.pool)
on_pool (failed id generation) w = fail_creation id generation w.pool
on_pool (reserve_on id) w = (reserve_checked id w.pool).0
on_pool (release_on id) w = release id w.pool
on_pool (destroy_on id) w = (destroy_checked id w.pool).0
on_pool (reap_on now grace measured) w = (reap now grace measured w.pool).0

abbrev pub observations : Action → World → List Observation
observations (observe key) w = w.observed ++ (snapshot_group key w.pool ∷ [])
observations _ w = w.observed

unfoldable pub act : Action → World → World
act a w = record { pool = on_pool a w; observed = observations a w }

unfoldable pub run : List Action → World → World
run [] w = w
run (a ∷ rest) w = run rest (act a w)
