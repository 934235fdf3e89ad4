-- ===== src/Instance/Reached.antt =====
-- What holds of a pool of zInstance/pool.go and of its callers' observations after any actions.
use z_engine.Common.{
  get_elem?, All, ℕ, zero, suc, ◌≡◌, refl, subst, Option, none, some, List, [], ◌∷◌, ◌++◌, arith,
}
use z_engine.Common.TypedMap.{lookup}
use z_engine.Instance.Pool.{
  Pool, new_entry, finish_creation, fail_creation, reserve_checked, release, destroy_checked,
}
use z_engine.Instance.Acquire.{
  InstanceSnapshot, OccupancySnapshot, Observation, snapshot_group, measure_occupancy,
  select_candidate, acquire,
}
use z_engine.Instance.Run.{
  World, new_world, Action, observe, acquire_on, add, built, failed, reserve_on, release_on,
  destroy_on, reap_on, or_same, acquire_with, on_pool, observations, act, run,
}
use z_engine.Instance.Change.{
  Change, unchanged, created, finish_entry-Change, fail_entry-Change, reserve_entry-Change,
  release_entry-Change, destroy_entry-Change, take_turn-Change, reap_induction,
}
use z_engine.Instance.Selection.{Choice, affine, least, full, select_candidate-Choice}
use z_engine.Instance.Index.{Inv, new_pool_with_base-Inv, Change-Inv}
use z_engine.Instance.Versions.{Seen, Change-Seen, snapshot_group-Seen}

pub record Reached (w : World) : Type 0 where
  pub pool : Inv w.pool
  pub observed : All (λ o. Seen o w.pool) w.observed

-- A measured instance is one of the observed.
pub measure_occupancy_from :
    (occupancy : ℕ → ℕ) (l : List InstanceSnapshot) (i : ℕ) (c : OccupancySnapshot)
    → get_elem? (measure_occupancy occupancy l) i ≡ some c
    → (get_elem? l i ≡ some c.seen) × (c.occupancy ≡ occupancy c.seen.inst)
unfolding measure_occupancy
measure_occupancy_from occupancy [] i c g = ground arith
measure_occupancy_from occupancy (s ∷ ss) zero c g = (ground arith, ground arith)
measure_occupancy_from occupancy (s ∷ ss) (suc i) c g = measure_occupancy_from occupancy ss i c g

pub Choice-from :
    (l : List OccupancySnapshot) (affinity soft_cap hard_cap : ℕ)
    (r : Option (OccupancySnapshot × ℕ))
    → Choice l affinity soft_cap hard_cap r
    → (c : OccupancySnapshot) (limit : ℕ) → r ≡ some (c, limit)
    → (i : ℕ) × (get_elem? l i ≡ some c)
Choice-from l affinity soft_cap hard_cap r (affine i d s h g n f) c limit e = (i, ground arith)
Choice-from l affinity soft_cap hard_cap r (least i d s h g n m f) c limit e = (i, ground arith)
Choice-from l affinity soft_cap hard_cap r (full s h g f) c limit e = ground arith

module _ (p : Pool) (v : Inv p) (o : Observation) (w : Seen o p) where
  acquire-Change :
      (occupancy : ℕ → ℕ) (affinity soft_cap hard_cap : ℕ)
      → Change p (acquire o occupancy affinity soft_cap hard_cap p).0
  unfolding acquire
  acquire-Change occupancy affinity soft_cap hard_cap =
      let l = measure_occupancy occupancy o.snapshots in
      take_turn-Change o (select_candidate l affinity soft_cap hard_cap) p (λ d limit h.
        let (i, g) =
          Choice-from l affinity soft_cap hard_cap (select_candidate l affinity soft_cap hard_cap)
            (select_candidate-Choice l affinity soft_cap hard_cap) d limit h in
        ground (arith, w.keyed i d.seen (measure_occupancy_from occupancy o.snapshots i d g).0))

pub All-get_elem? :
    (P : Observation → Type 0) (l : List Observation) (i : ℕ) (o : Observation)
    → get_elem? l i ≡ some o
    → All P l
    → P o
All-get_elem? P [] i o g a = ground arith
All-get_elem? P (x ∷ xs) zero o g a = subst P (cc) a.0
All-get_elem? P (x ∷ xs) (suc i) o g a = All-get_elem? P xs i o g a.1

acquire_with-Change :
    (p : Pool) (v : Inv p) (l : List Observation)
    → All (λ o. Seen o p) l
    → (n : ℕ) (r : Option Observation) → get_elem? l n ≡ r
    → (occupancy : ℕ → ℕ) (affinity soft_cap hard_cap : ℕ)
    → Change p (acquire_with r occupancy affinity soft_cap hard_cap p)
acquire_with-Change p v l a n none g occupancy affinity soft_cap hard_cap = unchanged refl
acquire_with-Change p v l a n (some o) g occupancy affinity soft_cap hard_cap =
    acquire-Change p v o (All-get_elem? (λ o. Seen o p) l n o g a) occupancy affinity soft_cap
      hard_cap

or_same-Change :
    (p : Pool) (r : Option Pool) → ((q : Pool) → r ≡ some q → Change p q) → Change p (or_same p r)
or_same-Change p none f = unchanged refl
or_same-Change p (some q) f = f q refl

-- What every change keeps, an action keeps.
on_pool_induction :
    (P : Pool → Type 0)
    → ((p q : Pool) → Change p q → P p → P q)
    → (a : Action) (w : World) → Reached w
    → P w.pool
    → P (on_pool a w)
unfolding on_pool finish_creation fail_creation reserve_checked release destroy_checked
on_pool_induction P keeps (observe key) w r x = x
on_pool_induction P keeps (acquire_on n occupancy affinity soft_cap hard_cap) w r x =
    keeps w.pool (on_pool (acquire_on n occupancy affinity soft_cap hard_cap) w)
      (acquire_with-Change w.pool r.pool w.observed r.observed n (get_elem? w.observed n) refl
        occupancy affinity soft_cap hard_cap)
      x
on_pool_induction P keeps (add key is_pinned reserved) w r x =
    keeps w.pool (new_entry key is_pinned reserved w.pool) (created key reserved is_pinned refl) x
on_pool_induction P keeps (built id generation inst) w r x =
    keeps w.pool (on_pool (built id generation inst) w)
      (or_same-Change w.pool (finish_creation id generation inst w.pool)
        (λ q h. finish_entry-Change id w.pool generation inst (lookup id w.pool.by_id) q refl h))
      x
on_pool_induction P keeps (failed id generation) w r x =
    keeps w.pool (fail_creation id generation w.pool)
      (fail_entry-Change id w.pool generation (lookup id w.pool.by_id) refl) x
on_pool_induction P keeps (reserve_on id) w r x =
    keeps w.pool (on_pool (reserve_on id) w)
      (reserve_entry-Change id w.pool (lookup id w.pool.by_id) refl) x
on_pool_induction P keeps (release_on id) w r x =
    keeps w.pool (on_pool (release_on id) w)
      (release_entry-Change id w.pool (lookup id w.pool.by_id) refl) x
on_pool_induction P keeps (destroy_on id) w r x =
    keeps w.pool (on_pool (destroy_on id) w)
      (destroy_entry-Change id w.pool (lookup id w.pool.by_id) refl) x
on_pool_induction P keeps (reap_on now grace measured) w r x =
    reap_induction P keeps now grace measured w.pool x

Change-both : (o : Observation) (p q : Pool) → Change p q → Inv p × Seen o p → Inv q × Seen o q
Change-both o p q c x = (Change-Inv p q c x.0, Change-Seen o p q c x.0 x.1)

-- Each observation stays one of the past.
All-after :
    (a : Action) (w : World)
    → Reached w
    → (l : List Observation) → All (λ o. Seen o w.pool) l
    → All (λ o. Seen o (on_pool a w)) l
All-after a w r [] x = tt
All-after a w r (o ∷ l) x = (
  (on_pool_induction (λ q. Inv q × Seen o q) (Change-both o) a w r (r.pool, x.0)).1,
  All-after a w r l x.1,
)

All-appended :
    (P : Observation → Type 0) (l : List Observation) (o : Observation)
    → All P l
    → P o
    → All P (l ++ (o ∷ []))
All-appended P [] o a x = (x, tt)
All-appended P (y ∷ l) o a x = (a.0, All-appended P l o a.1 x)

observations-Seen :
    (a : Action) (w : World) → Reached w → All (λ o. Seen o (on_pool a w)) (observations a w)
observations-Seen (observe key) w r =
    unfold on_pool in
    All-appended (λ o. Seen o w.pool) w.observed (snapshot_group key w.pool) r.observed
      (snapshot_group-Seen key w.pool r.pool)
observations-Seen (acquire_on n occupancy affinity soft_cap hard_cap) w r =
    All-after (acquire_on n occupancy affinity soft_cap hard_cap) w r w.observed r.observed
observations-Seen (add key is_pinned reserved) w r =
    All-after (add key is_pinned reserved) w r w.observed r.observed
observations-Seen (built id generation inst) w r =
    All-after (built id generation inst) w r w.observed r.observed
observations-Seen (failed id generation) w r =
    All-after (failed id generation) w r w.observed r.observed
observations-Seen (reserve_on id) w r = All-after (reserve_on id) w r w.observed r.observed
observations-Seen (release_on id) w r = All-after (release_on id) w r w.observed r.observed
observations-Seen (destroy_on id) w r = All-after (destroy_on id) w r w.observed r.observed
observations-Seen (reap_on now grace measured) w r =
    All-after (reap_on now grace measured) w r w.observed r.observed

pub act-Reached : (a : Action) (w : World) → Reached w → Reached (act a w)
unfolding act
act-Reached a w r = record {
  pool = on_pool_induction Inv Change-Inv a w r r.pool;
  observed = observations-Seen a w r;
}

run_from-Reached : (actions : List Action) (w : World) → Reached w → Reached (run actions w)
unfolding run
run_from-Reached [] w r = r
run_from-Reached (a ∷ rest) w r = run_from-Reached rest (act a w) (act-Reached a w r)

-- After any actions on a new pool both indexes have the same entries, none of which is being destroyed,
-- an id is at most the last one given, a key has a version greater than 0, and at most the last
-- one given, exactly when it has an entry, and an instance is evicted at most once and then in no
-- index; and an observation shows the key's entries as they are, or has one to wait for, whenever the
-- key still has the version that it had.
pub run-Reached : (id_base : ℕ) (actions : List Action) → Reached (run actions (new_world id_base))
run-Reached id_base actions =
    run_from-Reached actions (new_world id_base)
      (unfold new_world in record { pool = new_pool_with_base-Inv id_base; observed = tt })
