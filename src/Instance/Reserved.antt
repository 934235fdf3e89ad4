-- ===== src/Instance/Reserved.antt =====
-- What a reservation of zInstance/pool.go is good for: nothing removes the entry before its release.
use z_engine.Common.{
  leb, ◌==◌, if◌then◌else◌, ==_iff, Bool-cases, get_elem?, ℕ, ◌+◌, ◌-◌, ◌<◌, ◌≡◌, refl, subst, inl,
  inr, Bool, true, false, ◌&&◌, Option, none, some, List, [], ◌∷◌, arith,
}
use z_engine.Common.TypedMap.{lookup, lookup-insert, lookup-erase}
use z_engine.Instance.Pool.{
  EntryState, is_active, Entry, Pool, version, bump, touch, drop_entry, evict_entry, new_entry,
  one_more, finish_creation, fail_creation, reserve_checked, release, destroy_checked, finish_entry,
  fail_entry, reserve_entry, release_entry, destroy_entry,
}
use z_engine.Instance.Acquire.{
  OccupancySnapshot, Observation, acquire, take_turn, reserve_observed, build_or_wait,
  select_candidate, measure_occupancy,
}
use z_engine.Instance.Reap.{reap, reap_one, reap_entry, set_empty_since}
use z_engine.Instance.Run.{
  World, new_world, Action, observe, acquire_on, add, built, failed, reserve_on, release_on,
  destroy_on, reap_on, on_pool, act, run, or_same, acquire_with,
}
use z_engine.Instance.Index.{Inv, lookup-added}
use z_engine.Instance.Reached.{Reached, run-Reached, act-Reached}

-- An active entry with as many reservations, of the key and with the instance.
abbrev pub holds : (key inst reserved : ℕ) → Option Entry → Bool
holds key inst reserved none = false
holds key inst reserved (some e) =
    is_active e.state && (e.key == key && (e.inst == inst && leb reserved e.reserved))

module _ (key inst n : ℕ) (p : Pool) (j : ℕ) where
  finish_entry-holds :
      (id generation new : ℕ) (o : Option Entry)
      → lookup id p.by_id ≡ o
      → holds key inst n (lookup j p.by_id) ≡ true
      → holds key inst n (lookup j (or_same p (finish_entry id generation new o p)).by_id) ≡ true
  unfolding finish_entry touch bump
  finish_entry-holds id generation new none l h = h
  finish_entry-holds id generation new (some e) l h = ground (
    arith,
    h,
    l,
    lookup-insert p.by_id id
        (record e { inst = new; state = EntryState.active; revision = e.revision + 1 }) j,
    ==_iff id j,
  )

  fail_entry-holds :
      (id generation : ℕ) (o : Option Entry)
      → lookup id p.by_id ≡ o
      → holds key inst n (lookup j p.by_id) ≡ true
      → holds key inst n (lookup j (fail_entry id generation o p).by_id) ≡ true
  unfolding fail_entry drop_entry bump
  fail_entry-holds id generation none l h = h
  fail_entry-holds id generation (some e) l h =
      ground (arith, h, l, lookup-erase p.by_id id j, ==_iff id j)

  reserve_entry-holds :
      (id : ℕ) (o : Option Entry)
      → lookup id p.by_id ≡ o
      → holds key inst n (lookup j p.by_id) ≡ true
      → holds key inst n (lookup j (reserve_entry id o p).0.by_id) ≡ true
  unfolding reserve_entry touch bump
  reserve_entry-holds id none l h = h
  reserve_entry-holds id (some e) l h =
      ground (arith, h, l, lookup-insert p.by_id id (one_more e) j, ==_iff id j)

  -- A release takes at most one reservation.
  release_entry-holds :
      (id : ℕ) (o : Option Entry)
      → lookup id p.by_id ≡ o
      → holds key inst n (lookup j p.by_id) ≡ true
      → holds key inst (if id == j then n - 1 else n) (lookup j (release_entry id o p).by_id) ≡ true
  unfolding release_entry touch bump
  release_entry-holds id none l h = ground (arith, h, l, ==_iff id j)
  release_entry-holds id (some e) l h = ground (
    arith,
    h,
    l,
    lookup-insert p.by_id id (record e { reserved = e.reserved - 1; revision = e.revision + 1 }) j,
    ==_iff id j,
  )

  destroy_entry-holds :
      (id : ℕ) (o : Option Entry)
      → 0 < n
      → lookup id p.by_id ≡ o
      → holds key inst n (lookup j p.by_id) ≡ true
      → holds key inst n (lookup j (destroy_entry id o p).0.by_id) ≡ true
  unfolding destroy_entry evict_entry drop_entry bump
  destroy_entry-holds id none z l h = h
  destroy_entry-holds id (some e) z l h =
      ground (arith, h, l, z, lookup-erase p.by_id id j, ==_iff id j)

  reap_entry-holds :
      (now grace : ℕ) (c : OccupancySnapshot) (o : Option Entry)
      → 0 < n
      → lookup c.seen.id p.by_id ≡ o
      → holds key inst n (lookup j p.by_id) ≡ true
      → holds key inst n (lookup j (reap_entry now grace c o p).0.by_id) ≡ true
  unfolding reap_entry evict_entry drop_entry touch bump
  reap_entry-holds now grace c none z l h = h
  reap_entry-holds now grace c (some e) z l h = ground (
    arith,
    h,
    l,
    z,
    lookup-erase p.by_id c.seen.id j,
    lookup-insert p.by_id c.seen.id (set_empty_since 0 e) j,
    lookup-insert p.by_id c.seen.id (set_empty_since now e) j,
    ==_iff c.seen.id j,
  )

  new_entry-holds :
      (k reserved : ℕ) (is_pinned : Bool)
      → Inv p
      → holds key inst n (lookup j p.by_id) ≡ true
      → holds key inst n (lookup j (new_entry k is_pinned reserved p).by_id) ≡ true
  new_entry-holds k reserved is_pinned v h =
      unfold new_entry bump in
      rw (lookup-added p v k is_pinned reserved j)
        (ground (arith, h, v.bounded j, ==_iff (p.next_id + 1) j))

  reserve_observed-holds :
      (k : ℕ) (c : OccupancySnapshot) (limit : ℕ) (o : Option Entry)
      → lookup c.seen.id p.by_id ≡ o
      → holds key inst n (lookup j p.by_id) ≡ true
      → holds key inst n (lookup j (reserve_observed k c limit o p).0.by_id) ≡ true
  unfolding reserve_observed bump
  reserve_observed-holds k c limit none l h = h
  reserve_observed-holds k c limit (some e) l h =
      ground (arith, h, l, lookup-insert p.by_id c.seen.id (one_more e) j, ==_iff c.seen.id j)

  build_or_wait-holds :
      (k : ℕ) (o : Option ℕ)
      → Inv p
      → holds key inst n (lookup j p.by_id) ≡ true
      → holds key inst n (lookup j (build_or_wait k o p).0.by_id) ≡ true
  build_or_wait-holds k none v h = new_entry-holds k 1 false v h
  build_or_wait-holds k (some id) v h = h

  take_turn-holds :
      (o : Observation) (r : Option (OccupancySnapshot × ℕ))
      → Inv p
      → holds key inst n (lookup j p.by_id) ≡ true
      → holds key inst n (lookup j (take_turn o r p).0.by_id) ≡ true
  unfolding take_turn
  take_turn-holds o (some (c, limit)) v h =
      reserve_observed-holds o.key c limit (lookup c.seen.id p.by_id) refl h
  take_turn-holds o none v h = elim (Bool-cases (version p o.key == o.key_version)) [
    | inl t ↦ rw t (build_or_wait-holds o.key o.waits_for v h)
    | inr t ↦ rw t h
  ]

module _ (key inst j n : ℕ) (z : 0 < n) where
  reap-holds :
      (now grace : ℕ) (cs : List OccupancySnapshot) (p : Pool)
      → holds key inst n (lookup j p.by_id) ≡ true
      → holds key inst n (lookup j (reap now grace cs p).0.by_id) ≡ true
  unfolding reap reap_one
  reap-holds now grace [] p h = h
  reap-holds now grace (c ∷ cs) p h =
      reap-holds now grace cs (reap_one now grace c p).0
        (reap_entry-holds key inst n p j now grace c (lookup c.seen.id p.by_id) z refl h)

-- The reservations that an action leaves of `n`.
abbrev left : ℕ → ℕ → Action → ℕ
left j n (release_on id) = if id == j then n - 1 else n
left j n _ = n

-- The number of releases of an id.
abbrev releases_in : ℕ → Action → ℕ
releases_in j (release_on id) = if id == j then 1 else 0
releases_in j _ = 0

abbrev pub releases : ℕ → List Action → ℕ
releases j [] = 0
releases j (a ∷ rest) = releases_in j a + releases j rest

module _ (key inst j n : ℕ) (z : 0 < n) (w : World) (r : Reached w) where
  acquire_with-holds :
      (o : Option Observation) (occupancy : ℕ → ℕ) (affinity soft_cap hard_cap : ℕ)
      → holds key inst n (lookup j w.pool.by_id) ≡ true
      → holds key inst n
          (lookup j (acquire_with o occupancy affinity soft_cap hard_cap w.pool).by_id)
        ≡ true
  unfolding acquire
  acquire_with-holds none occupancy affinity soft_cap hard_cap h = h
  acquire_with-holds (some o) occupancy affinity soft_cap hard_cap h =
      take_turn-holds key inst n w.pool j o
        (select_candidate (measure_occupancy occupancy o.snapshots) affinity soft_cap hard_cap)
        r.pool h

  act-holds :
      (a : Action)
      → holds key inst n (lookup j w.pool.by_id) ≡ true
      → holds key inst (left j n a) (lookup j (on_pool a w).by_id) ≡ true
  unfolding on_pool finish_creation fail_creation reserve_checked release destroy_checked
  act-holds (observe k) h = h
  act-holds (acquire_on i occupancy affinity soft_cap hard_cap) h =
      acquire_with-holds (get_elem? w.observed i) occupancy affinity soft_cap hard_cap h
  act-holds (add k is_pinned reserved) h =
      new_entry-holds key inst n w.pool j k reserved is_pinned r.pool h
  act-holds (built id generation new) h =
      finish_entry-holds key inst n w.pool j id generation new (lookup id w.pool.by_id) refl h
  act-holds (failed id generation) h =
      fail_entry-holds key inst n w.pool j id generation (lookup id w.pool.by_id) refl h
  act-holds (reserve_on id) h =
      reserve_entry-holds key inst n w.pool j id (lookup id w.pool.by_id) refl h
  act-holds (release_on id) h =
      release_entry-holds key inst n w.pool j id (lookup id w.pool.by_id) refl h
  act-holds (destroy_on id) h =
      destroy_entry-holds key inst n w.pool j id (lookup id w.pool.by_id) z refl h
  act-holds (reap_on now grace measured) h = reap-holds key inst j n z now grace measured w.pool h

left_lem : (j n : ℕ) (a : Action) → left j n a ≡ n - releases_in j a
left_lem j n (observe k) = omega arith
left_lem j n (acquire_on i occupancy affinity soft_cap hard_cap) = omega arith
left_lem j n (add k is_pinned reserved) = omega arith
left_lem j n (built id generation new) = omega arith
left_lem j n (failed id generation) = omega arith
left_lem j n (reserve_on id) = omega arith
left_lem j n (release_on id) = ground arith
left_lem j n (destroy_on id) = omega arith
left_lem j n (reap_on now grace measured) = omega arith

run_from-holds :
    (key inst j n : ℕ) (actions : List Action) (w : World)
    → Reached w
    → releases j actions < n
    → holds key inst n (lookup j w.pool.by_id) ≡ true
    → holds key inst (n - releases j actions) (lookup j (run actions w).pool.by_id) ≡ true
unfolding run act
run_from-holds key inst j n [] w r b h =
    subst (λ m. holds key inst m (lookup j w.pool.by_id) ≡ true) (omega arith) h
run_from-holds key inst j n (a ∷ rest) w r b h =
    let e = left_lem j n a in
    let one = act-holds key inst j n (omega arith) w r a h in
    subst (λ m. holds key inst m (lookup j (run rest (act a w)).pool.by_id) ≡ true) (omega arith)
      (run_from-holds key inst j (n - releases_in j a) rest (act a w) (act-Reached a w r)
        (omega arith) (subst (λ m. holds key inst m (lookup j (act a w).pool.by_id) ≡ true) e one))

-- An active entry with `n` reservations, or more, stays in the pool with its key and its instance, and
-- with no fewer than `n` less the releases of its id, through any calls with less than `n` of these:
-- neither `DestroyChecked` nor `Reap` removes it before they are released.
pub run-holds :
    (id_base : ℕ) (before actions : List Action) (key inst j n : ℕ)
    → (let w : World = run before (new_world id_base) in
        releases j actions < n
        → holds key inst n (lookup j w.pool.by_id) ≡ true
        → holds key inst (n - releases j actions) (lookup j (run actions w).pool.by_id) ≡ true)
run-holds id_base before actions key inst j n b h =
    run_from-holds key inst j n actions (run before (new_world id_base))
      (run-Reached id_base before) b h
