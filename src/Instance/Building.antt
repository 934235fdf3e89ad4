-- ===== src/Instance/Building.antt =====
-- `AcquireChecked` of zInstance/pool.go among other calls: when it builds, and what it reserves.
use z_engine.Common.{
  ◌==◌, if◌then◌else◌, ==_iff, ==-refl, Bool-cases, get_elem?, ℕ, suc, ◌+◌, ◌≤◌, ◌<◌, ◌≡◌, refl,
  sym, ap, ◌∙◌, subst, ◌≢◌, inl, inr, true, Option, none, some, List, [], ◌∷◌, arith,
}
use z_engine.Common.TypedMap.{lookup, lookup-insert}
use z_engine.Instance.Pool.{is_active, Entry, Pool, version, bump, one_more}
use z_engine.Instance.Acquire.{
  InstanceSnapshot, OccupancySnapshot, Observation, effective, measure_occupancy, select_candidate,
  reserved, builds, reserve_observed, take_turn, acquire, still_fits,
}
use z_engine.Instance.Run.{World, new_world, Action, run}
use z_engine.Instance.Change.{has_key}
use z_engine.Instance.Selection.{Choice, affine, least, full, select_candidate-Choice}
use z_engine.Instance.Versions.{Seen, has_snapshot, shows, covers}
use z_engine.Instance.Reached.{run-Reached, All-get_elem?, Choice-from, measure_occupancy_from}

-- Something is chosen where the turn of the loop does not build or wait.
take_turn_builds :
    (o : Observation) (c : Option (OccupancySnapshot × ℕ)) (p : Pool) (id generation : ℕ)
    → (take_turn o c p).1 ≡ builds id generation
    → (c ≡ none) × (o.waits_for ≡ none) × (version p o.key ≡ o.key_version)
unfolding take_turn reserve_observed
take_turn_builds o none p id generation h = ground (arith, ==_iff (version p o.key) o.key_version)
take_turn_builds o (some (c, limit)) p id generation h = ground arith

-- The measured instance of an entry that the observation shows.
measured :
    (occupancy : ℕ → ℕ) (j : ℕ) (e : Entry) (ss : List InstanceSnapshot)
    → has_snapshot ss j e ≡ true
    → (i : ℕ) × (c : OccupancySnapshot) × (get_elem? (measure_occupancy occupancy ss) i ≡ some c)
      × (c.seen.id ≡ j)
      × (effective c ≡ occupancy e.inst + e.reserved)
unfolding measure_occupancy
measured occupancy j e [] h = ground arith
measured occupancy j e (s ∷ ss) h = elim (Bool-cases (shows j e s)) [
  | inl t ↦
      let i : s.inst ≡ e.inst = ground (arith, t, ==_iff s.inst e.inst) in
      (
        0,
        record { seen = s; occupancy = occupancy s.inst },
        refl,
        ground (arith, t, ==_iff s.id j),
        rw i (ground (arith, t, ==_iff s.reserved e.reserved)),
      )
  | inr t ↦ let (i, c, g, k, f) = measured occupancy j e ss (ground arith) in (suc i, c, g, k, f)
]

none-full :
    (l : List OccupancySnapshot) (affinity soft_cap hard_cap : ℕ)
    (r : Option (OccupancySnapshot × ℕ))
    → Choice l affinity soft_cap hard_cap r
    → r ≡ none
    → (i : ℕ) (c : OccupancySnapshot) → get_elem? l i ≡ some c
    → (soft_cap ≤ effective c) × (affinity ≢ 0 → c.seen.id ≡ affinity → hard_cap ≤ effective c)
none-full l affinity soft_cap hard_cap r (affine i d s h g n f) e k c x = ground arith
none-full l affinity soft_cap hard_cap r (least i d s h g n m f) e k c x = ground arith
none-full l affinity soft_cap hard_cap r (full s h g f) e k c x =
    (g k c x, λ n a. ground (arith, f k c x n, ==_iff c.seen.id affinity))

covered :
    (o : Observation) (j : ℕ) (e : Entry)
    → covers o j (some e) ≡ true
    → e.key ≡ o.key
    → o.waits_for ≡ none
    → (is_active e.state ≡ true) × (has_snapshot o.snapshots j e ≡ true)
covered o j e h k n = ground (arith, h, n, ==_iff e.key o.key)

module _ (o : Observation) (p : Pool) (w : Seen o p) (occupancy : ℕ → ℕ)
    (affinity soft_cap hard_cap id generation : ℕ)
    (h : (acquire o occupancy affinity soft_cap hard_cap p).1 ≡ builds id generation) where
  builds_full :
      (j : ℕ) (e : Entry)
      → lookup j p.by_id ≡ some e
      → e.key ≡ o.key
      → (is_active e.state ≡ true)
        × (soft_cap ≤ occupancy e.inst + e.reserved)
        × (affinity ≢ 0 → j ≡ affinity → hard_cap ≤ occupancy e.inst + e.reserved)
  builds_full j e l k =
      let ms = measure_occupancy occupancy o.snapshots in
      let choice = select_candidate ms affinity soft_cap hard_cap in
      let (c, n, v) = take_turn_builds o choice p id generation (unfold acquire in h) in
      let (a, s) = covered o j e (ground (arith, w.valid j, l, v, ==-refl o.key_version)) k n in
      let (i, m, g, x, y) = measured occupancy j e o.snapshots s in
      let (b, d) =
        none-full ms affinity soft_cap hard_cap choice
          (select_candidate-Choice ms affinity soft_cap hard_cap) c i m g in
      (a, ground arith, λ n z. ground (arith, d n (x ∙ z)))

-- A caller of `AcquireChecked` that acts on an observation of a key, after any other calls to the pool,
-- starts to build an instance only where each entry of the key stands active in the pool at that
-- moment and has reached the soft capacity by its measured occupants and its present
-- reservations, and the hard one if it is the affinity's.
pub acquire_builds_when_full :
    (id_base : ℕ) (actions : List Action) (n : ℕ) (o : Observation) (occupancy : ℕ → ℕ)
    (affinity soft_cap hard_cap id generation : ℕ)
    → (let w : World = run actions (new_world id_base) in
        get_elem? w.observed n ≡ some o
        → (acquire o occupancy affinity soft_cap hard_cap w.pool).1 ≡ builds id generation
        → (j : ℕ) (e : Entry) → lookup j w.pool.by_id ≡ some e
        → e.key ≡ o.key
        → (is_active e.state ≡ true)
          × (soft_cap ≤ occupancy e.inst + e.reserved)
          × (affinity ≢ 0 → j ≡ affinity → hard_cap ≤ occupancy e.inst + e.reserved))
acquire_builds_when_full id_base actions n o occupancy affinity soft_cap hard_cap id generation g h
      j e l k =
    let w : World = run actions (new_world id_base) in
    let r = run-Reached id_base actions in
    builds_full o w.pool (All-get_elem? (λ o. Seen o w.pool) w.observed n o g r.observed) occupancy
      affinity soft_cap hard_cap id generation h j e l k

-- The entry that a turn reserves, before and after it.
pub record Reservation (p q : Pool) (key id inst occupied limit : ℕ) : Type 0 where
  pub entry : Entry
  pub found : lookup id p.by_id ≡ some entry
  pub active : is_active entry.state ≡ true
  pub keyed : entry.key ≡ key
  pub instance_of : entry.inst ≡ inst
  pub fits : occupied + entry.reserved < limit
  pub after :
      (j : ℕ) → lookup j q.by_id ≡ (if id == j then some (one_more entry) else lookup j p.by_id)

reserve_observed-Reservation :
    (key : ℕ) (c : OccupancySnapshot) (limit : ℕ) (r : Option Entry) (p : Pool) (id inst : ℕ)
    → lookup c.seen.id p.by_id ≡ r
    → has_key key r ≡ true
    → (reserve_observed key c limit r p).1 ≡ reserved id inst
    → (id ≡ c.seen.id)
      × Reservation p (reserve_observed key c limit r p).0 key c.seen.id inst c.occupancy limit
unfolding reserve_observed bump
reserve_observed-Reservation key c limit none p id inst l k h = ground arith
reserve_observed-Reservation key c limit (some e) p id inst l k h =
    let t : still_fits c limit e ≡ true = ground arith in
    (
      ground arith,
      record {
        entry = e;
        found = l;
        active = ground (arith, t);
        keyed = ground (arith, k, ==_iff e.key key);
        instance_of = ground (arith, t);
        fits = ground (arith, t);
        after = λ j. rw t (lookup-insert p.by_id c.seen.id (one_more e) j);
      },
    )

Choice-limit :
    (l : List OccupancySnapshot) (affinity soft_cap hard_cap : ℕ)
    (r : Option (OccupancySnapshot × ℕ))
    → Choice l affinity soft_cap hard_cap r
    → soft_cap ≤ hard_cap
    → (c : OccupancySnapshot) (limit : ℕ) → r ≡ some (c, limit)
    → limit ≤ hard_cap
Choice-limit l affinity soft_cap hard_cap r (affine i d s h g n f) b c limit e = ground arith
Choice-limit l affinity soft_cap hard_cap r (least i d s h g n m f) b c limit e = ground arith
Choice-limit l affinity soft_cap hard_cap r (full s h g f) b c limit e = ground arith

module _ (o : Observation) (p : Pool) (w : Seen o p) (occupancy : ℕ → ℕ)
    (affinity soft_cap hard_cap : ℕ) (b : soft_cap ≤ hard_cap) where
  take_turn-Reservation :
      (r : Option (OccupancySnapshot × ℕ))
      → Choice (measure_occupancy occupancy o.snapshots) affinity soft_cap hard_cap r
      → (id inst : ℕ) → (take_turn o r p).1 ≡ reserved id inst
      → Reservation p (take_turn o r p).0 o.key id inst (occupancy inst) hard_cap
  unfolding take_turn
  take_turn-Reservation none x id inst h = ground arith
  take_turn-Reservation (some (c, limit)) x id inst h =
      let ms = measure_occupancy occupancy o.snapshots in
      let (i, g) = Choice-from ms affinity soft_cap hard_cap (some (c, limit)) x c limit refl in
      let m = measure_occupancy_from occupancy o.snapshots i c g in
      let (k, v) =
        reserve_observed-Reservation o.key c limit (lookup c.seen.id p.by_id) p id inst refl
          (ground (arith, w.keyed i c.seen m.0)) h in
      let s : c.seen.inst ≡ inst =
        ground
          (arith, w.keyed i c.seen m.0, v.found, v.instance_of, ==_iff v.entry.inst c.seen.inst) in
      subst
        (λ i.
          Reservation p (take_turn o (some (c, limit)) p).0 o.key i inst (occupancy inst) hard_cap)
        (sym k)
        (record {
          entry = v.entry;
          found = v.found;
          active = v.active;
          keyed = v.keyed;
          instance_of = v.instance_of;
          fits = ground (
            arith,
            v.fits,
            ap occupancy s,
            m.1,
            Choice-limit ms affinity soft_cap hard_cap (some (c, limit)) x b c limit refl,
          );
          after = v.after;
        })

-- A caller of `AcquireChecked` that acts on an observation, after any other calls to the pool, reserves
-- only an instance of the key that stands active in the pool at that moment, with its present
-- reservations and measured occupants below the hard capacity, if the soft one is not above it; it adds one reservation to that entry, and no other entry changes.
pub acquire-Reservation :
    (id_base : ℕ) (actions : List Action) (n : ℕ) (o : Observation) (occupancy : ℕ → ℕ)
    (affinity soft_cap hard_cap id inst : ℕ)
    → (let w : World = run actions (new_world id_base) in
        get_elem? w.observed n ≡ some o
        → soft_cap ≤ hard_cap
        → (acquire o occupancy affinity soft_cap hard_cap w.pool).1 ≡ reserved id inst
        → Reservation w.pool
            (acquire o occupancy affinity soft_cap hard_cap w.pool).0
            o.key
            id
            inst
            (occupancy inst)
            hard_cap)
unfolding acquire
acquire-Reservation id_base actions n o occupancy affinity soft_cap hard_cap id inst g b h =
    let w : World = run actions (new_world id_base) in
    let r = run-Reached id_base actions in
    let ms = measure_occupancy occupancy o.snapshots in
    take_turn-Reservation o w.pool (All-get_elem? (λ o. Seen o w.pool) w.observed n o g r.observed)
      occupancy affinity soft_cap hard_cap b (select_candidate ms affinity soft_cap hard_cap)
      (select_candidate-Choice ms affinity soft_cap hard_cap) id inst h
