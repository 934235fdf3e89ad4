-- ===== src/Instance/Reap.antt =====
-- `Reap` of zInstance/pool.go, and the queries. A time is in nanoseconds, and greater than 0.
use z_engine.Common.{
  ltb, ◌==◌, if◌then◌else◌, ℕ, ◌+◌, Bool, not, ◌&&◌, ◌||◌, Option, none, some, List, [], ◌∷◌,
}
use z_engine.Common.TypedMap.{lookup}
use z_engine.Instance.Pool.{is_active, Entry, Pool, touch, evict_entry}
use z_engine.Instance.Acquire.{InstanceSnapshot, OccupancySnapshot, snapshot}

abbrev add_candidate : ℕ → Option Entry → List InstanceSnapshot → List InstanceSnapshot
add_candidate id none l = l
add_candidate id (some e) l = if not (is_active e.state) || e.pinned then l else snapshot id e ∷ l

reap_candidates_of : List (ℕ × Entry) → Pool → List InstanceSnapshot
reap_candidates_of [] p = []
reap_candidates_of ((id, e) ∷ es) p = add_candidate id (some e) (reap_candidates_of es p)

-- `snapshotReapCandidates`.
unfoldable pub snapshot_reap_candidates : Pool → List InstanceSnapshot
unfolding reap_candidates_of
snapshot_reap_candidates p = reap_candidates_of p.by_id p

-- The entry is as it was observed.
abbrev pub is_same : InstanceSnapshot → Entry → Bool
is_same s e = is_active e.state && (e.generation == s.generation && e.revision == s.revision)

abbrev pub set_empty_since : ℕ → Entry → Entry
set_empty_since time e = record e { empty_since = time; revision = e.revision + 1 }

abbrev pub is_occupied : OccupancySnapshot → Entry → Bool
is_occupied c e = ltb 0 c.occupancy || ltb 0 e.reserved

unfoldable pub reap_entry : (now grace : ℕ) → OccupancySnapshot → Option Entry → Pool → Pool × ℕ
reap_entry now grace c none p = (p, 0)
reap_entry now grace c (some e) p =
    if not (is_same c.seen e)
    then (p, 0)
    else if is_occupied c e
    then (if e.empty_since == 0 then (p, 0) else (touch c.seen.id (set_empty_since 0 e) p, 0))
    else if e.empty_since == 0
    then (touch c.seen.id (set_empty_since now e) p, 0)
    else if ltb now (e.empty_since + grace)
    then (p, 0)
    else (evict_entry c.seen.id e p, 1)

-- One round of the loop of `Reap`, with the number of entries that it removes.
unfoldable pub reap_one : (now grace : ℕ) → OccupancySnapshot → Pool → Pool × ℕ
unfolding reap_entry
reap_one now grace c p = reap_entry now grace c (lookup c.seen.id p.by_id) p

-- `Reap` over the measured candidates, to which other calls may have come between.
unfoldable pub reap : (now grace : ℕ) → List OccupancySnapshot → Pool → Pool × ℕ
unfolding reap_one
reap now grace [] p = (p, 0)
reap now grace (c ∷ cs) p =
    let one = reap_one now grace c p in
    let rest = reap now grace cs one.0 in (rest.0, one.1 + rest.1)

get_entry : Option Entry → Option ℕ
get_entry none = none
get_entry (some e) = if is_active e.state then some e.inst else none

-- `Get`.
unfoldable pub get : ℕ → Pool → Option ℕ
unfolding get_entry
get id p = get_entry (lookup id p.by_id)

-- The loop of `Count`.
count_active : List (ℕ × Entry) → ℕ
count_active [] = 0
count_active ((id, e) ∷ es) =
    let rest = count_active es in if is_active e.state then rest + 1 else rest

-- `Count`.
unfoldable pub count : Pool → ℕ
unfolding count_active
count p = count_active p.by_id
