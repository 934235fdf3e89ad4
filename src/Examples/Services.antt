-- ===== src/Examples/Services.antt =====
-- The theorems on the order of services, at three services of which the first depends on the others.
use z_engine.Common.{◌==◌, ok, err, All, ℕ, ◌≡◌, refl, ◌⊎◌, Bool, true, not, List, [], ◌∷◌, reverse}
use z_engine.Service.{
  visit_all, sort_ids, insert_id, dfs, visit_deps, finish, Infos, mem, ids_of, dependency_missing,
  dependency_cycle, topological_sort,
}
use z_engine.Service.Order.{Closed, topological_sort_sound}
use z_engine.Service.Startup.{created, States, Initialization, init_all, init_services}
use z_engine.Service.Startup.Rollback.{Settled, init_services-Settled}
use z_engine.Service.Fuel.{topological_sort_ends}

abbrev services : Infos
services = (1, 3 ∷ 2 ∷ []) ∷ (2, 3 ∷ []) ∷ (3, []) ∷ []

services-sorted : topological_sort services ≡ ok (3 ∷ 2 ∷ 1 ∷ [])
unfolding topological_sort visit_all sort_ids insert_id dfs visit_deps finish
services-sorted = refl

topological_sort_sound_example :
    Closed services (reverse (3 ∷ 2 ∷ 1 ∷ []))
    × All (λ k. mem k (reverse (3 ∷ 2 ∷ 1 ∷ [])) ≡ true) (ids_of services)
topological_sort_sound_example = topological_sort_sound services (3 ∷ 2 ∷ 1 ∷ []) services-sorted

topological_sort_ends_example :
    ((ids : List ℕ) × (topological_sort services ≡ ok ids))
    ⊎ ((id : ℕ) × ((topological_sort services ≡ err (dependency_missing id))
          ⊎ (topological_sort services ≡ err (dependency_cycle id))))
topological_sort_ends_example = topological_sort_ends services

-- The `Init` of service 1 fails.
abbrev first_fails : ℕ → Bool
first_fails id = not (id == 1)

abbrev all_close : ℕ → Bool
all_close id = true

abbrev fresh_states : States
fresh_states id = created

abbrev rolled_back : Initialization
rolled_back = init_all first_fails all_close (3 ∷ 2 ∷ 1 ∷ []) [] fresh_states

services-initialized : init_services services first_fails all_close fresh_states ≡ ok rolled_back
unfolding init_services topological_sort visit_all sort_ids insert_id dfs visit_deps finish
services-initialized = refl

init_services-Settled_example :
    (ids : List ℕ) × (topological_sort services ≡ ok ids)
    × Settled first_fails all_close fresh_states ids rolled_back
init_services-Settled_example =
    init_services-Settled first_fails all_close services fresh_states rolled_back
      services-initialized
