-- ===== src/Service.antt =====
-- zService/service_manager.go: the order in which the services of a `ServiceManager` are started
-- and closed. An id is a number, ordered as the texts that `serviceIDKey` makes of ids are; an
-- id that is nil or not comparable is one that no service has.
pub mod Order
pub mod Fuel
pub mod Startup
use z_engine.Common.{
  ◌>>=◌, ◌>>◌, ltb, ◌==◌, if◌then◌else◌, Result, ok, err, ◌>>=◌, guard, is_some, length, ℕ, zero,
  suc, ◌+◌, Bool, false, ◌||◌, Option, none, some, List, [], ◌∷◌, ◌++◌,
}
use z_engine.Common.TypedMap.{lookup}

-- The map of service ids to the ids that each depends on.
abbrev pub Infos : Type 0
Infos = List (ℕ × List ℕ)

pub data ServiceError : Type 0 where
  dependency_missing dependency_cycle : ℕ → ServiceError
  out_of_fuel : ServiceError

-- `sort.Slice` by the key of the ids.
unfoldable pub insert_id : ℕ → List ℕ → List ℕ
insert_id a [] = a ∷ []
insert_id a (b ∷ bs) = if ltb b a then b ∷ insert_id a bs else a ∷ b ∷ bs

unfoldable pub sort_ids : List ℕ → List ℕ
sort_ids [] = []
sort_ids (a ∷ as') = insert_id a (sort_ids as')

-- `visited` and `temp` as the ids that they map to true, and `result`.
pub record Search : Type 0 where
  pub visited : List ℕ
  pub temp : List ℕ
  pub result : List ℕ

abbrev pub mem : ℕ → List ℕ → Bool
mem j [] = false
mem j (k ∷ ks) = k == j || mem j ks

abbrev pub unmark : ℕ → List ℕ → List ℕ
unmark j [] = []
unmark j (k ∷ ks) = if k == j then unmark j ks else k ∷ unmark j ks

-- The end of a visit: the service is appended, and its marks change.
unfoldable pub finish : ℕ → Search → Search
finish id s = record {
  visited = id ∷ s.visited;
  temp = unmark id s.temp;
  result = s.result ++ id ∷ [];
}

-- The loop over the dependencies, by a function that visits one.
unfoldable pub visit_deps :
    Infos → (ℕ → Search → Result ServiceError Search) → List ℕ → Search → Result ServiceError Search
visit_deps infos f [] s = ok s
visit_deps infos f (d ∷ ds) s = do
  guard (is_some (lookup d infos)) (dependency_missing d)
  t ← f d s
  visit_deps infos f ds t

unfoldable pub visit :
    Infos
    → (ℕ → Search → Result ServiceError Search)
    → ℕ
    → Search
    → Option (List ℕ)
    → Result ServiceError Search
visit infos f id s none = err (dependency_missing id)
visit infos f id s (some deps) = do t ← visit_deps infos f (sort_ids deps) s; ok (finish id t)

-- `dfs`; the fuel bounds the depth of its recursion.
unfoldable pub dfs : Infos → ℕ → ℕ → Search → Result ServiceError Search
unfolding visit
dfs infos zero id s = err out_of_fuel
dfs infos (suc n) id s =
    if mem id s.temp
    then err (dependency_cycle id)
    else if mem id s.visited
    then ok s
    else visit infos (dfs infos n) id (record s { temp = id ∷ s.temp }) (lookup id infos)

-- The loop over all ids.
unfoldable pub visit_all : Infos → ℕ → List ℕ → Search → Result ServiceError Search
visit_all infos n [] s = ok s
visit_all infos n (id ∷ ids) s =
    if mem id s.visited
    then visit_all infos n ids s
    else (dfs infos n id s >>= λ t. visit_all infos n ids t)

abbrev pub ids_of : Infos → List ℕ
ids_of [] = []
ids_of ((k, deps) ∷ es) = k ∷ ids_of es

result_of : Result ServiceError Search → Result ServiceError (List ℕ)
result_of (ok s) = ok s.result
result_of (err e) = err e

-- `topologicalSort`, with fuel for a path through all services.
unfoldable pub topological_sort : Infos → Result ServiceError (List ℕ)
unfolding result_of
topological_sort infos = result_of (
    visit_all infos (length infos + 1) (sort_ids (ids_of infos))
      (record { visited = []; temp = []; result = [] }))
