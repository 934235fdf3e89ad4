-- ===== src/Service/Fuel.antt =====
-- The search of `topologicalSort` ends: its path has no service twice, so its depth is bounded.
use z_engine.Common.{
  Bool-cases, Option-cases, Result-cases, Result, ok, err, is_some, length, ℕ, zero, suc, ◌+◌, ◌≤◌,
  ◌<◌, ◌≡◌, refl, sym, ◌∙◌, subst, ◌≢◌, ◌⊎◌, inl, inr, true, false, Option, none, some, List, [],
  ◌∷◌, arith,
}
use z_engine.Common.TypedMap.{lookup, erase, lookup-erase}
use z_engine.Service.{
  Infos, ServiceError, out_of_fuel, dependency_missing, dependency_cycle, sort_ids, Search, mem,
  visit_deps, visit, dfs, visit_all, ids_of, result_of, topological_sort,
}
use z_engine.Service.Order.{dfs-temp}

erase-le : (es : Infos) (k : ℕ) → length (erase k es) ≤ length es
erase-le [] k = omega arith
erase-le ((j, v) ∷ es) k = ground (arith, erase-le es k)

erase-lt : (es : Infos) (k : ℕ) → is_some (lookup k es) ≡ true → length (erase k es) < length es
erase-lt [] k h = ground arith
erase-lt ((j, v) ∷ es) k h = ground (arith, erase-le es k, erase-lt es k)

-- A path: known services, none twice.
abbrev IsPath : Infos → List ℕ → Type 0
IsPath infos [] = Unit
IsPath infos (k ∷ ks) = (is_some (lookup k infos) ≡ true) × (mem k ks ≡ false) × IsPath infos ks

IsPath-erase :
    (infos : Infos) (k : ℕ) (ks : List ℕ)
    → mem k ks ≡ false
    → IsPath infos ks
    → IsPath (erase k infos) ks
IsPath-erase infos k [] n h = tt
IsPath-erase infos k (j ∷ ks) n h =
    (ground (arith, lookup-erase infos k j), h.1, IsPath-erase infos k ks (ground arith) h.2)

path-length : (infos : Infos) (ks : List ℕ) → IsPath infos ks → length ks ≤ length infos
path-length infos [] h = omega arith
path-length infos (k ∷ ks) h =
    omega (
      arith,
      path-length (erase k infos) ks (IsPath-erase infos k ks h.1 h.2),
      erase-lt infos k h.0,
    )

module _ (infos : Infos) where
  abbrev Fuelled : Result ServiceError Search → Type 0
  Fuelled r = r ≢ err out_of_fuel

  visit_deps-Fuelled :
      (f : ℕ → Search → Result ServiceError Search) (path : List ℕ)
      → ((id : ℕ) (s : Search) → s.temp ≡ path → Fuelled (f id s))
      → ((id : ℕ) (s t : Search) → f id s ≡ ok t → t.temp ≡ s.temp)
      → (ds : List ℕ) (s : Search) → s.temp ≡ path
      → Fuelled (visit_deps infos f ds s)
  unfolding visit_deps
  visit_deps-Fuelled f path k kt [] s p = ground arith
  visit_deps-Fuelled f path k kt (d ∷ ds) s p = elim (Result-cases (f d s)) [
    | inl (t, e) ↦ ground (arith, visit_deps-Fuelled f path k kt ds t (kt d s t e ∙ p))
    | inr (x, e) ↦ ground (arith, k d s p)
  ]

  visit-Fuelled :
      (f : ℕ → Search → Result ServiceError Search) (id : ℕ) (s : Search) (o : Option (List ℕ))
      → ((ds : List ℕ) → Fuelled (visit_deps infos f ds s))
      → Fuelled (visit infos f id s o)
  unfolding visit
  visit-Fuelled f id s none k = ground arith
  visit-Fuelled f id s (some deps) k = elim (Result-cases (visit_deps infos f (sort_ids deps) s)) [
    | inl (t, e) ↦ ground arith
    | inr (x, e) ↦ ground (arith, k (sort_ids deps))
  ]

  unknown-Fuelled :
      (f : ℕ → Search → Result ServiceError Search) (id : ℕ) (s : Search)
      → Fuelled (visit infos f id s none)
  unfolding visit
  unknown-Fuelled f id s = ground arith

  dfs-Fuelled :
      (n id : ℕ) (s : Search)
      → IsPath infos s.temp
      → length infos < n + length s.temp
      → Fuelled (dfs infos n id s)
  unfolding dfs
  dfs-Fuelled zero id s p h = ground (arith, path-length infos s.temp p)
  dfs-Fuelled (suc n) id s p h = elim (Bool-cases (mem id s.temp)) [
    | inl m ↦ ground arith
    | inr m ↦ elim (Option-cases (lookup id infos)) [
      | inl e ↦ ground (arith, unknown-Fuelled (dfs infos n) id (record s { temp = id ∷ s.temp }))
      | inr (deps, e) ↦
          (let path = id ∷ s.temp in
            let ready : IsPath infos path = (ground arith, m, p) in
            let below =
              visit-Fuelled (dfs infos n) id (record s { temp = path }) (lookup id infos)
                (λ ds.
                  visit_deps-Fuelled (dfs infos n) path
                    (λ i t q.
                      dfs-Fuelled n i t (subst (IsPath infos) (sym q) ready)
                        (subst (λ x. length infos < n + length x) (sym q) (omega arith)))
                    (dfs-temp infos n) ds (record s { temp = path }) refl) in
            ground (arith, below))
    ]
  ]

  visit_all-Fuelled :
      (n : ℕ) (ids : List ℕ) (s : Search)
      → s.temp ≡ []
      → length infos < n
      → Fuelled (visit_all infos n ids s)
  unfolding visit_all
  visit_all-Fuelled n [] s p h = ground arith
  visit_all-Fuelled n (id ∷ ids) s p h = elim (Bool-cases (mem id s.visited)) [
    | inl m ↦ ground (arith, visit_all-Fuelled n ids s p h)
    | inr m ↦ elim (Result-cases (dfs infos n id s)) [
      | inl (t, e) ↦ ground (arith, visit_all-Fuelled n ids t (dfs-temp infos n id s t e ∙ p) h)
      | inr (x, e) ↦ ground (
        arith,
        dfs-Fuelled n id s (subst (IsPath infos) (sym p) tt)
            (subst (λ y. length infos < n + length y) (sym p) (omega arith)),
      )
    ]
  ]

  -- An error of the search other than the lack of fuel.
  named :
      (x : ServiceError)
      → visit_all infos
          (length infos + 1)
          (sort_ids (ids_of infos))
          (record { visited = []; temp = []; result = [] })
        ≡ err x
      → Fuelled (
          visit_all infos
            (length infos + 1)
            (sort_ids (ids_of infos))
            (record { visited = []; temp = []; result = [] }))
      → ((ids : List ℕ) × (topological_sort infos ≡ ok ids))
        ⊎ ((id : ℕ) × ((topological_sort infos ≡ err (dependency_missing id))
              ⊎ (topological_sort infos ≡ err (dependency_cycle id))))
  unfolding topological_sort result_of
  named (dependency_missing id) e f = inr (id, inl (ground arith))
  named (dependency_cycle id) e f = inr (id, inr (ground arith))
  named out_of_fuel e f = elim (f e) [ ]

  -- The fuel of `topologicalSort` is enough: it returns an order, or one of the two errors of the
  -- code, a missing service or a cycle.
  pub topological_sort_ends :
      ((ids : List ℕ) × (topological_sort infos ≡ ok ids))
      ⊎ ((id : ℕ) × ((topological_sort infos ≡ err (dependency_missing id))
            ⊎ (topological_sort infos ≡ err (dependency_cycle id))))
  unfolding topological_sort result_of
  topological_sort_ends =
      let start : Search = record { visited = []; temp = []; result = [] } in
      elim (Result-cases (visit_all infos (length infos + 1) (sort_ids (ids_of infos)) start)) [
        | inl (t, e) ↦ inl (t.result, ground arith)
        | inr (x, e) ↦ named x e (
            visit_all-Fuelled (length infos + 1) (sort_ids (ids_of infos)) start refl (omega arith))
      ]
