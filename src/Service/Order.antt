-- ===== src/Service/Order.antt =====
-- The result of `topologicalSort` has every service once, behind all that it depends on.
use z_engine.Common.{
  ltb, ◌==◌, if◌then◌else◌, ==-refl, Bool-cases, Result-cases, Result, ok, length, All, ℕ, zero,
  suc, ◌+◌, ◌≡◌, refl, sym, ap, ◌∙◌, subst, ◌⊎◌, inl, inr, true, false, Option, none, some, List,
  [], ◌∷◌, reverse, arith,
}
use mathlib.Core.List.{reverse-append}
use z_engine.Common.TypedMap.{lookup}
use z_engine.Service.{
  Infos, ServiceError, insert_id, sort_ids, Search, mem, unmark, finish, visit_deps, visit, dfs,
  visit_all, ids_of, result_of, topological_sort,
}

-- What a service depends on has been seen; a service that is not known has not been.
abbrev AllSeen : List ℕ → Option (List ℕ) → Type 0
AllSeen ks none = ⊥
AllSeen ks (some deps) = All (λ d. mem d ks ≡ true) deps

-- No id stands twice, each is known, and each stands before all that it depends on.
abbrev pub Closed : Infos → List ℕ → Type 0
Closed infos [] = Unit
Closed infos (k ∷ ks) = (mem k ks ≡ false) × AllSeen ks (lookup k infos) × Closed infos ks

module _ (P : ℕ → Type 0) where
  insert_id-All : (a : ℕ) (bs : List ℕ) → All P (insert_id a bs) → P a × All P bs
  unfolding insert_id
  insert_id-All a [] h = (h.0, tt)
  insert_id-All a (b ∷ bs) h = elim (Bool-cases (ltb b a)) [
    | inl e ↦
        (let t : All P (b ∷ insert_id a bs) =
            subst (λ x. All P (if x then b ∷ insert_id a bs else a ∷ b ∷ bs)) e h in
          let r = insert_id-All a bs t.1 in (r.0, (t.0, r.1)))
    | inr e ↦
        (let t : All P (a ∷ b ∷ bs) =
            subst (λ x. All P (if x then b ∷ insert_id a bs else a ∷ b ∷ bs)) e h in
          (t.0, t.1))
  ]

  sort_ids-All : (as' : List ℕ) → All P (sort_ids as') → All P as'
  unfolding sort_ids
  sort_ids-All [] h = tt
  sort_ids-All (a ∷ as') h = let r = insert_id-All a (sort_ids as') h in (r.0, sort_ids-All as' r.1)

unmark-absent : (k : ℕ) (ks : List ℕ) → mem k ks ≡ false → unmark k ks ≡ ks
unmark-absent k [] h = refl
unmark-absent k (j ∷ ks) h = ground (arith, unmark-absent k ks)

module _ (infos : Infos) where
  absurd_visit :
      (f : ℕ → Search → Result ServiceError Search) (id : ℕ) (s t : Search)
      → ¬ (visit infos f id s none ≡ ok t)
  unfolding visit
  absurd_visit f id s t h = ground arith

  absurd_fuel : (id : ℕ) (s t : Search) → ¬ (dfs infos zero id s ≡ ok t)
  unfolding dfs
  absurd_fuel id s t h = ground arith

  finish-temp :
      (id : ℕ) (s u t : Search)
      → u.temp ≡ id ∷ s.temp
      → mem id s.temp ≡ false
      → finish id u ≡ t
      → t.temp ≡ s.temp
  unfolding finish
  finish-temp id s u t e n h = ground (arith, unmark-absent id s.temp n, ==-refl id)

  -- A successful visit in parts.
  visit_deps-ok :
      (f : ℕ → Search → Result ServiceError Search) (d : ℕ) (ds : List ℕ) (s t : Search)
      → visit_deps infos f (d ∷ ds) s ≡ ok t
      → (u : Search) × (f d s ≡ ok u) × (visit_deps infos f ds u ≡ ok t)
  unfolding visit_deps
  visit_deps-ok f d ds s t h = elim (Result-cases (f d s)) [
    | inl (u, e) ↦ (u, e, ground arith)
    | inr (u, e) ↦ ground arith
  ]

  visit-ok :
      (f : ℕ → Search → Result ServiceError Search) (id : ℕ) (deps : List ℕ) (s t : Search)
      → visit infos f id s (some deps) ≡ ok t
      → (u : Search) × (visit_deps infos f (sort_ids deps) s ≡ ok u) × (finish id u ≡ t)
  unfolding visit
  visit-ok f id deps s t h = elim (Result-cases (visit_deps infos f (sort_ids deps) s)) [
    | inl (u, e) ↦ (u, e, ground arith)
    | inr (u, e) ↦ ground arith
  ]

  -- A successful visit of an id not seen before.
  record Visited (f : ℕ → Search → Result ServiceError Search) (id : ℕ) (s t : Search)
      : Type 0 where
    deps : List ℕ
    known : lookup id infos ≡ some deps
    off_path : mem id s.temp ≡ false
    new : mem id s.visited ≡ false
    end : Search
    below : visit_deps infos f (sort_ids deps) (record s { temp = id ∷ s.temp }) ≡ ok end
    last : finish id end ≡ t

  visit-Visited :
      (f : ℕ → Search → Result ServiceError Search) (id : ℕ) (s t : Search) (o : Option (List ℕ))
      → lookup id infos ≡ o
      → mem id s.temp ≡ false
      → mem id s.visited ≡ false
      → visit infos f id (record s { temp = id ∷ s.temp }) o ≡ ok t
      → Visited f id s t
  visit-Visited f id s t none e p n h =
      elim (absurd_visit f id (record s { temp = id ∷ s.temp }) t h) [ ]
  visit-Visited f id s t (some deps) e p n h =
      let r = visit-ok f id deps (record s { temp = id ∷ s.temp }) t h in
      record { deps = deps; known = e; off_path = p; new = n; end = r.0; below = r.1; last = r.2 }

  dfs-ok :
      (n id : ℕ) (s t : Search)
      → dfs infos (suc n) id s ≡ ok t
      → ((s ≡ t) × (mem id s.visited ≡ true) × (mem id s.temp ≡ false))
        ⊎ Visited (dfs infos n) id s t
  unfolding dfs
  dfs-ok n id s t h = elim (Bool-cases (mem id s.temp)) [
    | inl e ↦ ground arith
    | inr e ↦ elim (Bool-cases (mem id s.visited)) [
      | inl v ↦ inl (ground arith, v, e)
      | inr v ↦ inr (visit-Visited (dfs infos n) id s t (lookup id infos) refl e v (ground arith))
    ]
  ]

  visit_deps-temp :
      (f : ℕ → Search → Result ServiceError Search)
      (k : (id : ℕ) (s t : Search) → f id s ≡ ok t → t.temp ≡ s.temp) (ds : List ℕ) (s t : Search)
      → visit_deps infos f ds s ≡ ok t
      → t.temp ≡ s.temp
  unfolding visit_deps
  visit_deps-temp f k [] s t h = ground arith
  visit_deps-temp f k (d ∷ ds) s t h =
      let r = visit_deps-ok f d ds s t h in visit_deps-temp f k ds r.0 t r.2 ∙ k d s r.0 r.1

  -- A visit leaves the path as it was.
  pub dfs-temp : (n id : ℕ) (s t : Search) → dfs infos n id s ≡ ok t → t.temp ≡ s.temp
  dfs-temp zero id s t h = elim (absurd_fuel id s t h) [ ]
  dfs-temp (suc n) id s t h = elim (dfs-ok n id s t h) [
    | inl e ↦ ap (λ x. x.temp) (sym e.0)
    | inr v ↦
        (let below =
            visit_deps-temp (dfs infos n) (dfs-temp n) (sort_ids v.deps)
              (record s { temp = id ∷ s.temp }) v.end v.below in
          finish-temp id s v.end t below v.off_path v.last)
  ]

  -- The state of a search: what is visited is the result, last first, and not on the path.
  record Inv (s : Search) : Type 0 where
    reversed : reverse s.result ≡ s.visited
    closed : Closed infos s.visited
    apart : (j : ℕ) → mem j s.temp ≡ true → mem j s.visited ≡ false

  -- What a search does to its state.
  record Step (s t : Search) : Type 0 where
    grows : (j : ℕ) → mem j s.visited ≡ true → mem j t.visited ≡ true
    inv : Inv t

  abbrev IsVisitor : (ℕ → Search → Result ServiceError Search) → Type 0
  IsVisitor f =
      (id : ℕ) (s t : Search) → Inv s → f id s ≡ ok t → Step s t × (mem id t.visited ≡ true)

  visit_deps-Step :
      (f : ℕ → Search → Result ServiceError Search)
      → IsVisitor f
      → (ds : List ℕ) (s t : Search) → Inv s
      → visit_deps infos f ds s ≡ ok t
      → Step s t × All (λ d. mem d t.visited ≡ true) ds
  unfolding visit_deps
  visit_deps-Step f k [] s t v h =
      let e : s ≡ t = ground arith in
      (record { grows = λ j m. subst (λ x. mem j x.visited ≡ true) e m; inv = subst Inv e v }, tt)
  visit_deps-Step f k (d ∷ ds) s t v h =
      let r = visit_deps-ok f d ds s t h in
      let head = k d s r.0 v r.1 in
      let tail = visit_deps-Step f k ds r.0 t head.0.inv r.2 in
      (
        record { grows = λ j m. tail.0.grows j (head.0.grows j m); inv = tail.0.inv },
        (tail.0.grows d head.1, tail.1),
      )

  push-Inv :
      (id : ℕ) (s : Search)
      → mem id s.visited ≡ false
      → Inv s
      → Inv (record s { temp = id ∷ s.temp })
  push-Inv id s n v = record {
    reversed = v.reversed;
    closed = v.closed;
    apart = λ j m. ground (arith, v.apart j);
  }

  mem-unmark : (j k : ℕ) (ks : List ℕ) → mem j (unmark k ks) ≡ (if k == j then false else mem j ks)
  mem-unmark j k [] = ground arith
  mem-unmark j k (i ∷ ks) = ground (arith, mem-unmark j k ks)

  finish-Inv :
      (id : ℕ) (deps : List ℕ) (s : Search)
      → Inv s
      → lookup id infos ≡ some deps
      → mem id s.temp ≡ true
      → All (λ d. mem d s.visited ≡ true) deps
      → Inv (finish id s)
  unfolding finish
  finish-Inv id deps s v e m a = record {
    reversed = reverse-append s.result (id ∷ []) ∙ ap (λ x. id ∷ x) v.reversed;
    closed = (v.apart id m, subst (AllSeen s.visited) (sym e) a, v.closed);
    apart = λ j q. ground (arith, v.apart j, mem-unmark j id s.temp);
  }

  finish-grows :
      (id : ℕ) (s : Search)
      → ((j : ℕ) → mem j s.visited ≡ true → mem j (finish id s).visited ≡ true)
        × (mem id (finish id s).visited ≡ true)
  unfolding finish
  finish-grows id s = (λ j m. ground arith, ground (arith, ==-refl id))

  mem_head : (id : ℕ) (ks : List ℕ) → mem id (id ∷ ks) ≡ true
  mem_head id ks = ground (arith, ==-refl id)

  visited-Step :
      (f : ℕ → Search → Result ServiceError Search)
      → IsVisitor f
      → ((id : ℕ) (s t : Search) → f id s ≡ ok t → t.temp ≡ s.temp)
      → (id : ℕ) (s t : Search) → Inv s
      → Visited f id s t
      → Step s t × (mem id t.visited ≡ true)
  visited-Step f k kt id s t v w =
      let start : Search = record s { temp = id ∷ s.temp } in
      let path = visit_deps-temp f kt (sort_ids w.deps) start w.end w.below in
      let step =
        visit_deps-Step f k (sort_ids w.deps) start w.end (push-Inv id s w.new v) w.below in
      let seen = sort_ids-All (λ d. mem d w.end.visited ≡ true) w.deps step.1 in
      let on_path = subst (λ x. mem id x ≡ true) (sym path) (mem_head id s.temp) in
      let more = finish-grows id w.end in
      subst (λ x. Step s x × (mem id x.visited ≡ true)) w.last
        (
          record {
            grows = λ j m. more.0 j (step.0.grows j m);
            inv = finish-Inv id w.deps w.end step.0.inv w.known on_path seen;
          },
          more.1,
        )

  dfs-IsVisitor : (n : ℕ) → IsVisitor (dfs infos n)
  dfs-IsVisitor zero id s t v h = elim (absurd_fuel id s t h) [ ]
  dfs-IsVisitor (suc n) id s t v h = elim (dfs-ok n id s t h) [
    | inl e ↦ (
      record { grows = λ j m. subst (λ x. mem j x.visited ≡ true) e.0 m; inv = subst Inv e.0 v },
      subst (λ x. mem id x.visited ≡ true) e.0 e.1,
    )
    | inr w ↦ visited-Step (dfs infos n) (dfs-IsVisitor n) (dfs-temp n) id s t v w
  ]

  visit_all-Step :
      (n : ℕ) (ids : List ℕ) (s t : Search)
      → Inv s
      → visit_all infos n ids s ≡ ok t
      → Step s t × All (λ d. mem d t.visited ≡ true) ids
  unfolding visit_all
  visit_all-Step n [] s t v h =
      let e : s ≡ t = ground arith in
      (record { grows = λ j m. subst (λ x. mem j x.visited ≡ true) e m; inv = subst Inv e v }, tt)
  visit_all-Step n (id ∷ ids) s t v h = elim (Bool-cases (mem id s.visited)) [
    | inl m ↦
        (let tail = visit_all-Step n ids s t v (ground arith) in
          (tail.0, (tail.0.grows id m, tail.1)))
    | inr m ↦ elim (Result-cases (dfs infos n id s)) [
      | inl (u, e) ↦
          (let head = dfs-IsVisitor n id s u v e in
            let tail = visit_all-Step n ids u t head.0.inv (ground arith) in
            (
              record { grows = λ j q. tail.0.grows j (head.0.grows j q); inv = tail.0.inv },
              (tail.0.grows id head.1, tail.1),
            ))
      | inr (u, e) ↦ ground arith
    ]
  ]

  empty-Inv : Inv (record { visited = []; temp = []; result = [] })
  empty-Inv = record { reversed = refl; closed = tt; apart = λ j m. ground arith }

  -- The list that `topologicalSort` returns has every service of the manager, none twice and no
  -- other, and each behind all the services that it depends on.
  pub topological_sort_sound :
      (ids : List ℕ)
      → topological_sort infos ≡ ok ids
      → Closed infos (reverse ids) × All (λ k. mem k (reverse ids) ≡ true) (ids_of infos)
  unfolding topological_sort result_of
  topological_sort_sound ids h =
      let start : Search = record { visited = []; temp = []; result = [] } in
      elim (Result-cases (visit_all infos (length infos + 1) (sort_ids (ids_of infos)) start)) [
        | inl (t, e) ↦
            (let r =
                visit_all-Step (length infos + 1) (sort_ids (ids_of infos)) start t empty-Inv e in
              let same : t.result ≡ ids = ground arith in
              let all = sort_ids-All (λ k. mem k t.visited ≡ true) (ids_of infos) r.1 in
              let back : t.visited ≡ reverse ids = sym r.0.inv.reversed ∙ ap reverse same in
              (
                subst (Closed infos) back r.0.inv.closed,
                subst (λ x. All (λ k. mem k x ≡ true) (ids_of infos)) back all,
              ))
        | inr (t, e) ↦ ground arith
      ]
