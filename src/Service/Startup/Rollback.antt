-- ===== src/Service/Startup/Rollback.antt =====
-- `InitServices` either initializes or leaves no trace but stopped services.
use z_engine.Common.{
  ◌==◌, if◌then◌else◌, ==_iff, ==-refl, Bool-cases, Result-cases, ok, All, ℕ, ◌≡◌, refl, sym, ap,
  ◌∙◌, subst, ◌⊎◌, inl, inr, Bool, true, false, ◌&&◌, ◌||◌, none, some, List, [], ◌∷◌, ◌++◌, arith,
}
use z_engine.Service.{Infos, mem, topological_sort}
use z_engine.Service.Startup.{
  ServiceState, created, init, stopped, States, set, is_created, is_open, Closing, close_service,
  close_services, Initialization, roll_back, init_all, init_services,
}

-- The state of one service, once it is closed.
abbrev closed_state : Bool → ServiceState → ServiceState
closed_state b s = if b && is_open s then stopped else s

closed_state-twice :
    (a b : Bool) (s : ServiceState) → closed_state a (closed_state b s) ≡ closed_state (a || b) s
closed_state-twice true true s = ground arith
closed_state-twice true false s = refl
closed_state-twice false b s = refl

states-close_service :
    (closes : ℕ → Bool) (id : ℕ) (c : Closing) (j : ℕ)
    → (close_service closes id c).states j ≡ closed_state (id == j) (c.states j)
unfolding close_service
states-close_service closes id c j = elim (Bool-cases (id == j)) [
  | inl e ↦
      subst (λ x. (close_service closes id c).states x ≡ closed_state (id == x) (c.states x))
        ((==_iff id j).0 e) (ground (arith, ==-refl id))
  | inr e ↦ ground arith
]

states-close_services :
    (closes : ℕ → Bool) (ids : List ℕ) (c : Closing) (j : ℕ)
    → (close_services closes ids c).states j ≡ closed_state (mem j ids) (c.states j)
unfolding close_services
states-close_services closes [] c j = refl
states-close_services closes (id ∷ ids) c j =
    states-close_service closes id (close_services closes ids c) j
    ∙ (ap (closed_state (id == j)) (states-close_services closes ids c j)
        ∙ closed_state-twice (id == j) (mem j ids) (c.states j))

mem-append : (j k : ℕ) (ks : List ℕ) → mem j (ks ++ k ∷ []) ≡ (mem j ks || k == j)
mem-append j k [] = ground arith
mem-append j k (i ∷ ks) = ground (arith, mem-append j k ks)

-- The state of a service before and after: unchanged, or moved from created to `state`.
abbrev pub Moved : ServiceState → ServiceState → ServiceState → Type 0
Moved state old new = (new ≡ old) ⊎ ((old ≡ created) × (new ≡ state))

-- The services that the loop has initialized, and the others.
record Begun (inits : ℕ → Bool) (m0 : States) (ids : List ℕ) (m : States) : Type 0 where
  same : (j : ℕ) → mem j ids ≡ false → m j ≡ m0 j
  begun : (j : ℕ) → mem j ids ≡ true → (m0 j ≡ created) × (m j ≡ init)
  succeeded : (j : ℕ) → mem j ids ≡ true → inits j ≡ true

is_created-eq : (s : ServiceState) → is_created s ≡ true → s ≡ created
is_created-eq s h = ground arith

Begun-fresh :
    (inits : ℕ → Bool) (m0 : States) (ids : List ℕ) (m : States) (id : ℕ)
    → Begun inits m0 ids m
    → is_created (m id) ≡ true
    → (mem id ids ≡ false) × (m0 id ≡ created)
Begun-fresh inits m0 ids m id b c = elim (Bool-cases (mem id ids)) [
  | inl e ↦ (let q = b.begun id e in ground arith)
  | inr e ↦ (e, sym (b.same id e) ∙ is_created-eq (m id) c)
]

set_here : (m : States) (id : ℕ) (s : ServiceState) → set m id s id ≡ s
set_here m id s = ground (arith, ==-refl id)

set_there : (m : States) (id j : ℕ) (s : ServiceState) → (id == j) ≡ false → set m id s j ≡ m j
set_there m id j s h = ground arith

Begun-step :
    (inits : ℕ → Bool) (m0 : States) (ids : List ℕ) (m : States) (id : ℕ)
    → Begun inits m0 ids m
    → is_created (m id) ≡ true
    → inits id ≡ true
    → Begun inits m0 (ids ++ id ∷ []) (set m id init)
Begun-step inits m0 ids m id b c i = record {
  same = λ j h. ground (arith, mem-append j id ids, b.same j);
  begun = λ j h. elim (Bool-cases (id == j)) [
    | inl e ↦
        subst (λ x. (m0 x ≡ created) × (set m id init x ≡ init)) ((==_iff id j).0 e)
          ((Begun-fresh inits m0 ids m id b c).1, set_here m id init)
    | inr e ↦
        (let q = b.begun j (ground (arith, mem-append j id ids)) in
          (q.0, set_there m id j init e ∙ q.1))
  ];
  succeeded = λ j h. elim (Bool-cases (id == j)) [
    | inl e ↦ subst (λ x. inits x ≡ true) ((==_iff id j).0 e) i
    | inr e ↦ b.succeeded j (ground (arith, mem-append j id ids))
  ];
}

-- A service that the loop passes over was created before only if it has been initialized.
Begun-succeeded :
    (inits : ℕ → Bool) (m0 : States) (ids : List ℕ) (m : States) (id : ℕ)
    → Begun inits m0 ids m
    → is_created (m id) ≡ false
    → is_created (m0 id) ≡ true
    → inits id ≡ true
Begun-succeeded inits m0 ids m id b c h = elim (Bool-cases (mem id ids)) [
  | inl e ↦ b.succeeded id e
  | inr e ↦ (let q = b.same id e in ground arith)
]

Begun-Moved :
    (inits : ℕ → Bool) (m0 : States) (ids : List ℕ) (m : States)
    → Begun inits m0 ids m
    → (j : ℕ) → Moved init (m0 j) (m j)
Begun-Moved inits m0 ids m b j = elim (Bool-cases (mem j ids)) [
  | inl e ↦ inr (b.begun j e)
  | inr e ↦ inl (b.same j e)
]

roll_back-Moved :
    (inits : ℕ → Bool) (m0 : States) (ids : List ℕ) (m : States) (id : ℕ) (closes : ℕ → Bool)
    → Begun inits m0 ids m
    → is_created (m id) ≡ true
    → (j : ℕ)
    → Moved stopped (m0 j) (
        (close_services closes ids
            (record { states = set (set m id init) id created; failed = [] })).states
          j)
roll_back-Moved inits m0 ids m id closes b c j =
    let n : States = set (set m id init) id created in
    let e = states-close_services closes ids (record { states = n; failed = [] }) j in
    subst (Moved stopped (m0 j)) (sym e) (elim (Bool-cases (id == j)) [
      | inl h ↦
          subst (λ x. Moved stopped (m0 x) (closed_state (mem x ids) (n x))) ((==_iff id j).0 h)
            (let f = Begun-fresh inits m0 ids m id b c in
              inl (
                ap (λ x. closed_state x (n id)) f.0
                ∙ (set_here (set m id init) id created ∙ sym f.1)))
      | inr h ↦
          (let q : n j ≡ m j = set_there (set m id init) id j created h ∙ set_there m id j init h in
            elim (Bool-cases (mem j ids)) [
              | inl i ↦
                  (let g = b.begun j i in
                    inr (g.0, ap (λ x. closed_state x (n j)) i ∙ ap (closed_state true) (q ∙ g.1)))
              | inr i ↦ inl (ap (λ x. closed_state x (n j)) i ∙ (q ∙ b.same j i))
            ])
    ])

module _ (inits closes : ℕ → Bool) where
  start-next :
      (id : ℕ) (ids done : List ℕ) (m : States)
      → is_created (m id) ≡ true
      → inits id ≡ true
      → init_all inits closes (id ∷ ids) done m
        ≡ init_all inits closes ids (done ++ id ∷ []) (set m id init)
  unfolding init_all
  start-next id ids done m c i = ground arith

  start-skip :
      (id : ℕ) (ids done : List ℕ) (m : States)
      → is_created (m id) ≡ false
      → init_all inits closes (id ∷ ids) done m ≡ init_all inits closes ids done m
  unfolding init_all
  start-skip id ids done m c = ground arith

  start-fail :
      (id : ℕ) (ids done : List ℕ) (m : States)
      → is_created (m id) ≡ true
      → inits id ≡ false
      → let c =
          close_services closes done
            (record { states = set (set m id init) id created; failed = [] }) in
        init_all inits closes (id ∷ ids) done m
        ≡ record { states = c.states; failure = some (id, c.failed) }
  unfolding init_all roll_back
  start-fail id ids done m c i = ground arith

  -- No `Init` has failed, all listed services are beyond `created`, and those that the call
  -- found in `created` were initialized; or that of one of these failed, and was rolled back.
  abbrev pub Settled : States → List ℕ → Initialization → Type 0
  Settled m0 ids r =
      ((r.failure ≡ none)
        × ((j : ℕ) → Moved init (m0 j) (r.states j))
        × All (λ id. is_created (r.states id) ≡ false) ids
        × All (λ id. is_created (m0 id) ≡ true → inits id ≡ true) ids)
      ⊎ ((id : ℕ) × (failed : List ℕ) × (r.failure ≡ some (id, failed))
          × (mem id ids ≡ true)
          × (m0 id ≡ created)
          × (inits id ≡ false)
          × ((j : ℕ) → Moved stopped (m0 j) (r.states j)))

  -- The same, from a state `m` in the loop: who is beyond `created` stays so in a success.
  abbrev SettledFrom : States → States → List ℕ → Initialization → Type 0
  SettledFrom m0 m ids r =
      ((r.failure ≡ none)
        × ((j : ℕ) → Moved init (m0 j) (r.states j))
        × All (λ id. is_created (r.states id) ≡ false) ids
        × All (λ id. is_created (m0 id) ≡ true → inits id ≡ true) ids
        × ((j : ℕ) → is_created (m j) ≡ false → is_created (r.states j) ≡ false))
      ⊎ ((id : ℕ) × (failed : List ℕ) × (r.failure ≡ some (id, failed))
          × (mem id ids ≡ true)
          × (m0 id ≡ created)
          × (inits id ≡ false)
          × ((j : ℕ) → Moved stopped (m0 j) (r.states j)))

  set_init-beyond :
      (m : States) (id j : ℕ) → is_created (m j) ≡ false → is_created (set m id init j) ≡ false
  set_init-beyond m id j h = ground arith

  -- One service more in front, from a state whose services beyond `created` are so in the next.
  SettledFrom-cons :
      (m0 m n : States) (id : ℕ) (ids : List ℕ) (r : Initialization)
      → is_created (n id) ≡ false
      → (is_created (m0 id) ≡ true → inits id ≡ true)
      → ((j : ℕ) → is_created (m j) ≡ false → is_created (n j) ≡ false)
      → SettledFrom m0 n ids r
      → SettledFrom m0 m (id ∷ ids) r
  SettledFrom-cons m0 m n id ids r h i k (inl s) =
      inl (s.0, s.1, (s.4 id h, s.2), (i, s.3), λ j q. s.4 j (k j q))
  SettledFrom-cons m0 m n id ids r h i k (inr (id', failed, e, l, c, f, q)) =
      inr (id', failed, e, ground arith, c, f, q)

  init_all-empty :
      (m0 : States) (done : List ℕ) (m : States)
      → Begun inits m0 done m
      → SettledFrom m0 m [] (init_all inits closes [] done m)
  unfolding init_all
  init_all-empty m0 done m b = inl (refl, Begun-Moved inits m0 done m b, tt, tt, λ j h. h)

  init_all-Settled :
      (m0 : States) (ids done : List ℕ) (m : States)
      → Begun inits m0 done m
      → SettledFrom m0 m ids (init_all inits closes ids done m)
  init_all-Settled m0 [] done m b = init_all-empty m0 done m b
  init_all-Settled m0 (id ∷ ids) done m b = elim (Bool-cases (is_created (m id))) [
    | inl c ↦ elim (Bool-cases (inits id)) [
      | inl i ↦ subst (SettledFrom m0 m (id ∷ ids)) (sym (start-next id ids done m c i)) (
          SettledFrom-cons m0 m (set m id init) id ids
            (init_all inits closes ids (done ++ id ∷ []) (set m id init))
            (ap is_created (set_here m id init)) (λ h. i) (λ j q. set_init-beyond m id j q)
            (init_all-Settled m0 ids (done ++ id ∷ []) (set m id init)
              (Begun-step inits m0 done m id b c i)))
      | inr i ↦
          (let k =
              close_services closes done
                (record { states = set (set m id init) id created; failed = [] }) in
            subst (SettledFrom m0 m (id ∷ ids)) (sym (start-fail id ids done m c i)) (
              inr (
                id,
                k.failed,
                refl,
                ground (arith, ==-refl id),
                (Begun-fresh inits m0 done m id b c).1,
                i,
                roll_back-Moved inits m0 done m id closes b c,
              )))
    ]
    | inr c ↦ subst (SettledFrom m0 m (id ∷ ids)) (sym (start-skip id ids done m c)) (
        SettledFrom-cons m0 m m id ids (init_all inits closes ids done m) c
          (Begun-succeeded inits m0 done m id b c) (λ j q. q) (init_all-Settled m0 ids done m b))
  ]

  SettledFrom-Settled :
      (m0 m : States) (ids : List ℕ) (r : Initialization)
      → SettledFrom m0 m ids r
      → Settled m0 ids r
  SettledFrom-Settled m0 m ids r (inl s) = inl (s.0, s.1, s.2, s.3)
  SettledFrom-Settled m0 m ids r (inr s) = inr s

  init_services-ok :
      (infos : Infos) (m : States) (r : Initialization)
      → init_services infos inits closes m ≡ ok r
      → (ids : List ℕ) × (topological_sort infos ≡ ok ids) × (init_all inits closes ids [] m ≡ r)
  unfolding init_services
  init_services-ok infos m r h = elim (Result-cases (topological_sort infos)) [
    | inl (ids, e) ↦ (ids, e, ground arith)
    | inr (x, e) ↦ ground arith
  ]

  -- After an `InitServices` that found an order, either it reports no failure: the `Init` of each
  -- service of the order that was in `created` succeeds, every service of the order is beyond
  -- `created`, and each service is as it was or has gone from `created` to `init`. Or it reports a
  -- service of the order that was in `created` and whose `Init` fails, and each service is as it was
  -- or has gone from `created` to `stopped`, so that none is left initialized by the call.
  pub init_services-Settled :
      (infos : Infos) (m : States) (r : Initialization)
      → init_services infos inits closes m ≡ ok r
      → (ids : List ℕ) × (topological_sort infos ≡ ok ids) × Settled m ids r
  init_services-Settled infos m r h =
      let p = init_services-ok infos m r h in
      let b : Begun inits m [] m = record {
        same = λ j q. refl;
        begun = λ j q. ground arith;
        succeeded = λ j q. ground arith;
      } in
      (
        p.0,
        p.1,
        subst (Settled m p.0) p.2 (
            SettledFrom-Settled m m p.0 (init_all inits closes p.0 [] m)
              (init_all-Settled m p.0 [] m b)),
      )
