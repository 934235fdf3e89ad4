-- ===== src/Instance/Change.antt =====
-- What the operations of zInstance/pool.go come to, on every branch: an entry is made, changed,
-- removed or evicted, or nothing happens.
use z_engine.Common.{
  ltb, ◌==◌, if◌then◌else◌, ==_iff, ==-refl, Bool-cases, ℕ, ◌+◌, ◌-◌, ◌≡◌, refl, subst, inl, inr,
  Bool, true, false, ◌&&◌, ◌||◌, Option, none, some, List, [], ◌∷◌, arith,
}
use z_engine.Common.TypedMap.{lookup}
use z_engine.Instance.Pool.{
  active, is_active, is_creating, Entry, Pool, version, touch, drop_entry, new_entry, evict_entry,
  one_more, is_placeholder, finish_entry, fail_entry, reserve_entry, release_entry, destroy_entry,
}
use z_engine.Instance.Acquire.{
  OccupancySnapshot, Observation, reserve_observed, take_turn, build_or_wait, still_fits,
}
use z_engine.Instance.Reap.{reap_one, reap, reap_entry, is_same, is_occupied, set_empty_since}

pub data Change : Pool → Pool → Type 0 where
  unchanged : {p q : Pool} → q ≡ p → Change p q
  touched :
      {p q : Pool} (id : ℕ) (e f : Entry)
      → lookup id p.by_id ≡ some e
      → f.key ≡ e.key
      → is_active f.state ≡ true
      → (if is_active e.state then f.inst == e.inst else true) ≡ true
      → q ≡ touch id f p
      → Change p q
  dropped :
      {p q : Pool} (id : ℕ) (e : Entry)
      → lookup id p.by_id ≡ some e
      → q ≡ drop_entry id e p
      → Change p q
  evicted :
      {p q : Pool} (id : ℕ) (e : Entry)
      → lookup id p.by_id ≡ some e
      → q ≡ evict_entry id e p
      → Change p q
  created :
      {p q : Pool} (key reserved : ℕ) (is_pinned : Bool)
      → q ≡ new_entry key is_pinned reserved p
      → Change p q

module _ (id : ℕ) (p : Pool) where
  pub finish_entry-Change :
      (generation inst : ℕ) (o : Option Entry) (q : Pool)
      → lookup id p.by_id ≡ o
      → finish_entry id generation inst o p ≡ some q
      → Change p q
  unfolding finish_entry
  finish_entry-Change generation inst none q l h = ground arith
  finish_entry-Change generation inst (some e) q l h =
      let t : is_active e.state ≡ false = ground arith in
      touched id e (record e { inst = inst; state = active; revision = e.revision + 1 }) l refl refl
        (ground (arith, t)) (ground arith)

  pub fail_entry-Change :
      (generation : ℕ) (o : Option Entry)
      → lookup id p.by_id ≡ o
      → Change p (fail_entry id generation o p)
  unfolding fail_entry
  fail_entry-Change generation none l = unchanged refl
  fail_entry-Change generation (some e) l = elim (Bool-cases (is_placeholder generation e)) [
    | inl t ↦ dropped id e l (ground arith)
    | inr t ↦ unchanged (ground arith)
  ]

  pub reserve_entry-Change :
      (o : Option Entry) → lookup id p.by_id ≡ o → Change p (reserve_entry id o p).0
  unfolding reserve_entry
  reserve_entry-Change none l = unchanged refl
  reserve_entry-Change (some e) l = elim (Bool-cases (is_active e.state)) [
    | inl t ↦ touched id e (one_more e) l refl t (ground (arith, ==-refl e.inst)) (ground arith)
    | inr t ↦ unchanged (ground arith)
  ]

  pub release_entry-Change :
      (o : Option Entry) → lookup id p.by_id ≡ o → Change p (release_entry id o p)
  unfolding release_entry
  release_entry-Change none l = unchanged refl
  release_entry-Change (some e) l = elim (Bool-cases (is_active e.state && ltb 0 e.reserved)) [
    | inl t ↦
        touched id e (record e { reserved = e.reserved - 1; revision = e.revision + 1 }) l refl
          (ground arith) (ground (arith, ==-refl e.inst)) (ground arith)
    | inr t ↦ unchanged (ground arith)
  ]

  pub destroy_entry-Change :
      (o : Option Entry) → lookup id p.by_id ≡ o → Change p (destroy_entry id o p).0
  unfolding destroy_entry
  destroy_entry-Change none l = unchanged refl
  destroy_entry-Change (some e) l = elim (Bool-cases (is_creating e.state || ltb 0 e.reserved)) [
    | inl t ↦ unchanged (ground arith)
    | inr t ↦ evicted id e l (ground arith)
  ]

  reap_entry-Change :
      (now grace : ℕ) (c : OccupancySnapshot) (o : Option Entry)
      → c.seen.id ≡ id
      → lookup id p.by_id ≡ o
      → Change p (reap_entry now grace c o p).0
  unfolding reap_entry
  reap_entry-Change now grace c none i l = unchanged refl
  reap_entry-Change now grace c (some e) i l = elim (Bool-cases (is_same c.seen e)) [
    | inr t ↦ unchanged (ground arith)
    | inl t ↦ elim (Bool-cases (e.empty_since == 0)) [
      | inl z ↦ elim (Bool-cases (is_occupied c e)) [
        | inl b ↦ unchanged (ground arith)
        | inr b ↦
            touched id e (set_empty_since now e) l refl (ground arith)
              (ground (arith, ==-refl e.inst)) (ground arith)
      ]
      | inr z ↦ elim (Bool-cases (is_occupied c e)) [
        | inl b ↦
            touched id e (set_empty_since 0 e) l refl (ground arith)
              (ground (arith, ==-refl e.inst)) (ground arith)
        | inr b ↦ elim (Bool-cases (ltb now (e.empty_since + grace))) [
          | inl u ↦ unchanged (ground arith)
          | inr u ↦ evicted id e l (ground arith)
        ]
      ]
    ]
  ]

-- The entry, where there is one, has the key.
abbrev pub has_key : ℕ → Option Entry → Bool
has_key key none = true
has_key key (some e) = e.key == key

reap_one-Change :
    (now grace : ℕ) (c : OccupancySnapshot) (p : Pool) → Change p (reap_one now grace c p).0
unfolding reap_one
reap_one-Change now grace c p =
    reap_entry-Change c.seen.id p now grace c (lookup c.seen.id p.by_id) refl refl

-- What every change keeps, `Reap` keeps.
pub reap_induction :
    (P : Pool → Type 0) (keeps : (p q : Pool) → Change p q → P p → P q) (now grace : ℕ)
    (cs : List OccupancySnapshot) (p : Pool)
    → P p
    → P (reap now grace cs p).0
unfolding reap
reap_induction P keeps now grace [] p x = x
reap_induction P keeps now grace (c ∷ cs) p x =
    let one = reap_one now grace c p in
    reap_induction P keeps now grace cs one.0 (keeps p one.0 (reap_one-Change now grace c p) x)

reserve_observed-Change :
    (key : ℕ) (c : OccupancySnapshot) (limit : ℕ) (o : Option Entry) (p : Pool)
    → lookup c.seen.id p.by_id ≡ o
    → has_key key o ≡ true
    → Change p (reserve_observed key c limit o p).0
unfolding reserve_observed touch
reserve_observed-Change key c limit none p l k = unchanged refl
reserve_observed-Change key c limit (some e) p l k = elim (Bool-cases (still_fits c limit e)) [
  | inl t ↦
      touched c.seen.id e (one_more e) l refl (ground arith) (ground (arith, ==-refl e.inst))
        (ground (arith, ==_iff e.key key))
  | inr t ↦ unchanged (ground arith)
]

build_or_wait-Change : (key : ℕ) (o : Option ℕ) (p : Pool) → Change p (build_or_wait key o p).0
build_or_wait-Change key none p = created key 1 false refl
build_or_wait-Change key (some id) p = unchanged refl

pub take_turn-Change :
    (o : Observation) (c : Option (OccupancySnapshot × ℕ)) (p : Pool)
    → ((d : OccupancySnapshot) (limit : ℕ)
        → c ≡ some (d, limit)
        → has_key o.key (lookup d.seen.id p.by_id) ≡ true)
    → Change p (take_turn o c p).0
unfolding take_turn
take_turn-Change o (some (d, limit)) p k =
    reserve_observed-Change o.key d limit (lookup d.seen.id p.by_id) p refl (k d limit refl)
take_turn-Change o none p k = elim (Bool-cases (version p o.key == o.key_version)) [
  | inl t ↦ subst (λ r. Change p r) (ground arith) (build_or_wait-Change o.key o.waits_for p)
  | inr t ↦ unchanged (ground arith)
]
