-- ===== src/Instance/Versions.antt =====
-- What an observation of zInstance/pool.go is worth when its key's version has not changed.
use z_engine.Common.{
  leb, ◌==◌, if◌then◌else◌, ==_iff, ==-refl, Bool-cases, is_some, get_elem?, ℕ, zero, suc, ◌+◌, ◌≡◌,
  refl, sym, ◌∙◌, subst, ◌⊎◌, inl, inr, Bool, true, false, ◌&&◌, ◌||◌, Option, none, some, List, [],
  ◌∷◌, arith,
}
use z_engine.Common.TypedMap.{lookup, erase, lookup-erase, lookup-insert}
use z_engine.Instance.Pool.{
  is_active, Entry, Pool, group, version, is_nil, bump, touch, drop_entry, new_entry, evict_entry,
}
use z_engine.Instance.Change.{Change, unchanged, touched, dropped, evicted, created}
use z_engine.Instance.Acquire.{
  InstanceSnapshot, Observation, snapshot, active_of, add_active, first_creating, is_being_created,
  snapshot_group,
}
use z_engine.Instance.Index.{
  Inv, member, is_of, version-bump, touch-Inv, drop_entry-Inv, new_entry-Inv, removed, added,
  lookup-added,
}

-- A snapshot shows the entry as it is.
abbrev pub shows : ℕ → Entry → InstanceSnapshot → Bool
shows j e s = s.id == j && (s.inst == e.inst && s.reserved == e.reserved)

abbrev pub has_snapshot : List InstanceSnapshot → ℕ → Entry → Bool
has_snapshot [] j e = false
has_snapshot (s ∷ ss) j e = shows j e s || has_snapshot ss j e

-- The observation has the entry, where that is of its key: as it is, or as one that is waited for.
abbrev pub covers : Observation → ℕ → Option Entry → Bool
covers o j none = true
covers o j (some e) =
    if e.key == o.key
    then (if is_active e.state then has_snapshot o.snapshots j e else is_some o.waits_for)
    else true

-- The entry, where it still stands, is of the key and has the instance.
abbrev pub fits_snapshot : (key inst : ℕ) → Option Entry → Bool
fits_snapshot key inst none = true
fits_snapshot key inst (some e) = e.key == key && (is_active e.state && e.inst == inst)

-- An observation that was made in an earlier state of the pool.
pub record Seen (o : Observation) (p : Pool) : Type 0 where
  pub older : leb o.key_version p.next_key_version ≡ true
  pub valid :
      (j : ℕ)
      → (if version p o.key == o.key_version then covers o j (lookup j p.by_id) else true) ≡ true
  pub keyed :
      (i : ℕ) (s : InstanceSnapshot)
      → get_elem? o.snapshots i ≡ some s
      → (leb s.id p.next_id && fits_snapshot o.key s.inst (lookup s.id p.by_id)) ≡ true

nil_has_none : (j : ℕ) (ks : List ℕ) → is_nil ks ≡ true → member j ks ≡ false
nil_has_none j [] h = refl
nil_has_none j (k ∷ ks) h = ground arith

module _ (o : Observation) (p : Pool) (v : Inv p) (w : Seen o p) where
  not_of-covers : (j : ℕ) (e : Option Entry) → is_of o.key e ≡ false → covers o j e ≡ true
  not_of-covers j none h = refl
  not_of-covers j (some e) h = ground (arith, h)

  -- The observation stays valid through a change of an entry of one key.
  bump-valid :
      (key j : ℕ) (q : Pool)
      → Inv q
      → version q o.key ≡ (
          if key == o.key
          then (if is_nil (group q key) then 0 else p.next_key_version + 1)
          else version p o.key)
      → ((key == o.key) ≡ false → covers o j (lookup j q.by_id) ≡ covers o j (lookup j p.by_id))
      → (if version q o.key == o.key_version then covers o j (lookup j q.by_id) else true) ≡ true
  bump-valid key j q u h k = elim (Bool-cases (key == o.key)) [
    | inr t ↦ rw (h, t, k t) (w.valid j)
    | inl t ↦ elim (Bool-cases (is_nil (group q o.key))) [
      | inl n ↦ ground (
        arith,
        not_of-covers j (lookup j q.by_id),
        u.indexed j o.key,
        nil_has_none j (group q o.key),
        n,
      )
      | inr n ↦ ground (arith, h, t, n, ==_iff key o.key, w.older)
    ]
  ]

  touch-Seen :
      (id : ℕ) (e f : Entry)
      → lookup id p.by_id ≡ some e
      → f.key ≡ e.key
      → is_active f.state ≡ true
      → (if is_active e.state then f.inst == e.inst else true) ≡ true
      → Seen o (touch id f p)
  touch-Seen id e f l k t x = record {
    older = unfold touch bump in ground (arith, w.older);
    valid = λ j.
        bump-valid f.key j (touch id f p) (touch-Inv p v id e f l k t)
          (unfold touch in
            version-bump f.key o.key (record p { by_id = (id, f) ∷ erase id p.by_id })
            ∙ unfold bump in refl)
          (λ h. unfold touch bump in ground (arith, l, lookup-insert p.by_id id f j, ==_iff id j));
    keyed = λ i s g.
        unfold touch bump in
        ground (
          arith,
          w.keyed i s g,
          lookup-insert p.by_id id f s.id,
          ==_iff id s.id,
          ==_iff f.inst e.inst,
          l,
        );
  }

  drop_entry-Seen : (id : ℕ) (e : Entry) → lookup id p.by_id ≡ some e → Seen o (drop_entry id e p)
  drop_entry-Seen id e l = record {
    older = unfold drop_entry bump in ground (arith, w.older);
    valid = λ j.
        bump-valid e.key j (drop_entry id e p) (drop_entry-Inv p v id e l)
          (unfold drop_entry in version-bump e.key o.key (removed p v id e) ∙ unfold bump in refl)
          (λ h.
            unfold drop_entry bump in ground (arith, l, lookup-erase p.by_id id j, ==_iff id j));
    keyed = λ i s g.
        unfold drop_entry bump in ground (arith, w.keyed i s g, lookup-erase p.by_id id s.id);
  }

  new_entry-Seen :
      (key : ℕ) (is_pinned : Bool) (reserved : ℕ) → Seen o (new_entry key is_pinned reserved p)
  new_entry-Seen key is_pinned reserved = record {
    older = unfold new_entry bump in ground (arith, w.older);
    valid = λ j.
        bump-valid key j (new_entry key is_pinned reserved p)
          (new_entry-Inv p v key is_pinned reserved)
          (unfold new_entry in
            version-bump key o.key (added p v key is_pinned reserved) ∙ unfold bump in refl)
          (λ h.
            unfold new_entry bump in
            ground (
              arith,
              lookup-added p v key is_pinned reserved j,
              v.bounded j,
              ==_iff (p.next_id + 1) j,
            ));
    keyed = λ i s g.
        unfold new_entry bump in
        rw (lookup-added p v key is_pinned reserved s.id)
          (ground (arith, w.keyed i s g, ==_iff (p.next_id + 1) s.id));
  }

pub Change-Seen : (o : Observation) (p q : Pool) → Change p q → Inv p → Seen o p → Seen o q
Change-Seen o p q (unchanged h) v w = subst (Seen o) (sym h) w
Change-Seen o p q (touched id e f l k t i h) v w =
    subst (Seen o) (sym h) (touch-Seen o p v w id e f l k t i)
Change-Seen o p q (dropped id e l h) v w = subst (Seen o) (sym h) (drop_entry-Seen o p v w id e l)
Change-Seen o p q (evicted id e l h) v w =
    let d = drop_entry-Seen o p v w id e l in
    subst (Seen o) (sym h) (record {
      older = unfold evict_entry in d.older;
      valid = λ j. unfold evict_entry in d.valid j;
      keyed = λ i s g. unfold evict_entry in d.keyed i s g;
    })
Change-Seen o p q (created key reserved is_pinned h) v w =
    subst (Seen o) (sym h) (new_entry-Seen o p v w key is_pinned reserved)

-- An active entry with the instance.
abbrev is_shown : ℕ → Option Entry → Bool
is_shown inst none = false
is_shown inst (some e) = is_active e.state && e.inst == inst

add_active_keeps :
    (id j : ℕ) (e : Entry) (o : Option Entry) (ss : List InstanceSnapshot)
    → has_snapshot ss j e ≡ true
    → has_snapshot (add_active id o ss) j e ≡ true
add_active_keeps id j e none ss h = h
add_active_keeps id j e (some f) ss h = ground (arith, h)

add_active_from :
    (id : ℕ) (o : Option Entry) (ss : List InstanceSnapshot) (i : ℕ) (s : InstanceSnapshot)
    → get_elem? (add_active id o ss) i ≡ some s
    → ((id ≡ s.id) × (is_shown s.inst o ≡ true)) ⊎ ((k : ℕ) × (get_elem? ss k ≡ some s))
add_active_from id none ss i s g = inr (i, g)
add_active_from id (some e) ss i s g = elim (Bool-cases (is_active e.state)) [
  | inr t ↦ inr (i, ground arith)
  | inl t ↦ add_active_front t i (ground arith)
]
  where
    add_active_front :
        is_active e.state ≡ true
        → (i : ℕ) → get_elem? (snapshot id e ∷ ss) i ≡ some s
        → ((id ≡ s.id) × (is_shown s.inst (some e) ≡ true)) ⊎ ((k : ℕ) × (get_elem? ss k ≡ some s))
    add_active_front t zero g = inl (ground arith, ground (arith, t, ==-refl e.inst))
    add_active_front t (suc k) g = inr (k, g)

module _ (p : Pool) (j : ℕ) (e : Entry) (l : lookup j p.by_id ≡ some e) where
  active_of_covers :
      (ids : List ℕ)
      → member j ids ≡ true
      → is_active e.state ≡ true
      → has_snapshot (active_of ids p) j e ≡ true
  unfolding active_of
  active_of_covers [] m a = ground arith
  active_of_covers (id ∷ ids) m a = elim (Bool-cases (id == j)) [
    | inl t ↦
        let i : id ≡ j = ground (arith, ==_iff id j, t) in
        rw (i, l, a) (ground (arith, ==-refl j, ==-refl e.inst, ==-refl e.reserved))
    | inr t ↦
        add_active_keeps id j e (lookup id p.by_id) (active_of ids p)
          (active_of_covers ids (ground arith) a)
  ]

  first_creating_covers :
      (ids : List ℕ)
      → member j ids ≡ true
      → is_being_created (some e) ≡ true
      → is_some (first_creating ids p) ≡ true
  unfolding first_creating
  first_creating_covers [] m a = ground arith
  first_creating_covers (id ∷ ids) m a = elim (Bool-cases (id == j)) [
    | inl t ↦ let i : id ≡ j = ground (arith, ==_iff id j, t) in rw (i, l, a) refl
    | inr t ↦ ground (arith, t, m, first_creating_covers ids)
  ]

active_of_from :
    (p : Pool) (ids : List ℕ) (i : ℕ) (s : InstanceSnapshot)
    → get_elem? (active_of ids p) i ≡ some s
    → (member s.id ids && is_shown s.inst (lookup s.id p.by_id)) ≡ true
unfolding active_of
active_of_from p [] i s g = ground arith
active_of_from p (id ∷ ids) i s g =
    elim (add_active_from id (lookup id p.by_id) (active_of ids p) i s g) [
      | inl (h, x) ↦
          subst (λ k. (member k (id ∷ ids) && is_shown s.inst (lookup k p.by_id)) ≡ true) h
            (ground (arith, x, ==-refl id))
      | inr (k, h) ↦ ground (arith, active_of_from p ids k s h)
    ]

observed-covers :
    (key : ℕ) (p : Pool) (v : Inv p) (j : ℕ) (o : Option Entry)
    → lookup j p.by_id ≡ o
    → covers (snapshot_group key p) j o ≡ true
unfolding snapshot_group
observed-covers key p v j none l = refl
observed-covers key p v j (some e) l = ground (
  arith,
  l,
  v.indexed j key,
  v.live j,
  active_of_covers p j e l (group p key),
  first_creating_covers p j e l (group p key),
)

pub snapshot_group-Seen : (key : ℕ) (p : Pool) → Inv p → Seen (snapshot_group key p) p
snapshot_group-Seen key p v = record {
  older = unfold snapshot_group in v.capped key;
  valid = λ j. ground (arith, observed-covers key p v j (lookup j p.by_id) refl);
  keyed = λ i s g.
      unfold snapshot_group in
      ground (
        arith,
        active_of_from p (group p key) i s (unfold snapshot_group in g),
        v.indexed s.id key,
        v.bounded s.id,
      );
}
