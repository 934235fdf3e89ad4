-- ===== src/Instance/Index.antt =====
-- The indexes, versions and evictions of zInstance/pool.go agree after every action.
use z_engine.Common.{
  leb, ◌==◌, if◌then◌else◌, ==_iff, Bool-cases, ℕ, ◌+◌, ◌≡◌, refl, sym, subst, inl, inr, Bool, true,
  false, not, ◌&&◌, ◌||◌, Option, none, some, List, [], ◌∷◌, arith,
}
use z_engine.Common.TypedMap.{lookup, erase, lookup-erase, lookup-insert}
use z_engine.Instance.Pool.{
  is_active, is_creating, Entry, Pool, new_pool_with_base, group, version, is_nil, bump, touch,
  without, set_group, drop_entry, new_entry, placeholder, evict_entry,
}
use z_engine.Instance.Change.{Change, unchanged, touched, dropped, evicted, created}

abbrev pub member : ℕ → List ℕ → Bool
member j [] = false
member j (k ∷ ks) = if k == j then true else member j ks

abbrev pub is_of : ℕ → Option Entry → Bool
is_of key none = false
is_of key (some e) = e.key == key

abbrev pub exists : Option Entry → Bool
exists none = false
exists (some e) = true

-- No entry that stands in the index is being destroyed.
abbrev pub is_live : Option Entry → Bool
is_live none = true
is_live (some e) = is_active e.state || is_creating e.state

-- No id stands twice.
abbrev pub is_distinct : List ℕ → Bool
is_distinct [] = true
is_distinct (k ∷ ks) = not (member k ks) && is_distinct ks

-- The two indexes have the same entries, an id is never given twice and its instance evicted at most
-- once, and a key has a version, greater than 0, exactly when it has an entry.
pub record Inv (p : Pool) : Type 0 where
  pub indexed : (j key : ℕ) → member j (group p key) ≡ is_of key (lookup j p.by_id)
  pub bounded : (j : ℕ) → (if exists (lookup j p.by_id) then leb j p.next_id else true) ≡ true
  pub versioned : (key : ℕ) → is_nil (group p key) ≡ (version p key == 0)
  pub capped : (key : ℕ) → leb (version p key) p.next_key_version ≡ true
  pub gone :
      (j : ℕ)
      → (if member j p.evicted then leb j p.next_id && not (exists (lookup j p.by_id)) else true)
        ≡ true
  pub live : (j : ℕ) → is_live (lookup j p.by_id) ≡ true
  pub once : is_distinct p.evicted ≡ true

pub new_pool_with_base-Inv : (id_base : ℕ) → Inv (new_pool_with_base id_base)
unfolding new_pool_with_base
new_pool_with_base-Inv id_base = record {
  indexed = λ j key. refl;
  bounded = λ j. refl;
  versioned = λ key. refl;
  capped = λ key. ground arith;
  gone = λ j. refl;
  live = λ j. refl;
  once = refl;
}

member-without :
    (j id : ℕ) (ks : List ℕ) → member j (without id ks) ≡ (if id == j then false else member j ks)
unfolding without
member-without j id [] = ground arith
member-without j id (k ∷ ks) = ground (arith, member-without j id ks)

-- The ids of a key after a removal.
group-set_group :
    (key k : ℕ) (ks : List ℕ) (p : Pool) (m : List (ℕ × List ℕ))
    → group (record p { by_key = set_group key ks m }) k
      ≡ (if key == k then ks else group (record p { by_key = m }) k)
unfolding set_group
group-set_group key k [] p m = ground (arith, lookup-erase m key k)
group-set_group key k (i ∷ ks) p m = ground (arith, lookup-insert m key (i ∷ ks) k)

pub version-bump :
    (key k : ℕ) (p : Pool)
    → version (bump key p) k ≡ (
        if key == k
        then (if is_nil (group p key) then 0 else p.next_key_version + 1)
        else version p k)
unfolding bump
version-bump key k p = ground (
  arith,
  lookup-erase p.key_version key k,
  lookup-insert p.key_version key (p.next_key_version + 1) k,
)

module _ (key k : ℕ) (p : Pool) where
  bump-versioned :
      ((key == k) ≡ false → is_nil (group p k) ≡ (version p k == 0))
      → is_nil (group (bump key p) k) ≡ (version (bump key p) k == 0)
  bump-versioned h = elim (Bool-cases (key == k)) [
    | inl t ↦ rw (version-bump key k p, t) (unfold bump in ground (arith, ==_iff key k, t))
    | inr t ↦ rw (version-bump key k p, t) (unfold bump in h t)
  ]

  bump-capped :
      leb (version p k) p.next_key_version ≡ true
      → leb (version (bump key p) k) (bump key p).next_key_version ≡ true
  bump-capped h = rw (version-bump key k p) (unfold bump in ground (arith, h))

module _ (p : Pool) (v : Inv p) (id : ℕ) where
  pub touch-Inv :
      (e f : Entry)
      → lookup id p.by_id ≡ some e
      → f.key ≡ e.key
      → is_active f.state ≡ true
      → Inv (touch id f p)
  touch-Inv e f l k t = record {
    indexed =
        λ j key. unfold touch bump in ground (arith, v.indexed j key, lookup-insert p.by_id id f j);
    bounded = λ j. unfold touch bump in ground (arith, v.bounded j, lookup-insert p.by_id id f j);
    versioned = λ key.
        unfold touch in
        bump-versioned f.key key (record p { by_id = (id, f) ∷ erase id p.by_id })
          (λ h. v.versioned key);
    capped = λ key.
        unfold touch in
        bump-capped f.key key (record p { by_id = (id, f) ∷ erase id p.by_id }) (v.capped key);
    gone = λ j. unfold touch bump in ground (arith, v.gone j, lookup-insert p.by_id id f j);
    live = λ j. unfold touch bump in ground (arith, v.live j, lookup-insert p.by_id id f j);
    once = unfold touch bump in v.once;
  }

  -- The pool with an entry removed, before its key has a new version.
  abbrev pub removed : Entry → Pool
  removed e = record p {
    by_id = erase id p.by_id;
    by_key = set_group e.key (without id (group p e.key)) p.by_key;
  }

  group-removed :
      (e : Entry) (key : ℕ)
      → group (removed e) key ≡ (if e.key == key then without id (group p e.key) else group p key)
  group-removed e key = group-set_group e.key key (without id (group p e.key)) p p.by_key

  pub drop_entry-Inv : (e : Entry) → lookup id p.by_id ≡ some e → Inv (drop_entry id e p)
  drop_entry-Inv e l = record {
    indexed = λ j key.
        unfold drop_entry bump in
        ground (
          arith,
          v.indexed j key,
          v.indexed j e.key,
          lookup-erase p.by_id id j,
          group-removed e key,
          member-without j id (group p e.key),
        );
    bounded = λ j. unfold drop_entry bump in ground (arith, v.bounded j, lookup-erase p.by_id id j);
    versioned = λ key.
        unfold drop_entry in
        bump-versioned e.key key (removed e) (λ h. rw (group-removed e key, h) (v.versioned key));
    capped = λ key. unfold drop_entry in bump-capped e.key key (removed e) (v.capped key);
    gone = λ j. unfold drop_entry bump in ground (arith, v.gone j, lookup-erase p.by_id id j);
    live = λ j. unfold drop_entry bump in ground (arith, v.live j, lookup-erase p.by_id id j);
    once = unfold drop_entry bump in v.once;
  }

  evict_entry-Inv : (e : Entry) → lookup id p.by_id ≡ some e → Inv (evict_entry id e p)
  evict_entry-Inv e l =
      let w = drop_entry-Inv e l in
      record {
        indexed = λ j key. unfold evict_entry in w.indexed j key;
        bounded = λ j. unfold evict_entry in w.bounded j;
        versioned = λ key. unfold evict_entry in w.versioned key;
        capped = λ key. unfold evict_entry in w.capped key;
        gone = λ j.
            unfold evict_entry drop_entry bump in
            ground (arith, v.gone j, v.bounded id, lookup-erase p.by_id id j, l, ==_iff id j);
        live = λ j. unfold evict_entry in w.live j;
        once = unfold evict_entry drop_entry bump in ground (arith, v.gone id, v.once, l);
      }

module _ (p : Pool) (v : Inv p) (key : ℕ) (is_pinned : Bool) (reserved : ℕ) where
  -- The pool with a new entry, before its key has a new version.
  abbrev pub added : Pool
  added = record p {
    next_id = p.next_id + 1;
    next_generation = p.next_generation + 1;
    by_id = (p.next_id + 1, placeholder key is_pinned reserved p) ∷ erase (p.next_id + 1) p.by_id;
    by_key = (key, (p.next_id + 1) ∷ without (p.next_id + 1) (group p key)) ∷ erase key p.by_key;
  }

  group-added :
      (k : ℕ)
      → group added k
        ≡ (if key == k then (p.next_id + 1) ∷ without (p.next_id + 1) (group p key) else group p k)
  group-added k = ground (
    arith,
    lookup-insert p.by_key key ((p.next_id + 1) ∷ without (p.next_id + 1) (group p key)) k,
  )

  pub lookup-added :
      (j : ℕ)
      → lookup j added.by_id ≡ (
          if p.next_id + 1 == j
          then some (placeholder key is_pinned reserved p)
          else lookup j p.by_id)
  lookup-added j = lookup-insert p.by_id (p.next_id + 1) (placeholder key is_pinned reserved p) j

  -- The id of the new entry is not in use.
  is_of_new : (k : ℕ) → is_of k (lookup (p.next_id + 1) p.by_id) ≡ false
  is_of_new k = ground (arith, v.bounded (p.next_id + 1))

  pub new_entry-Inv : Inv (new_entry key is_pinned reserved p)
  new_entry-Inv = record {
    indexed = λ j k.
        unfold new_entry bump in
        rw (group-added k, lookup-added j)
          (ground (
            arith,
            v.indexed j k,
            v.indexed j key,
            member-without j (p.next_id + 1) (group p key),
            is_of_new k,
            is_of_new key,
            ==_iff (p.next_id + 1) j,
          ));
    bounded = λ j. unfold new_entry bump in rw (lookup-added j) (ground (arith, v.bounded j));
    versioned = λ k.
        unfold new_entry in bump-versioned key k added (λ h. rw (group-added k, h) (v.versioned k));
    capped = λ k. unfold new_entry in bump-capped key k added (v.capped k);
    gone = λ j.
        unfold new_entry bump in
        rw (lookup-added j) (ground (arith, v.gone j, ==_iff (p.next_id + 1) j));
    live = λ j. unfold new_entry bump in rw (lookup-added j) (ground (arith, v.live j));
    once = unfold new_entry bump in v.once;
  }

pub Change-Inv : (p q : Pool) → Change p q → Inv p → Inv q
Change-Inv p q (unchanged h) v = subst Inv (sym h) v
Change-Inv p q (touched id e f l k t i h) v = subst Inv (sym h) (touch-Inv p v id e f l k t)
Change-Inv p q (dropped id e l h) v = subst Inv (sym h) (drop_entry-Inv p v id e l)
Change-Inv p q (evicted id e l h) v = subst Inv (sym h) (evict_entry-Inv p v id e l)
Change-Inv p q (created key reserved is_pinned h) v =
    subst Inv (sym h) (new_entry-Inv p v key is_pinned reserved)
