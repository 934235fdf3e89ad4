-- ===== src/Instance/Selection.antt =====
-- The instance that `selectCandidate` of zInstance/pool.go chooses.
use z_engine.Common.{
  ltb, leb, ◌==◌, if◌then◌else◌, Bool-cases, get_elem?, ℕ, zero, suc, ◌≤◌, ◌<◌, ◌≡◌, refl, subst,
  ◌≢◌, ◌⊎◌, inl, inr, Bool, true, false, ◌&&◌, Option, none, some, List, [], ◌∷◌, arith,
}
use z_engine.Instance.Acquire.{
  OccupancySnapshot, effective, select_affine, select_least, improves, with_limit, or_else,
  select_candidate,
}

-- The choice has room.
abbrev pub is_below : ℕ → Option OccupancySnapshot → Bool
is_below limit none = true
is_below limit (some c) = ltb (effective c) limit

-- An instance is no better than the choice.
abbrev pub is_no_better : ℕ → Option OccupancySnapshot → OccupancySnapshot → Bool
is_no_better limit none s = leb limit (effective s)
is_no_better limit (some c) s = leb (effective c) (effective s)

-- The affinity has an instance with room.
abbrev pub fits_affinity : ℕ → ℕ → OccupancySnapshot → Bool
fits_affinity affinity hard_cap s = s.seen.id == affinity && ltb (effective s) hard_cap

module _ (soft_cap : ℕ) where
  improve_below :
      (best : Option OccupancySnapshot) (s : OccupancySnapshot)
      → is_below soft_cap best ≡ true
      → is_below soft_cap (if improves soft_cap best s then some s else best) ≡ true
  improve_below none s b = ground arith
  improve_below (some c) s b = ground arith

  select_least_below :
      (best : Option OccupancySnapshot) (l : List OccupancySnapshot)
      → is_below soft_cap best ≡ true
      → is_below soft_cap (select_least soft_cap best l) ≡ true
  unfolding select_least
  select_least_below best [] b = b
  select_least_below best (s ∷ ss) b =
      select_least_below (if improves soft_cap best s then some s else best) ss
        (improve_below best s b)

  improve_keeps :
      (best : Option OccupancySnapshot) (t s : OccupancySnapshot)
      → is_below soft_cap best ≡ true
      → is_no_better soft_cap best s ≡ true
      → is_no_better soft_cap (if improves soft_cap best t then some t else best) s ≡ true
  improve_keeps none t s b h = ground arith
  improve_keeps (some c) t s b h = ground arith

  improve_covers :
      (best : Option OccupancySnapshot) (s : OccupancySnapshot)
      → is_below soft_cap best ≡ true
      → is_no_better soft_cap (if improves soft_cap best s then some s else best) s ≡ true
  improve_covers none s b = ground arith
  improve_covers (some c) s b = ground arith

  select_least_keeps :
      (best : Option OccupancySnapshot) (l : List OccupancySnapshot) (s : OccupancySnapshot)
      → is_below soft_cap best ≡ true
      → is_no_better soft_cap best s ≡ true
      → is_no_better soft_cap (select_least soft_cap best l) s ≡ true
  unfolding select_least
  select_least_keeps best [] s b h = h
  select_least_keeps best (t ∷ ts) s b h =
      select_least_keeps (if improves soft_cap best t then some t else best) ts s
        (improve_below best t b) (improve_keeps best t s b h)

  select_least_covers :
      (best : Option OccupancySnapshot) (l : List OccupancySnapshot)
      → is_below soft_cap best ≡ true
      → (i : ℕ) (s : OccupancySnapshot) → get_elem? l i ≡ some s
      → is_no_better soft_cap (select_least soft_cap best l) s ≡ true
  unfolding select_least
  select_least_covers best [] b i s g = ground arith
  select_least_covers best (t ∷ ts) b zero s g =
      select_least_keeps (if improves soft_cap best t then some t else best) ts s
        (improve_below best t b)
        (subst
          (λ u. is_no_better soft_cap (if improves soft_cap best t then some t else best) u ≡ true)
          (cc) (improve_covers best t b))
  select_least_covers best (t ∷ ts) b (suc i) s g =
      select_least_covers (if improves soft_cap best t then some t else best) ts
        (improve_below best t b) i s g

  select_least_from :
      (best : Option OccupancySnapshot) (l : List OccupancySnapshot) (c : OccupancySnapshot)
      → select_least soft_cap best l ≡ some c
      → (best ≡ some c) ⊎ ((i : ℕ) × (get_elem? l i ≡ some c))
  unfolding select_least
  select_least_from best [] c h = inl h
  select_least_from best (s ∷ ss) c h =
      elim (select_least_from (if improves soft_cap best s then some s else best) ss c h) [
        | inr (i, g) ↦ inr (suc i, g)
        | inl e ↦ elim (Bool-cases (improves soft_cap best s)) [
          | inl t ↦ inr (0, ground arith)
          | inr t ↦ inl (ground arith)
        ]
      ]

select_affine_from :
    (affinity hard_cap : ℕ) (l : List OccupancySnapshot) (c : OccupancySnapshot)
    → select_affine affinity hard_cap l ≡ some c
    → ((i : ℕ) × (get_elem? l i ≡ some c)) × (fits_affinity affinity hard_cap c ≡ true)
unfolding select_affine
select_affine_from affinity hard_cap [] c h = ground arith
select_affine_from affinity hard_cap (s ∷ ss) c h =
    elim (Bool-cases (fits_affinity affinity hard_cap s)) [
      | inl t ↦ ((0, ground arith), ground arith)
      | inr t ↦
          let rest = select_affine_from affinity hard_cap ss c (ground arith) in
          ((suc rest.0.0, rest.0.1), rest.1)
    ]

select_affine-none :
    (affinity hard_cap : ℕ) (l : List OccupancySnapshot)
    → select_affine affinity hard_cap l ≡ none
    → (i : ℕ) (s : OccupancySnapshot) → get_elem? l i ≡ some s
    → fits_affinity affinity hard_cap s ≡ false
unfolding select_affine
select_affine-none affinity hard_cap [] h i s g = ground arith
select_affine-none affinity hard_cap (t ∷ ts) h zero s g =
    let e : t ≡ s = cc in subst (λ u. fits_affinity affinity hard_cap u ≡ false) e (ground arith)
select_affine-none affinity hard_cap (t ∷ ts) h (suc i) s g =
    select_affine-none affinity hard_cap ts (ground arith) i s g

-- What `selectCandidate` may choose among the measured instances.
pub data Choice (l : List OccupancySnapshot) (affinity soft_cap hard_cap : ℕ)
    : Option (OccupancySnapshot × ℕ) → Type 0 where
  affine :
      (i : ℕ) (c : OccupancySnapshot) (r : Option (OccupancySnapshot × ℕ))
      → r ≡ some (c, hard_cap)
      → get_elem? l i ≡ some c
      → (affinity == 0) ≡ false
      → fits_affinity affinity hard_cap c ≡ true
      → Choice l affinity soft_cap hard_cap r
  least :
      (i : ℕ) (c : OccupancySnapshot) (r : Option (OccupancySnapshot × ℕ))
      → r ≡ some (c, soft_cap)
      → get_elem? l i ≡ some c
      → effective c < soft_cap
      → ((j : ℕ) (s : OccupancySnapshot) → get_elem? l j ≡ some s → effective c ≤ effective s)
      → ((j : ℕ) (s : OccupancySnapshot)
          → get_elem? l j ≡ some s
          → affinity ≢ 0
          → fits_affinity affinity hard_cap s ≡ false)
      → Choice l affinity soft_cap hard_cap r
  full :
      (r : Option (OccupancySnapshot × ℕ))
      → r ≡ none
      → ((j : ℕ) (s : OccupancySnapshot) → get_elem? l j ≡ some s → soft_cap ≤ effective s)
      → ((j : ℕ) (s : OccupancySnapshot)
          → get_elem? l j ≡ some s
          → affinity ≢ 0
          → fits_affinity affinity hard_cap s ≡ false)
      → Choice l affinity soft_cap hard_cap r

module _ (l : List OccupancySnapshot) (affinity soft_cap hard_cap : ℕ) where
  choose_least :
      (o : Option OccupancySnapshot)
      → select_least soft_cap none l ≡ o
      → ((j : ℕ) (s : OccupancySnapshot)
          → get_elem? l j ≡ some s
          → affinity ≢ 0
          → fits_affinity affinity hard_cap s ≡ false)
      → Choice l affinity soft_cap hard_cap (with_limit soft_cap o)
  choose_least none h f =
      full none refl (λ j s g. ground (arith, select_least_covers soft_cap none l refl j s g, h)) f
  choose_least (some c) h f = elim (select_least_from soft_cap none l c h) [
    | inl e ↦ ground arith
    | inr (i, g) ↦
        least i c (some (c, soft_cap)) refl g
          (ground (arith, select_least_below soft_cap none l refl, h))
          (λ j s k. ground (arith, select_least_covers soft_cap none l refl j s k, h)) f
  ]

  choose :
      (o : Option OccupancySnapshot)
      → select_affine affinity hard_cap l ≡ o
      → affinity ≢ 0
      → Choice l affinity soft_cap hard_cap
          (or_else (with_limit hard_cap o) (with_limit soft_cap (select_least soft_cap none l)))
  choose none h n =
      choose_least (select_least soft_cap none l) refl
        (λ j s g _. select_affine-none affinity hard_cap l h j s g)
  choose (some c) h n =
      let found = select_affine_from affinity hard_cap l c h in
      affine found.0.0 c (some (c, hard_cap)) refl found.0.1 (ground (arith, n)) found.1

  -- `selectCandidate` takes an instance of the affinity that has room below the hard capacity; where
  -- there is none, or no affinity, one with the fewest occupants and reservations, if these are
  -- below the soft capacity; and it chooses none exactly where every instance has reached the soft
  -- capacity and none is of the affinity with room.
  pub select_candidate-Choice :
      Choice l affinity soft_cap hard_cap (select_candidate l affinity soft_cap hard_cap)
  unfolding select_candidate
  select_candidate-Choice = elim (Bool-cases (affinity == 0)) [
    | inl t ↦
        rw t (choose_least (select_least soft_cap none l) refl (λ j s g n. ground (arith, t, n)))
    | inr t ↦ rw t (choose (select_affine affinity hard_cap l) refl (ground arith))
  ]
