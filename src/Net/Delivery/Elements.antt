-- ===== src/Net/Delivery/Elements.antt =====
-- The elements of a queue of zNet/delivery.go, and the frames that its index names.
use z_engine.Common.{
  ◌==◌, if◌then◌else◌, ==_iff, ==-refl, Bool-cases, Option-cases, length, ℕ, ◌≡◌, refl, ap, subst,
  inl, inr, Bool, true, false, ◌&&◌, Option, none, some, List, [], ◌∷◌, ◌++◌, arith,
}
use z_engine.Common.TypedMap.{lookup, erase, lookup-erase, lookup-insert, Distinct}
use z_engine.Net.Delivery.{is_latest, QueuedOutbound, put, first_latest, frame}

abbrev pub exists : Option QueuedOutbound → Bool
exists none = false
exists (some x) = true

abbrev pub is_frame_of : ℕ → Option QueuedOutbound → Bool
is_frame_of key none = false
is_frame_of key (some x) = is_latest x.class && x.key == key

-- An element that the index names for the key is a latest frame of it.
abbrev pub names_frame : ℕ → Option ℕ → List (ℕ × QueuedOutbound) → Bool
names_frame key none l = true
names_frame key (some id) l = is_frame_of key (lookup id l)

abbrev pub is_id : ℕ → Option ℕ → Bool
is_id id none = false
is_id id (some j) = j == id

-- A latest frame is the one that the index names for its key.
abbrev pub is_named : ℕ → Option QueuedOutbound → List (ℕ × ℕ) → Bool
is_named id none m = true
is_named id (some x) m = if is_latest x.class then is_id id (lookup x.key m) else true

module _ (id : ℕ) (x : QueuedOutbound) where
  pub lookup-put :
      (j : ℕ) (l : List (ℕ × QueuedOutbound))
      → lookup j (put id x l)
        ≡ (if id == j then (if exists (lookup id l) then some x else none) else lookup j l)
  unfolding put
  lookup-put j [] = ground arith
  lookup-put j ((k, y) ∷ l) =
      ground (arith, lookup-put j l, ==_iff k id, ==_iff k j, ==_iff id j, ==-refl id)

  pub length-put : (l : List (ℕ × QueuedOutbound)) → length (put id x l) ≡ length l
  unfolding put
  length-put [] = refl
  length-put ((k, y) ∷ l) = ground (arith, length-put l)

  pub put-Distinct : (l : List (ℕ × QueuedOutbound)) → Distinct l → Distinct (put id x l)
  unfolding put
  put-Distinct [] d = tt
  put-Distinct ((k, y) ∷ l) d =
      ground (arith, d.0, d.1, put-Distinct l d.1, lookup-put k l, ==_iff k id)

  pub lookup-push :
      (j : ℕ) (l : List (ℕ × QueuedOutbound))
      → lookup j (l ++ ((id, x) ∷ []))
        ≡ (if exists (lookup j l) then lookup j l else if id == j then some x else none)
  lookup-push j [] = ground arith
  lookup-push j ((k, y) ∷ l) = ground (arith, lookup-push j l)

  pub push-Distinct :
      (l : List (ℕ × QueuedOutbound))
      → lookup id l ≡ none
      → Distinct l
      → Distinct (l ++ ((id, x) ∷ []))
  push-Distinct [] h d = (refl, tt)
  push-Distinct ((k, y) ∷ l) h d =
      ground (arith, h, d.0, push-Distinct l (ground arith) d.1, lookup-push k l, ==_iff k id)

pub first_latest_lem :
    (l : List (ℕ × QueuedOutbound)) (id : ℕ) (x : QueuedOutbound)
    → Distinct l
    → first_latest l ≡ some (id, x)
    → (lookup id l ≡ some x) × (is_latest x.class ≡ true)
unfolding first_latest
first_latest_lem [] id x d h = ground arith
first_latest_lem ((j, y) ∷ l) id x d h = elim (Bool-cases (is_latest y.class)) [
  | inl t ↦
      let e : ◌≡◌ {A = ℕ × QueuedOutbound} (j, y) (id, x) = ground arith in
      (
        subst (λ p. lookup p.0 ((j, y) ∷ l) ≡ some p.1) e (simp (==-refl j) refl),
        subst (λ p. is_latest p.1.class ≡ true) e t,
      )
  | inr t ↦
      let r = first_latest_lem l id x d.1 (ground arith) in
      (ground (arith, r.0, d.0, ==_iff j id), r.1)
]

pub names_kept :
    (key : ℕ) (o : Option ℕ) (l m : List (ℕ × QueuedOutbound))
    → ((id : ℕ) → is_frame_of key (lookup id l) ≡ true → is_frame_of key (lookup id m) ≡ true)
    → names_frame key o l ≡ true
    → names_frame key o m ≡ true
names_kept key none l m k h = refl
names_kept key (some id) l m k h = k id h

-- A frame of another key keeps its place in the index.
pub named_kept :
    (id key n : ℕ) (o : Option QueuedOutbound) (m : List (ℕ × ℕ))
    → is_named id o m ≡ true
    → is_frame_of key o ≡ false
    → is_named id o ((key, n) ∷ erase key m) ≡ true
named_kept id key n none m h f = refl
named_kept id key n (some x) m h f =
    ground (arith, h, f, lookup-insert m key n x.key, ==_iff x.key key, ==_iff key x.key)

pub named_without :
    (id key : ℕ) (o : Option QueuedOutbound) (m : List (ℕ × ℕ))
    → is_named id o m ≡ true
    → is_frame_of key o ≡ false
    → is_named id o (erase key m) ≡ true
named_without id key none m h f = refl
named_without id key (some x) m h f =
    ground (arith, h, f, lookup-erase m key x.key, ==_iff x.key key, ==_iff key x.key)

-- The index names one frame of a key, so that no other is of it.
pub frame_unique :
    (j k id : ℕ) (o : Option QueuedOutbound) (m : List (ℕ × ℕ))
    → is_named j o m ≡ true
    → lookup k m ≡ some id
    → (id == j) ≡ false
    → is_frame_of k o ≡ false
frame_unique j k id none m n h e = refl
frame_unique j k id (some x) m n h e = elim (Bool-cases (x.key == k)) [
  | inr t ↦ ground (arith, t)
  | inl t ↦
      let p : x.key ≡ k = ground (arith, ==_iff x.key k) in
      ground (arith, t, n, ap (λ i. is_id j (lookup i m)) p, h, e)
]

-- The frame at an element is the one that the index names.
pub named_at :
    (id : ℕ) (x : QueuedOutbound) (m : List (ℕ × ℕ))
    → is_named id (some x) m ≡ true
    → is_latest x.class ≡ true
    → lookup x.key m ≡ some id
named_at id x m n c = elim (Option-cases (lookup x.key m)) [
  | inl e ↦ ground (arith, n, c, e)
  | inr (j, e) ↦ ground (arith, n, c, e, ==_iff j id)
]

pub named_replaced :
    (id key j : ℕ) (x : QueuedOutbound) (packet : ℕ) (o : Option QueuedOutbound) (m : List (ℕ × ℕ))
    → lookup x.key m ≡ some id
    → is_named j o m ≡ true
    → is_frame_of key o ≡ false
    → is_named j
        (if id == j then some (frame packet key) else o)
        ((key, id) ∷ erase key (erase x.key m))
      ≡ true
named_replaced id key j x packet o m h n f = elim (Bool-cases (id == j)) [
  | inl t ↦ rw t (ground (arith, t, ==-refl key))
  | inr t ↦ rw t (
      named_kept j key id o (erase x.key m)
        (named_without j x.key o m n (frame_unique j x.key id o m n h t)) f)
]
