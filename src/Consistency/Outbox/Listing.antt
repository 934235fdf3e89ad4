-- ===== src/Consistency/Outbox/Listing.antt =====
-- zConsistency/memory_store_v2.go: what the listings of a `MemoryOutbox` contain.
use z_engine.Common.{
  if◌then◌else◌, ==-refl, Bool-cases, ok, length, take, drop, take-append-drop, length-take, All, ℤ,
  ℕ, zero, suc, ◌≤◌, ◌≡◌, refl, sym, ap, subst, ◌∙◌, ◌⊎◌, inl, inr, Bool, true, false, none, some,
  List, [], ◌∷◌, ◌++◌, arith,
}
use mathlib.Core.List.{Perm, foldr}
use mathlib.Core.List.Perm
use z_engine.Common.TypedMap.{TypedMap, lookup, Distinct}
use z_engine.Consistency.Contract.{
  OutboxMessage, live_context, check_context, clone_outbox_message, normalized_limit,
}
use z_engine.Consistency.Outbox.{Outbox, included, list_messages}
use z_engine.Consistency.Selection.{is_before, insert_message, sort_messages}

-- No message stands before one that the order puts first.
abbrev pub Sorted : List OutboxMessage → Type 0
Sorted [] = Unit
Sorted (a ∷ []) = Unit
Sorted (a ∷ b ∷ ms) = (is_before b a ≡ false) × Sorted (b ∷ ms)

is_before-asymm : (a b : OutboxMessage) (h : is_before a b ≡ true) → is_before b a ≡ false
unfolding is_before
is_before-asymm a b h = ground arith

insert_message-Sorted :
    (a : OutboxMessage) (ms : List OutboxMessage) (s : Sorted ms) → Sorted (insert_message a ms)
unfolding insert_message
insert_message-Sorted a [] s = tt
insert_message-Sorted a (b ∷ []) s = ground (arith, is_before-asymm b a)
insert_message-Sorted a (b ∷ c ∷ ms) s =
    ground (arith, is_before-asymm b a, insert_message-Sorted a (c ∷ ms) s.1)

sort_messages-Sorted : (ms : List OutboxMessage) → Sorted (sort_messages ms)
unfolding sort_messages
sort_messages-Sorted [] = tt
sort_messages-Sorted (m ∷ ms) = insert_message-Sorted m (sort_messages ms) (sort_messages-Sorted ms)

drop-cases : (n : ℕ) (ms : List OutboxMessage) → (drop n ms ≡ []) ⊎ (length (take n ms) ≡ n)
drop-cases zero ms = inr refl
drop-cases (suc n) [] = inl refl
drop-cases (suc n) (m ∷ ms) = elim (drop-cases n ms) [ inl e ↦ inl e | inr e ↦ inr (ap suc e) ]

module _ (P : OutboxMessage → Type 0) where
  insert_message-All :
      (a : OutboxMessage) (ms : List OutboxMessage) (p : P a) (h : All P ms)
      → All P (insert_message a ms)
  unfolding insert_message
  insert_message-All a [] p h = (p, tt)
  insert_message-All a (b ∷ ms) p h =
      elim (is_before b a) as (λ x. All P (if x then b ∷ insert_message a ms else a ∷ b ∷ ms)) [
        | true ↦ (h.0, insert_message-All a ms p h.1)
        | false ↦ (p, h)
      ]

  sort_messages-All : (ms : List OutboxMessage) (h : All P ms) → All P (sort_messages ms)
  unfolding sort_messages
  sort_messages-All [] h = tt
  sort_messages-All (m ∷ ms) h =
      insert_message-All m (sort_messages ms) h.0 (sort_messages-All ms h.1)

  take-All : (n : ℕ) (ms : List OutboxMessage) (h : All P ms) → All P (take n ms)
  take-All zero ms h = tt
  take-All (suc n) [] h = tt
  take-All (suc n) (m ∷ ms) h = (h.0, take-All n ms h.1)

insert_message-perm :
    (a : OutboxMessage) (ms : List OutboxMessage) → Perm (insert_message a ms) (a ∷ ms)
unfolding insert_message
insert_message-perm a [] = Perm.rfl
insert_message-perm a (b ∷ ms) = elim (Bool-cases (is_before b a)) [
  | inl e ↦ rw e (Perm.trans (Perm.cons b (insert_message-perm a ms)) (Perm.swap a b ms))
  | inr e ↦ rw e Perm.rfl
]

sort_messages-perm : (ms : List OutboxMessage) → Perm (sort_messages ms) ms
unfolding sort_messages
sort_messages-perm [] = Perm.rfl
sort_messages-perm (m ∷ ms) =
    Perm.trans (insert_message-perm m (sort_messages ms)) (Perm.cons m (sort_messages-perm ms))

module _ (map' : TypedMap OutboxMessage) where
  open map' use {Map, load, range, lookup-range, range-Distinct}

  -- A message of a listing: the copy of one that the store holds and the listing includes.
  abbrev pub Listed : Map → (OutboxMessage → Bool) → OutboxMessage → Type 0
  Listed m p x =
      (k : ℕ) × (y : OutboxMessage) × (load m k ≡ some y)
      × (p y ≡ true)
      × (clone_outbox_message y ≡ x)

  -- The copies of all messages of the store that the listing includes, in the order of `Range`.
  abbrev pub all_listed : (OutboxMessage → Bool) → List (ℕ × OutboxMessage) → List OutboxMessage
  all_listed p = foldr (λ e ms. if p e.1 then clone_outbox_message e.1 ∷ ms else ms) []

  included-eq :
      (p : OutboxMessage → Bool) (es : List (ℕ × OutboxMessage))
      → included map' p es ≡ all_listed p es
  unfolding included
  included-eq p [] = refl
  included-eq p ((k, m) ∷ es) = ground (arith, included-eq p es)

  lookup-later :
      (j : ℕ) (v : OutboxMessage) (es : List (ℕ × OutboxMessage)) (d : lookup j es ≡ none) (k : ℕ)
      (x : OutboxMessage) (h : lookup k es ≡ some x)
      → lookup k ((j, v) ∷ es) ≡ some x
  lookup-later j v es d k x h = ground arith

  lookup-here :
      (k : ℕ) (x : OutboxMessage) (es : List (ℕ × OutboxMessage)) → lookup k ((k, x) ∷ es) ≡ some x
  lookup-here k x es = ground (arith, ==-refl k)

  included-Listed :
      (m : Map) (p : OutboxMessage → Bool) (es : List (ℕ × OutboxMessage)) (d : Distinct es)
      (f : (k : ℕ) (x : OutboxMessage) → lookup k es ≡ some x → load m k ≡ some x)
      → All (Listed m p) (included map' p es)
  unfolding included
  included-Listed m p [] d f = tt
  included-Listed m p ((k, x) ∷ es) d f =
      let tail = included-Listed m p es d.1 (λ i y h. f i y (lookup-later k x es d.0 i y h)) in
      elim (Bool-cases (p x)) [
        | inl h ↦ rw (h) ((k, x, f k x (lookup-here k x es), h, refl), tail)
        | inr h ↦ rw (h) tail
      ]

  lookup-loads :
      (m : Map) (k : ℕ) (x : OutboxMessage) (h : lookup k (range m) ≡ some x) → load m k ≡ some x
  lookup-loads m k x h = sym (lookup-range m k) ∙ h

  -- A listing with a live context succeeds. With the messages that it leaves out behind it, it has
  -- the copy of every message that the outbox holds and the listing's test accepts, each once, the
  -- oldest first and by id at equal times; and it leaves some out only where it is as long as the
  -- limit, which it never exceeds. Each of its messages is the copy of one that the outbox holds.
  pub list_messages_lem :
      (o : Outbox map') (limit : ℤ) (p : OutboxMessage → Bool)
      → (ms : List OutboxMessage) × (rest : List OutboxMessage) × (list_messages map' o live_context
            limit p
          ≡ ok ms)
        × Perm (ms ++ rest) (all_listed p (range o.messages))
        × Sorted (ms ++ rest)
        × (length ms ≤ normalized_limit limit)
        × ((rest ≡ []) ⊎ (length ms ≡ normalized_limit limit))
        × All (Listed o.messages p) ms
  unfolding list_messages check_context
  list_messages_lem o limit p =
      let n = normalized_limit limit in
      let inc = included map' p (range o.messages) in
      let sorted = sort_messages inc in
      (
        take n sorted,
        drop n sorted,
        refl,
        rw (take-append-drop n sorted)
            (subst (Perm sorted) (included-eq p (range o.messages)) (sort_messages-perm inc)),
        rw (take-append-drop n sorted) (sort_messages-Sorted inc),
        omega (arith, length-take n sorted),
        drop-cases n sorted,
        take-All (Listed o.messages p) n sorted (
            sort_messages-All (Listed o.messages p) inc (
              included-Listed o.messages p (range o.messages) (range-Distinct o.messages)
                (lookup-loads o.messages))),
      )
