-- ===== src/Net/Requests/Waiters.antt =====
-- What the callers of `SendRequest` (zNet/request_correlator.go) get.
use z_engine.Common.{
  leb, ◌==◌, ==_iff, Bool-cases, Result, ok, err, get_elem?, All, ℤ, ℕ, zero, suc, ◌≤◌, ◌≡◌, refl,
  subst, inl, inr, Bool, true, ◌&&◌, Option, none, some, List, [], ◌∷◌, arith,
}
use z_engine.Common.TypedMap.{lookup}
use z_engine.Net.Requests.{
  RequestError, ResponseResult, RequestRouter, CloseCause, register_open, register_at,
  try_register_pending, complete_found, complete_request, remove_found, remove_pending, cleanup,
  close_open, close, send_taken, take_result, send_result,
}
use z_engine.Net.Requests.Callers.{
  Caller, CallerPoint, registered, holding, received, gave_up, System, new_system, Action, start,
  read_back, receive, give_up, register, complete, clean_up, close_by, send, start_call, give_up_by,
  give_up_router, channel_of, with_result, read_pending, receive_result, result_in, give_up_caller,
  update, new_caller, act, run,
}
use z_engine.Net.Requests.Account.{pending_on, results_for, count, run-account}

-- The result that the caller has received is one in its channel.
abbrev has_received : CallerPoint → ℕ → RequestRouter → Bool
has_received (received m) channel r = m.channel == channel && leb 1 (results_for channel r.sent)
has_received _ channel r = true

abbrev Fits : RequestRouter → Caller → Type 0
Fits r c = has_received c.point c.channel r ≡ true

-- No channel has fewer results.
abbrev Grows : RequestRouter → RequestRouter → Type 0
Grows r q = (c : ℕ) → results_for c r.sent ≤ results_for c q.sent

Fits-later : (c : Caller) (r q : RequestRouter) → Grows r q → Fits r c → Fits q c
Fits-later c r q g h = has_received_later c.point h
  where
    has_received_later :
        (p : CallerPoint) → has_received p c.channel r ≡ true → has_received p c.channel q ≡ true
    has_received_later registered x = refl
    has_received_later (holding held) x = refl
    has_received_later (received m) x = ground (arith, x, g c.channel)
    has_received_later gave_up x = refl

All-later : (l : List Caller) (r q : RequestRouter) → Grows r q → All (Fits r) l → All (Fits q) l
All-later [] r q g a = tt
All-later (c ∷ l) r q g a = (Fits-later c r q g a.0, All-later l r q g a.1)

update-Fits :
    (r : RequestRouter) (f : Caller → Caller)
    → ((c : Caller) → Fits r c → Fits r (f c))
    → (n : ℕ) (l : List Caller) → All (Fits r) l
    → All (Fits r) (update n f l)
unfolding update
update-Fits r f k n [] a = tt
update-Fits r f k zero (c ∷ l) a = (k c a.0, a.1)
update-Fits r f k (suc n) (c ∷ l) a = (a.0, update-Fits r f k n l a.1)

read_pending-Fits : (r : RequestRouter) (c : Caller) → Fits r c → Fits r (read_pending c r)
unfolding read_pending
read_pending-Fits r c h =
    elim c.point
        as (λ x.
          has_received x c.channel r ≡ true
          → Fits r (elim x [
            | registered ↦ record c { point = holding (channel_of (lookup c.request_id r.pending)) }
            | other ↦ c
          ])) [
            | registered ↦ λ x. refl
            | holding held ↦ λ x. h
            | received m ↦ λ x. h
            | gave_up ↦ λ x. h
          ]
      h

give_up_caller-Fits : (r : RequestRouter) (c : Caller) → Fits r c → Fits r (give_up_caller c)
unfolding give_up_caller
give_up_caller-Fits r c h =
    elim c.point
      as (λ x. Fits r (elim x [ holding held ↦ record c { point = gave_up } | other ↦ c ])) [
        | registered ↦ h
        | holding held ↦ refl
        | received m ↦ h
        | gave_up ↦ h
      ]

result_in_counts :
    (channel : ℕ) (ms : List ResponseResult) (m : ResponseResult)
    → result_in channel ms ≡ some m
    → (m.channel == channel && leb 1 (results_for channel ms)) ≡ true
unfolding result_in
result_in_counts channel [] m h = ground arith
result_in_counts channel (x ∷ ms) m h = elim (Bool-cases (x.channel == channel)) [
  | inl t ↦ ground (arith, t, h)
  | inr t ↦ ground (arith, t, h, result_in_counts channel ms m)
]

with_result-Fits :
    (r : RequestRouter) (c : Caller) (o : Option ResponseResult)
    → result_in c.channel r.sent ≡ o
    → Fits r c
    → Fits r (with_result o c)
with_result-Fits r c none e h = h
with_result-Fits r c (some m) e h = result_in_counts c.channel r.sent m e

receive_result-Fits : (r : RequestRouter) (c : Caller) → Fits r c → Fits r (receive_result c r)
unfolding receive_result
receive_result-Fits r c h =
    elim c.point
      as (λ x.
        Fits r (elim x [ holding held ↦ with_result (result_in c.channel r.sent) c | other ↦ c ])) [
          | registered ↦ h
          | holding held ↦ with_result-Fits r c (result_in c.channel r.sent) refl h
          | received m ↦ h
          | gave_up ↦ h
        ]

new_caller-Fits :
    (r : RequestRouter) (id : ℕ) (x : Result RequestError ℕ) (l : List Caller)
    → All (Fits r) l
    → All (Fits r) (new_caller id x l)
new_caller-Fits r id (err e) l a = a
new_caller-Fits r id (ok c) [] a = (refl, tt)
new_caller-Fits r id (ok c) (d ∷ l) a = (a.0, new_caller-Fits r id (ok c) l a.1)

module _ (r : RequestRouter) (c : ℕ) where
  register-Grows :
      (is_closed : ℕ → Bool) (now id : ℕ)
      → results_for c r.sent ≤ results_for c (try_register_pending is_closed now id r).0.sent
  unfolding try_register_pending register_at register_open
  register-Grows is_closed now id = ground arith

  complete-Grows :
      (id payload : ℕ) (error : Option RequestError)
      → results_for c r.sent ≤ results_for c (complete_request id payload error r).0.sent
  unfolding complete_request complete_found
  complete-Grows id payload error = ground arith

  remove-Grows :
      (id : ℕ) (held : Option ℕ)
      → results_for c r.sent ≤ results_for c (remove_pending id held r).0.sent
  unfolding remove_pending remove_found
  remove-Grows id held = ground arith

  close-Grows : (cause : CloseCause) → results_for c r.sent ≤ results_for c (close cause r).sent
  unfolding close close_open
  close-Grows cause = ground arith

  send_taken-Grows :
      (o : Option (ResponseResult × List ResponseResult))
      → results_for c r.sent ≤ results_for c (send_taken o r).sent
  unfolding send_taken
  send_taken-Grows none = omega arith
  send_taken-Grows (some (m, rest)) = ground arith

  give_up_by-Grows :
      (o : Option Caller) → results_for c r.sent ≤ results_for c (give_up_by o r).sent
  unfolding give_up_router
  give_up_by-Grows none = omega arith
  give_up_by-Grows (some d) =
      elim d.point
        as (λ x.
          results_for c r.sent
          ≤ results_for c (
              RequestRouter.sent
                (elim x [ holding held ↦ (remove_pending d.request_id held r).0 | other ↦ r ]))) [
                  | registered ↦ omega arith
                  | holding held ↦ remove-Grows d.request_id held
                  | received m ↦ omega arith
                  | gave_up ↦ omega arith
                ]

act-Fits :
    (is_closed : ℕ → Bool) (a : Action) (s : System)
    → All (Fits s.router) s.callers
    → All (Fits (act is_closed a s).router) (act is_closed a s).callers
unfolding act start_call cleanup send_result
act-Fits is_closed (start now id) s a =
    let (r, x) = try_register_pending is_closed now id s.router in
    new_caller-Fits r id x s.callers
      (All-later s.callers s.router r (λ c. register-Grows s.router c is_closed now id) a)
act-Fits is_closed (read_back n) s a =
    update-Fits s.router (λ c. read_pending c s.router) (read_pending-Fits s.router) n s.callers a
act-Fits is_closed (receive n) s a =
    update-Fits s.router (λ c. receive_result c s.router) (receive_result-Fits s.router) n s.callers
      a
act-Fits is_closed (give_up n) s a =
    let q = give_up_by (get_elem? s.callers n) s.router in
    update-Fits q give_up_caller (give_up_caller-Fits q) n s.callers
      (All-later s.callers s.router q (λ c. give_up_by-Grows s.router c (get_elem? s.callers n)) a)
act-Fits is_closed (register now id) s a =
    All-later s.callers s.router (try_register_pending is_closed now id s.router).0
      (λ c. register-Grows s.router c is_closed now id) a
act-Fits is_closed (complete id payload error) s a =
    All-later s.callers s.router (complete_request id payload error s.router).0
      (λ c. complete-Grows s.router c id payload error) a
act-Fits is_closed (clean_up now) s a =
    All-later s.callers s.router (cleanup now s.router) (λ c. omega arith) a
act-Fits is_closed (close_by cause) s a =
    All-later s.callers s.router (close cause s.router) (λ c. close-Grows s.router c cause) a
act-Fits is_closed (send n) s a =
    All-later s.callers s.router (send_result n s.router)
      (λ c. send_taken-Grows s.router c (take_result n s.router.to_send)) a

run-Fits :
    (is_closed : ℕ → Bool) (actions : List Action) (s : System)
    → All (Fits s.router) s.callers
    → All (Fits (run is_closed actions s).router) (run is_closed actions s).callers
unfolding run
run-Fits is_closed [] s a = a
run-Fits is_closed (x ∷ rest) s a =
    run-Fits is_closed rest (act is_closed x s) (act-Fits is_closed x s a)

get_elem?-Fits :
    (r : RequestRouter) (l : List Caller) (n : ℕ) (c : Caller)
    → get_elem? l n ≡ some c
    → All (Fits r) l
    → Fits r c
get_elem?-Fits r [] n c g a = ground arith
get_elem?-Fits r (d ∷ l) zero c g a = let e : d ≡ c = cc in subst (Fits r) e a.0
get_elem?-Fits r (d ∷ l) (suc n) c g a = get_elem?-Fits r l n c g a.1

-- A call of `SendRequest` that has received a result, after any interleaving of calls, has that of its
-- own channel, which gets no other: its request is not pending any more, no result is on its way,
-- there is none but this in the channel, and no caller has given the request up.
pub received_is_final :
    (is_closed : ℕ → Bool) (timeout : ℤ) (actions : List Action) (n : ℕ) (c : Caller)
    (m : ResponseResult)
    → (let s = run is_closed actions (new_system timeout) in
        get_elem? s.callers n ≡ some c
        → c.point ≡ received m
        → (m.channel ≡ c.channel)
          × (results_for c.channel s.router.sent ≡ 1)
          × (results_for c.channel s.router.to_send ≡ 0)
          × (pending_on c.channel s.router.pending ≡ 0)
          × (count c.channel s.router.withdrawn ≡ 0))
received_is_final is_closed timeout actions n c m g p =
    let s = run is_closed actions (new_system timeout) in
    let f =
      get_elem?-Fits s.router s.callers n c g
        (run-Fits is_closed actions (new_system timeout) (unfold new_system in tt)) in
    let x : has_received (received m) c.channel s.router ≡ true =
      subst (λ q. has_received q c.channel s.router ≡ true) p f in
    ground (arith, x, run-account is_closed timeout actions c.channel, ==_iff m.channel c.channel)
