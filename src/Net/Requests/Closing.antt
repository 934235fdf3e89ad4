-- ===== src/Net/Requests/Closing.antt =====
-- `Close` of zNet/request_correlator.go is final, and fails every pending request.
use z_engine.Common.{
  Option-cases, err, get_elem?, ℤ, ℕ, ◌≡◌, refl, ◌⊎◌, inl, inr, Bool, Option, none, some, List, [],
  ◌∷◌, arith,
}
use z_engine.Net.Requests.{
  RequestError, ResponseResult, RequestRouter, new_request_router, CloseCause, closed_error,
  register_open, register_at, try_register_pending, complete_found, complete_request, remove_found,
  remove_pending, unexpired, cleanup, close_open, close, send_taken, take_result, send_result,
}
use z_engine.Net.Requests.Callers.{
  Caller, registered, holding, received, gave_up, System, new_system, Action, start, read_back,
  receive, give_up, register, complete, clean_up, close_by, send, start_call, give_up_by,
  give_up_router, act, run,
}

-- A closed router has a cause, no pending request, and has made so many channels.
pub record Closed (cause : CloseCause) (channels : ℕ) (r : RequestRouter) : Type 0 where
  pub closed : r.closed ≡ some cause
  pub pending : r.pending ≡ []
  pub made : r.next_channel ≡ channels

module _ (cause : CloseCause) (n : ℕ) (r : RequestRouter) (v : Closed cause n r) where
  register-Closed :
      (is_closed : ℕ → Bool) (now id : ℕ)
      → Closed cause n (try_register_pending is_closed now id r).0
  unfolding try_register_pending register_at
  register-Closed is_closed now id = simp (v.closed) v

  complete-Closed :
      (id payload : ℕ) (error : Option RequestError)
      → Closed cause n (complete_request id payload error r).0
  unfolding complete_request complete_found
  complete-Closed id payload error = simp (v.pending) v

  remove-Closed : (id : ℕ) (held : Option ℕ) → Closed cause n (remove_pending id held r).0
  unfolding remove_pending remove_found
  remove-Closed id held = simp (v.pending) v

  cleanup-Closed : (now : ℕ) → Closed cause n (cleanup now r)
  unfolding cleanup unexpired
  cleanup-Closed now = record { closed = v.closed; pending = rw v.pending refl; made = v.made }

  close-Closed : (other : CloseCause) → Closed cause n (close other r)
  unfolding close close_open
  close-Closed other = simp (v.closed) v

  send_taken-Closed :
      (o : Option (ResponseResult × List ResponseResult)) → Closed cause n (send_taken o r)
  unfolding send_taken
  send_taken-Closed none = v
  send_taken-Closed (some (m, rest)) = record {
    closed = v.closed;
    pending = v.pending;
    made = v.made;
  }

  give_up_router-Closed : (c : Caller) → Closed cause n (give_up_router c r)
  unfolding give_up_router
  give_up_router-Closed c =
      elim c.point
        as (λ x.
          Closed cause n
            (elim x [ holding held ↦ (remove_pending c.request_id held r).0 | other ↦ r ])) [
              | registered ↦ v
              | holding held ↦ remove-Closed c.request_id held
              | received m ↦ v
              | gave_up ↦ v
            ]

act-Closed :
    (cause : CloseCause) (n : ℕ) (is_closed : ℕ → Bool) (a : Action) (s : System)
    → Closed cause n s.router
    → Closed cause n (act is_closed a s).router
unfolding act start_call send_result
act-Closed cause n is_closed (start now id) s v =
    register-Closed cause n s.router v is_closed now id
act-Closed cause n is_closed (read_back k) s v = v
act-Closed cause n is_closed (receive k) s v = v
act-Closed cause n is_closed (give_up k) s v = elim (Option-cases (get_elem? s.callers k)) [
  | inl e ↦ rw e v
  | inr (c, e) ↦ rw e (give_up_router-Closed cause n s.router v c)
]
act-Closed cause n is_closed (register now id) s v =
    register-Closed cause n s.router v is_closed now id
act-Closed cause n is_closed (complete id payload error) s v =
    complete-Closed cause n s.router v id payload error
act-Closed cause n is_closed (clean_up now) s v = cleanup-Closed cause n s.router v now
act-Closed cause n is_closed (close_by other) s v = close-Closed cause n s.router v other
act-Closed cause n is_closed (send k) s v =
    send_taken-Closed cause n s.router v (take_result k s.router.to_send)

run-Closed :
    (cause : CloseCause) (n : ℕ) (is_closed : ℕ → Bool) (actions : List Action) (s : System)
    → Closed cause n s.router
    → Closed cause n (run is_closed actions s).router
unfolding run
run-Closed cause n is_closed [] s v = v
run-Closed cause n is_closed (a ∷ rest) s v =
    run-Closed cause n is_closed rest (act is_closed a s) (act-Closed cause n is_closed a s v)

-- The cause that counts.
abbrev pub first_cause : CloseCause → Option CloseCause → CloseCause
first_cause cause none = cause
first_cause cause (some c) = c

module _ (r : RequestRouter) (h : r.closed ≡ none) where
  register-open :
      (is_closed : ℕ → Bool) (now id : ℕ)
      → (try_register_pending is_closed now id r).0.closed ≡ none
  unfolding try_register_pending register_at register_open
  register-open is_closed now id = ground (arith, h)

  complete-open :
      (id payload : ℕ) (error : Option RequestError)
      → (complete_request id payload error r).0.closed ≡ none
  unfolding complete_request complete_found
  complete-open id payload error = ground (arith, h)

  remove-open : (id : ℕ) (held : Option ℕ) → (remove_pending id held r).0.closed ≡ none
  unfolding remove_pending remove_found
  remove-open id held = ground (arith, h)

  send_taken-open :
      (o : Option (ResponseResult × List ResponseResult)) → (send_taken o r).closed ≡ none
  unfolding send_taken
  send_taken-open none = h
  send_taken-open (some (m, rest)) = h

  close-first : (cause : CloseCause) → Closed cause r.next_channel (close cause r)
  unfolding close close_open
  close-first cause = simp (h) (record { closed = refl; pending = refl; made = refl })

  give_up_by-open : (o : Option Caller) → (give_up_by o r).closed ≡ none
  unfolding give_up_router
  give_up_by-open none = h
  give_up_by-open (some c) =
      elim c.point
        as (λ x.
          RequestRouter.closed
            (elim x [ holding held ↦ (remove_pending c.request_id held r).0 | other ↦ r ])
          ≡ none) [
            | registered ↦ h
            | holding held ↦ remove-open c.request_id held
            | received m ↦ h
            | gave_up ↦ h
          ]

-- A router is open, or closed for good.
abbrev Status : RequestRouter → Type 0
Status r = (r.closed ≡ none) ⊎ ((cause : CloseCause) × Closed cause r.next_channel r)

Closed-Status : (cause : CloseCause) (n : ℕ) (r : RequestRouter) → Closed cause n r → Status r
Closed-Status cause n r v =
    inr (cause, record { closed = v.closed; pending = v.pending; made = refl })

act_open-Status :
    (is_closed : ℕ → Bool) (a : Action) (s : System)
    → s.router.closed ≡ none
    → Status (act is_closed a s).router
unfolding act start_call send_result cleanup
act_open-Status is_closed (start now id) s h = inl (register-open s.router h is_closed now id)
act_open-Status is_closed (read_back k) s h = inl h
act_open-Status is_closed (receive k) s h = inl h
act_open-Status is_closed (give_up k) s h = inl (give_up_by-open s.router h (get_elem? s.callers k))
act_open-Status is_closed (register now id) s h = inl (register-open s.router h is_closed now id)
act_open-Status is_closed (complete id payload error) s h =
    inl (complete-open s.router h id payload error)
act_open-Status is_closed (clean_up now) s h = inl h
act_open-Status is_closed (close_by cause) s h =
    Closed-Status cause s.router.next_channel (close cause s.router) (close-first s.router h cause)
act_open-Status is_closed (send k) s h =
    inl (send_taken-open s.router h (take_result k s.router.to_send))

run-Status :
    (is_closed : ℕ → Bool) (actions : List Action) (s : System)
    → Status s.router
    → Status (run is_closed actions s).router
unfolding run
run-Status is_closed [] s x = x
run-Status is_closed (a ∷ rest) s (inl h) =
    run-Status is_closed rest (act is_closed a s) (act_open-Status is_closed a s h)
run-Status is_closed (a ∷ rest) s (inr (c, v)) = run-Status is_closed rest (act is_closed a s) (
    Closed-Status c s.router.next_channel (act is_closed a s).router
      (act-Closed c s.router.next_channel is_closed a s v))

close-Status :
    (cause : CloseCause) (r : RequestRouter)
    → Status r
    → Closed (first_cause cause r.closed) r.next_channel (close cause r)
close-Status cause r (inl h) = simp (h) (close-first r h cause)
close-Status cause r (inr (c, v)) = simp (v.closed) (close-Closed c r.next_channel r v cause)

-- Once `Close` has been called, after any interleaving of calls and whatever follows, the router has no
-- pending request, makes no channel more, keeps the cause of the first `Close`, and answers every
-- `TryRegisterPending` with the error of that cause.
pub close_is_final :
    (is_closed : ℕ → Bool) (timeout : ℤ) (before after : List Action) (cause : CloseCause)
    (now id : ℕ)
    → (let r = (run is_closed before (new_system timeout)).router in
        let t =
          (run is_closed after
            (act is_closed (close_by cause) (run is_closed before (new_system timeout)))).router in
        (t.pending ≡ [])
        × (t.next_channel ≡ r.next_channel)
        × (t.closed ≡ some (first_cause cause r.closed))
        × ((try_register_pending is_closed now id t).1
            ≡ err (closed_error is_closed (first_cause cause r.closed))))
close_is_final is_closed timeout before after cause now id =
    let s = run is_closed before (new_system timeout) in
    let st =
      run-Status is_closed before (new_system timeout)
        (inl (unfold new_system new_request_router in refl)) in
    let v =
      run-Closed (first_cause cause s.router.closed) s.router.next_channel is_closed after
        (act is_closed (close_by cause) s) (unfold act in close-Status cause s.router st) in
    (v.pending, v.made, v.closed, unfold try_register_pending register_at in simp (v.closed) refl)
