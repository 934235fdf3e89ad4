-- ===== src/Net/Requests/Account.antt =====
-- The account of the channels of zNet/request_correlator.go: each has at most one result.
use z_engine.Common.{
  ltb, ◌==◌, if◌then◌else◌, ==_iff, Bool-cases, Option-cases, get_elem?, ℤ, ℕ, zero, suc, ◌+◌, ◌≡◌,
  refl, inl, inr, Bool, Option, none, some, List, [], ◌∷◌, ◌++◌, arith,
}
use z_engine.Common.TypedMap.{lookup, erase, Distinct, erase-Distinct}
use z_engine.Net.Requests.{
  RequestError, PendingResponse, ResponseResult, RequestRouter, new_request_router, CloseCause,
  register_open, register_at, try_register_pending, complete_found, complete_request, remove_found,
  remove_pending, is_held, unexpired, expired, cleanup, fail_all, cause_error, close_open, close,
  take_result, send_taken, send_result,
}
use z_engine.Net.Requests.Callers.{
  Caller, registered, holding, received, gave_up, System, new_system, Action, start, read_back,
  receive, give_up, register, complete, clean_up, close_by, send, start_call, give_up_router, act,
  run,
}

abbrev pub pending_on : ℕ → List (ℕ × PendingResponse) → ℕ
pending_on c [] = 0
pending_on c ((id, p) ∷ ps) = (if p.channel == c then 1 else 0) + pending_on c ps

abbrev pub results_for : ℕ → List ResponseResult → ℕ
results_for c [] = 0
results_for c (m ∷ ms) = (if m.channel == c then 1 else 0) + results_for c ms

abbrev pub count : ℕ → List ℕ → ℕ
count c [] = 0
count c (d ∷ ds) = (if d == c then 1 else 0) + count c ds

-- What has become of the channels.
abbrev pub account : ℕ → RequestRouter → ℕ
account c r =
    pending_on c r.pending + results_for c r.to_send + results_for c r.sent + count c r.withdrawn

pub record Inv (r : RequestRouter) : Type 0 where
  pub distinct : Distinct r.pending
  pub accounted : (c : ℕ) → account c r ≡ (if ltb c r.next_channel then 1 else 0)

results_for-append :
    (c : ℕ) (a b : List ResponseResult) → results_for c (a ++ b) ≡ results_for c a + results_for c b
results_for-append c [] b = omega arith
results_for-append c (m ∷ a) b = omega (arith, results_for-append c a b)

-- An id that is not pending is not erased.
erase_missing : (id : ℕ) (l : List (ℕ × PendingResponse)) → lookup id l ≡ none → erase id l ≡ l
erase_missing id [] h = refl
erase_missing id ((k, p) ∷ l) h = ground (arith, h, erase_missing id l)

pending_on-erase :
    (c id : ℕ) (p : PendingResponse) (l : List (ℕ × PendingResponse))
    → Distinct l
    → lookup id l ≡ some p
    → pending_on c (erase id l) + (if p.channel == c then 1 else 0) ≡ pending_on c l
pending_on-erase c id p [] d h = ground arith
pending_on-erase c id p ((k, q) ∷ l) d h =
    ground (arith, h, pending_on-erase c id p l d.1, erase_missing id l, d.0, ==_iff k id)

pending_on-unexpired :
    (c now : ℕ) (l : List (ℕ × PendingResponse))
    → pending_on c (unexpired now l) + results_for c (expired now l) ≡ pending_on c l
unfolding unexpired expired
pending_on-unexpired c now [] = refl
pending_on-unexpired c now ((k, q) ∷ l) = ground (arith, pending_on-unexpired c now l)

lookup-unexpired :
    (id now : ℕ) (l : List (ℕ × PendingResponse))
    → lookup id l ≡ none
    → lookup id (unexpired now l) ≡ none
unfolding unexpired
lookup-unexpired id now [] h = refl
lookup-unexpired id now ((k, q) ∷ l) h = ground (arith, h, lookup-unexpired id now l)

unexpired-Distinct :
    (now : ℕ) (l : List (ℕ × PendingResponse)) → Distinct l → Distinct (unexpired now l)
unfolding unexpired
unexpired-Distinct now [] d = tt
unexpired-Distinct now ((k, q) ∷ l) d =
    ground (arith, d.0, unexpired-Distinct now l d.1, lookup-unexpired k now l)

results_for-fail_all :
    (c : ℕ) (e : RequestError) (l : List (ℕ × PendingResponse))
    → results_for c (fail_all e l) ≡ pending_on c l
unfolding fail_all
results_for-fail_all c e [] = refl
results_for-fail_all c e ((k, q) ∷ l) = ground (arith, results_for-fail_all c e l)

results_for-take_result :
    (c n : ℕ) (ms : List ResponseResult) (m : ResponseResult) (rest : List ResponseResult)
    → take_result n ms ≡ some (m, rest)
    → (if m.channel == c then 1 else 0) + results_for c rest ≡ results_for c ms
unfolding take_result
results_for-take_result c n [] m rest h = ground arith
results_for-take_result c zero (x ∷ ms) m rest h = ground arith
results_for-take_result c (suc n) (x ∷ ms) m rest h = elim (Option-cases (take_result n ms)) [
  | inl e ↦ ground arith
  | inr ((y, others), e) ↦ ground (arith, results_for-take_result c n ms y others e)
]

module _ (r : RequestRouter) (v : Inv r) where
  register_open-Inv :
      (now id : ℕ) (o : Option PendingResponse)
      → lookup id r.pending ≡ o
      → Inv (register_open now id o r).0
  unfolding register_open
  register_open-Inv now id (some p) l = v
  register_open-Inv now id none l = record {
    distinct = (l, v.distinct);
    accounted = λ c. ground (arith, v.accounted c, ==_iff r.next_channel c);
  }

  try_register_pending-Inv :
      (is_closed : ℕ → Bool) (now id : ℕ) → Inv (try_register_pending is_closed now id r).0
  unfolding try_register_pending
  try_register_pending-Inv is_closed now id = register_at-Inv r.closed
    where
      register_at-Inv : (o : Option CloseCause) → Inv (register_at is_closed now id o r).0
      register_at-Inv (some cause) = v
      register_at-Inv none = register_open-Inv now id (lookup id r.pending) refl

  complete_found-Inv :
      (id payload : ℕ) (error : Option RequestError) (o : Option PendingResponse)
      → lookup id r.pending ≡ o
      → Inv (complete_found id payload error o r).0
  unfolding complete_found
  complete_found-Inv id payload error none l = v
  complete_found-Inv id payload error (some p) l = record {
    distinct = erase-Distinct r.pending id v.distinct;
    accounted = λ c. ground (arith, v.accounted c, pending_on-erase c id p r.pending v.distinct l);
  }

  remove_found-Inv :
      (id : ℕ) (held : Option ℕ) (o : Option PendingResponse)
      → lookup id r.pending ≡ o
      → Inv (remove_found id held o r).0
  unfolding remove_found
  remove_found-Inv id held none l = v
  remove_found-Inv id held (some p) l = elim (Bool-cases (is_held held p.channel)) [
    | inr t ↦ rw t v
    | inl t ↦ rw t (record {
      distinct = erase-Distinct r.pending id v.distinct;
      accounted =
          λ c. ground (arith, v.accounted c, pending_on-erase c id p r.pending v.distinct l);
    })
  ]

  cleanup-Inv : (now : ℕ) → Inv (cleanup now r)
  unfolding cleanup
  cleanup-Inv now = record {
    distinct = unexpired-Distinct now r.pending v.distinct;
    accounted = λ c. omega (
      arith,
      v.accounted c,
      pending_on-unexpired c now r.pending,
      results_for-append c (expired now r.pending) r.to_send,
    );
  }

  close_open-Inv : (cause : CloseCause) (o : Option CloseCause) → Inv (close_open cause o r)
  unfolding close_open
  close_open-Inv cause (some c) = v
  close_open-Inv cause none = record {
    distinct = tt;
    accounted = λ c. omega (
      arith,
      v.accounted c,
      results_for-fail_all c (cause_error cause) r.pending,
      results_for-append c (fail_all (cause_error cause) r.pending) r.to_send,
    );
  }

  send_taken-Inv :
      (n : ℕ) (o : Option (ResponseResult × List ResponseResult))
      → take_result n r.to_send ≡ o
      → Inv (send_taken o r)
  unfolding send_taken
  send_taken-Inv n none h = v
  send_taken-Inv n (some (m, rest)) h = record {
    distinct = v.distinct;
    accounted = λ c. omega (arith, v.accounted c, results_for-take_result c n r.to_send m rest h);
  }

  give_up_router-Inv : (c : Caller) → Inv (give_up_router c r)
  unfolding give_up_router remove_pending
  give_up_router-Inv c =
      elim c.point
        as (λ x.
          Inv (elim x [ holding held ↦ (remove_pending c.request_id held r).0 | other ↦ r ])) [
            | registered ↦ v
            | holding held ↦ remove_found-Inv c.request_id held (lookup c.request_id r.pending) refl
            | received m ↦ v
            | gave_up ↦ v
          ]

act-Inv :
    (is_closed : ℕ → Bool) (a : Action) (s : System) → Inv s.router → Inv (act is_closed a s).router
unfolding act start_call close send_result complete_request cleanup
act-Inv is_closed (start now id) s v = try_register_pending-Inv s.router v is_closed now id
act-Inv is_closed (read_back n) s v = v
act-Inv is_closed (receive n) s v = v
act-Inv is_closed (give_up n) s v = elim (Option-cases (get_elem? s.callers n)) [
  | inl e ↦ rw e v
  | inr (c, e) ↦ rw e (give_up_router-Inv s.router v c)
]
act-Inv is_closed (register now id) s v = try_register_pending-Inv s.router v is_closed now id
act-Inv is_closed (complete id payload error) s v =
    complete_found-Inv s.router v id payload error (lookup id s.router.pending) refl
act-Inv is_closed (clean_up now) s v = unfold cleanup in cleanup-Inv s.router v now
act-Inv is_closed (close_by cause) s v = close_open-Inv s.router v cause s.router.closed
act-Inv is_closed (send n) s v = send_taken-Inv s.router v n (take_result n s.router.to_send) refl

run_from-Inv :
    (is_closed : ℕ → Bool) (actions : List Action) (s : System)
    → Inv s.router
    → Inv (run is_closed actions s).router
unfolding run
run_from-Inv is_closed [] s v = v
run_from-Inv is_closed (a ∷ rest) s v =
    run_from-Inv is_closed rest (act is_closed a s) (act-Inv is_closed a s v)

-- After any interleaving of calls on a new router, each channel that it has made stands for exactly one
-- of these: a pending request, a result on its way to the channel, a result in the channel, or a
-- request that was given up; and no other channel stands for any. So a waiter gets at most one
-- result, which its channel has room for, and is lost only by a removal.
pub run-account :
    (is_closed : ℕ → Bool) (timeout : ℤ) (actions : List Action) (c : ℕ)
    → (let r = (run is_closed actions (new_system timeout)).router in
        account c r ≡ (if ltb c r.next_channel then 1 else 0))
run-account is_closed timeout actions c =
    (run_from-Inv is_closed actions (new_system timeout) (
        unfold new_system new_request_router in
        record { distinct = tt; accounted = λ c. ground arith })).accounted
      c
