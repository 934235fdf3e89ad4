-- ===== src/Examples/Waiting.antt =====
-- zNet/request_correlator.go: requests that are answered, lost and closed.
use z_engine.Common.{
  err, get_elem?, pos, ℕ, ◌≡◌, refl, Bool, true, false, none, some, List, [], ◌∷◌,
}
use z_engine.Net.Requests.{
  closed_error, new_request_router, send_result, complete_request, closed_by, ResponseResult,
  caller_cause, default_cause, try_register_pending,
}
use z_engine.Net.Requests.Callers.{
  receive_result, read_pending, Caller, registered, received, System, new_system, Action, start,
  read_back, receive, give_up, complete, close_by, send, act, run,
}
use z_engine.Net.Requests.Account.{account, run-account, results_for, pending_on, count}
use z_engine.Net.Requests.Closing.{close_is_final}
use z_engine.Net.Requests.Taken.{give_up_takes_other}
use z_engine.Net.Requests.Waiters.{received_is_final}
use z_engine.Common.TypedMap.{lookup}

-- No cause wraps `ErrRequestRouterClosed`.
abbrev never : ℕ → Bool
never e = false

abbrev answered_call : List Action
answered_call =
    start 1 40 ∷ read_back 0 ∷ complete 40 7 none ∷ complete 40 8 none ∷ send 0 ∷ receive 0 ∷ []

abbrev answer : ResponseResult
answer = record { channel = 0; payload = 7; error = none }

abbrev answered_caller : Caller
answered_caller = record { request_id = 40; channel = 0; point = received answer }

answers :
    get_elem? (run never answered_call (new_system (pos 500))).callers 0 ≡ some answered_caller
unfolding run act try_register_pending new_system new_request_router receive_result read_pending
    send_result complete_request
answers = refl

received_is_final_example :
    let r = (run never answered_call (new_system (pos 500))).router in
    (answer.channel ≡ 0)
    × (results_for 0 r.sent ≡ 1)
    × (results_for 0 r.to_send ≡ 0)
    × (pending_on 0 r.pending ≡ 0)
    × (count 0 r.withdrawn ≡ 0)
received_is_final_example =
    received_is_final never (pos 500) answered_call 0 answered_caller answer answers refl

run-account_example : account 0 (run never answered_call (new_system (pos 500))).router ≡ 1
unfolding run act send_result complete_request try_register_pending new_system new_request_router
run-account_example = run-account never (pos 500) answered_call 0

close_is_final_example :
    let s = run never (start 1 40 ∷ []) (new_system (pos 500)) in
    let t =
      (run never
        (close_by default_cause ∷ start 2 41 ∷ [])
        (act never (close_by (caller_cause 3)) s)).router in
    (t.pending ≡ [])
    × (t.next_channel ≡ s.router.next_channel)
    × (t.closed ≡ some (caller_cause 3))
    × ((try_register_pending never 9 42 t).1 ≡ err (closed_by 3))
unfolding run closed_error act try_register_pending new_system new_request_router
close_is_final_example =
    close_is_final never (pos 500) (start 1 40 ∷ []) (close_by default_cause ∷ start 2 41 ∷ [])
      (caller_cause 3) 9 42

-- The first call is answered before it reads its pending response back.
abbrev early_answer : System
early_answer = run never (start 1 40 ∷ complete 40 7 none ∷ []) (new_system (pos 500))

abbrev first_caller : Caller
first_caller = record { request_id = 40; channel = 0; point = registered }

early_answer-caller :
    (early_answer.router.closed ≡ none)
    × (get_elem? early_answer.callers 0 ≡ some first_caller)
    × (lookup 40 early_answer.router.pending ≡ none)
unfolding run act try_register_pending new_system new_request_router complete_request
early_answer-caller = (refl, refl, refl)

give_up_takes_other_example :
    let late = (run never (start 2 40 ∷ read_back 0 ∷ give_up 0 ∷ []) early_answer).router in
    let early = (run never (read_back 0 ∷ start 2 40 ∷ give_up 0 ∷ []) early_answer).router in
    ((late.withdrawn ≡ early_answer.router.next_channel ∷ early_answer.router.withdrawn)
      × ((complete_request 40 8 none late).1 ≡ false))
    × (early.withdrawn ≡ early_answer.router.withdrawn)
    × ((complete_request 40 8 none early).1 ≡ true)
give_up_takes_other_example =
    give_up_takes_other never early_answer 0 2 first_caller 8 none early_answer-caller.0
      early_answer-caller.1 refl early_answer-caller.2
