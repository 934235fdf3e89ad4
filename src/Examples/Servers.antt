-- ===== src/Examples/Servers.antt =====
-- The theorems on a server at a start and a stop that overlap.
use z_engine.Common.{ℕ, zero, suc, ◌≤◌, ◌≡◌, refl, true, false, Option, some, List, [], ◌∷◌}
use z_engine.Server.State.{
  is_terminal, starting, initializing, ready, healthy, stopped, is_active, can_transition_to,
  set_state,
}
use z_engine.Server.State.Moves.{set_states}
use z_engine.Server.Cleanup.{run_cleanups, Outcome, returns, fails, Name}
use z_engine.Server.Cleanup.Order.{
  Call, register, shut, call, calls, start, registrations, PairwiseDistinct, cleanups_called_once,
  valid, newest_first,
}
use z_engine.Server.Lifecycle.{
  act, claim_start, Action, call_start, call_stop, step_start, step_stop, call_set_state,
  call_register, run, new_base_server,
}
use z_engine.Server.Lifecycle.Invariant.{stopped_for_good, channels_closed_once}
use z_engine.Server.Lifecycle.Progress.{drive, stop_completes}

-- A stop that is asked for while `OnAfterStart` runs.
abbrev overlapping : List Action
overlapping =
    call_start
    ∷ step_start returns
    ∷ call_register (b'd' ∷ b'b' ∷ []) (some returns)
    ∷ call_stop
    ∷ step_stop returns
    ∷ []

overlapping-stopping : (run new_base_server overlapping).stopping ≡ true
unfolding run act claim_start new_base_server is_terminal
overlapping-stopping = refl

-- Every other hook fails.
abbrev alternating : ℕ → Outcome
alternating zero = returns
alternating (suc zero) = fails
alternating (suc (suc n)) = alternating n

stop_completes_example :
    (drive 12 (run new_base_server overlapping) alternating).stop_done_closings ≡ 1
stop_completes_example = stop_completes overlapping alternating overlapping-stopping

-- The same to its end.
abbrev ended : List Action
ended =
    call_start
    ∷ step_start returns
    ∷ call_stop
    ∷ step_stop returns
    ∷ step_start returns
    ∷ step_start returns
    ∷ step_start returns
    ∷ step_stop returns
    ∷ step_stop returns
    ∷ step_stop returns
    ∷ step_stop returns
    ∷ step_stop returns
    ∷ step_stop returns
    ∷ step_stop returns
    ∷ step_start returns
    ∷ []

ended-done : (run new_base_server ended).stop_done_closings ≡ 1
unfolding run act claim_start new_base_server is_terminal set_state can_transition_to run_cleanups
ended-done = refl

abbrev later : List Action
later = call_start ∷ call_set_state healthy ∷ call_register (b'x' ∷ []) (some fails) ∷ []

stopped_for_good_example :
    let s = run (run new_base_server ended) later in
    (s.state ≡ stopped)
    × (s.is_running ≡ false)
    × (s.is_canceled ≡ true)
    × (s.registry.closed ≡ true)
    × (s.registry.entries ≡ [])
stopped_for_good_example = stopped_for_good ended later ended-done

channels_closed_once_example :
    let s = run new_base_server ended in (s.start_done_closings ≤ 1) × (s.stop_done_closings ≤ 1)
channels_closed_once_example = channels_closed_once ended

abbrev two_cleanups : List (Name × Option Outcome)
two_cleanups = (b'a' ∷ [], some returns) ∷ (b'b' ∷ [], some fails) ∷ []

abbrev after_shut : List Call
after_shut = register (b'c' ∷ []) (some returns) ∷ shut ∷ []

cleanups_called_once_example :
    let called = (calls (call (calls start (registrations two_cleanups)) shut) after_shut).called in
    (called ≡ newest_first [] (valid two_cleanups)) × PairwiseDistinct called
cleanups_called_once_example = cleanups_called_once two_cleanups after_shut

to_ready-active : is_active (set_states starting (initializing ∷ ready ∷ [])) ≡ true
unfolding is_active set_states set_state can_transition_to
to_ready-active = refl
