-- ===== src/Server/Lifecycle/Invariant.antt =====
-- What holds of a server of zServer/lifecycle.go after any interleaving of its threads.
use z_engine.Common.{
  ltb, leb, ℕ, ◌≤◌, ◌≡◌, refl, Bool, true, false, not, Option, List, [], ◌∷◌, arith,
}
use z_engine.Server.State.{ServerState, stopped, set_state, can_transition_to}
use z_engine.Server.Cleanup.{Outcome, Registry, register_cleanup, run_cleanups, Name}
use z_engine.Server.Lifecycle.{
  StartPoint, unclaimed, before_start, after_start, publish, returned, StopPoint, idle, flagged,
  waiting, drained, quiet, hooked, canceled, cleaned, notified, finished, System, new_base_server,
  claim_start, Action, call_start, call_stop, step_start, step_stop, call_set_state, call_register,
  act, run,
}

-- How far the stop has come.
abbrev pub rank : StopPoint → ℕ
rank idle = 0
rank flagged = 1
rank waiting = 2
rank drained = 3
rank quiet = 4
rank hooked = 5
rank canceled = 6
rank cleaned = 7
rank notified = 8
rank finished = 9

-- `Start` was claimed and has not published its result.
abbrev pub is_starting : StartPoint → Bool
is_starting before_start = true
is_starting after_start = true
is_starting (publish b) = true
is_starting _ = false

abbrev pub is_unclaimed : StartPoint → Bool
is_unclaimed unclaimed = true
is_unclaimed _ = false

abbrev pub is_failed : StartPoint → Bool
is_failed (returned false) = true
is_failed _ = false

abbrev pub one_if : Bool → ℕ
one_if true = 1
one_if false = 0

pub record Inv (s : System) : Type 0 where
  pub start_closings : s.start_done_closings ≡ one_if s.start_complete
  pub stop_closings : s.stop_done_closings ≡ one_if (leb 9 (rank s.stop_point))
  pub flag : s.stopping ≡ ltb 0 (rank s.stop_point)
  pub claimed : s.start_claimed ≡ not (is_unclaimed s.start_point)
  pub pending : is_starting s.start_point ≡ true → s.start_complete ≡ false
  pub published :
      is_starting s.start_point ≡ false → s.start_claimed ≡ true → s.start_complete ≡ true
  pub early : s.start_complete ≡ true → s.start_claimed ≡ false → 2 ≤ rank s.stop_point
  pub checked : 2 ≤ rank s.stop_point → s.start_claimed ≡ false → s.start_complete ≡ true
  pub begun : 3 ≤ rank s.stop_point → s.start_complete ≡ true
  pub running :
      s.is_running ≡ true
      → (s.start_succeeded ≡ true) × (s.start_complete ≡ true) × (rank s.stop_point ≤ 3)
  pub canceled : 6 ≤ rank s.stop_point → s.is_canceled ≡ true
  pub cleaned : 7 ≤ rank s.stop_point → (s.registry.closed ≡ true) × (s.registry.entries ≡ [])
  pub over : 9 ≤ rank s.stop_point → s.state ≡ stopped
  pub failed : is_failed s.start_point ≡ true → 9 ≤ rank s.stop_point

pub new_base_server-Inv : Inv new_base_server
unfolding new_base_server
new_base_server-Inv = ground arith

step_start-Inv : (s : System) (o : Outcome) → Inv s → Inv (act s (step_start o))
unfolding act
step_start-Inv s o v = ground arith

set_state-stopped : (t : ServerState) → (set_state stopped t).state ≡ stopped
unfolding set_state can_transition_to
set_state-stopped t = ground arith

set_state_to_stopped : (s : ServerState) → (set_state s stopped).state ≡ stopped
unfolding set_state can_transition_to
set_state_to_stopped s = ground arith

run_cleanups-closed :
    (r : Registry)
    → ((run_cleanups r).registry.closed ≡ true) × ((run_cleanups r).registry.entries ≡ [])
unfolding run_cleanups
run_cleanups-closed r = (refl, refl)

register_cleanup-closed :
    (r : Registry) (name : Name) (fn : Option Outcome)
    → r.closed ≡ true
    → (register_cleanup r name fn).0 ≡ r
unfolding register_cleanup
register_cleanup-closed r name fn h = ground arith

step_stop-Inv : (s : System) (o : Outcome) → Inv s → Inv (act s (step_stop o))
unfolding act
step_stop-Inv s o v = ground (arith, set_state_to_stopped s.state, run_cleanups-closed s.registry)

call-Inv : (s : System) (a : Action) → Inv s → Inv (act s a)
unfolding act claim_start
call-Inv s call_start v = ground arith
call-Inv s call_stop v = ground arith
call-Inv s (step_start o) v = step_start-Inv s o v
call-Inv s (step_stop o) v = step_stop-Inv s o v
call-Inv s (call_set_state t) v = ground (arith, set_state-stopped t)
call-Inv s (call_register name fn) v = ground (arith, register_cleanup-closed s.registry name fn)

pub run-Inv : (s : System) (as' : List Action) → Inv s → Inv (run s as')
unfolding run
run-Inv s [] v = v
run-Inv s (a ∷ as') v = run-Inv (act s a) as' (call-Inv s a v)

-- In no interleaving is `startDone` or `stopDone` closed twice, which would panic.
pub channels_closed_once :
    (as' : List Action)
    → let s = run new_base_server as' in (s.start_done_closings ≤ 1) × (s.stop_done_closings ≤ 1)
channels_closed_once as' = ground (arith, run-Inv new_base_server as' new_base_server-Inv)

pub finished_of_rank : (p : StopPoint) → 9 ≤ rank p → p ≡ finished
finished_of_rank p h = ground arith

act-finished : (s : System) (a : Action) → s.stop_point ≡ finished → (act s a).stop_point ≡ finished
unfolding act claim_start
act-finished s call_start h = ground arith
act-finished s _ h = ground arith

pub run-finished :
    (s : System) (as' : List Action) → s.stop_point ≡ finished → (run s as').stop_point ≡ finished
unfolding run
run-finished s [] h = h
run-finished s (a ∷ as') h = run-finished (act s a) as' (act-finished s a h)

-- Once `stopDone` is closed the server is stopped and not running, its context is canceled, and its
-- registry is closed and empty; and that stays so whatever happens after it.
pub stopped_for_good :
    (as' later : List Action)
    → (run new_base_server as').stop_done_closings ≡ 1
    → let s = run (run new_base_server as') later in
      (s.state ≡ stopped)
      × (s.is_running ≡ false)
      × (s.is_canceled ≡ true)
      × (s.registry.closed ≡ true)
      × (s.registry.entries ≡ [])
stopped_for_good as' later h =
    let s = run new_base_server as' in
    let v : Inv s = run-Inv new_base_server as' new_base_server-Inv in
    let end : s.stop_point ≡ finished =
      finished_of_rank s.stop_point (ground (arith, v.stop_closings)) in
    let w : Inv (run s later) = run-Inv s later v in
    let end' : (run s later).stop_point ≡ finished = run-finished s later end in
    let last : 9 ≤ rank (run s later).stop_point = ground (arith, end') in
    (
      w.over last,
      ground (arith, w.running, last),
      w.canceled (omega (arith, last)),
      (w.cleaned (omega (arith, last))).0,
      (w.cleaned (omega (arith, last))).1,
    )
