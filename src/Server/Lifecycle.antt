-- ===== src/Server/Lifecycle.antt =====
-- zServer/lifecycle.go: `Start` and `StopWithError` as threads that interleave with each other and
-- with the rest of the process. Each action below is a block that no other thread can divide: a
-- critical section of `lifecycleMu` or `stateMu`, an atomic access, a call of a hook, or the run of
-- the cleanups. `startDone` and `stopDone` are channels that are only closed: their closings are
-- counted, since a second one would panic. `stopOnce` lets one caller in; the others wait.
pub mod Invariant
pub mod Progress
use z_engine.Common.{
  ◌==◌, if◌then◌else◌, ℕ, ◌+◌, Bool, true, false, not, ◌&&◌, ◌||◌, Option, none, some, List, [],
  ◌∷◌, ◌++◌,
}
use z_engine.Server.State.{ServerState, starting, draining, stopped, is_terminal, set_state}
use z_engine.Server.Cleanup.{
  Outcome, returns, fails, panics, Name, Registry, empty_registry, register_cleanup, run_cleanups,
}

-- Where `Start` stands, once a caller has claimed it; `publish b` is before the second critical
-- section with b for `startErr == nil`; `returned b` is after the return, b for a nil error.
pub data StartPoint : Type 0 where
  unclaimed before_start after_start must_stop awaiting_stop : StartPoint
  publish returned : Bool → StartPoint

-- Where the function under `stopOnce` stands.
pub data StopPoint : Type 0 where
  idle flagged waiting drained quiet hooked canceled cleaned notified finished : StopPoint

pub data StopError : Type 0 where
  set_draining_failed before_stop_failed after_stop_failed set_stopped_failed : StopError
  cleanups_failed : List Name → StopError

pub record System : Type 0 where
  pub state : ServerState
  pub is_running : Bool
  pub start_claimed : Bool
  pub start_complete : Bool
  pub start_succeeded : Bool
  pub stopping : Bool
  pub is_canceled : Bool
  pub registry : Registry
  pub stop_errors : List StopError
  pub start_done_closings : ℕ
  pub stop_done_closings : ℕ
  pub start_point : StartPoint
  pub stop_point : StopPoint

-- `NewBaseServer`.
unfoldable pub new_base_server : System
new_base_server = record {
  state = starting;
  is_running = false;
  start_claimed = false;
  start_complete = false;
  start_succeeded = false;
  stopping = false;
  is_canceled = false;
  registry = empty_registry;
  stop_errors = [];
  start_done_closings = 0;
  stop_done_closings = 0;
  start_point = unclaimed;
  stop_point = idle;
}

pub data StartError : Type 0 where
  start_already_called restart_unsupported : StartError

-- The first critical section of `Start`; on an error the caller returns.
unfoldable pub claim_start : System → System × Option StartError
claim_start s =
    if s.start_claimed
    then (s, some (if is_terminal s.state then restart_unsupported else start_already_called))
    else if s.stopping || is_terminal s.state
    then (s, some restart_unsupported)
    else (record s { start_claimed = true; start_point = before_start }, none)

abbrev pub succeeded : Outcome → Bool
succeeded returns = true
succeeded fails = false
succeeded panics = false

-- The second critical section of `Start`.
publish_start : System → Bool → System
publish_start s success = record s {
  start_succeeded = success;
  is_running = if success && not s.stopping then true else s.is_running;
  start_complete = true;
  start_done_closings = s.start_done_closings + 1;
  start_point = if success && not s.stopping then returned true else must_stop;
}

-- `stopOnce.Do`: the first caller sets the flag.
enter_stop : System → StopPoint → System
enter_stop s idle = record s { stopping = true; stop_point = flagged }
enter_stop s _ = s

-- The next step of the thread in `Start`; a hook comes to `o`.
start_step : StartPoint → System → Outcome → System
unfolding publish_start enter_stop
start_step unclaimed s o = s
start_step before_start s o = record s {
  start_point = if succeeded o then after_start else publish false;
}
start_step after_start s o = record s { start_point = publish (succeeded o) }
start_step (publish b) s o = publish_start s b
start_step must_stop s o = record (enter_stop s s.stop_point) { start_point = awaiting_stop }
start_step awaiting_stop s o =
    if s.stop_done_closings == 0 then s else record s { start_point = returned false }
start_step (returned b) s o = s

record_error : System → Bool → StopError → System
record_error s true e = s
record_error s false e = record s { stop_errors = s.stop_errors ++ e ∷ [] }

-- `stopSequence`, first part: `SetState(StateDraining)` if the start had succeeded.
drain_step : System → System
unfolding record_error
drain_step s =
    let t = set_state s.state draining in
    if s.start_succeeded
    then record_error (record s { state = t.state; stop_point = drained }) t.accepted
        set_draining_failed
    else record s { stop_point = drained }

before_stop_step : System → Outcome → System
unfolding record_error
before_stop_step s o =
    if s.start_succeeded
    then record_error (record s { stop_point = hooked }) (succeeded o) before_stop_failed
    else record s { stop_point = hooked }

no_errors : List Name → Bool
no_errors [] = true
no_errors (n ∷ ns) = false

cleanup_step : System → System
unfolding record_error no_errors
cleanup_step s =
    let r = run_cleanups s.registry in
    record_error (record s { registry = r.registry; stop_point = cleaned }) (no_errors r.errors)
      (cleanups_failed r.errors)

-- `SetState(StateStopped)`, and the close of `stopDone`.
finish_step : System → System
unfolding record_error
finish_step s =
    let t = set_state s.state stopped in
    record_error
      (record s {
        state = t.state;
        stop_done_closings = s.stop_done_closings + 1;
        stop_point = finished;
      })
      t.accepted set_stopped_failed

-- The next step under `stopOnce`. A server without `OnAfterStop` passes that step with `returns`.
stop_step : StopPoint → System → Outcome → System
unfolding drain_step before_stop_step cleanup_step finish_step record_error
stop_step idle s o = s
stop_step flagged s o =
    if not s.start_claimed && not s.start_complete
    then record s {
      start_complete = true;
      start_done_closings = s.start_done_closings + 1;
      stop_point = waiting;
    }
    else record s { stop_point = waiting }
stop_step waiting s o = if s.start_done_closings == 0 then s else drain_step s
stop_step drained s o = record s { is_running = false; stop_point = quiet }
stop_step quiet s o = before_stop_step s o
stop_step hooked s o = record s { is_canceled = true; stop_point = canceled }
stop_step canceled s o = cleanup_step s
stop_step cleaned s o =
    record_error (record s { stop_point = notified }) (succeeded o) after_stop_failed
stop_step notified s o = finish_step s
stop_step finished s o = s

-- What can happen next: a call of `Start` or of a stop function by any goroutine, a step of the
-- thread in `Start` or under `stopOnce`, whose hook if any comes to the outcome, and calls of
-- `SetState` and `RegisterCleanup` from anywhere, the hooks included.
pub data Action : Type 0 where
  call_start call_stop : Action
  step_start step_stop : Outcome → Action
  call_set_state : ServerState → Action
  call_register : Name → Option Outcome → Action

unfoldable pub act : System → Action → System
unfolding start_step stop_step enter_stop
act s call_start = (claim_start s).0
act s call_stop = enter_stop s s.stop_point
act s (step_start o) = start_step s.start_point s o
act s (step_stop o) = stop_step s.stop_point s o
act s (call_set_state t) = record s { state = (set_state s.state t).state }
act s (call_register name fn) = record s { registry = (register_cleanup s.registry name fn).0 }

unfoldable pub run : System → List Action → System
run s [] = s
run s (a ∷ as') = run (act s a) as'
