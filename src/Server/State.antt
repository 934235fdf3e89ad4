-- ===== src/Server/State.antt =====
-- zServer/state.go: the seven states of a server and the moves between them. The Go type is a
-- string; a string that is none of the constants is never stored, since every move refuses it.
pub mod Moves
use z_engine.Common.{if◌then◌else◌, Bool, true, false, not, ◌||◌, Option, none, some}

pub data ServerState : Type 0 where
  starting initializing ready healthy draining maintenance stopped : ServerState

pub ServerState-discrete : Discrete ServerState
ServerState-discrete = hlevel

-- `==` on states.
abbrev pub same_state : ServerState → ServerState → Bool
same_state starting starting = true
same_state initializing initializing = true
same_state ready ready = true
same_state healthy healthy = true
same_state draining draining = true
same_state maintenance maintenance = true
same_state stopped stopped = true
same_state _ _ = false

-- `IsActive` and `IsTerminal`.
unfoldable pub is_active : ServerState → Bool
is_active ready = true
is_active healthy = true
is_active _ = false

unfoldable pub is_terminal : ServerState → Bool
is_terminal s = same_state s stopped

-- `CanTransitionTo`.
unfoldable pub can_transition_to : ServerState → ServerState → Bool
can_transition_to starting t =
    same_state t initializing || same_state t draining || same_state t stopped
can_transition_to initializing t =
    same_state t ready || same_state t maintenance || same_state t draining || same_state t stopped
can_transition_to ready t =
    same_state t healthy
    || same_state t maintenance
    || same_state t draining
    || same_state t stopped
can_transition_to healthy t =
    same_state t ready || same_state t maintenance || same_state t draining || same_state t stopped
can_transition_to draining t = same_state t stopped
can_transition_to maintenance t =
    same_state t ready || same_state t healthy || same_state t draining || same_state t stopped
can_transition_to stopped t = false

-- `StateChangeEvent`, without its time and reason.
pub record StateChange : Type 0 where
  pub old_state : ServerState
  pub new_state : ServerState

-- `SetState`: the new state, the event for the listeners if there is one, and whether the call
-- succeeds.
pub record Transition : Type 0 where
  pub state : ServerState
  pub event : Option StateChange
  pub accepted : Bool

unfoldable pub set_state : ServerState → ServerState → Transition
set_state old new =
    if same_state old new
    then record { state = old; event = none; accepted = true }
    else if not (can_transition_to old new)
    then record { state = old; event = none; accepted = false }
    else record {
      state = new;
      event = some (record { old_state = old; new_state = new });
      accepted = true;
    }

-- `Initialize`, `Ready`, `Healthy`, `Drain`, `EnterMaintenance` and `ExitMaintenance`.
pub data Request : Type 0 where
  initialize make_ready make_healthy drain enter_maintenance exit_maintenance : Request

abbrev pub target : Request → ServerState
target initialize = initializing
target make_ready = ready
target make_healthy = healthy
target drain = draining
target enter_maintenance = maintenance
target exit_maintenance = ready
