-- ===== src/Service/Startup.antt =====
-- zService/service_manager.go: `InitServices` and `CloseServices`. What the `Init` and the `Close`
-- of a service come to is a test of its id, false for an error or a panic; the services do not
-- set their states themselves, as `BaseService` does not.
pub mod Rollback
use z_engine.Common.{
  ◌>>=◌, ◌==◌, if◌then◌else◌, Result, ok, ℕ, Bool, true, false, Option, none, some, List, [], ◌∷◌,
  ◌++◌,
}
use z_engine.Service.{Infos, ServiceError, topological_sort}

-- `ServiceState`.
pub data ServiceState : Type 0 where
  unknown created init running stopping stopped : ServiceState

abbrev pub States : Type 0
States = ℕ → ServiceState

-- `SetState` of one service.
abbrev pub set : States → ℕ → ServiceState → States
set m id state j = if id == j then state else m j

abbrev pub is_created : ServiceState → Bool
is_created created = true
is_created _ = false

-- The states that `closeServices` does not skip.
abbrev pub is_open : ServiceState → Bool
is_open init = true
is_open running = true
is_open stopping = true
is_open _ = false

-- The states after closing, and the services whose `Close` failed, in that order.
pub record Closing : Type 0 where
  pub states : States
  pub failed : List ℕ

pub close_service : (ℕ → Bool) → ℕ → Closing → Closing
close_service closes id c =
    if is_open (c.states id)
    then record {
      states = set (set c.states id stopping) id stopped;
      failed = if closes id then c.failed else c.failed ++ id ∷ [];
    }
    else c

-- `closeServices`, from the last service to the first.
pub close_services : (ℕ → Bool) → List ℕ → Closing → Closing
unfolding close_service
close_services closes [] c = c
close_services closes (id ∷ ids) c = close_service closes id (close_services closes ids c)

-- The states after an initialization, and the service whose `Init` failed, if one did, with
-- those whose `Close` then failed.
pub record Initialization : Type 0 where
  pub states : States
  pub failure : Option (ℕ × List ℕ)

roll_back : (ℕ → Bool) → ℕ → Closing → Initialization
roll_back closes id c = record { states = c.states; failure = some (id, c.failed) }

-- The loop of `InitServices`, with the services that it has initialized.
pub init_all : (ℕ → Bool) → (ℕ → Bool) → List ℕ → List ℕ → States → Initialization
unfolding roll_back close_services
init_all inits closes [] initialized m = record { states = m; failure = none }
init_all inits closes (id ∷ ids) initialized m = elim (is_created (m id)) [
  | true ↦ elim (inits id) [
    | true ↦ init_all inits closes ids (initialized ++ id ∷ []) (set m id init)
    | false ↦ roll_back closes id (
        close_services closes initialized
          (record { states = set (set m id init) id created; failed = [] }))
  ]
  | false ↦ init_all inits closes ids initialized m
]

-- `InitServices`.
unfoldable pub init_services :
    Infos → (ℕ → Bool) → (ℕ → Bool) → States → Result ServiceError Initialization
unfolding init_all
init_services infos inits closes m = do
  ids ← topological_sort infos
  ok (init_all inits closes ids [] m)

-- `CloseServices`.
unfoldable pub close_all : Infos → (ℕ → Bool) → States → Result ServiceError Closing
unfolding close_services
close_all infos closes m = do
  ids ← topological_sort infos
  ok (close_services closes ids (record { states = m; failed = [] }))
