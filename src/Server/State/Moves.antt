-- ===== src/Server/State/Moves.antt =====
-- The state diagram of zServer/state.go.
use z_engine.Common.{◌≡◌, refl, sym, ◌≢◌, ◌⊎◌, inl, inr, true, List, [], ◌∷◌, arith}
use mathlib.Core.List.{Memᴰ}
use z_engine.Server.State.{
  ServerState, starting, initializing, draining, stopped, is_active, can_transition_to, set_state,
}

-- Any calls of `SetState`, one after the other.
unfoldable pub set_states : ServerState → List ServerState → ServerState
set_states s [] = s
set_states s (t ∷ ts) = set_states (set_state s t).state ts

set_state-draining :
    (s t : ServerState)
    → (s ≡ draining) ⊎ (s ≡ stopped)
    → ((set_state s t).state ≡ s) ⊎ ((set_state s t).state ≡ stopped)
unfolding set_state can_transition_to
set_state-draining s t h = ground arith

-- Whatever calls of `SetState` come, a stopped server stays stopped, and a draining one is draining
-- or stopped.
set_states-draining :
    (s : ServerState) (ts : List ServerState)
    → (s ≡ draining) ⊎ (s ≡ stopped)
    → (set_states s ts ≡ s) ⊎ (set_states s ts ≡ stopped)
unfolding set_states
set_states-draining s [] h = inl refl
set_states-draining s (t ∷ ts) h = elim (set_state-draining s t h) [
  | inl e ↦ rw e (set_states-draining s ts h)
  | inr e ↦ rw e (ground (arith, set_states-draining stopped ts (inr refl)))
]

-- From every state but `stopped` a server can be stopped, and drained unless it already is; so the
-- two moves of a shutdown are never refused.
can_stop :
    (s : ServerState)
    → s ≢ stopped
    → (can_transition_to s stopped ≡ true)
      × ((s ≡ draining) ⊎ (can_transition_to s draining ≡ true))
      × ((set_state s draining).state ≡ draining)
      × ((set_state (set_state s draining).state stopped).state ≡ stopped)
unfolding can_transition_to set_state
can_stop s h = ground arith

-- States that a server has not been made ready from.
abbrev IsIdle : ServerState → Type 0
IsIdle s = (s ≡ starting) ⊎ ((s ≡ draining) ⊎ (s ≡ stopped))

set_state-IsIdle :
    (s t : ServerState) → IsIdle s → (t ≡ initializing) ⊎ IsIdle (set_state s t).state
unfolding set_state can_transition_to
set_state-IsIdle s t h = ground arith

idle_needs_initializing :
    (s : ServerState) (ts : List ServerState)
    → IsIdle s
    → is_active (set_states s ts) ≡ true
    → Memᴰ initializing ts
unfolding set_states is_active
idle_needs_initializing s [] h a = absurd (ground arith)
idle_needs_initializing s (t ∷ ts) h a = elim (set_state-IsIdle s t h) [
  | inl e ↦ Memᴰ.head (sym e)
  | inr i ↦ Memᴰ.tail (idle_needs_initializing (set_state s t).state ts i a)
]

-- Whatever calls bring a starting server to an active state, one of them names `initializing`.
active_needs_initializing :
    (ts : List ServerState) → is_active (set_states starting ts) ≡ true → Memᴰ initializing ts
active_needs_initializing ts h = idle_needs_initializing starting ts (inl refl) h
