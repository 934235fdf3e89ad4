-- ===== src/Server/Lifecycle/Progress.antt =====
-- A shutdown of zServer/lifecycle.go always completes.
use z_engine.Common.{
  Bool-cases, ℕ, zero, suc, ◌+◌, ◌-◌, ◌≤◌, ◌<◌, ◌≡◌, sym, subst, ◌≢◌, ◌⊎◌, inl, inr, true, false,
  List, [], ◌∷◌, arith,
}
use native.Mathlib.Decide.{dec_lt}
use z_engine.Server.State.{stopped}
use z_engine.Server.Cleanup.{Outcome}
use z_engine.Server.Lifecycle.{
  StartPoint, before_start, after_start, publish, returned, StopPoint, waiting, finished, System,
  new_base_server, Action, step_start, step_stop, act, run,
}
use z_engine.Server.Lifecycle.Invariant.{
  is_failed, finished_of_rank, Inv, rank, new_base_server-Inv, run-Inv,
}

-- The thread that the stop waits for: `Start`, as long as it holds up `startDone`.
next_action : StopPoint → ℕ → Outcome → Action
next_action waiting zero o = step_start o
next_action _ _ o = step_stop o

-- Up to n steps of the threads under way; a hook that is called with n steps left after it
-- comes to `o n`.
pub drive : ℕ → System → (ℕ → Outcome) → System
unfolding next_action
drive zero s o = s
drive (suc n) s o = drive n (act s (next_action s.stop_point s.start_done_closings (o n))) o

-- Steps that `Start` has left before it publishes.
left : StartPoint → ℕ
left before_start = 3
left after_start = 2
left (publish b) = 1
left _ = 0

measure : System → ℕ
unfolding left
measure s = 9 - rank s.stop_point + left s.start_point

drive-less :
    (s : System) (o : Outcome)
    → Inv s
    → 0 < rank s.stop_point
    → rank s.stop_point < 9
    → let t = act s (next_action s.stop_point s.start_done_closings o) in
      (measure t < measure s) × (0 < rank t.stop_point)
unfolding act measure next_action
drive-less s o v h k = ground arith

next-Inv : (s : System) (a : Action) → Inv s → Inv (act s a)
unfolding run
next-Inv s a v = run-Inv s (a ∷ []) v

next_done :
    (s : System) (c : ℕ) (o : Outcome)
    → s.stop_point ≡ finished
    → act s (next_action s.stop_point c o) ≡ s
unfolding act next_action
next_done s c o h = ground arith

drive_done :
    (n : ℕ) (s : System) (o : ℕ → Outcome)
    → s.stop_point ≡ finished
    → (drive n s o).stop_point ≡ finished
unfolding drive
drive_done zero s o h = h
drive_done (suc n) s o h =
    subst (λ t. (drive n t o).stop_point ≡ finished)
      (sym (next_done s s.start_done_closings (o n) h)) (drive_done n s o h)

measure_zero : (s : System) → measure s ≤ 0 → s.stop_point ≡ finished
unfolding measure
measure_zero s h = ground arith

drive-finished :
    (n : ℕ) (s : System) (o : ℕ → Outcome)
    → Inv s
    → 0 < rank s.stop_point
    → measure s ≤ n
    → (drive n s o).stop_point ≡ finished
unfolding drive
drive-finished zero s o v h k = measure_zero s k
drive-finished (suc n) s o v h k =
    let a = next_action s.stop_point s.start_done_closings (o n) in
    elim (dec_lt (rank s.stop_point) 9) [
      | yes below ↦
          let (less, on) = drive-less s (o n) v h below in
          drive-finished n (act s a) o (next-Inv s a v) on (omega arith)
      | no done ↦ drive_done (suc n) s o (finished_of_rank s.stop_point (omega arith))
    ]

-- Twelve steps are enough: nine of the stop, and three of a start that it waits for.
measure-le : (s : System) → 0 < rank s.stop_point → measure s ≤ 12
unfolding measure
measure-le s h = ground arith

stopping-rank : (s : System) → Inv s → s.stopping ≡ true → 0 < rank s.stop_point
stopping-rank s v h = ground (arith, v.flag)

drive-Inv : (n : ℕ) (s : System) (o : ℕ → Outcome) → Inv s → Inv (drive n s o)
unfolding drive
drive-Inv zero s o v = v
drive-Inv (suc n) s o v =
    drive-Inv n (act s (next_action s.stop_point s.start_done_closings (o n))) o (next-Inv s _ v)

-- From any state that any interleaving leads to, once a stop has been asked for, at most twelve
-- steps of the thread in `Start` and the one under `stopOnce` close `stopDone`, whatever each of
-- their hooks comes to: there is no deadlock between the two.
pub stop_completes :
    (as' : List Action) (o : ℕ → Outcome)
    → (run new_base_server as').stopping ≡ true
    → (drive 12 (run new_base_server as') o).stop_done_closings ≡ 1
stop_completes as' o h =
    let s = run new_base_server as' in
    let v : Inv s = run-Inv new_base_server as' new_base_server-Inv in
    let asked = stopping-rank s v h in
    let end = drive-finished 12 s o v asked (measure-le s asked) in
    ground (arith, (drive-Inv 12 s o v).stop_closings, end)

-- `Start` returns an error of its hooks, or of a stop that came meanwhile, only when the shutdown is
-- complete; and a running server's start has succeeded and published its result.
start_error_after_stop :
    (as' : List Action)
    → let s = run new_base_server as' in
      ((s.start_point ≢ returned false) ⊎ ((s.stop_done_closings ≡ 1) × (s.state ≡ stopped)))
      × ((s.is_running ≡ false) ⊎ ((s.start_succeeded ≡ true) × (s.start_done_closings ≡ 1)))
start_error_after_stop as' =
    let s = run new_base_server as' in
    let v : Inv s = run-Inv new_base_server as' new_base_server-Inv in
    (
      elim (Bool-cases (is_failed s.start_point)) [
        | inl f ↦ inr (ground (arith, v.stop_closings, v.failed f), v.over (v.failed f))
        | inr other ↦ inl (λ e. ground arith)
      ],
      ground (arith, v.running, v.start_closings),
    )
