-- ===== src/Net/Requests/Callers.antt =====
-- The calls of `SendRequest` (zNet/request_correlator.go) and the other calls of the router, interleaved.
use z_engine.Common.{
  ◌==◌, if◌then◌else◌, Result, ok, err, get_elem?, ℤ, ℕ, zero, suc, Bool, Option, none, some, List,
  [], ◌∷◌, ◌++◌,
}
use z_engine.Common.TypedMap.{lookup}
use z_engine.Net.Requests.{
  RequestError, PendingResponse, ResponseResult, RequestRouter, new_request_router,
  try_register_pending, complete_request, remove_pending, cleanup, CloseCause, close, send_result,
}

-- Where a call of `SendRequest` is: it has registered, it has read the pending response back and waits
-- or sends, or it is over: by a result of its channel, or by its own decision.
pub data CallerPoint : Type 0 where
  registered : CallerPoint
  holding : Option ℕ → CallerPoint
  received : ResponseResult → CallerPoint
  gave_up : CallerPoint

-- A call of `SendRequest` that has registered.
pub record Caller : Type 0 where
  pub request_id : ℕ
  pub channel : ℕ
  pub point : CallerPoint

pub record System : Type 0 where
  pub router : RequestRouter
  pub callers : List Caller

unfoldable pub new_system : ℤ → System
new_system timeout = record { router = new_request_router timeout; callers = [] }

-- A turn of the `n`-th call, or a call of the router's other functions.
pub data Action : Type 0 where
  start : (now id : ℕ) → Action
  read_back receive give_up : (n : ℕ) → Action
  register : (now id : ℕ) → Action
  complete : (id payload : ℕ) → Option RequestError → Action
  clean_up : (now : ℕ) → Action
  close_by : CloseCause → Action
  send : (n : ℕ) → Action

abbrev pub channel_of : Option PendingResponse → Option ℕ
channel_of none = none
channel_of (some p) = some p.channel

-- `pending := rr.pending[requestID]`.
unfoldable pub read_pending : Caller → RequestRouter → Caller
read_pending c r = elim c.point [
  | registered ↦ record c { point = holding (channel_of (lookup c.request_id r.pending)) }
  | other ↦ c
]

-- The result in a channel.
unfoldable pub result_in : ℕ → List ResponseResult → Option ResponseResult
result_in channel [] = none
result_in channel (m ∷ ms) =
    let rest = result_in channel ms in if m.channel == channel then some m else rest

abbrev pub with_result : Option ResponseResult → Caller → Caller
with_result none c = c
with_result (some m) c = record c { point = received m }

-- The case `result := <-respCh`.
unfoldable pub receive_result : Caller → RequestRouter → Caller
unfolding result_in
receive_result c r = elim c.point [
  | holding held ↦ with_result (result_in c.channel r.sent) c
  | other ↦ c
]

-- What the call returns.
unfoldable pub returned : ResponseResult → Result RequestError ℕ
returned m = elim m.error [ some e ↦ err e | none ↦ ok m.payload ]

-- The other cases, and what precedes the wait: the caller's own removal of its request.
abbrev held_by : Caller → Option (Option ℕ)
held_by c = elim c.point [ holding held ↦ some held | other ↦ none ]

unfoldable pub give_up_caller : Caller → Caller
give_up_caller c = elim c.point [ holding held ↦ record c { point = gave_up } | other ↦ c ]

unfoldable pub give_up_router : Caller → RequestRouter → RequestRouter
give_up_router c r = elim c.point [
  | holding held ↦ (remove_pending c.request_id held r).0
  | other ↦ r
]

unfoldable pub update : ℕ → (Caller → Caller) → List Caller → List Caller
update n f [] = []
update zero f (c ∷ cs) = f c ∷ cs
update (suc n) f (c ∷ cs) = c ∷ update n f cs

abbrev pub new_caller : ℕ → Result RequestError ℕ → List Caller → List Caller
new_caller id (err e) cs = cs
new_caller id (ok channel) cs =
    cs ++ (record { request_id = id; channel = channel; point = registered } ∷ [])

-- `SendRequest` up to its registration; with an error it returns.
unfoldable pub start_call : (ℕ → Bool) → (now id : ℕ) → System → System
start_call is_closed now id s =
    let (r, channel) = try_register_pending is_closed now id s.router in
    record { router = r; callers = new_caller id channel s.callers }

abbrev pub give_up_by : Option Caller → RequestRouter → RequestRouter
give_up_by none r = r
give_up_by (some c) r = give_up_router c r

unfoldable pub act : (ℕ → Bool) → Action → System → System
unfolding start_call update
act is_closed (start now id) s = start_call is_closed now id s
act is_closed (read_back n) s = record s {
  callers = update n (λ c. read_pending c s.router) s.callers;
}
act is_closed (receive n) s = record s {
  callers = update n (λ c. receive_result c s.router) s.callers;
}
act is_closed (give_up n) s = record {
  router = give_up_by (get_elem? s.callers n) s.router;
  callers = update n give_up_caller s.callers;
}
act is_closed (register now id) s = record s {
  router = (try_register_pending is_closed now id s.router).0;
}
act is_closed (complete id payload error) s = record s {
  router = (complete_request id payload error s.router).0;
}
act is_closed (clean_up now) s = record s { router = cleanup now s.router }
act is_closed (close_by cause) s = record s { router = close cause s.router }
act is_closed (send n) s = record s { router = send_result n s.router }

unfoldable pub run : (ℕ → Bool) → List Action → System → System
run is_closed [] s = s
run is_closed (a ∷ rest) s = run is_closed rest (act is_closed a s)
