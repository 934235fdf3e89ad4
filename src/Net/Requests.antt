-- ===== src/Net/Requests.antt =====
-- zNet/request_correlator.go: requests that wait for their responses. A step is what the Go code does
-- under the router's lock, or the sending of a result on a waiter's channel, which it does after the
-- lock is free. A channel is its number, in the order in which they are made; payloads and errors of
-- the application are numbers, and a time is in nanoseconds.
pub mod Callers
pub mod Account
pub mod Closing
pub mod Waiters
pub mod Taken
use z_engine.Common.{
  ltb, ◌==◌, if◌then◌else◌, Result, ok, err, ℤ, pos, pos_part, leb_ℤ, ℕ, zero, suc, ◌+◌, ◌%◌, ◌^◌,
  Bool, true, false, Option, none, some, List, [], ◌∷◌, ◌++◌,
}
use z_engine.Common.TypedMap.{lookup, erase}

-- The errors of the file, and those that it passes on; `closed_by` wraps the cause of the closing.
pub data RequestError : Type 0 where
  duplicate_request_id router_closed request_expired : RequestError
  closed_by : ℕ → RequestError
  remote : ℕ → RequestError

-- `PendingResponse`.
pub record PendingResponse : Type 0 where
  pub channel : ℕ
  pub deadline : ℕ

-- `ResponseResult`, for its channel.
pub record ResponseResult : Type 0 where
  pub channel : ℕ
  pub payload : ℕ
  pub error : Option RequestError

-- What the closing is by: `ErrRequestRouterClosed` where the caller gives no cause.
pub data CloseCause : Type 0 where
  default_cause : CloseCause
  caller_cause : ℕ → CloseCause

-- `RequestRouter`, with the channels that it has made, and the results on their way to a channel and
-- in one. `withdrawn` has the channels whose requests were given up.
pub record RequestRouter : Type 0 where
  pub pending : List (ℕ × PendingResponse)
  pub next_req_id : ℕ
  pub timeout : ℕ
  pub closed : Option CloseCause
  pub next_channel : ℕ
  pub to_send : List ResponseResult
  pub sent : List ResponseResult
  pub withdrawn : List ℕ

-- `NewRequestRouter`; a timeout is a number of nanoseconds, and 10 s where it is not above 0.
unfoldable pub new_request_router : ℤ → RequestRouter
new_request_router timeout = record {
  pending = [];
  next_req_id = 0;
  timeout = if leb_ℤ timeout (pos 0) then 10000000000 else pos_part timeout;
  closed = none;
  next_channel = 0;
  to_send = [];
  sent = [];
  withdrawn = [];
}

-- `NextRequestID`.
unfoldable pub next_request_id : RequestRouter → RequestRouter × ℕ
next_request_id r = let id = (r.next_req_id + 1) % 2 ^ 64 in (record r { next_req_id = id }, id)

-- `closedError`; `is_closed` is `errors.Is` of a cause and `ErrRequestRouterClosed`.
unfoldable pub closed_error : (ℕ → Bool) → CloseCause → RequestError
closed_error is_closed default_cause = router_closed
closed_error is_closed (caller_cause e) = if is_closed e then router_closed else closed_by e

register_open :
    (now id : ℕ) → Option PendingResponse → RequestRouter → RequestRouter × Result RequestError ℕ
register_open now id (some p) r = (r, err duplicate_request_id)
register_open now id none r = (
  record r {
    next_channel = r.next_channel + 1;
    pending = (id, record { channel = r.next_channel; deadline = now + r.timeout }) ∷ r.pending;
  },
  ok r.next_channel,
)

register_at :
    (ℕ → Bool)
    → (now id : ℕ) → Option CloseCause
    → RequestRouter
    → RequestRouter × Result RequestError ℕ
unfolding register_open
register_at is_closed now id (some cause) r = (r, err (closed_error is_closed cause))
register_at is_closed now id none r = register_open now id (lookup id r.pending) r

-- `TryRegisterPending`.
unfoldable pub try_register_pending :
    (ℕ → Bool) → (now id : ℕ) → RequestRouter → RequestRouter × Result RequestError ℕ
unfolding register_at
try_register_pending is_closed now id r = register_at is_closed now id r.closed r

complete_found :
    (id payload : ℕ)
    → Option RequestError
    → Option PendingResponse
    → RequestRouter
    → RequestRouter × Bool
complete_found id payload error none r = (r, false)
complete_found id payload error (some p) r = (
  record r {
    pending = erase id r.pending;
    to_send = record { channel = p.channel; payload = payload; error = error } ∷ r.to_send;
  },
  true,
)

-- `CompleteRequest`, up to the sending.
unfoldable pub complete_request :
    (id payload : ℕ) → Option RequestError → RequestRouter → RequestRouter × Bool
unfolding complete_found
complete_request id payload error r = complete_found id payload error (lookup id r.pending) r

-- Whether `current` is the pending response that a caller holds.
abbrev is_held : Option ℕ → ℕ → Bool
is_held none channel = false
is_held (some c) channel = c == channel

remove_found : ℕ → Option ℕ → Option PendingResponse → RequestRouter → RequestRouter × Bool
remove_found id held none r = (r, false)
remove_found id held (some p) r =
    if is_held held p.channel
    then (record r { pending = erase id r.pending; withdrawn = p.channel ∷ r.withdrawn }, true)
    else (r, false)

-- `removePending`; a nil pointer is `none`.
unfoldable pub remove_pending : ℕ → Option ℕ → RequestRouter → RequestRouter × Bool
unfolding remove_found
remove_pending id held r = remove_found id held (lookup id r.pending) r

-- The loop of `Cleanup`: what stays, and the results for what does not.
unexpired : ℕ → List (ℕ × PendingResponse) → List (ℕ × PendingResponse)
unexpired now [] = []
unexpired now ((id, p) ∷ ps) =
    let rest = unexpired now ps in if ltb p.deadline now then rest else (id, p) ∷ rest

expired : ℕ → List (ℕ × PendingResponse) → List ResponseResult
expired now [] = []
expired now ((id, p) ∷ ps) =
    let rest = expired now ps in
    if ltb p.deadline now
    then record { channel = p.channel; payload = 0; error = some request_expired } ∷ rest
    else rest

-- `Cleanup`, up to the sending.
unfoldable pub cleanup : ℕ → RequestRouter → RequestRouter
unfolding unexpired expired
cleanup now r = record r {
  pending = unexpired now r.pending;
  to_send = expired now r.pending ++ r.to_send;
}

abbrev pub cause_error : CloseCause → RequestError
cause_error default_cause = router_closed
cause_error (caller_cause e) = remote e

fail_all : RequestError → List (ℕ × PendingResponse) → List ResponseResult
fail_all e [] = []
fail_all e ((id, p) ∷ ps) =
    record { channel = p.channel; payload = 0; error = some e } ∷ fail_all e ps

close_open : CloseCause → Option CloseCause → RequestRouter → RequestRouter
unfolding fail_all
close_open cause (some c) r = r
close_open cause none r = record r {
  closed = some cause;
  pending = [];
  to_send = fail_all (cause_error cause) r.pending ++ r.to_send;
}

-- `Close`, up to the sending.
unfoldable pub close : CloseCause → RequestRouter → RequestRouter
unfolding close_open
close cause r = close_open cause r.closed r

take_result : ℕ → List ResponseResult → Option (ResponseResult × List ResponseResult)
take_result n [] = none
take_result zero (m ∷ ms) = some (m, ms)
take_result (suc n) (m ∷ ms) = elim (take_result n ms) [
  | none ↦ none
  | some (x, rest) ↦ some (x, m ∷ rest)
]

send_taken : Option (ResponseResult × List ResponseResult) → RequestRouter → RequestRouter
send_taken none r = r
send_taken (some (m, rest)) r = record r { to_send = rest; sent = m ∷ r.sent }

-- One of the results on their way is put into its channel.
unfoldable pub send_result : ℕ → RequestRouter → RequestRouter
unfolding send_taken take_result
send_result n r = send_taken (take_result n r.to_send) r
