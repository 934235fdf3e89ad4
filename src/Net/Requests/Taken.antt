-- ===== src/Net/Requests/Taken.antt =====
-- The second lock of `SendRequest` (zNet/request_correlator.go), under which it reads its pending response
-- back, and what another call with the same id can do before.
use z_engine.Common.{
  ==-refl, Result, ok, err, get_elem?, ℕ, zero, suc, ◌≡◌, ap, ◌∙◌, Bool, true, false, Option, none,
  some, List, [], ◌∷◌, ◌++◌, arith,
}
use z_engine.Common.TypedMap.{lookup, lookup-erase}
use z_engine.Net.Requests.{
  RequestError, RequestRouter, register_open, register_at, try_register_pending, complete_found,
  complete_request, remove_found, remove_pending,
}
use z_engine.Net.Requests.Callers.{
  Caller, registered, System, start, read_back, give_up, start_call, give_up_router, channel_of,
  read_pending, update, new_caller, act, run, give_up_by,
}

get_elem?-update :
    (f : Caller → Caller) (n : ℕ) (l : List Caller) (c : Caller)
    → get_elem? l n ≡ some c
    → get_elem? (update n f l) n ≡ some (f c)
unfolding update
get_elem?-update f n [] c g = ground arith
get_elem?-update f zero (d ∷ l) c g = cc
get_elem?-update f (suc n) (d ∷ l) c g = get_elem?-update f n l c g

get_elem?-append :
    (n : ℕ) (l k : List Caller) (c : Caller)
    → get_elem? l n ≡ some c
    → get_elem? (l ++ k) n ≡ some c
get_elem?-append n [] k c g = ground arith
get_elem?-append zero (d ∷ l) k c g = g
get_elem?-append (suc n) (d ∷ l) k c g = get_elem?-append n l k c g

-- A call that starts leaves the calls before it as they are.
get_elem?-new_caller :
    (id n : ℕ) (x : Result RequestError ℕ) (l : List Caller) (c : Caller)
    → get_elem? l n ≡ some c
    → get_elem? (new_caller id x l) n ≡ some c
get_elem?-new_caller id n (err e) l c g = g
get_elem?-new_caller id n (ok channel) l c g = get_elem?-append n l _ c g

module _ (is_closed : ℕ → Bool) (s : System) (n now : ℕ) (c : Caller) where
  -- The registration of a second call with the id of `c`.
  second : RequestRouter
  second = (try_register_pending is_closed now c.request_id s.router).0

  router-start_first :
      get_elem? s.callers n ≡ some c
      → (run is_closed (start now c.request_id ∷ read_back n ∷ give_up n ∷ []) s).router
        ≡ give_up_router (read_pending c second) second
  unfolding run act start_call second
  router-start_first g =
      ap (λ o. give_up_by o second)
        (get_elem?-update (λ d. read_pending d second) n _ c
          (get_elem?-new_caller c.request_id n
            (try_register_pending is_closed now c.request_id s.router).1 s.callers c g))

  router-read_first :
      get_elem? s.callers n ≡ some c
      → (run is_closed (read_back n ∷ start now c.request_id ∷ give_up n ∷ []) s).router
        ≡ give_up_router (read_pending c s.router) second
  unfolding run act start_call second
  router-read_first g =
      ap (λ o. give_up_by o second)
        (get_elem?-new_caller c.request_id n
          (try_register_pending is_closed now c.request_id s.router).1 _ (read_pending c s.router)
          (get_elem?-update (λ d. read_pending d s.router) n s.callers c g))

  router-give_up :
      (r q : RequestRouter)
      → c.point ≡ registered
      → give_up_router (read_pending c r) q
        ≡ (remove_pending c.request_id (channel_of (lookup c.request_id r.pending)) q).0
  unfolding give_up_router read_pending
  router-give_up r q p = ground arith

  removed :
      (payload : ℕ) (error : Option RequestError)
      → s.router.closed ≡ none
      → lookup c.request_id s.router.pending ≡ none
      → let t =
          (remove_pending c.request_id
            (channel_of (lookup c.request_id second.pending))
            second).0 in
        (t.withdrawn ≡ s.router.next_channel ∷ s.router.withdrawn)
        × ((complete_request c.request_id payload error t).1 ≡ false)
  unfolding second try_register_pending register_at register_open remove_pending remove_found
      complete_request complete_found
  removed payload error o l = ground (
    arith,
    ==-refl c.request_id,
    ==-refl s.router.next_channel,
    lookup-erase s.router.pending c.request_id c.request_id,
  )

  not_removed :
      (payload : ℕ) (error : Option RequestError)
      → s.router.closed ≡ none
      → lookup c.request_id s.router.pending ≡ none
      → let t =
          (remove_pending c.request_id
            (channel_of (lookup c.request_id s.router.pending))
            second).0 in
        (t.withdrawn ≡ s.router.withdrawn)
        × ((complete_request c.request_id payload error t).1 ≡ true)
  unfolding second try_register_pending register_at register_open remove_pending remove_found
      complete_request complete_found
  not_removed payload error o l = ground (arith, ==-refl c.request_id)

-- A call of `SendRequest` of an open router has registered, and its request is not pending any more.
-- If another call with its id registers before it reads its pending response back, and it then gives
-- up, it withdraws the request of the other call, and a response to that finds nothing. If it reads
-- back before the other call registers, its giving up withdraws nothing, and the response is taken.
pub give_up_takes_other :
    (is_closed : ℕ → Bool) (s : System) (n now : ℕ) (c : Caller) (payload : ℕ)
    (error : Option RequestError)
    → s.router.closed ≡ none
    → get_elem? s.callers n ≡ some c
    → c.point ≡ registered
    → lookup c.request_id s.router.pending ≡ none
    → let late = (run is_closed (start now c.request_id ∷ read_back n ∷ give_up n ∷ []) s).router in
      let early =
        (run is_closed (read_back n ∷ start now c.request_id ∷ give_up n ∷ []) s).router in
      ((late.withdrawn ≡ s.router.next_channel ∷ s.router.withdrawn)
        × ((complete_request c.request_id payload error late).1 ≡ false))
      × (early.withdrawn ≡ s.router.withdrawn)
      × ((complete_request c.request_id payload error early).1 ≡ true)
give_up_takes_other is_closed s n now c payload error o g p l =
    let r = second is_closed s n now c in
    let late =
      router-start_first is_closed s n now c g ∙ router-give_up is_closed s n now c r r p in
    let early =
      router-read_first is_closed s n now c g ∙ router-give_up is_closed s n now c s.router r p in
    let a = removed is_closed s n now c payload error o l in
    let b = not_removed is_closed s n now c payload error o l in
    (rw late a, rw early b.0, rw early b.1)
