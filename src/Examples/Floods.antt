-- ===== src/Examples/Floods.antt =====
-- zNet/ddosProtection.go: an address with more connections than its limit.
use z_engine.Common.{ltb, length, ℕ, ◌≡◌, refl, false, List, [], ◌∷◌, arith}
use z_engine.Common.TypedMap.{TypedMap, entries}
use z_engine.Net.DdosProtection.{
  is_blacklisted, new_limiter, allow, DdosProtection, allow_connection, allow_packet_from,
  allow_traffic_from,
}
use z_engine.Net.DdosProtection.Limit.{new_limited, run-allow}
use z_engine.Net.DdosProtection.Times.{recent, times_in}
use z_engine.Net.DdosProtection.Limit
use z_engine.Net.DdosProtection.Ban.{refused_for_duration}
use z_engine.Net.DdosProtection.Ban

abbrev maps : TypedMap (List ℕ)
maps = entries (List ℕ)

abbrev bans : TypedMap ℕ
bans = entries ℕ

-- Two calls for each address within 10.
abbrev calls : List (ℕ × ℕ)
calls = (7, 1) ∷ (8, 2) ∷ (7, 3) ∷ (7, 4) ∷ []

run-allow_example :
    let s = Limit.run maps calls (new_limited maps 2 10) in
    (allow maps 7 12 s.limiter).1 ≡ ltb (length (recent 12 10 (times_in 7 s.allowed))) 2
run-allow_example = run-allow maps 2 10 calls 7 12 (omega arith)

-- No connection is allowed, so that the first is refused.
abbrev strict : DdosProtection maps bans
strict = record {
  connection_limiter = new_limiter maps 0 10;
  packet_limiter = new_limiter maps 100 10;
  ip_blacklist = record { blacklisted_ips = bans.empty; ban_duration = 60 };
  traffic_limiter = record {
    ip_traffic = bans.empty;
    max_bytes = 1000;
    traffic_window = 10;
    last_reset = 0;
  };
  whitelist = λ ip. false;
}

refuses-first : (allow_connection maps bans 7 5 strict).1 ≡ false
unfolding allow_connection is_blacklisted allow new_limiter
refuses-first = refl

refused_for_duration_example :
    let e =
      Ban.run maps bans
        (Ban.packet 3 8 20 ∷ Ban.connection 9 30 ∷ [])
        (allow_connection maps bans 7 5 strict).0 in
    ((allow_connection maps bans 7 65 e).1 ≡ false)
    × ((allow_packet_from maps bans 3 7 65 e).1 ≡ false)
    × ((allow_traffic_from maps bans 3 7 65 10 e).1 ≡ false)
refused_for_duration_example =
    refused_for_duration maps bans strict 7 5 3 65 10 (Ban.packet 3 8 20 ∷ Ban.connection 9 30 ∷ [])
      refl refl refuses-first (omega arith) (omega arith)
