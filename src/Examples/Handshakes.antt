-- ===== src/Examples/Handshakes.antt =====
-- The theorems on versions, frames and sessions at two endpoints with the versions 1 to 3 and 2 to 5.
use Prim.Native.Nat.{bit_and}
use z_engine.Common.{ok, pos, ◌≤ℤ◌, ◌≡◌, refl, true, false, none, some, List, [], ◌∷◌, arith}
use z_engine.Net.Wire.{get, to_int, put, to_uint, Bytes}
use z_engine.Net.Protocol.{
  negotiate_range, Policy, IsPolicy, Compatibility, Negotiator, validate, negotiate, snapshot,
  negotiate_compatibility,
}
use z_engine.Net.Protocol.Negotiation.{Speaks}
use z_engine.Net.Handshake.{
  marshal_protocol_negotiation, unmarshal_protocol_negotiation, validate_inbound_packet_version,
  accept_protocol_negotiation,
}
use z_engine.Net.Handshake.Sessions.{
  fresh, Call, inbound, negotiates, run, handshake_agrees, negotiate_once,
}

abbrev older : Policy
older = record {
  enabled = true;
  min_version = pos 1;
  max_version = pos 3;
  capabilities = 6;
  accept_legacy = true;
}

abbrev newer : Policy
newer = record {
  enabled = true;
  min_version = pos 2;
  max_version = pos 5;
  capabilities = 3;
  accept_legacy = false;
}

abbrev agreed : Compatibility
agreed = record { version = pos 3; capabilities = 2 }

older-IsPolicy : IsPolicy older
older-IsPolicy = record {
  min_version = ground arith;
  max_version = ground arith;
  capabilities = ground arith;
}

newer-IsPolicy : IsPolicy newer
newer-IsPolicy = record {
  min_version = ground arith;
  max_version = ground arith;
  capabilities = ground arith;
}

older-validate : validate older ≡ ok tt
unfolding validate
older-validate = refl

newer-validate : validate newer ≡ ok tt
unfolding validate
newer-validate = refl

abbrev older_frame : Bytes
older_frame =
    0x5A ∷ 0x4E ∷ 0x45 ∷ 0x54 ∷ 0 ∷ 1 ∷ 0 ∷ 1 ∷ 0 ∷ 0 ∷ 0 ∷ 1 ∷ 0 ∷ 0 ∷ 0 ∷ 3 ∷ 0 ∷ 0 ∷ 0 ∷ 0 ∷ 0
    ∷ 0 ∷ 0 ∷ 6 ∷ []

abbrev newer_frame : Bytes
newer_frame =
    0x5A ∷ 0x4E ∷ 0x45 ∷ 0x54 ∷ 0 ∷ 1 ∷ 0 ∷ 0 ∷ 0 ∷ 0 ∷ 0 ∷ 2 ∷ 0 ∷ 0 ∷ 0 ∷ 5 ∷ 0 ∷ 0 ∷ 0 ∷ 0 ∷ 0
    ∷ 0 ∷ 0 ∷ 3 ∷ []

older-marshal : marshal_protocol_negotiation older ≡ ok older_frame
unfolding marshal_protocol_negotiation validate put to_uint
older-marshal = refl

newer-marshal : marshal_protocol_negotiation newer ≡ ok newer_frame
unfolding marshal_protocol_negotiation validate put to_uint
newer-marshal = refl

newer-unmarshal : unmarshal_protocol_negotiation newer_frame ≡ ok newer
unfolding unmarshal_protocol_negotiation get validate to_int
newer-unmarshal = refl

handshake_agrees_example :
    (c : Compatibility) × (accept_protocol_negotiation (fresh older) newer.max_version newer_frame
      ≡ (record { local = older; current = some c }, ok c))
    × (accept_protocol_negotiation (fresh newer) older.max_version older_frame
        ≡ (record { local = newer; current = some c }, ok c))
    × Speaks older c.version
    × Speaks newer c.version
    × (pos 2 ≤ℤ c.version)
    × (c.capabilities ≡ bit_and older.capabilities newer.capabilities)
handshake_agrees_example =
    handshake_agrees older newer older_frame newer_frame (pos 2) older-IsPolicy newer-IsPolicy
      older-validate newer-validate older-marshal newer-marshal
      (record { enabled = refl; lower = ground arith; upper = ground arith })
      (record { enabled = refl; lower = ground arith; upper = ground arith })

older-newer : negotiate_compatibility older newer ≡ ok agreed
unfolding negotiate_compatibility validate negotiate_range
older-newer = refl

first_negotiation : (negotiate (fresh older) newer).1 ≡ ok agreed
unfolding negotiate negotiate_compatibility validate negotiate_range
first_negotiation = refl

abbrev calls : List Call
calls = inbound (pos 9) (pos 3) ∷ negotiates older ∷ []

second_negotiation : (negotiate (run (negotiate (fresh older) newer).0 calls) newer).1 ≡ ok agreed
unfolding negotiate run negotiate_compatibility validate validate_inbound_packet_version
    negotiate_range snapshot
second_negotiation = refl

negotiate_once_example : agreed ≡ agreed
negotiate_once_example =
    negotiate_once (fresh older) newer newer calls agreed agreed first_negotiation
      second_negotiation

abbrev established : Policy → Negotiator
established p = record { local = p; current = some agreed }

established-snapshot : (p : Policy) → snapshot (established p) ≡ some agreed
unfolding snapshot
established-snapshot p = refl

fresh-snapshot : snapshot (fresh older) ≡ none
unfolding snapshot
fresh-snapshot = refl
