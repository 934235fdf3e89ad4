-- ===== src/Net/Protocol.antt =====
-- zNet/protocol_version.go: version ranges and capability bits of two endpoints, and the
-- negotiator that keeps the first result of a session. Error values are compared by their
-- sentinel; the formatted text is left out.
pub mod Negotiation
use Prim.Native.Nat.{bit_and}
use z_engine.Common.{
  ◌>>=◌, ◌==◌, if◌then◌else◌, Result, ok, err, ◌>>◌, guard, ℤ, pos, ltb_ℤ, leb_ℤ, eqb_ℤ, ℕ, ◌^◌,
  ◌<◌, Bool, false, not, ◌&&◌, ◌||◌, Option, none, some,
}
use z_engine.Common.Bits.{bit_clear}
use z_engine.Net.Wire.{IsInt}

-- `LegacyProtocolVersion`.
abbrev pub legacy_protocol_version : ℤ
legacy_protocol_version = pos 0

pub data ProtocolError : Type 0 where
  invalid_policy no_compatible_version capabilities_unavailable compatibility_conflict :
      ProtocolError
  invalid_frame not_established packet_version_mismatch : ProtocolError

-- `ProtocolVersionPolicy`.
pub record Policy : Type 0 where
  pub enabled : Bool
  pub min_version : ℤ
  pub max_version : ℤ
  pub capabilities : ℕ
  pub accept_legacy : Bool

-- The field values that the Go types hold.
pub record IsPolicy (p : Policy) : Type 0 where
  pub min_version : IsInt 32 p.min_version
  pub max_version : IsInt 32 p.max_version
  pub capabilities : p.capabilities < 2 ^ 64

abbrev pub disabled_policy : Policy
disabled_policy = record {
  enabled = false;
  min_version = pos 0;
  max_version = pos 0;
  capabilities = 0;
  accept_legacy = false;
}

-- `ProtocolVersionPolicy.Validate`.
unfoldable pub validate : Policy → Result ProtocolError (Unit {0})
validate p =
    if not p.enabled
    then guard
        (not (
          not (eqb_ℤ p.min_version (pos 0))
          || not (eqb_ℤ p.max_version (pos 0))
          || not (p.capabilities == 0)
          || p.accept_legacy))
        invalid_policy
    else guard (not (leb_ℤ p.min_version legacy_protocol_version)) invalid_policy
      >> guard (not (ltb_ℤ p.max_version p.min_version)) invalid_policy

-- `ProtocolCompatibility`.
pub record Compatibility : Type 0 where
  pub version : ℤ
  pub capabilities : ℕ

abbrev pub legacy : Compatibility
legacy = record { version = legacy_protocol_version; capabilities = 0 }

unfoldable pub is_legacy : Compatibility → Bool
is_legacy c = eqb_ℤ c.version legacy_protocol_version

-- `SupportsAll` and `RequireCapabilities`.
unfoldable pub supports_all : Compatibility → ℕ → Bool
supports_all c required = bit_and c.capabilities required == required

unfoldable pub require_capabilities : Compatibility → ℕ → Result ProtocolError (Unit {0})
require_capabilities c required =
    guard (bit_clear required c.capabilities == 0) capabilities_unavailable

-- The built-in `max` and `min`.
abbrev pub max_ℤ : ℤ → ℤ → ℤ
max_ℤ a b = if ltb_ℤ a b then b else a

abbrev pub min_ℤ : ℤ → ℤ → ℤ
min_ℤ a b = if ltb_ℤ b a then b else a

-- The `switch` for an endpoint that has no version of its own.
unfoldable pub negotiate_legacy : Policy → Policy → Result ProtocolError Compatibility
negotiate_legacy local peer =
    if not local.enabled && not peer.enabled
    then ok legacy
    else if local.enabled && local.accept_legacy
    then ok legacy
    else if peer.enabled && peer.accept_legacy
    then ok legacy
    else err no_compatible_version

unfoldable pub negotiate_range : Policy → Policy → Result ProtocolError Compatibility
negotiate_range local peer =
    let minimum = max_ℤ local.min_version peer.min_version in
    let maximum = min_ℤ local.max_version peer.max_version in
    if ltb_ℤ maximum minimum
    then err no_compatible_version
    else ok
        (record { version = maximum; capabilities = bit_and local.capabilities peer.capabilities })

-- `NegotiateProtocolCompatibility`.
unfoldable pub negotiate_compatibility : Policy → Policy → Result ProtocolError Compatibility
negotiate_compatibility local peer = do
  validate local
  validate peer
  if not local.enabled || not peer.enabled
      then negotiate_legacy local peer
      else negotiate_range local peer

-- `ProtocolVersionNegotiator`; `current` is the atomic pointer.
pub record Negotiator : Type 0 where
  pub local : Policy
  pub current : Option Compatibility

-- `NewProtocolVersionNegotiator`.
unfoldable pub new_negotiator : Policy → Result ProtocolError Negotiator
new_negotiator local = validate local >> ok (record { local = local; current = none })

abbrev same_compatibility : Compatibility → Compatibility → Bool
same_compatibility a b = eqb_ℤ a.version b.version && a.capabilities == b.capabilities

-- The `CompareAndSwap` of a result against nil, and the comparison where another came first.
publish :
    Negotiator
    → Option Compatibility
    → Compatibility
    → Negotiator × Result ProtocolError Compatibility
publish n none c = (record n { current = some c }, ok c)
publish n (some d) c = if same_compatibility d c then (n, ok d) else (n, err compatibility_conflict)

publish_result :
    Negotiator
    → Result ProtocolError Compatibility
    → Negotiator × Result ProtocolError Compatibility
unfolding publish
publish_result n (ok c) = publish n n.current c
publish_result n (err e) = (n, err e)

-- `Negotiate` and `Snapshot` of a negotiator that is not nil.
unfoldable pub negotiate : Negotiator → Policy → Negotiator × Result ProtocolError Compatibility
unfolding publish_result
negotiate n peer = publish_result n (negotiate_compatibility n.local peer)

unfoldable pub snapshot : Negotiator → Option Compatibility
snapshot n = n.current
