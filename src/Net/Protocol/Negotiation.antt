-- ===== src/Net/Protocol/Negotiation.antt =====
-- What `NegotiateProtocolCompatibility` of zNet/protocol_version.go agrees on.
use Prim.Native.Nat.{bit_and}
use z_engine.Common.{
  Result-cases, ok, err, ℤ, pos, ◌≤ℤ◌, ◌<ℤ◌, eqb_ℤ→eq, ℕ, ◌≡◌, refl, ◌↔◌, ◌⊎◌, inl, inr, true,
  false, arith,
}
use z_engine.Common.Bits.{bit_and_comm, bit_and-le}
use z_engine.Net.Protocol.{
  min_ℤ, Policy, Compatibility, ProtocolError, validate, negotiate_compatibility, negotiate_legacy,
  negotiate_range, legacy, supports_all, require_capabilities, invalid_policy,
}

-- An enabled endpoint that speaks a version.
pub record Speaks (p : Policy) (v : ℤ) : Type 0 where
  pub enabled : p.enabled ≡ true
  pub lower : p.min_version ≤ℤ v
  pub upper : v ≤ℤ p.max_version

negotiate_range-highest :
    (local peer : Policy) (v : ℤ)
    → Speaks local v
    → Speaks peer v
    → (c : Compatibility) × (negotiate_range local peer ≡ ok c)
      × Speaks local c.version
      × Speaks peer c.version
      × (v ≤ℤ c.version)
      × (c.capabilities ≡ bit_and local.capabilities peer.capabilities)
unfolding negotiate_range
negotiate_range-highest local peer v l p = (
  record {
    version = min_ℤ local.max_version peer.max_version;
    capabilities = bit_and local.capabilities peer.capabilities;
  },
  ground arith,
  ground arith,
  ground arith,
  ground arith,
  refl,
)

-- Two valid policies that share some version agree on a version that both speak and that is at
-- least as high as the shared one, and on the capabilities of both.
pub negotiate_highest :
    (local peer : Policy) (v : ℤ)
    → validate local ≡ ok tt
    → validate peer ≡ ok tt
    → Speaks local v
    → Speaks peer v
    → (c : Compatibility) × (negotiate_compatibility local peer ≡ ok c)
      × Speaks local c.version
      × Speaks peer c.version
      × (v ≤ℤ c.version)
      × (c.capabilities ≡ bit_and local.capabilities peer.capabilities)
unfolding negotiate_compatibility
negotiate_highest local peer v hl hp l p =
    let (c, e, rest, more, high, caps) = negotiate_range-highest local peer v l p in
    (c, ground arith, rest, more, high, caps)

negotiate_range_comm :
    (local peer : Policy) → negotiate_range local peer ≡ negotiate_range peer local
unfolding negotiate_range
negotiate_range_comm local peer = ground (
  arith,
  bit_and_comm local.capabilities peer.capabilities,
  eqb_ℤ→eq local.max_version peer.max_version,
)

negotiate_legacy_comm :
    (local peer : Policy) → negotiate_legacy local peer ≡ negotiate_legacy peer local
unfolding negotiate_legacy
negotiate_legacy_comm local peer = ground arith

validate-err : (p : Policy) (e : ProtocolError) → validate p ≡ err e → e ≡ invalid_policy
unfolding validate
validate-err p e h = ground arith

-- The two endpoints come to the same result, whichever of them negotiates, an error included.
pub negotiate_compatibility_comm :
    (local peer : Policy) → negotiate_compatibility local peer ≡ negotiate_compatibility peer local
unfolding negotiate_compatibility
negotiate_compatibility_comm local peer = elim (Result-cases (validate local)) [
  | inl (a, e) ↦ elim (Result-cases (validate peer)) [
    | inl (b, f) ↦ ground (arith, negotiate_range_comm local peer, negotiate_legacy_comm local peer)
    | inr (y, f) ↦ ground arith
  ]
  | inr (x, e) ↦ elim (Result-cases (validate peer)) [
    | inl (b, f) ↦ ground arith
    | inr (y, f) ↦ ground (arith, validate-err local x e, validate-err peer y f)
  ]
]

-- A session falls back to the legacy version only with the consent of each endpoint that is
-- enabled, and then has no capabilities; two enabled endpoints never fall back.
negotiate_consent :
    (local peer : Policy) (c : Compatibility)
    → negotiate_compatibility local peer ≡ ok c
    → ((c ≡ legacy)
        × ((local.enabled ≡ false) ⊎ (peer.enabled ≡ false))
        × ((local.enabled ≡ false) ⊎ (local.accept_legacy ≡ true))
        × ((peer.enabled ≡ false) ⊎ (peer.accept_legacy ≡ true)))
      ⊎ ((local.enabled ≡ true) × (peer.enabled ≡ true) × (pos 0 <ℤ c.version))
unfolding negotiate_compatibility negotiate_legacy negotiate_range validate
negotiate_consent local peer c h = ground arith

-- `RequireCapabilities` succeeds exactly if `SupportsAll` holds.
require-supports :
    (c : Compatibility) (required : ℕ)
    → (require_capabilities c required ≡ ok tt) ↔ (supports_all c required ≡ true)
unfolding require_capabilities supports_all
require-supports c required = (
  λ h. ground (arith, bit_and_comm c.capabilities required, bit_and-le required c.capabilities),
  λ h. ground (arith, bit_and_comm c.capabilities required, bit_and-le required c.capabilities),
)
