-- ===== src/Net/Handshake/Sessions.antt =====
-- Sessions of zNet/protocol_version.go and protocol_handshake.go: two endpoints that exchange
-- frames agree, and what they agreed on stays.
use Prim.Native.Nat.{bit_and}
use z_engine.Common.{
  if◌then◌else◌, Bool-cases, Result-cases, Result, ok, err, ◌>>=◌, ℤ, pos, ◌≤ℤ◌, eqb_ℤ, eqb_ℤ→eq,
  eqb_ℤ-refl, ◌≡◌, refl, ap, ◌∙◌, subst, ◌≢◌, ◌⊎◌, inl, inr, true, false, not, none, some, List, [],
  ◌∷◌, arith,
}
use z_engine.Net.Wire.{Bytes}
use z_engine.Net.Protocol.{
  ProtocolError, no_compatible_version, not_established, packet_version_mismatch, Policy, IsPolicy,
  Compatibility, legacy, disabled_policy, validate, Negotiator, negotiate, snapshot,
  negotiate_compatibility, negotiate_legacy,
}
use z_engine.Net.Protocol.Negotiation.{Speaks, negotiate_highest, negotiate_compatibility_comm}
use z_engine.Net.Handshake.{
  protocol_negotiation_proto_id, marshal_protocol_negotiation, unmarshal_protocol_negotiation,
  outbound_packet_version, validate_inbound_packet_version, accept_protocol_negotiation,
}
use z_engine.Net.Handshake.Frames.{unmarshal-marshal}

disabled_policy-valid : validate disabled_policy ≡ ok tt
unfolding validate
disabled_policy-valid = refl

-- A negotiator as `NewProtocolVersionNegotiator` makes it.
abbrev pub fresh : Policy → Negotiator
fresh p = record { local = p; current = none }

-- The calls that a session makes on its negotiator.
pub data Call : Type 0 where
  negotiates : Policy → Call
  inbound : ℤ → ℤ → Call
  accepts : ℤ → Bytes → Call

unfoldable pub call : Negotiator → Call → Negotiator
call n (negotiates peer) = (negotiate n peer).0
call n (inbound proto_id version) = (validate_inbound_packet_version n proto_id version).0
call n (accepts version frame) = (accept_protocol_negotiation n version frame).0

unfoldable pub run : Negotiator → List Call → Negotiator
unfolding call
run n [] = n
run n (c ∷ cs) = run (call n c) cs

negotiate-established :
    (n : Negotiator) (peer : Policy) (c : Compatibility)
    → n.current ≡ some c
    → (negotiate n peer).0 ≡ n
unfolding negotiate
negotiate-established n peer c h = ground arith

call-established :
    (n : Negotiator) (e : Call) (c : Compatibility) → n.current ≡ some c → call n e ≡ n
unfolding call validate_inbound_packet_version accept_protocol_negotiation snapshot
call-established n (negotiates peer) c h = negotiate-established n peer c h
call-established n (inbound proto_id version) c h = ground arith
call-established n (accepts version frame) c h =
    elim (Result-cases (unmarshal_protocol_negotiation frame)) [
      | inl (peer, e) ↦ ground (arith, negotiate-established n peer c h)
      | inr (x, e) ↦ ground arith
    ]

-- Once a session has a compatibility, no call changes it.
pub run-established :
    (n : Negotiator) (cs : List Call) (c : Compatibility) → snapshot n ≡ some c → run n cs ≡ n
unfolding run snapshot
run-established n [] c h = refl
run-established n (e ∷ cs) c h =
    ap (λ m. run m cs) (call-established n e c h) ∙ run-established n cs c h

negotiate-ok :
    (n : Negotiator) (peer : Policy) (c : Compatibility)
    → (negotiate n peer).1 ≡ ok c
    → (negotiate n peer).0.current ≡ some c
unfolding negotiate
negotiate-ok n peer c h = ground arith

-- All successful negotiations of a session have the same result, whatever calls stand between
-- them; so a session is never downgraded.
pub negotiate_once :
    (n : Negotiator) (p q : Policy) (cs : List Call) (c d : Compatibility)
    → (negotiate n p).1 ≡ ok c
    → (negotiate (run (negotiate n p).0 cs) q).1 ≡ ok d
    → d ≡ c
unfolding snapshot
negotiate_once n p q cs c d h k =
    let m : Negotiator = (negotiate n p).0 in
    let kept : m.current ≡ some c = negotiate-ok n p c h in
    let same : run m cs ≡ m = run-established m cs c kept in
    let k' : (negotiate m q).1 ≡ ok d =
      subst (λ (r : Negotiator). (negotiate r q).1 ≡ ok d) same k in
    let last : (negotiate m q).0.current ≡ some d = negotiate-ok m q d k' in
    let still : (negotiate m q).0 ≡ m = negotiate-established m q c kept in
    let both : m.current ≡ some d = subst (λ (r : Negotiator). r.current ≡ some d) still last in
    ground arith

-- A frame of a valid peer, with the peer's maximum version in the packet header.
accept-fresh :
    (a b : Policy) (frame : Bytes) (c : Compatibility)
    → a.enabled ≡ true
    → IsPolicy b
    → validate b ≡ ok tt
    → b.enabled ≡ true
    → marshal_protocol_negotiation b ≡ ok frame
    → negotiate_compatibility a b ≡ ok c
    → accept_protocol_negotiation (fresh a) b.max_version frame
      ≡ (record { local = a; current = some c }, ok c)
unfolding accept_protocol_negotiation negotiate
accept-fresh a b frame c on v valid on' m h =
    let read : unmarshal_protocol_negotiation frame ≡ ok b =
      subst (λ (r : Result ProtocolError Bytes). (r >>= unmarshal_protocol_negotiation) ≡ ok b) m
        (unmarshal-marshal b v valid on') in
    ground (arith, eqb_ℤ-refl b.max_version)

-- Two endpoints with valid policies that fit their Go types and share some version, each new and
-- given the frame that the other marshals with its highest version in the header, come to the
-- same compatibility: a version that both speak, at least as high as the shared one, with the
-- capabilities that both have.
pub handshake_agrees :
    (a b : Policy) (frame_a frame_b : Bytes) (v : ℤ)
    → IsPolicy a
    → IsPolicy b
    → validate a ≡ ok tt
    → validate b ≡ ok tt
    → marshal_protocol_negotiation a ≡ ok frame_a
    → marshal_protocol_negotiation b ≡ ok frame_b
    → Speaks a v
    → Speaks b v
    → (c : Compatibility) × (accept_protocol_negotiation (fresh a) b.max_version frame_b
        ≡ (record { local = a; current = some c }, ok c))
      × (accept_protocol_negotiation (fresh b) a.max_version frame_a
          ≡ (record { local = b; current = some c }, ok c))
      × Speaks a c.version
      × Speaks b c.version
      × (v ≤ℤ c.version)
      × (c.capabilities ≡ bit_and a.capabilities b.capabilities)
handshake_agrees a b frame_a frame_b v va vb ha hb ma mb sa sb =
    let (c, e, spoken, spoken', high, caps) = negotiate_highest a b v ha hb sa sb in
    (
      c,
      accept-fresh a b frame_b c sa.enabled vb hb sb.enabled mb e,
      accept-fresh b a frame_a c sb.enabled va ha sa.enabled ma
          (negotiate_compatibility_comm b a ∙ e),
      spoken,
      spoken',
      high,
      caps,
    )

application_packet :
    (proto_id : ℤ)
    → proto_id ≢ protocol_negotiation_proto_id
    → eqb_ℤ proto_id protocol_negotiation_proto_id ≡ false
application_packet proto_id app = elim (Bool-cases (eqb_ℤ proto_id protocol_negotiation_proto_id)) [
  | inl same ↦ absurd (app (eqb_ℤ→eq proto_id protocol_negotiation_proto_id same))
  | inr differs ↦ differs
]

-- Between two enabled endpoints that have established the same compatibility, every application
-- packet that one stamps the other accepts, and one with any other version is refused; the
-- negotiator stays as it is.
established_exchange :
    (n m : Negotiator) (c : Compatibility) (proto_id version : ℤ)
    → n.local.enabled ≡ true
    → m.local.enabled ≡ true
    → snapshot n ≡ some c
    → snapshot m ≡ some c
    → proto_id ≢ protocol_negotiation_proto_id
    → (outbound_packet_version n proto_id ≡ ok c.version)
      × (validate_inbound_packet_version m proto_id c.version ≡ (m, ok tt))
      × ((version ≡ c.version)
          ⊎ (validate_inbound_packet_version m proto_id version ≡ (m, err packet_version_mismatch)))
unfolding outbound_packet_version validate_inbound_packet_version snapshot
established_exchange n m c proto_id version on on' s s' app =
    let other = application_packet proto_id app in
    (ground arith, ground (arith, eqb_ℤ-refl c.version), ground (arith, eqb_ℤ→eq version c.version))

-- Before a session is established its endpoint sends no application packet, and the first one
-- that comes in either establishes the legacy version, if it carries version 0 and the policy
-- accepts that, or is refused and changes nothing.
unestablished_application :
    (n : Negotiator) (proto_id version : ℤ)
    → n.local.enabled ≡ true
    → validate n.local ≡ ok tt
    → snapshot n ≡ none
    → proto_id ≢ protocol_negotiation_proto_id
    → (outbound_packet_version n proto_id ≡ err not_established)
      × (validate_inbound_packet_version n proto_id version ≡ (
          if not (eqb_ℤ version (pos 0))
          then (n, err not_established)
          else if n.local.accept_legacy
          then (record n { current = some legacy }, ok tt)
          else (n, err no_compatible_version)))
unfolding outbound_packet_version validate_inbound_packet_version snapshot negotiate
    negotiate_compatibility negotiate_legacy
unestablished_application n proto_id version on valid s app =
    let other = application_packet proto_id app in
    (ground arith, ground (arith, disabled_policy-valid))
