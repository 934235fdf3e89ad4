-- ===== src/Net/Handshake.antt =====
-- zNet/protocol_handshake.go: the negotiation frame, and what a session stamps on its packets and
-- accepts from its peer. The methods' guard against a nil receiver is left out.
pub mod Frames
pub mod Sessions
use Prim.Native.Nat.{bit_and}
use z_engine.Common.{
  ◌>>=◌, ◌>>◌, ◌==◌, if◌then◌else◌, Result, ok, err, guard, length, ℤ, pos, leb_ℤ, eqb_ℤ, ℕ, true,
  not, Option, none, some, ◌++◌,
}
use z_engine.Common.Bits.{bit_clear}
use z_engine.Net.Wire.{big_endian, Bytes, put, get, to_uint, to_int}
use z_engine.Net.Packet.{slice}
use z_engine.Net.Protocol.{
  ProtocolError, invalid_frame, not_established, packet_version_mismatch, Policy, disabled_policy,
  Compatibility, Negotiator, validate, negotiate, snapshot, legacy_protocol_version,
}

-- `ProtocolNegotiationProtoId`, 1<<31 - 1.
abbrev pub protocol_negotiation_proto_id : ℤ
protocol_negotiation_proto_id = pos 2147483647

abbrev pub protocol_negotiation_magic : ℕ
protocol_negotiation_magic = 0x5A4E4554

abbrev pub protocol_negotiation_format_version : ℕ
protocol_negotiation_format_version = 1

abbrev pub protocol_negotiation_frame_size : ℕ
protocol_negotiation_frame_size = 24

-- `protocolNegotiationFlagAcceptLegacy`, the only known flag.
abbrev pub flag_accept_legacy : ℕ
flag_accept_legacy = 1

flags_of : Policy → ℕ
flags_of p = if p.accept_legacy then flag_accept_legacy else 0

-- The six writes tile the frame.
pub frame_bytes : Policy → Bytes
unfolding flags_of
frame_bytes p =
    put big_endian 4 protocol_negotiation_magic
    ++ (put big_endian 2 protocol_negotiation_format_version
        ++ (put big_endian 2 (flags_of p)
            ++ (put big_endian 4 (to_uint 32 p.min_version)
                ++ (put big_endian 4 (to_uint 32 p.max_version)
                    ++ put big_endian 8 p.capabilities))))

-- `MarshalProtocolNegotiation`.
unfoldable pub marshal_protocol_negotiation : Policy → Result ProtocolError Bytes
unfolding frame_bytes
marshal_protocol_negotiation p = do validate p; guard p.enabled invalid_frame; ok (frame_bytes p)

-- `%v` keeps the text of a policy error and not its identity.
as_frame_error : Result ProtocolError (Unit {0}) → Result ProtocolError (Unit {0})
as_frame_error (ok a) = ok a
as_frame_error (err e) = err invalid_frame

pub read_policy : Bytes → Policy
read_policy frame = record {
  enabled = true;
  min_version = to_int 32 (get big_endian (slice 8 12 frame));
  max_version = to_int 32 (get big_endian (slice 12 16 frame));
  capabilities = get big_endian (slice 16 24 frame);
  accept_legacy = not (bit_and (get big_endian (slice 6 8 frame)) flag_accept_legacy == 0);
}

-- `UnmarshalProtocolNegotiation`.
unfoldable pub unmarshal_protocol_negotiation : Bytes → Result ProtocolError Policy
unfolding as_frame_error read_policy
unmarshal_protocol_negotiation frame = do
  guard (length frame == protocol_negotiation_frame_size) invalid_frame
  guard (get big_endian (slice 0 4 frame) == protocol_negotiation_magic) invalid_frame
  guard (get big_endian (slice 4 6 frame) == protocol_negotiation_format_version) invalid_frame
  guard (bit_clear (get big_endian (slice 6 8 frame)) flag_accept_legacy == 0) invalid_frame
  as_frame_error (validate (read_policy frame))
  ok (read_policy frame)

established_version : Option Compatibility → Result ProtocolError ℤ
established_version none = err not_established
established_version (some c) = ok c.version

-- `OutboundPacketVersion` of a negotiator that is not nil; beside an error Go returns version 0.
unfoldable pub outbound_packet_version : Negotiator → ℤ → Result ProtocolError ℤ
unfolding established_version
outbound_packet_version n proto_id =
    if not n.local.enabled
    then ok legacy_protocol_version
    else if eqb_ℤ proto_id protocol_negotiation_proto_id
    then ok n.local.max_version
    else established_version (snapshot n)

drop_value :
    {A : Type 0}
    → Negotiator × Result ProtocolError A
    → Negotiator × Result ProtocolError (Unit {0})
drop_value (n, ok a) = (n, ok tt)
drop_value (n, err e) = (n, err e)

-- An application packet: the version is compared with the established one, and a first packet of
-- version 0 establishes the legacy version if the policy accepts it.
inbound_application :
    Negotiator → Option Compatibility → ℤ → Negotiator × Result ProtocolError (Unit {0})
unfolding drop_value
inbound_application n none version =
    if not (eqb_ℤ version legacy_protocol_version)
    then (n, err not_established)
    else drop_value (negotiate n disabled_policy)
inbound_application n (some c) version =
    (n, guard (eqb_ℤ version c.version) packet_version_mismatch)

-- `ValidateInboundPacketVersion`.
unfoldable pub validate_inbound_packet_version :
    Negotiator → ℤ → ℤ → Negotiator × Result ProtocolError (Unit {0})
unfolding inbound_application
validate_inbound_packet_version n proto_id version =
    if not n.local.enabled
    then (n, ok tt)
    else if eqb_ℤ proto_id protocol_negotiation_proto_id
    then (n, guard (not (leb_ℤ version legacy_protocol_version)) packet_version_mismatch)
    else inbound_application n (snapshot n) version

accept_policy :
    Negotiator → ℤ → Result ProtocolError Policy → Negotiator × Result ProtocolError Compatibility
accept_policy n packet_version (ok peer) =
    if not (eqb_ℤ packet_version peer.max_version)
    then (n, err packet_version_mismatch)
    else negotiate n peer
accept_policy n packet_version (err e) = (n, err e)

-- `AcceptProtocolNegotiation`.
unfoldable pub accept_protocol_negotiation :
    Negotiator → ℤ → Bytes → Negotiator × Result ProtocolError Compatibility
unfolding accept_policy
accept_protocol_negotiation n packet_version frame =
    if not n.local.enabled
    then (n, err not_established)
    else accept_policy n packet_version (unmarshal_protocol_negotiation frame)
