-- ===== src/Net/Packet.antt =====
-- zNet/packet.go, packet_limits.go and packet_payload.go: the packet header, its codec and the
-- limits of each endpoint. `int32` and `int64` fields are integers with their range in `IsPacket`.
pub mod Codec
pub mod Frame
pub mod Limits
pub mod Payload
use z_engine.Common.{
  ◌>>=◌, ◌>>◌, ℕ, ◌-◌, ◌<◌, ℤ, pos, negsuc, ltb_ℤ, eqb_ℤ, ◌+ℤ◌, Bool, ◌&&◌, ◌||◌, not, Option, none,
  some, [], ◌++◌, length, take, drop, Result, ok, guard, leb, ◌==◌, ◌^◌,
}
use z_engine.Net.Wire.{ByteOrder, little_endian, Bytes, IsBytes, put, get, to_uint, to_int, IsInt}

-- `HeartbeatProtoId` and `KeyRotationNotifyProtoId`.
abbrev pub heartbeat_proto_id : ℤ
heartbeat_proto_id = negsuc 0

abbrev pub key_rotation_notify_proto_id : ℤ
key_rotation_notify_proto_id = negsuc 1

abbrev pub compression_none : ℤ
compression_none = pos 0

abbrev pub compression_snappy : ℤ
compression_snappy = pos 1

abbrev pub net_packet_head_size : ℕ
net_packet_head_size = 36

pub data PacketError : Type 0 where
  header_size proto_id data_size too_large compression frame_size : PacketError

-- A nil `order` is `none`.
pub record PacketCodec : Type 0 where
  pub order : Option ByteOrder

pub record NetPacket : Type 0 where
  pub sequence : ℕ
  pub timestamp : ℤ
  pub proto_id : ℤ
  pub data_size : ℤ
  pub version : ℤ
  pub is_compressed : ℤ
  pub key_id : ℕ
  pub payload : Bytes

-- The field values that the Go types hold.
pub record IsPacket (p : NetPacket) : Type 0 where
  pub sequence : p.sequence < 2 ^ 64
  pub timestamp : IsInt 64 p.timestamp
  pub proto_id : IsInt 32 p.proto_id
  pub data_size : IsInt 32 p.data_size
  pub version : IsInt 32 p.version
  pub is_compressed : IsInt 32 p.is_compressed
  pub key_id : p.key_id < 2 ^ 32
  pub payload : IsBytes p.payload

-- `NewPacketCodec`.
unfoldable pub new_packet_codec : Option ByteOrder → PacketCodec
new_packet_codec none = record { order = some little_endian }
new_packet_codec (some o) = record { order = some o }

order_or_default : Option ByteOrder → ByteOrder
order_or_default none = little_endian
order_or_default (some o) = o

unfoldable pub byte_order : PacketCodec → ByteOrder
unfolding order_or_default
byte_order c = order_or_default c.order

-- `data[a:b]`, for a ≤ b ≤ len(data).
abbrev pub slice : ℕ → ℕ → Bytes → Bytes
slice a b bytes = take (b - a) (drop a bytes)

pub read_fields : ByteOrder → Bytes → Bytes → NetPacket
read_fields o payload bytes = record {
  proto_id = to_int 32 (get o (slice 0 4 bytes));
  version = to_int 32 (get o (slice 4 8 bytes));
  data_size = to_int 32 (get o (slice 8 12 bytes));
  is_compressed = to_int 32 (get o (slice 12 16 bytes));
  sequence = get o (slice 16 24 bytes);
  timestamp = to_int 64 (get o (slice 24 32 bytes));
  key_id = get o (slice 32 36 bytes);
  payload = payload;
}

-- `PacketCodec.UnmarshalHead`: it overwrites the header fields of `p` and leaves its `Data`.
unfoldable pub unmarshal_head : PacketCodec → NetPacket → Bytes → Result PacketError NetPacket
unfolding read_fields
unmarshal_head c p bytes = do
  guard (leb net_packet_head_size (length bytes)) header_size
  ok (read_fields (byte_order c) p.payload bytes)

pub header_bytes : ByteOrder → NetPacket → Bytes
header_bytes o p =
    put o 4 (to_uint 32 p.proto_id)
    ++ (put o 4 (to_uint 32 p.version)
        ++ (put o 4 (to_uint 32 p.data_size)
            ++ (put o 4 (to_uint 32 p.is_compressed)
                ++ (put o 8 p.sequence ++ (put o 8 (to_uint 64 p.timestamp) ++ put o 4 p.key_id)))))

-- `PacketCodec.Marshal`: the writes at 0, 4, 8, 12, 16, 24 and 32 tile the header.
unfoldable pub marshal : PacketCodec → NetPacket → Bytes
unfolding header_bytes
marshal c p = header_bytes (byte_order c) p ++ p.payload

-- `IsValidProtoID`.
unfoldable pub is_valid_proto_id : ℤ → Bool
is_valid_proto_id id =
    ltb_ℤ (pos 0) id || eqb_ℤ id heartbeat_proto_id || eqb_ℤ id key_rotation_notify_proto_id

-- `ValidatePacketHeader`.
unfoldable pub validate_packet_header : NetPacket → ℤ → Result PacketError (Unit {0})
unfolding is_valid_proto_id
validate_packet_header p max_size = do
  guard (is_valid_proto_id p.proto_id) proto_id
  guard (not (ltb_ℤ p.data_size (pos 0))) data_size
  guard (not (ltb_ℤ (pos 0) max_size && ltb_ℤ max_size p.data_size)) too_large
  guard (eqb_ℤ p.is_compressed compression_none || eqb_ℤ p.is_compressed compression_snappy)
      compression

abbrev pub zero_packet : NetPacket
zero_packet = record {
  sequence = 0;
  timestamp = pos 0;
  proto_id = pos 0;
  data_size = pos 0;
  version = pos 0;
  is_compressed = pos 0;
  key_id = 0;
  payload = [];
}

-- `PacketCodec.DecodeHeader`.
unfoldable pub decode_header : PacketCodec → Bytes → ℤ → Result PacketError NetPacket
decode_header c bytes max_size = do
  guard (length bytes == net_packet_head_size) header_size
  p ← unmarshal_head c zero_packet bytes
  validate_packet_header p max_size
  ok p

-- `PacketCodec.DecodeFrame`; its `int64` sum of 36 and an `int32` cannot overflow.
unfoldable pub decode_frame : PacketCodec → Bytes → ℤ → Result PacketError NetPacket
decode_frame c bytes max_size = do
  guard (leb net_packet_head_size (length bytes)) header_size
  p ← decode_header c (slice 0 36 bytes) max_size
  guard (eqb_ℤ (pos (length bytes)) (pos 36 +ℤ p.data_size)) frame_size
  ok (record p { payload = drop 36 bytes })
