-- ===== src/Examples/Packets.antt =====
-- The theorems on frames and payloads at a packet of two bytes of data.
use z_engine.Common.{
  ◌+ℤ◌, ok, length, drop, pos, negsuc, ◌≤ℤ◌, ◌≡◌, refl, false, some, [], ◌∷◌, arith,
}
use z_engine.Net.Wire.{to_uint, to_int, get, Bytes, big_endian}
use z_engine.Net.Packet.{
  decode_header, unmarshal_head, validate_packet_header, byte_order, PacketCodec, NetPacket,
  IsPacket, marshal, decode_frame,
}
use z_engine.Net.Packet.Frame.{IsAcceptable, decode_frame_sound, decode_frame-marshal}
use z_engine.Net.Packet.Limits.{Limits, resolve_decoded_packet_size}
use z_engine.Net.Packet.Payload.{
  validate_decoded_packet_size, Codecs, decode_packet_payload, decode_packet_payload_bounded,
}

abbrev codec : PacketCodec
codec = record { order = some big_endian }

abbrev packet : NetPacket
packet = record {
  sequence = 7;
  timestamp = pos 100;
  proto_id = pos 42;
  data_size = pos 2;
  version = pos 1;
  is_compressed = pos 0;
  key_id = 3;
  payload = 10 ∷ 20 ∷ [];
}

packet-IsPacket : IsPacket packet
packet-IsPacket = record {
  sequence = ground arith;
  timestamp = ground arith;
  proto_id = ground arith;
  data_size = ground arith;
  version = ground arith;
  is_compressed = ground arith;
  key_id = ground arith;
  payload = ground arith;
}

packet-IsAcceptable : IsAcceptable (pos 1024) packet
packet-IsAcceptable = record {
  known = ground arith;
  sized = ground arith;
  within = ground arith;
  flagged = ground arith;
}

decode_frame-marshal_example : decode_frame codec (marshal codec packet) (pos 1024) ≡ ok packet
decode_frame-marshal_example =
    decode_frame-marshal codec packet (pos 1024) packet-IsPacket packet-IsAcceptable refl

abbrev frame : Bytes
frame =
    0 ∷ 0 ∷ 0 ∷ 42 ∷ 0 ∷ 0 ∷ 0 ∷ 1 ∷ 0 ∷ 0 ∷ 0 ∷ 2 ∷ 0 ∷ 0 ∷ 0 ∷ 0 ∷ 0 ∷ 0 ∷ 0 ∷ 0 ∷ 0 ∷ 0 ∷ 0 ∷ 7
    ∷ 0 ∷ 0 ∷ 0 ∷ 0 ∷ 0 ∷ 0 ∷ 0 ∷ 100 ∷ 0 ∷ 0 ∷ 0 ∷ 3 ∷ 10 ∷ 20 ∷ []

decode_frame-frame : decode_frame codec frame (pos 1024) ≡ ok packet
unfolding decode_frame decode_header unmarshal_head validate_packet_header to_int get byte_order
    ◌+ℤ◌
decode_frame-frame = refl

decode_frame_sound_example :
    IsAcceptable (pos 1024) packet
    × IsPacket packet
    × (packet.data_size ≡ pos (length packet.payload))
    × (marshal codec packet ≡ frame)
decode_frame_sound_example =
    decode_frame_sound codec frame (pos 1024) packet (ground arith) decode_frame-frame

abbrev limits : Limits
limits = record { max_wire = pos 0; legacy_wire = pos 4096; max_decoded = negsuc 0 }

-- A cipher that drops nonce and tag, and a compression that is none.
abbrev plain_codecs : Codecs
plain_codecs = record {
  aes_decrypt = λ bytes key. some (drop 28 bytes);
  snappy_decoded_len = λ bytes. some (length bytes);
  snappy_decode = λ bytes. some bytes;
}

abbrev flagged_packet : NetPacket
flagged_packet = record packet { is_compressed = pos 1; data_size = pos 2 }

decode_flagged :
    decode_packet_payload plain_codecs flagged_packet [] false (pos 16) ≡ ok flagged_packet
unfolding decode_packet_payload resolve_decoded_packet_size validate_decoded_packet_size to_int
    to_uint
decode_flagged = refl

decode_packet_payload_bounded_example :
    (pos (length flagged_packet.payload) ≤ℤ resolve_decoded_packet_size (pos 16))
    × (flagged_packet.data_size ≡ pos (length flagged_packet.payload))
    × (flagged_packet ≡ record flagged_packet {
      payload = flagged_packet.payload;
      data_size = flagged_packet.data_size;
    })
decode_packet_payload_bounded_example =
    decode_packet_payload_bounded plain_codecs flagged_packet flagged_packet [] false (pos 16)
      (ground arith) decode_flagged
