-- ===== src/Net/Packet/Limits.antt =====
-- zNet/packet_limits.go: the wire and decoded size limits of an endpoint. The three pointers are
-- the three parts of the argument and of the result.
use z_engine.Common.{if◌then◌else◌, ℤ, pos, leb_ℤ, ◌≤ℤ◌, ◌<ℤ◌, ◌≡◌, refl, ◌⊎◌, arith}

-- `DefaultWirePacketSize` and `DefaultDecodedPacketSize`, 1 MiB each.
abbrev pub default_wire_packet_size : ℤ
default_wire_packet_size = pos 1048576

abbrev pub default_decoded_packet_size : ℤ
default_decoded_packet_size = pos 1048576

-- `if x <= 0 { x = y }`.
or_else : ℤ → ℤ → ℤ
or_else x y = if leb_ℤ x (pos 0) then y else x

-- The limits that the pointers `maxWire`, `legacyWire` and `maxDecoded` lead to.
pub record Limits : Type 0 where
  pub max_wire : ℤ
  pub legacy_wire : ℤ
  pub max_decoded : ℤ

-- `normalizePacketSizeLimits`.
unfoldable pub normalize_packet_size_limits : Limits → Limits
unfolding or_else
normalize_packet_size_limits l =
    let wire = or_else (or_else l.max_wire l.legacy_wire) default_wire_packet_size in
    record {
      max_wire = wire;
      legacy_wire = wire;
      max_decoded = or_else l.max_decoded default_decoded_packet_size;
    }

-- `resolveWirePacketSize` and `resolveDecodedPacketSize`.
pub resolve_wire_packet_size : ℤ → ℤ → ℤ
unfolding normalize_packet_size_limits
resolve_wire_packet_size max_wire legacy_wire =
    (normalize_packet_size_limits
      (record { max_wire = max_wire; legacy_wire = legacy_wire; max_decoded = pos 0 })).max_wire

unfoldable pub resolve_decoded_packet_size : ℤ → ℤ
unfolding normalize_packet_size_limits
resolve_decoded_packet_size max_decoded =
    (normalize_packet_size_limits
      (record { max_wire = pos 0; legacy_wire = pos 0; max_decoded = max_decoded })).max_decoded

-- Every limit that comes out is positive, the two wire fields agree, a positive `MaxWirePacketSize`
-- wins over a positive legacy field, which wins over the default, a positive decoded limit is kept,
-- and normalizing again changes nothing.
normalize_packet_size_limits_lem :
    (l : Limits)
    → let n = normalize_packet_size_limits l in
      (pos 0 <ℤ n.max_wire)
      × (n.legacy_wire ≡ n.max_wire)
      × (pos 0 <ℤ n.max_decoded)
      × (((pos 0 <ℤ l.max_wire) × (n.max_wire ≡ l.max_wire))
          ⊎ (((l.max_wire ≤ℤ pos 0) × (pos 0 <ℤ l.legacy_wire) × (n.max_wire ≡ l.legacy_wire))
              ⊎ ((l.max_wire ≤ℤ pos 0)
                  × (l.legacy_wire ≤ℤ pos 0)
                  × (n.max_wire ≡ default_wire_packet_size))))
      × (((pos 0 <ℤ l.max_decoded) × (n.max_decoded ≡ l.max_decoded))
          ⊎ ((l.max_decoded ≤ℤ pos 0) × (n.max_decoded ≡ default_decoded_packet_size)))
      × (normalize_packet_size_limits n ≡ n)
unfolding normalize_packet_size_limits
normalize_packet_size_limits_lem l =
    (ground arith, refl, ground arith, ground arith, ground arith, ground arith)

pub resolve_decoded_packet_size-pos : (z : ℤ) → pos 0 <ℤ resolve_decoded_packet_size z
unfolding resolve_decoded_packet_size
resolve_decoded_packet_size-pos z = ground arith

-- An `int32` limit stays an `int32`.
pub resolve_decoded_packet_size-lt :
    (z : ℤ) → z <ℤ pos 2147483648 → resolve_decoded_packet_size z <ℤ pos 2147483648
unfolding resolve_decoded_packet_size
resolve_decoded_packet_size-lt z h = ground arith
