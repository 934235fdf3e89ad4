-- ===== src/Net/Handshake/Frames.antt =====
-- The negotiation frame of zNet/protocol_handshake.go carries a policy without loss, and a frame
-- that is accepted is the only one for its policy.
use Prim.Native.Nat.{bit_and}
use z_engine.Common.{
  ◌==◌, if◌then◌else◌, ok, ◌>>=◌, length, ℕ, ◌≡◌, refl, sym, ap, ◌∙◌, subst, Bool, true, false, not,
  arith,
}
use z_engine.Common.Bits.{bit_clear, bit_and_one_le}
use z_engine.Net.Wire.{big_endian, Bytes, IsBytes, put, get, get-put, int32-IsInt}
use z_engine.Net.Packet.{slice}
use z_engine.Net.Packet.Codec.{signed32, join, value-lt, put-get_piece, piece32}
use z_engine.Net.Packet.Frame.{take_all}
use z_engine.Net.Protocol.{Policy, IsPolicy, validate}
use z_engine.Net.Handshake.{
  frame_bytes, read_policy, flag_accept_legacy, protocol_negotiation_magic,
  marshal_protocol_negotiation, unmarshal_protocol_negotiation,
}

read_flags :
    (b : Bool) → not (bit_and (get big_endian (put big_endian 2 (if b then 1 else 0))) 1 == 0) ≡ b
unfolding get put
read_flags true = refl
read_flags false = refl

read_policy-frame_bytes :
    (p : Policy) → IsPolicy p → p.enabled ≡ true → read_policy (frame_bytes p) ≡ p
unfolding read_policy frame_bytes put
read_policy-frame_bytes p v e = λ i. record {
  enabled = sym e i;
  min_version = signed32 big_endian p.min_version v.min_version i;
  max_version = signed32 big_endian p.max_version v.max_version i;
  capabilities = get-put big_endian 8 p.capabilities v.capabilities i;
  accept_legacy = read_flags p.accept_legacy i;
}

known_flags : (b : Bool) → bit_clear (get big_endian (put big_endian 2 (if b then 1 else 0))) 1 ≡ 0
unfolding get put
known_flags true = refl
known_flags false = refl

-- The fixed fields of a frame.
record IsFrame (frame : Bytes) : Type 0 where
  size : length frame ≡ 24
  magic : get big_endian (slice 0 4 frame) ≡ protocol_negotiation_magic
  format : get big_endian (slice 4 6 frame) ≡ 1
  flags : bit_clear (get big_endian (slice 6 8 frame)) flag_accept_legacy ≡ 0

frame_bytes-IsFrame : (p : Policy) → IsFrame (frame_bytes p)
unfolding frame_bytes put get
frame_bytes-IsFrame p = record {
  size = refl;
  magic = refl;
  format = refl;
  flags = known_flags p.accept_legacy;
}

unmarshal-IsFrame :
    (frame : Bytes)
    → IsFrame frame
    → validate (read_policy frame) ≡ ok tt
    → unmarshal_protocol_negotiation frame ≡ ok (read_policy frame)
unfolding unmarshal_protocol_negotiation
unmarshal-IsFrame frame f h = ground arith

-- A valid enabled policy, its fields within their Go types, survives the frame.
pub unmarshal-marshal :
    (p : Policy)
    → IsPolicy p
    → validate p ≡ ok tt
    → p.enabled ≡ true
    → (marshal_protocol_negotiation p >>= unmarshal_protocol_negotiation) ≡ ok p
unfolding marshal_protocol_negotiation
unmarshal-marshal p v valid e =
    let same : read_policy (frame_bytes p) ≡ p = read_policy-frame_bytes p v e in
    let back : unmarshal_protocol_negotiation (frame_bytes p) ≡ ok p =
      unmarshal-IsFrame (frame_bytes p) (frame_bytes-IsFrame p) (ap validate same ∙ valid)
      ∙ ap ok same in
    ground arith

-- What an accepted frame says.
unmarshal-ok :
    (frame : Bytes) (p : Policy)
    → unmarshal_protocol_negotiation frame ≡ ok p
    → IsFrame frame × (validate (read_policy frame) ≡ ok tt) × (p ≡ read_policy frame)
unfolding unmarshal_protocol_negotiation
unmarshal-ok frame p h = (
  record { size = ground arith; magic = ground arith; format = ground arith; flags = ground arith },
  ground arith,
  ground arith,
)

-- The flag word of an accepted frame is that of the policy read.
flags_back : (n : ℕ) → bit_clear n 1 ≡ 0 → (if not (bit_and n 1 == 0) then 1 else 0) ≡ n
flags_back n h = ground (arith, bit_and_one_le n)

frame_bytes-read_policy :
    (frame : Bytes) → IsBytes frame → IsFrame frame → frame_bytes (read_policy frame) ≡ frame
unfolding frame_bytes read_policy
frame_bytes-read_policy frame v f =
    let o = big_endian in
    let word = get o (slice 6 8 frame) in
    let magic : put o 4 protocol_negotiation_magic ≡ slice 0 4 frame =
      ap (put o 4) (sym f.magic) ∙ put-get_piece o frame v 0 4 (omega arith) in
    let format : put o 2 1 ≡ slice 4 6 frame =
      ap (put o 2) (sym f.format) ∙ put-get_piece o frame v 4 2 (omega arith) in
    let flags : put o 2 (if not (bit_and word 1 == 0) then 1 else 0) ≡ slice 6 8 frame =
      ap (put o 2) (flags_back word f.flags) ∙ put-get_piece o frame v 6 2 (omega arith) in
    rw
      (
        magic,
        format,
        flags,
        piece32 o frame v 8 (omega arith),
        piece32 o frame v 12 (omega arith),
        put-get_piece o frame v 16 8 (omega arith),
      )
      (rw (join 12 4 8 frame) (
        rw (join 8 4 12 frame) (
          rw (join 6 2 16 frame)
            (rw (join 4 2 18 frame) (rw (join 0 4 20 frame) (take_all 24 frame (omega arith)))))))

read_policy-enabled : (frame : Bytes) → (read_policy frame).enabled ≡ true
unfolding read_policy
read_policy-enabled frame = refl

read_policy-IsPolicy :
    (frame : Bytes) → IsBytes frame → IsFrame frame → IsPolicy (read_policy frame)
unfolding read_policy
read_policy-IsPolicy frame v f = record {
  min_version = int32-IsInt _;
  max_version = int32-IsInt _;
  capabilities = value-lt big_endian frame v 16 8 (omega arith);
}

-- A frame of bytes, numbers below 256, that is accepted is the one that its policy marshals to, and
-- the policy is enabled and fits its types.
marshal-unmarshal :
    (frame : Bytes) (p : Policy)
    → IsBytes frame
    → unmarshal_protocol_negotiation frame ≡ ok p
    → IsPolicy p × (p.enabled ≡ true) × (marshal_protocol_negotiation p ≡ ok frame)
unfolding marshal_protocol_negotiation
marshal-unmarshal frame p v h =
    let (f, valid, e) = unmarshal-ok frame p h in
    let back : frame_bytes p ≡ frame = ap frame_bytes e ∙ frame_bytes-read_policy frame v f in
    let valid' : validate p ≡ ok tt = ap validate e ∙ valid in
    let on : p.enabled ≡ true = ap (λ (r : Policy). r.enabled) e ∙ read_policy-enabled frame in
    (subst IsPolicy (sym e) (read_policy-IsPolicy frame v f), on, ground arith)
