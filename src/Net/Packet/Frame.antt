-- ===== src/Net/Packet/Frame.antt =====
-- `ValidatePacketHeader`, `UnmarshalHead`, `Marshal`, `DecodeHeader` and `DecodeFrame` of
-- zNet/packet.go, against a description of the frames that an endpoint accepts.
use z_engine.Common.{
  Result-cases, ok, length, take, drop, length-append, take-append-drop, length-drop, ℤ, pos, ◌≤ℤ◌,
  ◌<ℤ◌, eqb_ℤ→eq, ◌+ℤ◌, ℕ, zero, suc, ◌+◌, ◌-◌, ◌≤◌, ◌≡◌, refl, sym, ap, ◌∙◌, subst, ◌⊎◌, inl, inr,
  [], ◌∷◌, ◌++◌, arith,
}
use mathlib.Core.List.{append-nil}
use z_engine.Net.Wire.{Bytes, IsBytes}
use z_engine.Net.Packet.{
  PacketCodec, NetPacket, IsPacket, heartbeat_proto_id, key_rotation_notify_proto_id,
  compression_none, compression_snappy, byte_order, slice, unmarshal_head, marshal,
  validate_packet_header, decode_header, decode_frame, read_fields, header_bytes,
}
use z_engine.Net.Packet.Codec.{
  read_fields-header, length-header_bytes, take-header, drop-header, header-read_fields,
  read_fields-IsPacket, drop-IsBytes, take-IsBytes,
}

-- What a header must say for its packet to be taken; `max_size` ≤ 0 means no limit.
pub record IsAcceptable (max_size : ℤ) (p : NetPacket) : Type 0 where
  pub known :
      (pos 0 <ℤ p.proto_id)
      ⊎ ((p.proto_id ≡ heartbeat_proto_id) ⊎ (p.proto_id ≡ key_rotation_notify_proto_id))
  pub sized : pos 0 ≤ℤ p.data_size
  pub within : (max_size ≤ℤ pos 0) ⊎ (p.data_size ≤ℤ max_size)
  pub flagged : (p.is_compressed ≡ compression_none) ⊎ (p.is_compressed ≡ compression_snappy)

validate-IsAcceptable :
    (max_size : ℤ) (p : NetPacket)
    → validate_packet_header p max_size ≡ ok tt
    → IsAcceptable max_size p
unfolding validate_packet_header
validate-IsAcceptable max_size p h = record {
  known = ground arith;
  sized = ground arith;
  within = ground arith;
  flagged = ground arith;
}

IsAcceptable-validate :
    (max_size : ℤ) (p : NetPacket)
    → IsAcceptable max_size p
    → validate_packet_header p max_size ≡ ok tt
unfolding validate_packet_header
IsAcceptable-validate max_size p a = ground arith

-- A successful `DecodeHeader` in parts.
decode_header-ok :
    (c : PacketCodec) (bytes : Bytes) (max_size : ℤ) (p : NetPacket)
    → decode_header c bytes max_size ≡ ok p
    → (length bytes ≡ 36)
      × (p ≡ read_fields (byte_order c) [] bytes)
      × (validate_packet_header p max_size ≡ ok tt)
unfolding decode_header unmarshal_head
decode_header-ok c bytes max_size p h = ground arith

decode_header-read :
    (c : PacketCodec) (bytes : Bytes) (max_size : ℤ)
    → length bytes ≡ 36
    → validate_packet_header (read_fields (byte_order c) [] bytes) max_size ≡ ok tt
    → decode_header c bytes max_size ≡ ok (read_fields (byte_order c) [] bytes)
unfolding decode_header unmarshal_head
decode_header-read c bytes max_size l v = ground arith

-- A successful `DecodeFrame` in parts.
decode_frame-ok :
    (c : PacketCodec) (bytes : Bytes) (max_size : ℤ) (p : NetPacket)
    → decode_frame c bytes max_size ≡ ok p
    → (q : NetPacket) × (36 ≤ length bytes)
      × (decode_header c (slice 0 36 bytes) max_size ≡ ok q)
      × (pos (length bytes) ≡ pos 36 +ℤ q.data_size)
      × (p ≡ record q { payload = drop 36 bytes })
unfolding decode_frame
decode_frame-ok c bytes max_size p h =
    elim (Result-cases (decode_header c (slice 0 36 bytes) max_size)) [
      | inl (q, e) ↦ (
        q,
        ground arith,
        e,
        ground (arith, eqb_ℤ→eq (pos (length bytes)) (pos 36 +ℤ q.data_size)),
        ground arith,
      )
      | inr (x, e) ↦ absurd (ground arith)
    ]

pub take_all : (n : ℕ) (xs : Bytes) → length xs ≤ n → take n xs ≡ xs
take_all zero [] h = refl
take_all zero (x ∷ xs) h = absurd (omega arith)
take_all (suc n) [] h = refl
take_all (suc n) (x ∷ xs) h = ap (◌∷◌ x) (take_all n xs (omega arith))

-- Validation reads the header fields only.
with_payload :
    (max_size : ℤ) (p : NetPacket) (payload : Bytes)
    → IsAcceptable max_size p
    → IsAcceptable max_size (record p { payload = payload })
with_payload max_size p payload a = record {
  known = a.known;
  sized = a.sized;
  within = a.within;
  flagged = a.flagged;
}

length-marshal : (c : PacketCodec) (p : NetPacket) → length (marshal c p) ≡ 36 + length p.payload
unfolding marshal
length-marshal c p = omega (
  arith,
  length-append (header_bytes (byte_order c) p) p.payload,
  length-header_bytes (byte_order c) p,
)

-- The header of a marshalled packet decodes to its fields.
decode_header-marshal :
    (c : PacketCodec) (p : NetPacket) (max_size : ℤ)
    → IsPacket p
    → IsAcceptable max_size p
    → decode_header c (header_bytes (byte_order c) p) max_size ≡ ok (record p { payload = [] })
decode_header-marshal c p max_size v a =
    let bytes : Bytes = header_bytes (byte_order c) p in
    let reads : read_fields (byte_order c) [] bytes ≡ record p { payload = [] } =
      ap (read_fields (byte_order c) []) (sym (append-nil bytes))
      ∙ read_fields-header (byte_order c) p [] [] v in
    decode_header-read c bytes max_size (length-header_bytes (byte_order c) p)
      (rw reads (IsAcceptable-validate max_size _ (with_payload max_size p [] a)))
    ∙ ap ok reads

-- The sum of the header size and `DataSize`, which the frame size is held to.
frame_size-sum : (d : ℤ) (k : ℕ) → d ≡ pos k → pos 36 +ℤ d ≡ pos (36 + k)
unfolding ◌+ℤ◌
frame_size-sum d k e = rw e (ground arith)

-- A packet whose fields fit their Go types, that the header rules accept and whose `DataSize` is
-- the length of its `Data`, is what `DecodeFrame` returns on its own `Marshal`, in both byte orders.
pub decode_frame-marshal :
    (c : PacketCodec) (p : NetPacket) (max_size : ℤ)
    → IsPacket p
    → IsAcceptable max_size p
    → p.data_size ≡ pos (length p.payload)
    → decode_frame c (marshal c p) max_size ≡ ok p
unfolding decode_frame
decode_frame-marshal c p max_size v a l =
    let o = byte_order c in
    let head : slice 0 36 (marshal c p) ≡ header_bytes o p =
      unfold marshal in take-header o p p.payload in
    let rest : drop 36 (marshal c p) ≡ p.payload = unfold marshal in drop-header o p p.payload in
    rw (head, decode_header-marshal c p max_size v a, rest, length-marshal c p)
      (rw (frame_size-sum p.data_size (length p.payload) l) (ground arith))

size_of_total : (d : ℤ) (n : ℕ) → pos n ≡ pos 36 +ℤ d → pos 0 ≤ℤ d → d ≡ pos (n - 36)
unfolding ◌+ℤ◌
size_of_total d n h p = ground arith

-- The fields of a header, put before the rest of the frame, make the frame again.
marshal-read_fields :
    (c : PacketCodec) (head rest : Bytes)
    → IsBytes head
    → length head ≡ 36
    → marshal c (read_fields (byte_order c) rest head) ≡ head ++ rest
unfolding marshal read_fields
marshal-read_fields c head rest v l =
    ap (λ h. h ++ rest)
      (header-read_fields (byte_order c) head v rest (omega arith) ∙ take_all 36 head (omega arith))

-- Whatever `DecodeFrame` returns on bytes, numbers below 256, is acceptable, fits its types, has the whole rest of the frame
-- as `Data` with `DataSize` its length, and marshals back to the very bytes that came in.
pub decode_frame_sound :
    (c : PacketCodec) (bytes : Bytes) (max_size : ℤ) (p : NetPacket)
    → IsBytes bytes
    → decode_frame c bytes max_size ≡ ok p
    → IsAcceptable max_size p
      × IsPacket p
      × (p.data_size ≡ pos (length p.payload))
      × (marshal c p ≡ bytes)
unfolding read_fields
decode_frame_sound c bytes max_size p v h =
    let o = byte_order c in
    let head : Bytes = slice 0 36 bytes in
    let rest : Bytes = drop 36 bytes in
    let (q, long, e, total, shape) = decode_frame-ok c bytes max_size p h in
    let (size, reads, valid) = decode_header-ok c head max_size q e in
    let a : IsAcceptable max_size q = validate-IsAcceptable max_size q valid in
    let vh : IsBytes head = take-IsBytes 36 bytes v in
    let read : p ≡ read_fields o rest head =
      shape ∙ ap (λ (r : NetPacket). record r { payload = rest }) reads in
    (
      subst (IsAcceptable max_size) (sym shape) (with_payload max_size q rest a),
      subst IsPacket (sym read)
          (read_fields-IsPacket o head vh rest (drop-IsBytes 36 bytes v) (omega arith)),
      subst (λ r. r.data_size ≡ pos (length r.payload)) (sym shape)
          (size_of_total q.data_size (length bytes) total a.sized
            ∙ ap pos (sym (length-drop 36 bytes))),
      ap (marshal c) read ∙ marshal-read_fields c head rest vh size ∙ take-append-drop 36 bytes,
    )
