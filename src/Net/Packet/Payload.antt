-- ===== src/Net/Packet/Payload.antt =====
-- zNet/packet_payload.go: decryption and decompression of a packet's data under the endpoint's
-- limits. `zCrypto.AESDecrypt`, `snappy.DecodedLen` and `snappy.Decode` are packages of others
-- and enter as parameters; their errors carry no data.
use z_engine.Common.{
  ◌>>=◌, ◌>>◌, leb, ◌==◌, if◌then◌else◌, Result-cases, Result, ok, err, guard, length, ℤ, pos,
  ltb_ℤ, ◌≤ℤ◌, ◌<ℤ◌, eqb_ℤ, eqb_ℤ→eq, ℕ, ◌-◌, ◌<◌, ◌≡◌, ap, ◌∙◌, ◌≢◌, ◌⊎◌, inl, inr, Bool, true,
  false, not, Option, none, some, arith,
}
use z_engine.Net.Wire.{Bytes, to_uint, to_int}
use z_engine.Net.Packet.{NetPacket, compression_snappy}
use z_engine.Net.Packet.Limits.{resolve_decoded_packet_size, resolve_decoded_packet_size-lt}

pub data PayloadError : Type 0 where
  decoded_too_large decrypt_failed decompress_failed : PayloadError

-- `aesGCMWireOverhead`: nonce and authentication tag.
abbrev pub aes_gcm_wire_overhead : ℕ
aes_gcm_wire_overhead = 28

-- `validateDecodedPacketSize`.
unfoldable pub validate_decoded_packet_size : ℕ → ℤ → Result PayloadError (Unit {0})
validate_decoded_packet_size size max_size =
    guard (not (ltb_ℤ (resolve_decoded_packet_size max_size) (pos size))) decoded_too_large

-- The packages that `decodePacketPayload` calls.
pub record Codecs : Type 0 where
  pub aes_decrypt : Bytes → Bytes → Option Bytes
  pub snappy_decoded_len : Bytes → Option ℕ
  pub snappy_decode : Bytes → Option Bytes

or_fail : Option Bytes → PayloadError → Result PayloadError Bytes
or_fail none e = err e
or_fail (some a) e = ok a

or_fail_len : Option ℕ → PayloadError → Result PayloadError ℕ
or_fail_len none e = err e
or_fail_len (some a) e = ok a

module _ (codecs : Codecs) where
  -- The branch under `if encrypted`.
  decrypt : Bytes → Bytes → ℤ → Result PayloadError Bytes
  unfolding or_fail
  decrypt payload key max_size = do
    guard (not (length key == 0)) decrypt_failed
    guard (leb aes_gcm_wire_overhead (length payload)) decrypt_failed
    validate_decoded_packet_size (length payload - aes_gcm_wire_overhead) max_size
    plain ← or_fail (codecs.aes_decrypt payload key) decrypt_failed
    guard (length plain == (length payload - aes_gcm_wire_overhead)) decrypt_failed
    validate_decoded_packet_size (length plain) max_size
    ok plain

  -- The branch under `packet.IsCompressed == CompressionSnappy`.
  decompress : Bytes → ℤ → Result PayloadError Bytes
  unfolding or_fail or_fail_len
  decompress payload max_size = do
    size ← or_fail_len (codecs.snappy_decoded_len payload) decompress_failed
    validate_decoded_packet_size size max_size
    decoded ← or_fail (codecs.snappy_decode payload) decompress_failed
    guard (length decoded == size) decompress_failed
    validate_decoded_packet_size (length decoded) max_size
    ok decoded

  plain_size : Bytes → ℤ → Result PayloadError Bytes
  plain_size payload max_size = do
    validate_decoded_packet_size (length payload) max_size
    ok payload

  decipher : Bytes → Bytes → Bool → ℤ → Result PayloadError Bytes
  unfolding decrypt
  decipher payload key encrypted max_size =
      if encrypted then decrypt payload key max_size else ok payload

  inflate : NetPacket → Bytes → ℤ → Result PayloadError Bytes
  unfolding decompress plain_size
  inflate p plain max_size =
      if eqb_ℤ p.is_compressed compression_snappy
      then decompress plain max_size
      else plain_size plain max_size

  -- `decodePacketPayload`: on an error the packet is left alone, so it is no part of the result.
  unfoldable pub decode_packet_payload :
      NetPacket → Bytes → Bool → ℤ → Result PayloadError NetPacket
  unfolding decipher inflate
  decode_packet_payload p key encrypted max_size = do
    plain ← decipher p.payload key encrypted max_size
    decoded ← inflate p plain max_size
    ok (record p { payload = decoded; data_size = to_int 32 (to_uint 32 (pos (length decoded))) })

  validate-le :
      (n : ℕ) (max_size : ℤ)
      → validate_decoded_packet_size n max_size ≡ ok tt
      → pos n ≤ℤ resolve_decoded_packet_size max_size
  unfolding validate_decoded_packet_size
  validate-le n max_size h = ground arith

  decompress-le :
      (payload : Bytes) (max_size : ℤ) (out : Bytes)
      → decompress payload max_size ≡ ok out
      → validate_decoded_packet_size (length out) max_size ≡ ok tt
  unfolding decompress
  decompress-le payload max_size out h = ground arith

  plain_size-le :
      (payload : Bytes) (max_size : ℤ) (out : Bytes)
      → plain_size payload max_size ≡ ok out
      → validate_decoded_packet_size (length out) max_size ≡ ok tt
  unfolding plain_size
  plain_size-le payload max_size out h = ground arith

  inflate-le :
      (p : NetPacket) (payload : Bytes) (max_size : ℤ) (out : Bytes)
      → inflate p payload max_size ≡ ok out
      → validate_decoded_packet_size (length out) max_size ≡ ok tt
  unfolding inflate
  inflate-le p payload max_size out h =
      ground (arith, decompress-le payload max_size out, plain_size-le payload max_size out)

  -- A success in parts.
  decode_packet_payload-ok :
      (p q : NetPacket) (key : Bytes) (encrypted : Bool) (max_size : ℤ)
      → decode_packet_payload p key encrypted max_size ≡ ok q
      → (out : Bytes) × (validate_decoded_packet_size (length out) max_size ≡ ok tt)
        × (q ≡ record p { payload = out; data_size = to_int 32 (to_uint 32 (pos (length out))) })
  unfolding decode_packet_payload
  decode_packet_payload-ok p q key encrypted max_size h =
      elim (Result-cases (decipher p.payload key encrypted max_size)) [
        | inl (plain, e) ↦ elim (Result-cases (inflate p plain max_size)) [
          | inl (out, f) ↦ (out, inflate-le p plain max_size out f, ground arith)
          | inr (x, f) ↦ absurd (ground arith)
        ]
        | inr (x, e) ↦ absurd (ground arith)
      ]

  int32-pos : (n : ℕ) → n < 2147483648 → to_int 32 (to_uint 32 (pos n)) ≡ pos n
  unfolding to_int to_uint
  int32-pos n h = ground arith

  -- What `decodePacketPayload` leaves in the packet is within the endpoint's decoded limit, its
  -- `DataSize` is the length of its `Data`, and no other field has changed. The limit is an
  -- `int32`; nothing is assumed of the cipher or of the decompressor.
  pub decode_packet_payload_bounded :
      (p q : NetPacket) (key : Bytes) (encrypted : Bool) (max_size : ℤ)
      → max_size <ℤ pos 2147483648
      → decode_packet_payload p key encrypted max_size ≡ ok q
      → (pos (length q.payload) ≤ℤ resolve_decoded_packet_size max_size)
        × (q.data_size ≡ pos (length q.payload))
        × (q ≡ record p { payload = q.payload; data_size = q.data_size })
  unfolding decode_packet_payload
  decode_packet_payload_bounded p q key encrypted max_size small h =
      let (out, fits, shape) = decode_packet_payload-ok p q key encrypted max_size h in
      let short : pos (length out) ≤ℤ resolve_decoded_packet_size max_size =
        validate-le (length out) max_size fits in
      let size : q.data_size ≡ pos (length out) =
        ap (λ (r : NetPacket). r.data_size) shape
        ∙ int32-pos (length out) (omega (arith, resolve_decoded_packet_size-lt max_size small)) in
      ground arith

  -- Encrypted data with no key, or shorter than nonce and tag, is refused whatever the cipher does.
  decode_packet_payload_refuses :
      (p : NetPacket) (key : Bytes) (max_size : ℤ)
      → (length key ≡ 0) ⊎ (length p.payload < 28)
      → decode_packet_payload p key true max_size ≡ err decrypt_failed
  unfolding decode_packet_payload
  decode_packet_payload_refuses p key max_size h = ground arith

  -- Data that is neither encrypted nor compressed passes unchanged if it is within the decoded limit,
  -- an `int32`, and is refused as too large otherwise.
  decode_packet_payload_plain :
      (p : NetPacket) (key : Bytes) (max_size : ℤ)
      → p.is_compressed ≢ compression_snappy
      → max_size <ℤ pos 2147483648
      → ((pos (length p.payload) ≤ℤ resolve_decoded_packet_size max_size)
          × (decode_packet_payload p key false max_size
              ≡ ok (record p { data_size = pos (length p.payload) })))
        ⊎ ((resolve_decoded_packet_size max_size <ℤ pos (length p.payload))
            × (decode_packet_payload p key false max_size ≡ err decoded_too_large))
  unfolding decode_packet_payload validate_decoded_packet_size
  decode_packet_payload_plain p key max_size h small = ground (
    arith,
    resolve_decoded_packet_size-lt max_size small,
    int32-pos (length p.payload),
    eqb_ℤ→eq p.is_compressed compression_snappy,
  )
