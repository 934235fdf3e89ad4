-- ===== src/Net/KeyRotation/Notify.antt =====
-- The rotation notice of zNet/key_rotation.go round trips.
use z_engine.Common.{ltb, length, ℕ, suc, ◌^◌, ◌<◌, ◌≡◌, false, Option, none, some, ◌++◌, arith}
use z_engine.Net.Wire.{ByteOrder, little_endian, big_endian, Bytes, IsInt, put, get-put}
use z_engine.Net.Packet.Codec.{signed64}
use z_engine.Net.KeyRotation.{KeyRotationNotify, marshal_notify, unmarshal_notify}

not_short :
    (n : ℕ)
    → ltb
        (suc (
          suc (
            suc (
              suc (
                suc (
                  suc (
                    suc (
                      suc (
                        suc (
                          suc
                            (suc (suc (suc (suc (suc (suc (suc (suc (suc (suc n))))))))))))))))))))
        20
      ≡ false
not_short n = ground arith

-- A notice whose fields fit their Go types is what its own bytes, with any bytes behind them,
-- decode to; in both byte orders, and in the default one.
unmarshal_notify-marshal_notify :
    (order : Option ByteOrder) (k : KeyRotationNotify) (rest : Bytes)
    → k.key_id < 2 ^ 32
    → IsInt 64 k.timestamp
    → k.nonce < 2 ^ 64
    → unmarshal_notify order (marshal_notify order k ++ rest) ≡ some k
unfolding unmarshal_notify marshal_notify put
unmarshal_notify-marshal_notify none k rest a b c = rw (not_short (length rest)) λ i. some (record {
  key_id = get-put little_endian 4 k.key_id a i;
  timestamp = signed64 little_endian k.timestamp b i;
  nonce = get-put little_endian 8 k.nonce c i;
})
unmarshal_notify-marshal_notify (some little_endian) k rest a b c =
    rw (not_short (length rest)) λ i. some (record {
      key_id = get-put little_endian 4 k.key_id a i;
      timestamp = signed64 little_endian k.timestamp b i;
      nonce = get-put little_endian 8 k.nonce c i;
    })
unmarshal_notify-marshal_notify (some big_endian) k rest a b c = rw (not_short (length rest)) λ i.
    some (record {
      key_id = get-put big_endian 4 k.key_id a i;
      timestamp = signed64 big_endian k.timestamp b i;
      nonce = get-put big_endian 8 k.nonce c i;
    })
