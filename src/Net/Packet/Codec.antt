-- ===== src/Net/Packet/Codec.antt =====
-- The header and frame codec of zNet/packet.go.
use z_engine.Common.{
  length, take, drop, length-take, length-drop, ℤ, ℕ, zero, suc, ◌+◌, ◌^◌, ◌≤◌, ◌<◌, ◌≡◌, refl, ap,
  ◌∙◌, subst, [], ◌∷◌, ◌++◌, arith,
}
use native.Mathlib.Nat.{zero-add, add-zero, suc-add}
use z_engine.Net.Wire.{
  ByteOrder, little_endian, big_endian, Bytes, IsBytes, put, get, to_uint, to_int, IsInt, get-put,
  put-get, int32-uint32, int64-uint64, uint32-int32, uint64-int64, uint32-lt, uint64-lt,
  int32-IsInt, int64-IsInt, get-lt,
}
use z_engine.Net.Packet.{NetPacket, IsPacket, slice, read_fields, header_bytes}

-- A field that `put` wrote is read back.
pub signed32 : (o : ByteOrder) (z : ℤ) → IsInt 32 z → to_int 32 (get o (put o 4 (to_uint 32 z))) ≡ z
signed32 o z h = ap (to_int 32) (get-put o 4 (to_uint 32 z) (uint32-lt z)) ∙ int32-uint32 z h

pub signed64 : (o : ByteOrder) (z : ℤ) → IsInt 64 z → to_int 64 (get o (put o 8 (to_uint 64 z))) ≡ z
signed64 o z h = ap (to_int 64) (get-put o 8 (to_uint 64 z) (uint64-lt z)) ∙ int64-uint64 z h

-- Where seven pieces of a byte string are the encodings of the header fields, the header reads
-- back as the packet that was written.
pub read_fields-header :
    (o : ByteOrder) (p : NetPacket) (payload rest : Bytes)
    → IsPacket p
    → read_fields o payload (header_bytes o p ++ rest) ≡ record p { payload = payload }
unfolding read_fields header_bytes put
read_fields-header little_endian p payload rest v = λ i. record {
  proto_id = signed32 little_endian p.proto_id v.proto_id i;
  version = signed32 little_endian p.version v.version i;
  data_size = signed32 little_endian p.data_size v.data_size i;
  is_compressed = signed32 little_endian p.is_compressed v.is_compressed i;
  sequence = get-put little_endian 8 p.sequence v.sequence i;
  timestamp = signed64 little_endian p.timestamp v.timestamp i;
  key_id = get-put little_endian 4 p.key_id v.key_id i;
  payload = payload;
}
read_fields-header big_endian p payload rest v = λ i. record {
  proto_id = signed32 big_endian p.proto_id v.proto_id i;
  version = signed32 big_endian p.version v.version i;
  data_size = signed32 big_endian p.data_size v.data_size i;
  is_compressed = signed32 big_endian p.is_compressed v.is_compressed i;
  sequence = get-put big_endian 8 p.sequence v.sequence i;
  timestamp = signed64 big_endian p.timestamp v.timestamp i;
  key_id = get-put big_endian 4 p.key_id v.key_id i;
  payload = payload;
}

pub length-header_bytes : (o : ByteOrder) (p : NetPacket) → length (header_bytes o p) ≡ 36
unfolding header_bytes put
length-header_bytes little_endian p = refl
length-header_bytes big_endian p = refl

pub take-header :
    (o : ByteOrder) (p : NetPacket) (rest : Bytes)
    → slice 0 36 (header_bytes o p ++ rest) ≡ header_bytes o p
unfolding header_bytes put
take-header little_endian p rest = refl
take-header big_endian p rest = refl

pub drop-header :
    (o : ByteOrder) (p : NetPacket) (rest : Bytes) → drop 36 (header_bytes o p ++ rest) ≡ rest
unfolding header_bytes put
drop-header little_endian p rest = refl
drop-header big_endian p rest = refl

join_take : (n m : ℕ) (xs : Bytes) → take n xs ++ take m (drop n xs) ≡ take (n + m) xs
join_take zero m xs = rw zero-add
join_take (suc n) zero [] = rw add-zero
join_take (suc n) (suc m) [] = rw suc-add
join_take (suc n) m (x ∷ xs) = rw suc-add (ap (◌∷◌ x) (join_take n m xs))

drop-drop : (n m : ℕ) (xs : Bytes) → drop m (drop n xs) ≡ drop (n + m) xs
drop-drop zero m xs = rw zero-add
drop-drop (suc n) zero [] = rw add-zero
drop-drop (suc n) (suc m) [] = rw suc-add
drop-drop (suc n) m (x ∷ xs) = rw suc-add (drop-drop n m xs)

-- Two neighbouring pieces are one piece.
pub join :
    (a n m : ℕ) (xs : Bytes)
    → take n (drop a xs) ++ take m (drop (a + n) xs) ≡ take (n + m) (drop a xs)
join a n m xs = rw (← drop-drop a n xs) (join_take n m (drop a xs))

join_pieces :
    (xs : Bytes)
    → slice 0 4 xs
        ++ (slice 4 8 xs
            ++ (slice 8 12 xs
                ++ (slice 12 16 xs ++ (slice 16 24 xs ++ (slice 24 32 xs ++ slice 32 36 xs)))))
      ≡ slice 0 36 xs
join_pieces xs = rw (join 24 8 4 xs) (
    rw (join 16 8 12 xs)
      (rw (join 12 4 20 xs) (rw (join 8 4 24 xs) (rw (join 4 4 28 xs) (join 0 4 32 xs)))))

pub take-IsBytes : (n : ℕ) (xs : Bytes) → IsBytes xs → IsBytes (take n xs)
take-IsBytes zero xs h = tt
take-IsBytes (suc n) [] h = tt
take-IsBytes (suc n) (x ∷ xs) h = (h.0, take-IsBytes n xs h.1)

pub drop-IsBytes : (n : ℕ) (xs : Bytes) → IsBytes xs → IsBytes (drop n xs)
drop-IsBytes zero xs h = h
drop-IsBytes (suc n) [] h = tt
drop-IsBytes (suc n) (x ∷ xs) h = drop-IsBytes n xs h.1

piece-IsBytes : (a n : ℕ) (xs : Bytes) → IsBytes xs → IsBytes (take n (drop a xs))
piece-IsBytes a n xs h = take-IsBytes n (drop a xs) (drop-IsBytes a xs h)

length-piece : (a n : ℕ) (xs : Bytes) → a + n ≤ length xs → length (take n (drop a xs)) ≡ n
length-piece a n xs h = omega (arith, length-take n (drop a xs), length-drop a xs)

module _ (o : ByteOrder) (xs : Bytes) (v : IsBytes xs) where
  pub value-lt : (a n : ℕ) → a + n ≤ length xs → get o (take n (drop a xs)) < 256 ^ n
  value-lt a n h =
      subst (λ k. get o (take n (drop a xs)) < 256 ^ k) (length-piece a n xs h)
        (get-lt o (take n (drop a xs)) (piece-IsBytes a n xs v))

  pub put-get_piece :
      (a n : ℕ) → a + n ≤ length xs → put o n (get o (take n (drop a xs))) ≡ take n (drop a xs)
  put-get_piece a n h =
      subst (λ k. put o k (get o (take n (drop a xs))) ≡ take n (drop a xs)) (length-piece a n xs h)
        (put-get o (take n (drop a xs)) (piece-IsBytes a n xs v))

  pub piece32 :
      (a : ℕ)
      → a + 4 ≤ length xs
      → put o 4 (to_uint 32 (to_int 32 (get o (take 4 (drop a xs))))) ≡ take 4 (drop a xs)
  piece32 a h = ap (put o 4) (uint32-int32 _ (value-lt a 4 h)) ∙ put-get_piece a 4 h

  piece64 :
      (a : ℕ)
      → a + 8 ≤ length xs
      → put o 8 (to_uint 64 (to_int 64 (get o (take 8 (drop a xs))))) ≡ take 8 (drop a xs)
  piece64 a h = ap (put o 8) (uint64-int64 _ (value-lt a 8 h)) ∙ put-get_piece a 8 h

  -- Writing the fields that were read restores the header's bytes.
  pub header-read_fields :
      (payload : Bytes) → 36 ≤ length xs → header_bytes o (read_fields o payload xs) ≡ slice 0 36 xs
  unfolding header_bytes read_fields
  header-read_fields payload h =
      rw
        (
          piece32 0 (omega arith),
          piece32 4 (omega arith),
          piece32 8 (omega arith),
          piece32 12 (omega arith),
          put-get_piece 16 8 (omega arith),
          piece64 24 (omega arith),
          put-get_piece 32 4 (omega arith),
        )
        (join_pieces xs)

  pub read_fields-IsPacket :
      (payload : Bytes) → IsBytes payload → 36 ≤ length xs → IsPacket (read_fields o payload xs)
  unfolding read_fields
  read_fields-IsPacket payload w h = record {
    sequence = value-lt 16 8 (omega arith);
    timestamp = int64-IsInt _;
    proto_id = int32-IsInt _;
    data_size = int32-IsInt _;
    version = int32-IsInt _;
    is_compressed = int32-IsInt _;
    key_id = value-lt 32 4 (omega arith);
    payload = w;
  }
