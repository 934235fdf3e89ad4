-- ===== src/Net/Wire.antt =====
-- Fixed-width integers as bytes, the way `encoding/binary` of Go's standard library writes them,
-- and Go's conversions between signed and unsigned integers of one width.
use z_engine.Common.{
  ℕ, zero, suc, ◌+◌, ◌-◌, ◌*◌, ◌/◌, ◌%◌, ◌^◌, ◌<◌, ◌≡◌, refl, sym, ap, ◌∙◌, ℤ, pos, negsuc, List,
  [], ◌∷◌, reverse, All, length, length-append, ◌++◌, arith, ltb, if◌then◌else◌,
}
use native.Mathlib.Nat.{pow-suc}
use mathlib.Core.List.{reverse-reverse, reverse-cons}

-- `binary.ByteOrder`: `binary.LittleEndian` or `binary.BigEndian`.
pub data ByteOrder : Type 0 where
  little_endian big_endian : ByteOrder

-- A `[]byte`; every entry is below 256.
abbrev pub Bytes : Type 0
Bytes = List ℕ

abbrev pub IsBytes : Bytes → Type 0
IsBytes = All (λ b. b < 256)

-- `byte(v), byte(v >> 8), …`, the w bytes of `v` with the lowest first.
put_little : ℕ → ℕ → Bytes
put_little zero v = []
put_little (suc w) v = (v % 256) ∷ put_little w (v / 256)

get_little : Bytes → ℕ
get_little [] = 0
get_little (b ∷ bs) = b + 256 * get_little bs

-- `order.PutUint16`, `PutUint32` and `PutUint64` at w = 2, 4 and 8.
unfoldable pub put : ByteOrder → ℕ → ℕ → Bytes
unfolding put_little
put little_endian w v = put_little w v
put big_endian w v = reverse (put_little w v)

-- `order.Uint16`, `Uint32` and `Uint64`.
unfoldable pub get : ByteOrder → Bytes → ℕ
unfolding get_little
get little_endian bs = get_little bs
get big_endian bs = get_little (reverse bs)

-- `uintW(z)` of a signed integer, and `intW(n)` of an unsigned one, for W bits.
unfoldable pub to_uint : ℕ → ℤ → ℕ
to_uint w (pos n) = n % 2 ^ w
to_uint w (negsuc n) = 2 ^ w - 1 - n % 2 ^ w

unfoldable pub to_int : ℕ → ℕ → ℤ
to_int w n = let m = n % 2 ^ w in if ltb m (2 ^ (w - 1)) then pos m else negsuc (2 ^ w - 1 - m)

-- The values of `intW`.
abbrev pub IsInt : ℕ → ℤ → Type 0
IsInt w (pos n) = n < 2 ^ (w - 1)
IsInt w (negsuc n) = n < 2 ^ (w - 1)

get_little-put_little : (w v : ℕ) → v < 256 ^ w → get_little (put_little w v) ≡ v
unfolding get_little put_little
get_little-put_little zero v h = omega arith
get_little-put_little (suc w) v h =
    omega (arith, get_little-put_little w (v / 256) (omega (arith, pow-suc 256 w)))

put_little-get_little : (bs : Bytes) → IsBytes bs → put_little (length bs) (get_little bs) ≡ bs
unfolding get_little put_little
put_little-get_little [] h = refl
put_little-get_little (b ∷ bs) h = ground (arith, put_little-get_little bs h.1)

length-put_little : (w v : ℕ) → length (put_little w v) ≡ w
unfolding put_little
length-put_little zero v = refl
length-put_little (suc w) v = ap suc (length-put_little w (v / 256))

put_little-IsBytes : (w v : ℕ) → IsBytes (put_little w v)
unfolding put_little
put_little-IsBytes zero v = tt
put_little-IsBytes (suc w) v = (omega arith, put_little-IsBytes w (v / 256))

get_little-lt : (bs : Bytes) → IsBytes bs → get_little bs < 256 ^ length bs
unfolding get_little
get_little-lt [] h = omega arith
get_little-lt (b ∷ bs) h = omega (arith, get_little-lt bs h.1, pow-suc 256 (length bs), h.0)

IsBytes-append : (xs ys : Bytes) → IsBytes xs → IsBytes ys → IsBytes (xs ++ ys)
IsBytes-append [] ys hx hy = hy
IsBytes-append (x ∷ xs) ys hx hy = (hx.0, IsBytes-append xs ys hx.1 hy)

IsBytes-reverse : (bs : Bytes) → IsBytes bs → IsBytes (reverse bs)
IsBytes-reverse [] h = tt
IsBytes-reverse (b ∷ bs) h =
    rw (reverse-cons b bs) (IsBytes-append (reverse bs) (b ∷ []) (IsBytes-reverse bs h.1) (h.0, tt))

length-reverse : (bs : Bytes) → length (reverse bs) ≡ length bs
length-reverse [] = refl
length-reverse (b ∷ bs) =
    omega
      (arith, ap length (reverse-cons b bs), length-append (reverse bs) (b ∷ []), length-reverse bs)

-- What `PutUintN` writes, `UintN` reads back.
pub get-put : (o : ByteOrder) (w v : ℕ) → v < 256 ^ w → get o (put o w v) ≡ v
unfolding get put
get-put little_endian w v h = get_little-put_little w v h
get-put big_endian w v h = rw reverse-reverse (get_little-put_little w v h)

-- Reading w bytes and writing them back restores them.
pub put-get : (o : ByteOrder) (bs : Bytes) → IsBytes bs → put o (length bs) (get o bs) ≡ bs
unfolding get put
put-get little_endian bs h = put_little-get_little bs h
put-get big_endian bs h =
    ap reverse (
      ap (λ n. put_little n (get_little (reverse bs))) (sym (length-reverse bs))
      ∙ put_little-get_little (reverse bs) (IsBytes-reverse bs h))
    ∙ reverse-reverse bs

pub length-put : (o : ByteOrder) (w v : ℕ) → length (put o w v) ≡ w
unfolding put
length-put little_endian w v = length-put_little w v
length-put big_endian w v = length-reverse (put_little w v) ∙ length-put_little w v

pub put-IsBytes : (o : ByteOrder) (w v : ℕ) → IsBytes (put o w v)
unfolding put
put-IsBytes little_endian w v = put_little-IsBytes w v
put-IsBytes big_endian w v = IsBytes-reverse _ (put_little-IsBytes w v)

pub get-lt : (o : ByteOrder) (bs : Bytes) → IsBytes bs → get o bs < 256 ^ length bs
unfolding get
get-lt little_endian bs h = get_little-lt bs h
get-lt big_endian bs h =
    rw (← length-reverse bs) (get_little-lt (reverse bs) (IsBytes-reverse bs h))

-- The conversions at the two widths that the wire formats use.
pub int32-uint32 : (z : ℤ) → IsInt 32 z → to_int 32 (to_uint 32 z) ≡ z
unfolding to_int to_uint
int32-uint32 (pos n) h = ground arith
int32-uint32 (negsuc n) h = ground arith

pub int64-uint64 : (z : ℤ) → IsInt 64 z → to_int 64 (to_uint 64 z) ≡ z
unfolding to_int to_uint
int64-uint64 (pos n) h = ground arith
int64-uint64 (negsuc n) h = ground arith

pub uint32-int32 : (n : ℕ) → n < 2 ^ 32 → to_uint 32 (to_int 32 n) ≡ n
unfolding to_int to_uint
uint32-int32 n h = ground arith

pub uint64-int64 : (n : ℕ) → n < 2 ^ 64 → to_uint 64 (to_int 64 n) ≡ n
unfolding to_int to_uint
uint64-int64 n h = ground arith

pub uint32-lt : (z : ℤ) → to_uint 32 z < 256 ^ 4
unfolding to_uint
uint32-lt (pos n) = omega arith
uint32-lt (negsuc n) = omega arith

pub uint64-lt : (z : ℤ) → to_uint 64 z < 256 ^ 8
unfolding to_uint
uint64-lt (pos n) = omega arith
uint64-lt (negsuc n) = omega arith

pub int32-IsInt : (n : ℕ) → IsInt 32 (to_int 32 n)
unfolding to_int
int32-IsInt n = ground arith

pub int64-IsInt : (n : ℕ) → IsInt 64 (to_int 64 n)
unfolding to_int
int64-IsInt n = ground arith
