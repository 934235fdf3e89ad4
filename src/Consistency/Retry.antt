-- ===== src/Consistency/Retry.antt =====
-- `retryDelay` of zConsistency/store_v2.go: the back-off of a message that is sent again.
use z_engine.Common.{
  if◌then◌else◌, pos, negsuc, ltb_ℤ, leb_ℤ, ℕ, zero, suc, ◌+◌, ◌*◌, ◌/◌, ◌^◌, ◌≤◌, ◌<◌, min, ◌≡◌,
  ap, ◌&&◌, arith,
}
use z_engine.Net.Wire.{to_uint, to_int}
use z_engine.Consistency.Contract.{Duration}
use native.Mathlib.Nat.{pow-suc}
use native.Mathlib.Decide.{dec_lt}

-- `maximum / 2` of a positive duration, and `delay *= 2` on `int64`.
abbrev half : Duration → Duration
half (pos n) = pos (n / 2)
half (negsuc n) = pos 0

twice : Duration → Duration
twice d = to_int 64 (2 * to_uint 64 d)

-- The loop, with the rounds left; `none` is the end of the loop with no early return.
pub backoff : Duration → Duration → ℕ → Duration
unfolding twice
backoff delay maximum zero = if ltb_ℤ (pos 0) maximum && ltb_ℤ maximum delay then maximum else delay
backoff delay maximum (suc n) =
    let rest = backoff (twice delay) maximum n in
    if ltb_ℤ (pos 0) maximum && leb_ℤ (half maximum) delay then maximum else rest

-- `retryDelay`; a negative number of attempts is none.
unfoldable pub retry_delay : Duration → Duration → ℕ → Duration
unfolding backoff
retry_delay base maximum attempts =
    if leb_ℤ base (pos 0) then pos 0 else backoff base maximum attempts

twice-pos : (n : ℕ) → 2 * n < 2 ^ 63 → twice (pos n) ≡ pos (2 * n)
unfolding twice to_int to_uint
twice-pos n h = ground arith

double_pow : (d n : ℕ) → 2 * d * 2 ^ n ≡ d * 2 ^ suc n
double_pow d n = omega (arith, ap (λ (t : ℕ). d * t) (pow-suc 2 n))

le_double : (d n : ℕ) → d ≤ d * 2 ^ n
le_double d zero = omega arith
le_double d (suc n) = omega (arith, le_double d n, double_pow d n)

-- The delay of a loop: with a positive maximum the doubling stays below it, and never overflows.
record Delay (d m n : ℕ) (z : Duration) : Type 0 where
  value : ℕ
  is_value : z ≡ pos value
  at_most : value ≤ min (d * 2 ^ n + 1) m
  at_least : min (d * 2 ^ n) m ≤ value

backoff-Delay :
    (n d m : ℕ) → 0 < m → m < 2 ^ 63 → d < 2 ^ 63 → Delay d m n (backoff (pos d) (pos m) n)
unfolding backoff
backoff-Delay zero d m hm h k = record {
  value = min d m;
  is_value = ground arith;
  at_most = omega arith;
  at_least = omega arith;
}
backoff-Delay (suc n) d m hm h k = elim (dec_lt d (m / 2)) [
  | yes below ↦
      let r = backoff-Delay n (2 * d) m hm h (omega arith) in
      record {
        value = r.value;
        is_value = ground (arith, twice-pos d, r.is_value);
        at_most = omega (arith, r.at_most, double_pow d n);
        at_least = omega (arith, r.at_least, double_pow d n);
      }
  | no above ↦ record {
    value = m;
    is_value = ground arith;
    at_most = omega (arith, le_double d n, double_pow d n);
    at_least = omega arith;
  }
]

-- With a positive base and maximum, the delay after n earlier attempts is base * 2^n, cut off at the
-- maximum; where that is one nanosecond short of the maximum, it may be the maximum. It is positive.
retry_delay_bounds :
    (base maximum n : ℕ)
    → 0 < base
    → 0 < maximum
    → base < 2 ^ 63
    → maximum < 2 ^ 63
    → (r : ℕ) × (retry_delay (pos base) (pos maximum) n ≡ pos r)
      × (0 < r)
      × (min (base * 2 ^ n) maximum ≤ r)
      × (r ≤ min (base * 2 ^ n + 1) maximum)
unfolding retry_delay
retry_delay_bounds base maximum n hb hm kb km =
    let d = backoff-Delay n base maximum hm km kb in
    (
      d.value,
      ground (arith, d.is_value),
      omega (arith, d.at_least, le_double base n),
      d.at_least,
      d.at_most,
    )
