-- ===== src/Net/Replay/Freshness.antt =====
-- The timestamp test of `ValidateSequence`, zNet/key_rotation.go, in 64-bit arithmetic.
use z_engine.Common.{ℤ, pos, negsuc, ◌≤ℤ◌, ◌+ℤ◌, ℕ, ◌^◌, ◌<◌, ◌≡◌, ◌↔◌, ◌⊎◌, true, arith}
use z_engine.Net.Wire.{IsInt, to_uint, to_int}
use z_engine.Net.Replay.{is_fresh}

-- A packet passes exactly if it has no timestamp, if its timestamp is within the tolerance of the
-- clock, or if it lies 2^63 seconds before it: that difference wraps around to the one negative
-- number that has no opposite. The clock is not before 1970, the tolerance is not
-- negative, and both are below 2^62.
pub is_fresh_iff :
    (tolerance now : ℕ) (timestamp : ℤ)
    → tolerance < 2 ^ 62
    → now < 2 ^ 62
    → IsInt 64 timestamp
    → (is_fresh (pos tolerance) (pos now) timestamp ≡ true) ↔ (
        (timestamp ≡ pos 0)
        ⊎ (((timestamp ≤ℤ (pos now +ℤ pos tolerance)) × (pos now ≤ℤ (timestamp +ℤ pos tolerance)))
            ⊎ (timestamp +ℤ pos (2 ^ 63) ≡ pos now)))
unfolding is_fresh to_uint to_int ◌+ℤ◌
is_fresh_iff tolerance now (pos t) ht hn h = (λ k. ground arith, λ k. ground arith)
is_fresh_iff tolerance now (negsuc t) ht hn h = (λ k. ground arith, λ k. ground arith)
