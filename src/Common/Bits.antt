-- ===== src/Common/Bits.antt =====
-- Masks: Go's `a & b` and `a &^ b` on unsigned integers.
use Prim.Native.Nat.{
  ℕ, zero, suc, ◌+◌, ◌-◌, ◌*◌, ◌/◌, ◌%◌, ◌≤◌, min, bit_and, digits, bit_and-bitwise,
}
use mathlib.Core.Path.{◌≡◌, refl, sym, ◌∙◌}
use native.Mathlib.Omega.{arith}

-- `a &^ b` clears in `a` the bits of `b`.
abbrev pub bit_clear : ℕ → ℕ → ℕ
bit_clear a b = a - bit_and a b

-- The common bits of two numbers, for n digits.
meet : ℕ → ℕ → ℕ → ℕ
meet zero a b = 0
meet (suc n) a b = meet n (a / 2) (b / 2) * 2 + min (a % 2) (b % 2)

meet_of_zero : (n b : ℕ) → meet n 0 b ≡ 0
unfolding meet
meet_of_zero zero b = refl
meet_of_zero (suc n) b = omega (arith, meet_of_zero n (b / 2))

digits-meet : (n m a b : ℕ) → a ≤ n → a ≤ m → digits (λ x. zero) min n a b ≡ meet m a b
unfolding meet
digits-meet zero m zero b h k = sym (meet_of_zero m b)
digits-meet zero m (suc a) b h k = absurd (omega arith)
digits-meet (suc n) m zero b h k = sym (meet_of_zero m b)
digits-meet (suc n) zero (suc a) b h k = absurd (omega arith)
digits-meet (suc n) (suc m) (suc a) b h k =
    omega (arith, digits-meet n m (suc a / 2) (b / 2) (omega arith) (omega arith))

bit_and-meet : (m a b : ℕ) → a ≤ m → bit_and a b ≡ meet m a b
bit_and-meet m a b h = bit_and-bitwise a b ∙ digits-meet a m a b (omega arith) h

meet_comm : (n a b : ℕ) → meet n a b ≡ meet n b a
unfolding meet
meet_comm zero a b = refl
meet_comm (suc n) a b = omega (arith, meet_comm n (a / 2) (b / 2))

meet-le : (n a b : ℕ) → meet n a b ≤ a
unfolding meet
meet-le zero a b = omega arith
meet-le (suc n) a b = omega (arith, meet-le n (a / 2) (b / 2))

pub bit_and_comm : (a b : ℕ) → bit_and a b ≡ bit_and b a
bit_and_comm a b =
    bit_and-meet (a + b) a b (omega arith)
    ∙ meet_comm (a + b) a b
    ∙ sym (bit_and-meet (a + b) b a (omega arith))

pub bit_and-le : (a b : ℕ) → bit_and a b ≤ a
bit_and-le a b = omega (arith, bit_and-meet a a b (omega arith), meet-le a a b)

-- The lowest bit.
pub bit_and_one_le : (a : ℕ) → bit_and a 1 ≤ 1
bit_and_one_le a = omega (arith, bit_and_comm a 1, bit_and-le 1 a)
