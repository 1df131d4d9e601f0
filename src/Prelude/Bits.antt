-- ===== src/Prelude/Bits.antt =====
-- `x & (2 ^ k - 1)` is `x % 2 ^ k`: the masks of the ring buffers.
use Prim.Native.Nat.{
  ℕ, zero, suc, ◌-◌, ◌^◌, ◌+◌, ◌*◌, ◌%◌, ◌/◌, ◌<◌, ◌≤◌, bit_and, bit_and-bitwise, digits, min,
}
use mathlib.Core.Path.{◌≡◌, ap, ◌∙◌}
use native.Mathlib.Nat.{pow-suc}
use native.Mathlib.Omega.{arith}

pub pow_pos : (k : ℕ) → 0 < 2 ^ k
pow_pos zero = omega arith
pow_pos (suc k) = omega (arith, pow-suc 2 k, pow_pos k)

mod_double : (a c : ℕ) → 0 < c → a % (c * 2) ≡ a / 2 % c * 2 + a % 2
mod_double a c h = grind arith

-- Half of a mask is the next smaller mask, and its last digit is 1.
half_mask : (k : ℕ) → (2 ^ suc k - 1) / 2 ≡ 2 ^ k - 1
half_mask k = omega (arith, pow-suc 2 k, pow_pos k)

-- What the digits of a conjunction give, when `rounds` are enough for the digits of `x`.
masked : ℕ → ℕ → ℕ → ℕ
masked rounds x mask = digits (λ y. zero) min rounds x mask

masked_lem : (rounds k x : ℕ) → x ≤ rounds → masked rounds x (2 ^ k - 1) ≡ x % 2 ^ k
unfolding masked
masked_lem zero k zero enough = omega (arith, pow_pos k)
masked_lem zero k (suc x) enough = absurd (omega arith)
masked_lem (suc rounds) k zero enough = omega (arith, pow_pos k)
masked_lem (suc rounds) zero (suc x) enough =
    omega (arith, masked_lem rounds zero (suc x / 2) (omega arith))
masked_lem (suc rounds) (suc k) (suc x) enough = omega (
  arith,
  masked_lem rounds k (suc x / 2) (omega arith),
  ap (masked rounds (suc x / 2)) (half_mask k),
  mod_double (suc x) (2 ^ k) (pow_pos k),
  ap (λ m. suc x % m) (pow-suc 2 k),
  pow-suc 2 k,
  pow_pos k,
)

pub bit_and_mask : (k a : ℕ) → bit_and a (2 ^ k - 1) ≡ a % 2 ^ k
unfolding masked
bit_and_mask k a = bit_and-bitwise a (2 ^ k - 1) ∙ masked_lem a k a (omega arith)
