-- ===== src/Runtime/Channel/Power.antt =====
-- `next_pow2`: the shifts copy the highest digit of a number downwards.
use guage.Prelude.{
  ℕ, zero, suc, ◌+◌, ◌-◌, ◌*◌, ◌/◌, ◌%◌, ◌^◌, ◌≤◌, ◌<◌, dec_lt, ℕ_discrete, ◌≡◌, refl, sym, ap, ◌∙◌,
  false, arith, ltb,
}
use Prim.Native.Nat.{digits, max, bit_or, bit_or-bitwise}
use native.Mathlib.Nat.{pow-suc, div-add-mod, div-div-eq-div-mul, mul_comm, zero-div}
use guage.Runtime.Channel.{next_pow2}
use guage.Prelude.Bits.{pow_pos}
use guage.Prelude.Modular.{pow_split, pow_le}

-- What the digits of `x | (x >> m)` give, when `rounds` are enough for the digits of `x`.
smeared : ℕ → ℕ → ℕ → ℕ
smeared rounds x m = digits (λ b. b) max rounds x (x / 2 ^ m)

-- The `m` highest of `b` digits are 1.
record IsTop (b m x : ℕ) : Type 0 where
  pub low : 2 ^ b ≤ x + 2 ^ (b - m)
  pub high : x < 2 ^ b

pow_eq : (a b : ℕ) → a ≡ b → 2 ^ a ≡ 2 ^ b
pow_eq a b = ap (λ n. 2 ^ n)

half-IsTop : (b m x : ℕ) → IsTop (suc b) m x → IsTop b m (x / 2)
half-IsTop b m x t = elim (dec_lt b m) [
  | yes lt ↦
      let e : 2 ^ (suc b - m) ≡ 2 ^ 0 = pow_eq (suc b - m) 0 (omega arith) in
      let e' : 2 ^ (b - m) ≡ 2 ^ 0 = pow_eq (b - m) 0 (omega arith) in
      record {
        low = omega (arith, t.low, pow-suc 2 b, e, e');
        high = omega (arith, t.high, pow-suc 2 b);
      }
  | no ge ↦
      let e = pow_eq (suc b - m) (suc (b - m)) (omega arith) in
      record {
        low = omega (arith, t.low, pow-suc 2 b, e, pow-suc 2 (b - m));
        high = omega (arith, t.high, pow-suc 2 b);
      }
]

-- Just below a multiple of `m`, by no more than `m`.
below_multiple : (m q x : ℕ) → 0 < m → q ≤ m → m * q ≤ x + q → x < m * q → x / m + 1 ≡ q
below_multiple m q x pos small low high = grind (arith, div-add-mod x m)

-- Where the ones reach past the last digit after the shift, that digit is 1 in one of the two.
last_digit : (b m x : ℕ) → IsTop (suc b) m x → suc b ≤ m + m → max (x % 2) (x / 2 ^ m % 2) ≡ 1
last_digit b m x t h = elim (dec_lt b m) [
  | yes lt ↦
      let e : 2 ^ (suc b - m) ≡ 2 ^ 0 = pow_eq (suc b - m) 0 (omega arith) in
      let odd : x % 2 ≡ 1 = omega (arith, t.low, t.high, e, pow-suc 2 b) in omega arith
  | no ge ↦
      let e = pow_eq (suc b - m) (suc (b - m)) (omega arith) in
      let split = pow_eq (suc b) (m + (suc b - m)) (omega arith) ∙ pow_split m (suc b - m) in
      let q =
        below_multiple (2 ^ m) (2 ^ (suc b - m)) x (pow_pos m) (pow_le (suc b - m) m (omega arith))
          (omega (arith, t.low, split)) (omega (arith, t.high, split)) in
      let odd : x / 2 ^ m % 2 ≡ 1 = omega (arith, q, e, pow-suc 2 (b - m), pow_pos (b - m)) in
      omega arith
]

shift_half : (m x : ℕ) → x / 2 ^ m / 2 ≡ x / 2 / 2 ^ m
shift_half m x =
    div-div-eq-div-mul x (2 ^ m) 2
    ∙ ap (λ n. x / n) (mul_comm (2 ^ m) 2)
    ∙ sym (div-div-eq-div-mul x 2 (2 ^ m))

-- One digit more.
grown-IsTop :
    (b m y d : ℕ) → IsTop b m y → d ≤ 1 → (suc b ≤ m → d ≡ 1) → IsTop (suc b) m (y * 2 + d)
grown-IsTop b m y d t small full = elim (dec_lt b m) [
  | yes lt ↦
      let e = pow_eq (suc b - m) 0 (omega arith) in
      let e' = pow_eq (b - m) 0 (omega arith) in
      let one = full (omega arith) in
      record {
        low = omega (arith, t.low, e, e', pow-suc 2 b);
        high = omega (arith, t.high, pow-suc 2 b);
      }
  | no ge ↦
      let e = pow_eq (suc b - m) (suc (b - m)) (omega arith) in
      record {
        low = omega (arith, t.low, e, pow-suc 2 b, pow-suc 2 (b - m));
        high = omega (arith, t.high, pow-suc 2 b);
      }
]

digit_le : (x y : ℕ) → max (x % 2) (y % 2) ≤ 1
digit_le x y = omega arith

zero_shift : (m : ℕ) → 0 / 2 ^ m ≡ 0
zero_shift m = zero-div (2 ^ m)

zero-IsTop : (b m : ℕ) → IsTop b m 0 → IsTop b (m + m) 0
zero-IsTop zero m t = record { low = omega (arith, pow_pos (0 - (m + m))); high = t.high }
zero-IsTop (suc b) zero t = record { low = omega arith; high = t.high }
zero-IsTop (suc b) (suc m) t = absurd (
    let e = pow_eq (suc b - suc m) (b - m) (omega arith) in
    omega (arith, t.low, e, pow_le (b - m) b (omega arith), pow-suc 2 b, pow_pos b))

smeared-IsTop : (rounds b m x : ℕ) → x ≤ rounds → IsTop b m x → IsTop b (m + m) (smeared rounds x m)
unfolding smeared
smeared-IsTop zero b m zero enough t = rw (zero_shift m) (zero-IsTop b m t)
smeared-IsTop zero b m (suc x) enough t = absurd (omega arith)
smeared-IsTop (suc rounds) b m zero enough t = rw (zero_shift m) (zero-IsTop b m t)
smeared-IsTop (suc rounds) zero m (suc x) enough t = absurd (omega (arith, t.high))
smeared-IsTop (suc rounds) (suc b) m (suc x) enough t =
    let less = smeared-IsTop rounds b m (suc x / 2) (omega arith) (half-IsTop b m (suc x) t) in
    rw (shift_half m (suc x)) (
      grown-IsTop b (m + m) (smeared rounds (suc x / 2) m) (max (suc x % 2) (suc x / 2 ^ m % 2))
        less (digit_le (suc x) (suc x / 2 ^ m)) (last_digit b m (suc x) t))

or_shift-IsTop : (b m x : ℕ) → IsTop b m x → IsTop b (m + m) (bit_or x (x / 2 ^ m))
unfolding smeared
or_shift-IsTop b m x t = rw (bit_or-bitwise x (x / 2 ^ m)) (smeared-IsTop x b m x (omega arith) t)

-- Five shifts reach all digits of a word.
filled : (b x : ℕ) → b ≤ 31 → IsTop b 32 x → x + 1 ≡ 2 ^ b
filled b x h t = let e = pow_eq (b - 32) 0 (omega arith) in omega (arith, t.low, t.high, e)

-- The number of digits of `x`, less one.
top_digit : (rounds x : ℕ) → 0 < x → x ≤ rounds → (b : ℕ) × (2 ^ b ≤ x) × (x < 2 ^ suc b)
top_digit zero x pos enough = absurd (omega arith)
top_digit (suc rounds) x pos enough = elim (ℕ_discrete x 1) [
  | yes e ↦ (0, omega arith, omega arith)
  | no d ↦
      let (b, low, high) = top_digit rounds (x / 2) (omega arith) (omega arith) in
      (suc b, omega (arith, pow-suc 2 b), omega (arith, pow-suc 2 (suc b)))
]

-- The five shifts.
or_shifts : ℕ → ℕ
or_shifts v =
    let v = bit_or v (v / 2 ^ 1) in
    let v = bit_or v (v / 2 ^ 2) in
    let v = bit_or v (v / 2 ^ 4) in let v = bit_or v (v / 2 ^ 8) in bit_or v (v / 2 ^ 16)

or_shifts_lem : (b x : ℕ) → b < 31 → 2 ^ b ≤ x → x < 2 ^ suc b → or_shifts x + 1 ≡ 2 ^ suc b
unfolding or_shifts
or_shifts_lem b x h low high =
    let t₁ : IsTop (suc b) 1 x = record {
      low = omega (arith, pow-suc 2 b, pow_eq (suc b - 1) b (omega arith));
      high = high;
    } in
    let t₂ = or_shift-IsTop (suc b) 1 x t₁ in
    let t₄ = or_shift-IsTop (suc b) 2 _ t₂ in
    let t₈ = or_shift-IsTop (suc b) 4 _ t₄ in
    let t₁₆ = or_shift-IsTop (suc b) 8 _ t₈ in
    filled (suc b) _ (omega arith) (or_shift-IsTop (suc b) 16 _ t₁₆)

-- The test for 0 comes first: no shift changes it.
next_pow2-small : next_pow2 1 ≡ 2 ^ 1
unfolding next_pow2
next_pow2-small = refl

next_pow2-large : (b v : ℕ) → b < 31 → 2 ^ b < v → v ≤ 2 ^ suc b → next_pow2 v ≡ 2 ^ suc b
unfolding next_pow2 or_shifts
next_pow2-large b v h low high =
    let limit = pow_le (suc b) 31 (omega arith) in
    let less : (v + (2 ^ 32 - 1)) % 2 ^ 32 ≡ v - 1 = omega arith in
    let top = or_shifts_lem b (v - 1) h (omega arith) (omega arith) in
    let word : (or_shifts (v - 1) + 1) % 2 ^ 32 ≡ 2 ^ suc b = omega arith in
    let past : ltb (2 ^ suc b) 2 ≡ false = ground (arith, pow-suc 2 b, pow_pos b) in
    rw (less, word, past) refl

-- The least power of two from 2 on that is not less.
pub next_pow2-bounds :
    (v : ℕ)
    → 0 < v
    → v ≤ 2 ^ 31
    → (k : ℕ) × (0 < k) × (k ≤ 31) × (next_pow2 v ≡ 2 ^ k) × (v ≤ 2 ^ k) × (2 ^ k < v + v + 1)
next_pow2-bounds v pos small = elim (ℕ_discrete v 1) [
  | yes e ↦
      (1, omega arith, omega arith, ap next_pow2 e ∙ next_pow2-small, omega arith, omega arith)
  | no d ↦
      let (b, low, high) = top_digit v (v - 1) (omega arith) (omega arith) in
      let short : b < 31 = elim (dec_lt b 31) [
        | yes lt ↦ lt
        | no ge ↦ absurd (omega (arith, pow_le 31 b (omega arith)))
      ] in
      (
        suc b,
        omega arith,
        omega arith,
        next_pow2-large b v short (omega arith) (omega arith),
        omega arith,
        omega (arith, pow-suc 2 b),
      )
]
