-- ===== src/Container/Memory/Copy.antt =====
-- What a copy writes, and what the doubling loop finds.
use guage.Prelude.{
  ℕ, zero, suc, ◌+◌, ◌*◌, ◌%◌, ◌^◌, ◌≤◌, ◌<◌, dec_lt, ◌≡◌, refl, sym, ap, ◌∙◌, ◌≢◌, inl, inr, true,
  false, some, List, ◌++◌, arith, ltb, ltb→lt, Bool-cases, length, get_or, take, drop,
  length-append, length-take, length-drop, get_or-append_left, get_or-append_right, get_or-take,
  get_or-drop,
}
use native.Mathlib.Nat.{mod-eq_of_lt, pow-suc}
use guage.Prelude.Modular.{pow_le}
use guage.Container.Memory.{memcpy, round_up}

module _ {ℓ} {A : Type ℓ} (dst src : List A) (at from n : ℕ) (inside : at + n ≤ length dst)
    (read : from + n ≤ length src) where
  abbrev chunk : List A
  chunk = take n (drop from src)

  length-chunk : length chunk ≡ n
  length-chunk = omega (arith, length-take n (drop from src), length-drop from src)

  length-at : length (take at dst) ≡ at
  length-at = omega (arith, length-take at dst)

  pub length-memcpy : length (memcpy dst at src from n) ≡ length dst
  length-memcpy = omega (
    arith,
    length-chunk,
    length-at,
    length-append (take at dst) (chunk ++ drop (at + length chunk) dst),
    length-append chunk (drop (at + length chunk) dst),
    length-drop (at + length chunk) dst,
  )

  pub memcpy_below :
      (j : ℕ) (d : A) → j < at → get_or (memcpy dst at src from n) j d ≡ get_or dst j d
  memcpy_below j d h =
      get_or-append_left (take at dst) _ j d (omega (arith, length-at)) ∙ get_or-take at dst j d h

  memcpy_shift :
      (j : ℕ) (d : A)
      → get_or (memcpy dst at src from n) (at + j) d
        ≡ get_or (chunk ++ drop (at + length chunk) dst) j d
  memcpy_shift j d =
      ap (λ k. get_or (take at dst ++ (chunk ++ drop (at + length chunk) dst)) (k + j) d)
        (sym length-at)
      ∙ get_or-append_right (take at dst) (chunk ++ drop (at + length chunk) dst) j d

  pub memcpy_inside :
      (j : ℕ) (d : A)
      → j < n
      → get_or (memcpy dst at src from n) (at + j) d ≡ get_or src (from + j) d
  memcpy_inside j d h =
      memcpy_shift j d
      ∙ get_or-append_left chunk _ j d (omega (arith, length-chunk))
      ∙ get_or-take n (drop from src) j d h
      ∙ get_or-drop from src j d

double : (k : ℕ) → k < 31 → 2 ^ k * 2 % 2 ^ 32 ≡ 2 ^ suc k
double k h =
    mod-eq_of_lt (omega (arith, pow_le (suc k) 31 h, pow-suc 2 k)) ∙ omega (arith, pow-suc 2 k)

ltb-last : (k : ℕ) → k ≡ 31 → (wanted : ℕ) → wanted ≤ 2 ^ 31 → ltb (2 ^ k) wanted ≢ true
ltb-last k e wanted w small = omega (arith, ltb→lt (2 ^ k) wanted small, ap (λ n. 2 ^ n) e)

ltb-false : (k wanted : ℕ) → ltb (2 ^ k) wanted ≡ false → wanted ≤ 2 ^ k
ltb-false k wanted h = ground arith

-- Started at a power of two, the loop stops with the least one that is big enough: 32 rounds do
-- for every request up to 2 ^ 31.
pub round_up_lem :
    (rounds k wanted : ℕ)
    → k ≤ 31
    → wanted ≤ 2 ^ 31
    → 31 < k + rounds
    → (m : ℕ) × (round_up rounds (2 ^ k) wanted ≡ some (2 ^ m))
      × (k ≤ m)
      × (m ≤ 31)
      × (wanted ≤ 2 ^ m)
unfolding round_up
round_up_lem zero k wanted h w r = absurd (omega arith)
round_up_lem (suc rounds) k wanted h w r = elim (Bool-cases (ltb (2 ^ k) wanted)) [
  | inl small ↦
      let below : k < 31 = elim (dec_lt k 31) [
        | yes p ↦ p
        | no p ↦ absurd (ltb-last k (omega arith) wanted w small)
      ] in
      let (m, e, le, top, enough) = round_up_lem rounds (suc k) wanted below w (omega arith) in
      (m, rw (small, double k below) e, omega (arith, le), top, enough)
  | inr big ↦ (k, rw big refl, omega arith, h, ltb-false k wanted big)
]
