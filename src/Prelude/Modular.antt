-- ===== src/Prelude/Modular.antt =====
-- Positions in ring buffers: remainders by the capacity, and machine words that wrap.
use Prim.Native.Nat.{ℕ, zero, suc, ◌+◌, ◌-◌, ◌*◌, ◌%◌, ◌^◌, ◌≤◌, ◌<◌, ◌∣◌}
use mathlib.Core.Path.{◌≡◌, ap, ◌∙◌, sym, subst}
use mathlib.Core.Logic.{◌≢◌}
use native.Mathlib.Nat.{pow-suc, mod-mod_of_dvd, div-add-mod, zero-add, suc-add, dvd-mul_left}
use native.Mathlib.Omega.{arith}
use guage.Prelude.Bits.{pow_pos}

pub pow_split : (j k : ℕ) → 2 ^ (j + k) ≡ 2 ^ j * 2 ^ k
pow_split zero k = rw (zero-add) (omega arith)
pow_split (suc j) k = rw suc-add (grind (arith, pow-suc 2 (j + k), pow-suc 2 j, pow_split j k))

-- A word that wraps at a multiple of the capacity keeps its slot.
pub wrap_mod : (k w a : ℕ) → k ≤ w → a % 2 ^ w % 2 ^ k ≡ a % 2 ^ k
wrap_mod k w a h =
    mod-mod_of_dvd (2 ^ k) a
      (subst (λ n. 2 ^ k ∣ n) (sym split) (dvd-mul_left (2 ^ k) (2 ^ (w - k))))
  where
    split : 2 ^ w ≡ 2 ^ (w - k) * 2 ^ k
    split = ap (λ n. 2 ^ n) (omega arith) ∙ pow_split (w - k) k

-- Fewer than `c` steps do not come back to the same slot.
pub slots_apart : (c h i j : ℕ) → i < j → j < i + c → (h + i) % c ≢ (h + j) % c
slots_apart c h i j p q e = grind (arith, div-add-mod (h + i) c, div-add-mod (h + j) c)

pub pow_le : (k w : ℕ) → k ≤ w → 2 ^ k ≤ 2 ^ w
pow_le k w h = rw (split) (grind (arith, pow_pos (w - k)))
  where
    split : 2 ^ w ≡ 2 ^ (w - k) * 2 ^ k
    split = ap (λ n. 2 ^ n) (omega arith) ∙ pow_split (w - k) k
