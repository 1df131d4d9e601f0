-- ===== src/Container/Memory.antt =====
-- `memcpy` and the growth of a capacity by doubling, which the containers share.
pub mod Copy
use guage.Prelude.{
  ℕ, zero, suc, ◌+◌, ◌*◌, ◌%◌, ◌^◌, Option, none, some, List, ◌++◌, ltb, if◌then◌else◌, length,
  take, drop,
}

-- `memcpy(dst + at, src + from, n * size)`
abbrev pub memcpy {ℓ} : {A : Type ℓ} → List A → ℕ → List A → ℕ → ℕ → List A
memcpy dst at src from n =
    take at dst ++ (take n (drop from src) ++ drop (at + length (take n (drop from src))) dst)

-- `while (cap < wanted) cap <<= 1;` on a `uint32_t`, by rounds. `none`: still running.
pub round_up : ℕ → ℕ → ℕ → Option ℕ
round_up zero cap wanted = none
round_up (suc rounds) cap wanted =
    let rest = round_up rounds (cap * 2 % 2 ^ 32) wanted in
    if ltb cap wanted then rest else some cap
