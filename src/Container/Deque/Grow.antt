-- ===== src/Container/Deque/Grow.antt =====
-- Growing a full deque: what the new buffer holds.
use guage.Prelude.{
  ℕ, suc, ◌+◌, ◌-◌, ◌*◌, ◌%◌, ◌^◌, ◌≤◌, ◌<◌, dec_lt, ◌≡◌, sym, ap, ap₂, ◌∙◌, inl, inr, Option, none,
  List, arith, ◌==◌, ==_iff, Bool-cases, length, get_or, replicate, length-replicate,
}
use mathlib.Core.Path.{subst}
use native.Mathlib.Nat.{mod-add-mod, mod-eq_of_lt, mod-eq-sub-mod, zero-add, pow-suc}
use guage.Container.Memory.{memcpy}
use guage.Container.Memory.Copy.{length-memcpy, memcpy_below, memcpy_inside}
use guage.Container.Deque.{Deque, deque_idx, unwrapped, make_room, u32, deque_grow, cell_deque_size}
use guage.Container.Deque.Refines.{slot, Holds, capacity_pos, idx_mod, idx_wrap, tail_eq}

module _ {ℓ} {C : Type ℓ} (d : Deque C) (l : List (Option C)) (h : Holds d l)
    (full : length l ≡ d.capacity) where
  abbrev home : ℕ
  home = d.head % d.capacity

  home_lt : home < d.capacity
  home_lt = omega (arith, capacity_pos h)

  head_at : deque_idx d.head d.capacity ≡ home
  head_at = idx_mod h d.head

  -- A full ring begins and ends in the same slot.
  tail_at : deque_idx d.tail d.capacity ≡ home
  tail_at = rw (tail_eq h) (
      idx_wrap h (d.head + length l)
      ∙ rw full (mod-eq-sub-mod (omega arith) ∙ ap (λ k. k % d.capacity) (omega arith)))

  abbrev chunks : ℕ → List (Option C)
  chunks new_cap =
      memcpy (memcpy (replicate new_cap none) 0 d.buffer home (d.capacity - home))
        (d.capacity - home) d.buffer 0 home

  unwrapped_lem : (new_cap : ℕ) → unwrapped d new_cap ≡ chunks new_cap
  unfolding unwrapped
  unwrapped_lem new_cap = rw (head_at, tail_at, h.counted) (ground (arith, capacity_pos h))

  module _ (new_cap : ℕ) (big : d.capacity ≤ new_cap) where
    abbrev first : List (Option C)
    first = memcpy (replicate new_cap none) 0 d.buffer home (d.capacity - home)

    abbrev empty : List (Option C)
    empty = replicate new_cap none

    length-empty : length empty ≡ new_cap
    length-empty = length-replicate new_cap none

    fits₀ : 0 + (d.capacity - home) ≤ length empty
    fits₀ = omega (arith, length-empty)

    reads₀ : home + (d.capacity - home) ≤ length d.buffer
    reads₀ = omega (arith, home_lt, h.width)

    length-first : length first ≡ new_cap
    length-first =
        length-memcpy (replicate new_cap none) d.buffer 0 home (d.capacity - home) fits₀ reads₀
        ∙ length-empty

    fits₁ : d.capacity - home + home ≤ length first
    fits₁ = omega (arith, home_lt, length-first)

    reads₁ : 0 + home ≤ length d.buffer
    reads₁ = omega (arith, home_lt, h.width)

    pub length-chunks : length (chunks new_cap) ≡ new_cap
    length-chunks =
        length-memcpy first d.buffer (d.capacity - home) 0 home fits₁ reads₁ ∙ length-first

    early : (j : ℕ) → j < d.capacity - home → get_or (chunks new_cap) j none ≡ slot d j
    early j q =
        memcpy_below first d.buffer (d.capacity - home) 0 home fits₁ reads₁ j none q
        ∙ ap (λ k. get_or first k none) (sym (zero-add j))
        ∙ memcpy_inside empty d.buffer 0 home (d.capacity - home) fits₀ reads₀ j none q
        ∙ ap (λ k. get_or d.buffer k none)
            (sym (mod-eq_of_lt (omega (arith, q, home_lt))) ∙ mod-add-mod d.head d.capacity j)

    late_at : (i : ℕ) → i < home → 0 + i ≡ (d.head + (d.capacity - home + i)) % d.capacity
    late_at i q = sym (
        sym (mod-add-mod d.head d.capacity (d.capacity - home + i))
        ∙ mod-eq-sub-mod (omega (arith, home_lt))
        ∙ mod-eq_of_lt (omega (arith, home_lt))
        ∙ omega (arith, home_lt))

    late :
        (i : ℕ)
        → i < home
        → get_or (chunks new_cap) (d.capacity - home + i) none ≡ slot d (d.capacity - home + i)
    late i q =
        memcpy_inside first d.buffer (d.capacity - home) 0 home fits₁ reads₁ i none q
        ∙ ap (λ k. get_or d.buffer k none) (late_at i q)

    pub chunks_items : (j : ℕ) → j < d.capacity → get_or (chunks new_cap) j none ≡ slot d j
    chunks_items j p = elim (dec_lt j (d.capacity - home)) [
      | yes q ↦ early j q
      | no q ↦
          subst (λ k. get_or (chunks new_cap) k none ≡ slot d k) (omega (arith, home_lt))
            (late (j - (d.capacity - home)) (omega (arith, home_lt)))
    ]

module _ {ℓ} {C : Type ℓ} (d : Deque C) (l : List (Option C)) (h : Holds d l)
    (few : length l < 2 ^ 31) where
  module _ (full : length l ≡ d.capacity) where
    exponent_lt : h.exponent < 31
    exponent_lt = elim (dec_lt (h.exponent) 31) [
      | yes p ↦ p
      | no p ↦
          let top : h.exponent ≡ 31 = omega (arith, h.exponent_max) in
          absurd (omega (arith, h.power, few, ap (λ n. 2 ^ n) top))
    ]

    doubled : d.capacity * 2 % u32 ≡ d.capacity * 2
    doubled = mod-eq_of_lt (omega arith)

    grown : Holds (deque_grow d) l
    unfolding deque_grow
    grown = record {
      exponent = suc h.exponent;
      power = doubled ∙ omega (arith, pow-suc 2 h.exponent, h.power);
      exponent_min = omega (arith, h.exponent_min);
      exponent_max = exponent_lt;
      width = ap length (unwrapped_lem d l h full _) ∙ length-chunks d l h full _ big;
      head_word = omega arith;
      tail_word = omega (arith, h.counted);
      counted = omega (arith, h.counted);
      fits = omega (arith, doubled);
      items = items;
    }
      where
        big : d.capacity ≤ d.capacity * 2 % u32
        big = omega (arith, doubled)

        slot_eq : (j : ℕ) → j < d.capacity * 2 % u32 → (0 + j) % (d.capacity * 2 % u32) ≡ j
        slot_eq j p = ap (λ k. k % (d.capacity * 2 % u32)) (zero-add j) ∙ mod-eq_of_lt p

        items :
            (j : ℕ)
            → j < length l
            → get_or (unwrapped d (d.capacity * 2 % u32)) ((0 + j) % (d.capacity * 2 % u32)) none
              ≡ get_or l j none
        items j p =
            ap₂ (λ b k. get_or b k none) (unwrapped_lem d l h full _)
              (slot_eq j (omega (arith, doubled)))
            ∙ chunks_items d l h full _ big j (omega arith)
            ∙ h.items j p

  -- After the growth test there is room for one more cell.
  pub make_room-Holds : Holds (make_room d) l × (length l < (make_room d).capacity)
  unfolding make_room deque_grow
  make_room-Holds = elim (Bool-cases (cell_deque_size d == d.capacity)) [
    | inl e ↦
        let full : length l ≡ d.capacity = sym h.counted ∙ (==_iff _ _).0 e in
        rw e (grown full, omega (arith, h.counted, doubled full, capacity_pos h))
    | inr e ↦ rw e (h, ground (arith, h.counted, h.fits))
  ]
