-- ===== src/Container/Deque/Refines.antt =====
-- A deque stands for the list of its cells, front first.
use guage.Prelude.{
  ℕ, zero, suc, ◌+◌, ◌-◌, ◌%◌, ◌^◌, ◌≤◌, ◌<◌, dec_lt, ◌≡◌, sym, ap, ◌∙◌, Option, none, List, [],
  ◌∷◌, ◌++◌, arith, length, get_or, set, length-append, length-set, get_or-set_self, get_or-set_ne,
  get_or-append_left, get_or-append_last,
}
use native.Mathlib.Nat.{mod-add-mod, add-zero}
use guage.Prelude.Bits.{bit_and_mask, pow_pos}
use guage.Prelude.Modular.{wrap_mod, pow_le, slots_apart}
use guage.Container.Deque.{Deque, u32, deque_idx, cell_deque_size}

module _ {ℓ} {C : Type ℓ} where
  -- The slot of the `j`-th cell from the front.
  abbrev pub slot : Deque C → ℕ → Option C
  slot d j = get_or d.buffer ((d.head + j) % d.capacity) none

  -- `d` holds the cells of `l`. The capacity is a power of two from 8 to 2 ^ 31.
  pub record Holds (d : Deque C) (l : List (Option C)) : Type ℓ where
    pub exponent : ℕ
    pub power : d.capacity ≡ 2 ^ exponent
    pub exponent_min : 3 ≤ exponent
    pub exponent_max : exponent ≤ 31
    pub width : length d.buffer ≡ d.capacity
    pub head_word : d.head < u32
    pub tail_word : d.tail < u32
    pub counted : cell_deque_size d ≡ length l
    pub fits : length l ≤ d.capacity
    pub items : (j : ℕ) → j < length l → slot d j ≡ get_or l j none

  module _ {d : Deque C} {l : List (Option C)} (h : Holds d l) where
    pub capacity_pos : 0 < d.capacity
    capacity_pos = rw (h.power) (pow_pos h.exponent)

    pub idx_mod : (v : ℕ) → deque_idx v d.capacity ≡ v % d.capacity
    idx_mod v = rw (h.power) (bit_and_mask h.exponent v)

    pub wrap : (v : ℕ) → v % u32 % d.capacity ≡ v % d.capacity
    wrap v = rw (h.power) (wrap_mod h.exponent 32 v (omega (arith, h.exponent_max)))

    pub idx_wrap : (v : ℕ) → deque_idx (v % u32) d.capacity ≡ v % d.capacity
    idx_wrap v = idx_mod (v % u32) ∙ wrap v

    -- The tail is the head plus the number of cells, as words.
    pub tail_eq : d.tail ≡ (d.head + length l) % u32
    tail_eq = omega (arith, h.counted, h.head_word, h.tail_word)

    pub capacity_le : d.capacity ≤ 2 ^ 31
    capacity_le = rw (h.power) (pow_le h.exponent 31 h.exponent_max)

    pub add_word : (v j : ℕ) → (v % u32 + j) % d.capacity ≡ (v + j) % d.capacity
    add_word v j =
        sym (mod-add-mod (v % u32) d.capacity j)
        ∙ ap (λ k. (k + j) % d.capacity) (wrap v)
        ∙ mod-add-mod v d.capacity j

    back_one : (j : ℕ) → (d.head + u32 - 1 + suc j) % d.capacity ≡ (d.head + j) % d.capacity
    back_one j =
        sym (wrap (d.head + u32 - 1 + suc j))
        ∙ ap (λ k. k % d.capacity) (omega arith)
        ∙ wrap (d.head + j)

    pub slot_lt : (v : ℕ) → v % d.capacity < length d.buffer
    slot_lt v = omega (arith, h.width, capacity_pos)

  -- With room, a cell written at the tail is the last one.
  pub push_back_room :
      (d : Deque C) (l : List (Option C)) (v : Option C)
      → Holds d l
      → length l < d.capacity
      → Holds
          (record d {
            buffer = set d.buffer (deque_idx d.tail d.capacity) v;
            tail = (d.tail + 1) % u32;
          })
          (l ++ (v ∷ []))
  push_back_room d l v h room = record {
    exponent = h.exponent;
    power = h.power;
    exponent_min = h.exponent_min;
    exponent_max = h.exponent_max;
    width = length-set d.buffer _ v ∙ h.width;
    head_word = h.head_word;
    tail_word = omega arith;
    counted = omega (arith, capacity_le h, tail_eq h, h.head_word, length-append l (v ∷ []));
    fits = omega (arith, length-append l (v ∷ []));
    items = items;
  }
    where
      at : deque_idx d.tail d.capacity ≡ (d.head + length l) % d.capacity
      at = rw (tail_eq h) (idx_wrap h (d.head + length l))

      items :
          (j : ℕ)
          → j < length (l ++ (v ∷ []))
          → get_or (set d.buffer (deque_idx d.tail d.capacity) v) ((d.head + j) % d.capacity) none
            ≡ get_or (l ++ (v ∷ [])) j none
      items j p = rw at (elim (dec_lt j (length l)) [
        | yes q ↦
            get_or-set_ne d.buffer _ _ v none
              (λ e. slots_apart d.capacity d.head j (length l) q (omega arith) (sym e))
            ∙ h.items j q
            ∙ sym (get_or-append_left l (v ∷ []) j none q)
        | no q ↦
            let last : j ≡ length l = omega (arith, length-append l (v ∷ [])) in
            rw last (
              get_or-set_self d.buffer ((d.head + length l) % d.capacity) v none (slot_lt h _)
              ∙ sym (get_or-append_last l v none))
      ])

  -- With room, a cell written before the head is the first one.
  pub push_front_room :
      (d : Deque C) (l : List (Option C)) (v : Option C)
      → Holds d l
      → length l < d.capacity
      → Holds
          (record d {
            buffer = set d.buffer (deque_idx ((d.head + u32 - 1) % u32) d.capacity) v;
            head = (d.head + u32 - 1) % u32;
          })
          (v ∷ l)
  push_front_room d l v h room = record {
    exponent = h.exponent;
    power = h.power;
    exponent_min = h.exponent_min;
    exponent_max = h.exponent_max;
    width = length-set d.buffer _ v ∙ h.width;
    head_word = omega arith;
    tail_word = h.tail_word;
    counted = omega (arith, capacity_le h, tail_eq h, h.head_word);
    fits = room;
    items = items;
  }
    where
      items :
          (j : ℕ)
          → j < suc (length l)
          → get_or
              (set d.buffer (deque_idx ((d.head + u32 - 1) % u32) d.capacity) v)
              (((d.head + u32 - 1) % u32 + j) % d.capacity)
              none
            ≡ get_or (v ∷ l) j none
      items zero p =
          rw (idx_wrap h (d.head + u32 - 1), add_word h (d.head + u32 - 1) 0, add-zero)
            (get_or-set_self d.buffer ((d.head + u32 - 1) % d.capacity) v none (slot_lt h _))
      items (suc j) p =
          rw (idx_wrap h (d.head + u32 - 1), add_word h (d.head + u32 - 1) (suc j))
            (get_or-set_ne d.buffer _ _ v none (λ e.
                slots_apart d.capacity (d.head + u32 - 1) 0 (suc j) (omega arith) (omega arith)
                  (rw add-zero e))
              ∙ ap (λ k. get_or d.buffer k none) (back_one h j)
              ∙ h.items j (omega arith))
