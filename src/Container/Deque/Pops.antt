-- ===== src/Container/Deque/Pops.antt =====
-- What is read and taken from a deque, as the list of its cells.
use guage.Prelude.{
  ℕ, zero, suc, ◌+◌, ◌-◌, ◌%◌, ◌≤◌, ◌<◌, ◌≡◌, refl, sym, ap, ◌∙◌, ◌≢◌, inl, inr, Option, none, List,
  [], ◌∷◌, ◌++◌, arith, ◌==◌, ==_iff, Bool-cases, length, get_or, set, take, drop, length-set,
  length-take, length-drop, get_or-set_ne, append_nil, take_all, take_snoc, get_or-take,
  get_or-drop, get_or_past,
}
use mathlib.Core.Path.{subst}
use guage.Prelude.Modular.{slots_apart}
use guage.Container.Deque.{
  Deque, u32, deque_idx, cell_deque_size, cell_deque_pop_front, cell_deque_pop_back,
  cell_deque_peek_front, cell_deque_peek_back, to_list_from, cell_deque_to_list,
}
use guage.Container.Deque.Refines.{Holds, capacity_le, tail_eq, idx_mod, idx_wrap, add_word}

nil {ℓ} : {A : Type ℓ} (l : List A) → length l ≡ 0 → l ≡ []
nil [] e = refl
nil (x ∷ xs) e = absurd (omega arith)

module _ {ℓ} {C : Type ℓ} (d : Deque C) (l : List (Option C)) (h : Holds d l) where
  empty_test : (cell_deque_size d == 0) ≡ (length l == 0)
  empty_test = ap (λ n. n == 0) h.counted

  -- The front of the list is read at the head.
  front_at : 0 < length l → get_or d.buffer (deque_idx d.head d.capacity) none ≡ get_or l 0 none
  front_at p =
      rw (idx_mod h d.head)
        (ap (λ k. get_or d.buffer (k % d.capacity) none) (omega arith) ∙ h.items 0 p)

  -- The last cell stands in the slot before the tail.
  back_idx :
      0 < length l
      → deque_idx ((d.tail + u32 - 1) % u32) d.capacity ≡ (d.head + (length l - 1)) % d.capacity
  back_idx p =
      ap (λ k. deque_idx k d.capacity) (omega (arith, tail_eq h, capacity_le h, h.fits))
      ∙ idx_wrap h (d.head + (length l - 1))

  back_at :
      0 < length l
      → get_or d.buffer (deque_idx ((d.tail + u32 - 1) % u32) d.capacity) none
        ≡ get_or l (length l - 1) none
  back_at p = rw (back_idx p) (h.items (length l - 1) (omega arith))

  -- cell_deque_peek_front of a deque that holds the list l is the first cell of l, or NULL where l
  -- is empty.
  peek_front-Holds : cell_deque_peek_front d ≡ get_or l 0 none
  unfolding cell_deque_peek_front
  peek_front-Holds = rw empty_test (elim (Bool-cases (length l == 0)) [
    | inl e ↦ rw e (sym (get_or_past l 0 none (omega (arith, (==_iff _ _).0 e))))
    | inr e ↦ rw e (front_at (ground arith))
  ])

  -- cell_deque_peek_back of a deque that holds the list l is the last cell of l, or NULL where l
  -- is empty.
  peek_back-Holds : cell_deque_peek_back d ≡ get_or l (length l - 1) none
  unfolding cell_deque_peek_back
  peek_back-Holds = rw empty_test (elim (Bool-cases (length l == 0)) [
    | inl e ↦ rw e (sym (get_or_past l (length l - 1) none (omega (arith, (==_iff _ _).0 e))))
    | inr e ↦ rw e (back_at (ground arith))
  ])

  popped_front :
      0 < length l
      → Holds
          (record d {
            buffer = set d.buffer (deque_idx d.head d.capacity) none;
            head = (d.head + 1) % u32;
          })
          (drop 1 l)
  popped_front p = record {
    exponent = h.exponent;
    power = h.power;
    exponent_min = h.exponent_min;
    exponent_max = h.exponent_max;
    width = length-set d.buffer _ none ∙ h.width;
    head_word = omega arith;
    tail_word = h.tail_word;
    counted = omega (arith, capacity_le h, tail_eq h, h.head_word, h.fits, length-drop 1 l);
    fits = omega (arith, h.fits, length-drop 1 l);
    items = items;
  }
    where
      items :
          (j : ℕ)
          → j < length (drop 1 l)
          → get_or
              (set d.buffer (deque_idx d.head d.capacity) none)
              (((d.head + 1) % u32 + j) % d.capacity)
              none
            ≡ get_or (drop 1 l) j none
      items j q =
          rw (idx_mod h d.head, add_word h (d.head + 1) j)
            (get_or-set_ne d.buffer _ _ none none (apart j q)
              ∙ ap (λ k. get_or d.buffer (k % d.capacity) none) (omega arith)
              ∙ h.items (1 + j) (omega (arith, length-drop 1 l))
              ∙ sym (get_or-drop 1 l j none))
        where
          apart :
              (j : ℕ) → j < length (drop 1 l) → d.head % d.capacity ≢ (d.head + 1 + j) % d.capacity
          apart j q e =
              slots_apart d.capacity d.head 0 (1 + j) (omega arith)
                (omega (arith, h.fits, length-drop 1 l))
                (ap (λ k. k % d.capacity) (omega arith)
                  ∙ e
                  ∙ ap (λ k. k % d.capacity) (omega arith))

  popped_back :
      0 < length l
      → Holds
          (record d {
            buffer = set d.buffer (deque_idx ((d.tail + u32 - 1) % u32) d.capacity) none;
            tail = (d.tail + u32 - 1) % u32;
          })
          (take (length l - 1) l)
  popped_back p = record {
    exponent = h.exponent;
    power = h.power;
    exponent_min = h.exponent_min;
    exponent_max = h.exponent_max;
    width = length-set d.buffer _ none ∙ h.width;
    head_word = h.head_word;
    tail_word = omega arith;
    counted =
        omega (arith, capacity_le h, tail_eq h, h.head_word, h.fits, length-take (length l - 1) l);
    fits = omega (arith, h.fits, length-take (length l - 1) l);
    items = items;
  }
    where
      items :
          (j : ℕ)
          → j < length (take (length l - 1) l)
          → get_or
              (set d.buffer (deque_idx ((d.tail + u32 - 1) % u32) d.capacity) none)
              ((d.head + j) % d.capacity)
              none
            ≡ get_or (take (length l - 1) l) j none
      items j q = rw (back_idx p) (
          get_or-set_ne d.buffer _ _ none none (λ e.
            slots_apart d.capacity d.head j (length l - 1)
              (omega (arith, length-take (length l - 1) l)) (omega (arith, h.fits)) (sym e))
          ∙ h.items j (omega (arith, length-take (length l - 1) l))
          ∙ sym (get_or-take (length l - 1) l j none (omega (arith, length-take (length l - 1) l))))

  -- On a deque that holds the list l, cell_deque_pop_front returns the first cell of l, or NULL
  -- where l is empty, and leaves a deque that holds l without its first cell; an empty deque does
  -- not change at all.
  pub pop_front-Holds :
      ((cell_deque_pop_front d).0 ≡ get_or l 0 none)
      × Holds (cell_deque_pop_front d).1 (drop 1 l)
      × (length l ≡ 0 → cell_deque_pop_front d ≡ (none, d))
  unfolding cell_deque_pop_front
  pop_front-Holds = rw empty_test (elim (Bool-cases (length l == 0)) [
    | inl e ↦
        let gone : l ≡ [] = nil l ((==_iff _ _).0 e) in
        rw e (
          sym (ap (λ x. get_or x 0 none) gone),
          subst (λ x. Holds d (drop 1 x)) (sym gone) (subst (Holds d) gone h),
          λ z. refl,
        )
    | inr e ↦
        rw e (front_at (ground arith), popped_front (ground arith), λ z. absurd (ground arith))
  ])

  -- On a deque that holds the list l, cell_deque_pop_back returns the last cell of l, or NULL
  -- where l is empty, and leaves a deque that holds l without its last cell; an empty deque does
  -- not change at all.
  pub pop_back-Holds :
      ((cell_deque_pop_back d).0 ≡ get_or l (length l - 1) none)
      × Holds (cell_deque_pop_back d).1 (take (length l - 1) l)
      × (length l ≡ 0 → cell_deque_pop_back d ≡ (none, d))
  unfolding cell_deque_pop_back
  pop_back-Holds = rw empty_test (elim (Bool-cases (length l == 0)) [
    | inl e ↦
        let gone : l ≡ [] = nil l ((==_iff _ _).0 e) in
        rw e (
          sym (ap (λ x. get_or x (length x - 1) none) gone),
          subst (λ x. Holds d (take (length x - 1) x)) (sym gone) (subst (Holds d) gone h),
          λ z. refl,
        )
    | inr e ↦ rw e (back_at (ground arith), popped_back (ground arith), λ z. absurd (ground arith))
  ])

  -- The loop that conses from `n` down to 1 puts the first `n` cells before the result.
  to_list_from_lem :
      (n : ℕ) (r : List (Option C)) → n ≤ length l → to_list_from d n r ≡ take n l ++ r
  unfolding to_list_from
  to_list_from_lem zero r p = refl
  to_list_from_lem (suc n) r p =
      ap (λ x. to_list_from d n (x ∷ r)) (idx_wrap_get n (omega arith))
      ∙ to_list_from_lem n (get_or l n none ∷ r) (omega arith)
      ∙ take_snoc n l none r p
    where
      idx_wrap_get :
          (n : ℕ)
          → n < length l
          → get_or d.buffer (deque_idx ((d.head + n) % u32) d.capacity) none ≡ get_or l n none
      idx_wrap_get n p = rw (idx_wrap h (d.head + n)) (h.items n p)

  -- cell_deque_to_list of a deque that holds the list l is l, front first.
  pub to_list-Holds : cell_deque_to_list d ≡ l
  unfolding cell_deque_to_list
  to_list-Holds =
      ap (λ n. to_list_from d n []) h.counted
      ∙ to_list_from_lem (length l) [] (omega arith)
      ∙ append_nil (take (length l) l)
      ∙ take_all l

  -- On a deque that holds the list l, cell_deque_peek_front is the first cell of l and
  -- cell_deque_peek_back the last, or NULL where l is empty.
  pub peek-Holds :
      (cell_deque_peek_front d ≡ get_or l 0 none)
      × (cell_deque_peek_back d ≡ get_or l (length l - 1) none)
  peek-Holds = (peek_front-Holds, peek_back-Holds)
