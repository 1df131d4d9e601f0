-- ===== src/Container/Deque/Tests.antt =====
-- A deque of eight slots that is full and wrapped.
use guage.Prelude.{
  ℕ, zero, suc, ◌<◌, ◌≡◌, refl, Option, none, some, List, [], ◌∷◌, ◌++◌, arith, length, get_or,
  drop,
}
use guage.Container.Deque.{
  Deque, cell_deque_push_back, cell_deque_pop_front, cell_deque_to_list, deque_grow, unwrapped,
  make_room, to_list_from,
}
use guage.Container.Deque.Refines.{slot, Holds}
use guage.Container.Deque.Laws.{push_back-Holds}
use guage.Container.Deque.Pops.{pop_front-Holds}

abbrev ring : Deque ℕ
ring = record {
  buffer = some 5 ∷ some 6 ∷ some 7 ∷ some 0 ∷ some 1 ∷ some 2 ∷ some 3 ∷ some 4 ∷ [];
  capacity = 8;
  head = 3;
  tail = 11;
}

abbrev cells : List (Option ℕ)
cells = some 0 ∷ some 1 ∷ some 2 ∷ some 3 ∷ some 4 ∷ some 5 ∷ some 6 ∷ some 7 ∷ []

ring-items : (j : ℕ) → j < length cells → slot ring j ≡ get_or cells j none
ring-items zero p = refl
ring-items (suc zero) p = refl
ring-items (suc (suc zero)) p = refl
ring-items (suc (suc (suc zero))) p = refl
ring-items (suc (suc (suc (suc zero)))) p = refl
ring-items (suc (suc (suc (suc (suc zero))))) p = refl
ring-items (suc (suc (suc (suc (suc (suc zero)))))) p = refl
ring-items (suc (suc (suc (suc (suc (suc (suc zero))))))) p = refl
ring-items (suc (suc (suc (suc (suc (suc (suc (suc j)))))))) p = absurd (omega arith)

ring-Holds : Holds ring cells
ring-Holds = record {
  exponent = 3;
  power = refl;
  exponent_min = omega arith;
  exponent_max = omega arith;
  width = refl;
  head_word = omega arith;
  tail_word = omega arith;
  counted = refl;
  fits = omega arith;
  items = ring-items;
}

-- The ninth cell doubles the buffer.
grown_list : cell_deque_to_list (cell_deque_push_back ring 8) ≡ cells ++ (some 8 ∷ [])
unfolding cell_deque_push_back cell_deque_to_list to_list_from make_room deque_grow unwrapped
grown_list = refl

push_back-Holds_example : Holds (cell_deque_push_back ring 8) (cells ++ (some 8 ∷ []))
push_back-Holds_example = push_back-Holds ring cells 8 ring-Holds (omega arith)

pop_front-Holds_example :
    ((cell_deque_pop_front ring).0 ≡ get_or cells 0 none)
    × Holds (cell_deque_pop_front ring).1 (drop 1 cells)
    × (length cells ≡ 0 → cell_deque_pop_front ring ≡ (none, ring))
pop_front-Holds_example = pop_front-Holds ring cells ring-Holds
