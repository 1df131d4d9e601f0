-- ===== src/Container/Heap/Tests.antt =====
-- Heaps of numbers, for tests.
use guage.Prelude.{
  ℕ, zero, suc, ◌+◌, ◌*◌, ◌≤◌, ◌≡◌, refl, Bool, none, some, List, [], ◌∷◌, map, arith, length,
  to_nat, count, All,
}
use guage.Container.Heap.{
  Entry, Heap, cell_heap_new, cell_heap_push, cell_heap_pop, cell_heap_to_list, push_all,
}
use guage.Container.Heap.Order.{IsHeap}
use guage.Container.Heap.Laws.{ValidHeap, push_lem, pop_lem}
use guage.Container.Heap.Sorted.{heap_to_list-sorts, IsSorted}

abbrev id_rank : ℕ → ℕ
id_rank n = n

abbrev entry : ℕ → Entry ℕ ℕ
entry n = record { key = n; val = n * 10 }

abbrev two_keys : Heap ℕ ℕ
two_keys = record { entries = entry 2 ∷ entry 5 ∷ []; capacity = 16 }

two_keys-Valid : ValidHeap id_rank two_keys
two_keys-Valid = record { ordered = λ c p q. ordered c p q; fits = omega arith; room = omega arith }
  where
    ordered : IsHeap id_rank two_keys.entries
    ordered zero p q = absurd (omega arith)
    ordered (suc zero) p q = omega arith
    ordered (suc (suc c)) p q = absurd (omega arith)

list_run : cell_heap_to_list id_rank two_keys ≡ some (entry 2 ∷ entry 5 ∷ [])
unfolding cell_heap_to_list
list_run = refl

fill_run :
    elim (push_all id_rank
      (entry 7 ∷ entry 3 ∷ entry 9 ∷ entry 1 ∷ entry 8 ∷ entry 0 ∷ [])
      cell_heap_new) [
        | none ↦ none
        | some h ↦ elim (cell_heap_to_list id_rank h) [
          | none ↦ none
          | some xs ↦ some (map Entry.key xs)
        ]
      ]
    ≡ some (0 ∷ 1 ∷ 3 ∷ 7 ∷ 8 ∷ 9 ∷ [])
unfolding push_all cell_heap_to_list
fill_run = refl

push_lem_example :
    (h' : Heap ℕ ℕ) × (cell_heap_push id_rank two_keys 1 10 ≡ some h')
    × ValidHeap id_rank h'
    × (length h'.entries ≡ 3)
    × ((q : Entry ℕ ℕ → Bool)
        → count q h'.entries ≡ count q two_keys.entries + to_nat (q (entry 1)))
push_lem_example = push_lem id_rank two_keys 1 10 two_keys-Valid (omega arith)

pop_lem_example :
    (x : Entry ℕ ℕ) × (h' : Heap ℕ ℕ) × (cell_heap_pop id_rank two_keys ≡ some (some x, h'))
    × ValidHeap id_rank h'
    × ((q : Entry ℕ ℕ → Bool) → count q two_keys.entries ≡ to_nat (q x) + count q h'.entries)
    × All (λ e. x.key ≤ e.key) h'.entries
pop_lem_example = pop_lem id_rank two_keys two_keys-Valid (omega arith) (omega arith)

heap_to_list-sorts_example :
    (xs : List (Entry ℕ ℕ)) × (cell_heap_to_list id_rank two_keys ≡ some xs)
    × IsSorted id_rank xs
    × ((q : Entry ℕ ℕ → Bool) → count q xs ≡ count q two_keys.entries)
heap_to_list-sorts_example = heap_to_list-sorts id_rank two_keys two_keys-Valid (omega arith)
