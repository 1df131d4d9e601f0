-- ===== src/Container/Heap/Sorted.antt =====
-- A heap as a list, and the union of two heaps.
use guage.Prelude.{
  ℕ, zero, suc, ◌+◌, ◌^◌, ◌≤◌, ◌≡◌, refl, ap, ◌∙◌, Bool, some, List, [], ◌∷◌, ◌++◌, arith, length,
  append_nil, count, All,
}
use guage.Container.Heap.{
  Entry, Heap, drain, reverse_onto, cell_heap_new, cell_heap_to_list, push_all, cell_heap_merge,
}
use guage.Container.Heap.Order.{IsHeap}
use guage.Container.Heap.Laws.{ValidHeap, push_lem, pop_entries-Sifted, All-root}

module _ {ℓ} {K C : Type ℓ} (rank : K → ℕ) where
  -- Each entry is at most as large as all that follow.
  abbrev pub IsSorted : List (Entry K C) → Type ℓ
  IsSorted [] = Unit
  IsSorted (x ∷ xs) = All (λ e. rank x.key ≤ rank e.key) xs × IsSorted xs

  -- What the loop adds to the result, in the order in which it was taken.
  record Drained (a r out : List (Entry K C)) : Type ℓ where
    pub taken : List (Entry K C)
    pub sorted : IsSorted taken
    pub same : (q : Entry K C → Bool) → count q taken ≡ count q a
    pub reversed : (acc : List (Entry K C)) → reverse_onto out acc ≡ reverse_onto r (taken ++ acc)

  drain-Drained :
      (rounds : ℕ) (a r : List (Entry K C))
      → IsHeap rank a
      → length a ≤ rounds
      → length a ≤ 2 ^ 30
      → (out : List (Entry K C)) × (drain rank rounds a r ≡ some out) × Drained a r out
  unfolding drain reverse_onto
  drain-Drained rounds [] r h f small =
      (r, refl, record { taken = []; sorted = tt; same = λ q. refl; reversed = λ acc. refl })
  drain-Drained zero (x ∷ rest) r h f small = absurd (omega arith)
  drain-Drained (suc rounds) (x ∷ rest) r h f small =
      let (b, run, s) = pop_entries-Sifted rank x rest h (omega arith) in
      let (out, go, d) =
        drain-Drained rounds b (x ∷ r) s.ordered (omega (arith, s.size)) (omega (arith, s.size)) in
      (
        out,
        rw (drain, run) go,
        record {
          taken = x ∷ d.taken;
          sorted = (All-root rank x rest d.taken h (λ q. d.same q ∙ s.entries q), d.sorted);
          same = λ q. omega (arith, d.same q, s.entries q);
          reversed = λ acc. d.reversed acc;
        },
      )

  -- For a valid heap of at most 2 ^ 30 entries cell_heap_to_list ends, and its list is in
  -- ascending order of keys and has the entries of the heap, each as often.
  pub heap_to_list-sorts :
      (h : Heap K C)
      → ValidHeap rank h
      → length h.entries ≤ 2 ^ 30
      → (xs : List (Entry K C)) × (cell_heap_to_list rank h ≡ some xs)
        × IsSorted xs
        × ((q : Entry K C → Bool) → count q xs ≡ count q h.entries)
  unfolding cell_heap_to_list reverse_onto
  heap_to_list-sorts h v small =
      let (out, run, d) =
        drain-Drained (length h.entries) h.entries [] v.ordered (omega arith) small in
      let end : reverse_onto out [] ≡ d.taken = d.reversed [] ∙ append_nil d.taken in
      (d.taken, rw (cell_heap_to_list, run) (ap some end), d.sorted, d.same)

  -- A heap that has taken the entries of a list in.
  record Filled (xs : List (Entry K C)) (h h' : Heap K C) : Type ℓ where
    pub valid : ValidHeap rank h'
    pub size : length h'.entries ≡ length xs + length h.entries
    pub entries : (q : Entry K C → Bool) → count q h'.entries ≡ count q xs + count q h.entries

  push_all-Filled :
      (xs : List (Entry K C)) (h : Heap K C)
      → ValidHeap rank h
      → length xs + length h.entries ≤ 2 ^ 30
      → (h' : Heap K C) × (push_all rank xs h ≡ some h') × Filled xs h h'
  unfolding push_all
  push_all-Filled [] h v small =
      (h, refl, record { valid = v; size = omega arith; entries = λ q. omega arith })
  push_all-Filled (x ∷ xs) h v small =
      let (h₁, run, v₁, size, s) = push_lem rank h x.key x.val v (omega arith) in
      let (h₂, go, f) = push_all-Filled xs h₁ v₁ (omega (arith, size)) in
      (
        h₂,
        rw (push_all, run) go,
        record {
          valid = f.valid;
          size = omega (arith, f.size, size);
          entries = λ q. omega (arith, f.entries q, s q);
        },
      )

  -- For two heaps of together at most 2 ^ 30 entries, in whatever order these stand,
  -- cell_heap_merge ends and returns a valid heap that has each entry as often as the two
  -- together.
  pub merge_lem :
      (h1 h2 : Heap K C)
      → length h1.entries + length h2.entries ≤ 2 ^ 30
      → (h : Heap K C) × (cell_heap_merge rank h1 h2 ≡ some h)
        × ValidHeap rank h
        × ((q : Entry K C → Bool) → count q h.entries ≡ count q h1.entries + count q h2.entries)
  unfolding cell_heap_merge
  merge_lem h1 h2 small =
      let v : ValidHeap {K = K} {C = C} rank cell_heap_new = record {
        ordered = λ c p q. elim q [ ];
        fits = omega arith;
        room = omega arith;
      } in
      let (a, run, f) = push_all-Filled h1.entries cell_heap_new v (omega arith) in
      let (b, go, g) = push_all-Filled h2.entries a f.valid (omega (arith, f.size)) in
      (b, rw (cell_heap_merge, run) go, g.valid, λ q. omega (arith, g.entries q, f.entries q))
