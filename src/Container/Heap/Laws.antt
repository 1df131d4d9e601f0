-- ===== src/Container/Heap/Laws.antt =====
-- Pushing and popping.
use guage.Prelude.{
  get_elem?-append_left, get_elem?-append_last, ℕ, zero, suc, ◌+◌, ◌*◌, ◌%◌, ◌^◌, ◌≤◌, ◌<◌, ◌≡◌,
  refl, ap, ◌∙◌, Bool, none, some, List, [], ◌∷◌, ◌++◌, arith, ltb, ◌==◌, if◌then◌else◌, length,
  get_elem?, set, length-append, to_nat, count, last, init, count-append, All,
}
use guage.Prelude.{count-fill_hole, length-init}
use guage.Container.Heap.{
  Entry, Heap, heap4_parent, u32, key_at, heap4_sift_up, heap4_sift_down, pop_entries,
  cell_heap_push, cell_heap_pop,
}
use guage.Container.Heap.Order.{IsHeap, Sifted}
use guage.Container.Heap.Up.{UpInv, sift_up_loop-Sifted}
use guage.Container.Heap.Down.{DownInv, sift_down_loop-Sifted}

-- The order, and that the arrays are large enough.
pub record ValidHeap {ℓ} {K C : Type ℓ} (rank : K → ℕ) (h : Heap K C) : Type ℓ where
  pub ordered : IsHeap rank h.entries
  pub fits : length h.entries ≤ h.capacity
  pub room : 0 < h.capacity

module _ {ℓ} {A : Type ℓ} where
  set-append_last : (xs : List A) (x : A) → set (xs ++ (x ∷ [])) (length xs) x ≡ xs ++ (x ∷ [])
  set-append_last [] x = refl
  set-append_last (y ∷ xs) x = ap (λ z. y ∷ z) (set-append_last xs x)

  get_elem?-init :
      (y : A) (ys : List A) (i : ℕ) → i < length ys → get_elem? (init y ys) i ≡ get_elem? (y ∷ ys) i
  get_elem?-init y [] i h = absurd (omega arith)
  get_elem?-init y (z ∷ zs) zero h = refl
  get_elem?-init y (z ∷ zs) (suc i) h = get_elem?-init z zs i (omega arith)

module _ {ℓ} {K C : Type ℓ} (rank : K → ℕ) where
  -- Equal entries have equal keys.
  key_of :
      (a b : List (Entry K C)) (i j : ℕ)
      → get_elem? a i ≡ get_elem? b j
      → key_at rank a i ≡ key_at rank b j
  key_of a b i j = ap (λ o. elim o [ none ↦ 0 | some e ↦ rank e.key ])

  append-UpInv :
      (xs : List (Entry K C)) (e : Entry K C)
      → IsHeap rank xs
      → UpInv rank (xs ++ (e ∷ [])) (length xs)
  append-UpInv xs e h =
      let size = length-append xs (e ∷ []) in
      let same : (c : ℕ) → c < length xs → key_at rank (xs ++ (e ∷ [])) c ≡ key_at rank xs c =
        λ c p. key_of (xs ++ (e ∷ [])) xs c c (get_elem?-append_left xs (e ∷ []) c p) in
      record {
        inside = omega (arith, size);
        edges = λ c p q d. omega (
          arith,
          same c (omega (arith, size)),
          same (heap4_parent c) (omega (arith, size)),
          h c p (omega (arith, size)),
        );
        bridged = λ c p q r s. absurd (omega (arith, size));
      }

  sift_up-Sifted :
      (xs : List (Entry K C)) (e : Entry K C)
      → IsHeap rank xs
      → (b : List (Entry K C)) × (heap4_sift_up rank (xs ++ (e ∷ [])) (length xs) ≡ some b)
        × Sifted rank (xs ++ (e ∷ [])) b
  unfolding heap4_sift_up
  sift_up-Sifted xs e h =
      let a = xs ++ (e ∷ []) in
      let same = set-append_last xs e in
      let (b, run, s) =
        sift_up_loop-Sifted rank (length xs + 1) a e (length xs) (omega arith)
          (omega (arith, length-append xs (e ∷ []))) (rw same (append-UpInv xs e h)) in
      (b, rw (heap4_sift_up, get_elem?-append_last xs e) run, rw same at s)

  -- On a valid heap of fewer than 2 ^ 30 entries cell_heap_push ends and leaves a valid heap of
  -- the old entries and the new one, whose arrays are large enough for them.
  pub push_lem :
      (h : Heap K C) (priority : K) (val : C)
      → ValidHeap rank h
      → length h.entries < 2 ^ 30
      → (h' : Heap K C) × (cell_heap_push rank h priority val ≡ some h')
        × ValidHeap rank h'
        × (length h'.entries ≡ length h.entries + 1)
        × ((q : Entry K C → Bool)
            → count q h'.entries
              ≡ count q h.entries + to_nat (q (record { key = priority; val = val })))
  unfolding cell_heap_push
  push_lem h priority val v small =
      let e : Entry K C = record { key = priority; val = val } in
      let (b, run, s) = sift_up-Sifted h.entries e v.ordered in
      let size = length-append h.entries (e ∷ []) in
      let valid : ValidHeap rank (record {
        entries = b;
        capacity = if length h.entries == h.capacity then h.capacity * 2 % u32 else h.capacity;
      }) =
        record {
          ordered = s.ordered;
          fits = ground (arith, s.size, size, v.fits, v.room);
          room = ground (arith, v.fits, v.room);
        } in
      (
        _,
        rw (cell_heap_push, run) refl,
        valid,
        omega (arith, s.size, size),
        λ q. omega (arith, s.entries q, count-append q h.entries (e ∷ [])),
      )

  key_at-hole :
      (x y : Entry K C) (ys : List (Entry K C)) (c : ℕ)
      → 0 < c
      → c < length ys + 1
      → key_at rank (last y ys ∷ init y ys) c ≡ key_at rank (x ∷ y ∷ ys) c
  key_at-hole x y ys zero p q = absurd (omega arith)
  key_at-hole x y ys (suc i) p q =
      key_of (init y ys) (y ∷ ys) i i (get_elem?-init y ys i (omega arith))

  hole-DownInv :
      (x y : Entry K C) (ys : List (Entry K C))
      → IsHeap rank (x ∷ y ∷ ys)
      → DownInv rank (last y ys ∷ init y ys) 0
  hole-DownInv x y ys h =
      let size = length-init y ys in
      record {
        edges = λ c p q d. omega (
          arith,
          key_at-hole x y ys c p (omega (arith, size)),
          key_at-hole x y ys (heap4_parent c) (omega arith) (omega (arith, size)),
          h c p (omega (arith, size)),
        );
        bridged = λ c p q r s. absurd (omega arith);
      }

  pub pop_entries-Sifted :
      (x : Entry K C) (rest : List (Entry K C))
      → IsHeap rank (x ∷ rest)
      → length rest ≤ 2 ^ 30
      → (b : List (Entry K C)) × (pop_entries rank rest ≡ some b) × Sifted rank rest b
  unfolding pop_entries heap4_sift_down
  pop_entries-Sifted x [] h small = (
    [],
    refl,
    record { ordered = λ c p q. absurd (omega arith); size = refl; entries = λ q. refl },
  )
  pop_entries-Sifted x (y ∷ ys) h small =
      let a = last y ys ∷ init y ys in
      let size = length-init y ys in
      let (b, run, s) =
        sift_down_loop-Sifted rank (length a + 1) a (last y ys) 0 (omega arith) (omega arith)
          (omega (arith, size)) (hole-DownInv x y ys h) in
      (
        b,
        run,
        record {
          ordered = s.ordered;
          size = omega (arith, s.size, size);
          entries = λ q. s.entries q ∙ count-fill_hole q (y ∷ ys);
        },
      )

  -- The key at the root is the least: by the parents of a place.
  root_least :
      (rounds : ℕ) (a : List (Entry K C))
      → IsHeap rank a
      → (c : ℕ) → c < rounds
      → c < length a
      → key_at rank a 0 ≤ key_at rank a c
  root_least zero a h c f p = absurd (omega arith)
  root_least (suc rounds) a h zero f p = omega arith
  root_least (suc rounds) a h (suc c) f p = omega (
    arith,
    h (suc c) (omega arith) p,
    root_least rounds a h (heap4_parent (suc c)) (omega arith) (omega arith),
  )

  abbrev pub below : ℕ → Entry K C → Bool
  below r e = ltb (rank e.key) r

  none_below :
      (r : ℕ) (a : List (Entry K C))
      → ((c : ℕ) → c < length a → r ≤ key_at rank a c)
      → count (below r) a ≡ 0
  none_below r [] h = refl
  none_below r (x ∷ a) h =
      ground (arith, h 0 (omega arith), none_below r a (λ c p. h (suc c) (omega arith)))

  All-none_below :
      (r : ℕ) (a : List (Entry K C)) → count (below r) a ≡ 0 → All (λ e. r ≤ rank e.key) a
  All-none_below r [] h = tt
  All-none_below r (x ∷ a) h = (ground arith, All-none_below r a (omega arith))

  -- The root is at most as large as any entries that are taken from the heap.
  pub All-root :
      (x : Entry K C) (rest b : List (Entry K C))
      → IsHeap rank (x ∷ rest)
      → ((q : Entry K C → Bool) → count q b ≡ count q rest)
      → All (λ e. rank x.key ≤ rank e.key) b
  All-root x rest b h s =
      let r = rank x.key in
      let all =
        none_below r (x ∷ rest) (λ c p. root_least (c + 1) (x ∷ rest) h c (omega arith) p) in
      All-none_below r b (omega (arith, s (below r)))

  -- On a valid heap of 1 to 2 ^ 30 entries cell_heap_pop ends, returns an entry whose key is at
  -- most that of every entry left, and leaves a valid heap of all other entries.
  pub pop_lem :
      (h : Heap K C)
      → ValidHeap rank h
      → 0 < length h.entries
      → length h.entries ≤ 2 ^ 30
      → (x : Entry K C) × (h' : Heap K C) × (cell_heap_pop rank h ≡ some (some x, h'))
        × ValidHeap rank h'
        × ((q : Entry K C → Bool) → count q h.entries ≡ to_nat (q x) + count q h'.entries)
        × All (λ e. rank x.key ≤ rank e.key) h'.entries
  unfolding cell_heap_pop
  pop_lem h v some_entry small = pop_record h.entries h.capacity v some_entry small
    where
      pop_record :
          (a : List (Entry K C)) (n : ℕ)
          → ValidHeap rank (record { entries = a; capacity = n })
          → 0 < length a
          → length a ≤ 2 ^ 30
          → (x : Entry K C) × (h' : Heap K C) × (cell_heap_pop rank
                (record { entries = a; capacity = n })
              ≡ some (some x, h'))
            × ValidHeap rank h'
            × ((q : Entry K C → Bool) → count q a ≡ to_nat (q x) + count q h'.entries)
            × All (λ e. rank x.key ≤ rank e.key) h'.entries
      pop_record [] n v p small = absurd (omega arith)
      pop_record (x ∷ rest) n v p small =
          let (b, run, s) = pop_entries-Sifted x rest v.ordered (omega arith) in
          (
            x,
            _,
            rw (cell_heap_pop, run) refl,
            record { ordered = s.ordered; fits = omega (arith, s.size, v.fits); room = v.room },
            λ q. omega (arith, s.entries q),
            All-root x rest b v.ordered s.entries,
          )
