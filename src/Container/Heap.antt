-- ===== src/Container/Heap.antt =====
-- The heap of bootstrap/cell.c (`cell_heap_*`, `heap4_*`): a 4-ary priority queue. The parallel
-- arrays `keys` and `vals`, up to `size`, are one list of entries. The keys are doubles, compared
-- by `<` and `<=`; here they are of any type, with the place of a key among all keys: `rank`. A
-- NaN, which has no place, is no key here. Reference counts are left out. Loops run by rounds, and
-- `none` says that the rounds have run out.
pub mod Order
pub mod Up
pub mod Down
pub mod Laws
pub mod Sorted
mod Tests
use guage.Prelude.{
  ℕ, zero, suc, ◌+◌, ◌-◌, ◌*◌, ◌/◌, ◌%◌, ◌^◌, ◌&&◌, Option, none, some, List, [], ◌∷◌, ◌++◌, ltb,
  leb, ◌==◌, if◌then◌else◌, length, get_elem?, set, count, last, init,
}

pub record Entry {ℓ} (K C : Type ℓ) : Type ℓ where
  pub key : K
  pub val : C

pub record Heap {ℓ} (K C : Type ℓ) : Type ℓ where
  pub entries : List (Entry K C)
  pub capacity : ℕ

-- `HEAP4_MIN_CAP`
abbrev pub heap4_min_cap : ℕ
heap4_min_cap = 16

abbrev pub u32 : ℕ
u32 = 2 ^ 32

-- The new capacity; the entries are copied as they are.
abbrev pub heap4_grow : ℕ → ℕ
heap4_grow capacity = capacity * 2 % u32

abbrev pub heap4_parent : ℕ → ℕ
heap4_parent i = (i - 1) / 4

abbrev pub heap4_first_child : ℕ → ℕ
heap4_first_child i = (i * 4 + 1) % u32

module _ {ℓ} {K C : Type ℓ} where
  -- `keys[to] = keys[from]; vals[to] = vals[from];`
  unfoldable pub move : List (Entry K C) → ℕ → ℕ → List (Entry K C)
  move a from to = elim (get_elem? a from) [ none ↦ a | some e ↦ set a to e ]

  abbrev pub cell_heap_new : Heap K C
  cell_heap_new = record { entries = []; capacity = heap4_min_cap }

  unfoldable pub cell_heap_peek : Heap K C → Option (Entry K C)
  cell_heap_peek h = get_elem? h.entries 0

  abbrev pub cell_heap_size : Heap K C → ℕ
  cell_heap_size h = length h.entries

  -- The loop that reverses the result.
  unfoldable pub reverse_onto : List (Entry K C) → List (Entry K C) → List (Entry K C)
  reverse_onto [] reversed = reversed
  reverse_onto (x ∷ cur) reversed = reverse_onto cur (x ∷ reversed)

module _ {ℓ} {K C : Type ℓ} (rank : K → ℕ) where
  -- The key at a place, for comparisons.
  abbrev pub key_at : List (Entry K C) → ℕ → ℕ
  key_at a i = elim (get_elem? a i) [ none ↦ 0 | some e ↦ rank e.key ]

  -- One of the three tests of `heap4_min_child`.
  abbrev pub better : List (Entry K C) → ℕ → ℕ → ℕ → ℕ → ℕ
  better a first count k best =
      if ltb k count && ltb (key_at a (first + k)) (key_at a best) then first + k else best

  unfoldable pub heap4_min_child : List (Entry K C) → ℕ → ℕ → ℕ
  heap4_min_child a first count =
      let best = first in
      let best = better a first count 1 best in
      let best = better a first count 2 best in better a first count 3 best

  -- The loop of `heap4_sift_up`, and the two writes after it.
  unfoldable pub sift_up_loop : ℕ → List (Entry K C) → Entry K C → ℕ → Option (List (Entry K C))
  unfolding move
  sift_up_loop zero a e pos = none
  sift_up_loop (suc rounds) a e pos =
      let p = heap4_parent pos in
      let rise = sift_up_loop rounds (move a p pos) e p in
      if ltb 0 pos
      then if leb (key_at a p) (rank e.key) then some (set a pos e) else rise
      else some (set a pos e)

  unfoldable pub heap4_sift_up : List (Entry K C) → ℕ → Option (List (Entry K C))
  unfolding sift_up_loop
  heap4_sift_up a pos = elim (get_elem? a pos) [
    | none ↦ none
    | some e ↦ sift_up_loop (pos + 1) a e pos
  ]

  -- The loop of `heap4_sift_down`, and the two writes after it.
  unfoldable pub sift_down_loop : ℕ → List (Entry K C) → Entry K C → ℕ → Option (List (Entry K C))
  unfolding move heap4_min_child
  sift_down_loop zero a e pos = none
  sift_down_loop (suc rounds) a e pos =
      let fc = heap4_first_child pos in
      let nchildren = if ltb 4 (length a - fc) then 4 else length a - fc in
      let mc = heap4_min_child a fc nchildren in
      let sink = sift_down_loop rounds (move a mc pos) e mc in
      if leb (length a) fc
      then some (set a pos e)
      else if leb (rank e.key) (key_at a mc)
      then some (set a pos e)
      else sink

  unfoldable pub heap4_sift_down : List (Entry K C) → ℕ → Option (List (Entry K C))
  unfolding sift_down_loop
  heap4_sift_down a pos = elim (get_elem? a pos) [
    | none ↦ none
    | some e ↦ sift_down_loop (length a + 1) a e pos
  ]

  unfoldable pub cell_heap_push : Heap K C → K → C → Option (Heap K C)
  unfolding heap4_sift_up
  cell_heap_push h priority val =
      let capacity = if length h.entries == h.capacity then heap4_grow h.capacity else h.capacity in
      let a = h.entries ++ (record { key = priority; val = val } ∷ []) in
      elim (heap4_sift_up a (length h.entries)) [
        | none ↦ none
        | some b ↦ some (record { entries = b; capacity = capacity })
      ]

  -- The entries after the first one is taken: the last moves to its place and sinks.
  unfoldable pub pop_entries : List (Entry K C) → Option (List (Entry K C))
  unfolding heap4_sift_down
  pop_entries rest = elim rest [ [] ↦ some [] | y ∷ ys ↦ heap4_sift_down (last y ys ∷ init y ys) 0 ]

  unfoldable pub cell_heap_pop : Heap K C → Option (Option (Entry K C) × Heap K C)
  unfolding pop_entries
  cell_heap_pop h = elim h.entries [
    | [] ↦ some (none, h)
    | x ∷ rest ↦ elim (pop_entries rest) [
      | none ↦ none
      | some b ↦ some (some x, record h { entries = b })
    ]
  ]

  -- The loop of `cell_heap_to_list` that pops the copy. By rounds, one for each entry.
  unfoldable pub drain : ℕ → List (Entry K C) → List (Entry K C) → Option (List (Entry K C))
  unfolding pop_entries
  drain rounds [] result = some result
  drain zero (x ∷ rest) result = none
  drain (suc rounds) (x ∷ rest) result = elim (pop_entries rest) [
    | none ↦ none
    | some b ↦ drain rounds b (x ∷ result)
  ]

  unfoldable pub cell_heap_to_list : Heap K C → Option (List (Entry K C))
  unfolding drain reverse_onto
  cell_heap_to_list h = elim (drain (length h.entries) h.entries []) [
    | none ↦ none
    | some r ↦ some (reverse_onto r [])
  ]

  -- The two loops of `cell_heap_merge`.
  unfoldable pub push_all : List (Entry K C) → Heap K C → Option (Heap K C)
  unfolding cell_heap_push
  push_all [] h = some h
  push_all (x ∷ xs) h = elim (cell_heap_push h x.key x.val) [
    | none ↦ none
    | some h' ↦ push_all xs h'
  ]

  unfoldable pub cell_heap_merge : Heap K C → Heap K C → Option (Heap K C)
  unfolding push_all
  cell_heap_merge h1 h2 = elim (push_all h1.entries cell_heap_new) [
    | none ↦ none
    | some h ↦ push_all h2.entries h
  ]
