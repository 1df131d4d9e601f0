-- ===== src/Container/Deque.antt =====
-- The deque of bootstrap/cell.c (`cell_deque_*`): a ring of `capacity` slots, and two `uint32_t`
-- counters that only grow or shrink by one and wrap at 2 ^ 32. A slot is NULL or points to a cell.
-- Every push retains its cell, and a pop hands the reference over; `buffer` is the `aligned_alloc`
-- of `capacity` slots.
pub mod Refines
pub mod Grow
pub mod Laws
pub mod Pops
mod Tests
use guage.Prelude.{
  ℕ, zero, suc, ◌+◌, ◌-◌, ◌*◌, ◌%◌, ◌^◌, bit_and, Option, none, some, List, [], ◌∷◌, ltb, ◌==◌,
  if◌then◌else◌, get_or, set, replicate,
}
use guage.Container.Memory.{memcpy, round_up}

pub record Deque {ℓ} (C : Type ℓ) : Type ℓ where
  pub buffer : List (Option C)
  pub capacity : ℕ
  pub head : ℕ
  pub tail : ℕ

abbrev pub u32 : ℕ
u32 = 2 ^ 32

-- `DEQUE_MIN_CAP`
abbrev pub min_cap : ℕ
min_cap = 8

-- `DEQUE_IDX(virt, cap)`
abbrev pub deque_idx : ℕ → ℕ → ℕ
deque_idx virt cap = bit_and virt (cap - 1)

module _ {ℓ} {C : Type ℓ} where
  -- `tail - head` of two `uint32_t`
  abbrev pub cell_deque_size : Deque C → ℕ
  cell_deque_size d = (d.tail + u32 - d.head) % u32

  -- By rounds of the loop that finds the capacity.
  unfoldable pub cell_deque_new : ℕ → ℕ → Option (Deque C)
  cell_deque_new rounds initial_cap =
      elim (round_up rounds min_cap (if ltb initial_cap min_cap then min_cap else initial_cap)) [
        | none ↦ none
        | some cap ↦
            some (record { buffer = replicate cap none; capacity = cap; head = 0; tail = 0 })
      ]

  -- The new buffer of `deque_grow`: one copy, or two where the ring is wrapped.
  unfoldable pub unwrapped : Deque C → ℕ → List (Option C)
  unwrapped d new_cap =
      let size = cell_deque_size d in
      let head_idx = deque_idx d.head d.capacity in
      let tail_idx = deque_idx d.tail d.capacity in
      let new_buf = replicate new_cap none in
      if size == 0
      then new_buf
      else if ltb head_idx tail_idx
      then memcpy new_buf 0 d.buffer head_idx size
      else let first_chunk = d.capacity - head_idx in
        memcpy (memcpy new_buf 0 d.buffer head_idx first_chunk) first_chunk d.buffer 0 tail_idx

  unfoldable pub deque_grow : Deque C → Deque C
  unfolding unwrapped
  deque_grow d =
      let new_cap = d.capacity * 2 % u32 in
      record {
        buffer = unwrapped d new_cap;
        capacity = new_cap;
        head = 0;
        tail = cell_deque_size d;
      }

  -- `if (size == capacity) deque_grow(d);`
  unfoldable pub make_room : Deque C → Deque C
  unfolding deque_grow
  make_room d = if cell_deque_size d == d.capacity then deque_grow d else d

  unfoldable pub cell_deque_push_front : Deque C → C → Deque C
  unfolding make_room
  cell_deque_push_front d val =
      let d = make_room d in
      let head = (d.head + u32 - 1) % u32 in
      record d { buffer = set d.buffer (deque_idx head d.capacity) (some val); head = head }

  unfoldable pub cell_deque_push_back : Deque C → C → Deque C
  unfolding make_room
  cell_deque_push_back d val =
      let d = make_room d in
      record d {
        buffer = set d.buffer (deque_idx d.tail d.capacity) (some val);
        tail = (d.tail + 1) % u32;
      }

  unfoldable pub cell_deque_pop_front : Deque C → Option C × Deque C
  cell_deque_pop_front d =
      let idx = deque_idx d.head d.capacity in
      if cell_deque_size d == 0 then (none, d) else (
        get_or d.buffer idx none,
        record d { buffer = set d.buffer idx none; head = (d.head + 1) % u32 },
      )

  unfoldable pub cell_deque_pop_back : Deque C → Option C × Deque C
  cell_deque_pop_back d =
      let tail = (d.tail + u32 - 1) % u32 in
      let idx = deque_idx tail d.capacity in
      if cell_deque_size d == 0
      then (none, d)
      else (get_or d.buffer idx none, record d { buffer = set d.buffer idx none; tail = tail })

  unfoldable pub cell_deque_peek_front : Deque C → Option C
  cell_deque_peek_front d =
      if cell_deque_size d == 0 then none else get_or d.buffer (deque_idx d.head d.capacity) none

  unfoldable pub cell_deque_peek_back : Deque C → Option C
  cell_deque_peek_back d =
      if cell_deque_size d == 0
      then none
      else get_or d.buffer (deque_idx ((d.tail + u32 - 1) % u32) d.capacity) none

  -- The loop of `cell_deque_to_list` from `i` down to 1.
  unfoldable pub to_list_from : Deque C → ℕ → List (Option C) → List (Option C)
  to_list_from d zero result = result
  to_list_from d (suc i) result =
      to_list_from d i (get_or d.buffer (deque_idx ((d.head + i) % u32) d.capacity) none ∷ result)

  unfoldable pub cell_deque_to_list : Deque C → List (Option C)
  unfolding to_list_from
  cell_deque_to_list d = to_list_from d (cell_deque_size d) []
