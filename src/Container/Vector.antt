-- ===== src/Container/Vector.antt =====
-- The vector of bootstrap/cell.c (`cell_vector_*`). `buf` is what `vec_buf` points to: the four
-- inline slots while the capacity is at most 4, else the heap buffer. A slot is NULL or points to
-- a cell. Every push and set retains its cell; a pop or set hands the old reference over.
pub mod Laws
mod Tests
use guage.Prelude.{
  ℕ, zero, suc, ◌+◌, ◌-◌, ◌/◌, ◌%◌, ◌^◌, Option, none, some, List, [], ◌∷◌, ltb, leb, ◌==◌,
  if◌then◌else◌, get_or, set, replicate,
}
use guage.Container.Memory.{memcpy}

pub record Vector {ℓ} (C : Type ℓ) : Type ℓ where
  pub buf : List (Option C)
  pub size : ℕ
  pub capacity : ℕ

-- `VEC_SBO_CAP` and `VEC_INITIAL_HEAP_CAP`
abbrev pub sbo_cap : ℕ
sbo_cap = 4

abbrev pub initial_heap_cap : ℕ
initial_heap_cap = 8

-- `old + (old >> 1)` on a `uint32_t`
abbrev pub vec_next_cap : ℕ → ℕ
vec_next_cap old = (old + old / 2) % 2 ^ 32

-- `while (cap < initial_cap) cap = vec_next_cap(cap);` by rounds. `none`: still running.
unfoldable pub round_cap : ℕ → ℕ → ℕ → Option ℕ
round_cap zero cap wanted = none
round_cap (suc rounds) cap wanted =
    let rest = round_cap rounds (vec_next_cap cap) wanted in
    if ltb cap wanted then rest else some cap

module _ {ℓ} {C : Type ℓ} where
  unfoldable pub vector_grow : Vector C → Vector C
  vector_grow v =
      let new_cap = if leb v.capacity sbo_cap then initial_heap_cap else vec_next_cap v.capacity in
      record v { buf = memcpy (replicate new_cap none) 0 v.buf 0 v.size; capacity = new_cap }

  unfoldable pub cell_vector_new : ℕ → ℕ → Option (Vector C)
  unfolding round_cap
  cell_vector_new rounds initial_cap =
      let heap = round_cap rounds initial_heap_cap initial_cap in
      if leb initial_cap sbo_cap
      then some (record { buf = replicate sbo_cap none; size = 0; capacity = sbo_cap })
      else elim heap [
        | none ↦ none
        | some cap ↦ some (record { buf = replicate cap none; size = 0; capacity = cap })
      ]

  unfoldable pub cell_vector_get : Vector C → ℕ → Option C
  cell_vector_get v idx = if leb v.size idx then none else get_or v.buf idx none

  unfoldable pub cell_vector_set : Vector C → ℕ → C → Option C × Vector C
  cell_vector_set v idx val =
      if leb v.size idx
      then (none, v)
      else (get_or v.buf idx none, record v { buf = set v.buf idx (some val) })

  unfoldable pub cell_vector_push : Vector C → C → Vector C
  unfolding vector_grow
  cell_vector_push v val =
      let v = if v.size == v.capacity then vector_grow v else v in
      record v { buf = set v.buf v.size (some val); size = (v.size + 1) % 2 ^ 32 }

  unfoldable pub cell_vector_pop : Vector C → Option C × Vector C
  cell_vector_pop v =
      let size = v.size - 1 in
      if v.size == 0
      then (none, v)
      else (get_or v.buf size none, record v { buf = set v.buf size none; size = size })

  -- The loop of `cell_vector_to_list` from `i` down to 1.
  unfoldable pub to_list_down : List (Option C) → ℕ → List (Option C) → List (Option C)
  to_list_down buf zero result = result
  to_list_down buf (suc i) result = to_list_down buf i (get_or buf i none ∷ result)

  unfoldable pub cell_vector_to_list : Vector C → List (Option C)
  unfolding to_list_down
  cell_vector_to_list v = to_list_down v.buf v.size []

  -- The loop of `cell_vector_slice`, `dst[i] = src[start + i]`, for `n` values of `i` from `i`.
  unfoldable pub copy_from : List (Option C) → List (Option C) → ℕ → ℕ → ℕ → List (Option C)
  copy_from dst src start zero i = dst
  copy_from dst src start (suc n) i =
      copy_from (set dst i (get_or src (start + i) none)) src start n (i + 1)

  unfoldable pub cell_vector_slice : ℕ → Vector C → ℕ → ℕ → Option (Vector C)
  unfolding cell_vector_new copy_from
  cell_vector_slice rounds v start end =
      let start = if ltb v.size start then v.size else start in
      let end = if ltb v.size end then v.size else end in
      let end = if ltb end start then start else end in
      let len = end - start in
      elim (cell_vector_new rounds len) [
        | none ↦ none
        | some result ↦
            some (record result { buf = copy_from result.buf v.buf start len 0; size = len })
      ]
