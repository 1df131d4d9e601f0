-- ===== src/Container/Buffer.antt =====
-- The byte buffer of bootstrap/cell.c (`cell_buffer_*`): `size` bytes of a heap block. A failed
-- `assert` is `none`; so is a loop for the capacity that has not ended after its rounds.
pub mod Laws
mod Tests
use guage.Prelude.{
  ℕ, zero, suc, ◌+◌, ◌-◌, ◌*◌, ◌%◌, ◌^◌, Option, none, some, List, [], ◌∷◌, ◌++◌, ltb, leb,
  if◌then◌else◌, length, get_or, set, take, replicate,
}
use guage.Container.Memory.{memcpy, round_up}

pub record Buffer : Type 0 where
  pub bytes : List ℕ
  pub size : ℕ
  pub capacity : ℕ

-- `BUFFER_MIN_CAP`
abbrev pub min_cap : ℕ
min_cap = 64

unfoldable pub cell_buffer_new : ℕ → ℕ → Option Buffer
cell_buffer_new rounds initial_cap =
    elim (round_up rounds min_cap (if ltb initial_cap min_cap then min_cap else initial_cap)) [
      | none ↦ none
      | some cap ↦ some (record { bytes = replicate cap 0; size = 0; capacity = cap })
    ]

unfoldable pub buffer_grow : Buffer → Buffer
buffer_grow buf =
    let new_cap = buf.capacity * 2 % 2 ^ 32 in
    record buf { bytes = memcpy (replicate new_cap 0) 0 buf.bytes 0 buf.size; capacity = new_cap }

unfoldable pub cell_buffer_get : Buffer → ℕ → Option ℕ
cell_buffer_get buf idx = if ltb idx buf.size then some (get_or buf.bytes idx 0) else none

unfoldable pub cell_buffer_set : Buffer → ℕ → ℕ → Option Buffer
cell_buffer_set buf idx val =
    if ltb idx buf.size then some (record buf { bytes = set buf.bytes idx val }) else none

unfoldable pub cell_buffer_append : Buffer → ℕ → Buffer
unfolding buffer_grow
cell_buffer_append buf val =
    let buf = if leb buf.capacity buf.size then buffer_grow buf else buf in
    record buf { bytes = set buf.bytes buf.size val; size = (buf.size + 1) % 2 ^ 32 }

unfoldable pub cell_buffer_concat : ℕ → Buffer → Buffer → Option Buffer
unfolding cell_buffer_new
cell_buffer_concat rounds a b =
    let total = (a.size + b.size) % 2 ^ 32 in
    elim (cell_buffer_new rounds total) [
      | none ↦ none
      | some result ↦ some (record result {
        bytes = memcpy (memcpy result.bytes 0 a.bytes 0 a.size) a.size b.bytes 0 b.size;
        size = total;
      })
    ]

-- The three tests that clamp the bounds of a slice.
abbrev pub clamped : ℕ → ℕ → ℕ → ℕ × ℕ
clamped size start end =
    let start = if ltb size start then size else start in
    let end = if ltb size end then size else end in (start, if ltb end start then start else end)

unfoldable pub cell_buffer_slice : ℕ → Buffer → ℕ → ℕ → Option Buffer
unfolding cell_buffer_new
cell_buffer_slice rounds buf start end =
    let (start, end) = clamped buf.size start end in
    let len = end - start in
    elim (cell_buffer_new rounds len) [
      | none ↦ none
      | some result ↦ some (record result {
        bytes = if ltb 0 len then memcpy result.bytes 0 buf.bytes start len else result.bytes;
        size = len;
      })
    ]

-- The loop of `cell_buffer_to_list` from `i` down to 1.
unfoldable pub bytes_down : List ℕ → ℕ → List ℕ → List ℕ
bytes_down bytes zero result = result
bytes_down bytes (suc i) result = bytes_down bytes i (get_or bytes i 0 ∷ result)

unfoldable pub cell_buffer_to_list : Buffer → List ℕ
unfolding bytes_down
cell_buffer_to_list buf = bytes_down buf.bytes buf.size []

-- The bytes of the string, with the 0 that ends it.
unfoldable pub cell_buffer_to_string : Buffer → List ℕ
cell_buffer_to_string buf = take buf.size buf.bytes ++ (0 ∷ [])

-- `str` are the bytes before the 0 that ends the string.
unfoldable pub cell_buffer_from_string : ℕ → List ℕ → Option Buffer
unfolding cell_buffer_new
cell_buffer_from_string rounds str =
    let len = length str % 2 ^ 32 in
    elim (cell_buffer_new rounds len) [
      | none ↦ none
      | some buf ↦ some (record buf { bytes = memcpy buf.bytes 0 str 0 len; size = len })
    ]
