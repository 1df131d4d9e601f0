-- ===== src/Container/Deque/Laws.antt =====
-- The operations of a deque act on the list of its cells.
use guage.Prelude.{
  ℕ, ◌^◌, ◌≤◌, ◌<◌, ◌≡◌, refl, Option, none, some, List, [], ◌∷◌, ◌++◌, arith, ltb, if◌then◌else◌,
  length, replicate, length-replicate,
}
use guage.Container.Memory.Copy.{round_up_lem}
use guage.Container.Deque.{
  Deque, min_cap, cell_deque_new, make_room, cell_deque_push_front, cell_deque_push_back,
}
use guage.Container.Deque.Refines.{Holds, push_back_room, push_front_room}
use guage.Container.Deque.Grow.{make_room-Holds}

-- While fewer than 2 ^ 31 cells are held, cell_deque_push_back turns a deque that holds the list l
-- into one that holds l with the new cell at its end, also when the ring is full, wrapped or at
-- the end of the 32-bit counters.
pub push_back-Holds {ℓ} :
    {C : Type ℓ} (d : Deque C) (l : List (Option C)) (v : C)
    → Holds d l
    → length l < 2 ^ 31
    → Holds (cell_deque_push_back d v) (l ++ (some v ∷ []))
unfolding cell_deque_push_back
push_back-Holds d l v h few =
    let (held, room) = make_room-Holds d l h few in
    push_back_room (make_room d) l (some v) held room

-- While fewer than 2 ^ 31 cells are held, cell_deque_push_front turns a deque that holds the list
-- l into one that holds the new cell and then l, also when the ring is full, wrapped or the head
-- passes below 0.
pub push_front-Holds {ℓ} :
    {C : Type ℓ} (d : Deque C) (l : List (Option C)) (v : C)
    → Holds d l
    → length l < 2 ^ 31
    → Holds (cell_deque_push_front d v) (some v ∷ l)
unfolding cell_deque_push_front
push_front-Holds d l v h few =
    let (held, room) = make_room-Holds d l h few in
    push_front_room (make_room d) l (some v) held room

abbrev requested : ℕ → ℕ
requested initial_cap = if ltb initial_cap min_cap then min_cap else initial_cap

at_least : (n cap : ℕ) → requested n ≤ cap → n ≤ cap
at_least n cap h = ground arith

-- For a request of at most 2 ^ 31 slots the loop that rounds the capacity up ends within 32
-- rounds, and cell_deque_new returns an empty deque with at least that many slots.
pub new-Holds {ℓ} :
    {C : Type ℓ} (initial_cap : ℕ)
    → initial_cap ≤ 2 ^ 31
    → (d : Deque C) × (cell_deque_new 32 initial_cap ≡ some d)
      × Holds d []
      × (initial_cap ≤ d.capacity)
unfolding cell_deque_new
new-Holds initial_cap small =
    let (m, e, le, top, enough) =
      round_up_lem 32 3 (requested initial_cap) (omega arith) (ground arith) (omega arith) in
    (
      record { buffer = replicate (2 ^ m) none; capacity = 2 ^ m; head = 0; tail = 0 },
      rw (e, cell_deque_new) refl,
      record {
        exponent = m;
        power = refl;
        exponent_min = le;
        exponent_max = top;
        width = length-replicate (2 ^ m) none;
        head_word = omega arith;
        tail_word = omega arith;
        counted = refl;
        fits = omega arith;
        items = λ j p. absurd (omega arith);
      },
      at_least initial_cap (2 ^ m) enough,
    )
