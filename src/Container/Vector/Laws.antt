-- ===== src/Container/Vector/Laws.antt =====
-- The operations of a vector act on the list of its cells.
use guage.Prelude.{
  ℕ, zero, suc, ◌+◌, ◌-◌, ◌%◌, ◌^◌, ◌≤◌, ◌<◌, ◌≡◌, refl, sym, ap, ◌∙◌, inl, inr, Option, none, some,
  List, [], ◌∷◌, ◌++◌, arith, ltb, leb, ◌==◌, if◌then◌else◌, ltb→lt, leb→le, ==_iff, Bool-cases,
  length, get_or, set, take, replicate, length-append, length-set, length-take, length-replicate,
  append_nil, take_snoc, take-take_append, take-set, set_past, take-set_next, take-take,
  get_or-take, get_or_past,
}
use guage.Container.Memory.Copy.{length-memcpy}
use guage.Container.Vector.{
  Vector, sbo_cap, initial_heap_cap, vec_next_cap, round_cap, vector_grow, cell_vector_new,
  cell_vector_get, cell_vector_set, cell_vector_push, cell_vector_pop, to_list_down,
  cell_vector_to_list,
}

-- `v` holds the cells of `l` in its first slots.
pub record IsVectorOf {ℓ} {C : Type ℓ} (v : Vector C) (l : List (Option C)) : Type ℓ where
  pub width : length v.buf ≡ v.capacity
  pub counted : v.size ≡ length l
  pub fits : length l ≤ v.capacity
  pub least : sbo_cap ≤ v.capacity
  pub cells : take v.size v.buf ≡ l

-- The loop ends: each round adds at least 4 while nothing wraps.
round_cap_lem :
    (rounds cap wanted : ℕ)
    → 8 ≤ cap
    → wanted ≤ 2 ^ 31
    → 0 < rounds
    → wanted < cap + rounds
    → (m : ℕ) × (round_cap rounds cap wanted ≡ some m) × (8 ≤ m) × (wanted ≤ m)
unfolding round_cap
round_cap_lem zero cap wanted h w some_left r = absurd (omega arith)
round_cap_lem (suc rounds) cap wanted h w some_left r = elim (Bool-cases (ltb cap wanted)) [
  | inl small ↦
      let below : cap < wanted = ltb→lt cap wanted small in
      let (m, e, least, enough) =
        round_cap_lem rounds (vec_next_cap cap) wanted (omega arith) w (omega arith)
          (omega arith) in
      (m, rw small e, least, enough)
  | inr big ↦ (cap, rw big refl, h, ground arith)
]

-- For a request of at most 2 ^ 31 cells the loop that finds the capacity ends within as many
-- rounds as were requested, and cell_vector_new returns an empty vector with at least that
-- capacity.
pub vector_new-IsVectorOf {ℓ} :
    {C : Type ℓ} (initial_cap : ℕ)
    → initial_cap ≤ 2 ^ 31
    → (v : Vector C) × (cell_vector_new initial_cap initial_cap ≡ some v)
      × IsVectorOf v []
      × (initial_cap ≤ v.capacity)
unfolding cell_vector_new
vector_new-IsVectorOf initial_cap small = elim (Bool-cases (leb initial_cap sbo_cap)) [
  | inl b ↦ (
    record { buf = replicate sbo_cap none; size = 0; capacity = sbo_cap },
    rw b refl,
    record { width = refl; counted = refl; fits = omega arith; least = omega arith; cells = refl },
    leb→le initial_cap sbo_cap b,
  )
  | inr b ↦
      let (cap, e, least, enough) =
        round_cap_lem initial_cap initial_heap_cap initial_cap (omega arith) small (ground arith)
          (omega arith) in
      (
        record { buf = replicate cap none; size = 0; capacity = cap },
        rw b (rw (e, cell_vector_new) refl),
        record {
          width = length-replicate cap none;
          counted = refl;
          fits = omega arith;
          least = omega arith;
          cells = refl;
        },
        enough,
      )
]

module _ {ℓ} {C : Type ℓ} (v : Vector C) (l : List (Option C)) (h : IsVectorOf v l) where
  read : (i : ℕ) → i < v.size → get_or v.buf i none ≡ get_or l i none
  read i p = sym (get_or-take v.size v.buf i none p) ∙ ap (λ x. get_or x i none) h.cells

  vector_get-IsVectorOf : (i : ℕ) → cell_vector_get v i ≡ get_or l i none
  unfolding cell_vector_get
  vector_get-IsVectorOf i = elim (Bool-cases (leb v.size i)) [
    | inl b ↦ rw b (sym (get_or_past l i none (omega (arith, leb→le v.size i b, h.counted))))
    | inr b ↦ rw b (read i (ground arith))
  ]

  -- On a vector of the list l, cell_vector_set returns the old cell at the index and leaves a
  -- vector of l with the new cell there; out of range it returns NULL and leaves l.
  pub vector_set-IsVectorOf :
      (i : ℕ) (x : C)
      → ((cell_vector_set v i x).0 ≡ get_or l i none)
        × IsVectorOf (cell_vector_set v i x).1 (set l i (some x))
  unfolding cell_vector_set
  vector_set-IsVectorOf i x = elim (Bool-cases (leb v.size i)) [
    | inl b ↦
        let out : length l ≤ i = omega (arith, leb→le v.size i b, h.counted) in
        rw b (sym (get_or_past l i none out), rw (set_past l i (some x) out) h)
    | inr b ↦ rw b (
      read i (ground arith),
      record {
        width = length-set v.buf i (some x) ∙ h.width;
        counted = omega (arith, h.counted, length-set l i (some x));
        fits = omega (arith, h.fits, length-set l i (some x));
        least = h.least;
        cells = take-set v.size v.buf i (some x) ∙ ap (λ y. set y i (some x)) h.cells;
      },
    )
  ]

  push_room :
      (x : Option C)
      → length l < v.capacity
      → length l < 2 ^ 31
      → IsVectorOf
          (record v { buf = set v.buf v.size x; size = (v.size + 1) % 2 ^ 32 })
          (l ++ (x ∷ []))
  push_room x room few = record {
    width = length-set v.buf v.size x ∙ h.width;
    counted = omega (arith, h.counted, length-append l (x ∷ []));
    fits = omega (arith, length-append l (x ∷ []));
    least = h.least;
    cells =
        ap (λ n. take n (set v.buf v.size x)) (omega (arith, h.counted))
        ∙ take-set_next v.size v.buf x (omega (arith, h.counted, h.width))
        ∙ ap (λ y. y ++ (x ∷ [])) h.cells;
  }

  -- On a vector of the list l, cell_vector_pop returns the last cell of l, or NULL where l is
  -- empty, and leaves a vector of l without its last cell; an empty vector does not change at all.
  pub vector_pop-IsVectorOf :
      ((cell_vector_pop v).0 ≡ get_or l (length l - 1) none)
      × IsVectorOf (cell_vector_pop v).1 (take (length l - 1) l)
      × (length l ≡ 0 → cell_vector_pop v ≡ (none, v))
  unfolding cell_vector_pop
  vector_pop-IsVectorOf = elim (Bool-cases (v.size == 0)) [
    | inl b ↦
        let gone : length l ≡ 0 = sym h.counted ∙ (==_iff _ _).0 b in
        rw b (
          sym (get_or_past l (length l - 1) none (omega arith)),
          record {
            width = h.width;
            counted = omega (arith, h.counted, length-take (length l - 1) l);
            fits = omega (arith, length-take (length l - 1) l);
            least = h.least;
            cells = h.cells ∙ take_past l gone;
          },
          λ z. refl,
        )
    | inr b ↦ rw b (
      ap (λ n. get_or v.buf (n - 1) none) h.counted
          ∙ read (length l - 1) (ground (arith, h.counted)),
      record {
        width = length-set v.buf (v.size - 1) none ∙ h.width;
        counted = omega (arith, h.counted, length-take (length l - 1) l);
        fits = omega (arith, h.fits, length-take (length l - 1) l);
        least = h.least;
        cells =
            take-set (v.size - 1) v.buf (v.size - 1) none
            ∙ set_past (take (v.size - 1) v.buf) (v.size - 1) none
                (omega (arith, length-take (v.size - 1) v.buf))
            ∙ sym (take-take (v.size - 1) v.size v.buf (omega arith))
            ∙ ap (take (v.size - 1)) h.cells
            ∙ ap (λ n. take (n - 1) l) h.counted;
      },
      λ z. absurd (ground (arith, h.counted)),
    )
  ]
    where
      take_past : (l : List (Option C)) → length l ≡ 0 → l ≡ take (length l - 1) l
      take_past [] e = refl
      take_past (x ∷ l) e = absurd (omega arith)

  down_lem :
      (n : ℕ) (r : List (Option C)) → n ≤ length v.buf → to_list_down v.buf n r ≡ take n v.buf ++ r
  unfolding to_list_down
  down_lem zero r p = refl
  down_lem (suc n) r p =
      down_lem n (get_or v.buf n none ∷ r) (omega arith) ∙ take_snoc n v.buf none r p

  vector_to_list-IsVectorOf : cell_vector_to_list v ≡ l
  unfolding cell_vector_to_list
  vector_to_list-IsVectorOf =
      down_lem v.size [] (omega (arith, h.width, h.fits, h.counted))
      ∙ append_nil (take v.size v.buf)
      ∙ h.cells

  -- On a vector of the list l, cell_vector_to_list is l, and cell_vector_get is the cell of l at
  -- the index, or NULL out of range.
  pub vector_reads-IsVectorOf :
      (cell_vector_to_list v ≡ l) × ((i : ℕ) → cell_vector_get v i ≡ get_or l i none)
  vector_reads-IsVectorOf = (vector_to_list-IsVectorOf, vector_get-IsVectorOf)

module _ {ℓ} {C : Type ℓ} (v : Vector C) (l : List (Option C)) (h : IsVectorOf v l)
    (few : length l < 2 ^ 31) where
  abbrev next_cap : ℕ
  next_cap = if leb v.capacity sbo_cap then initial_heap_cap else vec_next_cap v.capacity

  abbrev blank : List (Option C)
  blank = replicate next_cap none

  length-blank : length blank ≡ next_cap
  length-blank = length-replicate next_cap none

  larger : v.size ≡ v.capacity → v.capacity < next_cap
  larger full = ground (arith, h.counted, h.least)

  grown : v.size ≡ v.capacity → IsVectorOf (vector_grow v) l × (length l < (vector_grow v).capacity)
  unfolding vector_grow
  grown full = (
    record {
      width =
          length-memcpy blank v.buf 0 0 v.size (omega (arith, length-blank, larger full))
            (omega (arith, h.width))
          ∙ length-blank;
      counted = h.counted;
      fits = omega (arith, larger full, h.fits);
      least = omega (arith, larger full, h.least);
      cells = take-take_append v.size v.buf _ (omega (arith, h.width)) ∙ h.cells;
    },
    omega (arith, larger full, h.fits),
  )

  -- While fewer than 2 ^ 31 cells are held, cell_vector_push turns a vector of the list l into a
  -- vector of l with the new cell at its end, also when the inline slots or the heap buffer are
  -- full and it grows.
  pub vector_push-IsVectorOf : (x : C) → IsVectorOf (cell_vector_push v x) (l ++ (some x ∷ []))
  unfolding cell_vector_push
  vector_push-IsVectorOf x = elim (Bool-cases (v.size == v.capacity)) [
    | inl b ↦
        let (kept, room) = grown ((==_iff _ _).0 b) in
        rw b (push_room (vector_grow v) l kept (some x) room few)
    | inr b ↦ rw b (push_room v l h (some x) (ground (arith, h.counted, h.fits)) few)
  ]
