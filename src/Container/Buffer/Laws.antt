-- ===== src/Container/Buffer/Laws.antt =====
-- The operations of a buffer act on the list of its bytes.
use guage.Prelude.{
  ℕ, zero, suc, ◌+◌, ◌*◌, ◌%◌, ◌^◌, ◌≤◌, ◌<◌, ◌≡◌, refl, ap, ap₂, ◌∙◌, inl, inr, some, List, [],
  ◌∷◌, ◌++◌, arith, ltb, leb, if◌then◌else◌, leb→le, Bool-cases, length, get_or, set, take,
  replicate, length-append, length-set, length-take, length-replicate, append_nil, take_snoc,
  take-take_append, take-set_next, take-append_both,
}
use guage.Container.Memory.{memcpy}
use guage.Container.Memory.Copy.{length-memcpy, round_up_lem}
use guage.Container.Buffer.{
  Buffer, min_cap, cell_buffer_new, buffer_grow, cell_buffer_append, cell_buffer_concat, bytes_down,
  cell_buffer_to_list, cell_buffer_to_string,
}

-- `b` holds the bytes of `l` in front.
pub record IsBufferOf (b : Buffer) (l : List ℕ) : Type 0 where
  pub width : length b.bytes ≡ b.capacity
  pub counted : b.size ≡ length l
  pub fits : length l ≤ b.capacity
  pub least : min_cap ≤ b.capacity
  pub content : take b.size b.bytes ≡ l

-- 32 rounds find a capacity for every request up to 2 ^ 31.
new_lem :
    (n : ℕ)
    → n ≤ 2 ^ 31
    → (cap : ℕ) × (cell_buffer_new 32 n
        ≡ some (record { bytes = replicate cap 0; size = 0; capacity = cap }))
      × (n ≤ cap)
      × (min_cap ≤ cap)
unfolding cell_buffer_new
new_lem n small =
    let (m, e, le, top, enough) =
      round_up_lem 32 6 (if ltb n min_cap then min_cap else n) (omega arith) (ground arith)
        (omega arith) in
    (2 ^ m, rw (e, cell_buffer_new) refl, at_least n (2 ^ m) enough, at_least_min n (2 ^ m) enough)
  where
    at_least : (n cap : ℕ) → (if ltb n min_cap then min_cap else n) ≤ cap → n ≤ cap
    at_least n cap h = ground arith

    at_least_min : (n cap : ℕ) → (if ltb n min_cap then min_cap else n) ≤ cap → min_cap ≤ cap
    at_least_min n cap h = ground arith

module _ (b : Buffer) (l : List ℕ) (h : IsBufferOf b l) (few : length l < 2 ^ 31) where
  abbrev next_cap : ℕ
  next_cap = b.capacity * 2 % 2 ^ 32

  abbrev blank : List ℕ
  blank = replicate next_cap 0

  length-blank : length blank ≡ next_cap
  length-blank = length-replicate next_cap 0

  grown : b.capacity ≤ b.size → IsBufferOf (buffer_grow b) l × (length l < (buffer_grow b).capacity)
  unfolding buffer_grow
  grown full = (
    record {
      width =
          length-memcpy blank b.bytes 0 0 b.size
            (omega (arith, length-blank, h.counted, h.fits, h.least))
            (omega (arith, h.width, h.counted, h.fits))
          ∙ length-blank;
      counted = h.counted;
      fits = omega (arith, h.counted, h.fits, h.least);
      least = omega (arith, h.counted, h.fits, h.least);
      content =
          take-take_append b.size b.bytes _ (omega (arith, h.width, h.counted, h.fits)) ∙ h.content;
    },
    omega (arith, h.counted, h.fits, h.least),
  )

append_room :
    (b : Buffer) (l : List ℕ)
    → IsBufferOf b l
    → (x : ℕ) → length l < b.capacity
    → length l < 2 ^ 31
    → IsBufferOf
        (record b { bytes = set b.bytes b.size x; size = (b.size + 1) % 2 ^ 32 })
        (l ++ (x ∷ []))
append_room b l h x room few = record {
  width = length-set b.bytes b.size x ∙ h.width;
  counted = omega (arith, h.counted, length-append l (x ∷ []));
  fits = omega (arith, length-append l (x ∷ []));
  least = h.least;
  content =
      ap (λ n. take n (set b.bytes b.size x)) (omega (arith, h.counted))
      ∙ take-set_next b.size b.bytes x (omega (arith, h.counted, h.width))
      ∙ ap (λ y. y ++ (x ∷ [])) h.content;
}

-- While fewer than 2 ^ 31 bytes are held, cell_buffer_append turns a buffer of the bytes l into a
-- buffer of l with the new byte at its end, also when the block is full and doubles.
pub buffer_append-IsBufferOf :
    (b : Buffer) (l : List ℕ) (x : ℕ)
    → IsBufferOf b l
    → length l < 2 ^ 31
    → IsBufferOf (cell_buffer_append b x) (l ++ (x ∷ []))
unfolding cell_buffer_append
buffer_append-IsBufferOf b l x h few = elim (Bool-cases (leb b.capacity b.size)) [
  | inl full ↦
      let (kept, room) = grown b l h few (leb→le b.capacity b.size full) in
      rw full (append_room (buffer_grow b) l kept x room few)
  | inr room ↦ rw room (append_room b l h x (ground (arith, h.counted)) few)
]

-- Of a buffer of the bytes l and one of the bytes m, together at most 2 ^ 31, cell_buffer_concat
-- makes a buffer of l and then m; 32 rounds find its capacity.
pub buffer_concat-IsBufferOf :
    (a b : Buffer) (l m : List ℕ)
    → IsBufferOf a l
    → IsBufferOf b m
    → length l + length m ≤ 2 ^ 31
    → (r : Buffer) × (cell_buffer_concat 32 a b ≡ some r) × IsBufferOf r (l ++ m)
unfolding cell_buffer_concat
buffer_concat-IsBufferOf a b l m h k few =
    let (cap, e, enough, least) =
      new_lem ((a.size + b.size) % 2 ^ 32) (omega (arith, h.counted, k.counted)) in
    let blank : List ℕ = replicate cap 0 in
    let length-blank : length blank ≡ cap = length-replicate cap zero in
    let first : List ℕ = memcpy blank 0 a.bytes 0 a.size in
    let length-first : length first ≡ cap =
      length-memcpy blank a.bytes 0 0 a.size (omega (arith, length-blank, h.counted, k.counted))
        (omega (arith, h.width, h.counted, h.fits))
      ∙ length-blank in
    (
      record {
        bytes = memcpy first a.size b.bytes 0 b.size;
        size = (a.size + b.size) % 2 ^ 32;
        capacity = cap;
      },
      rw (e, cell_buffer_concat) refl,
      record {
        width =
            length-memcpy first b.bytes a.size 0 b.size
              (omega (arith, length-first, h.counted, k.counted))
              (omega (arith, k.width, k.counted, k.fits))
            ∙ length-first;
        counted = omega (arith, h.counted, k.counted, length-append l m);
        fits = omega (arith, h.counted, k.counted, length-append l m);
        least = least;
        content =
            ap (λ n. take n (memcpy first a.size b.bytes 0 b.size))
              (omega (arith, h.counted, k.counted))
            ∙ take-append_both a.size b.size (take a.size first) (take b.size b.bytes) _
                (omega (arith, length-take a.size first, length-first, h.counted, k.counted))
                (omega (arith, length-take b.size b.bytes, k.width, k.counted, k.fits))
            ∙ ap₂ ◌++◌
                (take-take_append a.size a.bytes _ (omega (arith, h.width, h.counted, h.fits))
                  ∙ h.content)
                k.content;
      },
    )

bytes_down_lem :
    (bytes : List ℕ) (n : ℕ) (r : List ℕ)
    → n ≤ length bytes
    → bytes_down bytes n r ≡ take n bytes ++ r
unfolding bytes_down
bytes_down_lem bytes zero r p = refl
bytes_down_lem bytes (suc n) r p =
    bytes_down_lem bytes n (get_or bytes n 0 ∷ r) (omega arith) ∙ take_snoc n bytes 0 r p

-- On a buffer of the bytes l, cell_buffer_to_list is l, and cell_buffer_to_string is l and the 0
-- that ends a string.
pub buffer_to_list-IsBufferOf :
    (b : Buffer) (l : List ℕ)
    → IsBufferOf b l
    → (cell_buffer_to_list b ≡ l) × (cell_buffer_to_string b ≡ l ++ (0 ∷ []))
unfolding cell_buffer_to_list cell_buffer_to_string
buffer_to_list-IsBufferOf b l h = (
  bytes_down_lem b.bytes b.size [] (omega (arith, h.width, h.counted, h.fits))
      ∙ append_nil (take b.size b.bytes)
      ∙ h.content,
  ap (λ x. x ++ (0 ∷ [])) h.content,
)
