-- ===== src/Language/Source/Files.antt =====
-- The search for the file of a position (bootstrap/span.c: `srcmap_file_for_pos`).
use guage.Prelude.{
  ℕ, zero, suc, ◌+◌, ◌-◌, ◌/◌, ◌%◌, ◌≤◌, ◌<◌, dec_lt, ℕ_discrete, ◌≡◌, refl, sym, ap, ◌∙◌, inl, inr,
  true, false, ◌||◌, none, some, List, [], ◌∷◌, ◌++◌, map, arith, ltb, leb, ◌==◌, ltb→lt,
  Bool-cases, length, get_or,
}
use guage.Language.Source.{SourceFile, SourceMap, no_file, fallback, file_loop, srcmap_file_for_pos}
use guage.Language.Span.{u32}

-- The files stand one after the other from `b`, each with one byte behind its last, up to `e`.
abbrev pub Chained : ℕ → List SourceFile → ℕ → Type 0
Chained b [] e = b ≡ e
Chained b (f ∷ fs) e = (f.base ≡ b) × Chained (b + (f.size + 1)) fs e

pub Chained-append :
    (b e : ℕ) (fs : List SourceFile) (f : SourceFile)
    → Chained b fs e
    → f.base ≡ e
    → Chained b (fs ++ (f ∷ [])) (e + (f.size + 1))
Chained-append b e [] f h k = (k ∙ sym h, ap (λ x. x + (f.size + 1)) h)
Chained-append b e (g ∷ fs) f h k = (h.0, Chained-append (b + (g.size + 1)) e fs f h.1 k)

Chained-le : (b e : ℕ) (fs : List SourceFile) → Chained b fs e → b ≤ e
Chained-le b e [] h = omega (arith, h)
Chained-le b e (f ∷ fs) h = let r = Chained-le (b + (f.size + 1)) e fs h.1 in omega arith

-- File `k` lies between the two ends.
pub Chained-within :
    (b e : ℕ) (fs : List SourceFile) (k : ℕ)
    → Chained b fs e
    → k < length fs
    → (b ≤ (get_or fs k no_file).base)
      × ((get_or fs k no_file).base + (get_or fs k no_file).size < e)
Chained-within b e [] k h l = absurd (omega arith)
Chained-within b e (f ∷ fs) zero h l =
    let r = Chained-le (b + (f.size + 1)) e fs h.1 in (omega (arith, h.0), omega (arith, h.0))
Chained-within b e (f ∷ fs) (suc k) h l =
    let r = Chained-within (b + (f.size + 1)) e fs k h.1 (omega arith) in (omega (arith, r.0), r.1)

-- A file ends before the files behind it start.
pub Chained-apart :
    (b e : ℕ) (fs : List SourceFile) (i j : ℕ)
    → Chained b fs e
    → i < j
    → j < length fs
    → ((get_or fs i no_file).base + (get_or fs i no_file).size < (get_or fs j no_file).base)
Chained-apart b e [] i j h l k = absurd (omega arith)
Chained-apart b e (f ∷ fs) i zero h l k = absurd (omega arith)
Chained-apart b e (f ∷ fs) zero (suc j) h l k =
    let r = Chained-within (b + (f.size + 1)) e fs j h.1 (omega arith) in omega (arith, r.0, h.0)
Chained-apart b e (f ∷ fs) (suc i) (suc j) h l k =
    Chained-apart (b + (f.size + 1)) e fs i j h.1 (omega arith) (omega arith)

abbrev pub base_at : List SourceFile → ℕ → ℕ
base_at fs k = (get_or fs k no_file).base

abbrev pub end_at : List SourceFile → ℕ → ℕ
end_at fs k = (get_or fs k no_file).base + (get_or fs k no_file).size

module _ (b e : ℕ) (fs : List SourceFile) (ch : Chained b fs e) (fits : e ≤ u32) where
  -- The sum of base and size does not wrap.
  file_end :
      (k : ℕ)
      → k < length fs
      → (((get_or fs k no_file).base + (get_or fs k no_file).size) % u32
          ≡ (get_or fs k no_file).base + (get_or fs k no_file).size)
  file_end k l = let r = Chained-within b e fs k ch l in omega (arith, r.1)

  file_before :
      (i j pos : ℕ) → i < length fs → j < length fs → end_at fs i < pos → pos ≤ end_at fs j → i < j
  file_before i j pos a c x y = elim (dec_lt j i) [
    | yes h ↦ let r = Chained-apart b e fs j i ch h a in omega arith
    | no h ↦ elim (ℕ_discrete i j) [
      | yes q ↦ let z : end_at fs j < pos = rw q at x in omega arith
      | no q ↦ omega arith
    ]
  ]

  file_after :
      (i j pos : ℕ)
      → i < length fs
      → j < length fs
      → pos < base_at fs i
      → base_at fs j ≤ pos
      → j < i
  file_after i j pos a c x y = elim (dec_lt i j) [
    | yes h ↦ let r = Chained-apart b e fs i j ch h c in omega arith
    | no h ↦ elim (ℕ_discrete i j) [
      | yes q ↦ let z : pos < base_at fs j = rw q at x in omega arith
      | no q ↦ omega arith
    ]
  ]

  -- At most one file has a position.
  file_unique :
      (i j pos : ℕ)
      → i < length fs
      → j < length fs
      → base_at fs i ≤ pos
      → pos ≤ end_at fs i
      → base_at fs j ≤ pos
      → pos ≤ end_at fs j
      → i ≡ j
  file_unique i j pos a c x y z w = elim (dec_lt i j) [
    | yes h ↦ let r = Chained-apart b e fs i j ch h c in absurd (omega arith)
    | no h ↦ elim (dec_lt j i) [
      | yes k ↦ let r = Chained-apart b e fs j i ch k a in absurd (omega arith)
      | no k ↦ omega arith
    ]
  ]

  -- The loop keeps the file between its bounds.
  file_loop-found :
      (n pos k lo hi : ℕ)
      → (get_or fs k no_file).base ≤ pos
      → pos ≤ (get_or fs k no_file).base + (get_or fs k no_file).size
      → lo ≤ k
      → k < hi
      → hi ≤ length fs
      → hi ≤ lo + n
      → file_loop n fs pos lo hi ≡ some (get_or fs k no_file)
  file_loop-found zero pos k lo hi x y l r t f = absurd (omega arith)
  file_loop-found (suc n) pos k lo hi x y l r t f =
      let mid = lo + (hi - lo) / 2 in
      let m = get_or fs mid no_file in
      let w : ltb lo hi ≡ true = ground arith in
      let end : (m.base + m.size) % u32 ≡ m.base + m.size = file_end mid (omega arith) in
      rw (w, end)
        (elim (Bool-cases (ltb (m.base + m.size) pos)) [
          | inl a ↦ rw a (
              file_loop-found n pos k (mid + 1) hi x y
                (let z = file_before mid k pos (omega arith) (omega arith) (ltb→lt _ _ a) y in
                  omega arith)
                r t (omega arith))
          | inr a ↦ elim (Bool-cases (ltb pos m.base)) [
            | inl c ↦
                rw (a, c)
                  (file_loop-found n pos k lo mid x y l
                    (file_after mid k pos (omega arith) (omega arith) (ltb→lt _ _ c) x)
                    (omega arith) (omega arith))
            | inr c ↦
                rw (a, c)
                  (ap (λ i. some (get_or fs i no_file))
                    (file_unique mid k pos (omega arith) (omega arith) (ground arith) (ground arith)
                      x y))
          ]
        ])

  -- Past the last file the loop runs to its end and finds nothing.
  file_loop-past :
      (n pos lo hi : ℕ) → e ≤ pos → hi ≤ length fs → lo ≤ hi → file_loop n fs pos lo hi ≡ none
  file_loop-past zero pos lo hi x t l = refl
  file_loop-past (suc n) pos lo hi x t l =
      let mid = lo + (hi - lo) / 2 in
      let m = get_or fs mid no_file in
      elim (dec_lt lo hi) [
        | yes h ↦
            let w : ltb lo hi ≡ true = ground arith in
            let last = Chained-within b e fs mid ch (omega arith) in
            let end : (m.base + m.size) % u32 ≡ m.base + m.size = file_end mid (omega arith) in
            let a : ltb (m.base + m.size) pos ≡ true = ground (arith, last.1) in
            rw (w, end, a) (file_loop-past n pos (mid + 1) hi x t (omega arith))
        | no h ↦ let w : ltb lo hi ≡ false = ground arith in rw w (nothing lo (omega arith))
      ]
    where
      nothing : (k : ℕ) → k ≤ length fs → fallback fs pos k ≡ none
      nothing zero c = refl
      nothing (suc k) c =
          let last = Chained-within b e fs k ch c in
          let end = file_end k c in
          let d : ltb pos (end_at fs k) ≡ false = ground (arith, last.1) in
          elim (Bool-cases (leb (base_at fs k) pos)) [
            | inl a ↦ rw (end, d, a) refl
            | inr a ↦ rw (end, d, a) refl
          ]

-- The files of a map fill the positions from 1 to `next_base`.
abbrev pub IsLaidOut : SourceMap → Type 0
IsLaidOut map = Chained 1 map.files map.next_base × (map.next_base < u32)

module _ (map : SourceMap) (v : IsLaidOut map) where
  -- A position within a file, or at its end, finds that file.
  pub file_for_pos-found :
      (k pos : ℕ)
      → k < length map.files
      → base_at map.files k ≤ pos
      → pos ≤ end_at map.files k
      → srcmap_file_for_pos map pos ≡ some (get_or map.files k no_file)
  unfolding srcmap_file_for_pos
  file_for_pos-found k pos l x y =
      let within = Chained-within 1 map.next_base map.files k v.0 l in
      let some_file : (length map.files == 0) ≡ false = ground arith in
      let some_pos : (pos == 0) ≡ false = ground (arith, within.0) in
      rw (some_file, some_pos)
        (file_loop-found 1 map.next_base map.files v.0 (omega (arith, v.1)) (suc (length map.files))
          pos k 0 (length map.files) x y (omega arith) l (omega arith) (omega arith))

  -- A position behind all files finds none.
  pub file_for_pos-past : (pos : ℕ) → map.next_base ≤ pos → srcmap_file_for_pos map pos ≡ none
  unfolding srcmap_file_for_pos
  file_for_pos-past pos x = elim (Bool-cases (length map.files == 0 || pos == 0)) [
    | inl a ↦ rw a refl
    | inr a ↦ rw a (
        file_loop-past 1 map.next_base map.files v.0 (omega (arith, v.1)) (suc (length map.files))
          pos 0 (length map.files) x (omega arith) (omega arith))
  ]

-- Every position of the files lies in one of them.
pub Chained-cover :
    (b e : ℕ) (fs : List SourceFile) (pos : ℕ)
    → Chained b fs e
    → b ≤ pos
    → pos < e
    → (k : ℕ) × (k < length fs) × (base_at fs k ≤ pos) × (pos ≤ end_at fs k)
Chained-cover b e [] pos h x y = absurd (omega (arith, h))
Chained-cover b e (f ∷ fs) pos h x y = elim (dec_lt pos (b + (f.size + 1))) [
  | yes l ↦ (0, omega arith, omega (arith, h.0), omega (arith, h.0))
  | no l ↦
      let (k, c, u, w) = Chained-cover (b + (f.size + 1)) e fs pos h.1 (omega arith) y in
      (suc k, omega arith, u, w)
]
