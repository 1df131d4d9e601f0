-- ===== src/Language/Source/Lines.antt =====
-- The table of line starts (bootstrap/span.c: `build_line_table`) and its search (`find_line`).
use guage.Prelude.{
  ℕ, zero, suc, ◌+◌, ◌-◌, ◌/◌, ◌%◌, ◌≤◌, ◌<◌, dec_lt, ◌≡◌, refl, sym, ap₂, ◌∙◌, ◌↔◌, inl, inr, true,
  false, List, [], ◌∷◌, ◌++◌, arith, ltb, leb, if◌then◌else◌, Bool-cases, length, get_or, take,
  length-append, append_nil, count,
}
use guage.Language.Source.{
  SourceFile, is_newline, count_lines, fill_lines, build_line_table, line_loop, find_line,
}
use mathlib.Core.List.{append_assoc}
use guage.Language.Span.{u32}

-- The offsets behind the newlines of a text that stands at offset `i`.
abbrev pub line_ends : ℕ → List ℕ → List ℕ
line_ends i [] = []
line_ends i (c ∷ cs) = if is_newline c then (i + 1) ∷ line_ends (i + 1) cs else line_ends (i + 1) cs

abbrev pub newlines : List ℕ → ℕ
newlines cs = count is_newline cs

pub newlines_le : (cs : List ℕ) → newlines cs ≤ length cs
newlines_le [] = omega arith
newlines_le (c ∷ cs) = ground (arith, newlines_le cs)

pub newlines-take_le : (n : ℕ) (cs : List ℕ) → newlines (take n cs) ≤ newlines cs
newlines-take_le zero cs = omega arith
newlines-take_le (suc n) [] = omega arith
newlines-take_le (suc n) (c ∷ cs) = omega (arith, newlines-take_le n cs)

pub length-line_ends : (i : ℕ) (cs : List ℕ) → length (line_ends i cs) ≡ newlines cs
length-line_ends i [] = refl
length-line_ends i (c ∷ cs) = ground (arith, length-line_ends (i + 1) cs)

count_lines_lem : (cs : List ℕ) (n : ℕ) → n + length cs < u32 → count_lines cs n ≡ n + newlines cs
count_lines_lem [] n h = omega arith
count_lines_lem (c ∷ cs) n h =
    let e : (n + 1) % u32 ≡ n + 1 = omega arith in
    elim (Bool-cases (is_newline c)) [
      | inl b ↦ rw (b, e) (count_lines_lem cs (n + 1) (omega arith) ∙ omega arith)
      | inr b ↦ rw b (count_lines_lem cs n (omega arith) ∙ omega arith)
    ]

fill_lines_lem :
    (cs : List ℕ) (i n : ℕ) (starts : List ℕ)
    → length starts + newlines cs ≤ n
    → fill_lines cs i n starts ≡ starts ++ line_ends i cs
fill_lines_lem [] i n starts h = sym (append_nil starts)
fill_lines_lem (c ∷ cs) i n starts h = elim (Bool-cases (is_newline c)) [
  | inl e ↦
      let fits : ltb (length starts) n ≡ true = ground arith in
      let longer = length-append starts ((i + 1) ∷ []) in
      rw (e, fits)
        (fill_lines_lem cs (i + 1) n (starts ++ ((i + 1) ∷ [])) (ground (arith, longer))
          ∙ append_assoc starts ((i + 1) ∷ []) (line_ends (i + 1) cs))
  | inr e ↦ rw e (fill_lines_lem cs (i + 1) n starts (ground arith))
]

pub build_line_table_lem :
    (source : List ℕ)
    → length source + 1 < u32
    → build_line_table source ≡ (0 ∷ line_ends 0 source, newlines source + 1)
unfolding build_line_table
build_line_table_lem source h =
    let n : count_lines source 1 ≡ newlines source + 1 =
      count_lines_lem source 1 (omega arith) ∙ omega arith in
    ap₂ (λ a b. (a, b)) (fill_lines_lem source 0 (count_lines source 1) (0 ∷ []) (omega (arith, n)))
      n

pub line_ends_past : (cs : List ℕ) (i k : ℕ) → k < newlines cs → i < get_or (line_ends i cs) k 0
line_ends_past [] i k h = omega arith
line_ends_past (c ∷ cs) i zero h = elim (Bool-cases (is_newline c)) [
  | inl e ↦ rw e (omega arith)
  | inr e ↦ rw e (let r = line_ends_past cs (i + 1) 0 (ground arith) in omega (arith, r))
]
line_ends_past (c ∷ cs) i (suc k) h = elim (Bool-cases (is_newline c)) [
  | inl e ↦ rw e (let r = line_ends_past cs (i + 1) k (ground arith) in omega (arith, r))
  | inr e ↦ rw e (let r = line_ends_past cs (i + 1) (suc k) (ground arith) in omega (arith, r))
]

-- The start of line `k + 1` is at most `i + m` exactly when the first `m` bytes have over `k`
-- newlines.
pub line_ends_le :
    (cs : List ℕ) (i m k : ℕ)
    → k < newlines cs
    → (get_or (line_ends i cs) k 0 ≤ i + m) ↔ (k < newlines (take m cs))
line_ends_le [] i m k h = omega arith
line_ends_le (c ∷ cs) i zero k h = let r = line_ends_past (c ∷ cs) i k h in omega (arith, r)
line_ends_le (c ∷ cs) i (suc m) zero h = elim (Bool-cases (is_newline c)) [
  | inl e ↦ rw e (omega arith)
  | inr e ↦ rw e (let r = line_ends_le cs (i + 1) m 0 (ground arith) in omega arith)
]
line_ends_le (c ∷ cs) i (suc m) (suc k) h = elim (Bool-cases (is_newline c)) [
  | inl e ↦ rw e (let r = line_ends_le cs (i + 1) m k (ground arith) in omega arith)
  | inr e ↦ rw e (let r = line_ends_le cs (i + 1) m (suc k) (ground arith) in omega arith)
]

-- The loop keeps `lo ≤ c < hi`, where line `k` starts at or before `offset` exactly when `k ≤ c`.
line_loop_lem :
    (n : ℕ) (starts : List ℕ) (offset c size : ℕ)
    → ((k : ℕ) → k < size → (get_or starts k 0 ≤ offset) ↔ (k ≤ c))
    → (lo hi : ℕ) → lo ≤ c
    → c < hi
    → hi ≤ size
    → hi ≤ lo + n
    → line_loop n starts offset lo hi ≡ c
line_loop_lem zero starts offset c size s lo hi l r b f = omega arith
line_loop_lem (suc n) starts offset c size s lo hi l r b f =
    let mid = lo + (hi - lo) / 2 in
    elim (dec_lt (lo + 1) hi) [
      | yes h ↦
          let t : ltb (lo + 1) hi ≡ true = ground arith in
          let m : mid < size = omega arith in
          let at = s mid m in
          rw t (elim (Bool-cases (leb (get_or starts mid 0) offset)) [
            | inl e ↦ rw e (
                line_loop_lem n starts offset c size s mid hi (at.0 (ground arith)) r b
                  (omega arith))
            | inr e ↦
                let past : c < mid = ground (arith, at.1) in
                rw e
                  (line_loop_lem n starts offset c size s lo mid l past (omega arith) (omega arith))
          ])
      | no h ↦ let t : ltb (lo + 1) hi ≡ false = ground arith in rw t (omega arith)
    ]

-- The line that is found is the number of newlines before the offset.
pub find_line_lem :
    (file : SourceFile) (offset : ℕ)
    → file.line_starts ≡ 0 ∷ line_ends 0 file.source
    → file.line_count ≡ newlines file.source + 1
    → find_line file offset ≡ newlines (take offset file.source)
unfolding find_line
find_line_lem file offset e n =
    let c = newlines (take offset file.source) in
    let few : c ≤ newlines file.source = newlines-take_le offset file.source in
    rw (e, n)
      (line_loop_lem (newlines file.source + 1) (0 ∷ line_ends 0 file.source) offset c
        (newlines file.source + 1) start 0 (newlines file.source + 1) (omega arith) (omega arith)
        (omega arith) (omega arith))
  where
    start :
        (k : ℕ)
        → k < newlines file.source + 1
        → (get_or (0 ∷ line_ends 0 file.source) k 0 ≤ offset)
          ↔ (k ≤ newlines (take offset file.source))
    start zero h = omega arith
    start (suc k) h =
        let r = line_ends_le file.source 0 offset k (omega arith) in
        (λ a. r.0 (omega arith), λ a. omega (arith, r.1 a))
