-- ===== src/Language/Source/LineText.antt =====
-- `srcmap_line_text` against the lines of the text (bootstrap/span.c).
use guage.Prelude.{
  ℕ, zero, suc, ◌+◌, ◌-◌, ◌≤◌, ◌<◌, dec_lt, ◌≡◌, refl, sym, ap, inl, inr, true, false, none, some,
  List, [], ◌∷◌, arith, ltb, leb, ltb→lt, lt→ltb, Bool-cases, length, get_elem?, get_or,
}
use guage.Language.Source.{SourceFile, is_newline, line_end, line_slice, srcmap_line_text}
use guage.Language.Source.Lines.{line_ends, newlines, line_ends_past}
use guage.Language.Source.Valid.{HasTable}
use guage.Language.Source.Texts.{lines, put, start_of, end_of, lines-slice}

-- A line starts before the next one.
rises : (cs : List ℕ) (i k : ℕ) → k < newlines cs → start_of i cs k < get_or (line_ends i cs) k 0
rises [] i k h = absurd (omega arith)
rises (c ∷ cs) i zero h = line_ends_past (c ∷ cs) i 0 h
rises (c ∷ cs) i (suc k) h = elim (Bool-cases (is_newline c)) [
  | inl e ↦ rw e (rises cs (i + 1) k (ground arith))
  | inr e ↦ rw e (rises cs (i + 1) (suc k) (ground arith))
]

-- The byte before the start of a line ends the line before.
newline_before :
    (cs : List ℕ) (i k : ℕ)
    → k < newlines cs
    → is_newline (get_or cs (get_or (line_ends i cs) k 0 - (i + 1)) 0) ≡ true
newline_before [] i k h = absurd (omega arith)
newline_before (c ∷ cs) i zero h = elim (Bool-cases (is_newline c)) [
  | inl e ↦ let z : i + 1 - (i + 1) ≡ 0 = omega arith in rw (e, z) e
  | inr e ↦
      let p = line_ends_past cs (i + 1) 0 (ground arith) in
      let n : get_or (line_ends (i + 1) cs) 0 0 - (i + 1)
          ≡ suc (get_or (line_ends (i + 1) cs) 0 0 - (i + 1 + 1)) =
        omega arith in
      rw (e, n) (newline_before cs (i + 1) 0 (ground arith))
]
newline_before (c ∷ cs) i (suc k) h = elim (Bool-cases (is_newline c)) [
  | inl e ↦
      let p = line_ends_past cs (i + 1) k (ground arith) in
      let n : get_or (line_ends (i + 1) cs) k 0 - (i + 1)
          ≡ suc (get_or (line_ends (i + 1) cs) k 0 - (i + 1 + 1)) =
        omega arith in
      rw (e, n) (newline_before cs (i + 1) k (ground arith))
  | inr e ↦
      let p = line_ends_past cs (i + 1) (suc k) (ground arith) in
      let n : get_or (line_ends (i + 1) cs) (suc k) 0 - (i + 1)
          ≡ suc (get_or (line_ends (i + 1) cs) (suc k) 0 - (i + 1 + 1)) =
        omega arith in
      rw (e, n) (newline_before cs (i + 1) (suc k) (ground arith))
]

line_end_lem :
    (f : SourceFile) (k : ℕ)
    → HasTable f
    → k ≤ newlines f.source
    → line_end f k (start_of 0 f.source k) ≡ end_of 0 f.source k
unfolding line_end
line_end_lem f k t h = elim (Bool-cases (ltb k (newlines f.source))) [
  | inl e ↦
      let l = ltb→lt k (newlines f.source) e in
      let u : ltb (k + 1) (newlines f.source + 1) ≡ true = ground arith in
      let s : k + 1 ≡ suc k = omega arith in
      let r = lt→ltb _ _ (rises f.source 0 k l) in
      let z : 0 + 1 ≡ 1 = omega arith in
      let n = newline_before f.source 0 k l in
      rw (line_end, t.count_eq, t.starts_eq, u, e) (rw s (rw (r, n) refl))
  | inr e ↦
      let u : ltb (k + 1) (newlines f.source + 1) ≡ false = ground arith in
      rw (line_end, t.count_eq, u, e) (omega (arith, t.size_eq))
]

length-put : (c : ℕ) (ls : List (List ℕ)) → 0 < length ls → length (put c ls) ≡ length ls
length-put c [] h = absurd (omega arith)
length-put c (l ∷ ls) h = refl

length-lines : (cs : List ℕ) → length (lines cs) ≡ newlines cs + 1
unfolding lines
length-lines [] = refl
length-lines (c ∷ cs) =
    let r = length-lines cs in
    elim (Bool-cases (is_newline c)) [
      | inl e ↦ rw e (omega (arith, r))
      | inr e ↦ let p = length-put c (lines cs) (omega (arith, r)) in rw e (omega (arith, p, r))
    ]

get_elem?_past {ℓ} : {A : Type ℓ} (xs : List A) (k : ℕ) → length xs ≤ k → get_elem? xs k ≡ none
get_elem?_past [] k h = refl
get_elem?_past (x ∷ xs) zero h = absurd (omega arith)
get_elem?_past (x ∷ xs) (suc k) h = get_elem?_past xs k (omega arith)

line_slice-lines :
    (f : SourceFile) (k : ℕ)
    → HasTable f
    → k ≤ newlines f.source
    → some (line_slice f k) ≡ get_elem? (lines f.source) k
unfolding line_slice
line_slice-lines f k t h =
    let q : get_or f.line_starts k 0 ≡ start_of 0 f.source k = ap (λ l. get_or l k 0) t.starts_eq in
    let e = line_end_lem f k t h in
    let z : start_of 0 f.source k - 0 ≡ start_of 0 f.source k = omega arith in
    rw (line_slice, q, e) (sym (rw z at (lines-slice f.source 0 k h)))

-- For a file with the table of its text, srcmap_line_text of index k is entry k of the text split
-- at its newlines, and NULL where there is no such line.
pub line_text-lines :
    (f : SourceFile) (k : ℕ)
    → HasTable f
    → srcmap_line_text (some f) k ≡ get_elem? (lines f.source) k
unfolding srcmap_line_text
line_text-lines f k t = elim (dec_lt (newlines f.source) k) [
  | yes h ↦
      let u : leb f.line_count k ≡ true = ground (arith, t.count_eq) in
      let n = length-lines f.source in
      rw (srcmap_line_text, u) (sym (get_elem?_past (lines f.source) k (omega (arith, n))))
  | no h ↦
      let u : leb f.line_count k ≡ false = ground (arith, t.count_eq) in
      rw (srcmap_line_text, u) (line_slice-lines f k t (omega arith))
]
