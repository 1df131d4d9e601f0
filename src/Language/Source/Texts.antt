-- ===== src/Language/Source/Texts.antt =====
-- The text of a line (bootstrap/span.c: `srcmap_line_text`).
use guage.Prelude.{
  ℕ, zero, suc, ◌+◌, ◌-◌, ◌≤◌, ◌<◌, ◌≡◌, refl, sym, ap, ap₂, ◌∙◌, inl, inr, true, false, some, List,
  [], ◌∷◌, arith, ltb, if◌then◌else◌, ltb→lt, lt→ltb, Bool-cases, length, get_elem?, get_or, take,
  drop,
}
use guage.Language.Source.{is_newline}
use guage.Language.Source.Lines.{line_ends, newlines, line_ends_past}

-- The lines of a text, without their newlines.
abbrev pub put : ℕ → List (List ℕ) → List (List ℕ)
put c [] = (c ∷ []) ∷ []
put c (l ∷ ls) = (c ∷ l) ∷ ls

unfoldable pub lines : List ℕ → List (List ℕ)
lines [] = [] ∷ []
lines (c ∷ cs) = if is_newline c then [] ∷ lines cs else put c (lines cs)

-- Where line `k` of a text at offset `i` starts and ends.
abbrev pub start_of : ℕ → List ℕ → ℕ → ℕ
start_of i cs k = get_or (i ∷ line_ends i cs) k 0

abbrev pub end_of : ℕ → List ℕ → ℕ → ℕ
end_of i cs k = if ltb k (newlines cs) then get_or (line_ends i cs) k 0 - 1 else i + length cs

start_le : (i : ℕ) (cs : List ℕ) (k : ℕ) → k ≤ newlines cs → i ≤ start_of i cs k
start_le i cs zero h = omega arith
start_le i cs (suc k) h = let p = line_ends_past cs i k (omega arith) in omega arith

end_le : (i : ℕ) (cs : List ℕ) (k : ℕ) → i ≤ end_of i cs k
end_le i cs k = elim (Bool-cases (ltb k (newlines cs))) [
  | inl e ↦ let p = line_ends_past cs i k (ltb→lt _ _ e) in rw e (omega arith)
  | inr e ↦ rw e (omega arith)
]

-- The bytes from `s` to `e` of a text at offset `i`.
abbrev slice : List ℕ → ℕ → ℕ → ℕ → List ℕ
slice cs i s e = take (e - s) (drop (s - i) cs)

slice_shift :
    (c : ℕ) (cs : List ℕ) (i s e : ℕ) → i < s → slice (c ∷ cs) i s e ≡ slice cs (i + 1) s e
slice_shift c cs i s e h = let n : s - i ≡ suc (s - (i + 1)) = omega arith in rw n refl

slice_grow :
    (c : ℕ) (cs : List ℕ) (i e : ℕ) → i < e → slice (c ∷ cs) i i e ≡ c ∷ slice cs (i + 1) (i + 1) e
slice_grow c cs i e h =
    let n : e - i ≡ suc (e - (i + 1)) = omega arith in
    let z : i - i ≡ 0 = omega arith in
    let y : i + 1 - (i + 1) ≡ 0 = omega arith in rw (n, z, y) refl

slice_nil : (cs : List ℕ) (i : ℕ) → slice cs i i i ≡ []
slice_nil cs i = let z : i - i ≡ 0 = omega arith in rw z refl

pub start_newline :
    (c : ℕ) (cs : List ℕ) (i k : ℕ)
    → is_newline c ≡ true
    → start_of i (c ∷ cs) (suc k) ≡ start_of (i + 1) cs k
start_newline c cs i k e = rw e refl

pub start_other :
    (c : ℕ) (cs : List ℕ) (i k : ℕ)
    → is_newline c ≡ false
    → start_of i (c ∷ cs) (suc k) ≡ start_of (i + 1) cs (suc k)
start_other c cs i k e = rw e refl

end_first : (c : ℕ) (cs : List ℕ) (i : ℕ) → is_newline c ≡ true → end_of i (c ∷ cs) 0 ≡ i
end_first c cs i e =
    let t : ltb 0 (newlines (c ∷ cs)) ≡ true = lt→ltb _ _ (rw e (omega arith)) in
    rw t (rw e (omega arith))

end_newline :
    (c : ℕ) (cs : List ℕ) (i k : ℕ)
    → is_newline c ≡ true
    → end_of i (c ∷ cs) (suc k) ≡ end_of (i + 1) cs k
end_newline c cs i k e = elim (Bool-cases (ltb k (newlines cs))) [
  | inl t ↦ let u : ltb (suc k) (1 + newlines cs) ≡ true = ground arith in rw (e, t, u) refl
  | inr t ↦
      let u : ltb (suc k) (1 + newlines cs) ≡ false = ground arith in rw (e, t, u) (omega arith)
]

end_other :
    (c : ℕ) (cs : List ℕ) (i k : ℕ)
    → is_newline c ≡ false
    → end_of i (c ∷ cs) k ≡ end_of (i + 1) cs k
end_other c cs i k e =
    let z : 0 + newlines cs ≡ newlines cs = omega arith in
    elim (Bool-cases (ltb k (newlines cs))) [
      | inl t ↦ rw (e, z, t) refl
      | inr t ↦ rw (e, z, t) (omega arith)
    ]

put_first :
    (c : ℕ) (ls : List (List ℕ)) (l : List ℕ)
    → get_elem? ls 0 ≡ some l
    → get_elem? (put c ls) 0 ≡ some (c ∷ l)
put_first c [] l h = absurd cc
put_first c (x ∷ ls) l h = cc

put_later :
    (c : ℕ) (ls : List (List ℕ)) (k : ℕ) → get_elem? (put c ls) (suc k) ≡ get_elem? ls (suc k)
put_later c [] k = refl
put_later c (x ∷ ls) k = refl

-- The bytes between are the line.
pub lines-slice :
    (cs : List ℕ) (i k : ℕ)
    → k ≤ newlines cs
    → get_elem? (lines cs) k ≡ some (slice cs i (start_of i cs k) (end_of i cs k))
unfolding lines
lines-slice [] i zero h = let z : i + 0 - i ≡ 0 = omega arith in rw z refl
lines-slice [] i (suc k) h = absurd (omega arith)
lines-slice (c ∷ cs) i zero h = elim (Bool-cases (is_newline c)) [
  | inl e ↦
      rw e refl
      ∙ ap some (sym (slice_nil (c ∷ cs) i) ∙ ap (slice (c ∷ cs) i i) (sym (end_first c cs i e)))
  | inr e ↦
      let r = lines-slice cs (i + 1) 0 (omega arith) in
      let past : i < end_of (i + 1) cs 0 = let p = end_le (i + 1) cs 0 in omega arith in
      rw e (put_first c (lines cs) _ r)
      ∙ ap some (
          sym (slice_grow c cs i (end_of (i + 1) cs 0) past)
          ∙ ap (slice (c ∷ cs) i i) (sym (end_other c cs i 0 e)))
]
lines-slice (c ∷ cs) i (suc k) h = elim (Bool-cases (is_newline c)) [
  | inl e ↦
      let fits : k ≤ newlines cs = ground arith in
      let r = lines-slice cs (i + 1) k fits in
      let past : i < start_of (i + 1) cs k = let p = start_le (i + 1) cs k fits in omega arith in
      rw e r
      ∙ ap some (
          sym (slice_shift c cs i (start_of (i + 1) cs k) (end_of (i + 1) cs k) past)
          ∙ sym (ap₂ (slice (c ∷ cs) i) (start_newline c cs i k e) (end_newline c cs i k e)))
  | inr e ↦
      let fits : suc k ≤ newlines cs = ground arith in
      let r = lines-slice cs (i + 1) (suc k) fits in
      let past : i < start_of (i + 1) cs (suc k) =
        let p = start_le (i + 1) cs (suc k) fits in omega arith in
      rw e (put_later c (lines cs) k ∙ r)
      ∙ ap some (
          sym (slice_shift c cs i (start_of (i + 1) cs (suc k)) (end_of (i + 1) cs (suc k)) past)
          ∙ sym (ap₂ (slice (c ∷ cs) i) (start_other c cs i k e) (end_other c cs i (suc k) e)))
]
