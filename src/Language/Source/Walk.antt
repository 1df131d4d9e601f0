-- ===== src/Language/Source/Walk.antt =====
-- The position of a byte, counted from the start of its file: an independent description of what
-- `srcmap_resolve` (bootstrap/span.c) finds by two searches.
use guage.Prelude.{
  ℕ, zero, suc, ◌+◌, ◌-◌, ◌≤◌, ◌≡◌, refl, ap₂, ◌∙◌, inl, inr, true, false, List, [], ◌∷◌, arith,
  if◌then◌else◌, Bool-cases, length, get_or, take, to_nat,
}
use guage.Language.Source.{is_newline}
use guage.Language.Source.Lines.{line_ends, newlines, newlines-take_le, line_ends_le}

-- Line and column behind `n` bytes of a text that is entered at the given line and column.
unfoldable pub walk : List ℕ → ℕ → ℕ → ℕ → ℕ × ℕ
walk cs zero line column = (line, column)
walk [] (suc n) line column = (line, column)
walk (c ∷ cs) (suc n) line column =
    if is_newline c then walk cs n (line + 1) 1 else walk cs n line (column + 1)

-- The line entered starts at offset `s`, and the text stands at offset `i`.
walk-line_ends :
    (cs : List ℕ) (n line s i : ℕ)
    → s ≤ i
    → n ≤ length cs
    → (walk cs n line (i - s + 1) ≡ (
      line + newlines (take n cs),
      i + n - get_or (s ∷ line_ends i cs) (newlines (take n cs)) 0 + 1,
    ))
unfolding walk
walk-line_ends cs zero line s i h k = ap₂ (λ a b. (a, b)) (omega arith) (omega arith)
walk-line_ends [] (suc n) line s i h k = absurd (omega arith)
walk-line_ends (c ∷ cs) (suc n) line s i h k = elim (Bool-cases (is_newline c)) [
  | inl e ↦
      let r = walk-line_ends cs n (line + 1) (i + 1) (i + 1) (omega arith) (omega arith) in
      let c : to_nat true + newlines (take n cs) ≡ suc (newlines (take n cs)) = omega arith in
      let o : i + 1 - (i + 1) + 1 ≡ 1 = omega arith in
      rw (e, c) (rw o at r ∙ ap₂ (λ a b. (a, b)) (omega arith) (omega arith))
  | inr e ↦
      let r = walk-line_ends cs n line s (i + 1) (omega arith) (omega arith) in
      let c : to_nat false + newlines (take n cs) ≡ newlines (take n cs) = omega arith in
      let o : i - s + 1 + 1 ≡ i + 1 - s + 1 = omega arith in
      rw (e, c, o) (r ∙ ap₂ (λ a b. (a, b)) refl (omega arith))
]

pub walk_lem :
    (cs : List ℕ) (n : ℕ)
    → n ≤ length cs
    → (walk cs n 1 1
        ≡ (newlines (take n cs) + 1, n - get_or (0 ∷ line_ends 0 cs) (newlines (take n cs)) 0 + 1))
walk_lem cs n h =
    walk-line_ends cs n 1 0 0 (omega arith) h ∙ ap₂ (λ a b. (a, b)) (omega arith) (omega arith)

-- A line starts at or before the byte.
pub start_le :
    (cs : List ℕ) (n : ℕ) → n ≤ length cs → get_or (0 ∷ line_ends 0 cs) (newlines (take n cs)) 0 ≤ n
start_le cs n h = at (newlines (take n cs)) refl
  where
    at : (k : ℕ) → newlines (take n cs) ≡ k → get_or (0 ∷ line_ends 0 cs) k 0 ≤ n
    at zero e = omega arith
    at (suc k) e =
        let b = newlines-take_le n cs in
        let r = line_ends_le cs 0 n k (omega arith) in let m = r.1 (omega arith) in omega arith
