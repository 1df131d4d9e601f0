-- ===== src/Language/Signature/Ends.antt =====
-- The parser ends on every text, and moves its pointer forward (bootstrap/type.c).
use guage.Prelude.{
  ℕ, zero, suc, ◌+◌, ◌≤◌, ◌<◌, ◌≡◌, ap, inl, inr, none, some, List, [], ◌∷◌, arith, ◌==◌,
  if◌then◌else◌, Bool-cases, Option-cases, length,
}
use guage.Language.Signature.{
  TypeExpr, pair, list, Parse, ok, null, unfinished, go_on, is_space, skip_whitespace, strip, words,
  find_word, left_angle, right_angle, arrow, abs_word, skip_brackets, close, parse_pair, parse_list,
  parse_parens, parse_primary, parse_tail, parse_type_expr,
}

some_inj {ℓ} : {A : Type ℓ} {a b : A} → some a ≡ some b → a ≡ b
some_inj h = cc

-- A result, with at most `n` bytes left.
abbrev pub Within : ℕ → Parse → Type 0
Within n (ok t rest) = length rest ≤ n
Within n null = Unit
Within n unfinished = ⊥

Within-le : (n m : ℕ) (p : Parse) → n ≤ m → Within n p → Within m p
Within-le n m (ok t rest) h w = omega arith
Within-le n m null h w = tt
Within-le n m unfinished h w = absurd w

-- What goes on keeps within its own bound.
Within-go_on :
    (n m : ℕ) (p : Parse) (f : TypeExpr → List ℕ → Parse)
    → Within n p
    → ((t : TypeExpr) (rest : List ℕ) → length rest ≤ n → Within m (f t rest))
    → Within m (go_on p f)
Within-go_on n m (ok t rest) f w g = g t rest w
Within-go_on n m null f w g = tt
Within-go_on n m unfinished f w g = absurd w

skip_le : (s : List ℕ) → length (skip_whitespace s) ≤ length s
skip_le [] = omega arith
skip_le (c ∷ cs) =
    let r = skip_le cs in
    elim (Bool-cases (is_space c)) [ inl e ↦ rw e (omega arith) | inr e ↦ rw e (omega arith) ]

strip_le : (w s rest : List ℕ) → strip w s ≡ some rest → length rest + length w ≤ length s
strip_le [] s rest h = let e : s ≡ rest = cc in rw e (omega arith)
strip_le (p ∷ ps) [] rest h = absurd cc
strip_le (p ∷ ps) (c ∷ cs) rest h = elim (Bool-cases (c == p)) [
  | inl e ↦ let r = strip_le ps cs rest (rw e at h) in omega arith
  | inr e ↦ absurd (let z = rw e at h in cc)
]

skip_brackets_le : (depth : ℕ) (s : List ℕ) → length (skip_brackets depth s) ≤ length s
skip_brackets_le depth [] = omega arith
skip_brackets_le zero (c ∷ cs) = omega arith
skip_brackets_le (suc d) (c ∷ cs) =
    let r = skip_brackets_le (if c == 91 then suc (suc d) else if c == 93 then d else suc d) cs in
    omega (arith, r)

-- Each word of the table has a byte.
abbrev HasBytes : List (List ℕ × TypeExpr) → Type 0
HasBytes [] = Unit
HasBytes (w ∷ ws) = (0 < length w.0) × HasBytes ws

find_word_lt :
    (ws : List (List ℕ × TypeExpr)) (s : List ℕ) (found : TypeExpr × List ℕ)
    → HasBytes ws
    → find_word ws s ≡ some found
    → length found.1 < length s
find_word_lt [] s found b h = absurd cc
find_word_lt (w ∷ ws) s found b h = elim (Option-cases (strip w.0 s)) [
  | inl e ↦ find_word_lt ws s found b.1 (rw (find_word, e) at h)
  | inr (rest, e) ↦
      let r = strip_le w.0 s rest e in
      let z : some (w.1, rest) ≡ some found = rw (find_word, e) at h in
      let y : length rest ≡ length found.1 = ap (λ q. length q.1) (some_inj z) in
      omega (arith, r, b.0, y)
]

words_have_bytes : HasBytes words
words_have_bytes = (
  omega arith,
  (
    omega arith,
    (
      omega arith,
      (
        omega arith,
        (
          omega arith,
          (
            omega arith,
            (
              omega arith,
              (
                omega arith,
                (
                  omega arith,
                  (omega arith, (omega arith, (omega arith, (omega arith, (omega arith, tt))))),
                ),
              ),
            ),
          ),
        ),
      ),
    ),
  ),
)

module _ (n : ℕ) (again : List ℕ → Parse)
    (good : (s : List ℕ) → length s < n → Within (length s) (again s)) where
  -- The nested call on a text that is skipped into.
  again-Within :
      (s : List ℕ) (m : ℕ) → length s < n → length s ≤ m → Within m (again (skip_whitespace s))
  again-Within s m h l =
      let k = skip_le s in
      Within-le (length (skip_whitespace s)) m (again (skip_whitespace s)) (omega (arith, k))
        (good (skip_whitespace s) (omega (arith, k)))

  close-Within :
      (word : List ℕ) (t : TypeExpr) (s : List ℕ) (m : ℕ)
      → length s ≤ m
      → Within m (close again word t s)
  close-Within word t s m h =
      let k = skip_le s in
      elim (Option-cases (strip word (skip_whitespace s))) [
        | inl e ↦ rw (close, e) tt
        | inr (rest, e) ↦
            let r = strip_le word (skip_whitespace s) rest e in rw (close, e) (omega arith)
      ]

  pair-Within : (s : List ℕ) → length s < n → Within (length s) (parse_pair again s)
  pair-Within s h =
      Within-go_on (length s) (length s) (again (skip_whitespace s)) _
        (again-Within s (length s) h (omega arith))
        (λ car rest l.
          Within-go_on (length s) (length s) (again (skip_whitespace rest)) _
            (again-Within rest (length s) (omega arith) l)
            (λ cdr rest' l'. close-Within right_angle (pair car cdr) rest' (length s) l'))

  list-Within : (s : List ℕ) → length s < n → Within (length s) (parse_list again s)
  list-Within s h =
      let k = skip_le s in
      elim (Option-cases (strip (b'[' ∷ []) (skip_whitespace s))) [
        | inr (rest, e) ↦
            let r = strip_le (b'[' ∷ []) (skip_whitespace s) rest e in
            let j = skip_le rest in
            let b = skip_brackets_le 2 (skip_whitespace rest) in
            rw (parse_list, e) (omega (arith, k, r, j, b))
        | inl e ↦
            rw (parse_list, e)
              (Within-go_on (length s) (length s) (again (skip_whitespace s)) _
                (again-Within s (length s) h (omega arith))
                (λ elem rest l. close-Within (b']' ∷ []) (list elem) rest (length s) l))
      ]

  parens-Within : (s : List ℕ) → length s < n → Within (length s) (parse_parens again s)
  parens-Within s h = Within-go_on (length s) (length s) (again s) _ (good s h) after
    where
      after :
          (t : TypeExpr) (rest : List ℕ)
          → length rest ≤ length s
          → Within (length s) (elim (strip (b')' ∷ []) (skip_whitespace rest)) [
            | some rest' ↦ ok t rest'
            | none ↦ ok t (skip_whitespace rest)
          ])
      after t rest l =
          let k = skip_le rest in
          elim (Option-cases (strip (b')' ∷ []) (skip_whitespace rest))) [
            | inl e ↦ rw e (omega (arith, k))
            | inr (rest', e) ↦
                let r = strip_le (b')' ∷ []) (skip_whitespace rest) rest' e in
                rw e (omega (arith, k, r))
          ]

  primary-Within : (s : List ℕ) → length s ≤ n → Within (length s) (parse_primary again s)
  unfolding parse_primary
  primary-Within s h =
      let k = skip_le s in
      let u = skip_whitespace s in
      elim (Option-cases (find_word words u)) [
        | inr (found, e) ↦
            let r = find_word_lt words u found words_have_bytes e in
            rw (parse_primary, e) (omega (arith, k, r))
        | inl e ↦ elim (Option-cases (strip left_angle u)) [
          | inr (rest, f) ↦
              let r = strip_le left_angle u rest f in
              rw (parse_primary, e, f)
                (Within-le (length rest) (length s) (parse_pair again rest) (omega (arith, k, r))
                  (pair-Within rest (omega (arith, k, r))))
          | inl f ↦ elim (Option-cases (strip (b'[' ∷ []) u)) [
            | inr (rest, g) ↦
                let r = strip_le (b'[' ∷ []) u rest g in
                rw (parse_primary, e, f, g)
                  (Within-le (length rest) (length s) (parse_list again rest) (omega (arith, k, r))
                    (list-Within rest (omega (arith, k, r))))
            | inl g ↦ elim (Option-cases (strip (b'(' ∷ []) u)) [
              | inr (rest, i) ↦
                  let r = strip_le (b'(' ∷ []) u rest i in
                  rw (parse_primary, e, f, g, i)
                    (Within-le (length rest) (length s) (parse_parens again rest)
                      (omega (arith, k, r)) (parens-Within rest (omega (arith, k, r))))
              | inl i ↦ rw (parse_primary, e, f, g, i) tt
            ]
          ]
        ]
      ]

  tail-Within :
      (left : TypeExpr) (s : List ℕ) → length s ≤ n → Within (length s) (parse_tail again left s)
  unfolding parse_tail
  tail-Within left s h =
      let k = skip_le s in
      let u = skip_whitespace s in
      elim (Option-cases (strip arrow u)) [
        | inr (rest, e) ↦
            let r = strip_le arrow u rest e in
            rw (parse_tail, e)
              (Within-go_on (length s) (length s) (again (skip_whitespace rest)) _
                (again-Within rest (length s) (omega (arith, k, r)) (omega (arith, k, r)))
                (λ right rest' l. l))
        | inl e ↦ elim (Option-cases (strip abs_word u)) [
          | inr (rest, f) ↦
              let r = strip_le abs_word u rest f in
              rw (parse_tail, e, f)
                (Within-go_on (length s) (length s) (again (skip_whitespace rest)) _
                  (again-Within rest (length s) (omega (arith, k, r)) (omega (arith, k, r)))
                  (λ right rest' l. l))
          | inl f ↦ rw (parse_tail, e, f) k
        ]
      ]

-- On any text, with more rounds than it has bytes, parse_type_expr ends: it returns NULL, or a
-- type and a rest that is no longer than the text.
pub parse_type_expr-Within :
    (n : ℕ) (s : List ℕ) → length s < n → Within (length s) (parse_type_expr n s)
unfolding parse_type_expr
parse_type_expr-Within zero s h = absurd (omega arith)
parse_type_expr-Within (suc n) s h =
    let good = parse_type_expr-Within n in
    Within-go_on (length s) (length s) (parse_primary (parse_type_expr n) s)
      (parse_tail (parse_type_expr n)) (primary-Within n (parse_type_expr n) good s (omega arith))
      (λ left rest l.
        Within-le (length rest) (length s) (parse_tail (parse_type_expr n) left rest) l
          (tail-Within n (parse_type_expr n) good left rest (omega arith)))
