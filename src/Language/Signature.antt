-- ===== src/Language/Signature.antt =====
-- Type signatures (bootstrap/type.c): a parser of recursive descent over bytes, and the printer.
-- What is left of the text stands for the pointer that the source moves. A failed allocation is not
-- modelled; type_free is left out.
pub mod Printed
pub mod RoundTrip
pub mod Ends
pub mod Functions
mod Tests
use guage.Prelude.{
  ℕ, zero, suc, Bool, ◌&&◌, ◌||◌, Option, none, some, List, [], ◌∷◌, ◌++◌, leb, ◌==◌, if◌then◌else◌,
  length,
}

pub data TypeExpr : Type 0 where
  var : (var_name : ℕ) → TypeExpr
  num bool nil symbol lambda error struct node graph effect unit : TypeExpr
  pair : (car cdr : TypeExpr) → TypeExpr
  list : (elem : TypeExpr) → TypeExpr
  func : (from to : TypeExpr) → TypeExpr
  union : (left right : TypeExpr) → TypeExpr
  pattern_type : (pattern_expr result : TypeExpr) → TypeExpr

-- A type and what is left, NULL, or no result within the rounds.
pub data Parse : Type 0 where
  ok : TypeExpr → List ℕ → Parse
  null : Parse
  unfinished : Parse

-- Go on behind a type.
abbrev pub go_on : Parse → (TypeExpr → List ℕ → Parse) → Parse
go_on (ok t rest) f = f t rest
go_on null f = null
go_on unfinished f = unfinished

-- `isspace`
abbrev pub is_space : ℕ → Bool
is_space c = c == b' ' || (leb 9 c && leb c 13)

abbrev pub skip_whitespace : List ℕ → List ℕ
skip_whitespace [] = []
skip_whitespace (c ∷ cs) = if is_space c then skip_whitespace cs else c ∷ cs

-- `starts_with`, and what stands behind the prefix.
abbrev pub strip : List ℕ → List ℕ → Option (List ℕ)
strip [] s = some s
strip (p ∷ ps) [] = none
strip (p ∷ ps) (c ∷ cs) = if c == p then strip ps cs else none

-- The words that are types by themselves, in the order of the tests.
abbrev pub words : List (List ℕ × TypeExpr)
words =
    (206 ∷ 177 ∷ [], var b'a')
    ∷ (206 ∷ 178 ∷ [], var b'b')
    ∷ (206 ∷ 179 ∷ [], var b'c')
    ∷ (226 ∷ 132 ∷ 149 ∷ [], num)
    ∷ (b'B' ∷ b'o' ∷ b'o' ∷ b'l' ∷ [], bool)
    ∷ (b'n' ∷ b'i' ∷ b'l' ∷ [], nil)
    ∷ (b':' ∷ b's' ∷ b'y' ∷ b'm' ∷ b'b' ∷ b'o' ∷ b'l' ∷ [], symbol)
    ∷ (b'l' ∷ b'a' ∷ b'm' ∷ b'b' ∷ b'd' ∷ b'a' ∷ [], lambda)
    ∷ (b'e' ∷ b'r' ∷ b'r' ∷ b'o' ∷ b'r' ∷ [], error)
    ∷ (
      b's' ∷ b't' ∷ b'r' ∷ b'u' ∷ b'c' ∷ b't' ∷ b'-' ∷ b'c' ∷ b'r' ∷ b'e' ∷ b'a' ∷ b't' ∷ b'e' ∷ [],
      struct,
    )
    ∷ (b'a' ∷ b'd' ∷ b't' ∷ b'-' ∷ b'c' ∷ b'r' ∷ b'e' ∷ b'a' ∷ b't' ∷ b'e' ∷ [], node)
    ∷ (
      b'g' ∷ b'r' ∷ b'a' ∷ b'p' ∷ b'h' ∷ b'-' ∷ b'c' ∷ b'r' ∷ b'e' ∷ b'a' ∷ b't' ∷ b'e' ∷ [],
      graph,
    )
    ∷ (b'e' ∷ b'f' ∷ b'f' ∷ b'e' ∷ b'c' ∷ b't' ∷ [], effect)
    ∷ (b'(' ∷ b')' ∷ [], unit)
    ∷ []

abbrev pub find_word : List (List ℕ × TypeExpr) → List ℕ → Option (TypeExpr × List ℕ)
find_word [] sig = none
find_word (w ∷ ws) sig = elim (strip w.0 sig) [
  | some rest ↦ some (w.1, rest)
  | none ↦ find_word ws sig
]

abbrev pub left_angle : List ℕ
left_angle = 226 ∷ 159 ∷ 168 ∷ []

abbrev pub right_angle : List ℕ
right_angle = 226 ∷ 159 ∷ 169 ∷ []

-- "->"
abbrev pub arrow : List ℕ
arrow = b'-' ∷ b'>' ∷ []

-- "abs"
abbrev pub abs_word : List ℕ
abs_word = b'a' ∷ b'b' ∷ b's' ∷ []

-- The loop behind "[[", at a depth of brackets.
abbrev pub skip_brackets : ℕ → List ℕ → List ℕ
skip_brackets depth [] = []
skip_brackets zero (c ∷ cs) = c ∷ cs
skip_brackets (suc depth) (c ∷ cs) =
    skip_brackets (if c == b'[' then suc (suc depth) else if c == b']' then depth else suc depth) cs

-- `again` is `parse_type_expr`.
module _ (again : List ℕ → Parse) where
  abbrev pub close : List ℕ → TypeExpr → List ℕ → Parse
  close word t s = elim (strip word (skip_whitespace s)) [ some rest ↦ ok t rest | none ↦ null ]

  abbrev pub parse_pair : List ℕ → Parse
  parse_pair s = go_on (again (skip_whitespace s)) (λ car rest.
      go_on (again (skip_whitespace rest)) (λ cdr rest'. close right_angle (pair car cdr) rest'))

  abbrev pub parse_list : List ℕ → Parse
  parse_list s = elim (strip (b'[' ∷ []) (skip_whitespace s)) [
    | some rest ↦ ok (pattern_type (var b'p') (var b'r')) (skip_brackets 2 (skip_whitespace rest))
    | none ↦ go_on (again (skip_whitespace s)) (λ elem rest. close (b']' ∷ []) (list elem) rest)
  ]

  -- A missing ")" is accepted.
  abbrev pub parse_parens : List ℕ → Parse
  parse_parens s = go_on (again s) (λ t rest. elim (strip (b')' ∷ []) (skip_whitespace rest)) [
    | some rest' ↦ ok t rest'
    | none ↦ ok t (skip_whitespace rest)
  ])

  unfoldable pub parse_primary : List ℕ → Parse
  parse_primary sig =
      let s = skip_whitespace sig in
      elim (find_word words s) [
        | some found ↦ ok found.0 found.1
        | none ↦ elim (strip left_angle s) [
          | some rest ↦ parse_pair rest
          | none ↦ elim (strip (b'[' ∷ []) s) [
            | some rest ↦ parse_list rest
            | none ↦ elim (strip (b'(' ∷ []) s) [ some rest ↦ parse_parens rest | none ↦ null ]
          ]
        ]
      ]

  -- Behind the first type.
  unfoldable pub parse_tail : TypeExpr → List ℕ → Parse
  parse_tail left sig =
      let s = skip_whitespace sig in
      elim (strip arrow s) [
        | some rest ↦
            go_on (again (skip_whitespace rest)) (λ right rest'. ok (func left right) rest')
        | none ↦ elim (strip abs_word s) [
          | some rest ↦
              go_on (again (skip_whitespace rest)) (λ right rest'. ok (union left right) rest')
          | none ↦ ok left s
        ]
      ]

-- By rounds.
unfoldable pub parse_type_expr : ℕ → List ℕ → Parse
parse_type_expr zero sig = unfinished
parse_type_expr (suc n) sig =
    go_on (parse_primary (parse_type_expr n) sig) (parse_tail (parse_type_expr n))

-- NULL is `none`; as many rounds as bytes, and one.
unfoldable pub type_parse : List ℕ → Option TypeExpr
type_parse sig = elim (parse_type_expr (suc (length sig)) sig) [
  | ok t rest ↦ some t
  | null ↦ none
  | unfinished ↦ none
]

abbrev pub onto : List ℕ → List ℕ → List ℕ
onto word s = word ++ s

-- What is printed, before what is printed next.
unfoldable pub type_print : TypeExpr → List ℕ → List ℕ
type_print (var c) s = c ∷ s
type_print num s = onto (226 ∷ 132 ∷ 149 ∷ []) s
type_print bool s = onto (b'B' ∷ b'o' ∷ b'o' ∷ b'l' ∷ []) s
type_print nil s = onto (b'n' ∷ b'i' ∷ b'l' ∷ []) s
type_print symbol s = onto (b':' ∷ b's' ∷ b'y' ∷ b'm' ∷ b'b' ∷ b'o' ∷ b'l' ∷ []) s
type_print lambda s = onto (b'l' ∷ b'a' ∷ b'm' ∷ b'b' ∷ b'd' ∷ b'a' ∷ []) s
type_print error s = onto (b'e' ∷ b'r' ∷ b'r' ∷ b'o' ∷ b'r' ∷ []) s
type_print struct s =
    onto
      (b's' ∷ b't' ∷ b'r' ∷ b'u' ∷ b'c' ∷ b't' ∷ b'-' ∷ b'c' ∷ b'r' ∷ b'e' ∷ b'a' ∷ b't' ∷ b'e'
        ∷ [])
      s
type_print node s =
    onto (b'a' ∷ b'd' ∷ b't' ∷ b'-' ∷ b'c' ∷ b'r' ∷ b'e' ∷ b'a' ∷ b't' ∷ b'e' ∷ []) s
type_print graph s =
    onto (b'g' ∷ b'r' ∷ b'a' ∷ b'p' ∷ b'h' ∷ b'-' ∷ b'c' ∷ b'r' ∷ b'e' ∷ b'a' ∷ b't' ∷ b'e' ∷ []) s
type_print effect s = onto (b'e' ∷ b'f' ∷ b'f' ∷ b'e' ∷ b'c' ∷ b't' ∷ []) s
type_print unit s = onto (b'(' ∷ b')' ∷ []) s
type_print (pair a b) s = onto left_angle (type_print a (b' ' ∷ type_print b (onto right_angle s)))
type_print (list a) s = b'[' ∷ type_print a (b']' ∷ s)
type_print (func a b) s = type_print a (onto (b' ' ∷ b'-' ∷ b'>' ∷ b' ' ∷ []) (type_print b s))
type_print (union a b) s = type_print a (onto (b' ' ∷ b'|' ∷ b' ' ∷ []) (type_print b s))
type_print (pattern_type a b) s =
    onto (b'[' ∷ b'[' ∷ b'p' ∷ b'a' ∷ b't' ∷ b't' ∷ b'e' ∷ b'r' ∷ b'n' ∷ b']' ∷ b']' ∷ []) s
