-- ===== src/Language/Signature/Printed.antt =====
-- The types whose print is a signature again (bootstrap/type.c), and how such a print begins.
use guage.Prelude.{ℕ, suc, ◌+◌, ◌≡◌, refl, Bool, true, false, none, List, [], ◌∷◌}
use guage.Language.Signature.{
  TypeExpr, var, num, bool, nil, symbol, lambda, error, struct, node, graph, effect, unit, pair,
  list, func, union, pattern_type, skip_whitespace, strip, arrow, abs_word, onto, type_print,
}
use guage.Language.Signature.Functions.{type_is_function}

-- Whether the print begins with "[".
abbrev pub starts_list : TypeExpr → Bool
starts_list (list a) = true
starts_list (func a b) = starts_list a
starts_list t = false

-- No variables, unions or patterns, no function on the left of an arrow, and no list that would begin
-- with "[[".
abbrev pub IsReadable : TypeExpr → Type 0
IsReadable (var c) = ⊥
IsReadable (union a b) = ⊥
IsReadable (pattern_type a b) = ⊥
IsReadable (pair a b) = IsReadable a × IsReadable b
IsReadable (list a) = (starts_list a ≡ false) × IsReadable a
IsReadable (func a b) = (type_is_function a ≡ false) × (IsReadable a × IsReadable b)
IsReadable t = Unit

-- The rounds that a type takes.
abbrev pub rounds : TypeExpr → ℕ
rounds (pair a b) = suc (rounds a + rounds b)
rounds (list a) = suc (rounds a)
rounds (func a b) = suc (rounds a + rounds b)
rounds t = 1

-- A text that begins with neither white space nor an operator.
pub record Begins (s : List ℕ) : Type 0 where
  pub no_space : skip_whitespace s ≡ s
  pub no_arrow : strip arrow s ≡ none
  pub no_abs : strip abs_word s ≡ none

pub print-Begins : (t : TypeExpr) (k : List ℕ) → IsReadable t → Begins (type_print t k)
unfolding type_print
print-Begins (var c) k h = absurd h
print-Begins num k h = record { no_space = refl; no_arrow = refl; no_abs = refl }
print-Begins bool k h = record { no_space = refl; no_arrow = refl; no_abs = refl }
print-Begins nil k h = record { no_space = refl; no_arrow = refl; no_abs = refl }
print-Begins symbol k h = record { no_space = refl; no_arrow = refl; no_abs = refl }
print-Begins lambda k h = record { no_space = refl; no_arrow = refl; no_abs = refl }
print-Begins error k h = record { no_space = refl; no_arrow = refl; no_abs = refl }
print-Begins struct k h = record { no_space = refl; no_arrow = refl; no_abs = refl }
print-Begins node k h = record { no_space = refl; no_arrow = refl; no_abs = refl }
print-Begins graph k h = record { no_space = refl; no_arrow = refl; no_abs = refl }
print-Begins effect k h = record { no_space = refl; no_arrow = refl; no_abs = refl }
print-Begins unit k h = record { no_space = refl; no_arrow = refl; no_abs = refl }
print-Begins (pair a b) k h = record { no_space = refl; no_arrow = refl; no_abs = refl }
print-Begins (list a) k h = record { no_space = refl; no_arrow = refl; no_abs = refl }
print-Begins (func a b) k h =
    print-Begins a (onto (b' ' ∷ b'-' ∷ b'>' ∷ b' ' ∷ []) (type_print b k)) h.1.0
print-Begins (union a b) k h = absurd h
print-Begins (pattern_type a b) k h = absurd h

pub print_no_list :
    (t : TypeExpr) (k : List ℕ)
    → IsReadable t
    → starts_list t ≡ false
    → strip (b'[' ∷ []) (type_print t k) ≡ none
unfolding type_print
print_no_list (var c) k h e = absurd h
print_no_list num k h e = refl
print_no_list bool k h e = refl
print_no_list nil k h e = refl
print_no_list symbol k h e = refl
print_no_list lambda k h e = refl
print_no_list error k h e = refl
print_no_list struct k h e = refl
print_no_list node k h e = refl
print_no_list graph k h e = refl
print_no_list effect k h e = refl
print_no_list unit k h e = refl
print_no_list (pair a b) k h e = refl
print_no_list (list a) k h e = absurd cc
print_no_list (func a b) k h e =
    print_no_list a (onto (b' ' ∷ b'-' ∷ b'>' ∷ b' ' ∷ []) (type_print b k)) h.1.0 e
print_no_list (union a b) k h e = absurd h
print_no_list (pattern_type a b) k h e = absurd h
