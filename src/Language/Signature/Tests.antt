-- ===== src/Language/Signature/Tests.antt =====
-- Signatures that are read back, and some that are not.
use guage.Prelude.{ℕ, ◌≡◌, refl, some, List, [], ◌∷◌, arith}
use guage.Language.Signature.{
  TypeExpr, var, num, bool, nil, unit, pair, list, func, union, pattern_type, parse_primary,
  parse_tail, parse_type_expr, type_parse, type_print,
}
use guage.Language.Signature.Functions.{type_is_function}
use guage.Language.Signature.RoundTrip.{parse-print}
use guage.Language.Signature.Ends.{Within, parse_type_expr-Within}

-- "⟨ℕ Bool⟩ -> [nil] -> ()"
abbrev sample : TypeExpr
sample = func (pair num bool) (func (list nil) unit)

parse-print_example : type_parse (type_print sample []) ≡ some sample
unfolding type_is_function
parse-print_example = parse-print sample (refl, ((tt, tt), (refl, ((refl, tt), tt))))

-- "(" three times and a word cut short.
abbrev broken : List ℕ
broken = b'(' ∷ b'(' ∷ b'(' ∷ b'B' ∷ b'o' ∷ []

parse_type_expr-Within_example : Within 5 (parse_type_expr 6 broken)
parse_type_expr-Within_example = parse_type_expr-Within 6 broken (omega arith)

-- A union is printed with "|", which the parser does not know.
union_lost : type_parse (type_print (union num bool) []) ≡ some num
unfolding type_parse type_print parse_type_expr parse_primary parse_tail
union_lost = refl

-- A list of lists is read as a pattern.
lists_lost : type_parse (type_print (list (list num)) []) ≡ some (pattern_type (var 112) (var 114))
unfolding type_parse type_print parse_type_expr parse_primary parse_tail
lists_lost = refl

-- A function that takes a function is read as one of two arguments.
function_lost :
    type_parse (type_print (func (func num num) num) []) ≡ some (func num (func num num))
unfolding type_parse type_print parse_type_expr parse_primary parse_tail
function_lost = refl

-- A missing parenthesis is accepted.
parenthesis_lost : type_parse (b'(' ∷ b'n' ∷ b'i' ∷ b'l' ∷ []) ≡ some nil
unfolding type_parse type_print parse_type_expr parse_primary parse_tail
parenthesis_lost = refl
