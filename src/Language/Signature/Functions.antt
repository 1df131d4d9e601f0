-- ===== src/Language/Signature/Functions.antt =====
-- Arguments and results of function types (bootstrap/type.c: `type_is_function`,
-- `type_function_arity`, `type_get_argument`, `type_get_return`).
use guage.Prelude.{
  ℕ, zero, suc, ◌+◌, ◌≡◌, refl, ap, Bool, true, false, Option, none, some, List, [], ◌∷◌, arith,
  length, get_elem?,
}
use guage.Language.Signature.{TypeExpr, func}

unfoldable pub type_is_function : TypeExpr → Bool
type_is_function (func a b) = true
type_is_function t = false

unfoldable pub type_function_arity : TypeExpr → ℕ
type_function_arity (func a b) = type_function_arity b + 1
type_function_arity t = 0

unfoldable pub type_get_argument : TypeExpr → ℕ → Option TypeExpr
type_get_argument (func a b) zero = some a
type_get_argument (func a b) (suc pos) = type_get_argument b pos
type_get_argument t pos = none

unfoldable pub type_get_return : TypeExpr → TypeExpr
type_get_return (func a b) = type_get_return b
type_get_return t = t

-- The arguments of a function type, in order.
abbrev arguments : TypeExpr → List TypeExpr
arguments (func a b) = a ∷ arguments b
arguments t = []

abbrev functions_to : TypeExpr → List TypeExpr → TypeExpr
functions_to r [] = r
functions_to r (a ∷ as') = func a (functions_to r as')

-- The arity is the number of arguments.
arity-arguments : (t : TypeExpr) → type_function_arity t ≡ length (arguments t)
unfolding type_function_arity
arity-arguments (func a b) = let r = arity-arguments b in omega (arith, r)
arity-arguments t = refl

-- The argument at a position is the one that stands there, and NULL past the last.
get_argument-arguments :
    (t : TypeExpr) (pos : ℕ) → type_get_argument t pos ≡ get_elem? (arguments t) pos
unfolding type_get_argument
get_argument-arguments (func a b) zero = refl
get_argument-arguments (func a b) (suc pos) = get_argument-arguments b pos
get_argument-arguments t pos = refl

-- Arguments and result make up the type, and the result is no function.
get_return-arguments :
    (t : TypeExpr)
    → (functions_to (type_get_return t) (arguments t) ≡ t)
      × (type_is_function (type_get_return t) ≡ false)
unfolding type_get_return type_is_function
get_return-arguments (func a b) = let r = get_return-arguments b in (ap (func a) r.0, r.1)
get_return-arguments t = (refl, refl)
