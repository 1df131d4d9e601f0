-- ===== src/Language/DeBruijn/Tests.antt =====
-- The conversion at concrete expressions. Numbers are natural.
use guage.Prelude.{ℕ, ◌≡◌, refl, none, some, [], ◌∷◌, length}
use guage.Language.Cells.{Cell, number, symbol, nil, pair}
use guage.Language.DeBruijn.{Context, debruijn_convert, debruijn_lookup, param_names, param_count}
use guage.Language.DeBruijn.Lookup.{flatten}
use guage.Language.DeBruijn.Terms.{
  Term, var, num, lam, app, no_terms, more_terms, resolve, term_cell, indexed_cell, IsScoped,
  IsPlain,
}
use guage.Language.DeBruijn.Correct.{convert_correct, quote_clash}

abbrev same : ℕ → ℕ
same i = i

-- (lambda (y) (f x y 7)), in the scope of x
abbrev term : Term ℕ
term =
    lam ("y" ∷ [])
      (app (var "f") (more_terms (var "x") (more_terms (var "y") (more_terms (num 7) no_terms))))

abbrev scope : Context
scope = ("x" ∷ []) ∷ []

term-IsPlain : IsPlain term
unfolding IsPlain
term-IsPlain = (((refl, refl), tt), (refl, tt, (tt, (tt, (tt, tt)))))

-- A generic parameter with a constraint, and an annotated one.
params : Cell ℕ
params = pair (symbol "generic-param") (
    pair (symbol "T")
      (pair (symbol ":Showable") (pair (symbol "x") (pair (symbol ":") (pair (symbol "T") nil)))))

two_params : param_names 6 params (param_count 6 params) ≡ some ("T" ∷ "x" ∷ [])
unfolding params param_names param_count
two_params = refl

lookup_x : debruijn_lookup "x" scope ≡ some 0
unfolding debruijn_lookup
lookup_x = refl

lookup_quote : debruijn_lookup "quote" scope ≡ none
unfolding debruijn_lookup
lookup_quote = refl

convert_correct_example :
    (debruijn_convert same (term_cell term) scope
      ≡ some (indexed_cell same (resolve (flatten scope) term)))
    × IsScoped (length (flatten scope)) (resolve (flatten scope) term)
convert_correct_example = convert_correct same term scope term-IsPlain

quote_clash_example :
    debruijn_convert same (pair (symbol "quote") (pair (symbol "x") nil)) scope
    ≡ debruijn_convert same (number 0) scope
quote_clash_example = quote_clash same "x" scope 0 lookup_x lookup_quote

abbrev two_levels : Context
two_levels = ("x" ∷ []) ∷ ("y" ∷ []) ∷ []
