-- ===== src/Language/DeBruijn/Correct.antt =====
-- The conversion is the textbook translation.
use guage.Prelude.{
  ℕ, zero, suc, ◌<◌, ◌≡◌, refl, sym, ap, ap₂, ◌∙◌, ◌≢◌, inl, inr, false, none, some, List, [], ◌∷◌,
  ◌++◌, arith, Option-cases, length, get_elem?, length-append,
}
use Prim.Native.String.{String}
use guage.Prelude.Equality.{string_eq}
use guage.Language.Cells.{width, Cell, pair, symbol, nil, number}
use guage.Language.DeBruijn.{
  param_count, param_names, skip_annotation, convert_atom, Context, debruijn_convert,
  debruijn_lookup, is_symbol, debruijn_convert_list,
}
use guage.Language.DeBruijn.Lookup.{
  flatten, position, lookup-position, position-get, position-first, position-absent,
}
use guage.Language.DeBruijn.Terms.{
  params_cell, AreNames, resolve, term_cell, Term, IsScoped, IsPlain, IsHead, indexed_cell, var,
  num, lam, app, no_terms, more_terms, Terms, AreScoped, ArePlain, resolve_args, more_terms,
  args_cell, indexed_args_cell, index, global,
}

module _ (D : Type 0) where
  skip_none :
      (ns : List String) → AreNames ns → skip_annotation (params_cell {D = D} ns) ≡ params_cell ns
  unfolding skip_annotation params_cell
  skip_none [] h = refl
  skip_none (n ∷ ns) h = rw (h.0.1) refl

  width-params : (ns : List String) → width (params_cell {D = D} ns) ≡ length ns
  unfolding params_cell
  width-params [] = refl
  width-params (n ∷ ns) = ap suc (width-params ns)

  count_lem :
      (ns : List String)
      → AreNames ns
      → param_count (length ns) (params_cell {D = D} ns) ≡ length ns
  unfolding param_count params_cell
  count_lem [] h = refl
  count_lem (n ∷ ns) h = rw (h.0.0, param_count) (rw (skip_none ns h.1) (ap suc (count_lem ns h.1)))

  names_lem :
      (ns : List String)
      → AreNames ns
      → param_names (length ns) (params_cell {D = D} ns) (length ns) ≡ some ns
  unfolding param_names params_cell
  names_lem [] h = refl
  names_lem (n ∷ ns) h =
      rw (h.0.0, param_names) (rw (skip_none ns h.1) (rw (names_lem ns h.1) refl))

  names_of_params :
      (ns : List String)
      → AreNames ns
      → param_names
          (width (params_cell {D = D} ns))
          (params_cell {D = D} ns)
          (param_count (width (params_cell {D = D} ns)) (params_cell {D = D} ns))
        ≡ some ns
  names_of_params ns h = rw (width-params ns, count_lem ns h) (names_lem ns h)

head_lem : {D : Type 0} (f : Term D) → IsHead f → is_symbol "lambda" (term_cell f) ≡ false
unfolding term_cell
head_lem (var s) h = h
head_lem (num d) h = refl
head_lem (lam ns t) h = refl
head_lem (app f args) h = refl

atom_lem :
    {D : Type 0} (of_index : ℕ → D) (s : String) (ctx : Context)
    → convert_atom of_index (symbol s) ctx ≡ indexed_cell of_index (resolve (flatten ctx) (var s))
unfolding convert_atom resolve indexed_cell
atom_lem of_index s ctx = ground (arith, lookup-position s ctx)

mutual
  unfolding debruijn_convert term_cell resolve indexed_cell IsPlain

  pub convert-resolve :
      {D : Type 0} (of_index : ℕ → D) (t : Term D) (ctx : Context)
      → IsPlain t
      → debruijn_convert of_index (term_cell t) ctx
        ≡ some (indexed_cell of_index (resolve (flatten ctx) t))
  convert-resolve of_index (var s) ctx h = ap some (atom_lem of_index s ctx)
  convert-resolve of_index (num d) ctx h = refl
  convert-resolve {D} of_index (lam ns t) ctx h =
      rw (names_of_params D ns h.0, convert-resolve of_index t (ns ∷ ctx) h.1) refl
  convert-resolve of_index (app f args) ctx h =
      rw (head_lem f h.0, debruijn_convert)
        (rw (convert-resolve of_index f ctx h.1, convert-resolve_args of_index args ctx h.2) refl)

  convert-resolve_args :
      {D : Type 0} (of_index : ℕ → D) (ts : Terms D) (ctx : Context)
      → ArePlain ts
      → debruijn_convert_list of_index (args_cell ts) ctx
        ≡ some (indexed_args_cell of_index (resolve_args (flatten ctx) ts))
  convert-resolve_args of_index no_terms ctx h = refl
  convert-resolve_args of_index (more_terms t ts) ctx h =
      rw (convert-resolve of_index t ctx h.0, convert-resolve_args of_index ts ctx h.1) refl

position_lt :
    (s : String) (scope : List String) (i : ℕ) → position s scope ≡ some i → i < length scope
unfolding position
position_lt s [] i h = cc
position_lt s (n ∷ ns) zero h = omega arith
position_lt s (n ∷ ns) (suc i) h = ground (arith, position_lt s ns i)

var_bound :
    {D : Type 0} (s : String) (scope : List String) (i : ℕ)
    → position s scope ≡ some i
    → resolve {D = D} scope (var s) ≡ index i
unfolding resolve
var_bound s scope i h = ground arith

var_free :
    {D : Type 0} (s : String) (scope : List String)
    → position s scope ≡ none
    → resolve {D = D} scope (var s) ≡ global s
unfolding resolve
var_free s scope h = ground arith

var-IsScoped :
    (D : Type 0) (s : String) (scope : List String)
    → IsScoped (length scope) (resolve {D = D} scope (var s))
unfolding IsScoped
var-IsScoped D s scope = elim (Option-cases (position s scope)) [
  | inl h ↦ rw (var_free {D = D} s scope h) tt
  | inr (i, h) ↦ rw (var_bound {D = D} s scope i h) (position_lt s scope i h)
]

mutual
  unfolding resolve IsScoped

  pub resolve-IsScoped :
      {D : Type 0} (scope : List String) (t : Term D) → IsScoped (length scope) (resolve scope t)
  resolve-IsScoped {D} scope (var s) = var-IsScoped D s scope
  resolve-IsScoped scope (num d) = tt
  resolve-IsScoped scope (lam ns t) =
      rw (length-append ns scope) at (resolve-IsScoped (ns ++ scope) t)
  resolve-IsScoped scope (app f args) =
      (resolve-IsScoped scope f, resolve_args-AreScoped scope args)

  resolve_args-AreScoped :
      {D : Type 0} (scope : List String) (ts : Terms D)
      → AreScoped (length scope) (resolve_args scope ts)
  resolve_args-AreScoped scope no_terms = tt
  resolve_args-AreScoped scope (more_terms t ts) =
      (resolve-IsScoped scope t, resolve_args-AreScoped scope ts)

-- For a term of variables, numbers, lambdas with one body and plain parameters, and applications,
-- whose names are none of the reserved ones, debruijn_convert of its cell is the cell of the
-- textbook translation to indices, in any context, and every index of that translation lies within
-- its scope.
pub convert_correct :
    {D : Type 0} (of_index : ℕ → D) (t : Term D) (ctx : Context)
    → IsPlain t
    → (debruijn_convert of_index (term_cell t) ctx
        ≡ some (indexed_cell of_index (resolve (flatten ctx) t)))
      × IsScoped (length (flatten ctx)) (resolve (flatten ctx) t)
convert_correct of_index t ctx h =
    (convert-resolve of_index t ctx h, resolve-IsScoped (flatten ctx) t)

-- debruijn_lookup of a name gives its first position in the names of all levels, innermost level
-- first, and -1 only if the name stands at no position.
pub lookup_innermost :
    (name : String) (ctx : Context)
    → ((i : ℕ)
        → debruijn_lookup name ctx ≡ some i
        → (get_elem? (flatten ctx) i ≡ some name)
          × ((j : ℕ) → j < i → get_elem? (flatten ctx) j ≢ some name))
      × (debruijn_lookup name ctx ≡ none → (j : ℕ) → get_elem? (flatten ctx) j ≢ some name)
lookup_innermost name ctx = (
  (λ i h.
      let at : position name (flatten ctx) ≡ some i = sym (lookup-position name ctx) ∙ h in
      (position-get name (flatten ctx) i at, λ j p. position-first name (flatten ctx) i j at p)),
  λ h j. position-absent name (flatten ctx) j (sym (lookup-position name ctx) ∙ h),
)

atom_bound :
    {D : Type 0} (of_index : ℕ → D) (s : String) (ctx : Context) (i : ℕ)
    → debruijn_lookup s ctx ≡ some i
    → convert_atom of_index (symbol s) ctx ≡ number (of_index i)
unfolding convert_atom
atom_bound of_index s ctx i h = rw (h, convert_atom) refl

atom_free :
    {D : Type 0} (of_index : ℕ → D) (s : String) (ctx : Context)
    → debruijn_lookup s ctx ≡ none
    → convert_atom of_index (symbol s) ctx ≡ symbol s
unfolding convert_atom
atom_free of_index s ctx h = rw (h, convert_atom) refl

-- Where a name is bound with index i and the name quote is free, the quotation of that name and
-- the literal number i convert to the same cell.
pub quote_clash :
    {D : Type 0} (of_index : ℕ → D) (name : String) (ctx : Context) (i : ℕ)
    → debruijn_lookup name ctx ≡ some i
    → debruijn_lookup "quote" ctx ≡ none
    → debruijn_convert of_index (pair (symbol "quote") (pair (symbol name) nil)) ctx
      ≡ debruijn_convert of_index (number (of_index i)) ctx
unfolding debruijn_convert
quote_clash of_index name ctx i h k =
    ap₂ (λ q x. some (pair q (pair x nil))) (atom_free of_index "quote" ctx k)
      (atom_bound of_index name ctx i h)

-- Of the body expressions of a lambda all but the first are dropped.
pub lambda_first_body :
    {D : Type 0} (of_index : ℕ → D) (params body more other_more : Cell D) (ctx : Context)
    → debruijn_convert of_index (pair (symbol "lambda") (pair params (pair body more))) ctx
      ≡ debruijn_convert of_index (pair (symbol "lambda") (pair params (pair body other_more))) ctx
unfolding debruijn_convert
lambda_first_body of_index params body more other_more ctx = refl
