-- ===== src/Language/DeBruijn/Terms.antt =====
-- Lambda terms, with names and with indices, and their cells.
use guage.Prelude.{ℕ, ◌+◌, ◌<◌, ◌≡◌, false, none, some, List, [], ◌∷◌, ◌++◌, length, equal}
use Prim.Native.String.{String}
use guage.Prelude.Equality.{string_eq}
use guage.Language.Cells.{Cell, number, symbol, nil, pair}
use guage.Language.DeBruijn.Lookup.{position}

-- A term with names: `lam` binds several at once, and `app` has several arguments.
mutual
  pub data Term (D : Type 0) : Type 0 where
    var : String → Term D
    num : D → Term D
    lam : List String → Term D → Term D
    app : Term D → Terms D → Term D

  pub data Terms (D : Type 0) : Type 0 where
    no_terms : Terms D
    more_terms : Term D → Terms D → Terms D

-- The same with indices for the bound names. `lam` keeps the names for printing.
mutual
  pub data Indexed (D : Type 0) : Type 0 where
    index : ℕ → Indexed D
    global : String → Indexed D
    literal : D → Indexed D
    abstraction : List String → Indexed D → Indexed D
    call : Indexed D → IndexedArgs D → Indexed D

  pub data IndexedArgs (D : Type 0) : Type 0 where
    no_args : IndexedArgs D
    more_args : Indexed D → IndexedArgs D → IndexedArgs D

-- The textbook translation, in the list of the names in scope.
unfoldable mutual
  pub resolve : {D : Type 0} → List String → Term D → Indexed D
  resolve scope (var s) = elim (position s scope) [ some i ↦ index i | none ↦ global s ]
  resolve scope (num d) = literal d
  resolve scope (lam names t) = abstraction names (resolve (names ++ scope) t)
  resolve scope (app f args) = call (resolve scope f) (resolve_args scope args)

  pub resolve_args : {D : Type 0} → List String → Terms D → IndexedArgs D
  resolve_args scope no_terms = no_args
  resolve_args scope (more_terms t ts) = more_args (resolve scope t) (resolve_args scope ts)

-- Every index points at a name in scope.
unfoldable mutual
  pub IsScoped : {D : Type 0} → ℕ → Indexed D → Type 0
  IsScoped n (index i) = i < n
  IsScoped n (global s) = Unit
  IsScoped n (literal d) = Unit
  IsScoped n (abstraction names t) = IsScoped (length names + n) t
  IsScoped n (call f args) = IsScoped n f × AreScoped n args

  pub AreScoped : {D : Type 0} → ℕ → IndexedArgs D → Type 0
  AreScoped n no_args = Unit
  AreScoped n (more_args t ts) = IsScoped n t × AreScoped n ts

module _ {D : Type 0} where
  unfoldable pub params_cell : List String → Cell D
  params_cell [] = nil
  params_cell (n ∷ ns) = pair (symbol n) (params_cell ns)

unfoldable mutual
  unfolding params_cell

  pub term_cell : {D : Type 0} → Term D → Cell D
  term_cell (var s) = symbol s
  term_cell (num d) = number d
  term_cell (lam names t) =
      pair (symbol "lambda") (pair (params_cell names) (pair (term_cell t) nil))
  term_cell (app f args) = pair (term_cell f) (args_cell args)

  pub args_cell : {D : Type 0} → Terms D → Cell D
  args_cell no_terms = nil
  args_cell (more_terms t ts) = pair (term_cell t) (args_cell ts)

-- What the evaluator reads: an index is a bare number, a literal is quoted.
unfoldable mutual
  unfolding params_cell

  pub indexed_cell : {D : Type 0} → (ℕ → D) → Indexed D → Cell D
  indexed_cell of_index (index i) = number (of_index i)
  indexed_cell of_index (global s) = symbol s
  indexed_cell of_index (literal d) = pair (symbol "quote") (pair (number d) nil)
  indexed_cell of_index (abstraction names t) =
      pair (symbol ":lambda-converted")
        (pair (params_cell names) (pair (indexed_cell of_index t) nil))
  indexed_cell of_index (call f args) =
      pair (indexed_cell of_index f) (indexed_args_cell of_index args)

  pub indexed_args_cell : {D : Type 0} → (ℕ → D) → IndexedArgs D → Cell D
  indexed_args_cell of_index no_args = nil
  indexed_args_cell of_index (more_args t ts) =
      pair (indexed_cell of_index t) (indexed_args_cell of_index ts)

-- A parameter that is no keyword of parameter lists.
abbrev pub IsName : String → Type 0
IsName s = (equal s "generic-param" ≡ false) × (equal s ":" ≡ false)

abbrev pub AreNames : List String → Type 0
AreNames [] = Unit
AreNames (n ∷ ns) = IsName n × AreNames ns

abbrev pub IsHead : {D : Type 0} → Term D → Type 0
IsHead (var s) = equal s "lambda" ≡ false
IsHead _ = Unit

-- Parameters are plain names, and no variable in the place of an operator is called `lambda`.
unfoldable mutual
  pub IsPlain : {D : Type 0} → Term D → Type 0
  IsPlain (var s) = Unit
  IsPlain (num d) = Unit
  IsPlain (lam names t) = AreNames names × IsPlain t
  IsPlain (app f args) = IsHead f × IsPlain f × ArePlain args

  pub ArePlain : {D : Type 0} → Terms D → Type 0
  ArePlain no_terms = Unit
  ArePlain (more_terms t ts) = IsPlain t × ArePlain ts
