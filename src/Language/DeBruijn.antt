-- ===== src/Language/DeBruijn.antt =====
-- bootstrap/debruijn.c: names become De Bruijn indices. A context is the list of its levels, the
-- innermost first. `none` is a failed `assert` of `cell_car`, `cell_cdr` or `cell_get_symbol`.
pub mod Lookup
pub mod Terms
pub mod Correct
mod Tests
use guage.Prelude.{
  ℕ, suc, ◌+◌, Bool, true, false, ◌&&◌, Option, none, some, List, [], ◌∷◌, leb, ◌==◌, if◌then◌else◌,
  length, count, equal,
}
use Prim.Native.String.{String}
use Prim.Native.Char.{code}
use guage.Prelude.Equality.{string_eq}
use guage.Language.Cells.{Cell, number, symbol, nil, pair, get_symbol, width}

infixl 5 ◌>>=◌
abbrev pub ◌>>=◌ {ℓ κ} : {A : Type ℓ} {B : Type κ} → Option A → (A → Option B) → Option B
none >>= f = none
some a >>= f = f a

abbrev pub Context : Type 0
Context = List (List String)

-- The loop over the names of one level.
unfoldable pub search_level : String → List String → ℕ → Option ℕ
search_level name [] i = none
search_level name (n ∷ ns) i =
    let rest = search_level name ns (i + 1) in if equal name n then some i else rest

-- The loop over the levels. `none` for -1.
unfoldable pub lookup_from : String → Context → ℕ → Option ℕ
unfolding search_level
lookup_from name [] depth = none
lookup_from name (ns ∷ ctx) depth =
    let outer = lookup_from name ctx (depth + length ns) in
    elim (search_level name ns 0) [ some i ↦ some (depth + i) | none ↦ outer ]

unfoldable pub debruijn_lookup : String → Context → Option ℕ
unfolding lookup_from
debruijn_lookup name ctx = lookup_from name ctx 0

abbrev pub is_upper_code : ℕ → Bool
is_upper_code c = leb b'A' c && leb c b'Z'

-- `cs[0] == ':' && cs[1] >= 'A' && cs[1] <= 'Z'`
unfoldable pub is_constraint : String → Bool
is_constraint (String.◌∷◌ c (String.◌∷◌ d s)) = code c == b':' && is_upper_code (code d)
is_constraint _ = false

module _ {D : Type 0} where
  abbrev pub is_symbol : String → Cell D → Bool
  is_symbol s (symbol t) = equal t s
  is_symbol s _ = false

  -- `p->sym_id == SYM_ID_GENERIC_PARAM`: the symbol that is interned under that id.
  abbrev pub is_generic : Cell D → Bool
  is_generic c = is_symbol "generic-param" c

  -- What follows a generic parameter, past its constraint if it has one.
  unfoldable pub skip_constraint : Cell D → Cell D
  unfolding is_constraint
  skip_constraint (pair (symbol s) rest) = if is_constraint s then rest else pair (symbol s) rest
  skip_constraint c = c

  -- What follows a parameter, past `:` and a type if they stand there.
  unfoldable pub skip_annotation : Cell D → Cell D
  skip_annotation (pair c rest) =
      if is_symbol ":" c then elim rest [ pair t rest' ↦ rest' | r ↦ r ] else pair c rest
  skip_annotation c = c

  -- The first loop: how many parameters there are.
  unfoldable pub param_count : ℕ → Cell D → ℕ
  unfolding skip_constraint skip_annotation
  param_count (suc rounds) (pair p rest) = elim (is_generic p) [
    | true ↦ elim rest [ pair q rest' ↦ suc (param_count rounds (skip_constraint rest')) | _ ↦ 0 ]
    | false ↦ suc (param_count rounds (skip_annotation rest))
  ]
  param_count _ c = 0

  -- The second loop: their names, at most `count`.
  unfoldable pub param_names : ℕ → Cell D → ℕ → Option (List String)
  unfolding skip_constraint skip_annotation
  param_names (suc rounds) (pair p rest) (suc count) = elim (is_generic p) [
    | true ↦ elim rest [
      | pair q rest' ↦ get_symbol q >>= λ n.
          param_names rounds (skip_constraint rest') count >>= λ ns. some (n ∷ ns)
      | _ ↦ some []
    ]
    | false ↦ get_symbol p >>= λ n.
        param_names rounds (skip_annotation rest) count >>= λ ns. some (n ∷ ns)
  ]
  param_names _ c count = some []

module _ {D : Type 0} (of_index : ℕ → D) where
  -- What is no pair.
  unfoldable pub convert_atom : Cell D → Context → Cell D
  unfolding debruijn_lookup
  convert_atom (symbol s) ctx = elim (debruijn_lookup s ctx) [
    | some i ↦ number (of_index i)
    | none ↦ symbol s
  ]
  convert_atom (number d) ctx = pair (symbol "quote") (pair (number d) nil)
  convert_atom c ctx = c

unfoldable mutual
  unfolding convert_atom param_count param_names

  -- A lambda is `(lambda params body ...)`.
  pub debruijn_convert : {D : Type 0} → (ℕ → D) → Cell D → Context → Option (Cell D)
  debruijn_convert of_index (pair first rest) ctx = elim (is_symbol "lambda" first) [
    | true ↦ convert_lambda of_index rest ctx
    | false ↦ debruijn_convert of_index first ctx >>= λ f.
        debruijn_convert_list of_index rest ctx >>= λ r. some (pair f r)
  ]
  debruijn_convert of_index c ctx = some (convert_atom of_index c ctx)

  pub debruijn_convert_list : {D : Type 0} → (ℕ → D) → Cell D → Context → Option (Cell D)
  debruijn_convert_list of_index (pair first rest) ctx =
      debruijn_convert of_index first ctx >>= λ f.
      debruijn_convert_list of_index rest ctx >>= λ r. some (pair f r)
  debruijn_convert_list of_index c ctx = some (convert_atom of_index c ctx)

  pub convert_lambda : {D : Type 0} → (ℕ → D) → Cell D → Context → Option (Cell D)
  convert_lambda of_index (pair params (pair body more)) ctx =
      param_names (width params) params (param_count (width params) params) >>= λ names.
      debruijn_convert of_index body (names ∷ ctx) >>= λ converted.
      some (pair (symbol ":lambda-converted") (pair params (pair converted nil)))
  convert_lambda of_index _ ctx = none
