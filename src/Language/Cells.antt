-- ===== src/Language/Cells.antt =====
-- Expressions as cells (bootstrap/cell.h), as far as the De Bruijn conversion and the check of
-- match clauses tell them apart.
-- Numbers are of any type: the program's are doubles.
use guage.Prelude.{ℕ, suc, Bool, Option, none, some}
use Prim.Native.String.{String}

pub data Cell (D : Type 0) : Type 0 where
  number : D → Cell D
  symbol : String → Cell D
  bool : Bool → Cell D
  nil : Cell D
  str : String → Cell D
  pair : Cell D → Cell D → Cell D
  -- Every other type of cell, by its tag.
  other : ℕ → Cell D

module _ {D : Type 0} where
  -- `cell_car` and `cell_cdr`; `none` is the failed `assert`.
  abbrev pub car : Cell D → Option (Cell D)
  car (pair a b) = some a
  car _ = none

  abbrev pub cdr : Cell D → Option (Cell D)
  cdr (pair a b) = some b
  cdr _ = none

  -- `cell_get_symbol`
  abbrev pub get_symbol : Cell D → Option String
  get_symbol (symbol s) = some s
  get_symbol _ = none

  -- How many pairs a list begins with.
  abbrev pub width : Cell D → ℕ
  width (pair a b) = suc (width b)
  width _ = 0
