-- ===== src/Language/PatternCheck.antt =====
-- The check of match clauses (bootstrap/pattern_check.c): which clause handles everything, and which
-- is never reached. -1 and NULL are `none`; the warnings are left out.
pub mod Reach
mod Tests
use guage.Prelude.{
  ℕ, ◌+◌, Bool, true, false, not, ◌&&◌, ◌||◌, Option, none, some, ◌∷◌, ◌==◌, if◌then◌else◌, equal,
}
use Prim.Native.String
use Prim.Native.String.{String}
use Prim.Native.Char.{code}
use guage.Prelude.Equality.{string_eq}
use guage.Language.Cells.{Cell, symbol, pair}

pub data CoverageStatus : Type 0 where
  complete partial redundant : CoverageStatus

pub record ExhaustivenessResult : Type 0 where
  pub status : CoverageStatus
  pub first_unreachable : Option ℕ
  pub has_catch_all : Bool

-- `sym[0] == ':'`
unfoldable pub is_keyword_check : String → Bool
is_keyword_check (String.◌∷◌ c s) = code c == b':'
is_keyword_check _ = false

abbrev pub note_unreachable : Option ℕ → ℕ → Option ℕ
note_unreachable none index = some index
note_unreachable (some i) index = some i

abbrev pub conclude : Bool × Option ℕ → ExhaustivenessResult
conclude (seen, some i) = record {
  status = redundant;
  first_unreachable = some i;
  has_catch_all = seen;
}
conclude (seen, none) = record {
  status = if seen then complete else partial;
  first_unreachable = none;
  has_catch_all = seen;
}

module _ {D : Type 0} where
  unfoldable pub is_wildcard_check : Cell D → Bool
  is_wildcard_check (symbol s) = equal s "_"
  is_wildcard_check _ = false

  unfoldable pub is_variable_check : Cell D → Bool
  is_variable_check (symbol s) = not (is_keyword_check s) && not (equal s "_")
  is_variable_check _ = false

  unfoldable pub is_catch_all : Cell D → Bool
  is_catch_all pattern = is_wildcard_check pattern || is_variable_check pattern

  -- The loop, at clause `index`: what has been seen, and the first clause that is not reached.
  unfoldable pub walk_clauses : Cell D → ℕ → Bool → Option ℕ → Bool × Option ℕ
  walk_clauses (pair (pair pattern result) rest) index seen first =
      if is_catch_all pattern
      then walk_clauses rest (index + 1) true (if seen then note_unreachable first index else first)
      else walk_clauses rest (index + 1) seen (if seen then note_unreachable first index else first)
  walk_clauses (pair _ rest) index seen first = walk_clauses rest (index + 1) seen first
  walk_clauses _ index seen first = (seen, first)

  unfoldable pub pattern_check_exhaustiveness : Option (Cell D) → ExhaustivenessResult
  pattern_check_exhaustiveness none = record {
    status = partial;
    first_unreachable = none;
    has_catch_all = false;
  }
  pattern_check_exhaustiveness (some clauses) = conclude (walk_clauses clauses 0 false none)
