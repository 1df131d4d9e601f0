-- ===== src/Language/PatternCheck/Tests.antt =====
-- Clauses with a variable in the middle.
use guage.Prelude.{ℕ, ◌≡◌, refl, true, none, some, if◌then◌else◌}
use guage.Language.Cells.{Cell, number, symbol, nil, pair}
use guage.Language.PatternCheck.{
  complete, partial, redundant, is_catch_all, is_keyword_check, is_wildcard_check,
  is_variable_check, walk_clauses, pattern_check_exhaustiveness,
}
use guage.Language.PatternCheck.Reach.{patterns, unreached, any_handles, check-unreached}

-- ((:red 1) (x 2) no-clause (5 3))
abbrev sample : Cell ℕ
sample = pair (pair (symbol ":red") (number 1)) (
    pair (pair (symbol "x") (number 2))
      (pair (symbol "no-clause") (pair (pair (number 5) (number 3)) nil)))

last_unreached :
    pattern_check_exhaustiveness (some sample)
    ≡ record { status = redundant; first_unreachable = some 3; has_catch_all = true }
unfolding pattern_check_exhaustiveness walk_clauses is_catch_all is_keyword_check is_wildcard_check
    is_variable_check
last_unreached = refl

check-unreached_example :
    let ps = patterns sample in
    let result = pattern_check_exhaustiveness (some sample) in
    (result.has_catch_all ≡ any_handles ps)
    × (result.first_unreachable ≡ unreached ps 0)
    × (result.status ≡ elim (unreached ps 0) [
      | some i ↦ redundant
      | none ↦ if any_handles ps then complete else partial
    ])
check-unreached_example = check-unreached sample
