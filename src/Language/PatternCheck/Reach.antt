-- ===== src/Language/PatternCheck/Reach.antt =====
-- The check against a description of which clauses are reached (bootstrap/pattern_check.c).
use guage.Prelude.{
  ℕ, ◌+◌, ◌≡◌, refl, sym, ◌∙◌, inl, inr, Bool, true, false, not, Option, none, some, List, [], ◌∷◌,
  ◌==◌, ◌&&◌, if◌then◌else◌, Bool-cases, equal, eq_of_equal,
}
use Prim.Native.String.{String}
use Prim.Native.Char.{code}
use guage.Prelude.Equality.{string_eq}
use guage.Language.Cells.{Cell, number, symbol, bool, nil, str, pair, other}
use guage.Language.PatternCheck.{
  complete, partial, redundant, is_keyword_check, is_wildcard_check, is_variable_check,
  is_catch_all, note_unreachable, walk_clauses, conclude, pattern_check_exhaustiveness,
}

-- The index of the first element that a test holds of, counted from `i`.
abbrev pub first_index {ℓ} : {A : Type ℓ} → (A → Bool) → List A → ℕ → Option ℕ
first_index p [] i = none
first_index p (x ∷ xs) i = if p x then some i else first_index p xs (i + 1)

-- The name does not begin with a colon.
abbrev pub no_colon : String → Bool
no_colon (String.◌∷◌ c s) = not (code c == b':')
no_colon String.[] = true

no_colon-underscore : (s : String) → equal s "_" ≡ true → no_colon s ≡ true
no_colon-underscore s h = rw (eq_of_equal s "_" h) refl

no_colon-keyword : (s : String) → not (is_keyword_check s) ≡ no_colon s
unfolding is_keyword_check
no_colon-keyword (String.◌∷◌ c s) = refl
no_colon-keyword String.[] = refl

and_not-false : (b : Bool) → (b && not false) ≡ b
and_not-false true = refl
and_not-false false = refl

conclude_lem :
    (seen : Bool) (first : Option ℕ)
    → ((conclude (seen, first)).has_catch_all ≡ seen)
      × ((conclude (seen, first)).first_unreachable ≡ first)
      × ((conclude (seen, first)).status
          ≡ elim first [ some i ↦ redundant | none ↦ if seen then complete else partial ])
conclude_lem seen none = (refl, refl, refl)
conclude_lem seen (some i) = (refl, refl, refl)

module _ {D : Type 0} where
  -- The patterns of the clauses; `none` for what is no clause.
  unfoldable pub patterns : Cell D → List (Option (Cell D))
  patterns (pair (pair pattern result) rest) = some pattern ∷ patterns rest
  patterns (pair _ rest) = none ∷ patterns rest
  patterns _ = []

  -- A clause handles everything when its pattern is a symbol that is no keyword, `_` among them.
  abbrev pub handles_all : Option (Cell D) → Bool
  handles_all (some (symbol s)) = no_colon s
  handles_all p = false

  abbrev pub is_clause : Option (Cell D) → Bool
  is_clause none = false
  is_clause (some pattern) = true

  -- The first clause behind one that handles everything.
  unfoldable pub unreached : List (Option (Cell D)) → ℕ → Option ℕ
  unreached [] i = none
  unreached (p ∷ ps) i =
      if handles_all p then first_index is_clause ps (i + 1) else unreached ps (i + 1)

  is_catch_all-handles_all : (p : Cell D) → is_catch_all p ≡ handles_all (some p)
  unfolding is_catch_all is_wildcard_check is_variable_check
  is_catch_all-handles_all (symbol s) = elim (Bool-cases (equal s "_")) [
    | inl e ↦ rw e (sym (no_colon-underscore s e))
    | inr e ↦ rw e (and_not-false _ ∙ no_colon-keyword s)
  ]
  is_catch_all-handles_all (number x) = refl
  is_catch_all-handles_all (bool x) = refl
  is_catch_all-handles_all nil = refl
  is_catch_all-handles_all (str x) = refl
  is_catch_all-handles_all (pair x y) = refl
  is_catch_all-handles_all (other x) = refl

  -- What the walk makes of a list of patterns.
  abbrev walked : List (Option (Cell D)) → ℕ → Bool → Option ℕ → Bool × Option ℕ
  walked [] index seen first = (seen, first)
  walked (none ∷ ps) index seen first = walked ps (index + 1) seen first
  walked (some p ∷ ps) index seen first =
      if is_catch_all p
      then walked ps (index + 1) true (if seen then note_unreachable first index else first)
      else walked ps (index + 1) seen (if seen then note_unreachable first index else first)

  walk-patterns :
      (c : Cell D) (index : ℕ) (seen : Bool) (first : Option ℕ)
      → walk_clauses c index seen first ≡ walked (patterns c) index seen first
  unfolding walk_clauses patterns
  walk-patterns (pair (pair p r) rest) index seen first = elim (Bool-cases (is_catch_all p)) [
    | inl e ↦
        rw e (
          walk-patterns rest (index + 1) true
            (if seen then note_unreachable first index else first))
    | inr e ↦
        rw e (
          walk-patterns rest (index + 1) seen
            (if seen then note_unreachable first index else first))
  ]
  walk-patterns (pair (number x) rest) index seen first = walk-patterns rest (index + 1) seen first
  walk-patterns (pair (symbol x) rest) index seen first = walk-patterns rest (index + 1) seen first
  walk-patterns (pair (bool x) rest) index seen first = walk-patterns rest (index + 1) seen first
  walk-patterns (pair nil rest) index seen first = walk-patterns rest (index + 1) seen first
  walk-patterns (pair (str x) rest) index seen first = walk-patterns rest (index + 1) seen first
  walk-patterns (pair (other x) rest) index seen first = walk-patterns rest (index + 1) seen first
  walk-patterns (number x) index seen first = refl
  walk-patterns (symbol x) index seen first = refl
  walk-patterns (bool x) index seen first = refl
  walk-patterns nil index seen first = refl
  walk-patterns (str x) index seen first = refl
  walk-patterns (other x) index seen first = refl

  -- Once a clause is noted, it stays.
  walked_noted :
      (ps : List (Option (Cell D))) (index j : ℕ) → walked ps index true (some j) ≡ (true, some j)
  walked_noted [] index j = refl
  walked_noted (none ∷ ps) index j = walked_noted ps (index + 1) j
  walked_noted (some p ∷ ps) index j = elim (Bool-cases (is_catch_all p)) [
    | inl e ↦ rw e (walked_noted ps (index + 1) j)
    | inr e ↦ rw e (walked_noted ps (index + 1) j)
  ]

  walked_behind :
      (ps : List (Option (Cell D))) (index : ℕ)
      → walked ps index true none ≡ (true, first_index is_clause ps index)
  walked_behind [] index = refl
  walked_behind (none ∷ ps) index = walked_behind ps (index + 1)
  walked_behind (some p ∷ ps) index = elim (Bool-cases (is_catch_all p)) [
    | inl e ↦ rw e (walked_noted ps (index + 1) index)
    | inr e ↦ rw e (walked_noted ps (index + 1) index)
  ]

  abbrev pub any_handles : List (Option (Cell D)) → Bool
  any_handles [] = false
  any_handles (p ∷ ps) = if handles_all p then true else any_handles ps

  walked_lem :
      (ps : List (Option (Cell D))) (index : ℕ)
      → walked ps index false none ≡ (any_handles ps, unreached ps index)
  unfolding unreached
  walked_lem [] index = refl
  walked_lem (none ∷ ps) index = walked_lem ps (index + 1)
  walked_lem (some p ∷ ps) index = elim (Bool-cases (is_catch_all p)) [
    | inl e ↦ rw (e, sym (is_catch_all-handles_all p) ∙ e) (walked_behind ps (index + 1))
    | inr e ↦ rw (e, sym (is_catch_all-handles_all p) ∙ e) (walked_lem ps (index + 1))
  ]

  -- A clause handles everything when its pattern is a symbol that does not begin with a colon.
  -- pattern_check_exhaustiveness reports a catch-all exactly when there is such a clause; as first
  -- unreachable clause the first proper clause behind the first of these; and as status redundant
  -- where a clause is unreachable, otherwise complete with a catch-all and partial without one.
  pub check-unreached :
      (clauses : Cell D)
      → let ps = patterns clauses in
        let result = pattern_check_exhaustiveness (some clauses) in
        (result.has_catch_all ≡ any_handles ps)
        × (result.first_unreachable ≡ unreached ps 0)
        × (result.status ≡ elim (unreached ps 0) [
          | some i ↦ redundant
          | none ↦ if any_handles ps then complete else partial
        ])
  unfolding pattern_check_exhaustiveness
  check-unreached clauses =
      let ps = patterns clauses in
      rw (walk-patterns clauses 0 false none ∙ walked_lem ps 0)
        (conclude_lem (any_handles ps) (unreached ps 0))
