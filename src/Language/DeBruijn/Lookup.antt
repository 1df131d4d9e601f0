-- ===== src/Language/DeBruijn/Lookup.antt =====
-- The index of a name is its place among all names in scope, innermost first.
use guage.Prelude.{
  ℕ, zero, suc, ◌+◌, ◌<◌, ◌≡◌, refl, ◌≢◌, Option, none, some, List, [], ◌∷◌, ◌++◌, arith,
  if◌then◌else◌, length, get_elem?, equal, equal_self, eq_of_equal,
}
use Prim.Native.String.{String}
use guage.Prelude.Equality.{string_eq}
use guage.Language.DeBruijn.{Context, search_level, lookup_from, debruijn_lookup}

-- All names in scope.
abbrev pub flatten : Context → List String
flatten [] = []
flatten (ns ∷ ctx) = ns ++ flatten ctx

-- The place of the first element that is `name`.
unfoldable pub position : String → List String → Option ℕ
position name [] = none
position name (n ∷ ns) =
    let rest = position name ns in
    if equal name n then some 0 else elim rest [ none ↦ none | some i ↦ some (suc i) ]

abbrev shift : ℕ → Option ℕ → Option ℕ
shift k none = none
shift k (some i) = some (k + i)

search_level-shift :
    (name : String) (ns : List String) (k : ℕ) → search_level name ns k ≡ shift k (position name ns)
unfolding search_level position
search_level-shift name [] k = refl
search_level-shift name (n ∷ ns) k = ground (arith, search_level-shift name ns (k + 1))

position-append :
    (name : String) (a b : List String)
    → position name (a ++ b)
      ≡ elim (position name a) [ some i ↦ some i | none ↦ shift (length a) (position name b) ]
unfolding position
position-append name [] b = ground arith
position-append name (n ∷ a) b = ground (arith, position-append name a b)

lookup_from-shift :
    (name : String) (ctx : Context) (d : ℕ)
    → lookup_from name ctx d ≡ shift d (position name (flatten ctx))
unfolding lookup_from position
lookup_from-shift name [] d = refl
lookup_from-shift name (ns ∷ ctx) d = ground (
  arith,
  position-append name ns (flatten ctx),
  search_level-shift name ns 0,
  lookup_from-shift name ctx (d + length ns),
)

pub lookup-position :
    (name : String) (ctx : Context) → debruijn_lookup name ctx ≡ position name (flatten ctx)
unfolding debruijn_lookup
lookup-position name ctx = ground (arith, lookup_from-shift name ctx 0)

-- What a position means.
pub position-get :
    (name : String) (ns : List String) (i : ℕ)
    → position name ns ≡ some i
    → get_elem? ns i ≡ some name
unfolding position
position-get name [] i h = cc
position-get name (n ∷ ns) zero h = ground (arith, position-get name ns 0, eq_of_equal name n)
position-get name (n ∷ ns) (suc i) h = ground (arith, position-get name ns i)

pub position-first :
    (name : String) (ns : List String) (i j : ℕ)
    → position name ns ≡ some i
    → j < i
    → get_elem? ns j ≢ some name
unfolding position
position-first name [] i j h p = cc
position-first name (n ∷ ns) zero j h p = absurd (omega arith)
position-first name (n ∷ ns) (suc i) zero h p = ground (arith, equal_self name)
position-first name (n ∷ ns) (suc i) (suc j) h p = ground (arith, position-first name ns i j)

pub position-absent :
    (name : String) (ns : List String) (j : ℕ)
    → position name ns ≡ none
    → get_elem? ns j ≢ some name
unfolding position
position-absent name [] j h = cc
position-absent name (n ∷ ns) zero h = ground (arith, equal_self name)
position-absent name (n ∷ ns) (suc j) h = ground (arith, position-absent name ns j)
