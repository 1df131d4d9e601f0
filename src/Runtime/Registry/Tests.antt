-- ===== src/Runtime/Registry/Tests.antt =====
-- The registry at concrete names.
use guage.Prelude.{
  ℕ, ◌<◌, ◌≡◌, refl, ◌↔◌, Bool, true, ◌&&◌, none, [], ◌∷◌, arith, leb, length, find,
}
use Prim.Native.String.{String}
use guage.Prelude.Equality.{string_eq}
use guage.Runtime.Registry.{
  Registry, ok, dup_name, dead, max_registry, named, has_id, scan, register, unregister_name, list,
}
use guage.Runtime.Registry.Unique.{IsValid, register-IsValid}
use guage.Runtime.Registry.Methods.{register-ok_iff}

-- Processes 1 to 9 are alive.
abbrev live : ℕ → Bool
live i = leb 1 i && leb i 9

abbrev empty : Registry String
empty = []

empty-IsValid : IsValid empty
empty-IsValid = record { names = λ n. omega arith; ids = λ i. omega arith; room = omega arith }

abbrev one : Registry String
one = (register live empty "db" 4).1

register_twice : (register live (register live empty "db" 4).1 "db" 5).0 ≡ dup_name
unfolding register scan
register_twice = refl

register_dead : register live empty "db" 12 ≡ (dead, [])
unfolding register scan
register_dead = refl

list_after :
    list
      (unregister_name
        (register live (register live (register live empty "a" 1).1 "b" 2).1 "c" 3).1
        "a").1
    ≡ "c" ∷ "b" ∷ []
unfolding register scan unregister_name list
list_after = refl

register-IsValid_example : IsValid (register live empty "db" 4).1
register-IsValid_example = register-IsValid live empty "db" 4 empty-IsValid

register-ok_iff_example : ((register live empty "db" 4).0 ≡ ok) ↔ (
    (length empty < max_registry)
    × (live 4 ≡ true)
    × (find (named "db") empty ≡ none)
    × (find (has_id 4) empty ≡ none))
register-ok_iff_example = register-ok_iff live empty "db" 4
