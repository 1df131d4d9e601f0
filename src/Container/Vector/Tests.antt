-- ===== src/Container/Vector/Tests.antt =====
-- A vector whose four inline slots are full.
use guage.Prelude.{ℕ, ◌≡◌, refl, Option, none, some, List, [], ◌∷◌, arith}
use guage.Container.Vector.{Vector, round_cap, cell_vector_new, cell_vector_slice, copy_from}
use guage.Container.Vector.Laws.{IsVectorOf}

abbrev four : Vector ℕ
four = record { buf = some 1 ∷ some 2 ∷ some 3 ∷ some 4 ∷ []; size = 4; capacity = 4 }

abbrev cells : List (Option ℕ)
cells = some 1 ∷ some 2 ∷ some 3 ∷ some 4 ∷ []

four-IsVectorOf : IsVectorOf four cells
four-IsVectorOf = record {
  width = refl;
  counted = refl;
  fits = omega arith;
  least = omega arith;
  cells = refl;
}

slice_four :
    cell_vector_slice 9 four 1 9
    ≡ some (record { buf = some 2 ∷ some 3 ∷ some 4 ∷ none ∷ []; size = 3; capacity = 4 })
unfolding cell_vector_slice cell_vector_new copy_from round_cap
slice_four = refl
