-- ===== src/Runtime/App/Tests.antt =====
-- Applications with numbers for names and cells.
use guage.Prelude.{ℕ, ◌≡◌, refl, true, none, some, List, [], ◌∷◌}
use guage.Prelude.Equality.{nat_eq}
use guage.Runtime.Cells.{nat_cells}
use guage.Runtime.App.{Apps, Assigned, app_set_env}
use guage.Runtime.App.Runs.{Op, start, set_env, stop}

abbrev ops : List (Op ℕ ℕ)
ops =
    start 1 0 (some 4)
    ∷ set_env 1 10 11
    ∷ set_env 1 10 12
    ∷ stop 1
    ∷ start 1 0 none
    ∷ set_env 1 10 13
    ∷ []

abbrev one_app : Apps ℕ ℕ
one_app =
    record { name = 1; supervisor_id = 0; stop_fn = none; env = (10, 11) ∷ []; running = true } ∷ []

set_ok : (app_set_env one_app 1 10 12).0 ≡ Assigned.ok
unfolding app_set_env
set_ok = refl
