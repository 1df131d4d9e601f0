-- ===== src/Runtime/Flow/Tests.antt =====
-- Two flows and their names.
use guage.Prelude.{ℕ, none, some, List, [], ◌∷◌}
use guage.Prelude.Equality.{nat_eq}
use guage.Runtime.Registry.{Registry}
use guage.Runtime.Slots.{fresh}
use guage.Runtime.Slots.Invariant.{fresh-IsValid}
use guage.Runtime.Flow.{Flows, flow_map, empty_flow}
use guage.Runtime.Flow.Names.{Op, create, add, register_as, unregister, IsSound, run}

abbrev no_flows : Flows ℕ
no_flows = fresh empty_flow

abbrev no_names : Registry ℕ
no_names = []

start-IsSound : IsSound no_flows no_names
start-IsSound = record { slots_valid = fresh-IsValid empty_flow; live = tt }

abbrev ops : List (Op ℕ ℕ)
ops =
    create (some 1)
    ∷ add 0 flow_map (some 2) none
    ∷ create none
    ∷ register_as 7 0
    ∷ register_as 8 1
    ∷ unregister 7
    ∷ []

abbrev two_flows : Flows ℕ
two_flows = (run no_flows no_names ops).0
