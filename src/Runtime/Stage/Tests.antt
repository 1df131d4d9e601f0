-- ===== src/Runtime/Stage/Tests.antt =====
-- Three stages in a row.
use guage.Prelude.{ℕ, ◌+◌, ◌^◌, ◌<◌, List, [], ◌∷◌, arith}
use guage.Runtime.Slots.{fresh}
use guage.Runtime.Stage.{Stages, producer, consumer, empty_stage}
use guage.Runtime.Stage.Valid.{
  Op, create, subscribe_to, IsSound, run, creations, stage_run-IsSound, fresh-IsSound,
}

abbrev no_stages : Stages ℕ
no_stages = fresh empty_stage

abbrev ops : List (Op ℕ)
ops = create producer 1 2 ∷ create consumer 3 4 ∷ subscribe_to 1 0 ∷ create consumer 5 6 ∷ []

abbrev three : Stages ℕ
three = run no_stages ops

few_ids : no_stages.next_id + creations ops < 2 ^ 31
unfolding fresh
few_ids = omega arith

stage_run-IsSound_example : IsSound (run no_stages ops)
stage_run-IsSound_example = stage_run-IsSound no_stages ops fresh-IsSound few_ids
