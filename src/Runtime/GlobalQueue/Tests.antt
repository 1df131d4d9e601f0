-- ===== src/Runtime/GlobalQueue/Tests.antt =====
-- The new queue, for tests.
use guage.Prelude.{ℕ, ◌≡◌, refl, Option, none, some}
use guage.Runtime.Ring.{solo}
use guage.Runtime.GlobalQueue.{global_queue_init, global_queue_push, global_queue_pop}

abbrev push_and_pop : ℕ → Option (Option ℕ)
unfolding global_queue_init global_queue_push global_queue_pop
push_and_pop actor = elim (global_queue_push global_queue_init actor) [
  | none ↦ none
  | some pushed ↦ elim (global_queue_pop pushed.1) [ none ↦ none | some popped ↦ some popped.0 ]
]

first_out : push_and_pop 7 ≡ some (some 7)
unfolding push_and_pop solo
first_out = refl
