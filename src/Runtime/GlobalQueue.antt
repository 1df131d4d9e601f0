-- ===== src/Runtime/GlobalQueue.antt =====
-- The queue that takes what the queues of the schedulers cannot hold (bootstrap/scheduler.c,
-- `global_queue_*`), with no other thread at work on it: the third copy of the loops of Ring.antt.
-- It has no count; the one of the ring is written, and nothing reads it. `none`: the steps of the
-- loop have run out.
pub mod Laws
mod Tests
use guage.Prelude.{ℕ, ◌+◌, ◌-◌, ◌%◌, ◌^◌, Bool, false, Option, none, some}
use guage.Runtime.Ring.{Ring, Call, send_load, sent, recv_load, received, solo, mailbox_init}

abbrev pub global_queue_cap : ℕ
global_queue_cap = 1024

abbrev pub rounds : ℕ
rounds = 7

module _ {ℓ} {A : Type ℓ} where
  unfoldable pub global_queue_init : Ring A
  unfolding mailbox_init
  global_queue_init = mailbox_init global_queue_cap

  abbrev pub pushed : Call A → Bool
  pushed (sent ok) = ok
  pushed c = false

  unfoldable pub global_queue_push : Ring A → A → Option (Bool × Ring A)
  global_queue_push q actor = elim (solo rounds q (send_load actor)) [
    | none ↦ none
    | some end ↦ some (pushed end.1, end.0)
  ]

  abbrev pub popped : Call A → Option A
  popped (received actor) = actor
  popped c = none

  unfoldable pub global_queue_pop : Ring A → Option (Option A × Ring A)
  global_queue_pop q = elim (solo rounds q recv_load) [
    | none ↦ none
    | some end ↦ some (popped end.1, end.0)
  ]

  -- `(int)(h - t)`, which is not negative for fewer than 2 ^ 31 elements.
  unfoldable pub global_queue_size : Ring A → ℕ
  global_queue_size q = (q.enqueue_pos + 2 ^ 64 - q.dequeue_pos) % 2 ^ 64 % 2 ^ 32
