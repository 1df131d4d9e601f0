-- ===== src/Runtime/GlobalQueue/Laws.antt =====
-- The global queue is a bounded queue.
use guage.Prelude.{◌≡◌, refl, some, List, [], arith, length}
use guage.Runtime.Ring.{Ring, mailbox_init}
use guage.Runtime.Ring.Fifo.{init-Represents}
use guage.Runtime.Ring.Solo.{Represents}
use guage.Runtime.Ring.Queue.{offer, poll, IsRoomy, solo-offer, solo-poll}
use guage.Runtime.GlobalQueue.{
  global_queue_init, global_queue_push, global_queue_pop, global_queue_size,
}

module _ {ℓ} {A : Type ℓ} where
  -- The queue stands for the elements of `l`.
  pub record IsQueueOf (q : Ring A) (l : List A) : Type ℓ where
    pub ring : Represents q l
    pub roomy : IsRoomy q

  pub queue_new : IsQueueOf (global_queue_init {A = A}) []
  unfolding global_queue_init mailbox_init
  queue_new = record {
    ring = init-Represents 10 (omega arith);
    roomy = record { positions = omega arith; slots = omega arith };
  }

  -- A push appends the actor, or is refused where the queue is full.
  pub queue_push-offers :
      (q : Ring A) (l : List A) (actor : A)
      → IsQueueOf q l
      → (q' : Ring A) × (global_queue_push q actor ≡ some ((offer q.capacity l actor).0, q'))
        × Represents q' (offer q.capacity l actor).1
  unfolding global_queue_push
  queue_push-offers q l actor h =
      let (q', e, k) = solo-offer 0 q l actor h.ring h.roomy in
      (q', rw (global_queue_push, e) refl, k)

  -- A pop takes the oldest actor, and the size is how many there are.
  pub queue_pop-polls :
      (q : Ring A) (l : List A)
      → IsQueueOf q l
      → (q' : Ring A) × (global_queue_pop q ≡ some ((poll l).0, q'))
        × Represents q' (poll l).1
        × (global_queue_size q ≡ length l)
  unfolding global_queue_pop global_queue_size
  queue_pop-polls q l h =
      let (q', e, k) = solo-poll 0 q l h.ring h.roomy in
      (
        q',
        rw (global_queue_pop, e) refl,
        k,
        omega (arith, h.ring.span, h.ring.fits, h.roomy.positions, h.roomy.slots),
      )
