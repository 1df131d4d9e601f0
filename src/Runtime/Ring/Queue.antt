-- ===== src/Runtime/Ring/Queue.antt =====
-- What a call on a ring does to the queue that the ring stands for.
use guage.Prelude.{
  ℕ, suc, ◌+◌, ◌%◌, ◌^◌, ◌<◌, dec_lt, ◌≡◌, refl, sym, ap, ◌∙◌, Bool, true, false, Option, none,
  some, List, [], ◌∷◌, ◌++◌, arith, ltb, leb, ◌==◌, if◌then◌else◌, lt→ltb, length,
}
use guage.Runtime.Ring.{
  Slot, Ring, send_load, sent, recv_test, recv_load, received, solo, send_step, recv_step,
}
use guage.Runtime.Ring.Invariant.{seq_at, value_at, same_slot, capacity_pos, next_round}
use guage.Runtime.Ring.Solo.{
  Represents, ring_sent, ring_received, send_free, send_blocked, receive_full, receive_blocked,
}
use guage.Runtime.Ring.Moves.{ring_sent-Represents, ring_received-Represents}

module _ {ℓ} {C : Type ℓ} where
  -- The bounded queue: a message that finds it full is refused.
  abbrev pub offer : ℕ → List C → C → Bool × List C
  offer capacity q v = if ltb (length q) capacity then (true, q ++ (v ∷ [])) else (false, q)

  abbrev pub poll : List C → Option C × List C
  poll [] = (none, [])
  poll (x ∷ q) = (some x, q)

  -- The positions and the count are far from the ends of their words.
  pub record IsRoomy (r : Ring C) : Type 0 where
    pub positions : r.enqueue_pos + r.capacity < 2 ^ 63
    pub slots : r.capacity < 2 ^ 31

  -- The send of a thread that is alone offers its message, and returns after 7 steps.
  pub solo-offer :
      (n : ℕ) (r : Ring C) (q : List C) (v : C)
      → Represents r q
      → IsRoomy r
      → (r' : Ring C) × (solo (suc (suc (suc (suc (suc (suc (suc n))))))) r (send_load v)
          ≡ some (r', sent (offer r.capacity q v).0))
        × Represents r' (offer r.capacity q v).1
  solo-offer n r q v h roomy =
      let span = h.span in
      let small = roomy.positions in
      elim (dec_lt (length q) r.capacity) [
        | yes lt ↦
            let e : seq_at r r.enqueue_pos ≡ r.enqueue_pos =
              ap (seq_at r) span ∙ h.free (length q) (omega arith) lt ∙ sym span in
            rw (lt→ltb (length q) r.capacity lt) (
              ring_sent r v,
              send_free n r v small e,
              ring_sent-Represents r q v h lt (omega (arith, roomy.slots)),
            )
        | no ge ↦
            let all : length q ≡ r.capacity = omega (arith, h.fits) in
            let old = h.full 0 (omega (arith, capacity_pos h.shape)) in
            let e : seq_at r r.enqueue_pos ≡ r.dequeue_pos + 1 =
              ap Slot.sequence (
                same_slot h.shape r.enqueue_pos (r.dequeue_pos + 0) (
                  ap (λ k. k % r.capacity) (omega arith)
                  ∙ next_round h.shape r.dequeue_pos
                  ∙ ap (λ k. k % r.capacity) (omega arith)))
              ∙ old.0
              ∙ omega arith in
            let no_room : ltb (length q) r.capacity ≡ false = ground arith in
            rw no_room (
              r,
              send_blocked (suc (suc (suc (suc n)))) r v (omega arith) (omega arith)
                  (omega (arith, capacity_pos h.shape)),
              h,
            )
      ]

  received-IsRoomy : (r : Ring C) → IsRoomy r → IsRoomy (ring_received r)
  unfolding ring_received
  received-IsRoomy r h = record { positions = h.positions; slots = h.slots }

  -- The receive of a thread that is alone polls the queue, and returns after 7 steps; no position
  -- comes closer to the end of its word.
  pub solo-poll-IsRoomy :
      (n : ℕ) (r : Ring C) (q : List C)
      → Represents r q
      → IsRoomy r
      → (r' : Ring C) × (solo (suc (suc (suc (suc (suc (suc (suc n))))))) r recv_load
          ≡ some (r', received (poll q).0))
        × Represents r' (poll q).1
        × IsRoomy r'
  solo-poll-IsRoomy n r [] h roomy =
      let e : seq_at r r.dequeue_pos ≡ r.dequeue_pos =
        ap (seq_at r) (omega arith)
        ∙ h.free 0 (omega arith) (omega (arith, capacity_pos h.shape))
        ∙ omega arith in
      (
        r,
        receive_blocked (suc (suc (suc (suc n)))) r
            (omega (arith, roomy.positions, h.span, capacity_pos h.shape)) e,
        h,
        roomy,
      )
  solo-poll-IsRoomy n r (x ∷ q) h roomy =
      let old = h.full 0 (omega arith) in
      let place : r.dequeue_pos ≡ r.dequeue_pos + 0 = omega arith in
      let e : seq_at r r.dequeue_pos ≡ r.dequeue_pos + 1 =
        ap (seq_at r) place ∙ old.0 ∙ omega arith in
      let v : value_at r r.dequeue_pos ≡ some x = ap (value_at r) place ∙ old.1 in
      (
        ring_received r,
        receive_full n r (omega (arith, roomy.positions, h.span))
              (omega (arith, capacity_pos h.shape)) e
            ∙ ap (λ o. some (ring_received r, received o)) v,
        ring_received-Represents r x q h (omega (arith, roomy.slots, h.fits)),
        received-IsRoomy r roomy,
      )

  pub solo-poll :
      (n : ℕ) (r : Ring C) (q : List C)
      → Represents r q
      → IsRoomy r
      → (r' : Ring C) × (solo (suc (suc (suc (suc (suc (suc (suc n))))))) r recv_load
          ≡ some (r', received (poll q).0))
        × Represents r' (poll q).1
  solo-poll n r q h roomy = let (r', e, k, m) = solo-poll-IsRoomy n r q h roomy in (r', e, k)

  solo_empty :
      (k : ℕ) (r : Ring C) → r.count ≡ 0 → solo (suc (suc k)) r recv_test ≡ some (r, received none)
  unfolding solo send_step recv_step
  solo_empty k r e = let zero_count : (r.count == 0) ≡ true = ground arith in rw zero_count refl

  solo_filled :
      (k : ℕ) (r : Ring C)
      → 0 < r.count
      → r.count < 2 ^ 31
      → solo (suc k) r recv_test ≡ solo k r recv_load
  unfolding solo send_step recv_step
  solo_filled k r e f =
      let some_count : (r.count == 0) ≡ false = ground arith in
      let low : leb (2 ^ 31) r.count ≡ false = ground arith in rw some_count (rw low refl)

  -- The test of the count only spares the loop.
  pub solo-tested :
      (n : ℕ) (r : Ring C) (q : List C)
      → Represents r q
      → IsRoomy r
      → (r' : Ring C) × (solo (suc (suc (suc (suc (suc (suc (suc (suc n)))))))) r recv_test
          ≡ some (r', received (poll q).0))
        × Represents r' (poll q).1
  solo-tested n r [] h roomy = (r, solo_empty _ r h.counted, h)
  solo-tested n r (x ∷ q) h roomy =
      let (r', e, k) = solo-poll n r (x ∷ q) h roomy in
      (
        r',
        solo_filled _ r (omega (arith, h.counted)) (omega (arith, h.counted, h.fits, roomy.slots))
            ∙ e,
        k,
      )
