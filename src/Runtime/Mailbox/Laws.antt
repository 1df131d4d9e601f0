-- ===== src/Runtime/Mailbox/Laws.antt =====
-- A mailbox is a bounded queue of messages.
use guage.Prelude.{
  ℕ, zero, suc, ◌+◌, ◌-◌, ◌≤◌, ◌<◌, ◌≡◌, refl, sym, ap, ◌∙◌, Bool, true, false, not, ◌&&◌, none,
  some, List, [], ◌∷◌, arith, if◌then◌else◌, length, get_elem?,
}
use guage.Runtime.Ring.{Slot, Ring, send_load, sent, solo, set_slot}
use guage.Runtime.Ring.Invariant.{seq_at, value_at, set_slot_ne, set_slot-IsRing, window, IsRing}
use guage.Runtime.Ring.Solo.{Represents}
use guage.Runtime.Ring.Queue.{offer, poll, IsRoomy, solo-offer, solo-tested}
use guage.Runtime.Mailbox.{
  Actor, delivered, actor_send, actor_receive, drain_slots, mailbox_destroy,
}

module _ {ℓ} {C : Type ℓ} where
  -- The message is refused by a dead actor, and by a full mailbox.
  abbrev pub offer_to : Actor C → List C → C → Bool × List C
  offer_to a q message = if a.alive then offer a.mailbox.capacity q message else (false, q)

  -- With no other thread at work, on a mailbox that represents the queue q, with positions below 2
  -- ^ 63 and fewer than 2 ^ 31 slots, actor_send returns; it appends the message to q and, if the
  -- actor waits, clears its flag and schedules it, unless the actor is dead or q fills the
  -- mailbox: then q, the flag and the schedule stay.
  pub actor_send-offers :
      (a : Actor C) (q : List C) (message : C)
      → Represents a.mailbox q
      → IsRoomy a.mailbox
      → (a' : Actor C) × (actor_send a message ≡ some (a', (offer_to a q message).0 && a.wait_flag))
        × Represents a'.mailbox (offer_to a q message).1
        × (a'.wait_flag ≡ (not (offer_to a q message).0 && a.wait_flag))
        × (a'.alive ≡ a.alive)
  unfolding actor_send
  actor_send-offers a q message h roomy = by_alive a.alive refl
    where
      by_answer :
          a.alive ≡ true
          → (r : Ring C) (o : Bool × List C)
          → solo 8 a.mailbox (send_load message) ≡ some (r, sent o.0)
          → Represents r o.1
          → (a' : Actor C) × (elim (solo 8 a.mailbox (send_load message)) [
            | none ↦ none
            | some end ↦ some (delivered a end.0 end.1)
          ]
              ≡ some (a', o.0 && a.wait_flag))
            × Represents a'.mailbox o.1
            × (a'.wait_flag ≡ (not o.0 && a.wait_flag))
            × (a'.alive ≡ true)
      by_answer live r (true, q') e k =
          (record a { mailbox = r; wait_flag = false }, rw e refl, k, refl, live)
      by_answer live r (false, q') e k = (record a { mailbox = r }, rw e refl, k, refl, live)

      by_alive :
          (b : Bool)
          → a.alive ≡ b
          → (a' : Actor C) × ((if not b
                then some (a, false)
                else elim (solo 8 a.mailbox (send_load message)) [
                  | none ↦ none
                  | some end ↦ some (delivered a end.0 end.1)
                ])
              ≡ some (
                a',
                (if b then offer a.mailbox.capacity q message else (false, q)).0 && a.wait_flag,
              ))
            × Represents a'.mailbox (if b then offer a.mailbox.capacity q message else (false, q)).1
            × (a'.wait_flag ≡ (
                not (if b then offer a.mailbox.capacity q message else (false, q)).0
                && a.wait_flag))
            × (a'.alive ≡ b)
      by_alive false dead = (a, refl, h, refl, dead)
      by_alive true live =
          let (r, e, k) = solo-offer 1 a.mailbox q message h roomy in
          by_answer live r (offer a.mailbox.capacity q message) e k

  -- With no other thread at work, on a mailbox that represents the queue q, with positions below 2
  -- ^ 63 and fewer than 2 ^ 31 slots, actor_receive returns the oldest message of q, or NULL where
  -- q is empty, and leaves a mailbox that represents the rest.
  pub actor_receive-polls :
      (a : Actor C) (q : List C)
      → Represents a.mailbox q
      → IsRoomy a.mailbox
      → (r : Ring C) × (actor_receive a ≡ some ((poll q).0, record a { mailbox = r }))
        × Represents r (poll q).1
  unfolding actor_receive
  actor_receive-polls a q h roomy =
      let (r, e, k) = solo-tested 0 a.mailbox q h roomy in (r, rw (actor_receive, e) refl, k)

  drain_slots-rest :
      (n i : ℕ) (r : Ring C) (q : List C)
      → IsRing r
      → n ≤ r.capacity
      → length q ≡ n
      → ((k : ℕ) → k < n → value_at r (i + k) ≡ get_elem? q k)
      → drain_slots n i r ≡ q
  unfolding drain_slots
  drain_slots-rest zero i r [] h fits size at = refl
  drain_slots-rest zero i r (x ∷ q) h fits size at = absurd (omega arith)
  drain_slots-rest (suc n) i r [] h fits size at = absurd (omega arith)
  drain_slots-rest (suc n) i r (x ∷ q) h fits size at =
      let place : i ≡ i + 0 = omega arith in
      let here : value_at r i ≡ some x = ap (value_at r) place ∙ at 0 (omega arith) in
      let s : Slot C = record { sequence = seq_at r i; value = none } in
      let later : (k : ℕ) → k < n → value_at (set_slot r i s) (i + 1 + k) ≡ get_elem? q k = λ k lt.
        ap Slot.value (
          set_slot_ne h i (i + 1 + k) s (λ z.
            let d = window h i (i + 1 + k) (sym z) (omega arith) (omega arith) in omega arith))
        ∙ (let next : i + 1 + k ≡ i + suc k = omega arith in
            ap (value_at r) next ∙ at (suc k) (omega arith)) in
      rw (drain_slots, here)
        (ap (λ ys. x ∷ ys)
          (drain_slots-rest n (i + 1) (set_slot r i s) q (set_slot-IsRing h i s) (omega arith)
            (omega arith) later))

  -- A mailbox that is destroyed releases its messages, each once, oldest first.
  pub destroy-drains : (r : Ring C) (q : List C) → Represents r q → mailbox_destroy r ≡ q
  unfolding mailbox_destroy
  destroy-drains r q h =
      let n : r.enqueue_pos - r.dequeue_pos ≡ length q = omega (arith, h.span) in
      ap (λ k. drain_slots k r.dequeue_pos r) n
      ∙ drain_slots-rest (length q) r.dequeue_pos r q h.shape h.fits refl (λ k lt. (h.full k lt).1)
