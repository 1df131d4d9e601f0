-- ===== src/Runtime/Mailbox.antt =====
-- Mailboxes of bootstrap/actor.c (`actor_send`, `actor_receive`, `mailbox_destroy`), with no other
-- thread at work on them: the rings of Ring.antt. The actor's home scheduler exists. Traces and
-- reference counts are left out. `none`: the steps of the loop have run out.
pub mod Laws
mod Tests
use guage.Prelude.{
  ℕ, zero, suc, ◌+◌, ◌-◌, Bool, true, false, not, Option, none, some, List, [], ◌∷◌, if◌then◌else◌,
}
use guage.Runtime.Ring.{Ring, Call, send_load, sent, recv_test, received, solo, slot_at, set_slot}

pub record Actor {ℓ} (C : Type ℓ) : Type ℓ where
  pub id : ℕ
  pub alive : Bool
  pub wait_flag : Bool
  pub mailbox : Ring C

-- The rounds of `actor_send` and `actor_receive`, in accesses.
abbrev pub accesses : ℕ
accesses = 8

module _ {ℓ} {C : Type ℓ} where
  -- After the loop: an actor that waits is put in its scheduler's queue, which the flag tells.
  abbrev pub delivered : Actor C → Ring C → Call C → Actor C × Bool
  delivered a r (sent true) = (record a { mailbox = r; wait_flag = false }, a.wait_flag)
  delivered a r c = (record a { mailbox = r }, false)

  unfoldable pub actor_send : Actor C → C → Option (Actor C × Bool)
  actor_send a message =
      if not a.alive then some (a, false) else elim (solo accesses a.mailbox (send_load message)) [
        | none ↦ none
        | some end ↦ some (delivered a end.0 end.1)
      ]

  abbrev pub returned : Call C → Option C
  returned (received value) = value
  returned c = none

  unfoldable pub actor_receive : Actor C → Option (Option C × Actor C)
  actor_receive a = elim (solo accesses a.mailbox recv_test) [
    | none ↦ none
    | some end ↦ some (returned end.1, record a { mailbox = end.0 })
  ]

  -- The loop of `mailbox_destroy`: the messages that it releases.
  unfoldable pub drain_slots : ℕ → ℕ → Ring C → List C
  drain_slots zero i r = []
  drain_slots (suc n) i r =
      let rest =
        drain_slots n (i + 1)
          (set_slot r i (record { sequence = (slot_at r i).sequence; value = none })) in
      let same = drain_slots n (i + 1) r in
      elim ((slot_at r i).value) [ none ↦ same | some x ↦ x ∷ rest ]

  unfoldable pub mailbox_destroy : Ring C → List C
  unfolding drain_slots
  mailbox_destroy r = drain_slots (r.enqueue_pos - r.dequeue_pos) r.dequeue_pos r
