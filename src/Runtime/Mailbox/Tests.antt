-- ===== src/Runtime/Mailbox/Tests.antt =====
-- A small mailbox, for tests.
use guage.Prelude.{ℕ, ◌≡◌, true, not, ◌&&◌, none, some, [], ◌∷◌}
use guage.Runtime.Ring.{Ring, mailbox_init, solo, send_load, sent}
use guage.Runtime.Ring.Solo.{Represents}
use guage.Runtime.Ring.Queue.{solo-offer}
use guage.Runtime.Ring.Tests.{ring2, ring2-IsRoomy, ring2-Represents}
use guage.Runtime.Mailbox.{Actor, actor_send, actor_receive}
use guage.Runtime.Mailbox.Laws.{offer_to, actor_send-offers, actor_receive-polls}

abbrev waiting_actor : Actor ℕ
waiting_actor = record { id = 4; alive = true; wait_flag = true; mailbox = ring2 }

-- A ring that one message has been sent to.
one_message :
    (r : Ring ℕ) × (solo 7 ring2 (send_load 9) ≡ some (r, sent true)) × Represents r (9 ∷ [])
unfolding mailbox_init
one_message = solo-offer 0 ring2 [] 9 ring2-Represents ring2-IsRoomy

actor_send-offers_example :
    (a' : Actor ℕ) × (actor_send waiting_actor 9
      ≡ some (a', (offer_to waiting_actor [] 9).0 && true))
    × Represents a'.mailbox (offer_to waiting_actor [] 9).1
    × (a'.wait_flag ≡ (not (offer_to waiting_actor [] 9).0 && true))
    × (a'.alive ≡ true)
actor_send-offers_example = actor_send-offers waiting_actor [] 9 ring2-Represents ring2-IsRoomy

actor_receive-polls_example :
    (r : Ring ℕ) × (actor_receive waiting_actor ≡ some (none, record waiting_actor { mailbox = r }))
    × Represents r []
actor_receive-polls_example = actor_receive-polls waiting_actor [] ring2-Represents ring2-IsRoomy
