-- ===== src/Runtime/Channel/Closed.antt =====
-- What happens to a channel after `channel_close` (bootstrap/channel.c).
use guage.Prelude.{◌≡◌, Bool, true, false, Option, none, some, List, [], ◌∷◌}
use guage.Runtime.Ring.Solo.{Represents}
use guage.Runtime.Ring.Queue.{poll, IsRoomy}
use guage.Runtime.Channel.{Channel, Actors, channel_close, channel_try_send, channel_try_recv}

-- What an actor does with a channel.
pub data Use {ℓ} (C : Type ℓ) : Type ℓ where
  try_send : C → Use C
  try_recv : Use C
  close : Use C

-- What it gets back. `none` is NULL.
pub data Answer {ℓ} (C : Type ℓ) : Type ℓ where
  was_sent : Bool → Answer C
  was_received : Option C → Answer C
  was_closed : Answer C

module _ {ℓ} {C : Type ℓ} where
  unfoldable pub use_channel : Channel C → Actors → Use C → Option (Answer C × Channel C × Actors)
  use_channel c w (try_send v) = elim (channel_try_send c w v) [
    | none ↦ none
    | some (b, c', w') ↦ some (was_sent b, c', w')
  ]
  use_channel c w try_recv = elim (channel_try_recv c w) [
    | none ↦ none
    | some (x, c', w') ↦ some (was_received x, c', w')
  ]
  use_channel c w close = let (c', w') = channel_close c w in some (was_closed, c', w')

  unfoldable pub use_all :
      Channel C → Actors → List (Use C) → Option (List (Answer C) × Channel C × Actors)
  use_all c w [] = some ([], c, w)
  use_all c w (u ∷ us) = elim (use_channel c w u) [
    | none ↦ none
    | some (a, c', w') ↦ elim (use_all c' w' us) [
      | none ↦ none
      | some (answers, c'', w'') ↦ some (a ∷ answers, c'', w'')
    ]
  ]

  -- A queue that nothing is added to.
  abbrev pub drained : List C → List (Use C) → List (Answer C)
  drained q [] = []
  drained q (try_send v ∷ us) = was_sent false ∷ drained q us
  drained q (try_recv ∷ us) = was_received (poll q).0 ∷ drained (poll q).1 us
  drained q (close ∷ us) = was_closed ∷ drained q us

  abbrev pub left : List C → List (Use C) → List C
  left q [] = q
  left q (try_send v ∷ us) = left q us
  left q (try_recv ∷ us) = left (poll q).1 us
  left q (close ∷ us) = left q us

  -- A closed channel that nobody waits on.
  record Shut (c : Channel C) (q : List C) : Type ℓ where
    pub closed : c.closed ≡ true
    pub no_receiver : c.recv_waiter ≡ none
    pub no_sender : c.send_waiter ≡ none
    pub holds : Represents c.ring q
    pub roomy : IsRoomy c.ring
