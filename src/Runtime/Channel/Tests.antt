-- ===== src/Runtime/Channel/Tests.antt =====
-- A small channel, for tests.
use guage.Prelude.{
  ℕ, ◌+◌, ◌≤◌, ◌≡◌, refl, true, false, none, some, List, [], ◌∷◌, arith, if◌then◌else◌,
}
use guage.Runtime.Ring.Solo.{Represents}
use guage.Runtime.Ring.Tests.{ring2, ring2-IsRoomy, ring2-Represents}
use guage.Runtime.Channel.{
  Channel, Actors, next_pow2, channel_wake_actor, channel_try_send, channel_try_recv,
}
use guage.Runtime.Channel.{Channels, channel_create}
use guage.Runtime.Channel.Create.{create-Represents, wanted}
use guage.Runtime.Channel.Closed.{Use, try_send, try_recv, close}
use guage.Runtime.Channel.Laws.{offer_open, try_send-offers, try_recv-polls}

abbrev chan2 : Channel ℕ
chan2 = record { id = 1; closed = false; ring = ring2; recv_waiter = some 3; send_waiter = none }

abbrev sleepers : Actors
sleepers = record { alive = λ i. true; wait_flag = λ i. true; ready = [] }

pow2_run : (next_pow2 1 ≡ 2) × (next_pow2 5 ≡ 8) × (next_pow2 64 ≡ 64) × (next_pow2 65 ≡ 128)
unfolding next_pow2
pow2_run = (refl, refl, refl, refl)

try_send-offers_example :
    (c' : Channel ℕ) × (channel_try_send chan2 sleepers 9
      ≡ some (
        (offer_open chan2 [] 9).0,
        c',
        if (offer_open chan2 [] 9).0 then channel_wake_actor sleepers (some 3) else sleepers,
      ))
    × Represents c'.ring (offer_open chan2 [] 9).1
    × (c'.recv_waiter ≡ (if (offer_open chan2 [] 9).0 then none else some 3))
try_send-offers_example = try_send-offers chan2 sleepers [] 9 ring2-Represents ring2-IsRoomy

try_recv-polls_example :
    (c' : Channel ℕ) × (channel_try_recv chan2 sleepers ≡ some (none, c', sleepers))
    × Represents c'.ring []
    × (c'.closed ≡ false)
try_recv-polls_example = try_recv-polls chan2 sleepers [] ring2-Represents ring2-IsRoomy

abbrev uses : List (Use ℕ)
uses = try_send 8 ∷ try_recv ∷ close ∷ try_recv ∷ []

abbrev no_channels : Channels ℕ
no_channels = record { channels = []; next_channel_id = 1 }

create-Represents_example :
    (c : Channel ℕ) × (g' : Channels ℕ) × (channel_create no_channels 5 ≡ some (c, g'))
    × Represents c.ring []
    × (wanted 5 ≤ c.ring.capacity)
    × (c.ring.capacity ≤ wanted 5 + wanted 5)
    × (c.closed ≡ false)
create-Represents_example = create-Represents no_channels 5 (omega arith) (omega arith)
