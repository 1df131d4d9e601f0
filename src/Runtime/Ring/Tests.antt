-- ===== src/Runtime/Ring/Tests.antt =====
-- Small rings, for tests.
use guage.Prelude.{ℕ, ◌≡◌, refl, true, false, some, List, [], ◌∷◌, map, arith}
use guage.Runtime.Ring.{Ring, Event, go, begin_send, begin_receive, run, quiet_world, mailbox_init}
use guage.Runtime.Ring.Fifo.{IsFifo, run-IsFifo, init-Represents}
use guage.Runtime.Ring.Solo.{Represents}
use guage.Runtime.Ring.Queue.{IsRoomy}

-- Two senders whose steps interleave, and a receiver.
abbrev race : List (Event ℕ)
race =
    begin_send 0 5
    ∷ begin_send 1 6
    ∷ go 0 false
    ∷ go 1 false
    ∷ go 0 false
    ∷ go 1 false
    ∷ go 1 false
    ∷ go 0 false
    ∷ go 1 false
    ∷ go 1 false
    ∷ begin_receive 2 false
    ∷ go 2 false
    ∷ go 2 false
    ∷ go 2 true
    ∷ go 2 false
    ∷ go 2 false
    ∷ go 2 false
    ∷ []

race_outcome :
    ((run (quiet_world (mailbox_init 2)) race).accepted ≡ 6 ∷ [])
    × (map (λ d. d.item) (run (quiet_world (mailbox_init 2)) race).delivered ≡ some 6 ∷ [])
unfolding run mailbox_init
race_outcome = (refl, refl)

run-IsFifo_example : IsFifo 2 (run (quiet_world (mailbox_init 2)) race)
run-IsFifo_example = run-IsFifo 1 race (omega arith) (omega arith)

abbrev pub ring2 : Ring ℕ
ring2 = mailbox_init 2

pub ring2-IsRoomy : IsRoomy ring2
unfolding mailbox_init
ring2-IsRoomy = record { positions = omega arith; slots = omega arith }

pub ring2-Represents : Represents ring2 []
ring2-Represents = init-Represents 1 (omega arith)
