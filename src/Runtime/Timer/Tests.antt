-- ===== src/Runtime/Timer/Tests.antt =====
-- Timers with numbers for messages.
use guage.Prelude.{ℕ, ◌≡◌, refl, Bool, true, some, [], ◌∷◌, leb, ◌==◌, if◌then◌else◌}
use guage.Runtime.Timer.{Timer, Timers, send, drop_message}
use guage.Runtime.Timer.Laws.{alone, alone_fires}

abbrev in_two : Timer ℕ
in_two = record { id = 1; target = 4; remaining_ticks = 2; message = some 9; active = true }

abbrev pair_of_timers : Timers ℕ
pair_of_timers = record {
  timers =
      in_two
      ∷ record { id = 2; target = 5; remaining_ticks = 0; message = some 8; active = true }
      ∷ [];
  next_id = 3;
}

abbrev live : ℕ → Bool
live i = i == 4

alone_fires_example : (alone live 3 in_two).1 ≡ (
    if leb 3 2 then [] else if live 4 then send 4 9 ∷ drop_message 9 ∷ [] else drop_message 9 ∷ [])
alone_fires_example = alone_fires live 3 in_two 9 refl refl
