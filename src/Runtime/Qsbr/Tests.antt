-- ===== src/Runtime/Qsbr/Tests.antt =====
-- Two scheduler threads, for tests.
use guage.Prelude.{◌<◌, ◌≡◌, refl, true, false, List, [], ◌∷◌, arith, count}
use guage.Runtime.Qsbr.{
  Qsbr, Event, advance, quiescent, retire, reclaims, qsbr_safe, qsbr_retire, qsbr_reclaim_amortized,
  run,
}
use guage.Runtime.Qsbr.Grace.{retired_waits, is_entry, IsBelow}

abbrev two_online : Qsbr
two_online = record {
  global_epoch = 3;
  threads = record { epoch = 3; online = true } ∷ record { epoch = 2; online = true } ∷ [];
  retired = [];
}

-- The second thread passes a quiescent state, the first one does not.
abbrev one_moves : List Event
one_moves = advance ∷ quiescent 1 ∷ reclaims ∷ []

-- Then the first one does.
both_move :
    (run (qsbr_retire two_online 7) (advance ∷ quiescent 1 ∷ quiescent 0 ∷ reclaims ∷ [])).retired
    ≡ []
unfolding run qsbr_retire
both_move = refl

room_enough : IsBelow two_online (retire 7 ∷ one_moves)
unfolding IsBelow qsbr_retire qsbr_reclaim_amortized
room_enough = (omega arith, (omega arith, (omega arith, (omega arith, tt))))

retired_waits_example :
    (0 < count (is_entry 7 3) (run (qsbr_retire two_online 7) one_moves).retired)
    × (qsbr_safe (run (qsbr_retire two_online 7) one_moves) 3 ≡ false)
retired_waits_example =
    retired_waits two_online 0 7 one_moves (omega arith) refl (omega arith) ((λ e. omega arith), tt)
      room_enough
