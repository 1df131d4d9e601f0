-- ===== src/Runtime/Timer/Laws.antt =====
-- When timers fire.
use guage.Prelude.{
  ℕ, zero, suc, ◌+◌, ◌-◌, ◌<◌, ◌≡◌, refl, sym, ap, ◌∙◌, Bool, true, false, none, some, List, [],
  ◌∷◌, ◌++◌, map, arith, leb, if◌then◌else◌, to_nat, find, All,
}
use guage.Runtime.Timer.{
  Timer, Timers, Event, send, drop_message, stopped, tick, timer_tick_all, timer_any_pending,
  tick_list,
}

module _ {ℓ} {C : Type ℓ} (live : ℕ → Bool) where
  -- `n` ticks in a row, with all that they send and drop.
  pub ticks : ℕ → Timers C → Timers C × List (Event C)
  ticks zero s = (s, [])
  ticks (suc n) s =
      let (fired, s', events) = timer_tick_all live s in
      let (s'', rest) = ticks n s' in (s'', events ++ rest)

  -- The ticks of one timer.
  pub alone : ℕ → Timer C → Timer C × List (Event C)
  alone zero t = (t, [])
  alone (suc n) t =
      let (fired, t', events) = tick live t in let (t'', rest) = alone n t' in (t'', events ++ rest)

  alone_stopped : (n : ℕ) (t : Timer C) → t.active ≡ false → alone n t ≡ (t, [])
  unfolding alone tick
  alone_stopped zero t h = refl
  alone_stopped (suc n) t h = ground (arith, alone_stopped n t h)

  -- An active timer set to r ticks and with a message does nothing in its first r ticks; the tick
  -- after that sends the message once if the target is alive, and drops it; later ticks do
  -- nothing.
  pub alone_fires :
      (n : ℕ) (t : Timer C) (m : C)
      → t.active ≡ true
      → t.message ≡ some m
      → (alone n t).1 ≡ (
          if leb n t.remaining_ticks
          then []
          else if live t.target
          then send t.target m ∷ drop_message m ∷ []
          else drop_message m ∷ [])
  unfolding alone tick
  alone_fires zero t m a h = ground arith
  alone_fires (suc n) t m a h = ground (
    arith,
    alone_fires n (record t { remaining_ticks = t.remaining_ticks - 1 }) m,
    alone_stopped n (stopped t),
  )

  -- How often `q` picks what was sent.
  abbrev pub sends : (ℕ → C → Bool) → List (Event C) → ℕ
  sends q [] = 0
  sends q (send a m ∷ es) = to_nat (q a m) + sends q es
  sends q (drop_message m ∷ es) = sends q es

  sends-append :
      (q : ℕ → C → Bool) (a b : List (Event C)) → sends q (a ++ b) ≡ sends q a + sends q b
  sends-append q [] b = omega arith
  sends-append q (send t m ∷ a) b = omega (arith, sends-append q a b)
  sends-append q (drop_message m ∷ a) b = sends-append q a b

  abbrev pub sends_alone : (ℕ → C → Bool) → ℕ → List (Timer C) → ℕ
  sends_alone q n [] = 0
  sends_alone q n (t ∷ ts) = sends q (alone n t).1 + sends_alone q n ts

  sends_alone-zero : (q : ℕ → C → Bool) (ts : List (Timer C)) → sends_alone q 0 ts ≡ 0
  unfolding alone
  sends_alone-zero q [] = refl
  sends_alone-zero q (t ∷ ts) = omega (arith, sends_alone-zero q ts)

  sends_alone-suc :
      (q : ℕ → C → Bool) (n : ℕ) (ts : List (Timer C))
      → sends_alone q (suc n) ts
        ≡ sends q (tick_list live ts).2 + sends_alone q n (tick_list live ts).1
  unfolding alone tick_list
  sends_alone-suc q n [] = refl
  sends_alone-suc q n (t ∷ ts) = omega (
    arith,
    sends_alone-suc q n ts,
    sends-append q (tick live t).2 (alone n (tick live t).1).1,
    sends-append q (tick live t).2 (tick_list live ts).2,
  )

  -- In any number of ticks of all timers, each kind of message is sent as often as the timers,
  -- each ticked alone, would send it: no timer disturbs another.
  pub sends-ticks :
      (q : ℕ → C → Bool) (n : ℕ) (s : Timers C) → sends q (ticks n s).1 ≡ sends_alone q n s.timers
  unfolding ticks timer_tick_all
  sends-ticks q zero s = sym (sends_alone-zero q s.timers)
  sends-ticks q (suc n) s =
      let (fired, s', events) = timer_tick_all live s in
      omega (
        arith,
        sends_alone-suc q n s.timers,
        sends-ticks q n s',
        sends-append q events (ticks n s').1,
      )

  timers-ticks : (n : ℕ) (s : Timers C) → (ticks n s).0.timers ≡ map (λ t. (alone n t).0) s.timers
  unfolding ticks timer_tick_all alone
  timers-ticks zero s = sym (map_self s.timers)
    where
      map_self : (ts : List (Timer C)) → map (λ t. t) ts ≡ ts
      map_self [] = refl
      map_self (t ∷ ts) = ap (λ l. t ∷ l) (map_self ts)
  timers-ticks (suc n) s = timers-ticks n (timer_tick_all live s).1 ∙ fuse s.timers
    where
      fuse :
          (ts : List (Timer C))
          → map (λ t. (alone n t).0) (tick_list live ts).1 ≡ map (λ t. (alone (suc n) t).0) ts
      fuse [] = refl
      fuse (t ∷ ts) = ap (λ l. (alone n (tick live t).1).0 ∷ l) (fuse ts)

  alone_done : (n : ℕ) (t : Timer C) → t.remaining_ticks < n → (alone n t).0.active ≡ false
  unfolding alone tick
  alone_done zero t h = absurd (omega arith)
  alone_done (suc n) t h = ground (
    arith,
    alone_done n (record t { remaining_ticks = t.remaining_ticks - 1 }),
    alone_stopped n (stopped t),
    alone_stopped n t,
  )

  -- When every timer is set to fewer than n ticks, timer_any_pending is false after n ticks.
  pub ticks_done :
      (n : ℕ) (s : Timers C)
      → All (λ t. t.remaining_ticks < n) s.timers
      → timer_any_pending (ticks n s).0 ≡ false
  unfolding timer_any_pending
  ticks_done n s h =
      rw (timers-ticks n s, timer_any_pending) (ground (arith, none_active s.timers h))
    where
      none_active :
          (ts : List (Timer C))
          → All (λ t. t.remaining_ticks < n) ts
          → find (λ t. t.active) (map (λ t. (alone n t).0) ts) ≡ none
      none_active [] a = refl
      none_active (t ∷ ts) a = ground (arith, none_active ts a.1, alone_done n t a.0)
