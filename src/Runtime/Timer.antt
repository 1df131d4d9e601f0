-- ===== src/Runtime/Timer.antt =====
-- Timers of bootstrap/actor.c. `g_timers` up to `g_timer_count` is a list; a timer that has fired
-- or was cancelled keeps its place. A tick returns what it sends to actors and what it releases;
-- `live` stands for `target && target->alive` of the target's lookup, which no send changes.
pub mod Laws
mod Tests
use guage.Prelude.{
  ℕ, ◌+◌, ◌-◌, Bool, true, false, ◌&&◌, ◌||◌, Option, none, some, List, [], ◌∷◌, ◌++◌, ltb, leb,
  ◌==◌, if◌then◌else◌, length, find, update_first,
}
use guage.Runtime.Refs.{RefOp, retain, release}

pub record Timer {ℓ} (C : Type ℓ) : Type ℓ where
  pub id : ℕ
  pub target : ℕ
  -- An `int` in the source; a negative count fires as 0 does.
  pub remaining_ticks : ℕ
  pub message : Option C
  pub active : Bool

pub record Timers {ℓ} (C : Type ℓ) : Type ℓ where
  pub timers : List (Timer C)
  pub next_id : ℕ

-- `actor_send(target, message)` and `cell_release(message)`
pub data Event {ℓ} (C : Type ℓ) : Type ℓ where
  send : ℕ → C → Event C
  drop_message : C → Event C

-- `MAX_TIMERS`
abbrev pub max_timers : ℕ
max_timers = 256

module _ {ℓ} {C : Type ℓ} where
  -- `none` for -1.
  unfoldable pub timer_create : Timers C → ℕ → ℕ → Option C → Option ℕ × Timers C × List (RefOp C)
  timer_create s target ticks message =
      if leb max_timers (length s.timers) then (none, s, []) else (
        some s.next_id,
        record {
          timers =
              s.timers
              ++ (record {
                id = s.next_id;
                target = target;
                remaining_ticks = ticks;
                message = message;
                active = true;
              }
                  ∷ []);
          next_id = s.next_id + 1;
        },
        elim message [ none ↦ [] | some m ↦ retain m ∷ [] ],
      )

  abbrev pub is_running : ℕ → Timer C → Bool
  is_running i t = t.id == i && t.active

  abbrev pub stopped : Timer C → Timer C
  stopped t = record t { active = false; message = none }

  abbrev pub release_message : Option C → List (RefOp C)
  release_message none = []
  release_message (some m) = release m ∷ []

  -- The flag is false for -1.
  unfoldable pub timer_cancel : Timers C → ℕ → Bool × Timers C × List (RefOp C)
  timer_cancel s i = elim (find (is_running i) s.timers) [
    | none ↦ (false, s, [])
    | some t ↦ (
      true,
      record s { timers = update_first (is_running i) stopped s.timers },
      release_message t.message,
    )
  ]

  unfoldable pub timer_active : Timers C → ℕ → Bool
  timer_active s i = elim (find (λ t. t.id == i) s.timers) [ none ↦ false | some t ↦ t.active ]

  -- The body of the loop of `timer_tick_all`, with whether the timer has fired.
  unfoldable pub tick : (ℕ → Bool) → Timer C → Bool × Timer C × List (Event C)
  tick live t =
      if t.active
      then if ltb 0 t.remaining_ticks
        then (false, record t { remaining_ticks = t.remaining_ticks - 1 }, [])
        else (
          true,
          stopped t,
          elim t.message [
            | none ↦ []
            | some m ↦
                if live t.target then send t.target m ∷ drop_message m ∷ [] else drop_message m ∷ []
          ],
        )
      else (false, t, [])

  unfoldable pub tick_list : (ℕ → Bool) → List (Timer C) → Bool × List (Timer C) × List (Event C)
  unfolding tick
  tick_list live [] = (false, [], [])
  tick_list live (t ∷ ts) =
      let (fired, t', events) = tick live t in
      let (any_fired, ts', rest) = tick_list live ts in
      (fired || any_fired, t' ∷ ts', events ++ rest)

  unfoldable pub timer_tick_all : (ℕ → Bool) → Timers C → Bool × Timers C × List (Event C)
  unfolding tick_list
  timer_tick_all live s =
      let (fired, ts, events) = tick_list live s.timers in (fired, record s { timers = ts }, events)

  unfoldable pub timer_any_pending : Timers C → Bool
  timer_any_pending s = elim (find (λ t. t.active) s.timers) [ none ↦ false | some t ↦ true ]

  unfoldable pub release_timers : List (Timer C) → List (RefOp C)
  release_timers [] = []
  release_timers (t ∷ ts) = release_message t.message ++ release_timers ts

  unfoldable pub timer_reset_all : Timers C → Timers C × List (RefOp C)
  unfolding release_timers
  timer_reset_all s = (record { timers = []; next_id = 1 }, release_timers s.timers)
