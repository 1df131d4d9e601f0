-- ===== src/Runtime/Exit.antt =====
-- How the death of an actor spreads (bootstrap/actor.c: `actor_exit_signal`, `actor_finish`,
-- `actor_notify_exit` and `supervisor_*`). Actors, supervisors and children are known by their ids;
-- a lock held and given back is one step. The calls of other tables, the messages and the scheduler's
-- wake-ups are events, in program order. `g_actors` has at most 256 entries, so that ids do not wrap.
pub mod Children
pub mod Notify
pub mod Grows
pub mod Sound
pub mod Changes
pub mod Loops
pub mod Listeners
pub mod Supervision
pub mod Spread
pub mod Laws
pub mod Dynamic
pub mod Respawn
pub mod Watch
pub mod Restarts
mod Tests
use guage.Prelude.{
  ℕ, ◌+◌, ◌-◌, ◌%◌, ◌^◌, Bool, true, false, Option, none, some, List, [], ◌∷◌, ◌++◌, ◌==◌,
  if◌then◌else◌, find, update_first,
}

-- A result: NULL, a cell of type CELL_ERROR, another cell, `:normal`, `:shutdown`.
pub data Reason {ℓ} (C : Type ℓ) : Type ℓ where
  null : Reason C
  failed : C → Reason C
  cell : C → Reason C
  normal : Reason C
  shutdown : Reason C

abbrev pub is_error {ℓ} : {C : Type ℓ} → Reason C → Bool
is_error null = false
is_error (failed c) = true
is_error (cell c) = false
is_error normal = false
is_error shutdown = false

-- `awaits`: the actor for whose end its fiber is suspended.
pub record Actor {ℓ} (C : Type ℓ) : Type ℓ where
  pub id : ℕ
  pub alive : Bool
  pub trap_exit : Bool
  pub links : List ℕ
  pub monitors : List ℕ
  pub result : Reason C
  pub awaits : Option ℕ
  pub wait_flag : Bool

pub data SupervisorStrategy : Type 0 where
  one_for_one one_for_all rest_for_one : SupervisorStrategy

pub data ChildRestartType : Type 0 where
  permanent transient temporary : ChildRestartType

-- One entry of the arrays `child_specs`, `child_ids` and `child_restart`.
pub record Child {ℓ} (C : Type ℓ) : Type ℓ where
  pub spec : C
  pub child_id : ℕ
  pub child_restart : ChildRestartType

pub record Supervisor {ℓ} (C : Type ℓ) : Type ℓ where
  pub id : ℕ
  pub strategy : SupervisorStrategy
  pub children : List (Child C)
  pub restart_count : ℕ
  pub is_dynamic : Bool

pub data Event {ℓ} (C : Type ℓ) : Type ℓ where
  exit_sent : (target sender : ℕ) (reason : Reason C) → Event C
  down_sent : (watcher id : ℕ) (reason : Reason C) → Event C
  tables_destroyed : (owner : ℕ) → Event C
  name_removed : (id : ℕ) → Event C
  retained : (reason : Reason C) → Event C
  retained_shared : (reason : Reason C) → Event C
  transferred_shared : (reason : Reason C) → Event C
  schedulers_notified : Event C
  enqueued : (id : ℕ) → Event C
  spawned : (id : ℕ) (spec : C) → Event C
  spec_retained : (spec : C) → Event C
  spec_released : (spec : C) → Event C

pub record World {ℓ} (C : Type ℓ) : Type ℓ where
  pub actors : List (Actor C)
  pub next_actor_id : ℕ
  pub alive_actors : ℕ
  pub supervisors : List (Supervisor C)
  pub next_supervisor_id : ℕ
  pub events : List (Event C)

abbrev pub max_actors : ℕ
max_actors = 256

abbrev pub max_supervisors : ℕ
max_supervisors = 64

abbrev pub max_sup_children : ℕ
max_sup_children = 32

abbrev pub sup_max_restarts : ℕ
sup_max_restarts = 5

abbrev pub i32 : ℕ
i32 = 2 ^ 32

abbrev pub is_temporary : ChildRestartType → Bool
is_temporary permanent = false
is_temporary transient = false
is_temporary temporary = true

abbrev pub is_permanent : ChildRestartType → Bool
is_permanent permanent = true
is_permanent transient = false
is_permanent temporary = false

-- Go on where the rounds were enough.
abbrev pub bind {ℓ κ} : {A : Type ℓ} {B : Type κ} → Option A → (A → Option B) → Option B
bind none f = none
bind (some a) f = f a

module _ {ℓ} {C : Type ℓ} where
  abbrev pub has_id : ℕ → Actor C → Bool
  has_id id a = a.id == id

  abbrev pub is_supervisor : ℕ → Supervisor C → Bool
  is_supervisor id s = s.id == id

  abbrev pub is_child : ℕ → Child C → Bool
  is_child id c = c.child_id == id

  abbrev pub emit : World C → Event C → World C
  emit w e = record w { events = w.events ++ (e ∷ []) }

  abbrev pub actor_lookup : World C → ℕ → Option (Actor C)
  actor_lookup w id = find (has_id id) w.actors

  abbrev pub supervisor_lookup : World C → ℕ → Option (Supervisor C)
  supervisor_lookup w id = find (is_supervisor id) w.supervisors

  abbrev pub has_child : ℕ → List (Child C) → Bool
  has_child id [] = false
  has_child id (c ∷ cs) = if is_child id c then true else has_child id cs

  abbrev pub supervisor_find_for_child : World C → ℕ → Option (Supervisor C)
  supervisor_find_for_child w child_id = find (λ s. has_child child_id s.children) w.supervisors

  -- The actor or supervisor with this id is written.
  abbrev pub with_actor : World C → ℕ → (Actor C → Actor C) → World C
  with_actor w id f = record w { actors = update_first (has_id id) f w.actors }

  abbrev pub with_supervisor : World C → ℕ → (Supervisor C → Supervisor C) → World C
  with_supervisor w id f = record w {
    supervisors = update_first (is_supervisor id) f w.supervisors;
  }

  unfoldable pub alive_dec_and_notify : World C → World C
  alive_dec_and_notify w = record w {
    alive_actors = (w.alive_actors + i32 - 1) % i32;
    events = if w.alive_actors == 1 then w.events ++ (schedulers_notified ∷ []) else w.events;
  }

  abbrev pub dead_with : Reason C → Actor C → Actor C
  dead_with reason a = record a { alive = false; result = reason }

  -- Nothing is kept of NULL.
  abbrev pub kept : (Reason C → Event C) → Reason C → List (Event C)
  kept keep null = []
  kept keep (failed c) = keep (failed c) ∷ []
  kept keep (cell c) = keep (cell c) ∷ []
  kept keep normal = keep normal ∷ []
  kept keep shutdown = keep shutdown ∷ []

  -- An actor that is alive is marked dead, under its lock.
  unfoldable pub mark_dead : World C → ℕ → Reason C → (Reason C → Event C) → World C
  mark_dead w id reason keep =
      let w' = with_actor w id (dead_with reason) in
      alive_dec_and_notify (record w' { events = w'.events ++ kept keep reason })
