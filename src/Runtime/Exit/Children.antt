-- ===== src/Runtime/Exit/Children.antt =====
-- The children of supervisors (bootstrap/actor.c: `actor_create`, `supervisor_create`,
-- `supervisor_spawn_child`, `dynsup_remove_child_at` and the loops that respawn).
use guage.Prelude.{
  ℕ, zero, suc, ◌+◌, ◌%◌, Bool, true, false, not, ◌||◌, Option, none, some, List, [], ◌∷◌, ◌++◌,
  map, leb, ◌==◌, if◌then◌else◌, length, get_elem?, set, take,
}
use guage.Runtime.Exit.{
  null, shutdown, Actor, SupervisorStrategy, ChildRestartType, permanent, Child, Supervisor,
  retained, spawned, spec_retained, spec_released, World, max_actors, max_supervisors,
  max_sup_children, i32, is_child, emit, actor_lookup, supervisor_lookup, with_actor,
  with_supervisor, dead_with,
}

abbrev pub remove_at {ℓ} : {A : Type ℓ} → ℕ → List A → List A
remove_at n [] = []
remove_at zero (x ∷ xs) = xs
remove_at (suc n) (x ∷ xs) = x ∷ remove_at n xs

module _ {ℓ} {C : Type ℓ} where
  abbrev pub new_actor : ℕ → Actor C
  new_actor id = record {
    id = id;
    alive = true;
    trap_exit = false;
    links = [];
    monitors = [];
    result = null;
    awaits = none;
    wait_flag = false;
  }

  -- `actor_create`, with the body that its caller gives the fiber.
  unfoldable pub actor_create : World C → C → Option (ℕ × World C)
  actor_create w spec =
      if leb max_actors (length w.actors)
      then none
      else some (
        w.next_actor_id,
        record w {
          actors = w.actors ++ (new_actor w.next_actor_id ∷ []);
          next_actor_id = w.next_actor_id + 1;
          alive_actors = (w.alive_actors + 1) % i32;
          events = w.events ++ (spawned w.next_actor_id spec ∷ []);
        },
      )

  abbrev pub set_child_id : ℕ → ℕ → Supervisor C → Supervisor C
  set_child_id index id s = elim (get_elem? s.children index) [
    | none ↦ s
    | some c ↦ record s { children = set s.children index (record c { child_id = id }) }
  ]

  abbrev pub child_at : World C → ℕ → ℕ → Option (Child C)
  child_at w sup index = elim (supervisor_lookup w sup) [
    | none ↦ none
    | some s ↦ get_elem? s.children index
  ]

  -- The id, 0 when there is no such child or no room, and the world.
  unfoldable pub supervisor_spawn_child : World C → ℕ → ℕ → ℕ × World C
  supervisor_spawn_child w sup index = elim (child_at w sup index) [
    | none ↦ (0, w)
    | some c ↦ elim (actor_create w c.spec) [
      | none ↦ (0, w)
      | some (id, w') ↦ (id, with_supervisor w' sup (set_child_id index id))
    ]
  ]

  abbrev pub without_child : ℕ → Supervisor C → Supervisor C
  without_child index s = record s { children = remove_at index s.children }

  unfoldable pub dynsup_remove_child_at : World C → ℕ → ℕ → World C
  dynsup_remove_child_at w sup index = elim (child_at w sup index) [
    | none ↦ w
    | some c ↦ with_supervisor (emit w (spec_released c.spec)) sup (without_child index)
  ]

  -- `if (sup->child_ids[i] == id) { index = i; break; }`
  abbrev pub child_index : ℕ → List (Child C) → ℕ → Option ℕ
  child_index id [] i = none
  child_index id (c ∷ cs) i = if is_child id c then some i else child_index id cs (i + 1)

  abbrev pub restart_type : List (Child C) → ℕ → ChildRestartType
  restart_type cs i = elim (get_elem? cs i) [ none ↦ permanent | some c ↦ c.child_restart ]

  abbrev pub bump : Supervisor C → Supervisor C
  bump s = record s { restart_count = s.restart_count + 1 }

  -- The loops that respawn, at child `i` and for at most so many children.
  unfoldable pub respawn : World C → ℕ → ℕ → ℕ → World C
  respawn w sup zero i = w
  respawn w sup (suc n) i = elim (child_at w sup i) [
    | none ↦ w
    | some c ↦ respawn (supervisor_spawn_child w sup i).1 sup n (i + 1)
  ]

  abbrev pub unborn : ChildRestartType → C → Child C
  unborn type spec = record { spec = spec; child_id = 0; child_restart = type }

  -- `supervisor_create`: at most 32 specs are read. `is_dynamic` is what `prim_dynsup_start`
  -- (bootstrap/primitives.c) sets afterwards.
  unfoldable pub supervisor_create :
      World C → SupervisorStrategy → List C → Bool → Option (ℕ × World C)
  supervisor_create w strategy specs is_dynamic =
      if leb max_supervisors (length w.supervisors)
      then none
      else some (
        w.next_supervisor_id,
        record w {
          supervisors =
              w.supervisors
              ++ (record {
                id = w.next_supervisor_id;
                strategy = strategy;
                children = map (unborn permanent) (take max_sup_children specs);
                restart_count = 0;
                is_dynamic = is_dynamic;
              }
                  ∷ []);
          next_supervisor_id = w.next_supervisor_id + 1;
          events = w.events ++ map spec_retained (take max_sup_children specs);
        },
      )

  abbrev pub with_child : Child C → Supervisor C → Supervisor C
  with_child c s = record s { children = s.children ++ (c ∷ []) }

  abbrev pub drop_last : ℕ → Supervisor C → Supervisor C
  drop_last n s = record s { children = take n s.children }

  -- A child is added to a dynamic supervisor (bootstrap/primitives.c: `prim_dynsup_start_child`).
  unfoldable pub dynsup_start_child :
      World C → Supervisor C → C → ChildRestartType → Option ℕ × World C
  dynsup_start_child w s behavior type =
      if not s.is_dynamic || leb max_sup_children (length s.children)
      then (none, w)
      else let index = length s.children in
        let w1 =
          with_supervisor (emit w (spec_retained behavior)) s.id
            (with_child (unborn type behavior)) in
        let (id, w2) = supervisor_spawn_child w1 s.id index in
        if id == 0
        then (none, with_supervisor (emit w2 (spec_released behavior)) s.id (drop_last index))
        else (some id, w2)

  -- The kill within `prim_dynsup_terminate_child`.
  unfoldable pub kill_quietly : World C → ℕ → World C
  kill_quietly w id = elim (actor_lookup w id) [
    | none ↦ w
    | some a ↦
        if a.alive then emit (with_actor w id (dead_with shutdown)) (retained shutdown) else w
  ]

  -- A child of a dynamic supervisor is ended (bootstrap/primitives.c:
  -- `prim_dynsup_terminate_child`).
  unfoldable pub dynsup_terminate_child : World C → Supervisor C → ℕ → Bool × World C
  dynsup_terminate_child w s id =
      if not s.is_dynamic then (false, w) else elim (child_index id s.children 0) [
        | none ↦ (false, w)
        | some i ↦ (true, dynsup_remove_child_at (kill_quietly w id) s.id i)
      ]
