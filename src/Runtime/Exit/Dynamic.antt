-- ===== src/Runtime/Exit/Dynamic.antt =====
-- Supervisors that are created and whose children come and go (bootstrap/actor.c:
-- `supervisor_create`; bootstrap/primitives.c: `prim_dynsup_start_child`,
-- `prim_dynsup_terminate_child`).
use guage.Prelude.{
  ℕ, ◌+◌, ◌≤◌, ◌<◌, ◌≡◌, refl, sym, ap, ◌∙◌, inl, inr, Bool, true, false, not, ◌||◌, some, List, [],
  ◌∷◌, map, arith, leb, ◌==◌, Bool-cases, Option-cases, length, take, length-append, length-take,
  count, All-append, All-update_first, length-map,
}
use guage.Runtime.Exit.{
  shutdown, Actor, SupervisorStrategy, ChildRestartType, permanent, Child, Supervisor,
  spec_retained, spec_released, World, max_supervisors, max_sup_children, is_supervisor, is_child,
  emit, actor_lookup, supervisor_lookup, has_child, with_actor, with_supervisor, dead_with,
  retained,
}
use guage.Runtime.Exit.Children.{
  child_at, supervisor_spawn_child, dynsup_remove_child_at, child_index, unborn, supervisor_create,
  with_child, drop_last, dynsup_start_child, dynsup_terminate_child, kill_quietly,
}
use mathlib.Core.Path.{subst}
use guage.Runtime.Exit.Sound.{IsSound, IsSmall, emit-Does, some_inj}
use guage.Runtime.Exit.Restarts.{spawn_child-Adds, with_supervisor-Does}
use guage.Runtime.Exit.Changes.{count_dead}

or_false : (a : Bool) {b : Bool} → (a || b) ≡ false → b ≡ false
or_false true h = absurd cc
or_false false h = h

module _ {ℓ} {C : Type ℓ} where
  length-children :
      (specs : List C)
      → length (map (unborn permanent) (take max_sup_children specs)) ≤ max_sup_children
  length-children specs =
      let m = length-map (take max_sup_children specs) (unborn permanent) in
      let t = length-take max_sup_children specs in omega (arith, m, t)

  dropped : (n : ℕ) (k : Supervisor C) → IsSmall k → IsSmall (drop_last n k)
  dropped n k x = (let t = length-take n k.children in omega (arith, t, x.0), x.1)

  child_index-some :
      (id : ℕ) (cs : List (Child C)) (i : ℕ)
      → has_child id cs ≡ true
      → (j : ℕ) × (child_index id cs i ≡ some j)
  child_index-some id [] i h = absurd cc
  child_index-some id (c ∷ cs) i h = elim (Bool-cases (is_child id c)) [
    | inl e ↦ (i, rw e refl)
    | inr e ↦ rw e (child_index-some id cs (i + 1) (rw e at h))
  ]

  -- A new supervisor has at most 32 children, none restarted.
  pub supervisor_create-IsSound :
      (w : World C) (strategy : SupervisorStrategy) (specs : List C) (dynamic : Bool) (id : ℕ)
      (w' : World C)
      → IsSound w
      → supervisor_create w strategy specs dynamic ≡ some (id, w')
      → IsSound w'
  unfolding supervisor_create
  supervisor_create-IsSound w strategy specs dynamic id w' s h =
      elim (Bool-cases (leb max_supervisors (length w.supervisors))) [
        | inl e ↦ absurd (let z = rw e at h in cc)
        | inr e ↦
            let z = some_inj (rw e at h) in
            subst IsSound (ap (λ p. p.1) z) (record {
              room = s.room;
              small =
                  All-append IsSmall w.supervisors _ s.small
                    ((length-children specs, omega arith), tt);
              counted = s.counted;
            })
      ]

  start_small :
      (behavior : C) (type : ChildRestartType) (w : World C) (s : Supervisor C)
      → IsSound w
      → length s.children < max_sup_children
      → supervisor_lookup w s.id ≡ some s
      → IsSound (
          with_supervisor
            (emit w (spec_retained behavior))
            s.id
            (with_child (unborn type behavior)))
  start_small behavior type w s v l h = record {
    room = v.room;
    small =
        All-update_first IsSmall (is_supervisor s.id) (with_child (unborn type behavior))
          w.supervisors
          (λ x e k.
            let same : x ≡ s = some_inj (sym e ∙ h) in
            let n = length-append s.children (unborn type behavior ∷ []) in
            rw same (omega (arith, n), rw same at k.1))
          v.small;
    counted = v.counted;
  }

  -- prim_dynsup_start_child on a supervisor of a sound world leaves a sound world, whether it is
  -- refused, fails to spawn or adds the child.
  pub start_child-IsSound :
      (w : World C) (s : Supervisor C) (behavior : C) (type : ChildRestartType)
      → IsSound w
      → supervisor_lookup w s.id ≡ some s
      → IsSound (dynsup_start_child w s behavior type).1
  unfolding dynsup_start_child
  start_child-IsSound w s behavior type v h =
      elim (Bool-cases (not s.is_dynamic || leb max_sup_children (length s.children))) [
        | inl e ↦ rw (dynsup_start_child, e) v
        | inr e ↦
            let u =
              with_supervisor (emit w (spec_retained behavior)) s.id
                (with_child (unborn type behavior)) in
            let room : leb max_sup_children (length s.children) ≡ false =
              or_false (not s.is_dynamic) e in
            let below : length s.children < max_sup_children = ground arith in
            let a =
              spawn_child-Adds u s.id (length s.children)
                (start_small behavior type w s v below h) in
            let t = supervisor_spawn_child u s.id (length s.children) in
            elim (Bool-cases (t.0 == 0)) [
              | inl z ↦
                  let x = emit-Does (spec_released behavior) a.sound in
                  let y =
                    with_supervisor-Does (emit t.1 (spec_released behavior)) s.id
                      (drop_last (length s.children)) x.sound (λ k. refl)
                      (dropped (length s.children)) in
                  rw (dynsup_start_child, e, z) y.sound
              | inr z ↦ rw (dynsup_start_child, e, z) a.sound
            ]
      ]

  kill_quietly_lem :
      (w : World C) (id : ℕ) (a : Actor C)
      → actor_lookup w id ≡ some a
      → a.alive ≡ true
      → kill_quietly w id ≡ emit (with_actor w id (dead_with shutdown)) (retained shutdown)
  unfolding kill_quietly
  kill_quietly_lem w id a h l = rw (kill_quietly, h, l) refl

  remove-same :
      (w : World C) (sup index : ℕ)
      → ((dynsup_remove_child_at w sup index).actors ≡ w.actors)
        × ((dynsup_remove_child_at w sup index).alive_actors ≡ w.alive_actors)
  unfolding dynsup_remove_child_at
  remove-same w sup index = elim (Option-cases (child_at w sup index)) [
    | inl e ↦ rw (dynsup_remove_child_at, e) (refl, refl)
    | inr (c, e) ↦ rw (dynsup_remove_child_at, e) (refl, refl)
  ]

  -- When prim_dynsup_terminate_child ends a living child of a dynamic supervisor of a sound world,
  -- the counter of the living stays as it was, and is one more than the number of the living.
  pub terminate_child_uncounted :
      (w : World C) (s : Supervisor C) (id : ℕ) (a : Actor C)
      → IsSound w
      → s.is_dynamic ≡ true
      → has_child id s.children ≡ true
      → actor_lookup w id ≡ some a
      → a.alive ≡ true
      → ((dynsup_terminate_child w s id).1.alive_actors
          ≡ count Actor.alive (dynsup_terminate_child w s id).1.actors + 1)
        × ((dynsup_terminate_child w s id).1.alive_actors ≡ w.alive_actors)
  unfolding dynsup_terminate_child
  terminate_child_uncounted w s id a v d c h l =
      let (i, f) = child_index-some id s.children 0 c in
      let n = count_dead id shutdown w.actors a h l in
      let q = kill_quietly_lem w id a h l in
      let r = remove-same (kill_quietly w id) s.id i in
      rw (dynsup_terminate_child, d, f, r.0, r.1, q) (omega (arith, n, v.counted), refl)
