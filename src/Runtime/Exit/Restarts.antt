-- ===== src/Runtime/Exit/Restarts.antt =====
-- The steps that change supervisors and create actors (bootstrap/actor.c: the count of restarts,
-- `dynsup_remove_child_at`, `supervisor_spawn_child` and the loops that respawn).
use guage.Prelude.{
  ℕ, zero, suc, ◌+◌, ◌%◌, ◌≤◌, ◌<◌, ◌≡◌, refl, sym, ap, ◌∙◌, inl, inr, Bool, some, List, [], ◌∷◌,
  ◌++◌, arith, leb, Bool-cases, Option-cases, length, get_elem?, length-append, length-set, find,
  update_first, count-append, find-append, All-update_first,
}
use guage.Runtime.Exit.{
  Actor, Supervisor, spawned, spec_released, World, max_actors, sup_max_restarts, i32, has_id,
  is_supervisor, emit, supervisor_lookup, with_supervisor,
}
use guage.Runtime.Exit.Children.{
  remove_at, new_actor, actor_create, set_child_id, child_at, supervisor_spawn_child, without_child,
  dynsup_remove_child_at, bump, respawn,
}
use mathlib.Core.List.{mem-append_left}
use guage.Runtime.Exit.Grows.{Grows, Later-refl, Grows-trans, Grows-same, not_both, Spares}
use mathlib.Core.Path.{subst}
use guage.Runtime.Exit.Changes.{count_le}
use guage.Runtime.Exit.Sound.{
  IsSound, IsSmall, measure, budget, Does, Does-refl, Does-trans, emit-Does, some_inj, Spares-trans,
}

length-remove_at {ℓ} : {A : Type ℓ} (n : ℕ) (xs : List A) → length (remove_at n xs) ≤ length xs
length-remove_at n [] = omega arith
length-remove_at zero (x ∷ xs) = omega arith
length-remove_at (suc n) (x ∷ xs) = omega (arith, length-remove_at n xs)

module _ {ℓ} {C : Type ℓ} where
  budget_same :
      (id : ℕ) (f : Supervisor C → Supervisor C) (ss : List (Supervisor C))
      → ((s : Supervisor C) → (f s).restart_count ≡ s.restart_count)
      → budget (update_first (is_supervisor id) f ss) ≡ budget ss
  budget_same id f [] h = refl
  budget_same id f (s ∷ ss) h = elim (Bool-cases (is_supervisor id s)) [
    | inl e ↦ rw (e, h s) refl
    | inr e ↦ rw (e, budget_same id f ss h) refl
  ]

  -- A supervisor is changed within its bounds.
  pub with_supervisor-Does :
      (w : World C) (id : ℕ) (f : Supervisor C → Supervisor C)
      → IsSound w
      → ((s : Supervisor C) → (f s).restart_count ≡ s.restart_count)
      → ((s : Supervisor C) → IsSmall s → IsSmall (f s))
      → Does w (with_supervisor w id f)
  with_supervisor-Does w id f s h k = record {
    spares = λ k b g d. (b, g, refl, refl);
    grows = Grows-same refl (λ e m. m);
    sound = record {
      room = s.room;
      small = All-update_first IsSmall (is_supervisor id) f w.supervisors (λ x e. k x) s.small;
      counted = s.counted;
    };
    lowers = rw (budget_same id f w.supervisors h) (omega arith);
  }

  pub dynsup_remove_child_at-Does :
      (w : World C) (sup index : ℕ) → IsSound w → Does w (dynsup_remove_child_at w sup index)
  unfolding dynsup_remove_child_at
  dynsup_remove_child_at-Does w sup index s = elim (Option-cases (child_at w sup index)) [
    | inl e ↦ rw (dynsup_remove_child_at, e) (Does-refl s)
    | inr (c, e) ↦
        let d = emit-Does (spec_released c.spec) s in
        let f =
          with_supervisor-Does (emit w (spec_released c.spec)) sup (without_child index) d.sound
            (λ x. refl)
            (λ x k. (let n = length-remove_at index x.children in omega (arith, n, k.0), k.1)) in
        rw (dynsup_remove_child_at, e) (Does-trans d f)
  ]

  -- A restart is taken from the budget.
  budget-bump :
      (id : ℕ) (ss : List (Supervisor C)) (s : Supervisor C)
      → find (is_supervisor id) ss ≡ some s
      → s.restart_count < sup_max_restarts
      → budget (update_first (is_supervisor id) bump ss) + 1 ≡ budget ss
  budget-bump id [] s h l = absurd cc
  budget-bump id (x ∷ ss) s h l = elim (Bool-cases (is_supervisor id x)) [
    | inl e ↦
        let y : x ≡ s = some_inj (rw e at h) in
        let z : x.restart_count < sup_max_restarts = rw y l in rw e (omega arith)
    | inr e ↦ let i = budget-bump id ss s (rw e at h) l in rw e (omega (arith, i))
  ]

  -- A supervisor counts a restart.
  pub bump-IsSound :
      (w : World C) (s : Supervisor C)
      → IsSound w
      → supervisor_lookup w s.id ≡ some s
      → s.restart_count < sup_max_restarts
      → IsSound (with_supervisor w s.id bump)
  bump-IsSound w s v h l = record {
    room = v.room;
    small =
        All-update_first IsSmall (is_supervisor s.id) bump w.supervisors
          (λ x e k. (k.0, let y : x ≡ s = some_inj (sym e ∙ h) in rw y (omega arith))) v.small;
    counted = v.counted;
  }

  pub bump-measure :
      (w : World C) (s : Supervisor C)
      → supervisor_lookup w s.id ≡ some s
      → s.restart_count < sup_max_restarts
      → measure (with_supervisor w s.id bump) + 33 ≡ measure w
  bump-measure w s h l = let b = budget-bump s.id w.supervisors s h l in omega (arith, b)

  find_append_left :
      (q : Actor C → Bool) (xs ys : List (Actor C)) (a : Actor C)
      → find q xs ≡ some a
      → find q (xs ++ ys) ≡ some a
  find_append_left q xs ys a h = find-append q xs ys ∙ rw h refl

  -- A step that raises the measure by one at most.
  pub record Adds (n : ℕ) (w w' : World C) : Type ℓ where
    pub spares : Spares w w'
    pub grows : Grows w w'
    pub sound : IsSound w'
    pub raises : measure w' ≤ measure w + n

  pub Adds-trans : {n m : ℕ} {w v v' : World C} → Adds n w v → Adds m v v' → Adds (n + m) w v'
  Adds-trans {w = w} {v = v} {v' = v'} p q = record {
    spares = Spares-trans w v v' p.grows p.spares q.spares;
    grows = Grows-trans p.grows q.grows;
    sound = q.sound;
    raises = omega (arith, p.raises, q.raises);
  }

  pub Adds-of_Does : {w w' : World C} (n : ℕ) → Does w w' → Adds n w w'
  Adds-of_Does n d = record {
    spares = d.spares;
    grows = d.grows;
    sound = d.sound;
    raises = omega (arith, d.lowers);
  }

  pub actor_create-Adds :
      (w : World C) (spec : C) (id : ℕ) (w' : World C)
      → IsSound w
      → actor_create w spec ≡ some (id, w')
      → Adds 1 w w'
  unfolding actor_create
  actor_create-Adds w spec id w' s h = elim (Bool-cases (leb max_actors (length w.actors))) [
    | inl e ↦ absurd (let z = rw e at h in cc)
    | inr e ↦
        let z = some_inj (rw e at h) in subst (Adds 1 w) (ap (λ p. p.1) z) (added (ground arith))
  ]
    where
      added :
          length w.actors < max_actors
          → Adds 1 w (record w {
            actors = w.actors ++ (new_actor w.next_actor_id ∷ []);
            next_actor_id = w.next_actor_id + 1;
            alive_actors = (w.alive_actors + 1) % i32;
            events = w.events ++ (spawned w.next_actor_id spec ∷ []);
          })
      added l =
          let x = new_actor w.next_actor_id in
          let c = count-append Actor.alive w.actors (x ∷ []) in
          let n = length-append w.actors (x ∷ []) in
          let few = count_le w.actors in
          record {
            spares = λ k a g d. (a, find_append_left (has_id k) w.actors (x ∷ []) a g, refl, refl);
            grows = record {
              keeps = λ k a g. (a, find_append_left (has_id k) w.actors (x ∷ []) a g, Later-refl a);
              logs = λ e m. mem-append_left (spawned w.next_actor_id spec ∷ []) m;
              closed = λ k a b g l f d.
                  absurd (not_both (find_append_left (has_id k) w.actors (x ∷ []) a g) f l d);
            };
            sound = record {
              room = omega (arith, n);
              small = s.small;
              counted = omega (arith, c, s.counted, few, s.room);
            };
            raises = omega (arith, c);
          }

  set_child_id-IsSmall :
      (index id : ℕ) (s : Supervisor C) → IsSmall s → IsSmall (set_child_id index id s)
  set_child_id-IsSmall index id s k = elim (Option-cases (get_elem? s.children index)) [
    | inl e ↦ rw (set_child_id, e) k
    | inr (c, e) ↦
        let n = length-set s.children index (record c { child_id = id }) in
        rw (set_child_id, e) (omega (arith, n, k.0), k.1)
  ]

  set_child_id-count :
      (index id : ℕ) (s : Supervisor C) → (set_child_id index id s).restart_count ≡ s.restart_count
  set_child_id-count index id s = elim (Option-cases (get_elem? s.children index)) [
    | inl e ↦ rw (set_child_id, e) refl
    | inr (c, e) ↦ rw (set_child_id, e) refl
  ]

  pub spawn_child-Adds :
      (w : World C) (sup index : ℕ) → IsSound w → Adds 1 w (supervisor_spawn_child w sup index).1
  unfolding supervisor_spawn_child
  spawn_child-Adds w sup index s = elim (Option-cases (child_at w sup index)) [
    | inl e ↦ rw (supervisor_spawn_child, e) (Adds-of_Does 1 (Does-refl s))
    | inr (c, e) ↦ elim (Option-cases (actor_create w c.spec)) [
      | inl n ↦ rw (supervisor_spawn_child, e, n) (Adds-of_Does 1 (Does-refl s))
      | inr ((id, w'), n) ↦
          let a = actor_create-Adds w c.spec id w' s n in
          let d =
            with_supervisor-Does w' sup (set_child_id index id) a.sound
              (set_child_id-count index id) (set_child_id-IsSmall index id) in
          rw (supervisor_spawn_child, e, n) (Adds-trans {n = 1} {m = 0} a (Adds-of_Does 0 d))
    ]
  ]

  pub respawn-Adds : (w : World C) (sup n i : ℕ) → IsSound w → Adds n w (respawn w sup n i)
  unfolding respawn
  respawn-Adds w sup zero i s = Adds-of_Does 0 (Does-refl s)
  respawn-Adds w sup (suc n) i s = elim (Option-cases (child_at w sup i)) [
    | inl e ↦ rw (respawn, e) (Adds-of_Does (suc n) (Does-refl s))
    | inr (c, e) ↦
        let a = spawn_child-Adds w sup i s in
        let r = respawn-Adds (supervisor_spawn_child w sup i).1 sup n (i + 1) a.sound in
        rw (respawn, e)
          (record {
            spares =
                Spares-trans w (supervisor_spawn_child w sup i).1
                  (respawn (supervisor_spawn_child w sup i).1 sup n (i + 1)) a.grows a.spares
                  r.spares;
            grows = Grows-trans a.grows r.grows;
            sound = r.sound;
            raises = omega (arith, a.raises, r.raises);
          })
  ]
