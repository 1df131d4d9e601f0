-- ===== src/Runtime/Exit/Supervision.antt =====
-- What a supervisor does about the end of a child (bootstrap/actor.c: `supervisor_handle_exit`).
use guage.Prelude.{
  ℕ, ◌+◌, ◌≤◌, ◌<◌, ◌≡◌, refl, ap, ◌∙◌, inl, inr, ◌&&◌, Option, some, arith, leb, ==_iff,
  Bool-cases, Option-cases, find, find-holds,
}
use guage.Runtime.Exit.{
  Reason, is_error, SupervisorStrategy, one_for_one, one_for_all, rest_for_one, Supervisor, World,
  max_sup_children, sup_max_restarts, is_temporary, is_permanent, bind, is_supervisor,
  supervisor_lookup, supervisor_find_for_child, with_supervisor,
}
use guage.Runtime.Exit.Children.{
  supervisor_spawn_child, dynsup_remove_child_at, child_index, restart_type, bump, respawn,
}
use guage.Runtime.Exit.Notify.{
  drop_finished, kill_children, restart, handle, supervisor_handle_exit, supervise,
}
use guage.Runtime.Exit.Grows.{Grows-trans, Grows-same}
use guage.Runtime.Exit.Sound.{IsSound, measure, Does, Does-refl}
use guage.Runtime.Exit.Restarts.{
  Adds, Adds-trans, Adds-of_Does, spawn_child-Adds, respawn-Adds, bump-IsSound, bump-measure,
  dynsup_remove_child_at-Does,
}
use guage.Runtime.Exit.Loops.{Promise, Ends, kill_children-Ends}

module _ {ℓ} {C : Type ℓ} where
  drop_finished-Does :
      (w : World C) (s : Supervisor C) (id : ℕ) → IsSound w → Does w (drop_finished w s id)
  drop_finished-Does w s id v = elim (Option-cases (child_index id s.children 0)) [
    | inl e ↦ rw (drop_finished, e) (Does-refl v)
    | inr (i, e) ↦ elim (Bool-cases (is_permanent (restart_type s.children i))) [
      | inl p ↦ rw (drop_finished, e, p) (Does-refl v)
      | inr p ↦ rw (drop_finished, e, p) (dynsup_remove_child_at-Does w s.id i v)
    ]
  ]

  -- A counted restart pays for the children that are created.
  paid :
      (w v : World C) (s : Supervisor C)
      → IsSound w
      → supervisor_lookup w s.id ≡ some s
      → s.restart_count < sup_max_restarts
      → Adds 32 (with_supervisor w s.id bump) v
      → Does w v
  paid w v s k h l a = record {
    spares = a.spares;
    grows = Grows-trans (Grows-same refl (λ e m. m)) a.grows;
    sound = a.sound;
    lowers = let m = bump-measure w s h l in omega (arith, m, a.raises);
  }

  module _ {n : ℕ} {again : World C → ℕ → Reason C → Option (World C)}
      (promise : Promise n again) where
    -- Children from `j` on are killed, those from `k` on are created again.
    kill_respawn-Ends :
        (w : World C) (s : Supervisor C) (i j k : ℕ)
        → IsSound w
        → supervisor_lookup w s.id ≡ some s
        → s.restart_count < sup_max_restarts
        → measure w ≤ n
        → Ends w (
            bind
              (kill_children again (with_supervisor w s.id bump) s.id i max_sup_children j)
              (λ w'. some (respawn w' s.id max_sup_children k)))
    kill_respawn-Ends w s i j k v h l m =
        let u = with_supervisor w s.id bump in
        let b = bump-measure w s h l in
        let (x, f, d) =
          kill_children-Ends promise u s.id i max_sup_children j (bump-IsSound w s v h l)
            (omega (arith, b)) in
        let a = respawn-Adds x s.id max_sup_children k d.sound in
        (
          respawn x s.id max_sup_children k,
          rw f refl,
          paid w (respawn x s.id max_sup_children k) s v h l
              (Adds-trans {n = 0} {m = 32} (Adds-of_Does 0 d) a),
        )

    restart-Ends :
        (w : World C) (s : Supervisor C) (strategy : SupervisorStrategy) (i : ℕ)
        → IsSound w
        → supervisor_lookup w s.id ≡ some s
        → s.restart_count < sup_max_restarts
        → measure w ≤ n
        → Ends w (restart again (with_supervisor w s.id bump) s.id strategy i)
    restart-Ends w s one_for_one i v h l m =
        let u = with_supervisor w s.id bump in
        let a = spawn_child-Adds u s.id i (bump-IsSound w s v h l) in
        (
          (supervisor_spawn_child u s.id i).1,
          refl,
          paid w (supervisor_spawn_child u s.id i).1 s v h l (record {
            spares = a.spares;
            grows = a.grows;
            sound = a.sound;
            raises = omega (arith, a.raises);
          }),
        )
    restart-Ends w s one_for_all i v h l m = kill_respawn-Ends w s i 0 0 v h l m
    restart-Ends w s rest_for_one i v h l m = kill_respawn-Ends w s i (i + 1) i v h l m

    handle-Ends :
        (w : World C) (s : Supervisor C) (id : ℕ)
        → IsSound w
        → supervisor_lookup w s.id ≡ some s
        → measure w ≤ n
        → Ends w (handle again w s id)
    handle-Ends w s id v h m = elim (Bool-cases (leb sup_max_restarts s.restart_count)) [
      | inl e ↦ (w, rw (handle, e) refl, Does-refl v)
      | inr e ↦ elim (Option-cases (child_index id s.children 0)) [
        | inl f ↦ (w, rw (handle, e, f) refl, Does-refl v)
        | inr (i, f) ↦
            elim (Bool-cases (s.is_dynamic && is_temporary (restart_type s.children i))) [
              | inl g ↦ (
                dynsup_remove_child_at w s.id i,
                rw (handle, e, f, g) refl,
                dynsup_remove_child_at-Does w s.id i v,
              )
              | inr g ↦
                  let (w', k, d) = restart-Ends w s s.strategy i v h (ground arith) m in
                  (w', rw (handle, e, f, g) k, d)
            ]
      ]
    ]

    supervisor_handle_exit-Ends :
        (w : World C) (sup id : ℕ)
        → IsSound w
        → measure w ≤ n
        → Ends w (supervisor_handle_exit again w sup id)
    unfolding supervisor_handle_exit
    supervisor_handle_exit-Ends w sup id v m = elim (Option-cases (supervisor_lookup w sup)) [
      | inl e ↦ (w, rw (supervisor_handle_exit, e) refl, Does-refl v)
      | inr (s, e) ↦
          let same : s.id ≡ sup =
            (==_iff s.id sup).0 (find-holds (is_supervisor sup) w.supervisors s e) in
          let (w', f, d) =
            handle-Ends w s id v (ap (λ k. find (is_supervisor k) w.supervisors) same ∙ e) m in
          (w', rw (supervisor_handle_exit, e) f, d)
    ]

    pub supervise-Ends :
        (w : World C) (id : ℕ) (r : Reason C)
        → IsSound w
        → measure w ≤ n
        → Ends w (supervise again w id r)
    unfolding supervise
    supervise-Ends w id r v m = elim (Option-cases (supervisor_find_for_child w id)) [
      | inl e ↦ (w, rw (supervise, e) refl, Does-refl v)
      | inr (s, e) ↦ elim (Bool-cases (is_error r)) [
        | inl f ↦
            let (w', g, d) = supervisor_handle_exit-Ends w s.id id v m in
            (w', rw (supervise, e, f) g, d)
        | inr f ↦ elim (Bool-cases s.is_dynamic) [
          | inl g ↦
              (drop_finished w s id, rw (supervise, e, f, g) refl, drop_finished-Does w s id v)
          | inr g ↦ (w, rw (supervise, e, f, g) refl, Does-refl v)
        ]
      ]
    ]
