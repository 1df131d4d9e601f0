-- ===== src/Runtime/Exit/Notify.antt =====
-- The end of an actor told to its supervisor, its monitors and its links (bootstrap/actor.c:
-- `actor_exit_signal`, `actor_finish`, `actor_notify_exit`, `supervisor_handle_exit`).
use guage.Prelude.{
  ℕ, zero, suc, ◌+◌, Bool, true, false, not, ◌&&◌, Option, none, some, List, [], ◌∷◌, ◌++◌, leb,
  ◌==◌, if◌then◌else◌,
}
use guage.Runtime.Exit.{
  Reason, normal, shutdown, is_error, Actor, SupervisorStrategy, one_for_one, one_for_all,
  rest_for_one, Supervisor, Event, exit_sent, down_sent, tables_destroyed, name_removed,
  retained_shared, transferred_shared, enqueued, World, max_sup_children, sup_max_restarts,
  is_temporary, is_permanent, bind, emit, actor_lookup, supervisor_lookup,
  supervisor_find_for_child, with_actor, with_supervisor, mark_dead,
}
use guage.Runtime.Exit.Children.{
  child_at, supervisor_spawn_child, dynsup_remove_child_at, child_index, restart_type, bump,
  respawn,
}

module _ {ℓ} {C : Type ℓ} where
  -- A child of a dynamic supervisor has ended with no error.
  abbrev pub drop_finished : World C → Supervisor C → ℕ → World C
  drop_finished w s id = elim (child_index id s.children 0) [
    | none ↦ w
    | some i ↦
        if is_permanent (restart_type s.children i) then w else dynsup_remove_child_at w s.id i
  ]

  abbrev pub down_reason : Reason C → Reason C
  down_reason reason = if is_error reason then reason else normal

  abbrev pub notify_monitor : World C → ℕ → Reason C → ℕ → World C
  notify_monitor w id reason m = elim (actor_lookup w m) [
    | none ↦ w
    | some x ↦ if x.alive then emit w (down_sent m id (down_reason reason)) else w
  ]

  unfoldable pub notify_monitors : World C → ℕ → Reason C → List ℕ → World C
  notify_monitors w id reason [] = w
  notify_monitors w id reason (m ∷ ms) = notify_monitors (notify_monitor w id reason m) id reason ms

  abbrev pub forget : Actor C → Actor C
  forget a = record a { links = []; monitors = [] }

  -- `again` is `actor_notify_exit` with one round less.
  module _ (again : World C → ℕ → Reason C → Option (World C)) where
    abbrev pub signal : World C → Actor C → ℕ → ℕ → Reason C → Option (World C)
    signal w t target sender reason =
        if not t.alive
        then some w
        else if t.trap_exit
        then some (emit w (exit_sent target sender reason))
        else again (mark_dead w target reason retained_shared) target reason

    unfoldable pub actor_exit_signal : World C → ℕ → ℕ → Reason C → Option (World C)
    actor_exit_signal w target sender reason = elim (actor_lookup w target) [
      | none ↦ some w
      | some t ↦ signal w t target sender reason
    ]

    -- What the strategies do to a child.
    unfoldable pub shut_down : World C → ℕ → Option (World C)
    shut_down w id = elim (actor_lookup w id) [
      | none ↦ some w
      | some a ↦
          if a.alive then again (mark_dead w id shutdown transferred_shared) id shutdown else some w
    ]

    -- The loops that kill, at child `i` and for at most so many children.
    unfoldable pub kill_children : World C → ℕ → ℕ → ℕ → ℕ → Option (World C)
    kill_children w sup dead zero i = some w
    kill_children w sup dead (suc n) i = elim (child_at w sup i) [
      | none ↦ some w
      | some c ↦
          bind (if i == dead then some w else shut_down w c.child_id)
            (λ w'. kill_children w' sup dead n (i + 1))
    ]

    abbrev pub restart : World C → ℕ → SupervisorStrategy → ℕ → Option (World C)
    restart w sup one_for_one dead = some (supervisor_spawn_child w sup dead).1
    restart w sup one_for_all dead =
        bind (kill_children w sup dead max_sup_children 0)
          (λ w'. some (respawn w' sup max_sup_children 0))
    restart w sup rest_for_one dead =
        bind (kill_children w sup dead max_sup_children (dead + 1))
          (λ w'. some (respawn w' sup max_sup_children dead))

    abbrev pub handle : World C → Supervisor C → ℕ → Option (World C)
    handle w s dead_id =
        if leb sup_max_restarts s.restart_count
        then some w
        else elim (child_index dead_id s.children 0) [
          | none ↦ some w
          | some i ↦
              if s.is_dynamic && is_temporary (restart_type s.children i)
              then some (dynsup_remove_child_at w s.id i)
              else restart (with_supervisor w s.id bump) s.id s.strategy i
        ]

    unfoldable pub supervisor_handle_exit : World C → ℕ → ℕ → Option (World C)
    supervisor_handle_exit w sup dead_id = elim (supervisor_lookup w sup) [
      | none ↦ some w
      | some s ↦ handle w s dead_id
    ]

    unfoldable pub supervise : World C → ℕ → Reason C → Option (World C)
    supervise w id reason = elim (supervisor_find_for_child w id) [
      | none ↦ some w
      | some s ↦
          if is_error reason
          then supervisor_handle_exit w s.id id
          else some (if s.is_dynamic then drop_finished w s id else w)
    ]

    abbrev pub notify_link : World C → ℕ → Reason C → ℕ → Option (World C)
    notify_link w id reason l = elim (actor_lookup w l) [
      | none ↦ some w
      | some x ↦
          if not x.alive
          then some w
          else if is_error reason
          then actor_exit_signal w l id reason
          else some (if x.trap_exit then emit w (exit_sent l id normal) else w)
    ]

    unfoldable pub notify_links : World C → ℕ → Reason C → List ℕ → Option (World C)
    notify_links w id reason [] = some w
    notify_links w id reason (l ∷ ls) =
        bind (notify_link w id reason l) (λ w'. notify_links w' id reason ls)

    -- Behind the supervisor: monitors and links are copied and cleared, then told.
    unfoldable pub tell : World C → ℕ → Reason C → Option (World C)
    tell w id reason = elim (actor_lookup w id) [
      | none ↦ some w
      | some a ↦
          notify_links (notify_monitors (with_actor w id forget) id reason a.monitors) id reason
            a.links
    ]

    unfoldable pub notify_body : World C → ℕ → Reason C → Option (World C)
    notify_body w id reason = elim (actor_lookup w id) [
      | none ↦ some w
      | some x ↦
          bind (supervise (emit (emit w (tables_destroyed id)) (name_removed id)) id reason)
            (λ w'. tell w' id reason)
    ]

  -- By rounds: each call within a call kills an actor first.
  unfoldable pub actor_notify_exit : ℕ → World C → ℕ → Reason C → Option (World C)
  actor_notify_exit zero w id reason = none
  actor_notify_exit (suc n) w id reason = notify_body (actor_notify_exit n) w id reason

  abbrev pub waits_for : ℕ → Actor C → Bool
  waits_for id a = a.alive && elim a.awaits [ none ↦ false | some x ↦ x == id ]

  -- The loop that wakes the actors that wait for `id`.
  abbrev pub wake_waiters : ℕ → List (Actor C) → List (Actor C)
  wake_waiters id [] = []
  wake_waiters id (a ∷ actors) =
      (if waits_for id a then record a { wait_flag = false } else a) ∷ wake_waiters id actors

  abbrev pub woken : ℕ → List (Actor C) → List (Event C)
  woken id [] = []
  woken id (a ∷ actors) =
      (if waits_for id a && a.wait_flag then enqueued a.id ∷ [] else []) ++ woken id actors

  unfoldable pub actor_finish : ℕ → World C → ℕ → Reason C → Option (Bool × World C)
  actor_finish n w id result = elim (actor_lookup w id) [
    | none ↦ some (false, w)
    | some a ↦
        if not a.alive
        then some (false, w)
        else bind (actor_notify_exit n (mark_dead w id result transferred_shared) id result) (λ w'.
          some (
            true,
            record w' {
              actors = wake_waiters id w'.actors;
              events = w'.events ++ woken id w'.actors;
            },
          ))
  ]
