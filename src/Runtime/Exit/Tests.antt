-- ===== src/Runtime/Exit/Tests.antt =====
-- Runs on a small world: actor 1 has failed; 2 and 3 are linked to it, 3 traps exits and watches it.
use guage.Prelude.{ℕ, ◌+◌, ◌≡◌, refl, true, false, Option, none, some, List, [], ◌∷◌, arith, count}
use guage.Runtime.Exit.{
  null, failed, cell, shutdown, Actor, one_for_one, one_for_all, permanent, transient, temporary,
  Supervisor, Event, exit_sent, down_sent, tables_destroyed, name_removed, transferred_shared,
  spawned, World, alive_dec_and_notify, mark_dead, bind,
}
use guage.Runtime.Exit.Children.{
  actor_create, supervisor_spawn_child, respawn, dynsup_start_child, dynsup_terminate_child,
}
use guage.Runtime.Exit.Notify.{
  notify_monitors, actor_exit_signal, shut_down, kill_children, supervisor_handle_exit, supervise,
  notify_links, tell, notify_body, actor_notify_exit, actor_finish,
}
use guage.Runtime.Exit.Grows.{Closed, Told, LinkTold, MonitorTold}
use guage.Runtime.Exit.Sound.{IsSound}
use guage.Runtime.Exit.Laws.{Returns, notify_exit-tells, exit_signal-told, actor_finish-tells}
use guage.Runtime.Exit.Respawn.{IsRespawned, respawn-IsRespawned}
use guage.Runtime.Exit.Watch.{
  prim_actor_monitor, prim_actor_link, both_linked, actor_finish-monitor, actor_finish-link,
}
use guage.Runtime.Exit.Dynamic.{start_child-IsSound, terminate_child_uncounted}

abbrev failed_actor : Actor ℕ
failed_actor = record {
  id = 1;
  alive = false;
  trap_exit = false;
  links = 2 ∷ 3 ∷ [];
  monitors = 3 ∷ [];
  result = failed 9;
  awaits = none;
  wait_flag = false;
}

abbrev linked_actor : Actor ℕ
linked_actor = record {
  id = 2;
  alive = true;
  trap_exit = false;
  links = 1 ∷ [];
  monitors = [];
  result = null;
  awaits = none;
  wait_flag = false;
}

abbrev watcher : Actor ℕ
watcher = record {
  id = 3;
  alive = true;
  trap_exit = true;
  links = 1 ∷ [];
  monitors = [];
  result = null;
  awaits = some 2;
  wait_flag = true;
}

abbrev boss : Supervisor ℕ
boss = record {
  id = 1;
  strategy = one_for_all;
  children =
      record { spec = 40; child_id = 1; child_restart = permanent }
      ∷ record { spec = 41; child_id = 2; child_restart = permanent }
      ∷ [];
  restart_count = 4;
  is_dynamic = false;
}

abbrev pool : Supervisor ℕ
pool = record {
  id = 2;
  strategy = one_for_one;
  children = record { spec = 42; child_id = 3; child_restart = transient } ∷ [];
  restart_count = 0;
  is_dynamic = true;
}

abbrev start : World ℕ
start = record {
  actors = failed_actor ∷ linked_actor ∷ watcher ∷ [];
  next_actor_id = 4;
  alive_actors = 2;
  supervisors = boss ∷ pool ∷ [];
  next_supervisor_id = 3;
  events = [];
}

start-IsSound : IsSound start
start-IsSound = record {
  room = omega arith;
  small = ((omega arith, omega arith), ((omega arith, omega arith), tt));
  counted = refl;
}

abbrev events_of : Option (World ℕ) → List (Event ℕ)
events_of none = []
events_of (some w) = w.events

-- Actor 2 is shut down with its supervisor's children, both are created again, and 3 has the end of
-- 1 twice: as a watcher and by its link.
restarted :
    events_of (actor_notify_exit 300 start 1 (failed 9))
    ≡ tables_destroyed 1
      ∷ name_removed 1
      ∷ transferred_shared shutdown
      ∷ tables_destroyed 2
      ∷ name_removed 2
      ∷ spawned 4 40
      ∷ spawned 5 41
      ∷ down_sent 3 1 (failed 9)
      ∷ exit_sent 3 1 (failed 9)
      ∷ []
unfolding actor_notify_exit notify_body supervise supervisor_handle_exit kill_children shut_down
    mark_dead alive_dec_and_notify respawn supervisor_spawn_child actor_create tell notify_monitors
    notify_links actor_exit_signal
restarted = refl

notify_exit-tells_example :
    Returns
      (actor_notify_exit 300 start 1 (failed 9))
      (λ w'. IsSound w' × (Told start w' 1 (failed 9) (2 ∷ 3 ∷ []) (3 ∷ []) × Closed start w'))
notify_exit-tells_example =
    notify_exit-tells 300 start 1 (failed 9) failed_actor start-IsSound refl refl (omega arith)

exit_signal-told_example :
    Returns
      (actor_exit_signal (actor_notify_exit 300) start 2 1 (failed 9))
      (λ w'. IsSound w' × (LinkTold start w' 1 (failed 9) 2 × Closed start w'))
exit_signal-told_example = exit_signal-told 300 start 2 1 (failed 9) start-IsSound (omega arith)

actor_finish-tells_example :
    Returns
      (actor_finish 300 start 2 (cell 7))
      (λ p. (p.0 ≡ true) × (IsSound p.1 × Told start p.1 2 (cell 7) (1 ∷ []) []))
actor_finish-tells_example =
    actor_finish-tells 300 start 2 (cell 7) linked_actor start-IsSound refl refl (omega arith)

start_child-IsSound_example : IsSound (dynsup_start_child start pool 50 temporary).1
start_child-IsSound_example = start_child-IsSound start pool 50 temporary start-IsSound refl

terminate_child_uncounted_example :
    ((dynsup_terminate_child start pool 3).1.alive_actors
      ≡ count Actor.alive (dynsup_terminate_child start pool 3).1.actors + 1)
    × ((dynsup_terminate_child start pool 3).1.alive_actors ≡ 2)
terminate_child_uncounted_example =
    terminate_child_uncounted start pool 3 watcher start-IsSound refl refl refl refl

respawn-IsRespawned_example : IsRespawned boss (respawn start 1 32 0) 1 4 0
respawn-IsRespawned_example = respawn-IsRespawned start 1 0 boss refl (omega arith) (omega arith)

actor_finish-monitor_example :
    Returns
      (actor_finish 300 (prim_actor_monitor start 2 3) 2 (failed 9))
      (λ p. (p.0 ≡ true) × MonitorTold (prim_actor_monitor start 2 3) p.1 2 (failed 9) 3)
actor_finish-monitor_example =
    actor_finish-monitor 300 start 2 3 (failed 9) linked_actor start-IsSound refl refl (omega arith)
      (omega arith)

actor_finish-link_example :
    Returns
      (bind (prim_actor_link 300 start 3 2) (λ v. actor_finish 300 v 2 (failed 9)))
      (λ p. LinkTold (both_linked start 3 2) p.1 2 (failed 9) 3)
actor_finish-link_example =
    actor_finish-link 300 start 3 2 (failed 9) linked_actor start-IsSound refl refl refl
      (omega arith) (λ q. let z : ⊥ = omega (arith, q) in z) refl (omega arith)
