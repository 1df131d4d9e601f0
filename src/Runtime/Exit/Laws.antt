-- ===== src/Runtime/Exit/Laws.antt =====
-- What the ends of actors do (bootstrap/actor.c: `actor_notify_exit`, `actor_exit_signal`,
-- `actor_finish`).
use guage.Prelude.{
  ℕ, suc, ◌≤◌, ◌<◌, ◌≡◌, refl, ap, ◌⊎◌, inl, inr, true, false, Option, some, List, [], ◌∷◌, ◌++◌,
  arith, Bool-cases, length, find, count,
}
use guage.Runtime.Exit.{
  Reason, Actor, transferred_shared, World, has_id, actor_lookup, dead_with, mark_dead,
}
use guage.Runtime.Exit.Notify.{
  actor_exit_signal, actor_notify_exit, waits_for, wake_waiters, woken, actor_finish,
}
use mathlib.Core.List.{mem-append_left}
use guage.Runtime.Exit.Grows.{
  Closed, Told, LinkTold, Told-up, Told-down, Later-refl, Later-trans, not_both,
}
use guage.Runtime.Exit.Changes.{
  mark_dead-lookup, mark_dead-IsSound, mark_dead-Keeps, mark_dead-measure,
}
use guage.Runtime.Exit.Sound.{IsSound, measure, Does, some_inj}
use guage.Runtime.Exit.Loops.{signal-Ends}
use guage.Runtime.Exit.Spread.{notify_exit-Promise}

-- A call that returns, with a result that satisfies `P`.
pub record Returns {ℓ} {A : Type ℓ} (o : Option A) (P : A → Type ℓ) : Type ℓ where
  pub result : A
  pub returns : o ≡ some result
  pub holds : P result

module _ {ℓ} {C : Type ℓ} where
  -- In a sound world, for an actor just marked dead, actor_notify_exit with more rounds than the
  -- measure (the living, and 33 for each restart left) ends, through all kills, restarts and
  -- signals that it sets off, in a sound world: arrays within their bounds, at most five restarts,
  -- and a counter that is the number of the living. There each watcher that existed is dead or has
  -- been sent :DOWN with the reason (:normal unless it is an error); after an error each linked
  -- actor that existed is dead, or traps exits and has been sent :EXIT; and the same holds for
  -- each actor that died on the way, with its own links, monitors and result.
  pub notify_exit-tells :
      (n : ℕ) (w : World C) (id : ℕ) (r : Reason C) (a : Actor C)
      → IsSound w
      → actor_lookup w id ≡ some a
      → a.alive ≡ false
      → measure w < n
      → Returns
          (actor_notify_exit n w id r)
          (λ w'. IsSound w' × (Told w w' id r a.links a.monitors × Closed w w'))
  notify_exit-tells n w id r a s h x m =
      let (w', e, d, o, t) = notify_exit-Promise n w id r a s h x m in
      record { result = w'; returns = e; holds = (d.sound, (t, d.grows.closed)) }

  -- In a sound world actor_exit_signal, with at least as many rounds as the measure, ends in a
  -- sound world, in which the target is dead, or traps exits and has been sent :EXIT with the
  -- sender and the reason, unless it did not exist; and the links and monitors of each actor that
  -- died on the way have been told in the same sense.
  pub exit_signal-told :
      (n : ℕ) (w : World C) (target sender : ℕ) (r : Reason C)
      → IsSound w
      → measure w ≤ n
      → Returns
          (actor_exit_signal (actor_notify_exit n) w target sender r)
          (λ w'. IsSound w' × (LinkTold w w' sender r target × Closed w w'))
  exit_signal-told n w target sender r s m =
      let (w', e, d, t) = signal-Ends (notify_exit-Promise n) w target sender r s m in
      record { result = w'; returns = e; holds = (d.sound, (t, d.grows.closed)) }

  abbrev calm : Actor C → Actor C
  calm a = record a { wait_flag = false }

  find-wake :
      (id k : ℕ) (xs : List (Actor C)) (a : Actor C)
      → find (has_id k) xs ≡ some a
      → (find (has_id k) (wake_waiters id xs) ≡ some a)
        ⊎ (find (has_id k) (wake_waiters id xs) ≡ some (record a { wait_flag = false }))
  find-wake id k [] a h = absurd cc
  find-wake id k (x ∷ xs) a h = elim (Bool-cases (waits_for id x)) [
    | inl e ↦ elim (Bool-cases (has_id k x)) [
      | inl f ↦ inr (rw (e, f) (ap (λ y. some (calm y)) (some_inj (rw f at h))))
      | inr f ↦ rw (e, f) (find-wake id k xs a (rw f at h))
    ]
    | inr e ↦ elim (Bool-cases (has_id k x)) [
      | inl f ↦ inl (rw (e, f) (rw f at h))
      | inr f ↦ rw (e, f) (find-wake id k xs a (rw f at h))
    ]
  ]

  length-wake_waiters : (id : ℕ) (xs : List (Actor C)) → length (wake_waiters id xs) ≡ length xs
  length-wake_waiters id [] = refl
  length-wake_waiters id (x ∷ xs) = ap suc (length-wake_waiters id xs)

  count-wake_waiters :
      (id : ℕ) (xs : List (Actor C)) → count Actor.alive (wake_waiters id xs) ≡ count Actor.alive xs
  count-wake_waiters id [] = refl
  count-wake_waiters id (x ∷ xs) = elim (Bool-cases (waits_for id x)) [
    | inl e ↦ rw (e, count-wake_waiters id xs) refl
    | inr e ↦ rw (e, count-wake_waiters id xs) refl
  ]

  -- Waking those who wait changes nothing else.
  wake-Does :
      (w : World C) (id : ℕ)
      → IsSound w
      → Does w
          (record w { actors = wake_waiters id w.actors; events = w.events ++ woken id w.actors })
  wake-Does w id s =
      let n = length-wake_waiters id w.actors in
      let c = count-wake_waiters id w.actors in
      record {
        spares = λ k b h d. elim (find-wake id k w.actors b h) [
          | inl e ↦ (b, e, refl, refl)
          | inr e ↦ (record b { wait_flag = false }, e, refl, refl)
        ];
        grows = record {
          keeps = λ k b h. elim (find-wake id k w.actors b h) [
            | inl e ↦ (b, e, Later-refl b)
            | inr e ↦ (
              record b { wait_flag = false },
              e,
              record {
                same_trap = refl;
                lived = λ l. l;
                same_links = λ l. refl;
                same_monitors = λ l. refl;
                same_result = λ l. refl;
              },
            )
          ];
          logs = λ e m. mem-append_left (woken id w.actors) m;
          closed = λ k b c h l f d. elim (find-wake id k w.actors b h) [
            | inl e ↦ absurd (not_both e f l d)
            | inr e ↦ absurd (not_both e f l d)
          ];
        };
        sound = record { room = rw n s.room; small = s.small; counted = rw c s.counted };
        lowers = omega (arith, c);
      }

  -- In a sound world actor_finish of a living actor, with at least as many rounds as the measure,
  -- ends and returns true; the world is sound, and the watchers of the actor and, after an error,
  -- its linked actors are dead or have been told.
  pub actor_finish-tells :
      (n : ℕ) (w : World C) (id : ℕ) (r : Reason C) (a : Actor C)
      → IsSound w
      → actor_lookup w id ≡ some a
      → a.alive ≡ true
      → measure w ≤ n
      → Returns
          (actor_finish n w id r)
          (λ p. (p.0 ≡ true) × (IsSound p.1 × Told w p.1 id r a.links a.monitors))
  unfolding actor_finish
  actor_finish-tells n w id r a s h l m =
      let v = mark_dead w id r transferred_shared in
      let z = mark_dead-measure w id r transferred_shared a h l in
      let up = mark_dead-Keeps w id r transferred_shared a h l in
      let (x, e, d, o, t) =
        notify_exit-Promise n v id r (dead_with r a)
          (mark_dead-IsSound w id r transferred_shared a s h l)
          (mark_dead-lookup w id r transferred_shared a h) refl (omega (arith, z)) in
      let k = wake-Does x id d.sound in
      let w' : World C = record x {
        actors = wake_waiters id x.actors;
        events = x.events ++ woken id x.actors;
      } in
      record {
        result = (true, w');
        returns = rw (actor_finish, h, l, e) refl;
        holds = (
          refl,
          (
            k.sound,
            Told-up w x w' id r
                (λ q b g.
                  let (c, f, i) = up q b g in
                  let (c', f', i') = d.grows.keeps q c f in (c', f', Later-trans i i'))
                a.links a.monitors k.grows (Told-down w v x id r up a.links a.monitors t),
          ),
        );
      }
