-- ===== src/Runtime/Exit/Watch.antt =====
-- Monitors and links made by an actor, up to the end of the other (bootstrap/primitives.c:
-- `prim_actor_monitor`, `prim_actor_link`, on actors that exist; bootstrap/actor.c:
-- `actor_add_monitor`, `actor_link`).
use guage.Prelude.{
  ℕ, ◌≤◌, ◌<◌, ◌≡◌, refl, sym, ap, ◌∙◌, ◌≢◌, inl, inr, true, false, not, ◌&&◌, Option, none, some,
  List, [], ◌∷◌, ◌++◌, arith, ltb, if◌then◌else◌, lt→ltb, Bool-cases, length, find-holds,
  length-update_first, count-update_first, find-update_first_self, find-update_first_ne, All,
}
use guage.Runtime.Exit.{
  Reason, Actor, down_sent, World, has_id, emit, actor_lookup, with_actor, is_error, bind,
  exit_sent, normal,
}
use guage.Runtime.Exit.Notify.{down_reason, actor_finish, actor_exit_signal, actor_notify_exit}
use guage.Runtime.Exit.Grows.{MonitorTold, LinkTold}
use guage.Runtime.Exit.Sound.{IsSound, measure}
use guage.Runtime.Exit.Changes.{other_id}
use guage.Runtime.Links.{contains, max_links, max_monitors}
use guage.Runtime.Exit.Laws.{Returns, actor_finish-tells}

All-last {ℓ κ} : {A : Type ℓ} (P : A → Type κ) (xs : List A) (y : A) → All P (xs ++ (y ∷ [])) → P y
All-last P [] y a = a.0
All-last P (x ∷ xs) y a = All-last P xs y a.1

module _ {ℓ} {C : Type ℓ} where
  abbrev pub add_watcher : ℕ → Actor C → Actor C
  add_watcher watcher a =
      if ltb (length a.monitors) max_monitors
      then record a { monitors = a.monitors ++ (watcher ∷ []) }
      else a

  -- `prim_actor_monitor`: where `actor_add_monitor` is refused, the end is told at once.
  unfoldable pub prim_actor_monitor : World C → ℕ → ℕ → World C
  prim_actor_monitor w target watcher = elim (actor_lookup w target) [
    | none ↦ w
    | some a ↦
        if a.alive
        then with_actor w target (add_watcher watcher)
        else emit w (down_sent watcher target (down_reason a.result))
  ]

  -- An actor whose lists are changed.
  lists-IsSound :
      (w : World C) (id : ℕ) (f : Actor C → Actor C)
      → ((x : Actor C) → (f x).alive ≡ x.alive)
      → IsSound w
      → IsSound (with_actor w id f) × (measure (with_actor w id f) ≡ measure w)
  lists-IsSound w id f same s =
      let c = count-update_first (has_id id) Actor.alive f w.actors same in
      (
        record {
          room = rw (length-update_first (has_id id) f w.actors) s.room;
          small = s.small;
          counted = s.counted ∙ sym c;
        },
        omega (arith, c),
      )

  add_watcher-alive : (watcher : ℕ) (a : Actor C) → (add_watcher watcher a).alive ≡ a.alive
  add_watcher-alive watcher a = elim (Bool-cases (ltb (length a.monitors) max_monitors)) [
    | inl e ↦ rw (add_watcher, e) refl
    | inr e ↦ rw (add_watcher, e) refl
  ]

  -- In a sound world, when an actor monitors a living one that has fewer than 32 monitors and this
  -- then finishes, with at least as many rounds as the measure, actor_finish returns true, and the
  -- watcher, if it existed, is dead or has been sent :DOWN.
  pub actor_finish-monitor :
      (n : ℕ) (w : World C) (target watcher : ℕ) (r : Reason C) (a : Actor C)
      → IsSound w
      → actor_lookup w target ≡ some a
      → a.alive ≡ true
      → length a.monitors < max_monitors
      → measure w ≤ n
      → Returns (actor_finish n (prim_actor_monitor w target watcher) target r) (λ p.
        (p.0 ≡ true) × MonitorTold (prim_actor_monitor w target watcher) p.1 target r watcher)
  unfolding prim_actor_monitor
  actor_finish-monitor n w target watcher r a s h l m k =
      let f = add_watcher watcher in
      let w1 = with_actor w target f in
      let x : prim_actor_monitor w target watcher ≡ w1 = rw (prim_actor_monitor, h, l) refl in
      let (v, z) = lists-IsSound w target f (add_watcher-alive watcher) s in
      let y : f a ≡ record a { monitors = a.monitors ++ (watcher ∷ []) } =
        let t = lt→ltb _ _ m in rw (add_watcher, t) refl in
      let id : has_id target (f a) ≡ true = rw y (find-holds (has_id target) w.actors a h) in
      let found = find-update_first_self (has_id target) f w.actors a id h ∙ ap some y in
      let d =
        actor_finish-tells n w1 target r (record a { monitors = a.monitors ++ (watcher ∷ []) }) v
          found l (omega (arith, z)) in
      rw x (record {
        result = d.result;
        returns = d.returns;
        holds = (
          d.holds.0,
          All-last (MonitorTold w1 d.result.1 target r) a.monitors watcher
              d.holds.1.1.monitors_told,
        );
      })

  -- One half of `actor_link`.
  abbrev pub add_linked : ℕ → Actor C → Actor C
  add_linked id a =
      if not (contains id a.links) && ltb (length a.links) max_links
      then record a { links = a.links ++ (id ∷ []) }
      else a

  abbrev pub both_linked : World C → ℕ → ℕ → World C
  both_linked w a b = with_actor (with_actor w a (add_linked b)) b (add_linked a)

  -- `prim_actor_link`, in rounds of `actor_notify_exit`: the end of a dead target is told at once.
  unfoldable pub prim_actor_link : ℕ → World C → ℕ → ℕ → Option (World C)
  prim_actor_link n w current target = elim (actor_lookup w target) [
    | none ↦ some w
    | some a ↦
        if a.alive
        then some (both_linked w current target)
        else if is_error a.result
        then actor_exit_signal (actor_notify_exit n) w current target a.result
        else some (elim (actor_lookup w current) [
          | none ↦ w
          | some c ↦ if c.trap_exit then emit w (exit_sent current target normal) else w
        ])
  ]

  add_linked-alive : (id : ℕ) (a : Actor C) → (add_linked id a).alive ≡ a.alive
  add_linked-alive id a =
      elim (Bool-cases (not (contains id a.links) && ltb (length a.links) max_links)) [
        | inl e ↦ rw (add_linked, e) refl
        | inr e ↦ rw (add_linked, e) refl
      ]

  add_linked-id : (id : ℕ) (a : Actor C) → (add_linked id a).id ≡ a.id
  add_linked-id id a =
      elim (Bool-cases (not (contains id a.links) && ltb (length a.links) max_links)) [
        | inl e ↦ rw (add_linked, e) refl
        | inr e ↦ rw (add_linked, e) refl
      ]

  -- In a sound world, when an actor links itself to another, living one that has fewer than 32
  -- links, none to it, and this then finishes with an error, with at least as many rounds as the
  -- measure, the calls end, and the first actor, if it existed, is dead, or traps exits and has
  -- been sent :EXIT.
  pub actor_finish-link :
      (n : ℕ) (w : World C) (current target : ℕ) (r : Reason C) (a : Actor C)
      → IsSound w
      → actor_lookup w target ≡ some a
      → a.alive ≡ true
      → contains current a.links ≡ false
      → length a.links < max_links
      → target ≢ current
      → is_error r ≡ true
      → measure w ≤ n
      → Returns
          (bind (prim_actor_link n w current target) (λ v. actor_finish n v target r))
          (λ p. LinkTold (both_linked w current target) p.1 target r current)
  unfolding prim_actor_link
  actor_finish-link n w current target r a s h l c m ne e k =
      let u = with_actor w current (add_linked target) in
      let f = add_linked current in
      let w2 = with_actor u target f in
      let x : prim_actor_link n w current target ≡ some w2 = rw (prim_actor_link, h, l) refl in
      let (v, z) = lists-IsSound w current (add_linked target) (add_linked-alive target) s in
      let (v2, z2) = lists-IsSound u target f (add_linked-alive current) v in
      let y : f a ≡ record a { links = a.links ++ (current ∷ []) } =
        let t = lt→ltb _ _ m in rw (add_linked, c, t) refl in
      let id : has_id target (f a) ≡ true = rw y (find-holds (has_id target) w.actors a h) in
      let there : actor_lookup u target ≡ some a =
        find-update_first_ne (has_id current) (has_id target) (add_linked target) w.actors (λ b q. (
          other_id b.id target current ne q,
          rw (add_linked-id target b) (other_id b.id target current ne q),
        ))
        ∙ h in
      let found = find-update_first_self (has_id target) f u.actors a id there ∙ ap some y in
      let d =
        actor_finish-tells n w2 target r (record a { links = a.links ++ (current ∷ []) }) v2 found l
          (omega (arith, z, z2)) in
      rw x (record {
        result = d.result;
        returns = d.returns;
        holds =
            All-last (LinkTold w2 d.result.1 target r) a.links current (d.holds.1.1.links_told e);
      })
