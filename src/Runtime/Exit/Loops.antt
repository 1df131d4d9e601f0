-- ===== src/Runtime/Exit/Loops.antt =====
-- The loops of bootstrap/actor.c over children, monitors and links, given that the nested calls of
-- `actor_notify_exit` do what they promise.
use guage.Prelude.{
  ℕ, zero, suc, ◌+◌, ◌≤◌, ◌<◌, ◌≡◌, refl, sym, ap, ◌∙◌, inl, inr, true, false, Option, some, arith,
  ◌==◌, if◌then◌else◌, Bool-cases, Option-cases,
}
use guage.Runtime.Exit.{
  Reason, shutdown, Actor, Event, exit_sent, retained_shared, transferred_shared, World, emit,
  actor_lookup, dead_with, mark_dead,
}
use guage.Runtime.Exit.Children.{child_at}
use guage.Runtime.Exit.Notify.{signal, actor_exit_signal, shut_down, kill_children}
use mathlib.Core.List.{mem-append_right, mem-cons_self}
use guage.Runtime.Exit.Grows.{
  SparesBut, Later-trans, Told, LinkTold, stays_dead, Told-down, not_both,
}
use guage.Runtime.Exit.Changes.{
  mark_dead-lookup, mark_dead-cases, mark_dead-Keeps, mark_dead-Logs, mark_dead-IsSound,
  mark_dead-measure,
}
use guage.Runtime.Exit.Sound.{
  IsSound, measure, Does, Ended, Does-refl, Does-trans, emit-Does, some_inj,
}

module _ {ℓ} {C : Type ℓ} where
  -- A call that ends in a world that has grown.
  abbrev pub Ends : World C → Option (World C) → Type ℓ
  Ends w o = (w' : World C) × (o ≡ some w') × Does w w'

  -- What a call of `actor_notify_exit` promises for a dead actor.
  abbrev pub Promise : ℕ → (World C → ℕ → Reason C → Option (World C)) → Type ℓ
  Promise n again =
      (w : World C) (id : ℕ) (r : Reason C) (a : Actor C)
      → IsSound w
      → actor_lookup w id ≡ some a
      → a.alive ≡ false
      → measure w < n
      → (w' : World C) × (again w id r ≡ some w')
        × Ended w w'
        × SparesBut id w w'
        × Told w w' id r a.links a.monitors

  -- An actor that is killed and whose end is told.
  Told-Does :
      (w : World C) (id : ℕ) (r : Reason C) (keep : Reason C → Event C) (a : Actor C) (w' : World C)
      → actor_lookup w id ≡ some a
      → a.alive ≡ true
      → Ended (mark_dead w id r keep) w'
      → SparesBut id (mark_dead w id r keep) w'
      → Told (mark_dead w id r keep) w' id r a.links a.monitors
      → Does w w'
  Told-Does w id r keep a w' h l d o t =
      let v = mark_dead w id r keep in
      let up = mark_dead-Keeps w id r keep a h l in
      let z = mark_dead-measure w id r keep a h l in
      let f = mark_dead-lookup w id r keep a h in
      record {
        spares = λ q b g x. elim (mark_dead-cases w id r keep q b g) [
          | inl y ↦ o q b y.1 y.0 x
          | inr y ↦ absurd (not_both h (rw y.1 at g) l x)
        ];
        grows = record {
          keeps = λ q b g.
              let (c, u, p) = up q b g in
              let (c', u', p') = d.grows.keeps q c u in (c', u', Later-trans p p');
          logs = λ x y. d.grows.logs x (mark_dead-Logs w id r keep x y);
          closed = λ q b c g u p x. elim (mark_dead-cases w id r keep q b g) [
            | inl y ↦
                let t' = d.grows.closed q b c y.0 u p x in
                Told-down w v w' q c.result up b.links b.monitors t'
            | inr y ↦
                let same : b ≡ a = some_inj (sym (rw y.1 at g) ∙ h) in
                let (c', u', p') = d.grows.keeps id (dead_with r a) f in
                let end : c' ≡ c = some_inj (sym u' ∙ rw y.1 at p) in
                let res : c.result ≡ r = sym (ap Actor.result end) ∙ p'.same_result refl in
                rw (y.1, res, same) (Told-down w v w' id r up a.links a.monitors t)
          ];
        };
        sound = d.sound;
        lowers = omega (arith, z, d.lowers);
      }

  module _ {n : ℕ} {again : World C → ℕ → Reason C → Option (World C)}
      (promise : Promise n again) where
    -- A living actor is killed and its end is told.
    kill-Ends :
        (w : World C) (id : ℕ) (r : Reason C) (keep : Reason C → Event C) (a : Actor C)
        → IsSound w
        → actor_lookup w id ≡ some a
        → a.alive ≡ true
        → measure w ≤ n
        → (w' : World C) × (again (mark_dead w id r keep) id r ≡ some w')
          × Does w w'
          × ((b : Actor C) → actor_lookup w' id ≡ some b → b.alive ≡ false)
    kill-Ends w id r keep a s h l m =
        let z = mark_dead-measure w id r keep a h l in
        let (w', e, d, o, t) =
          promise (mark_dead w id r keep) id r (dead_with r a)
            (mark_dead-IsSound w id r keep a s h l) (mark_dead-lookup w id r keep a h) refl
            (omega (arith, z)) in
        (
          w',
          e,
          Told-Does w id r keep a w' h l d o t,
          λ b g.
              let (c, u, p) = d.grows.keeps id (dead_with r a) (mark_dead-lookup w id r keep a h) in
              let dead = stays_dead p refl in ap Actor.alive (some_inj (sym g ∙ u)) ∙ dead,
        )

    -- A signal reaches its target: afterwards it is dead, or it traps and has the message.
    pub signal-Ends :
        (w : World C) (z id : ℕ) (r : Reason C)
        → IsSound w
        → measure w ≤ n
        → (w' : World C) × (actor_exit_signal again w z id r ≡ some w')
          × Does w w'
          × LinkTold w w' id r z
    unfolding actor_exit_signal
    signal-Ends w z id r s m = elim (Option-cases (actor_lookup w z)) [
      | inl e ↦ (w, rw (actor_exit_signal, e) refl, Does-refl s, λ a b h k l. absurd cc)
      | inr (t, e) ↦ elim (Bool-cases t.alive) [
        | inr d ↦ (
          w,
          rw (actor_exit_signal, e, signal, d) refl,
          Does-refl s,
          λ a b h k l. absurd (not_both k e l d),
        )
        | inl l ↦ elim (Bool-cases t.trap_exit) [
          | inl p ↦ (
            emit w (exit_sent z id r),
            rw (actor_exit_signal, e, signal, l, p) refl,
            emit-Does (exit_sent z id r) s,
            λ a b h k o. (
              ap Actor.trap_exit (some_inj (sym k ∙ e)) ∙ p,
              mem-append_right w.events mem-cons_self,
            ),
          )
          | inr p ↦
              let (w', f, d, dead) = kill-Ends w z r retained_shared t s e l m in
              (
                w',
                rw (actor_exit_signal, e, signal, l, p) f,
                d,
                λ a b h k o. let x = dead b k in absurd cc,
              )
        ]
      ]
    ]

    pub shut_down-Ends :
        (w : World C) (id : ℕ) → IsSound w → measure w ≤ n → Ends w (shut_down again w id)
    unfolding shut_down
    shut_down-Ends w id s m = elim (Option-cases (actor_lookup w id)) [
      | inl e ↦ (w, rw (shut_down, e) refl, Does-refl s)
      | inr (a, e) ↦ elim (Bool-cases a.alive) [
        | inl l ↦
            let (w', f, d, dead) = kill-Ends w id shutdown transferred_shared a s e l m in
            (w', rw (shut_down, e, l) f, d)
        | inr l ↦ (w, rw (shut_down, e, l) refl, Does-refl s)
      ]
    ]

    pub kill_children-Ends :
        (w : World C) (sup dead k i : ℕ)
        → IsSound w
        → measure w ≤ n
        → Ends w (kill_children again w sup dead k i)
    unfolding kill_children
    kill_children-Ends w sup dead zero i s m = (w, refl, Does-refl s)
    kill_children-Ends w sup dead (suc k) i s m = elim (Option-cases (child_at w sup i)) [
      | inl e ↦ (w, rw (kill_children, e) refl, Does-refl s)
      | inr (c, e) ↦
          let (v, f, d) = one c.child_id in
          let (w', g, d') =
            kill_children-Ends v sup dead k (i + 1) d.sound (omega (arith, d.lowers)) in
          (w', rw (kill_children, e, f) g, Does-trans d d')
    ]
      where
        one : (id : ℕ) → Ends w (if i == dead then some w else shut_down again w id)
        one id = elim (Bool-cases (i == dead)) [
          | inl e ↦ (w, rw e refl, Does-refl s)
          | inr e ↦ rw e (shut_down-Ends w id s m)
        ]
