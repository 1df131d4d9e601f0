-- ===== src/Runtime/Exit/Listeners.antt =====
-- The loops of `actor_notify_exit` (bootstrap/actor.c) over monitors and links.
use guage.Prelude.{
  ℕ, ◌≤◌, ◌≡◌, refl, inl, inr, true, Option, some, List, [], ◌∷◌, arith, Bool-cases, Option-cases,
  All, All_mono,
}
use guage.Runtime.Exit.{Reason, normal, is_error, exit_sent, down_sent, World, emit, actor_lookup}
use guage.Runtime.Exit.Notify.{
  down_reason, notify_monitor, notify_monitors, notify_link, notify_links,
}
use mathlib.Core.List.{mem-append_right, mem-cons_self}
use guage.Runtime.Exit.Grows.{
  LinkTold, MonitorTold, LinkTold-up, LinkTold-down, MonitorTold-up, MonitorTold-down, not_both,
}
use guage.Runtime.Exit.Sound.{IsSound, measure, Does, Does-refl, Does-trans, emit-Does}
use guage.Runtime.Exit.Loops.{Promise, signal-Ends}

module _ {ℓ} {C : Type ℓ} where
  notify_monitor-Does :
      (w : World C) (id : ℕ) (r : Reason C) (m : ℕ)
      → IsSound w
      → Does w (notify_monitor w id r m) × MonitorTold w (notify_monitor w id r m) id r m
  notify_monitor-Does w id r m s = elim (Option-cases (actor_lookup w m)) [
    | inl e ↦ rw (notify_monitor, e) (Does-refl s, λ a b h k l. absurd cc)
    | inr (x, e) ↦ elim (Bool-cases x.alive) [
      | inl l ↦
          rw (notify_monitor, e, l)
            (
              emit-Does (down_sent m id (down_reason r)) s,
              λ a b h k o. mem-append_right w.events mem-cons_self,
            )
      | inr d ↦ rw (notify_monitor, e, d) (Does-refl s, λ a b h k l. absurd (not_both k e l d))
    ]
  ]

  -- Every watcher is dead or has been sent the end.
  pub notify_monitors-Does :
      (w : World C) (id : ℕ) (r : Reason C) (ms : List ℕ)
      → IsSound w
      → Does w (notify_monitors w id r ms) × All (MonitorTold w (notify_monitors w id r ms) id r) ms
  unfolding notify_monitors
  notify_monitors-Does w id r [] s = (Does-refl s, tt)
  notify_monitors-Does w id r (m ∷ ms) s =
      let v = notify_monitor w id r m in
      let w' = notify_monitors v id r ms in
      let (d, t) = notify_monitor-Does w id r m s in
      let (d', ts) = notify_monitors-Does v id r ms d.sound in
      (
        Does-trans d d',
        (
          MonitorTold-up w v w' id r d.grows.keeps d'.grows m t,
          All_mono (MonitorTold-down w v w' id r d.grows.keeps) ms ts,
        ),
      )

  module _ {n : ℕ} {again : World C → ℕ → Reason C → Option (World C)}
      (promise : Promise n again) where
    notify_link-Ends :
        (w : World C) (id : ℕ) (r : Reason C) (z : ℕ)
        → IsSound w
        → measure w ≤ n
        → (w' : World C) × (notify_link again w id r z ≡ some w')
          × Does w w'
          × (is_error r ≡ true → LinkTold w w' id r z)
    notify_link-Ends w id r z s m = elim (Option-cases (actor_lookup w z)) [
      | inl e ↦ (w, rw (notify_link, e) refl, Does-refl s, λ q a b h k l. absurd cc)
      | inr (t, e) ↦ elim (Bool-cases t.alive) [
        | inr d ↦
            (w, rw (notify_link, e, d) refl, Does-refl s, λ q a b h k l. absurd (not_both k e l d))
        | inl l ↦ elim (Bool-cases (is_error r)) [
          | inl x ↦
              let (w', f, d, g) = signal-Ends promise w z id r s m in
              (w', rw (notify_link, e, l, x) f, d, λ q. g)
          | inr x ↦ elim (Bool-cases t.trap_exit) [
            | inl y ↦ (
              emit w (exit_sent z id normal),
              rw (notify_link, e, l, x, y) refl,
              emit-Does (exit_sent z id normal) s,
              λ q. absurd cc,
            )
            | inr y ↦ (w, rw (notify_link, e, l, x, y) refl, Does-refl s, λ q. absurd cc)
          ]
        ]
      ]
    ]

    -- Every linked actor is dead after an error, or traps exits and has the message.
    pub notify_links-Ends :
        (w : World C) (id : ℕ) (r : Reason C) (ls : List ℕ)
        → IsSound w
        → measure w ≤ n
        → (w' : World C) × (notify_links again w id r ls ≡ some w')
          × Does w w'
          × (is_error r ≡ true → All (LinkTold w w' id r) ls)
    unfolding notify_links
    notify_links-Ends w id r [] s m = (w, refl, Does-refl s, λ q. tt)
    notify_links-Ends w id r (z ∷ ls) s m =
        let (v, f, d, t) = notify_link-Ends w id r z s m in
        let (w', g, d', ts) = notify_links-Ends v id r ls d.sound (omega (arith, d.lowers)) in
        (
          w',
          rw (notify_links, f) g,
          Does-trans d d',
          λ q. (
            LinkTold-up w v w' id r d.grows.keeps d'.grows z (t q),
            All_mono (LinkTold-down w v w' id r d.grows.keeps) ls (ts q),
          ),
        )
