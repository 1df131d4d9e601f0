-- ===== src/Runtime/Exit/Spread.antt =====
-- Whole calls of `actor_notify_exit`, `actor_exit_signal` and `actor_finish` (bootstrap/actor.c):
-- they end, and all who listen are told.
use guage.Prelude.{ℕ, zero, suc, ◌≤◌, ◌≡◌, sym, ap, ◌∙◌, false, Option, some, arith, All_mono}
use guage.Runtime.Exit.{
  Reason, Actor, tables_destroyed, name_removed, World, emit, actor_lookup, with_actor,
}
use guage.Runtime.Exit.Notify.{notify_monitors, forget, tell, notify_body, actor_notify_exit}
use guage.Runtime.Exit.Grows.{
  Told, SparesBut, stays_dead, Told-down, LinkTold-down, MonitorTold-up, MonitorTold-down,
  Grows-trans,
}
use guage.Runtime.Exit.Changes.{forget-Ended, forget-SparesBut}
use guage.Runtime.Exit.Sound.{
  IsSound, measure, Ended, Does-trans, emit-Does, Ended-of_Does, Ended-trans, SparesBut-then,
  then-SparesBut, some_inj,
}
use guage.Runtime.Exit.Loops.{Promise}
use guage.Runtime.Exit.Listeners.{notify_monitors-Does, notify_links-Ends}
use guage.Runtime.Exit.Supervision.{supervise-Ends}

module _ {ℓ} {C : Type ℓ} where
  module _ {n : ℕ} {again : World C → ℕ → Reason C → Option (World C)}
      (promise : Promise n again) where
    -- The lists are cleared, then the watchers and the linked actors are told.
    tell-Ends :
        (w : World C) (id : ℕ) (r : Reason C) (a : Actor C)
        → IsSound w
        → actor_lookup w id ≡ some a
        → a.alive ≡ false
        → measure w ≤ n
        → (w' : World C) × (tell again w id r ≡ some w')
          × Ended w w'
          × SparesBut id w w'
          × Told w w' id r a.links a.monitors
    unfolding tell
    tell-Ends w id r a s h x m =
        let u = with_actor w id forget in
        let e = forget-Ended w id a s h x in
        let v = notify_monitors u id r a.monitors in
        let (d, ms) = notify_monitors-Does u id r a.monitors e.sound in
        let (w', f, d', ls) =
          notify_links-Ends promise v id r a.links d.sound (omega (arith, e.lowers, d.lowers)) in
        let both = Does-trans d d' in
        (
          w',
          rw (tell, h) f,
          Ended-trans e (Ended-of_Does both),
          SparesBut-then id w u w' e.grows (forget-SparesBut w id) both.spares,
          record {
            links_told = λ q.
                All_mono (LinkTold-down w v w' id r (Grows-trans e.grows d.grows).keeps) a.links
                  (ls q);
            monitors_told =
                All_mono
                  (λ z t.
                    MonitorTold-down w u w' id r e.grows.keeps z
                      (MonitorTold-up u v w' id r d.grows.keeps d'.grows z t))
                  a.monitors ms;
          },
        )

    notify_body-Ends :
        (w : World C) (id : ℕ) (r : Reason C) (a : Actor C)
        → IsSound w
        → actor_lookup w id ≡ some a
        → a.alive ≡ false
        → measure w ≤ n
        → (w' : World C) × (notify_body again w id r ≡ some w')
          × Ended w w'
          × SparesBut id w w'
          × Told w w' id r a.links a.monitors
    unfolding notify_body
    notify_body-Ends w id r a s h x m =
        let first = emit-Does (tables_destroyed id) s in
        let second = emit-Does (name_removed id) first.sound in
        let u = emit (emit w (tables_destroyed id)) (name_removed id) in
        let (v, f, d) = supervise-Ends promise u id r second.sound m in
        let all = Does-trans first (Does-trans second d) in
        let (b, e, l, k) = all.spares id a h x in
        let (b', e', later) = all.grows.keeps id a h in
        let same : b' ≡ b = some_inj (sym e' ∙ e) in
        let dead : b.alive ≡ false = sym (ap Actor.alive same) ∙ stays_dead later x in
        let (w', g, d', o, t) = tell-Ends v id r b d.sound e dead (omega (arith, d.lowers)) in
        (
          w',
          rw (notify_body, h, f) g,
          Ended-trans (Ended-of_Does all) d',
          then-SparesBut id w v w' all.grows all.spares o,
          Told-down w v w' id r all.grows.keeps a.links a.monitors (rw (l, k) at t),
        )

  -- As many rounds as the measure, and one, are enough.
  pub notify_exit-Promise : (n : ℕ) → Promise {C = C} n (actor_notify_exit n)
  unfolding actor_notify_exit
  notify_exit-Promise zero w id r a s h x m = absurd (omega arith)
  notify_exit-Promise (suc n) w id r a s h x m =
      notify_body-Ends (notify_exit-Promise n) w id r a s h x (omega arith)
