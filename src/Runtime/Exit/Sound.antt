-- ===== src/Runtime/Exit/Sound.antt =====
-- The invariant of the world of actors, and the measure that each nested end lowers.
use guage.Prelude.{
  ℕ, ◌+◌, ◌-◌, ◌*◌, ◌≤◌, ◌≡◌, refl, sym, ap, ◌∙◌, false, some, List, [], ◌∷◌, arith, length, count,
  All,
}
use guage.Runtime.Exit.{
  Actor, Supervisor, Event, World, max_actors, max_sup_children, sup_max_restarts, emit,
}
use mathlib.Core.List.{Mem, mem-append_left}
use guage.Runtime.Exit.Grows.{Grows, Grows-trans, Grows-same, stays_dead, Spares, SparesBut}

pub some_inj {ℓ} : {A : Type ℓ} {a b : A} → some a ≡ some b → a ≡ b
some_inj h = cc

module _ {ℓ} {C : Type ℓ} where
  abbrev pub IsSmall : Supervisor C → Type 0
  IsSmall s = (length s.children ≤ max_sup_children) × (s.restart_count ≤ sup_max_restarts)

  -- Arrays are within their bounds, no child is restarted more than five times, and the counter of
  -- the living is their number.
  pub record IsSound (w : World C) : Type ℓ where
    pub room : length w.actors ≤ max_actors
    pub small : All IsSmall w.supervisors
    pub counted : w.alive_actors ≡ count Actor.alive w.actors

  -- The restarts that are left.
  abbrev pub budget : List (Supervisor C) → ℕ
  budget [] = 0
  budget (s ∷ ss) = sup_max_restarts - s.restart_count + budget ss

  -- A restart allows for 32 children.
  abbrev pub measure : World C → ℕ
  measure w = count Actor.alive w.actors + 33 * budget w.supervisors

  -- A step that leaves a sound world sound and does not raise the measure.
  pub record Ended (w w' : World C) : Type ℓ where
    pub grows : Grows w w'
    pub sound : IsSound w'
    pub lowers : measure w' ≤ measure w

  -- Such a step that leaves the lists of the dead alone.
  pub record Does (w w' : World C) : Type ℓ where
    pub spares : Spares w w'
    pub grows : Grows w w'
    pub sound : IsSound w'
    pub lowers : measure w' ≤ measure w

  pub Spares-trans : (w v v' : World C) → Grows w v → Spares w v → Spares v v' → Spares w v'
  Spares-trans w v v' g p q k a h d =
      let (b, e, l, m) = p k a h d in
      let (b', e', later) = g.keeps k a h in
      let same : b' ≡ b = some_inj (sym e' ∙ e) in
      let dead : b.alive ≡ false = sym (ap Actor.alive same) ∙ stays_dead later d in
      let (c, f, l', m') = q k b e dead in (c, f, l' ∙ l, m' ∙ m)

  pub SparesBut-then :
      (x : ℕ) (w v v' : World C) → Grows w v → SparesBut x w v → Spares v v' → SparesBut x w v'
  SparesBut-then x w v v' g p q k a o h d =
      let (b, e, l, m) = p k a o h d in
      let (b', e', later) = g.keeps k a h in
      let same : b' ≡ b = some_inj (sym e' ∙ e) in
      let dead : b.alive ≡ false = sym (ap Actor.alive same) ∙ stays_dead later d in
      let (c, f, l', m') = q k b e dead in (c, f, l' ∙ l, m' ∙ m)

  pub then-SparesBut :
      (x : ℕ) (w v v' : World C) → Grows w v → Spares w v → SparesBut x v v' → SparesBut x w v'
  then-SparesBut x w v v' g p q k a o h d =
      let (b, e, l, m) = p k a h d in
      let (b', e', later) = g.keeps k a h in
      let same : b' ≡ b = some_inj (sym e' ∙ e) in
      let dead : b.alive ≡ false = sym (ap Actor.alive same) ∙ stays_dead later d in
      let (c, f, l', m') = q k b o e dead in (c, f, l' ∙ l, m' ∙ m)

  pub Ended-trans : {w v v' : World C} → Ended w v → Ended v v' → Ended w v'
  Ended-trans p q = record {
    grows = Grows-trans p.grows q.grows;
    sound = q.sound;
    lowers = omega (arith, p.lowers, q.lowers);
  }

  pub Ended-of_Does : {w w' : World C} → Does w w' → Ended w w'
  Ended-of_Does d = record { grows = d.grows; sound = d.sound; lowers = d.lowers }

  pub Does-trans : {w v v' : World C} → Does w v → Does v v' → Does w v'
  Does-trans {w = w} {v = v} {v' = v'} p q = record {
    spares = Spares-trans w v v' p.grows p.spares q.spares;
    grows = Grows-trans p.grows q.grows;
    sound = q.sound;
    lowers = omega (arith, p.lowers, q.lowers);
  }

  -- A step that changes neither the actors nor the counter nor the supervisors.
  pub Does-logs :
      {w w' : World C}
      → IsSound w
      → w'.actors ≡ w.actors
      → w'.alive_actors ≡ w.alive_actors
      → w'.supervisors ≡ w.supervisors
      → ((e : Event C) → Mem e w.events → Mem e w'.events)
      → Does w w'
  Does-logs s a n p l = record {
    spares = λ k b h d. (b, rw a h, refl, refl);
    grows = Grows-same a l;
    sound = record { room = rw a s.room; small = rw p s.small; counted = rw (a, n) s.counted };
    lowers = rw (a, p) (omega arith);
  }

  pub Does-refl : {w : World C} → IsSound w → Does w w
  Does-refl s = Does-logs s refl refl refl (λ e m. m)

  pub emit-Does : {w : World C} (e : Event C) → IsSound w → Does w (emit w e)
  emit-Does e s = Does-logs s refl refl refl (λ x m. mem-append_left (e ∷ []) m)
