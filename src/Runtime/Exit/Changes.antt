-- ===== src/Runtime/Exit/Changes.antt =====
-- The steps that change actors (bootstrap/actor.c): marking one dead and clearing its lists.
use guage.Prelude.{
  ℕ, ◌+◌, ◌≤◌, ℕ_discrete, ◌≡◌, refl, sym, ap, ◌∙◌, ◌≢◌, ◌⊎◌, inl, inr, true, false, some, List, [],
  ◌∷◌, arith, ◌==◌, Bool-cases, length, find, count, update_first, find-holds, length-update_first,
  count-update_first, find-update_first_self, find-update_first_ne,
}
use guage.Runtime.Exit.{
  Reason, Actor, Event, schedulers_notified, World, has_id, actor_lookup, with_actor,
  alive_dec_and_notify, dead_with, kept, mark_dead,
}
use guage.Runtime.Exit.Notify.{forget}
use mathlib.Core.List.{Mem, mem-append_left}
use guage.Runtime.Exit.Grows.{SparesBut, Keeps, Later-refl, not_both}
use guage.Runtime.Exit.Sound.{IsSound, measure, Ended, some_inj}

pub other_id : (x k id : ℕ) → k ≢ id → (x == id) ≡ true → (x == k) ≡ false
other_id x k id n e = ground arith

module _ {ℓ} {C : Type ℓ} where
  -- What a lookup finds after one actor is written.
  written :
      (id : ℕ) (f : Actor C → Actor C) (xs : List (Actor C))
      → ((x : Actor C) → (f x).id ≡ x.id)
      → (k : ℕ) (a : Actor C) → find (has_id k) xs ≡ some a
      → (find (has_id k) (update_first (has_id id) f xs) ≡ some a) × (k ≢ id)
        ⊎ (find (has_id k) (update_first (has_id id) f xs) ≡ some (f a)) × (k ≡ id)
  written id f xs same k a h = elim (ℕ_discrete k id) [
    | yes e ↦
        let p : has_id k (f a) ≡ true = rw (same a) (find-holds (has_id k) xs a h) in
        let r = find-update_first_self (has_id k) f xs a p h in inr (rw (sym e) r, e)
    | no n ↦
        let r =
          find-update_first_ne (has_id id) (has_id k) f xs
            (λ x e. (other_id x.id k id n e, rw (same x) (other_id x.id k id n e))) in
        inl (r ∙ h, n)
  ]

  pub count_le : (xs : List (Actor C)) → count Actor.alive xs ≤ length xs
  count_le [] = omega arith
  count_le (x ∷ xs) = ground (arith, count_le xs)

  pub count_dead :
      (id : ℕ) (r : Reason C) (xs : List (Actor C)) (a : Actor C)
      → find (has_id id) xs ≡ some a
      → a.alive ≡ true
      → count Actor.alive (update_first (has_id id) (dead_with r) xs) + 1 ≡ count Actor.alive xs
  count_dead id r [] a h l = absurd cc
  count_dead id r (x ∷ xs) a h l = elim (Bool-cases (has_id id x)) [
    | inl e ↦
        let y : x.alive ≡ true = ap Actor.alive (some_inj (rw e at h)) ∙ l in
        rw (e, y) (omega arith)
    | inr e ↦ let i = count_dead id r xs a (rw e at h) l in rw e (omega (arith, i))
  ]

  -- The dead actor stands where the living one stood, and nothing else has changed.
  pub mark_dead-lookup :
      (w : World C) (id : ℕ) (r : Reason C) (keep : Reason C → Event C) (a : Actor C)
      → actor_lookup w id ≡ some a
      → actor_lookup (mark_dead w id r keep) id ≡ some (dead_with r a)
  unfolding mark_dead alive_dec_and_notify
  mark_dead-lookup w id r keep a h =
      find-update_first_self (has_id id) (dead_with r) w.actors a
        (find-holds (has_id id) w.actors a h) h

  pub mark_dead-cases :
      (w : World C) (id : ℕ) (r : Reason C) (keep : Reason C → Event C) (k : ℕ) (b : Actor C)
      → actor_lookup w k ≡ some b
      → (actor_lookup (mark_dead w id r keep) k ≡ some b) × (k ≢ id)
        ⊎ (actor_lookup (mark_dead w id r keep) k ≡ some (dead_with r b)) × (k ≡ id)
  unfolding mark_dead alive_dec_and_notify
  mark_dead-cases w id r keep k b g = written id (dead_with r) w.actors (λ x. refl) k b g

  pub mark_dead-Keeps :
      (w : World C) (id : ℕ) (r : Reason C) (keep : Reason C → Event C) (a : Actor C)
      → actor_lookup w id ≡ some a
      → a.alive ≡ true
      → Keeps w (mark_dead w id r keep)
  unfolding mark_dead alive_dec_and_notify
  mark_dead-Keeps w id r keep a h l k b g =
      elim (written id (dead_with r) w.actors (λ x. refl) k b g) [
        | inl u ↦ (b, u.0, Later-refl b)
        | inr u ↦ (
          dead_with r b,
          u.0,
          record {
            same_trap = refl;
            lived = λ y. absurd cc;
            same_links = λ y. refl;
            same_monitors = λ y. refl;
            same_result = λ y. absurd (not_both h (rw u.1 at g) l y);
          },
        )
      ]

  pub mark_dead-Logs :
      (w : World C) (id : ℕ) (r : Reason C) (keep : Reason C → Event C) (e : Event C)
      → Mem e w.events
      → Mem e (mark_dead w id r keep).events
  unfolding mark_dead alive_dec_and_notify
  mark_dead-Logs w id r keep e m =
      let k = mem-append_left (kept keep r) m in
      elim (Bool-cases (w.alive_actors == 1)) [
        | inl b ↦ rw b (mem-append_left (schedulers_notified ∷ []) k)
        | inr b ↦ rw b k
      ]

  pub mark_dead-IsSound :
      (w : World C) (id : ℕ) (r : Reason C) (keep : Reason C → Event C) (a : Actor C)
      → IsSound w
      → actor_lookup w id ≡ some a
      → a.alive ≡ true
      → IsSound (mark_dead w id r keep)
  unfolding mark_dead alive_dec_and_notify
  mark_dead-IsSound w id r keep a s h l = record {
    room = rw (length-update_first (has_id id) (dead_with r) w.actors) s.room;
    small = s.small;
    counted =
        let c = count_dead id r w.actors a h l in
        let few = count_le w.actors in omega (arith, s.counted, s.room, few);
  }

  pub mark_dead-measure :
      (w : World C) (id : ℕ) (r : Reason C) (keep : Reason C → Event C) (a : Actor C)
      → actor_lookup w id ≡ some a
      → a.alive ≡ true
      → measure (mark_dead w id r keep) + 1 ≡ measure w
  unfolding mark_dead alive_dec_and_notify
  mark_dead-measure w id r keep a h l = let c = count_dead id r w.actors a h l in omega (arith, c)

  count_forget :
      (id : ℕ) (xs : List (Actor C))
      → count Actor.alive (update_first (has_id id) forget xs) ≡ count Actor.alive xs
  count_forget id xs = count-update_first (has_id id) Actor.alive forget xs (λ x. refl)

  -- The lists of a dead actor are cleared.
  pub forget-Ended :
      (w : World C) (id : ℕ) (a : Actor C)
      → IsSound w
      → actor_lookup w id ≡ some a
      → a.alive ≡ false
      → Ended w (with_actor w id forget)
  forget-Ended w id a s h d = record {
    grows = record {
      keeps = λ k b g. elim (written id forget w.actors (λ x. refl) k b g) [
        | inl u ↦ (b, u.0, Later-refl b)
        | inr u ↦ (
          forget b,
          u.0,
          record {
            same_trap = refl;
            lived = λ y. y;
            same_links = λ y. absurd (not_both (rw u.1 at g) h y d);
            same_monitors = λ y. absurd (not_both (rw u.1 at g) h y d);
            same_result = λ y. refl;
          },
        )
      ];
      logs = λ e m. m;
      closed = λ k b c g l f x. elim (written id forget w.actors (λ x. refl) k b g) [
        | inl u ↦ absurd (not_both u.0 f l x)
        | inr u ↦ absurd (not_both u.0 f l x)
      ];
    };
    sound = record {
      room = rw (length-update_first (has_id id) forget w.actors) s.room;
      small = s.small;
      counted = s.counted ∙ sym (count_forget id w.actors);
    };
    lowers = let c = count_forget id w.actors in omega (arith, c);
  }

  pub forget-SparesBut : (w : World C) (id : ℕ) → SparesBut id w (with_actor w id forget)
  forget-SparesBut w id k b o g d = elim (written id forget w.actors (λ x. refl) k b g) [
    | inl u ↦ (b, u.0, refl, refl)
    | inr u ↦ absurd (o u.1)
  ]
