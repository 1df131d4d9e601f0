-- ===== src/Runtime/Ring/Owners.antt =====
-- The owners of slots, and the steps that change no slot.
use guage.Prelude.{
  ℕ, ◌+◌, ◌≤◌, ◌<◌, ◌≡◌, refl, sym, ap, ◌∙◌, ◌⊎◌, inl, inr, none, some, List, [], ◌∷◌, arith,
  get_elem?, count, All,
}
use guage.Runtime.Ring.{
  Call, idle, send_load, send_check, send_claim, send_write, send_publish, send_count, sent,
  recv_test, recv_load, recv_check, recv_claim, recv_take, recv_release, recv_count, received,
  Delivery, World, still,
}
use guage.Runtime.Ring.Invariant.{
  seq_at, value_at, owned, at_pos, IsNear, IsSound, Valid, window, capacity_pos,
}
use guage.Runtime.Ring.Frame.{Advances}

module _ {ℓ} {C : Type ℓ} where
  pub local-Advances :
      (w : World C) (t n : ℕ) (c : Call C)
      → Valid w
      → IsNear (record w.ring { count = n }) c
      → IsSound (record w.ring { count = n }) w.accepted w.delivered c
      → owned c ≡ none
      → Advances w t (still (record w.ring { count = n }) c)
  local-Advances w t n c v near sound o =
      let h = v.shape in
      record {
        grows = record {
          shape = record {
            exponent = h.exponent;
            power = h.power;
            exponent_pos = h.exponent_pos;
            mask_eq = h.mask_eq;
            width = h.width;
          };
          same_capacity = refl;
          seq_up = λ p. omega arith;
          enqueue_up = omega arith;
          dequeue_up = omega arith;
          kept = λ p q. refl;
        };
        spared = λ u p d q. (refl, refl);
        behind = v.behind;
        room = v.room;
        claimed = v.claimed;
        slots = λ i. let s = v.slots i in record { pos = s.pos; same = s.same; state = s.state };
        near = near;
        sound = sound;
        apart = λ u p q d x y. absurd (cc);
        fifo = v.fifo;
        once = v.once;
      }

  module _ {w : World C} (v : Valid w) where
    -- What an owner knows of the number of its slot.
    pub owner_seq :
        (u q : ℕ)
        → owned (w.calls u) ≡ some q
        → ((seq_at w.ring q ≡ q) × (q < w.ring.enqueue_pos))
          ⊎ ((seq_at w.ring q ≡ q + 1) × (q < w.ring.dequeue_pos))
    owner_seq u q o = by_call (w.calls u) o (v.sound u)
      where
        by_call :
            (c : Call C)
            → owned c ≡ some q
            → IsSound w.ring w.accepted w.delivered c
            → ((seq_at w.ring q ≡ q) × (q < w.ring.enqueue_pos))
              ⊎ ((seq_at w.ring q ≡ q + 1) × (q < w.ring.dequeue_pos))
        by_call idle e s = cc
        by_call (send_load x) e s = cc
        by_call (send_check x p) e s = cc
        by_call (send_claim x p) e s = cc
        by_call (send_write x p) e s = let d : p ≡ q = cc in inl (rw d at s.1, rw d at s.0)
        by_call (send_publish p) e s = let d : p ≡ q = cc in inl (rw d at s.1, rw d at s.0)
        by_call send_count e s = cc
        by_call (sent b) e s = cc
        by_call recv_test e s = cc
        by_call recv_load e s = cc
        by_call (recv_check p) e s = cc
        by_call (recv_claim p) e s = cc
        by_call (recv_take p) e s = let d : p ≡ q = cc in inr (rw d at s.1, rw d at s.0)
        by_call (recv_release p x) e s = let d : p ≡ q = cc in inr (rw d at s.1, rw d at s.0)
        by_call (recv_count x) e s = cc
        by_call (received x) e s = cc

    -- The slot that a sender claims is free for its position.
    pub free_slot :
        (p : ℕ)
        → w.ring.enqueue_pos ≡ p
        → p ≤ seq_at w.ring p
        → (seq_at w.ring p ≡ p) × (p < w.ring.dequeue_pos + w.ring.capacity)
    free_slot p e n =
        let s = v.slots p in
        elim s.state [
          | inl f ↦
              let d = window v.shape p s.pos (sym s.same) (omega arith) (omega (arith, v.behind)) in
              (omega arith, omega arith)
          | inr f ↦ absurd (
              let d =
                window v.shape s.pos p s.same (omega arith) (omega (arith, capacity_pos v.shape)) in
              omega arith)
        ]

    -- The slot that a receiver claims holds the message of its position.
    pub full_slot :
        (p : ℕ)
        → w.ring.dequeue_pos ≡ p
        → p + 1 ≤ seq_at w.ring p
        → (seq_at w.ring p ≡ p + 1)
          × (p < w.ring.enqueue_pos)
          × (value_at w.ring p ≡ get_elem? w.accepted p)
    full_slot p e n =
        let s = v.slots p in
        elim s.state [
          | inl f ↦ absurd (
              let d = window v.shape p s.pos (sym s.same) (omega arith) (omega arith) in
              omega arith)
          | inr f ↦
              let d = window v.shape p s.pos (sym s.same) (omega arith) (omega (arith, v.room)) in
              (omega arith, omega arith, f.2 (omega arith) ∙ ap (get_elem? w.accepted) (sym d))
        ]

    pub late : (p : ℕ) → w.ring.dequeue_pos ≤ p → count (at_pos p) w.delivered ≡ 0
    late p h = none_late w.delivered v.fifo
      where
        none_late :
            (ds : List (Delivery C))
            → All (λ d. (d.at < w.ring.dequeue_pos) × (d.item ≡ get_elem? w.accepted d.at)) ds
            → count (at_pos p) ds ≡ 0
        none_late [] a = refl
        none_late (d ∷ ds) a =
            let lt : d.at < w.ring.dequeue_pos = a.0.0 in ground (arith, none_late ds a.1)
