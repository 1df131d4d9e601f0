-- ===== src/Runtime/Ring/Claims.antt =====
-- Claiming a position.
use guage.Prelude.{
  ℕ, ◌+◌, ◌%◌, ◌≤◌, ◌<◌, ◌≡◌, refl, sym, ap, ◌∙◌, ◌≢◌, inl, inr, some, List, [], ◌∷◌, ◌++◌, arith,
  get_elem?, length-append, All, get_elem?-append_left, get_elem?-append_last,
}
use guage.Runtime.Ring.{Slot, send_write, recv_take, Delivery, World, accept, still}
use guage.Runtime.Ring.Invariant.{seq_at, owned, Valid, same_slot, window, capacity_pos}
use guage.Runtime.Ring.Owners.{owner_seq, free_slot, full_slot, late}
use guage.Runtime.Ring.Frame.{Advances}

module _ {ℓ} {C : Type ℓ} where
  module _ {w : World C} (v : Valid w) where
    pub send_claim-Advances :
        (t : ℕ) (message : C) (p : ℕ)
        → w.ring.enqueue_pos ≡ p
        → p ≤ seq_at w.ring p
        → Advances w t (record {
          ring = record w.ring { enqueue_pos = p + 1 };
          call = send_write message p;
          note = accept message;
        })
    send_claim-Advances t message p e n =
        let h = v.shape in
        let (free, fits) = free_slot v p e n in
        let size = length-append w.accepted (message ∷ []) in
        let kept : (q : ℕ)
            → q < w.ring.enqueue_pos
            → get_elem? (w.accepted ++ (message ∷ [])) q ≡ get_elem? w.accepted q =
          λ q k. get_elem?-append_left w.accepted (message ∷ []) q (omega (arith, v.claimed)) in
        record {
          grows = record {
            shape = record {
              exponent = h.exponent;
              power = h.power;
              exponent_pos = h.exponent_pos;
              mask_eq = h.mask_eq;
              width = h.width;
            };
            same_capacity = refl;
            seq_up = λ q. omega arith;
            enqueue_up = omega arith;
            dequeue_up = omega arith;
            kept = kept;
          };
          spared = λ u q d o. (refl, refl);
          behind = omega (arith, v.behind);
          room = omega arith;
          claimed = omega (arith, size, v.claimed);
          slots = λ i.
              let s = v.slots i in
              record {
                pos = s.pos;
                same = s.same;
                state = elim s.state [
                  | inl f ↦ inl f
                  | inr f ↦ inr (f.0, omega (arith, f.1), λ k. f.2 k ∙ sym (kept s.pos f.1))
                ];
              };
          near = tt;
          sound = (
            omega arith,
            free,
            ap (get_elem? (w.accepted ++ (message ∷ []))) (omega (arith, v.claimed))
                ∙ get_elem?-append_last w.accepted message,
          );
          apart = λ u q q' d x y z.
              let a : p ≡ q = cc in apart_free u q' y (ap (λ k. k % w.ring.capacity) a ∙ z);
          fifo = grown w.delivered v.fifo kept;
          once = v.once;
        }
      where
        apart_free :
            (u q : ℕ) → owned (w.calls u) ≡ some q → p % w.ring.capacity ≢ q % w.ring.capacity
        apart_free u q o z =
            let (free, fits) = free_slot v p e n in
            let same = ap Slot.sequence (same_slot v.shape p q z) in
            elim (owner_seq v u q o) [
              | inl s ↦ omega (arith, s.0, s.1)
              | inr s ↦
                  let d =
                    window v.shape q p (sym z) (omega (arith, s.0))
                      (omega (arith, s.0, capacity_pos v.shape)) in
                  omega (arith, s.0)
            ]

        grown :
            (ds : List (Delivery C))
            → All (λ d. (d.at < w.ring.dequeue_pos) × (d.item ≡ get_elem? w.accepted d.at)) ds
            → ((q : ℕ)
                → q < w.ring.enqueue_pos
                → get_elem? (w.accepted ++ (message ∷ [])) q ≡ get_elem? w.accepted q)
            → All
                (λ d.
                  (d.at < w.ring.dequeue_pos)
                  × (d.item ≡ get_elem? (w.accepted ++ (message ∷ [])) d.at))
                ds
        grown [] a k = tt
        grown (d ∷ ds) a k = (
          (
            a.0.0,
            a.0.1
                ∙ sym (
                    k d.at (let lt : d.at < w.ring.dequeue_pos = a.0.0 in omega (arith, v.behind))),
          ),
          grown ds a.1 k,
        )

    pub recv_claim-Advances :
        (t p : ℕ)
        → w.ring.dequeue_pos ≡ p
        → p + 1 ≤ seq_at w.ring p
        → Advances w t (still (record w.ring { dequeue_pos = p + 1 }) (recv_take p))
    recv_claim-Advances t p e n =
        let h = v.shape in
        let (full, filled, holds) = full_slot v p e n in
        record {
          grows = record {
            shape = record {
              exponent = h.exponent;
              power = h.power;
              exponent_pos = h.exponent_pos;
              mask_eq = h.mask_eq;
              width = h.width;
            };
            same_capacity = refl;
            seq_up = λ q. omega arith;
            enqueue_up = omega arith;
            dequeue_up = omega arith;
            kept = λ q k. refl;
          };
          spared = λ u q d o. (refl, refl);
          behind = omega arith;
          room = omega (arith, v.room);
          claimed = v.claimed;
          slots = λ i.
              let s = v.slots i in
              record {
                pos = s.pos;
                same = s.same;
                state = elim s.state [
                  | inl f ↦ inl (f.0, omega (arith, f.1))
                  | inr f ↦ inr (f.0, f.1, λ k. f.2 (omega arith))
                ];
              };
          near = tt;
          sound = (omega arith, full, holds, late v p (omega arith));
          apart = λ u q q' d x y z.
              let a : p ≡ q = cc in apart_full u q' y (ap (λ k. k % w.ring.capacity) a ∙ z);
          fifo = later w.delivered v.fifo;
          once = v.once;
        }
      where
        apart_full :
            (u q : ℕ) → owned (w.calls u) ≡ some q → p % w.ring.capacity ≢ q % w.ring.capacity
        apart_full u q o z =
            let (full, filled, holds) = full_slot v p e n in
            let same = ap Slot.sequence (same_slot v.shape p q z) in
            elim (owner_seq v u q o) [
              | inl s ↦
                  let d =
                    window v.shape p q z (omega (arith, s.0))
                      (omega (arith, s.0, capacity_pos v.shape)) in
                  omega (arith, s.0)
              | inr s ↦ omega (arith, s.0, s.1)
            ]

        later :
            (ds : List (Delivery C))
            → All (λ d. (d.at < w.ring.dequeue_pos) × (d.item ≡ get_elem? w.accepted d.at)) ds
            → All (λ d. (d.at < p + 1) × (d.item ≡ get_elem? w.accepted d.at)) ds
        later [] a = tt
        later (d ∷ ds) a =
            ((let lt : d.at < w.ring.dequeue_pos = a.0.0 in omega arith, a.0.1), later ds a.1)
