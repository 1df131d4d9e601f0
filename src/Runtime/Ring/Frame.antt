-- ===== src/Runtime/Ring/Frame.antt =====
-- What a step of one thread leaves to the others.
use guage.Prelude.{
  ℕ, ◌+◌, ◌%◌, ◌≤◌, ◌<◌, ◌≡◌, refl, sym, ap, ◌∙◌, ◌≢◌, inl, inr, some, List, arith, ◌==◌,
  if◌then◌else◌, Bool-cases, length, get_elem?, count, All,
}
use guage.Runtime.Ring.{
  Slot, Ring, Call, idle, send_load, send_check, send_claim, send_write, send_publish, send_count,
  sent, recv_test, recv_load, recv_check, recv_claim, recv_take, recv_release, recv_count, received,
  Delivery, World, Outcome, note_accepted, note_delivered, slot_at, after,
}
use guage.Runtime.Ring.Invariant.{seq_at, owned, at_pos, IsNear, IsSound, SlotHolds, IsRing, Valid}

module _ {ℓ} {C : Type ℓ} where
  -- Sequence numbers and positions only grow, and the history is kept.
  pub record Grows (r r' : Ring C) (acc acc' : List C) : Type ℓ where
    pub shape : IsRing r'
    pub same_capacity : r'.capacity ≡ r.capacity
    pub seq_up : (p : ℕ) → seq_at r p ≤ seq_at r' p
    pub enqueue_up : r.enqueue_pos ≤ r'.enqueue_pos
    pub dequeue_up : r.dequeue_pos ≤ r'.dequeue_pos
    pub kept : (p : ℕ) → p < r.enqueue_pos → get_elem? acc' p ≡ get_elem? acc p

  module _ {r r' : Ring C} {acc acc' : List C} (g : Grows r r' acc acc') where
    pub IsNear-grows : (c : Call C) → IsNear r c → IsNear r' c
    IsNear-grows idle n = tt
    IsNear-grows (send_load v) n = tt
    IsNear-grows (send_check v p) n = omega (arith, g.enqueue_up)
    IsNear-grows (send_claim v p) n = omega (arith, g.seq_up p)
    IsNear-grows (send_write v p) n = tt
    IsNear-grows (send_publish p) n = tt
    IsNear-grows send_count n = tt
    IsNear-grows (sent b) n = tt
    IsNear-grows recv_test n = tt
    IsNear-grows recv_load n = tt
    IsNear-grows (recv_check p) n = omega (arith, g.dequeue_up)
    IsNear-grows (recv_claim p) n = omega (arith, g.seq_up p)
    IsNear-grows (recv_take p) n = tt
    IsNear-grows (recv_release p v) n = tt
    IsNear-grows (recv_count v) n = tt
    IsNear-grows (received v) n = tt

    -- The slot of a call that owns one is not touched.
    pub IsSound-grows :
        (done done' : List (Delivery C)) (c : Call C)
        → r.dequeue_pos ≤ r.enqueue_pos
        → ((p : ℕ)
            → owned c ≡ some p
            → (slot_at r' p ≡ slot_at r p) × (count (at_pos p) done' ≡ count (at_pos p) done))
        → IsSound r acc done c
        → IsSound r' acc' done' c
    IsSound-grows done done' idle b k s = tt
    IsSound-grows done done' (send_load v) b k s = tt
    IsSound-grows done done' (send_check v p) b k s = tt
    IsSound-grows done done' (send_claim v p) b k s = tt
    IsSound-grows done done' (send_write v p) b k s =
        (omega (arith, s.0, g.enqueue_up), ap Slot.sequence (k p refl).0 ∙ s.1, g.kept p s.0 ∙ s.2)
    IsSound-grows done done' (send_publish p) b k s = (
      omega (arith, s.0, g.enqueue_up),
      ap Slot.sequence (k p refl).0 ∙ s.1,
      ap Slot.value (k p refl).0 ∙ s.2 ∙ sym (g.kept p s.0),
    )
    IsSound-grows done done' send_count b k s = tt
    IsSound-grows done done' (sent x) b k s = tt
    IsSound-grows done done' recv_test b k s = tt
    IsSound-grows done done' recv_load b k s = tt
    IsSound-grows done done' (recv_check p) b k s = tt
    IsSound-grows done done' (recv_claim p) b k s = tt
    IsSound-grows done done' (recv_take p) b k s = (
      omega (arith, s.0, g.dequeue_up),
      ap Slot.sequence (k p refl).0 ∙ s.1,
      ap Slot.value (k p refl).0 ∙ s.2 ∙ sym (g.kept p (omega (arith, s.0))),
      (k p refl).1 ∙ s.3,
    )
    IsSound-grows done done' (recv_release p v) b k s = (
      omega (arith, s.0, g.dequeue_up),
      ap Slot.sequence (k p refl).0 ∙ s.1,
      ap Slot.value (k p refl).0 ∙ s.2,
    )
    IsSound-grows done done' (recv_count v) b k s = tt
    IsSound-grows done done' (received v) b k s = tt

  -- What must be shown of the step of thread `t`.
  pub record Advances (w : World C) (t : ℕ) (o : Outcome C) : Type ℓ where
    pub grows : Grows w.ring o.ring w.accepted (note_accepted o.note w.accepted)
    pub spared :
        (u p : ℕ)
        → t ≢ u
        → owned (w.calls u) ≡ some p
        → (slot_at o.ring p ≡ slot_at w.ring p)
          × (count (at_pos p) (note_delivered o.note w.delivered) ≡ count (at_pos p) w.delivered)
    pub behind : o.ring.dequeue_pos ≤ o.ring.enqueue_pos
    pub room : o.ring.enqueue_pos ≤ o.ring.dequeue_pos + o.ring.capacity
    pub claimed : length (note_accepted o.note w.accepted) ≡ o.ring.enqueue_pos
    pub slots : (i : ℕ) → SlotHolds o.ring (note_accepted o.note w.accepted) i
    pub near : IsNear o.ring o.call
    pub sound :
        IsSound o.ring (note_accepted o.note w.accepted) (note_delivered o.note w.delivered) o.call
    pub apart :
        (u p q : ℕ)
        → t ≢ u
        → owned o.call ≡ some p
        → owned (w.calls u) ≡ some q
        → p % o.ring.capacity ≢ q % o.ring.capacity
    pub fifo :
        All
          (λ d.
            (d.at < o.ring.dequeue_pos)
            × (d.item ≡ get_elem? (note_accepted o.note w.accepted) d.at))
          (note_delivered o.note w.delivered)
    pub once : (p : ℕ) → count (at_pos p) (note_delivered o.note w.delivered) ≤ 1

  pub after-Valid :
      (w : World C) (t : ℕ) (o : Outcome C) → Valid w → Advances w t o → Valid (after w t o)
  after-Valid w t o v a =
      let near : (u : ℕ) → IsNear o.ring (if u == t then o.call else w.calls u) = λ u.
        elim (Bool-cases (u == t)) [
          | inl e ↦ rw e a.near
          | inr e ↦ rw e (IsNear-grows a.grows (w.calls u) (v.near u))
        ] in
      let sound : (u : ℕ)
          → IsSound o.ring (note_accepted o.note w.accepted) (note_delivered o.note w.delivered)
              (if u == t then o.call else w.calls u) =
        λ u. elim (Bool-cases (u == t)) [
          | inl e ↦ rw e a.sound
          | inr e ↦ rw e (
              IsSound-grows a.grows w.delivered _ (w.calls u) v.behind
                (λ p. a.spared u p (λ z. ground arith)) (v.sound u))
        ] in
      record {
        shape = a.grows.shape;
        behind = a.behind;
        room = a.room;
        claimed = a.claimed;
        slots = a.slots;
        near = near;
        sound = sound;
        fifo = a.fifo;
        once = a.once;
        apart = λ u u' p q d. elim (Bool-cases (u == t)) [
          | inl e ↦ elim (Bool-cases (u' == t)) [
            | inl f ↦ absurd (ground arith)
            | inr f ↦ rw (e, f) (λ x y. a.apart u' p q (λ z. ground arith) x y)
          ]
          | inr e ↦ elim (Bool-cases (u' == t)) [
            | inl f ↦ rw (e, f) (λ x y z. a.apart u q p (λ z'. ground arith) y x (sym z))
            | inr f ↦ rw (e, f) (λ x y. rw a.grows.same_capacity (v.apart u u' p q d x y))
          ]
        ];
      }
