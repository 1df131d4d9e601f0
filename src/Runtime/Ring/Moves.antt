-- ===== src/Runtime/Ring/Moves.antt =====
-- The ring after a send, and after a receive.
use guage.Prelude.{
  ℕ, suc, ◌+◌, ◌%◌, ◌<◌, dec_lt, ℕ_discrete, ◌≡◌, refl, sym, ap, ◌∙◌, ◌≢◌, none, some, List, [],
  ◌∷◌, ◌++◌, arith, length, get_elem?, length-append,
}
use guage.Prelude.{get_elem?-append_left, get_elem?-append_last}
use guage.Runtime.Ring.{Slot, Ring, slot_at, set_slot, i32}
use guage.Runtime.Ring.Solo.{Represents, ring_sent, ring_received}
use guage.Runtime.Ring.Invariant.{
  seq_at, value_at, IsRing, window, set_slot_self, set_slot_ne, set_slot-IsRing, next_round,
}

module _ {ℓ} {C : Type ℓ} where
  twice_self :
      (r : Ring C) (p q : ℕ) (s s' : Slot C)
      → IsRing r
      → q % r.capacity ≡ p % r.capacity
      → slot_at (set_slot (set_slot r p s) p s') q ≡ s'
  twice_self r p q s s' h e = set_slot_self (set_slot-IsRing h p s) p q s' e

  twice_ne :
      (r : Ring C) (p q : ℕ) (s s' : Slot C)
      → IsRing r
      → q % r.capacity ≢ p % r.capacity
      → slot_at (set_slot (set_slot r p s) p s') q ≡ slot_at r q
  twice_ne r p q s s' h d = set_slot_ne (set_slot-IsRing h p s) p q s' d ∙ set_slot_ne h p q s d

  -- The positions of a ring matter to no slot.
  moved : (r : Ring C) (e d : ℕ) → IsRing r → IsRing (record r { enqueue_pos = e; dequeue_pos = d })
  moved r e d h = record {
    exponent = h.exponent;
    power = h.power;
    exponent_pos = h.exponent_pos;
    mask_eq = h.mask_eq;
    width = h.width;
  }

  counting : (r : Ring C) (n : ℕ) → IsRing r → IsRing (record r { count = n })
  counting r n h = record {
    exponent = h.exponent;
    power = h.power;
    exponent_pos = h.exponent_pos;
    mask_eq = h.mask_eq;
    width = h.width;
  }

  -- Less than a round apart, other positions have other slots.
  other_slot :
      (r : Ring C) (i j : ℕ)
      → IsRing r
      → i < r.capacity
      → j < r.capacity
      → i ≢ j
      → (r.dequeue_pos + i) % r.capacity ≢ (r.dequeue_pos + j) % r.capacity
  other_slot r i j h a b d e = elim (dec_lt i j) [
    | yes lt ↦
        let z = window h (r.dequeue_pos + i) (r.dequeue_pos + j) e (omega arith) (omega arith) in
        d (omega arith)
    | no ge ↦
        let z =
          window h (r.dequeue_pos + j) (r.dequeue_pos + i) (sym e) (omega arith) (omega arith) in
        d (omega arith)
  ]

  pub ring_sent-Represents :
      (r : Ring C) (q : List C) (v : C)
      → Represents r q
      → length q < r.capacity
      → length q + 1 < i32
      → Represents (ring_sent r v) (q ++ (v ∷ []))
  unfolding ring_sent
  ring_sent-Represents r q v h room word =
      let p = r.enqueue_pos in
      let base : Ring C = record r { enqueue_pos = p + 1 } in
      let s₁ : Slot C = record { sequence = seq_at r p; value = some v } in
      let r₁ = set_slot base p s₁ in
      let s₂ : Slot C = record { sequence = p + 1; value = value_at r₁ p } in
      let k = moved r (p + 1) r.dequeue_pos h.shape in
      let size = length-append q (v ∷ []) in
      let held : value_at r₁ p ≡ some v = ap Slot.value (set_slot_self k p p s₁ refl) in
      let span = h.span in
      let at_end : (j : ℕ) → j ≡ length q → slot_at (set_slot r₁ p s₂) (r.dequeue_pos + j) ≡ s₂ =
        λ j e.
          twice_self base p (r.dequeue_pos + j) s₁ s₂ k (ap (λ n. n % r.capacity) (omega arith)) in
      let elsewhere : (j : ℕ)
          → j < r.capacity
          → j ≢ length q
          → slot_at (set_slot r₁ p s₂) (r.dequeue_pos + j) ≡ slot_at r (r.dequeue_pos + j) =
        λ j lt ne.
          twice_ne base p (r.dequeue_pos + j) s₁ s₂ k (λ z.
            other_slot r j (length q) h.shape lt room ne (z ∙ ap (λ n. n % r.capacity) span)) in
      record {
        shape = counting _ _ (set_slot-IsRing (set_slot-IsRing k p s₁) p s₂);
        span = omega (arith, size);
        fits = omega (arith, size);
        full = λ j lt. elim (ℕ_discrete j (length q)) [
          | yes e ↦ (
            ap Slot.sequence (at_end j e) ∙ omega arith,
            ap Slot.value (at_end j e)
                ∙ held
                ∙ sym (get_elem?-append_last q v)
                ∙ ap (get_elem? (q ++ (v ∷ []))) (sym e),
          )
          | no d ↦
              let old = h.full j (omega (arith, size)) in
              let same = elsewhere j (omega (arith, size)) d in
              (
                ap Slot.sequence same ∙ old.0,
                ap Slot.value same
                    ∙ old.1
                    ∙ sym (get_elem?-append_left q (v ∷ []) j (omega (arith, size))),
              )
        ];
        free = λ j ge lt.
            ap Slot.sequence (elsewhere j lt (λ z. omega (arith, size)))
            ∙ h.free j (omega (arith, size)) lt;
        counted = omega (arith, h.counted, size);
      }

  pub ring_received-Represents :
      (r : Ring C) (x : C) (q : List C)
      → Represents r (x ∷ q)
      → length q + 1 < i32
      → Represents (ring_received r) q
  unfolding ring_received
  ring_received-Represents r x q h word =
      let p = r.dequeue_pos in
      let base : Ring C = record r { dequeue_pos = p + 1 } in
      let s₁ : Slot C = record { sequence = seq_at r p; value = none } in
      let r₁ = set_slot base p s₁ in
      let s₂ : Slot C = record { sequence = p + r.capacity; value = value_at r₁ p } in
      let k = moved r r.enqueue_pos (p + 1) h.shape in
      let span = h.span in
      let fits = h.fits in
      let elsewhere : (j : ℕ)
          → j + 1 < r.capacity
          → slot_at (set_slot r₁ p s₂) (p + 1 + j) ≡ slot_at r (p + (j + 1)) =
        λ j lt.
          let place : p + 1 + j ≡ p + (j + 1) = omega arith in
          ap (slot_at (set_slot r₁ p s₂)) place
          ∙ twice_ne base p (p + (j + 1)) s₁ s₂ k (λ z.
            let first : p ≡ p + 0 = omega arith in
            other_slot r (j + 1) 0 h.shape lt (omega arith) (λ y. omega arith)
              (z ∙ ap (λ n. n % r.capacity) first)) in
      let behind : (j : ℕ) → j + 1 ≡ r.capacity → slot_at (set_slot r₁ p s₂) (p + 1 + j) ≡ s₂ =
        λ j e.
          let place : p + 1 + j ≡ p + r.capacity = omega arith in
          twice_self base p (p + 1 + j) s₁ s₂ k
            (ap (λ n. n % r.capacity) place ∙ next_round h.shape p) in
      record {
        shape = counting _ _ (set_slot-IsRing (set_slot-IsRing k p s₁) p s₂);
        span = omega arith;
        fits = omega arith;
        full = λ j lt.
            let old = h.full (j + 1) (omega arith) in
            let same = elsewhere j (omega arith) in
            (
              ap Slot.sequence same ∙ old.0 ∙ omega arith,
              ap Slot.value same
                  ∙ old.1
                  ∙ (let next : j + 1 ≡ suc j = omega arith in ap (get_elem? (x ∷ q)) next),
            );
        free = λ j ge lt. elim (ℕ_discrete (j + 1) r.capacity) [
          | yes e ↦ ap Slot.sequence (behind j e) ∙ omega arith
          | no d ↦
              ap Slot.sequence (elsewhere j (omega arith))
              ∙ h.free (j + 1) (omega arith) (omega arith)
              ∙ omega arith
        ];
        counted = omega (arith, h.counted);
      }
