-- ===== src/Runtime/Ring/Invariant.antt =====
-- What holds of a ring and its calls at all times.
use guage.Prelude.{
  ℕ, ◌+◌, ◌-◌, ◌*◌, ◌%◌, ◌^◌, ◌≤◌, ◌<◌, bit_and, ℕ_discrete, ◌≡◌, sym, ap, ◌∙◌, ◌≢◌, ◌⊎◌, Bool,
  Option, none, some, List, arith, ◌==◌, length, get_elem?, get_or, set, length-set,
  get_or-set_self, get_or-set_ne, count, All,
}
use native.Mathlib.Nat.{mod-lt, pow-suc, add-mod_right}
use guage.Prelude.Bits.{bit_and_mask, pow_pos}
use guage.Prelude.Modular.{slots_apart}
use guage.Runtime.Ring.{
  Slot, empty_slot, Ring, Call, send_check, send_claim, send_write, send_publish, recv_check,
  recv_claim, recv_take, recv_release, Delivery, World, slot_at, set_slot,
}

module _ {ℓ} {C : Type ℓ} where
  abbrev pub seq_at : Ring C → ℕ → ℕ
  seq_at r p = (slot_at r p).sequence

  abbrev pub value_at : Ring C → ℕ → Option C
  value_at r p = (slot_at r p).value

  -- The position that a call has claimed and not handed on.
  abbrev pub owned : Call C → Option ℕ
  owned (send_write v p) = some p
  owned (send_publish p) = some p
  owned (recv_take p) = some p
  owned (recv_release p v) = some p
  owned c = none

  abbrev pub at_pos : ℕ → Delivery C → Bool
  at_pos p d = d.at == p

  -- What a call that has claimed nothing yet knows.
  abbrev pub IsNear : Ring C → Call C → Type 0
  IsNear r (send_check v p) = p ≤ r.enqueue_pos
  IsNear r (send_claim v p) = p ≤ seq_at r p
  IsNear r (recv_check p) = p ≤ r.dequeue_pos
  IsNear r (recv_claim p) = p + 1 ≤ seq_at r p
  IsNear r c = Unit

  -- What a call that owns a position knows.
  abbrev pub IsSound : Ring C → List C → List (Delivery C) → Call C → Type ℓ
  IsSound r acc done (send_write v p) =
      (p < r.enqueue_pos) × (seq_at r p ≡ p) × (get_elem? acc p ≡ some v)
  IsSound r acc done (send_publish p) =
      (p < r.enqueue_pos) × (seq_at r p ≡ p) × (value_at r p ≡ get_elem? acc p)
  IsSound r acc done (recv_take p) =
      (p < r.dequeue_pos)
      × (seq_at r p ≡ p + 1)
      × (value_at r p ≡ get_elem? acc p)
      × (count (at_pos p) done ≡ 0)
  IsSound r acc done (recv_release p v) =
      (p < r.dequeue_pos) × (seq_at r p ≡ p + 1) × (value_at r p ≡ none)
  IsSound r acc done c = Unit

  -- A slot is free for the position `p`, or it holds the message of position `p`.
  pub record SlotHolds (r : Ring C) (acc : List C) (i : ℕ) : Type ℓ where
    pub pos : ℕ
    pub same : pos % r.capacity ≡ i % r.capacity
    pub state :
        ((seq_at r i ≡ pos) × (pos < r.dequeue_pos + r.capacity))
        ⊎ ((seq_at r i ≡ pos + 1)
            × (pos < r.enqueue_pos)
            × (r.dequeue_pos ≤ pos → value_at r i ≡ get_elem? acc pos))

  -- A ring of a power of two of slots.
  pub record IsRing (r : Ring C) : Type 0 where
    pub exponent : ℕ
    pub power : r.capacity ≡ 2 ^ exponent
    pub exponent_pos : 0 < exponent
    pub mask_eq : r.mask ≡ 2 ^ exponent - 1
    pub width : length r.slots ≡ 2 ^ exponent

  pub record Valid (w : World C) : Type ℓ where
    pub shape : IsRing w.ring
    pub behind : w.ring.dequeue_pos ≤ w.ring.enqueue_pos
    pub room : w.ring.enqueue_pos ≤ w.ring.dequeue_pos + w.ring.capacity
    pub claimed : length w.accepted ≡ w.ring.enqueue_pos
    pub slots : (i : ℕ) → SlotHolds w.ring w.accepted i
    pub near : (t : ℕ) → IsNear w.ring (w.calls t)
    pub sound : (t : ℕ) → IsSound w.ring w.accepted w.delivered (w.calls t)
    pub apart :
        (t u p q : ℕ)
        → t ≢ u
        → owned (w.calls t) ≡ some p
        → owned (w.calls u) ≡ some q
        → p % w.ring.capacity ≢ q % w.ring.capacity
    pub fifo :
        All (λ d. (d.at < w.ring.dequeue_pos) × (d.item ≡ get_elem? w.accepted d.at)) w.delivered
    pub once : (p : ℕ) → count (at_pos p) w.delivered ≤ 1

  module _ {r : Ring C} (h : IsRing r) where
    pub capacity_pos : 1 < r.capacity
    capacity_pos =
        let k = h.exponent in
        let j = k - 1 in
        let e : 2 ^ k ≡ 2 ^ j * 2 = ap (λ n. 2 ^ n) (omega (arith, h.exponent_pos)) ∙ pow-suc 2 j in
        omega (arith, pow_pos j, e, h.power)

    pub index_mod : (p : ℕ) → bit_and p r.mask ≡ p % r.capacity
    index_mod p = rw (h.mask_eq, h.power) (bit_and_mask h.exponent p)

    pub index_lt : (p : ℕ) → p % r.capacity < length r.slots
    index_lt p =
        let lt : p % r.capacity < r.capacity = mod-lt p (omega (arith, capacity_pos)) in
        omega (arith, lt, h.width, h.power)

    pub same_slot : (p q : ℕ) → p % r.capacity ≡ q % r.capacity → slot_at r p ≡ slot_at r q
    same_slot p q e = ap (λ i. get_or r.slots i empty_slot) (index_mod p ∙ e ∙ sym (index_mod q))

    -- Positions less than a round apart that share a slot are equal.
    pub window : (p q : ℕ) → p % r.capacity ≡ q % r.capacity → p ≤ q → q < p + r.capacity → p ≡ q
    window p q e a b = elim (ℕ_discrete p q) [
      | yes d ↦ d
      | no d ↦ absurd (
          slots_apart r.capacity p 0 (q - p) (omega arith) (omega arith)
            (ap (λ n. n % r.capacity) (omega arith) ∙ e ∙ ap (λ n. n % r.capacity) (omega arith)))
    ]

    pub next_round : (p : ℕ) → (p + r.capacity) % r.capacity ≡ p % r.capacity
    next_round p = add-mod_right p r.capacity

    pub set_slot_self :
        (p q : ℕ) (s : Slot C) → q % r.capacity ≡ p % r.capacity → slot_at (set_slot r p s) q ≡ s
    set_slot_self p q s e =
        ap (λ i. get_or (set r.slots (bit_and p r.mask) s) i empty_slot)
          (index_mod q ∙ e ∙ sym (index_mod p))
        ∙ get_or-set_self r.slots (bit_and p r.mask) s empty_slot (rw (index_mod p) (index_lt p))

    pub set_slot_ne :
        (p q : ℕ) (s : Slot C)
        → q % r.capacity ≢ p % r.capacity
        → slot_at (set_slot r p s) q ≡ slot_at r q
    set_slot_ne p q s e =
        get_or-set_ne r.slots (bit_and p r.mask) (bit_and q r.mask) s empty_slot
          (λ d. e (sym (index_mod q) ∙ sym d ∙ index_mod p))

    pub set_slot-IsRing : (p : ℕ) (s : Slot C) → IsRing (set_slot r p s)
    set_slot-IsRing p s = record {
      exponent = h.exponent;
      power = h.power;
      exponent_pos = h.exponent_pos;
      mask_eq = h.mask_eq;
      width = length-set r.slots (bit_and p r.mask) s ∙ h.width;
    }
