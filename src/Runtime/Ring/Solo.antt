-- ===== src/Runtime/Ring/Solo.antt =====
-- One thread alone: the ring is a bounded queue.
use guage.Prelude.{
  ℕ, suc, ◌+◌, ◌-◌, ◌%◌, ◌^◌, ◌≤◌, ◌<◌, ◌≡◌, refl, true, false, none, some, List, arith, leb, ◌==◌,
  length, get_elem?,
}
use guage.Runtime.Ring.{
  Ring, send_load, sent, recv_load, received, set_slot, send_step, recv_step, solo, diff64, u64,
  i32,
}
use guage.Runtime.Ring.Invariant.{seq_at, value_at, IsRing}

module _ {ℓ} {C : Type ℓ} where
  -- The ring holds the messages of `q`, oldest first, and no call is under way.
  pub record Represents (r : Ring C) (q : List C) : Type ℓ where
    pub shape : IsRing r
    pub span : r.enqueue_pos ≡ r.dequeue_pos + length q
    pub fits : length q ≤ r.capacity
    pub full :
        (j : ℕ)
        → j < length q
        → (seq_at r (r.dequeue_pos + j) ≡ r.dequeue_pos + j + 1)
          × (value_at r (r.dequeue_pos + j) ≡ get_elem? q j)
    pub free :
        (j : ℕ) → length q ≤ j → j < r.capacity → seq_at r (r.dequeue_pos + j) ≡ r.dequeue_pos + j
    pub counted : r.count ≡ length q

  -- The ring after a send: three writes, and the count.
  unfoldable pub ring_sent : Ring C → C → Ring C
  ring_sent r v =
      let p = r.enqueue_pos in
      let r₁ =
        set_slot (record r { enqueue_pos = p + 1 }) p
          (record { sequence = seq_at r p; value = some v }) in
      let r₂ = set_slot r₁ p (record { sequence = p + 1; value = value_at r₁ p }) in
      record r₂ { count = (r.count + 1) % i32 }

  unfoldable pub ring_received : Ring C → Ring C
  ring_received r =
      let p = r.dequeue_pos in
      let r₁ =
        set_slot (record r { dequeue_pos = p + 1 }) p
          (record { sequence = seq_at r p; value = none }) in
      let r₂ = set_slot r₁ p (record { sequence = p + r.capacity; value = value_at r₁ p }) in
      record r₂ { count = (r.count + (i32 - 1)) % i32 }

  pub send_free :
      (n : ℕ) (r : Ring C) (v : C)
      → r.enqueue_pos + r.capacity < 2 ^ 63
      → seq_at r r.enqueue_pos ≡ r.enqueue_pos
      → solo (suc (suc (suc (suc (suc (suc (suc n))))))) r (send_load v)
        ≡ some (ring_sent r v, sent true)
  unfolding solo send_step recv_step ring_sent
  send_free n r v small e =
      let here : (diff64 (seq_at r r.enqueue_pos) r.enqueue_pos == 0) ≡ true = ground arith in
      let won : (r.enqueue_pos == r.enqueue_pos) ≡ true = ground arith in
      let word : (r.enqueue_pos + 1) % u64 ≡ r.enqueue_pos + 1 = omega arith in
      rw here (rw won (rw word refl))

  pub send_blocked :
      (n : ℕ) (r : Ring C) (v : C)
      → r.enqueue_pos < 2 ^ 63
      → r.enqueue_pos < seq_at r r.enqueue_pos + 2 ^ 63
      → seq_at r r.enqueue_pos < r.enqueue_pos
      → solo (suc (suc (suc n))) r (send_load v) ≡ some (r, sent false)
  unfolding solo send_step recv_step
  send_blocked n r v small near e =
      let d : (diff64 (seq_at r r.enqueue_pos) r.enqueue_pos == 0) ≡ false = ground arith in
      let behind : leb (2 ^ 63) (diff64 (seq_at r r.enqueue_pos) r.enqueue_pos) ≡ true =
        ground arith in
      rw d (rw behind refl)

  pub receive_full :
      (n : ℕ) (r : Ring C)
      → r.dequeue_pos + r.capacity < 2 ^ 63
      → 0 < r.capacity
      → seq_at r r.dequeue_pos ≡ r.dequeue_pos + 1
      → solo (suc (suc (suc (suc (suc (suc (suc n))))))) r recv_load
        ≡ some (ring_received r, received (value_at r r.dequeue_pos))
  unfolding solo send_step recv_step ring_received
  receive_full n r small pos e =
      let word : (r.dequeue_pos + 1) % u64 ≡ r.dequeue_pos + 1 = omega arith in
      let here : (diff64 (seq_at r r.dequeue_pos) (r.dequeue_pos + 1) == 0) ≡ true = ground arith in
      let won : (r.dequeue_pos == r.dequeue_pos) ≡ true = ground arith in
      let round : (r.dequeue_pos + r.capacity) % u64 ≡ r.dequeue_pos + r.capacity = omega arith in
      rw word (rw here (rw won (rw round (rw word refl))))

  pub receive_blocked :
      (n : ℕ) (r : Ring C)
      → r.dequeue_pos + 1 < 2 ^ 63
      → seq_at r r.dequeue_pos ≡ r.dequeue_pos
      → solo (suc (suc (suc n))) r recv_load ≡ some (r, received none)
  unfolding solo send_step recv_step
  receive_blocked n r small e =
      let word : (r.dequeue_pos + 1) % u64 ≡ r.dequeue_pos + 1 = omega arith in
      let d : (diff64 (seq_at r r.dequeue_pos) (r.dequeue_pos + 1) == 0) ≡ false = ground arith in
      let behind : leb (2 ^ 63) (diff64 (seq_at r r.dequeue_pos) (r.dequeue_pos + 1)) ≡ true =
        ground arith in
      rw word (rw d (rw behind refl))
