-- ===== src/Runtime/Ring/Writes.antt =====
-- The steps that write a slot, which the thread has claimed.
use guage.Prelude.{
  ℕ, ◌+◌, ◌%◌, ◌≤◌, ℕ_discrete, ◌≡◌, refl, sym, ap, ◌∙◌, ◌≢◌, inl, inr, Option, none, some, arith,
  count,
}
use guage.Runtime.Ring.{
  Slot, Call, send_write, send_publish, send_count, recv_take, recv_release, recv_count, World,
  deliver, slot_at, set_slot, still,
}
use guage.Runtime.Ring.Invariant.{
  seq_at, value_at, owned, at_pos, IsNear, IsSound, SlotHolds, Valid, same_slot, set_slot_self,
  set_slot_ne, set_slot-IsRing, next_round, capacity_pos,
}
use guage.Runtime.Ring.Frame.{Grows, Advances}

module _ {ℓ} {C : Type ℓ} {w : World C} (v : Valid w) (t p : ℕ) (owner : owned (w.calls t) ≡ some p)
    (s : Slot C) where
  seq_write :
      seq_at w.ring p ≤ s.sequence → (q : ℕ) → seq_at w.ring q ≤ seq_at (set_slot w.ring p s) q
  seq_write up q = elim (ℕ_discrete (q % w.ring.capacity) (p % w.ring.capacity)) [
    | yes e ↦ omega (
      arith,
      ap Slot.sequence (set_slot_self v.shape p q s e),
      ap Slot.sequence (same_slot v.shape q p e),
    )
    | no d ↦ omega (arith, ap Slot.sequence (set_slot_ne v.shape p q s d))
  ]

  write-Grows :
      seq_at w.ring p ≤ s.sequence → Grows w.ring (set_slot w.ring p s) w.accepted w.accepted
  write-Grows up = record {
    shape = set_slot-IsRing v.shape p s;
    same_capacity = refl;
    seq_up = seq_write up;
    enqueue_up = omega arith;
    dequeue_up = omega arith;
    kept = λ q k. refl;
  }

  write-slots :
      SlotHolds (set_slot w.ring p s) w.accepted p
      → (i : ℕ) → SlotHolds (set_slot w.ring p s) w.accepted i
  write-slots here i = elim (ℕ_discrete (i % w.ring.capacity) (p % w.ring.capacity)) [
    | yes e ↦
        let same = same_slot (set_slot-IsRing v.shape p s) i p e in
        record {
          pos = here.pos;
          same = here.same ∙ sym e;
          state = elim here.state [
            | inl f ↦ inl (ap Slot.sequence same ∙ f.0, f.1)
            | inr f ↦ inr (ap Slot.sequence same ∙ f.0, f.1, λ k. ap Slot.value same ∙ f.2 k)
          ];
        }
    | no d ↦
        let same = set_slot_ne v.shape p i s d in
        let there = v.slots i in
        record {
          pos = there.pos;
          same = there.same;
          state = elim there.state [
            | inl f ↦ inl (ap Slot.sequence same ∙ f.0, f.1)
            | inr f ↦ inr (ap Slot.sequence same ∙ f.0, f.1, λ k. ap Slot.value same ∙ f.2 k)
          ];
        }
  ]

  write-spared :
      (u q : ℕ)
      → t ≢ u
      → owned (w.calls u) ≡ some q
      → slot_at (set_slot w.ring p s) q ≡ slot_at w.ring q
  write-spared u q d o = set_slot_ne v.shape p q s (λ z. v.apart t u p q d owner o (sym z))

  write-Advances :
      (c : Call C)
      → seq_at w.ring p ≤ s.sequence
      → SlotHolds (set_slot w.ring p s) w.accepted p
      → IsNear (set_slot w.ring p s) c
      → IsSound (set_slot w.ring p s) w.accepted w.delivered c
      → ((q : ℕ) → owned c ≡ some q → q ≡ p)
      → Advances w t (still (set_slot w.ring p s) c)
  write-Advances c up here near sound own = record {
    grows = write-Grows up;
    spared = λ u q d o. (write-spared u q d o, refl);
    behind = v.behind;
    room = v.room;
    claimed = v.claimed;
    slots = write-slots here;
    near = near;
    sound = sound;
    apart = λ u q q' d o o' z.
        v.apart t u p q' d owner o' (ap (λ k. k % w.ring.capacity) (sym (own q o)) ∙ z);
    fifo = v.fifo;
    once = v.once;
  }

  here_slot : slot_at (set_slot w.ring p s) p ≡ s
  here_slot = set_slot_self v.shape p p s refl

module _ {ℓ} {C : Type ℓ} {w : World C} (v : Valid w) (t p : ℕ) where
  pub send_write-Advances :
      (message : C)
      → w.calls t ≡ send_write message p
      → Advances w t (
          still
            (set_slot w.ring p (record { sequence = seq_at w.ring p; value = some message }))
            (send_publish p))
  send_write-Advances message c =
      let s : Slot C = record { sequence = seq_at w.ring p; value = some message } in
      let k : IsSound w.ring w.accepted w.delivered (send_write message p) = rw c at (v.sound t) in
      let o : owned (w.calls t) ≡ some p = ap owned c in
      let e = here_slot v t p o s in
      write-Advances v t p o s (send_publish p) (omega arith)
        (record {
          pos = p;
          same = refl;
          state = inl (ap Slot.sequence e ∙ k.1, omega (arith, k.0, v.room));
        })
        tt (k.0, ap Slot.sequence e ∙ k.1, ap Slot.value e ∙ sym k.2) (λ q z. cc)

  pub send_publish-Advances :
      w.calls t ≡ send_publish p
      → Advances w t (
          still
            (set_slot w.ring p (record { sequence = p + 1; value = value_at w.ring p }))
            send_count)
  send_publish-Advances c =
      let s : Slot C = record { sequence = p + 1; value = value_at w.ring p } in
      let k : IsSound w.ring w.accepted w.delivered (send_publish p) = rw c at (v.sound t) in
      let o : owned (w.calls t) ≡ some p = ap owned c in
      let e = here_slot v t p o s in
      write-Advances v t p o s send_count (omega (arith, k.1))
        (record {
          pos = p;
          same = refl;
          state = inr (ap Slot.sequence e, k.0, λ q. ap Slot.value e ∙ k.2);
        })
        tt tt (λ q z. cc)

  pub recv_release-Advances :
      (value : Option C)
      → w.calls t ≡ recv_release p value
      → Advances w t (
          still
            (set_slot w.ring p
              (record { sequence = p + w.ring.capacity; value = value_at w.ring p }))
            (recv_count value))
  recv_release-Advances value c =
      let s : Slot C = record { sequence = p + w.ring.capacity; value = value_at w.ring p } in
      let k : IsSound w.ring w.accepted w.delivered (recv_release p value) = rw c at (v.sound t) in
      let o : owned (w.calls t) ≡ some p = ap owned c in
      let e = here_slot v t p o s in
      write-Advances v t p o s (recv_count value) (omega (arith, k.1, capacity_pos v.shape))
        (record {
          pos = p + w.ring.capacity;
          same = next_round v.shape p;
          state = inl (ap Slot.sequence e, omega (arith, k.0));
        })
        tt tt (λ q z. cc)

  pub recv_take-Advances :
      w.calls t ≡ recv_take p
      → Advances w t (record {
        ring = set_slot w.ring p (record { sequence = seq_at w.ring p; value = none });
        call = recv_release p (value_at w.ring p);
        note = deliver p (value_at w.ring p);
      })
  recv_take-Advances c =
      let s : Slot C = record { sequence = seq_at w.ring p; value = none } in
      let k : IsSound w.ring w.accepted w.delivered (recv_take p) = rw c at (v.sound t) in
      let o : owned (w.calls t) ≡ some p = ap owned c in
      let e = here_slot v t p o s in
      record {
        grows = write-Grows v t p o s (omega arith);
        spared = λ u q d z. (
          write-spared v t p o s u q d z,
          let ne : p ≢ q = λ x. v.apart t u p q d o z (ap (λ n. n % w.ring.capacity) x) in
              ground arith,
        );
        behind = v.behind;
        room = v.room;
        claimed = v.claimed;
        slots = write-slots v t p o s (record {
          pos = p;
          same = refl;
          state = inr (
            ap Slot.sequence e ∙ k.1,
            omega (arith, k.0, v.behind),
            λ x. absurd (omega (arith, k.0)),
          );
        });
        near = tt;
        sound = (k.0, ap Slot.sequence e ∙ k.1, ap Slot.value e);
        apart = λ u q q' d z z' x.
            let a : p ≡ q = cc in v.apart t u p q' d o z' (ap (λ n. n % w.ring.capacity) a ∙ x);
        fifo = ((k.0, k.2), v.fifo);
        once = λ q. elim (ℕ_discrete p q) [
          | yes d ↦ let zero_here : count (at_pos q) w.delivered ≡ 0 = rw d at k.3 in ground arith
          | no d ↦ ground (arith, v.once q)
        ];
      }
