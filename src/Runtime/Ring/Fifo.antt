-- ===== src/Runtime/Ring/Fifo.antt =====
-- The queue from its creation on, under any interleaving.
use guage.Prelude.{
  get_elem?-lt, ℕ, zero, suc, ◌+◌, ◌%◌, ◌^◌, ◌≤◌, ◌<◌, ◌≡◌, refl, ap, ◌∙◌, inl, true, false, none,
  some, List, [], ◌∷◌, arith, length, get_elem?, get_or, length-append, count, All,
}
use native.Mathlib.Nat.{mod-lt, mod-eq_of_lt, mod-mod}
use guage.Prelude.Bits.{bit_and_mask, pow_pos}
use guage.Runtime.Ring.{
  Slot, empty_slot, Call, idle, send_load, sent, recv_test, recv_load, received, Delivery, World,
  Outcome, Note, quiet, accept, deliver, note_accepted, slot_at, after, still, begin, happen, run,
  Event, go, begin_send, begin_receive, fresh_slots, mailbox_init, quiet_world,
}
use guage.Runtime.Ring.Invariant.{owned, at_pos, IsNear, IsSound, Valid}
use guage.Runtime.Ring.Frame.{Advances, after-Valid}
use guage.Runtime.Ring.Owners.{local-Advances}
use guage.Runtime.Ring.Solo.{Represents}
use guage.Runtime.Ring.Runs.{step-Advances}

length-fresh_slots {ℓ} : (D : Type ℓ) (n i : ℕ) → length (fresh_slots {C = D} n i) ≡ n
unfolding fresh_slots
length-fresh_slots D zero i = refl
length-fresh_slots D (suc n) i = ap suc (length-fresh_slots D n (i + 1))

module _ {ℓ} {C : Type ℓ} where
  begin-Advances :
      {w : World C}
      → Valid w
      → (t : ℕ) (c : Call C) → owned c ≡ none
      → IsNear w.ring c
      → IsSound w.ring w.accepted w.delivered c
      → Advances w t (still w.ring (begin (w.calls t) c))
  begin-Advances {w = w} v t c o near sound = by_call (w.calls t) refl
    where
      keep : (b : Call C) → w.calls t ≡ b → Advances w t (still w.ring b)
      keep b e =
          let h = v.shape in
          record {
            grows = record {
              shape = h;
              same_capacity = refl;
              seq_up = λ p. omega arith;
              enqueue_up = omega arith;
              dequeue_up = omega arith;
              kept = λ p q. refl;
            };
            spared = λ u p d q. (refl, refl);
            behind = v.behind;
            room = v.room;
            claimed = v.claimed;
            slots = v.slots;
            near = rw e at (v.near t);
            sound = rw e at (v.sound t);
            apart = λ u p q d x y. v.apart t u p q d (ap owned e ∙ x) y;
            fifo = v.fifo;
            once = v.once;
          }

      start : Advances w t (still w.ring c)
      start = local-Advances w t w.ring.count c v near sound o

      by_call : (b : Call C) → w.calls t ≡ b → Advances w t (still w.ring (begin b c))
      by_call idle e = start
      by_call (send_load x) e = keep _ e
      by_call (Call.send_check x p) e = keep _ e
      by_call (Call.send_claim x p) e = keep _ e
      by_call (Call.send_write x p) e = keep _ e
      by_call (Call.send_publish p) e = keep _ e
      by_call Call.send_count e = keep _ e
      by_call (sent b) e = start
      by_call recv_test e = keep _ e
      by_call recv_load e = keep _ e
      by_call (Call.recv_check p) e = keep _ e
      by_call (Call.recv_claim p) e = keep _ e
      by_call (Call.recv_take p) e = keep _ e
      by_call (Call.recv_release p x) e = keep _ e
      by_call (Call.recv_count x) e = keep _ e
      by_call (received x) e = start

  -- The next world is valid, and one position was claimed at most.
  record Next (w w' : World C) : Type ℓ where
    pub valid : Valid w'
    pub same_capacity : w'.ring.capacity ≡ w.ring.capacity
    pub enqueue_le : w'.ring.enqueue_pos ≤ w.ring.enqueue_pos + 1

  accepted_le : (n : Note C) (acc : List C) → length (note_accepted n acc) ≤ length acc + 1
  accepted_le quiet acc = omega arith
  accepted_le (accept x) acc = omega (arith, length-append acc (x ∷ []))
  accepted_le (deliver p x) acc = omega arith

  after-Next :
      (w : World C) (t : ℕ) (o : Outcome C) → Valid w → Advances w t o → Next w (after w t o)
  after-Next w t o v a = record {
    valid = after-Valid w t o v a;
    same_capacity = a.grows.same_capacity;
    enqueue_le = omega (arith, a.claimed, v.claimed, accepted_le o.note w.accepted);
  }

  happen-Next :
      (w : World C) (e : Event C)
      → Valid w
      → w.ring.enqueue_pos + w.ring.capacity < 2 ^ 63
      → Next w (happen w e)
  happen-Next w (go t lost) v small =
      after-Next w t _ v (step-Advances v t small lost (w.calls t) refl)
  happen-Next w (begin_send t message) v small =
      after-Next w t _ v (begin-Advances v t (send_load message) refl tt tt)
  happen-Next w (begin_receive t true) v small =
      after-Next w t _ v (begin-Advances v t recv_test refl tt tt)
  happen-Next w (begin_receive t false) v small =
      after-Next w t _ v (begin-Advances v t recv_load refl tt tt)

  pub run-Valid :
      (w : World C) (es : List (Event C))
      → Valid w
      → w.ring.enqueue_pos + length es + w.ring.capacity < 2 ^ 63
      → Valid (run w es) × ((run w es).ring.capacity ≡ w.ring.capacity)
  unfolding run
  run-Valid w [] v small = (v, refl)
  run-Valid w (e ∷ es) v small =
      let n = happen-Next w e v (omega arith) in
      let (end, same) =
        run-Valid (happen w e) es n.valid (omega (arith, n.same_capacity, n.enqueue_le)) in
      (end, same ∙ n.same_capacity)

  get_or-fresh_slots :
      (n i j : ℕ)
      → j < n
      → get_or (fresh_slots {C = C} n i) j empty_slot ≡ record { sequence = i + j; value = none }
  unfolding fresh_slots
  get_or-fresh_slots zero i j h = absurd (omega arith)
  get_or-fresh_slots (suc n) i zero h =
      ap (λ k. record { sequence = k; value = none }) (omega arith)
  get_or-fresh_slots (suc n) i (suc j) h =
      get_or-fresh_slots n (i + 1) j (omega arith)
      ∙ ap (λ k. record { sequence = k; value = none }) (omega arith)

  pub init-Valid : (k : ℕ) → 0 < k → Valid (quiet_world {C = C} (mailbox_init (2 ^ k)))
  unfolding mailbox_init
  init-Valid k h =
      let lt : (i : ℕ) → i % 2 ^ k < 2 ^ k = λ i. mod-lt i (pow_pos k) in
      let slot_eq : (i : ℕ)
          → slot_at (mailbox_init {C = C} (2 ^ k)) i
            ≡ record { sequence = i % 2 ^ k; value = none } =
        λ i.
          ap (λ j. get_or (fresh_slots {C = C} (2 ^ k) 0) j empty_slot) (bit_and_mask k i)
          ∙ get_or-fresh_slots (2 ^ k) 0 (i % 2 ^ k) (lt i)
          ∙ ap (λ j. record { sequence = j; value = none }) (omega arith) in
      record {
        shape = record {
          exponent = k;
          power = refl;
          exponent_pos = h;
          mask_eq = refl;
          width = length-fresh_slots C (2 ^ k) 0;
        };
        behind = omega arith;
        room = omega arith;
        claimed = refl;
        slots = λ i. record {
          pos = i % 2 ^ k;
          same = mod-mod i (2 ^ k);
          state = inl (ap Slot.sequence (slot_eq i), omega (arith, lt i));
        };
        near = λ t. tt;
        sound = λ t. tt;
        apart = λ t u p q d x y. absurd cc;
        fifo = tt;
        once = λ p. omega arith;
      }

  -- The history of a queue of `n` slots: what is taken was accepted at that position, no position
  -- is taken twice, and at most `n` messages are between.
  pub record IsFifo (n : ℕ) (w : World C) : Type ℓ where
    pub authentic :
        All
          (λ d.
            (d.at < w.ring.dequeue_pos)
            × ((x : C) × (d.item ≡ some x) × (get_elem? w.accepted d.at ≡ some x)))
          w.delivered
    pub once : (p : ℕ) → count (at_pos p) w.delivered ≤ 1
    pub bounded : length w.accepted ≤ w.ring.dequeue_pos + n
    pub behind : w.ring.dequeue_pos ≤ length w.accepted

  authentic :
      (w : World C)
      → Valid w
      → (ds : List (Delivery C))
      → All (λ d. (d.at < w.ring.dequeue_pos) × (d.item ≡ get_elem? w.accepted d.at)) ds
      → All
          (λ d.
            (d.at < w.ring.dequeue_pos)
            × ((x : C) × (d.item ≡ some x) × (get_elem? w.accepted d.at ≡ some x)))
          ds
  authentic w v [] a = tt
  authentic w v (d ∷ ds) a =
      let lt : d.at < w.ring.dequeue_pos = a.0.0 in
      let (x, e) = get_elem?-lt w.accepted d.at (omega (arith, v.behind, v.claimed)) in
      ((lt, (x, a.0.1 ∙ e, e)), authentic w v ds a.1)

  -- Any number of threads send and receive on a new ring of 2 ^ k slots, k at least 1, and their
  -- atomic accesses interleave in any order, with compare-and-swaps that may fail for no cause;
  -- after fewer than 2 ^ 63 - 2 ^ k such events every value taken is the one accepted at its
  -- position, no position is taken twice, and at most 2 ^ k accepted positions are not yet claimed
  -- by a receiver.
  pub run-IsFifo :
      (k : ℕ) (es : List (Event C))
      → 0 < k
      → length es + 2 ^ k < 2 ^ 63
      → IsFifo (2 ^ k) (run (quiet_world (mailbox_init (2 ^ k))) es)
  unfolding mailbox_init
  run-IsFifo k es h small =
      let w = run (quiet_world (mailbox_init (2 ^ k))) es in
      let (v, same) = run-Valid _ es (init-Valid k h) (omega arith) in
      record {
        authentic = authentic w v w.delivered v.fifo;
        once = v.once;
        bounded = omega (arith, v.room, v.claimed, same);
        behind = omega (arith, v.behind, v.claimed);
      }

  -- A new ring is an empty queue.
  pub init-Represents : (k : ℕ) → 0 < k → Represents (mailbox_init {C = C} (2 ^ k)) []
  unfolding mailbox_init
  init-Represents k h =
      let v = init-Valid k h in
      record {
        shape = v.shape;
        span = refl;
        fits = omega arith;
        full = λ j lt. absurd (omega arith);
        free = λ j ge lt.
            ap (λ i. (get_or (fresh_slots {C = C} (2 ^ k) 0) i empty_slot).sequence)
              (bit_and_mask k (0 + j) ∙ ap (λ i. i % 2 ^ k) (omega arith))
            ∙ ap Slot.sequence (get_or-fresh_slots (2 ^ k) 0 (j % 2 ^ k) (mod-lt j (pow_pos k)))
            ∙ in_round j lt;
        counted = refl;
      }
    where
      in_round : (j : ℕ) → j < 2 ^ k → 0 + j % 2 ^ k ≡ 0 + j
      in_round j lt = let e : j % 2 ^ k ≡ j = mod-eq_of_lt lt in omega (arith, e)
