-- ===== src/Runtime/Ring.antt =====
-- The bounded queue of bootstrap/actor.c (mailboxes) and bootstrap/channel.c: a ring of slots that
-- carry sequence numbers, with one compare-and-swap to claim a position. Each atomic access is one
-- step of a call, so that calls of different threads interleave; accesses are in one order (the C
-- memory orders are not modelled). Positions are `uint64_t`, the count is an `int32_t`.
pub mod Invariant
pub mod Frame
pub mod Owners
pub mod Claims
pub mod Writes
pub mod Runs
pub mod Fifo
pub mod Solo
pub mod Moves
pub mod Queue
pub mod Tests
use guage.Prelude.{
  ℕ, zero, suc, ◌+◌, ◌-◌, ◌%◌, ◌^◌, bit_and, Bool, true, false, not, ◌&&◌, ◌||◌, Option, none, some,
  List, [], ◌∷◌, ◌++◌, leb, ◌==◌, if◌then◌else◌, get_or, set, count,
}

pub record Slot {ℓ} (C : Type ℓ) : Type ℓ where
  pub sequence : ℕ
  pub value : Option C

pub record Ring {ℓ} (C : Type ℓ) : Type ℓ where
  pub capacity : ℕ
  pub mask : ℕ
  pub enqueue_pos : ℕ
  pub dequeue_pos : ℕ
  pub count : ℕ
  pub slots : List (Slot C)

-- Where a call stands: before the access that the constructor names.
pub data Call {ℓ} (C : Type ℓ) : Type ℓ where
  idle : Call C
  send_load : (message : C) → Call C
  send_check : (message : C) (pos : ℕ) → Call C
  send_claim : (message : C) (pos : ℕ) → Call C
  send_write : (message : C) (pos : ℕ) → Call C
  send_publish : (pos : ℕ) → Call C
  send_count : Call C
  sent : Bool → Call C
  recv_test : Call C
  recv_load : Call C
  recv_check : (pos : ℕ) → Call C
  recv_claim : (pos : ℕ) → Call C
  recv_take : (pos : ℕ) → Call C
  recv_release : (pos : ℕ) (value : Option C) → Call C
  recv_count : (value : Option C) → Call C
  received : (value : Option C) → Call C

-- What a step contributes to the history of the queue.
pub data Note {ℓ} (C : Type ℓ) : Type ℓ where
  quiet : Note C
  accept : (message : C) → Note C
  deliver : (pos : ℕ) (value : Option C) → Note C

pub record Outcome {ℓ} (C : Type ℓ) : Type ℓ where
  pub ring : Ring C
  pub call : Call C
  pub note : Note C

abbrev pub u64 : ℕ
u64 = 2 ^ 64

abbrev pub i32 : ℕ
i32 = 2 ^ 32

-- The loop of `mailbox_init` that numbers the slots.
unfoldable pub fresh_slots {ℓ} : {C : Type ℓ} → ℕ → ℕ → List (Slot C)
fresh_slots zero i = []
fresh_slots (suc n) i = record { sequence = i; value = none } ∷ fresh_slots n (i + 1)

unfoldable pub mailbox_init {ℓ} : {C : Type ℓ} → ℕ → Ring C
unfolding fresh_slots
mailbox_init capacity = record {
  capacity = capacity;
  mask = capacity - 1;
  enqueue_pos = 0;
  dequeue_pos = 0;
  count = 0;
  slots = fresh_slots capacity 0;
}

-- `(int64_t)seq - (int64_t)pos`, as a word.
abbrev pub diff64 : ℕ → ℕ → ℕ
diff64 seq pos = (seq + u64 - pos) % u64

-- The three branches on the difference: zero, negative, positive.
abbrev pub by_diff {ℓ} : {A : Type ℓ} → ℕ → A → A → A → A
by_diff diff here behind ahead =
    if diff == 0 then here else if leb (2 ^ 63) diff then behind else ahead

abbrev pub empty_slot {ℓ} : {C : Type ℓ} → Slot C
empty_slot = record { sequence = 0; value = none }

module _ {ℓ} {C : Type ℓ} where
  -- `slots[pos & mask]`
  abbrev pub slot_at : Ring C → ℕ → Slot C
  slot_at r pos = get_or r.slots (bit_and pos r.mask) empty_slot

  abbrev pub set_slot : Ring C → ℕ → Slot C → Ring C
  set_slot r pos s = record r { slots = set r.slots (bit_and pos r.mask) s }

  abbrev pub still : Ring C → Call C → Outcome C
  still r c = record { ring = r; call = c; note = quiet }

  -- The next access of `actor_send`. `lost`: a weak compare-and-swap fails with no cause.
  unfoldable pub send_step : Bool → Ring C → Call C → Outcome C
  send_step lost r (send_load v) = still r (send_check v r.enqueue_pos)
  send_step lost r (send_check v pos) =
      still r (
        by_diff (diff64 (slot_at r pos).sequence pos) (send_claim v pos) (sent false) (send_load v))
  send_step lost r (send_claim v pos) =
      if not lost && (r.enqueue_pos == pos)
      then record {
        ring = record r { enqueue_pos = (pos + 1) % u64 };
        call = send_write v pos;
        note = accept v;
      }
      else still r (send_check v r.enqueue_pos)
  send_step lost r (send_write v pos) =
      still (set_slot r pos (record { sequence = (slot_at r pos).sequence; value = some v }))
        (send_publish pos)
  send_step lost r (send_publish pos) =
      still (set_slot r pos (record { sequence = (pos + 1) % u64; value = (slot_at r pos).value }))
        send_count
  send_step lost r send_count = still (record r { count = (r.count + 1) % i32 }) (sent true)
  send_step lost r c = still r c

  -- The next access of `actor_receive`.
  unfoldable pub recv_step : Bool → Ring C → Call C → Outcome C
  recv_step lost r recv_test =
      still r (if r.count == 0 || leb (2 ^ 31) r.count then received none else recv_load)
  recv_step lost r recv_load = still r (recv_check r.dequeue_pos)
  recv_step lost r (recv_check pos) = still r (
      by_diff (diff64 (slot_at r pos).sequence ((pos + 1) % u64)) (recv_claim pos) (received none)
        recv_load)
  recv_step lost r (recv_claim pos) =
      if not lost && (r.dequeue_pos == pos)
      then still (record r { dequeue_pos = (pos + 1) % u64 }) (recv_take pos)
      else still r (recv_check r.dequeue_pos)
  recv_step lost r (recv_take pos) = record {
    ring = set_slot r pos (record { sequence = (slot_at r pos).sequence; value = none });
    call = recv_release pos (slot_at r pos).value;
    note = deliver pos (slot_at r pos).value;
  }
  recv_step lost r (recv_release pos value) =
      still
        (set_slot r pos
          (record { sequence = (pos + r.capacity) % u64; value = (slot_at r pos).value }))
        (recv_count value)
  recv_step lost r (recv_count value) =
      still (record r { count = (r.count + (i32 - 1)) % i32 }) (received value)
  recv_step lost r c = still r c

  abbrev pub is_receive : Call C → Bool
  is_receive recv_test = true
  is_receive recv_load = true
  is_receive (recv_check pos) = true
  is_receive (recv_claim pos) = true
  is_receive (recv_take pos) = true
  is_receive (recv_release pos value) = true
  is_receive (recv_count value) = true
  is_receive c = false

  abbrev pub step : Bool → Ring C → Call C → Outcome C
  step lost r c = if is_receive c then recv_step lost r c else send_step lost r c

module _ {ℓ} {C : Type ℓ} where
  abbrev pub has_returned : Call C → Bool
  has_returned (sent b) = true
  has_returned (received value) = true
  has_returned c = false

  -- A call on a ring that no other thread uses, by steps. `none`: it has not returned.
  unfoldable pub solo : ℕ → Ring C → Call C → Option (Ring C × Call C)
  unfolding send_step recv_step
  solo zero r c = none
  solo (suc steps) r c =
      let o = step false r c in
      let rest = solo steps o.ring o.call in if has_returned c then some (r, c) else rest

-- The threads that share a ring, each with the call it is in, and the history: the messages in the
-- order in which positions were claimed for them, and what was taken, with its position.
pub record Delivery {ℓ} (C : Type ℓ) : Type ℓ where
  pub at : ℕ
  pub item : Option C

pub record World {ℓ} (C : Type ℓ) : Type ℓ where
  pub ring : Ring C
  pub calls : ℕ → Call C
  pub accepted : List C
  pub delivered : List (Delivery C)

-- What the scheduler of the machine picks: a thread goes on, or it begins a call.
pub data Event {ℓ} (C : Type ℓ) : Type ℓ where
  go : (thread : ℕ) (lost : Bool) → Event C
  begin_send : (thread : ℕ) (message : C) → Event C
  begin_receive : (thread : ℕ) (tested : Bool) → Event C

module _ {ℓ} {C : Type ℓ} where
  abbrev pub note_accepted : Note C → List C → List C
  note_accepted quiet acc = acc
  note_accepted (accept message) acc = acc ++ (message ∷ [])
  note_accepted (deliver pos value) acc = acc

  abbrev pub note_delivered : Note C → List (Delivery C) → List (Delivery C)
  note_delivered quiet done = done
  note_delivered (accept message) done = done
  note_delivered (deliver pos value) done = record { at = pos; item = value } ∷ done

  abbrev pub after : World C → ℕ → Outcome C → World C
  after w t o = record {
    ring = o.ring;
    calls = λ u. if u == t then o.call else w.calls u;
    accepted = note_accepted o.note w.accepted;
    delivered = note_delivered o.note w.delivered;
  }

  -- A thread begins a call only when its last one has returned.
  abbrev pub begin : Call C → Call C → Call C
  begin idle c = c
  begin (sent b) c = c
  begin (received value) c = c
  begin running c = running

  abbrev pub happen : World C → Event C → World C
  happen w (go t lost) = after w t (step lost w.ring (w.calls t))
  happen w (begin_send t message) = after w t (still w.ring (begin (w.calls t) (send_load message)))
  happen w (begin_receive t tested) =
      after w t (still w.ring (begin (w.calls t) (if tested then recv_test else recv_load)))

  unfoldable pub run : World C → List (Event C) → World C
  unfolding send_step recv_step
  run w [] = w
  run w (e ∷ es) = run (happen w e) es

  abbrev pub quiet_world : Ring C → World C
  quiet_world r = record { ring = r; calls = λ t. idle; accepted = []; delivered = [] }
