-- ===== src/Runtime/Slots.antt =====
-- The arrays of `MAX_AGENTS`, `MAX_STAGES` and `MAX_FLOWS` slots of bootstrap/actor.c: a slot is
-- active or free, `used` counts the active ones, and ids are handed out in order, by an `int`
-- that wraps (the two's complement of its 32 bits stands here).
pub mod Invariant
pub mod Access
use guage.Prelude.{
  ℕ, ◌+◌, ◌-◌, ◌%◌, ◌^◌, Bool, true, false, not, ◌&&◌, Option, none, some, List, leb, ◌==◌,
  if◌then◌else◌, replicate, find, update_first,
}

pub record Slot {ℓ} (B : Type ℓ) : Type ℓ where
  pub id : ℕ
  pub active : Bool
  pub body : B

pub record Slots {ℓ} (B : Type ℓ) : Type ℓ where
  pub slots : List (Slot B)
  pub used : ℕ
  pub next_id : ℕ

-- `MAX_AGENTS`, `MAX_STAGES`, `MAX_FLOWS`
abbrev pub max_slots : ℕ
max_slots = 64

module _ {ℓ} {B : Type ℓ} where
  abbrev pub is_free : Slot B → Bool
  is_free s = not s.active

  abbrev pub has_id : ℕ → Slot B → Bool
  has_id i s = s.active && (s.id == i)

  -- The writes to a slot: taking it, changing its body, giving it up.
  abbrev pub take_slot : ℕ → B → Slot B → Slot B
  take_slot i b s = record { id = i; active = true; body = b }

  abbrev pub change : (B → B) → Slot B → Slot B
  change f s = record s { body = f s.body }

  abbrev pub give_up : (B → B) → Slot B → Slot B
  give_up c s = record s { active = false; body = c s.body }

  -- `for (...) if (active && id == i) return &slots[k];`
  abbrev pub lookup_slot : Slots B → ℕ → Option (Slot B)
  lookup_slot t i = find (has_id i) t.slots

  -- The loop that fills the first free slot, behind the test of the count. `none` for -1.
  unfoldable pub claim : Slots B → B → Option ℕ × Slots B
  claim t b = if leb max_slots t.used then (none, t) else elim (find is_free t.slots) [
    | none ↦ (none, t)
    | some s ↦ (
      some t.next_id,
      record {
        slots = update_first is_free (take_slot t.next_id b) t.slots;
        used = t.used + 1;
        next_id = (t.next_id + 1) % 2 ^ 32;
      },
    )
  ]

  -- A write through the pointer that a lookup returned.
  unfoldable pub modify : Slots B → ℕ → (B → B) → Slots B
  modify t i f = record t { slots = update_first (has_id i) (change f) t.slots }

  -- `active = false`, with the body cleared, and one slot less in use.
  unfoldable pub free : Slots B → ℕ → (B → B) → Slots B
  free t i clear = record t {
    slots = update_first (has_id i) (give_up clear) t.slots;
    used = t.used - 1;
  }

  -- The table as it is at the start, and after a reset.
  unfoldable pub fresh : B → Slots B
  fresh b = record {
    slots = replicate max_slots (record { id = 0; active = false; body = b });
    used = 0;
    next_id = 0;
  }
