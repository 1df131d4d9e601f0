-- ===== src/Runtime/Agent.antt =====
-- Agents of bootstrap/actor.c: one cell of state in each slot, NULL in a free one. Operations
-- return the retains and releases of cells beside the slots.
pub mod Laws
pub mod Ownership
mod Tests
use guage.Prelude.{ℕ, Bool, true, false, Option, none, some, List, [], ◌∷◌, ◌++◌, if◌then◌else◌}
use guage.Runtime.Refs.{RefOp, retain, release}
use guage.Runtime.Slots.{Slot, Slots, lookup_slot, claim, modify, free, fresh}

abbrev pub Agents {ℓ} : Type ℓ → Type ℓ
Agents C = Slots (Option C)

abbrev pub release_opt {ℓ} : {C : Type ℓ} → Option C → List (RefOp C)
release_opt none = []
release_opt (some c) = release c ∷ []

module _ {ℓ} {C : Type ℓ} where
  unfoldable pub agent_start : Agents C → C → Option ℕ × Agents C × List (RefOp C)
  agent_start t c =
      let (r, t') = claim t (some c) in
      elim r [ none ↦ (none, t', []) | some i ↦ (some i, t', retain c ∷ []) ]

  -- The state pointer, NULL for an id that is not active.
  unfoldable pub agent_get_state : Agents C → ℕ → Option C
  agent_get_state t i = elim (lookup_slot t i) [ none ↦ none | some s ↦ s.body ]

  -- The flag is false for -1. The new state is retained before the old one is released.
  unfoldable pub agent_set_state : Agents C → ℕ → C → Bool × Agents C × List (RefOp C)
  agent_set_state t i c = elim (lookup_slot t i) [
    | none ↦ (false, t, [])
    | some s ↦ (true, modify t i (λ b. some c), retain c ∷ release_opt s.body)
  ]

  unfoldable pub agent_stop : Agents C → ℕ → Bool × Agents C × List (RefOp C)
  agent_stop t i = elim (lookup_slot t i) [
    | none ↦ (false, t, [])
    | some s ↦ (true, free t i (λ b. none), release_opt s.body)
  ]

  -- The loop of `agent_reset_all`: the active slots with a state release it.
  unfoldable pub release_states : List (Slot (Option C)) → List (RefOp C)
  release_states [] = []
  release_states (s ∷ ss) =
      let rest = release_states ss in if s.active then release_opt s.body ++ rest else rest

  unfoldable pub agent_reset_all : Agents C → Agents C × List (RefOp C)
  unfolding release_states
  agent_reset_all t = (fresh none, release_states t.slots)
