-- ===== src/Runtime/Flow.antt =====
-- Flows of bootstrap/actor.c: slots with a source and at most 32 steps, which are only freed all
-- at once, and the registry of their names.
pub mod Steps
pub mod Names
mod Tests
use guage.Prelude.{
  ℕ, Bool, true, false, Option, none, some, List, [], ◌∷◌, ◌++◌, leb, if◌then◌else◌, length, init,
  Eq,
}
use guage.Runtime.Refs.{RefOp, retain, release}
use guage.Runtime.Registry.{Registry, Status, register, lookup, unregister_name, list, reset}
use guage.Runtime.Slots.{Slot, Slots, lookup_slot, claim, modify, fresh}

pub data FlowStepType : Type 0 where
  flow_map flow_filter flow_reduce flow_each : FlowStepType

pub record FlowStep {ℓ} (C : Type ℓ) : Type ℓ where
  pub kind : FlowStepType
  pub fn : Option C
  pub init : Option C

pub record Flow {ℓ} (C : Type ℓ) : Type ℓ where
  pub source : Option C
  pub steps : List (FlowStep C)

abbrev pub Flows {ℓ} : Type ℓ → Type ℓ
Flows C = Slots (Flow C)

-- The results 0, -1 and -2 of `flow_add_step`.
pub data Added : Type 0 where
  ok not_found full : Added

-- `MAX_FLOW_STEPS`
abbrev pub max_steps : ℕ
max_steps = 32

module _ {ℓ} {C : Type ℓ} where
  abbrev pub retain_cell : Option C → List (RefOp C)
  retain_cell none = []
  retain_cell (some c) = retain c ∷ []

  abbrev pub release_cell : Option C → List (RefOp C)
  release_cell none = []
  release_cell (some c) = release c ∷ []

  abbrev pub empty_flow : Flow C
  empty_flow = record { source = none; steps = [] }

  -- `none` for -1.
  unfoldable pub flow_create : Flows C → Option C → Option ℕ × Flows C × List (RefOp C)
  flow_create t source =
      let (r, t') = claim t (record { source = source; steps = [] }) in
      elim r [ none ↦ (none, t', []) | some i ↦ (some i, t', retain_cell source) ]

  unfoldable pub flow_lookup : Flows C → ℕ → Option (Slot (Flow C))
  flow_lookup t i = lookup_slot t i

  -- `f->steps[f->step_count++] = { type, fn, init }`
  abbrev pub add_step : FlowStep C → Flow C → Flow C
  add_step x f = record f { steps = f.steps ++ (x ∷ []) }

  unfoldable pub flow_add_step :
      Flows C → ℕ → FlowStepType → Option C → Option C → Added × Flows C × List (RefOp C)
  flow_add_step t i kind fn init = elim (lookup_slot t i) [
    | none ↦ (Added.not_found, t, [])
    | some f ↦ if leb max_steps (length f.body.steps) then (Added.full, t, []) else (
      Added.ok,
      modify t i (add_step (record { kind = kind; fn = fn; init = init })),
      retain_cell fn ++ retain_cell init,
    )
  ]

  unfoldable pub release_steps : List (FlowStep C) → List (RefOp C)
  release_steps [] = []
  release_steps (x ∷ xs) = (release_cell x.fn ++ release_cell x.init) ++ release_steps xs

  -- The loop of `flow_reset_all`.
  unfoldable pub release_flows : List (Slot (Flow C)) → List (RefOp C)
  unfolding release_steps
  release_flows [] = []
  release_flows (s ∷ ss) =
      let rest = release_flows ss in
      if s.active then (release_cell s.body.source ++ release_steps s.body.steps) ++ rest else rest

  unfoldable pub flow_reset_all : Flows C → Flows C × List (RefOp C)
  unfolding release_flows
  flow_reset_all t = (fresh empty_flow, release_flows t.slots)

  -- `flow_lookup(flow_id) != NULL`
  abbrev pub is_flow : Flows C → ℕ → Bool
  is_flow t i = elim (lookup_slot t i) [ none ↦ false | some f ↦ true ]

  -- `flow_registry_register`
  unfoldable pub flow_registry_register :
      {N : Type ℓ} ⦃e : Eq N⦄ → Flows C → Registry N → N → ℕ → Status × Registry N
  flow_registry_register t r n i = register (is_flow t) r n i

-- The other functions of the flow registry.
module _ {ℓ} {N : Type ℓ} ⦃e : Eq N⦄ where
  abbrev pub flow_registry_lookup : Registry N → N → Option ℕ
  flow_registry_lookup r n = lookup r n

  abbrev pub flow_registry_unregister_name : Registry N → N → Bool × Registry N
  flow_registry_unregister_name r n = unregister_name r n

  abbrev pub flow_registry_list : Registry N → List N
  flow_registry_list r = list r

  abbrev pub flow_registry_reset : Registry N → Registry N
  flow_registry_reset r = reset r
