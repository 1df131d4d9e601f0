-- ===== src/Runtime/Flow/Steps.antt =====
-- The steps of a flow.
use guage.Prelude.{
  ℕ, ◌<◌, ◌≡◌, refl, ◌≢◌, ◌↔◌, inl, inr, true, false, Option, none, some, List, [], ◌∷◌, ◌++◌,
  arith, leb, ◌==◌, if◌then◌else◌, Bool-cases, Option-cases, length,
}
use guage.Runtime.Slots.{Slot, lookup_slot, modify}
use guage.Runtime.Slots.Access.{lookup-modify}
use guage.Runtime.Flow.{
  FlowStepType, FlowStep, Flow, Flows, Added, ok, max_steps, retain_cell, flow_lookup, add_step,
  flow_add_step,
}

-- The steps of a flow in order, none for an id that is not in use.
abbrev pub steps_of {ℓ} : {C : Type ℓ} → Flows C → ℕ → List (FlowStep C)
steps_of t i = elim (flow_lookup t i) [ none ↦ [] | some f ↦ f.body.steps ]

module _ {ℓ} {C : Type ℓ} (t : Flows C) (i : ℕ) (kind : FlowStepType) (fn init : Option C) where
  pub add_absent :
      lookup_slot t i ≡ none → flow_add_step t i kind fn init ≡ (Added.not_found, t, [])
  unfolding flow_add_step
  add_absent h = rw (h, flow_add_step)

  pub add_full :
      (f : Slot (Flow C))
      → lookup_slot t i ≡ some f
      → leb max_steps (length f.body.steps) ≡ true
      → flow_add_step t i kind fn init ≡ (Added.full, t, [])
  unfolding flow_add_step
  add_full f h b = rw (h, flow_add_step) (rw b refl)

  pub add_ok :
      (f : Slot (Flow C))
      → lookup_slot t i ≡ some f
      → leb max_steps (length f.body.steps) ≡ false
      → flow_add_step t i kind fn init ≡ (
        Added.ok,
        modify t i (add_step (record { kind = kind; fn = fn; init = init })),
        retain_cell fn ++ retain_cell init,
      )
  unfolding flow_add_step
  add_ok f h b = rw (h, flow_add_step) (rw b refl)

  -- flow_add_step succeeds exactly when the flow exists and has fewer than 32 steps.
  pub add_step-ok_iff :
      ((flow_add_step t i kind fn init).0 ≡ Added.ok)
      ↔ ((flow_lookup t i ≢ none) × (length (steps_of t i) < max_steps))
  unfolding flow_lookup
  add_step-ok_iff = elim (Option-cases (lookup_slot t i)) [
    | inl h ↦ rw (add_absent h) (λ e. cc, λ q. absurd (q.0 h))
    | inr (f, h) ↦ elim (Bool-cases (leb max_steps (length f.body.steps))) [
      | inl b ↦ rw (add_full f h b, h) (λ e. cc, λ q. ground (arith, q.1))
      | inr b ↦ rw (add_ok f h b, h) ((λ e. (λ n. cc, ground arith)), λ q. refl)
    ]
  ]

  -- After flow_add_step that succeeds, the new step is the last of its flow and all other flows
  -- have the steps they had; after one that fails, all have.
  pub steps-add_step :
      (j : ℕ)
      → steps_of (flow_add_step t i kind fn init).1 j ≡ elim (flow_add_step t i kind fn init).0 [
        | ok ↦
            (if j == i
              then steps_of t i ++ (record { kind = kind; fn = fn; init = init } ∷ [])
              else steps_of t j)
        | _ ↦ steps_of t j
      ]
  unfolding flow_lookup
  steps-add_step j = elim (Option-cases (lookup_slot t i)) [
    | inl h ↦ rw (add_absent h) refl
    | inr (f, h) ↦ elim (Bool-cases (leb max_steps (length f.body.steps))) [
      | inl b ↦ rw (add_full f h b) refl
      | inr b ↦ rw (add_ok f h b) (
          ground (
            arith,
            lookup-modify t i j (add_step (record { kind = kind; fn = fn; init = init })),
            h,
          ))
    ]
  ]
