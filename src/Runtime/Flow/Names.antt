-- ===== src/Runtime/Flow/Names.antt =====
-- Flows and the registry of their names, in whole runs of operations.
use guage.Prelude.{
  ℕ, ◌+◌, ◌^◌, ◌≤◌, ◌<◌, dec_lt, ◌≡◌, ap, inl, inr, true, Option, List, [], ◌∷◌, arith, leb, ◌==◌,
  Bool-cases, Option-cases, length, find, init, All, All-append, All-remove_swap, Eq,
}
use guage.Runtime.Registry.{Entry, Registry, named, unregister_name}
use guage.Runtime.Registry.Unique.{register-cases}
use guage.Runtime.Slots.{max_slots, lookup_slot, claim, modify}
use guage.Runtime.Slots.Invariant.{
  IsValid, valid-IsCounted, claim_lem, claimed, claim-IsValid, modify-IsValid, claim_full,
}
use guage.Runtime.Slots.Access.{lookup-claim, lookup-modify}
use guage.Runtime.Flow.{
  FlowStepType, FlowStep, Flow, Flows, max_steps, add_step, flow_create, flow_add_step, is_flow,
  flow_registry_register, flow_registry_unregister_name,
}
use guage.Runtime.Flow.Steps.{add_absent, add_full, add_ok}

pub data Op {ℓ} (N C : Type ℓ) : Type ℓ where
  create : Option C → Op N C
  add : ℕ → FlowStepType → Option C → Option C → Op N C
  register_as : N → ℕ → Op N C
  unregister : N → Op N C

module _ {ℓ} {C : Type ℓ} where
  abbrev new_flow : Option C → Flow C
  new_flow s = record { source = s; steps = [] }

  create_lem : (t : Flows C) (s : Option C) → (flow_create t s).1 ≡ (claim t (new_flow s)).1
  unfolding flow_create
  create_lem t s = ground arith

  create-live :
      (t : Flows C) (s : Option C)
      → IsValid t
      → (i : ℕ) → is_flow t i ≡ true
      → is_flow (claim t (new_flow s)).1 i ≡ true
  create-live t s v i h = elim (dec_lt t.used max_slots) [
    | yes q ↦ rw (lookup-claim t (new_flow s) i v q, is_flow) (ground arith)
    | no q ↦ rw (claim_full t (new_flow s) (omega arith)) h
  ]

  modify-live :
      (t : Flows C) (j : ℕ) (f : Flow C → Flow C) (i : ℕ)
      → is_flow t i ≡ true
      → is_flow (modify t j f) i ≡ true
  modify-live t j f i h = elim (Bool-cases (i == j)) [
    | inl b ↦
        let same : i ≡ j = ground arith in
        ground (arith, lookup-modify t j i f, ap (lookup_slot t) same)
    | inr b ↦ ground (arith, lookup-modify t j i f)
  ]

  create-next_id :
      (t : Flows C) (s : Option C)
      → IsValid t
      → t.next_id + 1 < 2 ^ 31
      → (claim t (new_flow s)).1.next_id ≤ t.next_id + 1
  unfolding claimed
  create-next_id t s v small = elim (dec_lt t.used max_slots) [
    | yes q ↦ rw (claim_lem t (new_flow s) (valid-IsCounted t v) q) (omega arith)
    | no q ↦ rw (claim_full t (new_flow s) (omega arith)) (omega arith)
  ]

  add-next_id :
      (t : Flows C) (i : ℕ) (kind : FlowStepType) (fn first : Option C)
      → (flow_add_step t i kind fn first).1.next_id ≡ t.next_id
  unfolding flow_add_step modify
  add-next_id t i kind fn first = ground arith

module _ {ℓ} {N : Type ℓ} ⦃e : Eq N⦄ where
  unregister-All :
      (P : Entry N → Type 0) (r : Registry N) (n : N) → All P r → All P (unregister_name r n).1
  unfolding unregister_name
  unregister-All P r n a = elim (Option-cases (find (named n) r)) [
    | inl h ↦ rw (h, unregister_name) a
    | inr (x, h) ↦ rw (h, unregister_name) (All-remove_swap P (named n) r a)
  ]

module _ {ℓ} {N C : Type ℓ} ⦃e : Eq N⦄ where
  unfoldable pub step : Flows C → Registry N → Op N C → Flows C × Registry N
  step t r (create s) = ((flow_create t s).1, r)
  step t r (add i kind fn init) = ((flow_add_step t i kind fn init).1, r)
  step t r (register_as n i) = (t, (flow_registry_register t r n i).1)
  step t r (unregister n) = (t, (flow_registry_unregister_name r n).1)

  unfoldable pub run : Flows C → Registry N → List (Op N C) → Flows C × Registry N
  run t r [] = (t, r)
  run t r (op ∷ ops) = let (t', r') = step t r op in run t' r' ops

  abbrev pub IsLive : Flows C → Entry N → Type 0
  IsLive t x = is_flow t x.id ≡ true

  pub record IsSound (t : Flows C) (r : Registry N) : Type ℓ where
    pub slots_valid : IsValid t
    pub live : All (IsLive t) r

  All-more :
      (t u : Flows C)
      → ((i : ℕ) → is_flow t i ≡ true → is_flow u i ≡ true)
      → (r : Registry N) → All (IsLive t) r
      → All (IsLive u) r
  All-more t u k [] a = tt
  All-more t u k (x ∷ r) a = (k x.id a.0, All-more t u k r a.1)

  -- How far an operation moves the next id.
  abbrev pub creates : Op N C → ℕ
  creates (create s) = 1
  creates op = 0

  abbrev pub creations : List (Op N C) → ℕ
  creations [] = 0
  creations (op ∷ ops) = creates op + creations ops

  step-IsSound :
      (t : Flows C) (r : Registry N) (op : Op N C)
      → IsSound t r
      → t.next_id + creates op < 2 ^ 31
      → IsSound (step t r op).0 (step t r op).1
  unfolding step flow_registry_register
  step-IsSound t r (create s) v small = rw (create_lem t s) (record {
    slots_valid = claim-IsValid t (new_flow s) v.slots_valid small;
    live = All-more t (claim t (new_flow s)).1 (create-live t s v.slots_valid) r v.live;
  })
  step-IsSound t r (add i kind fn first) v small = elim (Option-cases (lookup_slot t i)) [
    | inl h ↦ rw (add_absent t i kind fn first h) v
    | inr (f, h) ↦ elim (Bool-cases (leb max_steps (length f.body.steps))) [
      | inl b ↦ rw (add_full t i kind fn first f h b) v
      | inr b ↦
          let x : FlowStep C = record { kind = kind; fn = fn; init = first } in
          rw (add_ok t i kind fn first f h b) (record {
            slots_valid = modify-IsValid t i (add_step x) v.slots_valid;
            live = All-more t (modify t i (add_step x)) (modify-live t i (add_step x)) r v.live;
          })
    ]
  ]
  step-IsSound t r (register_as n i) v small = elim (register-cases (is_flow t) r n i) [
    | inl a ↦ rw (a.result) (record {
      slots_valid = v.slots_valid;
      live = All-append (IsLive t) r (record { name = n; id = i } ∷ []) v.live (a.alive, tt);
    })
    | inr b ↦ rw (b.kept) v
  ]
  step-IsSound t r (unregister n) v small = record {
    slots_valid = v.slots_valid;
    live = unregister-All (IsLive t) r n v.live;
  }

  step-next_id :
      (t : Flows C) (r : Registry N) (op : Op N C)
      → IsSound t r
      → t.next_id + creates op < 2 ^ 31
      → (step t r op).0.next_id ≤ t.next_id + creates op
  unfolding step
  step-next_id t r (create s) v small = rw (create_lem t s) (create-next_id t s v.slots_valid small)
  step-next_id t r (add i kind fn first) v small = omega (arith, add-next_id t i kind fn first)
  step-next_id t r (register_as n i) v small = omega arith
  step-next_id t r (unregister n) v small = omega arith

  -- Every run of flow creations, added steps, registrations and removals of names in which the
  -- next id stays below 2 ^ 31 keeps the slots well-formed and every registered id that of an
  -- existing flow.
  pub flow_run-IsSound :
      (t : Flows C) (r : Registry N) (ops : List (Op N C))
      → IsSound t r
      → t.next_id + creations ops < 2 ^ 31
      → IsSound (run t r ops).0 (run t r ops).1
  unfolding run
  flow_run-IsSound t r [] v q = v
  flow_run-IsSound t r (op ∷ ops) v q =
      let small : t.next_id + creates op < 2 ^ 31 = omega arith in
      flow_run-IsSound (step t r op).0 (step t r op).1 ops (step-IsSound t r op v small)
        (omega (arith, step-next_id t r op v small))
