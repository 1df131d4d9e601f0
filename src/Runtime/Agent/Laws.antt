-- ===== src/Runtime/Agent/Laws.antt =====
-- An agent is a cell of state: what its operations do to every agent, and to the references.
use guage.Prelude.{
  ℕ, ◌≤◌, ◌<◌, ◌≡◌, inl, inr, Bool, true, false, ◌&&◌, Option, none, some, [], ◌∷◌, arith, ◌==◌,
  if◌then◌else◌, Option-cases, to_nat, find, All,
}
use guage.Runtime.Slots.{Slot, max_slots, has_id, lookup_slot}
use guage.Runtime.Slots.Invariant.{
  IsCounted, IsValid, valid-IsCounted, claim_lem, claimed, claim_full,
}
use guage.Runtime.Slots.Access.{lookup-claim, lookup-modify, lookup-free}
use guage.Runtime.Agent.{
  Agents, agent_start, agent_get_state, agent_set_state, agent_stop, retain, modify, free,
  release_opt,
}

module _ {ℓ} {C : Type ℓ} where
  -- The references that the slots hold.
  abbrev pub weight : (C → Bool) → Option C → ℕ
  weight q none = 0
  weight q (some c) = to_nat (q c)

  -- Slots with a state are active.
  abbrev pub IsClean : Slot (Option C) → Type ℓ
  IsClean s = s.active ≡ false → s.body ≡ none

  pub record IsSound (t : Agents C) : Type ℓ where
    pub slots_valid : IsCounted t
    pub clean : All IsClean t.slots

  pub start_lem :
      (t : Agents C) (c : C)
      → IsCounted t
      → t.used < max_slots
      → agent_start t c ≡ (some t.next_id, claimed t (some c), retain c ∷ [])
  unfolding agent_start
  start_lem t c v h = ground (arith, claim_lem t (some c) v h)

  pub start_full : (t : Agents C) (c : C) → max_slots ≤ t.used → agent_start t c ≡ (none, t, [])
  unfolding agent_start
  start_full t c h = ground (arith, claim_full t (some c) h)

  pub set_lem :
      (t : Agents C) (i : ℕ) (c : C) (s : Slot (Option C))
      → lookup_slot t i ≡ some s
      → agent_set_state t i c ≡ (true, modify t i (λ b. some c), retain c ∷ release_opt s.body)
  unfolding agent_set_state
  set_lem t i c s h = rw (h, agent_set_state)

  pub set_absent :
      (t : Agents C) (i : ℕ) (c : C)
      → lookup_slot t i ≡ none
      → agent_set_state t i c ≡ (false, t, [])
  unfolding agent_set_state
  set_absent t i c h = rw (h, agent_set_state)

  pub stop_lem :
      (t : Agents C) (i : ℕ) (s : Slot (Option C))
      → lookup_slot t i ≡ some s
      → agent_stop t i ≡ (true, free t i (λ b. none), release_opt s.body)
  unfolding agent_stop
  stop_lem t i s h = rw (h, agent_stop)

  pub stop_absent :
      (t : Agents C) (i : ℕ) → lookup_slot t i ≡ none → agent_stop t i ≡ (false, t, [])
  unfolding agent_stop
  stop_absent t i h = rw (h, agent_stop)

  -- Where the slots are well-formed and fewer than 64 are in use, agent_start returns the next id; the
  -- new agent has the given state, and the state of every other id is unchanged.
  pub start_state :
      (t : Agents C) (c : C)
      → IsValid t
      → t.used < max_slots
      → ((agent_start t c).0 ≡ some t.next_id)
        × ((j : ℕ)
            → agent_get_state (agent_start t c).1 j
              ≡ (if j == t.next_id then some c else agent_get_state t j))
  unfolding agent_start agent_get_state
  start_state t c v h = (
    rw (start_lem t c (valid-IsCounted t v) h),
    λ j.
        ground (arith, lookup-claim t (some c) j v h, claim_lem t (some c) (valid-IsCounted t v) h),
  )

  -- After agent_set_state that succeeds, its agent has the new state and all others have theirs;
  -- after one that fails, all agents have the state they had.
  pub set_get :
      (t : Agents C) (i j : ℕ) (c : C)
      → agent_get_state (agent_set_state t i c).1 j
        ≡ (if (agent_set_state t i c).0 && (j == i) then some c else agent_get_state t j)
  unfolding agent_set_state agent_get_state
  set_get t i j c = elim (Option-cases (find (has_id i) t.slots)) [
    | inl h ↦ rw (set_absent t i c h)
    | inr (s, h) ↦ rw (set_lem t i c s h) (ground (arith, lookup-modify t i j (λ b. some c)))
  ]

  -- Where the slots are well-formed, after agent_stop the stopped id has no state, and every other agent
  -- has the state it had.
  pub stop_get :
      (t : Agents C) (i j : ℕ)
      → IsValid t
      → agent_get_state (agent_stop t i).1 j ≡ (if j == i then none else agent_get_state t j)
  unfolding agent_stop agent_get_state
  stop_get t i j v = elim (Option-cases (find (has_id i) t.slots)) [
    | inl h ↦ rw (stop_absent t i h) (ground (arith, absent_same i j t h))
    | inr (s, h) ↦ rw (stop_lem t i s h) (ground (arith, lookup-free t i j (λ b. none) v))
  ]
    where
      absent_same :
          (i j : ℕ) (t : Agents C)
          → lookup_slot t i ≡ none
          → (j == i) ≡ true
          → lookup_slot t j ≡ none
      absent_same i j t h e = let same : j ≡ i = ground arith in rw same h
