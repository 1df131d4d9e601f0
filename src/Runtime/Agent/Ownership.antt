-- ===== src/Runtime/Agent/Ownership.antt =====
-- The references that agents hold, and whole runs of operations.
use guage.Prelude.{
  ℕ, zero, suc, ◌+◌, ◌≡◌, refl, inl, inr, Bool, false, Option, none, some, List, [], ◌∷◌, ◌++◌,
  arith, Bool-cases, Option-cases, replicate, find, find-holds, All, All-find, All-update_first,
  dec_lt,
}
use guage.Runtime.Refs.{RefOp, retains, releases, retains-append, releases-append}
use guage.Runtime.Slots.{
  Slot, max_slots, has_id, is_free, modify, free, fresh, change, give_up, take_slot,
}
use guage.Runtime.Slots.Invariant.{
  claim_lem, claimed, claim-IsCounted, modify-IsCounted, free-IsCounted, free_slot, valid-IsCounted,
  fresh-IsValid,
}
use guage.Runtime.Slots.Access.{total, total-update_first}
use guage.Runtime.Agent.{
  Agents, release_opt, agent_start, agent_set_state, agent_stop, release_states, agent_reset_all,
}
use guage.Runtime.Agent.Laws.{
  weight, IsClean, IsSound, start_lem, start_full, set_lem, set_absent, stop_lem, stop_absent,
}

pub data Op {ℓ} (C : Type ℓ) : Type ℓ where
  start : C → Op C
  set_state : ℕ → C → Op C
  stop : ℕ → Op C

module _ {ℓ} {C : Type ℓ} where
  unfoldable pub step : Agents C → Op C → Agents C × List (RefOp C)
  step t (start c) = let (r, t', log) = agent_start t c in (t', log)
  step t (set_state i c) = let (r, t', log) = agent_set_state t i c in (t', log)
  step t (stop i) = let (r, t', log) = agent_stop t i in (t', log)

  unfoldable pub run : Agents C → List (Op C) → Agents C × List (RefOp C)
  run t [] = (t, [])
  run t (op ∷ ops) = let (t', log) = step t op in let (t'', log') = run t' ops in (t'', log ++ log')

  abbrev Balanced : Agents C → Agents C → List (RefOp C) → Type ℓ
  Balanced t t' log =
      (q : C → Bool)
      → total (weight q) t'.slots + releases q log ≡ total (weight q) t.slots + retains q log

  releases-release_opt : (q : C → Bool) (b : Option C) → releases q (release_opt b) ≡ weight q b
  releases-release_opt q none = refl
  releases-release_opt q (some c) = omega arith

  retains-release_opt : (q : C → Bool) (b : Option C) → retains q (release_opt b) ≡ 0
  retains-release_opt q none = refl
  retains-release_opt q (some c) = refl

  start-Balanced :
      (t : Agents C) (c : C) → IsSound t → Balanced t (agent_start t c).1 (agent_start t c).2
  unfolding claimed
  start-Balanced t c v q = elim (dec_lt t.used max_slots) [
    | yes h ↦
        let (s, e) = free_slot t v.slots_valid h in
        let clean : s.body ≡ none =
          All-find IsClean is_free t.slots s v.clean e
            (ground (arith, find-holds is_free t.slots s e)) in
        rw (start_lem t c v.slots_valid h) (
          ground (
            arith,
            total-update_first (weight q) is_free (take_slot t.next_id (some c)) t.slots s e,
            clean,
          ))
    | no h ↦ rw (start_full t c (omega arith))
  ]

  set-Balanced :
      (t : Agents C) (i : ℕ) (c : C)
      → Balanced t (agent_set_state t i c).1 (agent_set_state t i c).2
  unfolding modify
  set-Balanced t i c q = elim (Option-cases (find (has_id i) t.slots)) [
    | inl h ↦ rw (set_absent t i c h)
    | inr (s, h) ↦ rw (set_lem t i c s h) (
        omega (
          arith,
          total-update_first (weight q) (has_id i) (change (λ b. some c)) t.slots s h,
          releases-release_opt q s.body,
          retains-release_opt q s.body,
        ))
  ]

  stop-Balanced : (t : Agents C) (i : ℕ) → Balanced t (agent_stop t i).1 (agent_stop t i).2
  unfolding free
  stop-Balanced t i q = elim (Option-cases (find (has_id i) t.slots)) [
    | inl h ↦ rw (stop_absent t i h)
    | inr (s, h) ↦ rw (stop_lem t i s h) (
        omega (
          arith,
          total-update_first (weight q) (has_id i) (give_up (λ b. none)) t.slots s h,
          releases-release_opt q s.body,
          retains-release_opt q s.body,
        ))
  ]

  step-IsSound : (t : Agents C) (op : Op C) → IsSound t → IsSound (step t op).0
  unfolding step claimed modify free
  step-IsSound t (start c) v = elim (dec_lt t.used max_slots) [
    | yes h ↦ rw (start_lem t c v.slots_valid h) (record {
      slots_valid =
          rw (claim_lem t (some c) v.slots_valid h) at (claim-IsCounted t (some c) v.slots_valid);
      clean =
          All-update_first IsClean is_free (take_slot t.next_id (some c)) t.slots (λ x f p q. cc)
            v.clean;
    })
    | no h ↦ rw (start_full t c (omega arith)) v
  ]
  step-IsSound t (set_state i c) v = elim (Option-cases (find (has_id i) t.slots)) [
    | inl h ↦ rw (set_absent t i c h) v
    | inr (s, h) ↦ rw (set_lem t i c s h) (record {
      slots_valid = modify-IsCounted t i (λ b. some c) v.slots_valid;
      clean =
          All-update_first IsClean (has_id i) (change (λ b. some c)) t.slots
            (λ x f p q. absurd (active_of i x f q)) v.clean;
    })
  ]
    where
      active_of :
          (i : ℕ) (x : Slot (Option C)) → find (has_id i) t.slots ≡ some x → x.active ≡ false → ⊥
      active_of i x f q = ground (arith, find-holds (has_id i) t.slots x f)
  step-IsSound t (stop i) v = elim (Option-cases (find (has_id i) t.slots)) [
    | inl h ↦ rw (stop_absent t i h) v
    | inr (s, h) ↦ rw (stop_lem t i s h) (record {
      slots_valid = free-IsCounted t i (λ b. none) s h v.slots_valid;
      clean =
          All-update_first IsClean (has_id i) (give_up (λ b. none)) t.slots (λ x f p q. refl)
            v.clean;
    })
  ]

  step-Balanced : (t : Agents C) (op : Op C) → IsSound t → Balanced t (step t op).0 (step t op).1
  unfolding step
  step-Balanced t (start c) v = start-Balanced t c v
  step-Balanced t (set_state i c) v = set-Balanced t i c
  step-Balanced t (stop i) v = stop-Balanced t i

  pub run-Balanced :
      (t : Agents C) (ops : List (Op C))
      → IsSound t
      → Balanced t (run t ops).0 (run t ops).1 × IsSound (run t ops).0
  unfolding run
  run-Balanced t [] v = ((λ q. refl), v)
  run-Balanced t (op ∷ ops) v =
      let (t', log) = step t op in
      let rest = run-Balanced t' ops (step-IsSound t op v) in
      (
        λ q. omega (
          arith,
          step-Balanced t op v q,
          rest.0 q,
          retains-append q log (run t' ops).1,
          releases-append q log (run t' ops).1,
        ),
        rest.1,
      )

  release_states-weight :
      (q : C → Bool) (ss : List (Slot (Option C)))
      → All IsClean ss
      → (releases q (release_states ss) ≡ total (weight q) ss) × (retains q (release_states ss) ≡ 0)
  unfolding release_states
  release_states-weight q [] a = (refl, refl)
  release_states-weight q (s ∷ ss) a =
      let (l, r) = release_states-weight q ss a.1 in
      elim (Bool-cases s.active) [
        | inl b ↦ rw b (
          omega (
            arith,
            l,
            releases-append q (release_opt s.body) (release_states ss),
            releases-release_opt q s.body,
          ),
          omega (
            arith,
            r,
            retains-append q (release_opt s.body) (release_states ss),
            retains-release_opt q s.body,
          ),
        )
        | inr b ↦ rw b (rw (a.0 b) (omega (arith, l)), r)
      ]

  pub fresh-IsSound : IsSound (fresh {B = Option C} none)
  unfolding fresh
  fresh-IsSound = record {
    slots_valid = valid-IsCounted (fresh none) (fresh-IsValid none);
    clean = all_clean max_slots;
  }
    where
      all_clean :
          (n : ℕ)
          → All {A = Slot (Option C)} IsClean
              (replicate n (record { id = 0; active = false; body = none }))
      all_clean zero = tt
      all_clean (suc n) = (λ h. refl, all_clean n)

  fresh-total : (q : C → Bool) → total (weight q) (fresh {B = Option C} none).slots ≡ 0
  unfolding fresh
  fresh-total q = refl

  -- From the reset state, through any run of starts, state changes and stops of agents, and then
  -- agent_reset_all, every cell is released exactly as often as it is retained.
  pub agent_run-no_leak :
      (ops : List (Op C)) (q : C → Bool)
      → let (t, log) = run (fresh none) ops in
        retains q log + retains q (agent_reset_all t).1
        ≡ releases q log + releases q (agent_reset_all t).1
  unfolding agent_reset_all
  agent_run-no_leak ops q =
      let (b, v) = run-Balanced (fresh none) ops fresh-IsSound in
      let (l, r) = release_states-weight q (run (fresh none) ops).0.slots v.clean in
      omega (arith, b q, l, r, fresh-total q)
