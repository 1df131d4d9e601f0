-- ===== src/Runtime/Stage/Valid.antt =====
-- Whole runs of stage operations keep the slots well-formed.
use guage.Prelude.{
  ℕ, zero, suc, ◌+◌, ◌^◌, ◌≤◌, ◌<◌, dec_lt, ◌≡◌, ◌∙◌, inl, inr, false, none, some, List, [], ◌∷◌,
  arith, leb, Bool-cases, Option-cases, length, replicate, length-append, find, All,
  All-update_first,
}
use guage.Runtime.Slots.{
  Slot, max_slots, has_id, is_free, lookup_slot, modify, free, fresh, change, give_up, take_slot,
}
use guage.Runtime.Slots.Invariant.{
  IsCounted, IsValid, valid-IsCounted, claim-IsValid, modify-IsValid, free-IsValid, claim_lem,
  claim_full, claimed, fresh-IsValid,
}
use guage.Runtime.Stage.{
  StageMode, Stage, Stages, max_subscribers, stage_create, subscribe, stage_subscribe, stage_stop,
  empty_stage,
}
use guage.Runtime.Stage.Subscribers.{found, no_producer, no_consumer, too_many, accepted}

pub data Op {ℓ} (C : Type ℓ) : Type ℓ where
  create : StageMode → C → C → Op C
  subscribe_to : ℕ → ℕ → Op C
  stop : ℕ → Op C

abbrev pub IsBounded {ℓ} : {C : Type ℓ} → Slot (Stage C) → Type 0
IsBounded s = length s.body.subscribers ≤ max_subscribers

module _ {ℓ} {C : Type ℓ} where
  -- The slots are well-formed, and no stage has more than 16 subscribers.
  pub record IsSound (t : Stages C) : Type ℓ where
    pub slots_valid : IsValid t
    pub bounded : All IsBounded t.slots

  unfoldable pub step : Stages C → Op C → Stages C
  step t (create m h s) = (stage_create t m h s).1
  step t (subscribe_to c p) = (stage_subscribe t c p).1
  step t (stop i) = (stage_stop t i).1

  unfoldable pub run : Stages C → List (Op C) → Stages C
  run t [] = t
  run t (op ∷ ops) = run (step t op) ops

  abbrev new_stage : StageMode → C → C → Stage C
  new_stage m h s = record { mode = m; handler = some h; state = some s; subscribers = [] }

  create_ok :
      (t : Stages C) (m : StageMode) (h s : C)
      → IsCounted t
      → t.used < max_slots
      → (stage_create t m h s).1 ≡ claimed t (new_stage m h s)
  unfolding stage_create
  create_ok t m h s v q = ground (arith, claim_lem t (new_stage m h s) v q)

  create_full :
      (t : Stages C) (m : StageMode) (h s : C) → max_slots ≤ t.used → (stage_create t m h s).1 ≡ t
  unfolding stage_create
  create_full t m h s q = ground (arith, claim_full t (new_stage m h s) q)

  create-IsSound :
      (t : Stages C) (m : StageMode) (h s : C)
      → IsSound t
      → t.next_id + 1 < 2 ^ 31
      → IsSound (stage_create t m h s).1
  unfolding claimed
  create-IsSound t m h s v small = elim (dec_lt t.used max_slots) [
    | yes q ↦ rw (create_ok t m h s (valid-IsCounted t v.slots_valid) q) (record {
      slots_valid =
          rw (claim_lem t (new_stage m h s) (valid-IsCounted t v.slots_valid) q) at
            (claim-IsValid t (new_stage m h s) v.slots_valid small);
      bounded =
          All-update_first IsBounded is_free (take_slot t.next_id (new_stage m h s)) t.slots
            (λ x f b. omega arith) v.bounded;
    })
    | no q ↦ rw (create_full t m h s (omega arith)) v
  ]

  subscribe-IsSound : (t : Stages C) (c p : ℕ) → IsSound t → IsSound (stage_subscribe t c p).1
  unfolding modify
  subscribe-IsSound t c p v = elim (Option-cases (lookup_slot t p)) [
    | inl h ↦ rw (no_producer t c p (found t v.slots_valid p ∙ h)) v
    | inr (s, h) ↦ elim (Option-cases (lookup_slot t c)) [
      | inl g ↦ rw (no_consumer t c p (found t v.slots_valid c ∙ g)) v
      | inr (d, g) ↦ elim (Bool-cases (leb max_subscribers (length s.body.subscribers))) [
        | inl b ↦
            rw (too_many t c p s d (found t v.slots_valid p ∙ h) (found t v.slots_valid c ∙ g) b) v
        | inr b ↦
            rw
              (accepted t c p s d (found t v.slots_valid p ∙ h) (found t v.slots_valid c ∙ g) b
                (v.slots_valid.ids p))
              (record {
                slots_valid = modify-IsValid t p (subscribe c) v.slots_valid;
                bounded =
                    All-update_first IsBounded (has_id p) (change (subscribe c)) t.slots
                      (one_more s h b) v.bounded;
              })
      ]
    ]
  ]
    where
      one_more :
          (s : Slot (Stage C))
          → lookup_slot t p ≡ some s
          → leb max_subscribers (length s.body.subscribers) ≡ false
          → (x : Slot (Stage C)) → find (has_id p) t.slots ≡ some x
          → IsBounded x
          → IsBounded (change (subscribe c) x)
      one_more s h b x f q =
          let same : s ≡ x = ground arith in
          let room : length x.body.subscribers < max_subscribers = rw (← same) (ground arith) in
          omega (arith, length-append x.body.subscribers (c ∷ []))

  stop-IsSound : (t : Stages C) (i : ℕ) → IsSound t → IsSound (stage_stop t i).1
  unfolding stage_stop free
  stop-IsSound t i v = elim (Option-cases (lookup_slot t i)) [
    | inl h ↦ rw (h, stage_stop) v
    | inr (s, h) ↦
        rw (h, stage_stop)
          (record {
            slots_valid =
                free-IsValid t i (λ b. record b { handler = none; state = none }) s h v.slots_valid;
            bounded =
                All-update_first IsBounded (has_id i)
                  (give_up (λ b. record b { handler = none; state = none })) t.slots (λ x f q. q)
                  v.bounded;
          })
  ]

  -- How far an operation moves the next id.
  abbrev pub creates : Op C → ℕ
  creates (create m h s) = 1
  creates op = 0

  abbrev pub creations : List (Op C) → ℕ
  creations [] = 0
  creations (op ∷ ops) = creates op + creations ops

  create-next_id :
      (t : Stages C) (m : StageMode) (h s : C)
      → IsSound t
      → t.next_id + 1 < 2 ^ 31
      → (stage_create t m h s).1.next_id ≤ t.next_id + 1
  unfolding claimed
  create-next_id t m h s v small = elim (dec_lt t.used max_slots) [
    | yes q ↦ rw (create_ok t m h s (valid-IsCounted t v.slots_valid) q) (omega arith)
    | no q ↦ rw (create_full t m h s (omega arith)) (omega arith)
  ]

  subscribe-next_id : (t : Stages C) (c p : ℕ) → (stage_subscribe t c p).1.next_id ≡ t.next_id
  unfolding stage_subscribe
  subscribe-next_id t c p = ground arith

  stop-next_id : (t : Stages C) (i : ℕ) → (stage_stop t i).1.next_id ≡ t.next_id
  unfolding stage_stop free
  stop-next_id t i = ground arith

  step-IsSound :
      (t : Stages C) (op : Op C)
      → IsSound t
      → t.next_id + creates op < 2 ^ 31
      → IsSound (step t op) × ((step t op).next_id ≤ t.next_id + creates op)
  unfolding step
  step-IsSound t (create m h s) v q = (create-IsSound t m h s v q, create-next_id t m h s v q)
  step-IsSound t (subscribe_to c p) v q =
      (subscribe-IsSound t c p v, omega (arith, subscribe-next_id t c p))
  step-IsSound t (stop i) v q = (stop-IsSound t i v, omega (arith, stop-next_id t i))

  -- Every run of stage creations, subscriptions and stops with so few creations that the next id,
  -- a 32-bit int, stays below 2 ^ 31 keeps the slots well-formed: 64 slots, the count is the
  -- number of active ones, ids are unique and below the next one, and no stage has more than 16
  -- subscribers.
  pub stage_run-IsSound :
      (t : Stages C) (ops : List (Op C))
      → IsSound t
      → t.next_id + creations ops < 2 ^ 31
      → IsSound (run t ops)
  unfolding run
  stage_run-IsSound t [] v q = v
  stage_run-IsSound t (op ∷ ops) v q =
      let (v', q') = step-IsSound t op v (omega arith) in
      stage_run-IsSound (step t op) ops v' (omega (arith, q'))

  pub fresh-IsSound : IsSound (fresh {B = Stage C} empty_stage)
  unfolding fresh
  fresh-IsSound = record {
    slots_valid = fresh-IsValid empty_stage;
    bounded = replicate-IsBounded max_slots;
  }
    where
      replicate-IsBounded :
          (n : ℕ)
          → All {A = Slot (Stage C)} IsBounded
              (replicate n (record { id = 0; active = false; body = empty_stage }))
      replicate-IsBounded zero = tt
      replicate-IsBounded (suc n) = (omega arith, replicate-IsBounded n)
