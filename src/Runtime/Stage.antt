-- ===== src/Runtime/Stage.antt =====
-- Stages of bootstrap/actor.c (GenStage): slots with a handler, a state and the ids of at most 16
-- subscribers. Operations return the retains and releases of cells beside the slots.
pub mod Subscribers
pub mod Valid
mod Tests
use guage.Prelude.{
  ℕ, Bool, true, false, Option, none, some, List, [], ◌∷◌, ◌++◌, leb, if◌then◌else◌, length,
}
use guage.Runtime.Refs.{RefOp, retain, release}
use guage.Runtime.Slots.{Slot, Slots, has_id, lookup_slot, claim, change, free, fresh}

pub data StageMode : Type 0 where
  producer consumer producer_consumer : StageMode

pub record Stage {ℓ} (C : Type ℓ) : Type ℓ where
  pub mode : StageMode
  pub handler : Option C
  pub state : Option C
  pub subscribers : List ℕ

abbrev pub Stages {ℓ} : Type ℓ → Type ℓ
Stages C = Slots (Stage C)

-- The results 0, -1 and -2 of `stage_subscribe`.
pub data Subscribed : Type 0 where
  ok not_found full : Subscribed

-- `MAX_STAGE_SUBSCRIBERS`
abbrev pub max_subscribers : ℕ
max_subscribers = 16

abbrev pub release_cell {ℓ} : {C : Type ℓ} → Option C → List (RefOp C)
release_cell none = []
release_cell (some c) = release c ∷ []

-- The loop of `stage_subscribe` keeps the last slot that matches.
unfoldable pub find_last {ℓ} : {A : Type ℓ} → (A → Bool) → List A → Option A
find_last p [] = none
find_last p (x ∷ xs) = elim (find_last p xs) [
  | none ↦ if p x then some x else none
  | some y ↦ some y
]

-- A write through the pointer that this loop leaves.
unfoldable pub update_last {ℓ} : {A : Type ℓ} → (A → Bool) → (A → A) → List A → List A
unfolding find_last
update_last p f [] = []
update_last p f (x ∷ xs) =
    let rest = update_last p f xs in
    elim (find_last p xs) [ none ↦ if p x then f x ∷ xs else x ∷ xs | some y ↦ x ∷ rest ]

module _ {ℓ} {C : Type ℓ} where
  abbrev pub empty_stage : Stage C
  empty_stage = record { mode = producer; handler = none; state = none; subscribers = [] }

  -- `none` for -1.
  unfoldable pub stage_create : Stages C → StageMode → C → C → Option ℕ × Stages C × List (RefOp C)
  stage_create t mode handler state =
      let (r, t') =
        claim t
          (record { mode = mode; handler = some handler; state = some state; subscribers = [] }) in
      elim r [ none ↦ (none, t', []) | some i ↦ (some i, t', retain handler ∷ retain state ∷ []) ]

  unfoldable pub stage_lookup : Stages C → ℕ → Option (Slot (Stage C))
  stage_lookup t i = lookup_slot t i

  -- `producer->subscribers[producer->subscriber_count++] = consumer_id`
  abbrev pub subscribe : ℕ → Stage C → Stage C
  subscribe i s = record s { subscribers = s.subscribers ++ (i ∷ []) }

  unfoldable pub stage_subscribe : Stages C → ℕ → ℕ → Subscribed × Stages C
  unfolding find_last update_last
  stage_subscribe t consumer_id producer_id = elim (find_last (has_id producer_id) t.slots) [
    | none ↦ (Subscribed.not_found, t)
    | some p ↦ elim (find_last (has_id consumer_id) t.slots) [
      | none ↦ (Subscribed.not_found, t)
      | some c ↦ if leb max_subscribers (length p.body.subscribers) then (Subscribed.full, t) else (
        Subscribed.ok,
        record t {
          slots = update_last (has_id producer_id) (change (subscribe consumer_id)) t.slots;
        },
      )
    ]
  ]

  -- The flag is false for -1. The subscribers stay in the slot until it is taken again.
  unfoldable pub stage_stop : Stages C → ℕ → Bool × Stages C × List (RefOp C)
  stage_stop t i = elim (lookup_slot t i) [
    | none ↦ (false, t, [])
    | some s ↦ (
      true,
      free t i (λ b. record b { handler = none; state = none }),
      release_cell s.body.handler ++ release_cell s.body.state,
    )
  ]

  -- The releases of the loop of `stage_reset_all`.
  unfoldable pub release_stages : List (Slot (Stage C)) → List (RefOp C)
  release_stages [] = []
  release_stages (s ∷ ss) =
      let rest = release_stages ss in
      if s.active then (release_cell s.body.handler ++ release_cell s.body.state) ++ rest else rest

  unfoldable pub stage_reset_all : Stages C → Stages C × List (RefOp C)
  unfolding release_stages
  stage_reset_all t = (fresh empty_stage, release_stages t.slots)
