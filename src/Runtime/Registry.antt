-- ===== src/Runtime/Registry.antt =====
-- The named process registry of bootstrap/actor.c (`actor_registry_*`) and the named flow registry
-- (`flow_registry_*`). The parallel arrays `g_registry_names` and `g_registry_ids`, up to
-- `g_registry_count`, are one list of entries.
pub mod Unique
pub mod Methods
mod Tests
use mathlib.Core.List.{foldr}
use guage.Prelude.{
  ℕ, Bool, true, false, List, [], ◌∷◌, ◌++◌, Option, none, some, leb, ◌==◌, if◌then◌else◌, length,
  find, remove_swap, Eq, equal,
}

pub record Entry {ℓ} (N : Type ℓ) : Type ℓ where
  pub name : N
  pub id : ℕ

abbrev pub Registry {ℓ} : Type ℓ → Type ℓ
Registry N = List (Entry N)

-- The results 0, -1, -2, -3 and -4 of the two register functions.
pub data Status : Type 0 where
  ok dup_name dup_id full dead : Status

-- `MAX_REGISTRY` and `MAX_FLOW_REGISTRY`
abbrev pub max_registry : ℕ
max_registry = 256

module _ {ℓ} {N : Type ℓ} ⦃e : Eq N⦄ where
  -- `strcmp(g_registry_names[i], name) == 0`
  abbrev pub named : N → Entry N → Bool
  named n x = equal x.name n

  abbrev pub has_id : ℕ → Entry N → Bool
  has_id i x = x.id == i

  -- The loop of the register functions: both tests at each entry, in the order of the array.
  unfoldable pub scan : N → ℕ → Registry N → Status
  scan n i [] = ok
  scan n i (x ∷ xs) = if named n x then dup_name else if has_id i x then dup_id else scan n i xs

  -- `actor_registry_register`. `live` stands for `actor && actor->alive` of the lookup; in
  -- `flow_registry_register`, whose code is the same, it stands for `flow_lookup(flow_id)`.
  unfoldable pub register : (ℕ → Bool) → Registry N → N → ℕ → Status × Registry N
  register live r n i =
      if leb max_registry (length r)
      then (full, r)
      else if live i
      then elim (scan n i r) [ ok ↦ (ok, r ++ (record { name = n; id = i } ∷ [])) | s ↦ (s, r) ]
      else (dead, r)

  unfoldable pub lookup : Registry N → N → Option ℕ
  lookup r n = elim (find (named n) r) [ none ↦ none | some x ↦ some x.id ]

  -- The flag is false for the result -1.
  unfoldable pub unregister_name : Registry N → N → Bool × Registry N
  unregister_name r n = elim (find (named n) r) [
    | none ↦ (false, r)
    | some x ↦ (true, remove_swap (named n) r)
  ]

  unfoldable pub unregister_id : Registry N → ℕ → Registry N
  unregister_id r i = remove_swap (has_id i) r

  -- The symbols of `actor_registry_list`, consed from the last entry to the first.
  unfoldable pub list : Registry N → List N
  list r = foldr (λ x names. x.name ∷ names) [] r

  unfoldable pub reset : Registry N → Registry N
  reset r = []
