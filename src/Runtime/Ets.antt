-- ===== src/Runtime/Ets.antt =====
-- ETS of bootstrap/actor.c: named tables of key and value cells that actors share. `g_ets_tables`
-- up to `g_ets_count` is a list; a destroyed table keeps its slot, inactive and with a NULL name.
-- Operations return their result, the tables, and the retains and releases of cells.
pub mod Tables
pub mod Ownership
pub mod Valid
pub mod Runs
pub mod Lookup
pub mod Exhausted
mod Tests
use guage.Prelude.{
  ℕ, Bool, true, false, ◌&&◌, Option, none, some, List, [], ◌∷◌, ◌++◌, leb, ◌==◌, if◌then◌else◌,
  length, find, remove_swap, update_first, Eq, equal,
}
use mathlib.Core.List.{foldr}
use guage.Runtime.Refs.{CellOps, cell_equal, RefOp, retain, release, release_all}

pub record Table {ℓ} (N C : Type ℓ) : Type ℓ where
  pub name : Option N
  -- `none` for the owner -1
  pub owner : Option ℕ
  pub entries : List (C × C)
  pub active : Bool

abbrev pub Tables {ℓ} : Type ℓ → Type ℓ → Type ℓ
Tables N C = List (Table N C)

-- The results 0, -1 (a name that is taken), -2 (no room) of `ets_create`.
pub data Created : Type 0 where
  ok dup full : Created

-- The results 0, -1 (no such table), -2 (no room) of `ets_insert`.
pub data Inserted : Type 0 where
  ok not_found full : Inserted

-- The results 0, -1 (no such table), -2 (no such key) of `ets_delete_key`.
pub data Deleted : Type 0 where
  ok not_found no_key : Deleted

-- `MAX_ETS_TABLES` and `MAX_ETS_ENTRIES`
abbrev pub max_tables : ℕ
max_tables = 64

abbrev pub max_entries : ℕ
max_entries = 1024

-- The owner test `owner_actor_id == actor_id`.
abbrev pub owned_by {ℓ} : {N C : Type ℓ} → ℕ → Table N C → Bool
owned_by i t = elim t.owner [ none ↦ false | some j ↦ j == i ]

module _ {ℓ} {N C : Type ℓ} ⦃e : Eq N⦄ where
  -- `active && strcmp(name, n) == 0`. The name of an active table is not NULL.
  abbrev pub is_named : N → Table N C → Bool
  is_named n t = t.active && elim t.name [ none ↦ false | some m ↦ equal m n ]

  unfoldable pub ets_find : Tables N C → N → Option (Table N C)
  ets_find ts n = find (is_named n) ts

  unfoldable pub ets_create : Tables N C → N → Option ℕ → Created × Tables N C
  unfolding ets_find
  ets_create ts n owner = elim (ets_find ts n) [
    | some t ↦ (Created.dup, ts)
    | none ↦ if leb max_tables (length ts) then (Created.full, ts) else (
      Created.ok,
      ts ++ (record { name = some n; owner = owner; entries = []; active = true } ∷ []),
    )
  ]

-- `free(name)`, with every entry released.
abbrev pub destroyed {ℓ} : {N C : Type ℓ} → Table N C → Table N C
destroyed t = record t { name = none; entries = []; active = false }

-- `cell_equal(t->keys[i], key)`
abbrev pub is_key {ℓ} : {C : Type ℓ} ⦃o : CellOps C⦄ → C → C × C → Bool
is_key k x = cell_equal x.0 k

-- The writes to the table that `ets_find` points to.
module _ {ℓ} {N C : Type ℓ} ⦃o : CellOps C⦄ where
  -- `t->values[i] = value`
  abbrev pub put : C → C → Table N C → Table N C
  put k v t = record t { entries = update_first (is_key k) (λ x. (x.0, v)) t.entries }

  -- `t->keys[t->count] = key; t->values[t->count] = value; t->count++`
  abbrev pub add : C → C → Table N C → Table N C
  add k v t = record t { entries = t.entries ++ ((k, v) ∷ []) }

  -- `t->count--`, and the last entry moves to `i`.
  abbrev pub drop_key : C → Table N C → Table N C
  drop_key k t = record t { entries = remove_swap (is_key k) t.entries }

module _ {ℓ} {N C : Type ℓ} ⦃e : Eq N⦄ ⦃o : CellOps C⦄ where
  unfoldable pub ets_insert : Tables N C → N → C → C → Inserted × Tables N C × List (RefOp C)
  unfolding ets_find
  ets_insert ts n k v = elim (ets_find ts n) [
    | none ↦ (Inserted.not_found, ts, [])
    | some t ↦ elim (find (is_key k) t.entries) [
      | some (key, old) ↦
          (Inserted.ok, update_first (is_named n) (put k v) ts, retain v ∷ release old ∷ [])
      | none ↦
          if leb max_entries (length t.entries)
          then (Inserted.full, ts, [])
          else (Inserted.ok, update_first (is_named n) (add k v) ts, retain k ∷ retain v ∷ [])
    ]
  ]

  unfoldable pub ets_lookup : Tables N C → N → C → Option C × List (RefOp C)
  unfolding ets_find
  ets_lookup ts n k = elim (ets_find ts n) [
    | none ↦ (none, [])
    | some t ↦ elim (find (is_key k) t.entries) [
      | none ↦ (none, [])
      | some x ↦ (some x.1, retain x.1 ∷ [])
    ]
  ]

  unfoldable pub ets_delete_key : Tables N C → N → C → Deleted × Tables N C × List (RefOp C)
  unfolding ets_find
  ets_delete_key ts n k = elim (ets_find ts n) [
    | none ↦ (Deleted.not_found, ts, [])
    | some t ↦ elim (find (is_key k) t.entries) [
      | none ↦ (Deleted.no_key, ts, [])
      | some (key, value) ↦
          (Deleted.ok, update_first (is_named n) (drop_key k) ts, release key ∷ release value ∷ [])
    ]
  ]

  -- The flag is false for the result -1.
  unfoldable pub ets_delete_table : Tables N C → N → Bool × Tables N C × List (RefOp C)
  unfolding ets_find release_all
  ets_delete_table ts n = elim (ets_find ts n) [
    | none ↦ (false, ts, [])
    | some t ↦ (true, update_first (is_named n) destroyed ts, release_all t.entries)
  ]

  -- `none` for the result -1.
  unfoldable pub ets_size : Tables N C → N → Option ℕ
  unfolding ets_find
  ets_size ts n = elim (ets_find ts n) [ none ↦ none | some t ↦ some (length t.entries) ]

  -- The pairs, consed from the last entry to the first.
  unfoldable pub ets_all : Tables N C → N → Option (List (C × C))
  unfolding ets_find
  ets_all ts n = elim (ets_find ts n) [
    | none ↦ none
    | some t ↦ some (foldr (λ x l. x ∷ l) [] t.entries)
  ]

  -- The loops over all tables that destroy those that are active and picked.
  unfoldable pub destroy_where : (Table N C → Bool) → Tables N C → Tables N C × List (RefOp C)
  unfolding release_all
  destroy_where p [] = ([], [])
  destroy_where p (t ∷ ts) =
      let (rest, log) = destroy_where p ts in
      if t.active && p t
      then (destroyed t ∷ rest, release_all t.entries ++ log)
      else (t ∷ rest, log)

  unfoldable pub ets_destroy_by_owner : Tables N C → ℕ → Tables N C × List (RefOp C)
  unfolding destroy_where
  ets_destroy_by_owner ts i = destroy_where (owned_by i) ts

  -- `g_ets_count = 0` drops the slots.
  unfoldable pub ets_reset_all : Tables N C → Tables N C × List (RefOp C)
  unfolding destroy_where
  ets_reset_all ts = ([], (destroy_where (λ t. true) ts).1)
