-- ===== src/Runtime/Ets/Exhausted.antt =====
-- The slots of destroyed tables are not used again (bootstrap/actor.c: `ets_create`,
-- `ets_delete_table`).
use guage.Prelude.{
  ℕ, ◌+◌, ◌≤◌, ◌<◌, min, dec_lt, ◌≡◌, refl, Bool, true, false, Option, none, some, List, [], ◌∷◌,
  ◌++◌, arith, leb, if◌then◌else◌, length, length-append, find, find-append, update_first, All,
  All-append, Eq, equal_self,
}
use guage.Runtime.Refs.{CellOps}
use guage.Runtime.Ets.{
  Table, Tables, Created, is_named, destroyed, ets_create, ets_delete_table, max_tables,
}
use guage.Runtime.Ets.Runs.{Op, create, delete_table, step, run}

module _ {ℓ} {A : Type ℓ} (p : A → Bool) where
  update_first-last :
      (f : A → A) (xs : List A) (x : A)
      → find p xs ≡ none
      → p x ≡ true
      → update_first p f (xs ++ (x ∷ [])) ≡ xs ++ (f x ∷ [])
  update_first-last f [] x h k = ground arith
  update_first-last f (y ∷ xs) x h k = ground (arith, update_first-last f xs x)

module _ {ℓ} {N C : Type ℓ} ⦃e : Eq N⦄ ⦃o : CellOps C⦄ where
  abbrev pub IsInactive : Table N C → Type 0
  IsInactive t = t.active ≡ false

  -- Each table is created and deleted before the next one.
  abbrev pub cycles : List (N × Option ℕ) → List (Op N C)
  cycles [] = []
  cycles ((n, i) ∷ past) = create n i ∷ delete_table n ∷ cycles past

  none_active : (n : N) (ts : Tables N C) → All IsInactive ts → find (is_named n) ts ≡ none
  none_active n [] a = refl
  none_active n (t ∷ ts) a = ground (arith, none_active n ts a.1, a.0)

  abbrev new_table : N → Option ℕ → Table N C
  new_table n i = record { name = some n; owner = i; entries = []; active = true }

  create_room :
      (ts : Tables N C) (n : N) (i : Option ℕ)
      → All IsInactive ts
      → length ts < max_tables
      → ets_create ts n i ≡ (Created.ok, ts ++ (new_table n i ∷ []))
  unfolding ets_create
  create_room ts n i a h = ground (arith, none_active n ts a)

  create_full :
      (ts : Tables N C) (n : N) (i : Option ℕ)
      → All IsInactive ts
      → max_tables ≤ length ts
      → ets_create ts n i ≡ (Created.full, ts)
  unfolding ets_create
  create_full ts n i a h = ground (arith, none_active n ts a)

  delete_new :
      (ts : Tables N C) (n : N) (i : Option ℕ)
      → All IsInactive ts
      → (ets_delete_table (ts ++ (new_table n i ∷ [])) n).1 ≡ ts ++ (destroyed (new_table n i) ∷ [])
  unfolding ets_delete_table
  delete_new ts n i a =
      let named : is_named n (new_table n i) ≡ true = equal_self n in
      let gone = none_active n ts a in
      let here : find (is_named n) (ts ++ (new_table n i ∷ [])) ≡ some (new_table n i) =
        ground (arith, find-append (is_named n) ts (new_table n i ∷ [])) in
      rw (here, ets_delete_table) (update_first-last (is_named n) destroyed ts _ gone named)

  delete_absent : (ts : Tables N C) (n : N) → All IsInactive ts → (ets_delete_table ts n).1 ≡ ts
  unfolding ets_delete_table
  delete_absent ts n a = rw (none_active n ts a, ets_delete_table) refl

  abbrev Spent : Tables N C → ℕ → Type 0
  Spent ts k = All IsInactive ts × (length ts ≡ min max_tables k)

  cycle-Spent :
      (ts : Tables N C) (n : N) (i : Option ℕ) (k : ℕ)
      → Spent ts k
      → Spent (ets_delete_table (ets_create ts n i).1 n).1 (k + 1)
  cycle-Spent ts n i k (a, h) = elim (dec_lt (length ts) max_tables) [
    | yes q ↦ rw (create_room ts n i a q) (
        rw (delete_new ts n i a) (
          All-append IsInactive ts (destroyed (new_table n i) ∷ []) a (refl, tt),
          omega (arith, h, length-append ts (destroyed (new_table n i) ∷ [])),
        ))
    | no q ↦
        rw (create_full ts n i a (omega arith)) (rw (delete_absent ts n a) (a, omega (arith, h)))
  ]

  run-cycles :
      (past : List (N × Option ℕ)) (ts : Tables N C) (k : ℕ)
      → Spent ts k
      → Spent (run ts (cycles past)).0 (k + length past)
  unfolding run step
  run-cycles [] ts k h = (h.0, omega (arith, h.1))
  run-cycles ((n, i) ∷ past) ts k h =
      let ts' = (ets_delete_table (ets_create ts n i).1 n).1 in
      let (a, l) = run-cycles past ts' (k + 1) (cycle-Spent ts n i k h) in (a, omega (arith, l))

module _ {ℓ} {N : Type ℓ} (C : Type ℓ) ⦃e : Eq N⦄ ⦃o : CellOps C⦄ where
  -- From no tables, after any tables are created and deleted one after the other, whatever their
  -- names and owners, no table is active, and yet a further ets_create succeeds exactly when fewer
  -- than 64 went before; otherwise it reports that there is no room.
  pub create-after_cycles :
      (past : List (N × Option ℕ)) (n : N) (i : Option ℕ)
      → let ts = (run {C = C} [] (cycles past)).0 in
        All IsInactive ts
        × ((ets_create ts n i).0
            ≡ (if leb max_tables (length past) then Created.full else Created.ok))
  create-after_cycles past n i =
      let ts = (run {C = C} [] (cycles past)).0 in
      let (a, h) = run-cycles past [] 0 (tt, refl) in
      (
        a,
        elim (dec_lt (length ts) max_tables) [
          | yes q ↦ rw (create_room ts n i a q) (ground (arith, h))
          | no q ↦ rw (create_full ts n i a (omega arith)) (ground (arith, h))
        ],
      )
