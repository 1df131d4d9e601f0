-- ===== src/Runtime/Ets/Runs.antt =====
-- Whole runs of ETS operations.
use guage.Prelude.{
  ℕ, ◌+◌, ◌≡◌, refl, inl, inr, Bool, true, Option, List, [], ◌∷◌, ◌++◌, arith, Bool-cases, All, Eq,
}
use guage.Runtime.Refs.{CellOps, RefOp, retains, releases, retains-append, releases-append}
use guage.Runtime.Ets.Ownership.{
  owned, Balanced, ets_insert-Balanced, ets_delete_key-Balanced, ets_delete_table-Balanced,
  destroy_where-Balanced, ets_create-Balanced,
}
use guage.Runtime.Ets.Valid.{
  IsSound, IsValid, ets_insert-IsValid, ets_delete_key-IsValid, ets_delete_table-IsValid,
  ets_create-IsValid, destroy_where-IsValid,
}
use guage.Runtime.Ets.{
  Tables, owned_by, ets_create, ets_insert, ets_delete_key, ets_delete_table, destroy_where,
  ets_destroy_by_owner, ets_reset_all,
}

-- What the runtime may do to the tables. The names are those of the functions.
pub data Op {ℓ} (N C : Type ℓ) : Type ℓ where
  create : N → Option ℕ → Op N C
  insert : N → C → C → Op N C
  delete_key : N → C → Op N C
  delete_table : N → Op N C
  destroy_by_owner : ℕ → Op N C

module _ {ℓ} {N C : Type ℓ} ⦃e : Eq N⦄ ⦃o : CellOps C⦄ where
  unfoldable pub step : Tables N C → Op N C → Tables N C × List (RefOp C)
  step ts (create n i) = ((ets_create ts n i).1, [])
  step ts (insert n k v) = let (s, ts', log) = ets_insert ts n k v in (ts', log)
  step ts (delete_key n k) = let (s, ts', log) = ets_delete_key ts n k in (ts', log)
  step ts (delete_table n) = let (s, ts', log) = ets_delete_table ts n in (ts', log)
  step ts (destroy_by_owner i) = ets_destroy_by_owner ts i

  unfoldable pub run : Tables N C → List (Op N C) → Tables N C × List (RefOp C)
  run ts [] = (ts, [])
  run ts (op ∷ ops) =
      let (ts', log) = step ts op in let (ts'', log') = run ts' ops in (ts'', log ++ log')

  step-IsValid : (ts : Tables N C) (op : Op N C) → IsValid ts → IsValid (step ts op).0
  unfolding step ets_destroy_by_owner
  step-IsValid ts (create n i) v = ets_create-IsValid ts n i v
  step-IsValid ts (insert n k w) v = ets_insert-IsValid ts n k w v
  step-IsValid ts (delete_key n k) v = ets_delete_key-IsValid ts n k v
  step-IsValid ts (delete_table n) v = ets_delete_table-IsValid ts n v
  step-IsValid ts (destroy_by_owner i) v = destroy_where-IsValid (owned_by i) ts v

  -- Every run of creations, insertions, deletions and deaths of owners keeps the invariant of the
  -- tables: an active table has a name that no other active table has, a destroyed one is empty,
  -- and neither 64 tables nor 1024 entries of a table are exceeded.
  pub ets_run-IsValid :
      (ts : Tables N C) (ops : List (Op N C)) → IsValid ts → IsValid (run ts ops).0
  unfolding run
  ets_run-IsValid ts [] v = v
  ets_run-IsValid ts (op ∷ ops) v = ets_run-IsValid (step ts op).0 ops (step-IsValid ts op v)

  step-Balanced : (ts : Tables N C) (op : Op N C) → Balanced ts (step ts op).0 (step ts op).1
  unfolding step ets_destroy_by_owner
  step-Balanced ts (create n i) = ets_create-Balanced ts n i
  step-Balanced ts (insert n k w) = ets_insert-Balanced ts n k w
  step-Balanced ts (delete_key n k) = ets_delete_key-Balanced ts n k
  step-Balanced ts (delete_table n) = ets_delete_table-Balanced ts n
  step-Balanced ts (destroy_by_owner i) = destroy_where-Balanced (owned_by i) ts

  pub run-Balanced :
      (ts : Tables N C) (ops : List (Op N C)) → Balanced ts (run ts ops).0 (run ts ops).1
  unfolding run
  run-Balanced ts [] q = refl
  run-Balanced ts (op ∷ ops) q =
      let (ts', log) = step ts op in
      let log' = (run ts' ops).1 in
      omega (
        arith,
        step-Balanced ts op q,
        run-Balanced ts' ops q,
        retains-append q log log',
        releases-append q log log',
      )

  -- After the loop of `ets_reset_all` no table holds a reference.
  owned-reset :
      (q : C → Bool) (ts : Tables N C)
      → All IsSound ts
      → owned q (destroy_where (λ t. true) ts).0 ≡ 0
  unfolding destroy_where
  owned-reset q [] a = refl
  owned-reset q (t ∷ ts) a = elim (Bool-cases t.active) [
    | inl b ↦ rw b (omega (arith, owned-reset q ts a.1))
    | inr b ↦ rw b (rw (a.0.cleared b) (omega (arith, owned-reset q ts a.1)))
  ]

  -- From no tables, through any run of creations, insertions, deletions of keys and tables, and
  -- deaths of owners, and then ets_reset_all, every cell is released exactly as often as it is
  -- retained.
  pub ets_run-no_leak :
      (ops : List (Op N C)) (q : C → Bool)
      → let (ts, log) = run [] ops in
        retains q log + retains q (ets_reset_all ts).1
        ≡ releases q log + releases q (ets_reset_all ts).1
  unfolding ets_reset_all
  ets_run-no_leak ops q =
      let v =
        ets_run-IsValid [] ops
          (record { names = λ n. omega arith; room = omega arith; sound = tt }) in
      omega (
        arith,
        run-Balanced [] ops q,
        destroy_where-Balanced (λ t. true) (run [] ops).0 q,
        owned-reset q (run [] ops).0 v.sound,
      )
