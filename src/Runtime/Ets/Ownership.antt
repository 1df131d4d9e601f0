-- ===== src/Runtime/Ets/Ownership.antt =====
-- The references that the ETS tables hold, against those that the operations retain and release.
use guage.Prelude.{
  ℕ, ◌+◌, ◌≡◌, refl, inl, inr, Bool, true, ◌&&◌, Option, some, List, [], ◌∷◌, ◌++◌, arith, leb,
  Bool-cases, Option-cases, length, find, update_first, Eq,
}
use guage.Runtime.Refs.{CellOps, RefOp, retains, releases, held, held-append, held-update_first}
use guage.Runtime.Ets.{Table, Tables, max_entries, is_named, is_key, ets_insert}
use guage.Runtime.Ets.Tables.{
  insert_absent, insert_old, insert_full, insert_new, delete_absent, delete_no_key, delete_old,
}
use guage.Runtime.Ets.{
  put, add, drop_key, ets_delete_key, ets_delete_table, destroy_where, destroyed, ets_create,
}
use guage.Runtime.Refs.{
  releases-append, retains-append, releases-release_all, retains-release_all, release_all,
  held-remove_swap,
}

-- The references that the tables hold to cells that `q` picks.
abbrev pub owned {ℓ} : {N C : Type ℓ} → (C → Bool) → Tables N C → ℕ
owned q [] = 0
owned q (t ∷ ts) = held q t.entries + owned q ts

-- The books balance: after + released = before + retained.
abbrev pub Balanced {ℓ} : {N C : Type ℓ} → Tables N C → Tables N C → List (RefOp C) → Type ℓ
Balanced {C} ts ts' log = (q : C → Bool) → owned q ts' + releases q log ≡ owned q ts + retains q log

module _ {ℓ} {N C : Type ℓ} where
  owned-append : (q : C → Bool) (ts us : Tables N C) → owned q (ts ++ us) ≡ owned q ts + owned q us
  owned-append q [] us = omega arith
  owned-append q (t ∷ ts) us = omega (arith, owned-append q ts us)

  owned-update_first :
      (q : C → Bool) (p : Table N C → Bool) (f : Table N C → Table N C) (ts : Tables N C)
      (t : Table N C)
      → find p ts ≡ some t
      → owned q (update_first p f ts) + held q t.entries ≡ owned q ts + held q (f t).entries
  owned-update_first q p f [] t h = cc
  owned-update_first q p f (u ∷ ts) t h = ground (arith, owned-update_first q p f ts t)

module _ {ℓ} {N C : Type ℓ} ⦃e : Eq N⦄ ⦃o : CellOps C⦄ where
  -- `ets_insert` retains what it stores and releases what it overwrites.
  pub ets_insert-Balanced :
      (ts : Tables N C) (n : N) (k v : C)
      → Balanced ts (ets_insert ts n k v).1 (ets_insert ts n k v).2
  ets_insert-Balanced ts n k v q = elim (Option-cases (find (is_named n) ts)) [
    | inl h ↦ rw (insert_absent ts n k v h)
    | inr (t, h) ↦ elim (Option-cases (find (is_key k) t.entries)) [
      | inr (x, g) ↦ rw (insert_old ts n k v t x h g) (
          omega (
            arith,
            owned-update_first q (is_named n) (put k v) ts t h,
            held-update_first q (is_key k) v t.entries x g,
          ))
      | inl g ↦ elim (Bool-cases (leb max_entries (length t.entries))) [
        | inl b ↦ rw (insert_full ts n k v t h g b)
        | inr b ↦ rw (insert_new ts n k v t h g b) (
            omega (
              arith,
              owned-update_first q (is_named n) (add k v) ts t h,
              held-append q t.entries ((k, v) ∷ []),
            ))
      ]
    ]
  ]

  -- `ets_delete_key` releases the key and the value that it removes.
  pub ets_delete_key-Balanced :
      (ts : Tables N C) (n : N) (k : C)
      → Balanced ts (ets_delete_key ts n k).1 (ets_delete_key ts n k).2
  ets_delete_key-Balanced ts n k q = elim (Option-cases (find (is_named n) ts)) [
    | inl h ↦ rw (delete_absent ts n k h)
    | inr (t, h) ↦ elim (Option-cases (find (is_key k) t.entries)) [
      | inr (x, g) ↦ rw (delete_old ts n k t x h g) (
          omega (
            arith,
            owned-update_first q (is_named n) (drop_key k) ts t h,
            held-remove_swap q (is_key k) t.entries x g,
          ))
      | inl g ↦ rw (delete_no_key ts n k t h g)
    ]
  ]

  -- `ets_delete_table` releases every key and value of the table.
  pub ets_delete_table-Balanced :
      (ts : Tables N C) (n : N) → Balanced ts (ets_delete_table ts n).1 (ets_delete_table ts n).2
  unfolding ets_delete_table
  ets_delete_table-Balanced ts n q = elim (Option-cases (find (is_named n) ts)) [
    | inl h ↦ rw (h, ets_delete_table) refl
    | inr (t, h) ↦
        rw (h, ets_delete_table)
          (omega (
            arith,
            owned-update_first q (is_named n) destroyed ts t h,
            releases-release_all q t.entries,
            retains-release_all q t.entries,
          ))
  ]

  pub destroy_where-Balanced :
      (p : Table N C → Bool) (ts : Tables N C)
      → Balanced ts (destroy_where p ts).0 (destroy_where p ts).1
  unfolding destroy_where
  destroy_where-Balanced p [] q = refl
  destroy_where-Balanced p (t ∷ ts) q = elim (Bool-cases (t.active && p t)) [
    | inl b ↦ rw b (
        omega (
          arith,
          destroy_where-Balanced p ts q,
          releases-release_all q t.entries,
          retains-release_all q t.entries,
          releases-append q (release_all t.entries) (destroy_where p ts).1,
          retains-append q (release_all t.entries) (destroy_where p ts).1,
        ))
    | inr b ↦ rw b (omega (arith, destroy_where-Balanced p ts q))
  ]

  pub ets_create-Balanced :
      (ts : Tables N C) (n : N) (i : Option ℕ) → Balanced ts (ets_create ts n i).1 []
  unfolding ets_create
  ets_create-Balanced ts n i q = ground (
    arith,
    owned-append q ts (record { name = some n; owner = i; entries = []; active = true } ∷ []),
  )
