-- ===== src/Runtime/Ets/Tables.antt =====
-- What each operation on a table returns, by the outcome of its searches.
use guage.Prelude.{◌≡◌, refl, true, false, none, some, [], ◌∷◌, leb, length, find, update_first, Eq}
use guage.Runtime.Refs.{CellOps, retain, release}
use guage.Runtime.Ets.{
  Table, Tables, Inserted, Deleted, max_entries, is_named, is_key, put, add, drop_key, ets_insert,
  ets_delete_key,
}

module _ {ℓ} {N C : Type ℓ} ⦃e : Eq N⦄ ⦃o : CellOps C⦄ (ts : Tables N C) (n : N) where
  pub insert_absent :
      (k v : C) → find (is_named n) ts ≡ none → ets_insert ts n k v ≡ (Inserted.not_found, ts, [])
  unfolding ets_insert
  insert_absent k v h = rw (h, ets_insert)

  pub insert_old :
      (k v : C) (t : Table N C) (x : C × C)
      → find (is_named n) ts ≡ some t
      → find (is_key k) t.entries ≡ some x
      → ets_insert ts n k v
        ≡ (Inserted.ok, update_first (is_named n) (put k v) ts, retain v ∷ release x.1 ∷ [])
  unfolding ets_insert
  insert_old k v t x h g = rw (h, ets_insert) (rw g refl)

  pub insert_full :
      (k v : C) (t : Table N C)
      → find (is_named n) ts ≡ some t
      → find (is_key k) t.entries ≡ none
      → leb max_entries (length t.entries) ≡ true
      → ets_insert ts n k v ≡ (Inserted.full, ts, [])
  unfolding ets_insert
  insert_full k v t h g b = rw (h, ets_insert) (rw g (rw b refl))

  pub insert_new :
      (k v : C) (t : Table N C)
      → find (is_named n) ts ≡ some t
      → find (is_key k) t.entries ≡ none
      → leb max_entries (length t.entries) ≡ false
      → ets_insert ts n k v
        ≡ (Inserted.ok, update_first (is_named n) (add k v) ts, retain k ∷ retain v ∷ [])
  unfolding ets_insert
  insert_new k v t h g b = rw (h, ets_insert) (rw g (rw b refl))

  pub delete_absent :
      (k : C) → find (is_named n) ts ≡ none → ets_delete_key ts n k ≡ (Deleted.not_found, ts, [])
  unfolding ets_delete_key
  delete_absent k h = rw (h, ets_delete_key)

  pub delete_no_key :
      (k : C) (t : Table N C)
      → find (is_named n) ts ≡ some t
      → find (is_key k) t.entries ≡ none
      → ets_delete_key ts n k ≡ (Deleted.no_key, ts, [])
  unfolding ets_delete_key
  delete_no_key k t h g = rw (h, ets_delete_key) (rw g refl)

  pub delete_old :
      (k : C) (t : Table N C) (x : C × C)
      → find (is_named n) ts ≡ some t
      → find (is_key k) t.entries ≡ some x
      → ets_delete_key ts n k
        ≡ (Deleted.ok, update_first (is_named n) (drop_key k) ts, release x.0 ∷ release x.1 ∷ [])
  unfolding ets_delete_key
  delete_old k t x h g = rw (h, ets_delete_key) (rw g refl)
