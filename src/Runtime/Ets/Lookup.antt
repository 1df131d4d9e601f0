-- ===== src/Runtime/Ets/Lookup.antt =====
-- What a reader of the ETS tables sees after each operation.
use guage.Prelude.{
  ℕ, ◌≤◌, ◌≡◌, refl, ◌∙◌, inl, inr, Bool, true, false, ◌&&◌, Option, none, some, [], ◌∷◌, arith,
  leb, if◌then◌else◌, Bool-cases, Option-cases, length, find, count, update_first, find-eq-none,
  find-holds, find-append, find-remove_swap, find-update_first_self, find-update_first_ne, Eq,
  equal, eq_of_equal,
}
use guage.Runtime.Refs.{CellOps, cell_equal}
use guage.Runtime.Ets.Tables.{
  insert_old, insert_new, insert_absent, insert_full, delete_old, delete_no_key,
}
use guage.Runtime.Ets.{
  Table, Tables, Inserted, owned_by, is_named, is_key, put, add, drop_key, ets_insert, ets_lookup,
  ets_delete_key, destroy_where, ets_destroy_by_owner, ets_find, max_entries,
}

module _ {ℓ} {N C : Type ℓ} ⦃e : Eq N⦄ ⦃o : CellOps C⦄ where
  -- The value that `ets_lookup` returns is that of the entry that the two searches find.
  lookup_found :
      (ts : Tables N C) (n : N) (k : C) (t : Table N C)
      → find (is_named n) ts ≡ some t
      → (ets_lookup ts n k).0 ≡ elim (find (is_key k) t.entries) [ none ↦ none | some x ↦ some x.1 ]
  unfolding ets_lookup
  lookup_found ts n k t h = rw (h, ets_lookup) (ground arith)

  lookup_absent :
      (ts : Tables N C) (n : N) (k : C) → find (is_named n) ts ≡ none → (ets_lookup ts n k).0 ≡ none
  unfolding ets_lookup
  lookup_absent ts n k h = rw (h, ets_lookup)

  self_named :
      (n : N) (f : Table N C → Table N C)
      → ((t : Table N C) → is_named n (f t) ≡ is_named n t)
      → (ts : Tables N C) (t : Table N C) → find (is_named n) ts ≡ some t
      → find (is_named n) (update_first (is_named n) f ts) ≡ some (f t)
  self_named n f k ts t h =
      find-update_first_self (is_named n) f ts t (k t ∙ find-holds (is_named n) ts t h) h

  -- Where ets_insert reports success, ets_lookup of the same table and key returns the cell that
  -- was inserted.
  pub lookup-insert :
      (ts : Tables N C) (n : N) (k v : C)
      → (ets_insert ts n k v).0 ≡ Inserted.ok
      → (ets_lookup (ets_insert ts n k v).1 n k).0 ≡ some v
  lookup-insert ts n k v ok = elim (Option-cases (find (is_named n) ts)) [
    | inl h ↦ absurd (cc (insert_absent ts n k v h))
    | inr (t, h) ↦ elim (Option-cases (find (is_key k) t.entries)) [
      | inr (x, g) ↦ rw (
        insert_old ts n k v t x h g,
        lookup_found _ n k (put k v t) (self_named n (put k v) (λ t. refl) ts t h),
        find-update_first_self (is_key k) (λ x. (x.0, v)) t.entries x
            (find-holds (is_key k) t.entries x g) g,
      )
      | inl g ↦ elim (Bool-cases (leb max_entries (length t.entries))) [
        | inl b ↦ absurd (cc (insert_full ts n k v t h g b))
        | inr b ↦
            rw
              (
                insert_new ts n k v t h g b,
                lookup_found _ n k (add k v t) (self_named n (add k v) (λ t. refl) ts t h),
              )
              (ground (arith, find-append (is_key k) t.entries ((k, v) ∷ []), o.equal_refl k))
      ]
    ]
  ]

  named_apart :
      (n m : N) (t : Table N C) → equal n m ≡ false → is_named n t ≡ true → is_named m t ≡ false
  named_apart n m t d h = go t.active t.name h
    where
      go :
          (a : Bool) (p : Option N)
          → (a && elim p [ none ↦ false | some x ↦ equal x n ]) ≡ true
          → (a && elim p [ none ↦ false | some x ↦ equal x m ]) ≡ false
      go false p h = refl
      go true none h = refl
      go true (some x) h = rw (eq_of_equal x n h) d

  -- A write to one table does not show at another name.
  other_table :
      (n m : N) (f : Table N C → Table N C)
      → ((t : Table N C) → is_named m (f t) ≡ true → is_named m t ≡ true)
      → equal n m ≡ false
      → (ts : Tables N C)
      → find (is_named m) (update_first (is_named n) f ts) ≡ find (is_named m) ts
  other_table n m f k d ts = find-update_first_ne (is_named n) (is_named m) f ts (λ t h.
      let other = named_apart n m t d h in
      (other, elim (Bool-cases (is_named m (f t))) [ inl b ↦ let yes_m = k t b in cc | inr b ↦ b ]))

  lookup_congr :
      (ts us : Tables N C) (n : N) (k : C)
      → find (is_named n) ts ≡ find (is_named n) us
      → ets_lookup ts n k ≡ ets_lookup us n k
  unfolding ets_lookup
  lookup_congr ts us n k h = rw (h, ets_lookup)

  -- ets_insert, whatever its result, changes neither the result nor the references of a lookup in
  -- a table of another name.
  pub lookup-insert_other_table :
      (ts : Tables N C) (n m : N) (k v j : C)
      → equal n m ≡ false
      → ets_lookup (ets_insert ts n k v).1 m j ≡ ets_lookup ts m j
  lookup-insert_other_table ts n m k v j d = elim (Option-cases (find (is_named n) ts)) [
    | inl h ↦ rw (insert_absent ts n k v h)
    | inr (t, h) ↦ elim (Option-cases (find (is_key k) t.entries)) [
      | inr (x, g) ↦
          rw (insert_old ts n k v t x h g)
            (lookup_congr _ ts m j (other_table n m (put k v) (λ t b. b) d ts))
      | inl g ↦ elim (Bool-cases (leb max_entries (length t.entries))) [
        | inl b ↦ rw (insert_full ts n k v t h g b)
        | inr b ↦
            rw (insert_new ts n k v t h g b)
              (lookup_congr _ ts m j (other_table n m (add k v) (λ t b. b) d ts))
      ]
    ]
  ]

  -- ets_insert under a key, whatever its result, does not change the value that ets_lookup returns
  -- in the same table for another key, where no cell equals both keys.
  pub lookup-insert_other_key :
      (ts : Tables N C) (n : N) (k v j : C)
      → ((x : C) → cell_equal x k ≡ true → cell_equal x j ≡ false)
      → (ets_lookup (ets_insert ts n k v).1 n j).0 ≡ (ets_lookup ts n j).0
  lookup-insert_other_key ts n k v j d = elim (Option-cases (find (is_named n) ts)) [
    | inl h ↦ rw (insert_absent ts n k v h)
    | inr (t, h) ↦ elim (Option-cases (find (is_key k) t.entries)) [
      | inr (x, g) ↦
          rw
            (
              insert_old ts n k v t x h g,
              lookup_found _ n j (put k v t) (self_named n (put k v) (λ t. refl) ts t h),
              lookup_found ts n j t h,
            )
            (rw (
              find-update_first_ne (is_key k) (is_key j) (λ x. (x.0, v)) t.entries
                (λ x b. (d x.0 b, d x.0 b))))
      | inl g ↦ elim (Bool-cases (leb max_entries (length t.entries))) [
        | inl b ↦ rw (insert_full ts n k v t h g b)
        | inr b ↦
            rw
              (
                insert_new ts n k v t h g b,
                lookup_found _ n j (add k v t) (self_named n (add k v) (λ t. refl) ts t h),
                lookup_found ts n j t h,
              )
              (ground (arith, find-append (is_key j) t.entries ((k, v) ∷ []), o.equal_refl k, d k))
      ]
    ]
  ]

  -- After ets_delete_key of a key that at most one entry of an existing table matches, ets_lookup
  -- of that key finds nothing.
  pub lookup-delete_key :
      (ts : Tables N C) (n : N) (k : C) (t : Table N C)
      → find (is_named n) ts ≡ some t
      → count (is_key k) t.entries ≤ 1
      → (ets_lookup (ets_delete_key ts n k).1 n k).0 ≡ none
  lookup-delete_key ts n k t h u = elim (Option-cases (find (is_key k) t.entries)) [
    | inl g ↦ rw (delete_no_key ts n k t h g, lookup_found ts n k t h, g)
    | inr (x, g) ↦
        rw
          (
            delete_old ts n k t x h g,
            lookup_found _ n k (drop_key k t) (self_named n (drop_key k) (λ t. refl) ts t h),
          )
          (ground (
            arith,
            find-remove_swap (is_key k) (is_key k) t.entries x g u,
            find-holds (is_key k) t.entries x g,
          ))
  ]

  gone :
      (i : ℕ) (n : N) (ts : Tables N C)
      → count (is_named n) ts ≡ 0
      → find (is_named n) (destroy_where (owned_by i) ts).0 ≡ none
  unfolding destroy_where
  gone i n [] h = refl
  gone i n (t ∷ ts) h = ground (arith, gone i n ts)

  -- After the death of an actor a name that at most one active table bears finds its table as
  -- before, unless that actor owned it: then it finds nothing.
  pub find-destroy_by_owner :
      (ts : Tables N C) (i : ℕ) (n : N)
      → count (is_named n) ts ≤ 1
      → ets_find (ets_destroy_by_owner ts i).0 n
        ≡ elim (ets_find ts n) [ none ↦ none | some t ↦ if owned_by i t then none else some t ]
  unfolding ets_find ets_destroy_by_owner destroy_where
  find-destroy_by_owner [] i n u = refl
  find-destroy_by_owner (t ∷ ts) i n u =
      ground (arith, find-destroy_by_owner ts i n, find-eq-none (is_named n) ts, gone i n ts)
