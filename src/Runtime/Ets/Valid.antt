-- ===== src/Runtime/Ets/Valid.antt =====
-- The invariant of the ETS tables.
use guage.Prelude.{
  ℕ, ◌≤◌, ◌<◌, ◌≡◌, refl, ◌≢◌, inl, inr, Bool, true, false, ◌&&◌, Option, none, some, [], ◌∷◌,
  arith, leb, Bool-cases, Option-cases, length, length-append, find, count, update_first,
  count-append, count-eq-zero, find-holds, length-remove_swap, length-update_first,
  count-update_first_le, All, All-append, All-update_first, Eq, equal, eq_of_equal,
}
use guage.Runtime.Refs.{CellOps}
use guage.Runtime.Ets.Tables.{
  insert_absent, insert_old, insert_full, insert_new, delete_absent, delete_no_key, delete_old,
}
use guage.Runtime.Ets.{
  Table, Tables, max_tables, max_entries, is_named, destroyed, is_key, put, add, drop_key,
  ets_insert, ets_delete_table, ets_create, destroy_where, ets_delete_key,
}

-- A destroyed table is empty, an active one has a name, and none is over its size.
pub record IsSound {ℓ} {N C : Type ℓ} (t : Table N C) : Type ℓ where
  pub cleared : t.active ≡ false → t.entries ≡ []
  pub name_of_active : t.active ≡ true → t.name ≢ none
  pub fits : length t.entries ≤ max_entries

module _ {ℓ} {N C : Type ℓ} ⦃e : Eq N⦄ ⦃o : CellOps C⦄ where
  pub record IsValid (ts : Tables N C) : Type ℓ where
    pub names : (n : N) → count (is_named n) ts ≤ 1
    pub room : length ts ≤ max_tables
    pub sound : All IsSound ts

  -- A write to one table that does not give it another name, and leaves it sound.
  update-IsValid :
      (ts : Tables N C) (n : N) (f : Table N C → Table N C)
      → ((m : N) (t : Table N C) → is_named m (f t) ≡ true → is_named m t ≡ true)
      → ((t : Table N C) → find (is_named n) ts ≡ some t → IsSound t → IsSound (f t))
      → IsValid ts
      → IsValid (update_first (is_named n) f ts)
  update-IsValid ts n f k s v = record {
    names =
        λ m. omega (arith, count-update_first_le (is_named n) (is_named m) f ts (k m), v.names m);
    room = omega (arith, length-update_first (is_named n) f ts, v.room);
    sound = All-update_first IsSound (is_named n) f ts s v.sound;
  }

  put-IsSound : (k w : C) (t : Table N C) → IsSound t → t.active ≡ true → IsSound (put k w t)
  put-IsSound k w t s a = record {
    cleared = λ h. cc;
    name_of_active = s.name_of_active;
    fits = omega (arith, length-update_first (is_key k) (λ x. (x.0, w)) t.entries, s.fits);
  }

  drop-IsSound :
      (k : C) (t : Table N C) (x : C × C)
      → find (is_key k) t.entries ≡ some x
      → IsSound t
      → t.active ≡ true
      → IsSound (drop_key k t)
  drop-IsSound k t x g s a = record {
    cleared = λ h. cc;
    name_of_active = s.name_of_active;
    fits = omega (arith, length-remove_swap (is_key k) t.entries x g, s.fits);
  }

  add-IsSound :
      (k w : C) (t : Table N C)
      → length t.entries < max_entries
      → IsSound t
      → t.active ≡ true
      → IsSound (add k w t)
  add-IsSound k w t l s a = record {
    cleared = λ h. cc;
    name_of_active = s.name_of_active;
    fits = omega (arith, length-append t.entries ((k, w) ∷ []));
  }

  pub destroyed-IsSound : (t : Table N C) → IsSound t → IsSound (destroyed t)
  destroyed-IsSound t s = record {
    cleared = λ h. refl;
    name_of_active = λ h. cc;
    fits = omega arith;
  }

  active_of_find :
      (ts : Tables N C) (n : N) (t : Table N C) → find (is_named n) ts ≡ some t → t.active ≡ true
  active_of_find ts n t h = ground (arith, find-holds (is_named n) ts t h)

  pub ets_insert-IsValid :
      (ts : Tables N C) (n : N) (k w : C) → IsValid ts → IsValid (ets_insert ts n k w).1
  ets_insert-IsValid ts n k w v = elim (Option-cases (find (is_named n) ts)) [
    | inl h ↦ rw (insert_absent ts n k w h) v
    | inr (t, h) ↦ elim (Option-cases (find (is_key k) t.entries)) [
      | inr (x, g) ↦ rw (insert_old ts n k w t x h g) (
          update-IsValid ts n (put k w) (λ m t p. p)
            (λ u i s. put-IsSound k w u s (active_of_find ts n u i)) v)
      | inl g ↦ elim (Bool-cases (leb max_entries (length t.entries))) [
        | inl b ↦ rw (insert_full ts n k w t h g b) v
        | inr b ↦ rw (insert_new ts n k w t h g b) (
            update-IsValid ts n (add k w) (λ m t p. p)
              (λ u i s. add-IsSound k w u (small t u h i b) s (active_of_find ts n u i)) v)
      ]
    ]
  ]
    where
      small :
          (t u : Table N C)
          → find (is_named n) ts ≡ some t
          → find (is_named n) ts ≡ some u
          → leb max_entries (length t.entries) ≡ false
          → length u.entries < max_entries
      small t u h i b = let e : t ≡ u = ground arith in rw (← e) (ground arith)

  pub ets_delete_key-IsValid :
      (ts : Tables N C) (n : N) (k : C) → IsValid ts → IsValid (ets_delete_key ts n k).1
  ets_delete_key-IsValid ts n k v = elim (Option-cases (find (is_named n) ts)) [
    | inl h ↦ rw (delete_absent ts n k h) v
    | inr (t, h) ↦ elim (Option-cases (find (is_key k) t.entries)) [
      | inl g ↦ rw (delete_no_key ts n k t h g) v
      | inr (x, g) ↦ rw (delete_old ts n k t x h g) (
          update-IsValid ts n (drop_key k) (λ m t p. p)
            (λ u i s.
              let same : t ≡ u = ground arith in
              drop-IsSound k u x (rw (← same) g) s (active_of_find ts n u i))
            v)
    ]
  ]

  pub ets_delete_table-IsValid :
      (ts : Tables N C) (n : N) → IsValid ts → IsValid (ets_delete_table ts n).1
  unfolding ets_delete_table
  ets_delete_table-IsValid ts n v = elim (Option-cases (find (is_named n) ts)) [
    | inl h ↦ rw (h, ets_delete_table) v
    | inr (t, h) ↦
        rw (h, ets_delete_table)
          (update-IsValid ts n destroyed (λ m t p. cc) (λ u i s. destroyed-IsSound u s) v)
  ]

  pub ets_create-IsValid :
      (ts : Tables N C) (n : N) (i : Option ℕ) → IsValid ts → IsValid (ets_create ts n i).1
  unfolding ets_create
  ets_create-IsValid ts n i v = elim (Option-cases (find (is_named n) ts)) [
    | inr (t, h) ↦ rw (h, ets_create) v
    | inl h ↦ elim (Bool-cases (leb max_tables (length ts))) [
      | inl b ↦ rw (h, ets_create) (rw b v)
      | inr b ↦
          rw (h, ets_create)
            (rw b (record {
              names = λ m. elim (Bool-cases (equal n m)) [
                | inl t ↦
                    rw (count-append, ← eq_of_equal n m t)
                      (ground (arith, count-eq-zero (is_named n) ts h))
                | inr f ↦ rw (count-append, f) (omega (arith, v.names m))
              ];
              room = ground (arith, length-append ts (fresh ∷ []));
              sound = All-append IsSound ts (fresh ∷ []) v.sound (fresh-IsSound, tt);
            }))
    ]
  ]
    where
      fresh : Table N C
      fresh = record { name = some n; owner = i; entries = []; active = true }

      fresh-IsSound : IsSound fresh
      fresh-IsSound = record { cleared = λ h. refl; name_of_active = λ h. cc; fits = omega arith }

  destroy_where-length :
      (p : Table N C → Bool) (ts : Tables N C) → length (destroy_where p ts).0 ≡ length ts
  unfolding destroy_where
  destroy_where-length p [] = refl
  destroy_where-length p (t ∷ ts) = ground (arith, destroy_where-length p ts)

  destroy_where-count :
      (p : Table N C → Bool) (m : N) (ts : Tables N C)
      → count (is_named m) (destroy_where p ts).0 ≤ count (is_named m) ts
  unfolding destroy_where
  destroy_where-count p m [] = omega arith
  destroy_where-count p m (t ∷ ts) = ground (arith, destroy_where-count p m ts)

  destroy_where-IsSound :
      (p : Table N C → Bool) (ts : Tables N C) → All IsSound ts → All IsSound (destroy_where p ts).0
  unfolding destroy_where
  destroy_where-IsSound p [] a = tt
  destroy_where-IsSound p (t ∷ ts) a = elim (Bool-cases (t.active && p t)) [
    | inl b ↦ rw b (destroyed-IsSound t a.0, destroy_where-IsSound p ts a.1)
    | inr b ↦ rw b (a.0, destroy_where-IsSound p ts a.1)
  ]

  pub destroy_where-IsValid :
      (p : Table N C → Bool) (ts : Tables N C) → IsValid ts → IsValid (destroy_where p ts).0
  destroy_where-IsValid p ts v = record {
    names = λ m. omega (arith, destroy_where-count p m ts, v.names m);
    room = omega (arith, destroy_where-length p ts, v.room);
    sound = destroy_where-IsSound p ts v.sound;
  }
