-- ===== src/Runtime/Registry/Unique.antt =====
-- The invariant of the registry: a name stands for one id, and an id has one name.
use guage.Prelude.{
  ℕ, ◌≤◌, ◌<◌, ◌≢◌, ◌⊎◌, inl, inr, Bool-cases, ◌≡◌, refl, Bool, true, false, [], ◌∷◌, ◌++◌, none,
  arith, leb, length, length-append, find, count, remove_swap, count-append, count-eq-zero,
  count-remove_swap, length-remove_swap, Option-cases, remove_swap-absent, Eq, equal, eq_of_equal,
}
use guage.Runtime.Registry.{
  Entry, Registry, Status, ok, dup_name, dup_id, full, dead, max_registry, named, has_id, scan,
  register,
}

module _ {ℓ} {N : Type ℓ} ⦃e : Eq N⦄ where
  pub record IsValid (r : Registry N) : Type ℓ where
    pub names : (n : N) → count (named n) r ≤ 1
    pub ids : (i : ℕ) → count (has_id i) r ≤ 1
    pub room : length r ≤ max_registry

  -- What the loop of `register` has found out when it ends without a clash.
  pub scan-ok :
      (n : N) (i : ℕ) (r : Registry N)
      → scan n i r ≡ ok
      → (find (named n) r ≡ none) × (find (has_id i) r ≡ none)
  unfolding scan
  scan-ok n i [] h = (refl, refl)
  scan-ok n i (x ∷ xs) h = ground (arith, scan-ok n i xs)

  pub scan-free :
      (n : N) (i : ℕ) (r : Registry N)
      → find (named n) r ≡ none
      → find (has_id i) r ≡ none
      → scan n i r ≡ ok
  unfolding scan
  scan-free n i [] h k = refl
  scan-free n i (x ∷ xs) h k = ground (arith, scan-free n i xs)

  -- The two outcomes of `register`: the entry is appended, and nothing clashes with it; or the
  -- registry is left as it was, with an error.
  pub record Accepted (live : ℕ → Bool) (r : Registry N) (n : N) (i : ℕ) : Type ℓ where
    pub result : register live r n i ≡ (ok, r ++ (record { name = n; id = i } ∷ []))
    pub below : length r < max_registry
    pub alive : live i ≡ true
    pub new_name : find (named n) r ≡ none
    pub new_id : find (has_id i) r ≡ none

  pub record Rejected (live : ℕ → Bool) (r : Registry N) (n : N) (i : ℕ) : Type ℓ where
    pub kept : (register live r n i).1 ≡ r
    pub error : (register live r n i).0 ≢ ok

  pub register-cases :
      (live : ℕ → Bool) (r : Registry N) (n : N) (i : ℕ) → Accepted live r n i ⊎ Rejected live r n i
  unfolding register
  register-cases live r n i = go (leb max_registry (length r)) (live i) (scan n i r) refl refl refl
    where
      go :
          (f a : Bool) (s : Status)
          → leb max_registry (length r) ≡ f
          → live i ≡ a
          → scan n i r ≡ s
          → Accepted live r n i ⊎ Rejected live r n i
      go true a s p q t = inr (record { kept = rw p; error = rw p cc })
      go false false s p q t = inr (record { kept = rw (p, q); error = rw (p, q) cc })
      go false true ok p q t = inl (record {
        result = rw (p, q, t);
        below = ground arith;
        alive = q;
        new_name = (scan-ok n i r t).0;
        new_id = (scan-ok n i r t).1;
      })
      go false true dup_name p q t = inr (record { kept = rw (p, q, t); error = rw (p, q, t) cc })
      go false true dup_id p q t = inr (record { kept = rw (p, q, t); error = rw (p, q, t) cc })
      go false true full p q t = inr (record { kept = rw (p, q, t); error = rw (p, q, t) cc })
      go false true dead p q t = inr (record { kept = rw (p, q, t); error = rw (p, q, t) cc })

  append-IsValid :
      (r : Registry N) (n : N) (i : ℕ)
      → IsValid r
      → length r < max_registry
      → find (named n) r ≡ none
      → find (has_id i) r ≡ none
      → IsValid (r ++ (record { name = n; id = i } ∷ []))
  append-IsValid r n i v b h k = record {
    names = λ m. elim (Bool-cases (equal n m)) [
      | inl t ↦ rw (count-append, ← eq_of_equal n m t) (ground (arith, count-eq-zero (named n) r h))
      | inr f ↦ rw (count-append, f) (omega (arith, v.names m))
    ];
    ids = λ j. rw (count-append) (ground (arith, count-eq-zero (has_id i) r k, v.ids j));
    room = omega (arith, length-append r (record { name = n; id = i } ∷ []));
  }

  -- Registration keeps the invariant of the registry, whether it succeeds or fails: no name has
  -- two entries, no id has two entries, and there are at most 256.
  pub register-IsValid :
      (live : ℕ → Bool) (r : Registry N) (n : N) (i : ℕ)
      → IsValid r
      → IsValid (register live r n i).1
  register-IsValid live r n i v = elim (register-cases live r n i) [
    | inl a ↦ rw (a.result) (append-IsValid r n i v a.below a.new_name a.new_id)
    | inr b ↦ rw (b.kept) v
  ]

  -- The removal of the first entry that any test picks, with the last entry moved to its place,
  -- keeps the invariant of the registry.
  pub remove-IsValid : (p : Entry N → Bool) (r : Registry N) → IsValid r → IsValid (remove_swap p r)
  remove-IsValid p r v = elim (Option-cases (find p r)) [
    | inl h ↦ rw (remove_swap-absent p r h) v
    | inr (x, h) ↦ record {
      names = λ n. omega (arith, count-remove_swap p (named n) r x h, v.names n);
      ids = λ i. omega (arith, count-remove_swap p (has_id i) r x h, v.ids i);
      room = omega (arith, length-remove_swap p r x h, v.room);
    }
  ]
