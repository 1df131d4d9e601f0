-- ===== src/Runtime/Registry/Methods.antt =====
-- The registry as a finite map from names to ids: what each method does to every lookup.
use guage.Prelude.{
  ℕ, ◌<◌, ◌≡◌, refl, ap, ◌↔◌, inl, inr, Bool, true, Option, none, some, [], ◌∷◌, ◌++◌, arith, ◌==◌,
  if◌then◌else◌, Bool-cases, Option-cases, length, find, count-eq-zero, find-holds, find-append,
  remove_swap-absent, find-remove_swap, count-pos, find_unique, Eq, equal, eq_of_equal,
}
use guage.Runtime.Registry.{
  Entry, Registry, ok, max_registry, named, has_id, register, lookup, unregister_name,
  unregister_id,
}
use guage.Runtime.Registry.Unique.{IsValid, scan-free, register-cases}

module _ {ℓ} {N : Type ℓ} ⦃e : Eq N⦄ where
  find-named_congr :
      (r : Registry N) (n m : N) → equal n m ≡ true → find (named n) r ≡ find (named m) r
  find-named_congr r n m t = rw (eq_of_equal n m t)

  -- A registration succeeds exactly when fewer than 256 entries exist, the process is alive, and
  -- neither the name nor the id is registered.
  pub register-ok_iff :
      (live : ℕ → Bool) (r : Registry N) (n : N) (i : ℕ)
      → ((register live r n i).0 ≡ ok) ↔ (
          (length r < max_registry)
          × (live i ≡ true)
          × (find (named n) r ≡ none)
          × (find (has_id i) r ≡ none))
  register-ok_iff live r n i = (forth, back)
    where
      forth :
          (register live r n i).0 ≡ ok
          → (length r < max_registry)
            × (live i ≡ true)
            × (find (named n) r ≡ none)
            × (find (has_id i) r ≡ none)
      forth h = elim (register-cases live r n i) [
        | inl a ↦ (a.below, a.alive, a.new_name, a.new_id)
        | inr b ↦ absurd (b.error h)
      ]

      back :
          (length r < max_registry)
            × (live i ≡ true)
            × (find (named n) r ≡ none)
            × (find (has_id i) r ≡ none)
          → (register live r n i).0 ≡ ok
      back (a, b, c, d) = unfold register in ground (arith, scan-free n i r c d)

  lookup-append :
      (r : Registry N) (n m : N) (i : ℕ)
      → find (named n) r ≡ none
      → lookup (r ++ (record { name = n; id = i } ∷ [])) m
        ≡ (if equal n m then some i else lookup r m)
  unfolding lookup
  lookup-append r n m i h =
      ground
        (arith, find-append (named m) r (record { name = n; id = i } ∷ []), find-named_congr r n m)

  -- After a registration that succeeds, its name finds its id and every other name finds what it
  -- found before; after one that fails, every name does.
  pub lookup-register :
      (live : ℕ → Bool) (r : Registry N) (n m : N) (i : ℕ)
      → lookup (register live r n i).1 m ≡ elim (register live r n i).0 [
        | ok ↦ (if equal n m then some i else lookup r m)
        | _ ↦ lookup r m
      ]
  lookup-register live r n m i = elim (register-cases live r n i) [
    | inl a ↦ rw (a.result) (lookup-append r n m i a.new_name)
    | inr b ↦ rw (b.kept) (ground (arith, b.error))
  ]

  -- In a valid registry, after the removal of a name that name finds nothing, and every other name
  -- finds what it found before.
  pub lookup-unregister_name :
      (r : Registry N) (n m : N)
      → IsValid r
      → lookup (unregister_name r n).1 m ≡ (if equal n m then none else lookup r m)
  unfolding lookup unregister_name
  lookup-unregister_name r n m v = elim (Option-cases (find (named n) r)) [
    | inl h ↦ ground (arith, find-named_congr r n m)
    | inr (x, h) ↦ ground (
      arith,
      find-remove_swap (named n) (named m) r x h (v.names m),
      find-holds (named n) r x h,
      e.equal_iff x.name n,
      e.equal_iff x.name m,
      e.equal_iff n m,
    )
  ]

  -- In a valid registry, after the removal of a process the name that found it finds nothing, and
  -- every other name finds what it found before.
  pub lookup-unregister_id :
      (r : Registry N) (m : N) (i : ℕ)
      → IsValid r
      → lookup (unregister_id r i) m
        ≡ elim (lookup r m) [ none ↦ none | some j ↦ if j == i then none else some j ]
  unfolding lookup unregister_id
  lookup-unregister_id r m i v = go (find (has_id i) r) (find (named m) r) refl refl
    where
      go :
          (f g : Option (Entry N))
          → find (has_id i) r ≡ f
          → find (named m) r ≡ g
          → lookup (unregister_id r i) m
            ≡ elim (lookup r m) [ none ↦ none | some j ↦ if j == i then none else some j ]
      go none none h k = rw (remove_swap-absent (has_id i) r h) (ground arith)
      go none (some y) h k =
          rw (remove_swap-absent (has_id i) r h)
            (ground (arith, count-eq-zero (has_id i) r h, count-pos (has_id i) (named m) r y k))
      go (some x) none h k = ground (arith, find-remove_swap (has_id i) (named m) r x h (v.names m))
      go (some x) (some y) h k = elim (Bool-cases (named m x)) [
        | inl t ↦
            let same : y.id ≡ x.id =
              ap (λ (z : Entry N). z.id)
                (find_unique (named m) (has_id i) r y x k h t (v.names m)) in
            ground (
              arith,
              find-remove_swap (has_id i) (named m) r x h (v.names m),
              find-holds (has_id i) r x h,
              same,
            )
        | inr f ↦ elim (Bool-cases (has_id i y)) [
          | inl u ↦
              let same : named m x ≡ named m y =
                ap (named m) (find_unique (has_id i) (named m) r x y h k u (v.ids i)) in
              ground (arith, find-holds (named m) r y k, same)
          | inr g ↦ ground (arith, find-remove_swap (has_id i) (named m) r x h (v.names m))
        ]
      ]
