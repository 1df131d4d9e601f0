-- ===== src/Runtime/Slots/Access.antt =====
-- What a lookup by id finds after each change of the slot arrays.
use guage.Prelude.{
  ℕ, ◌+◌, ◌<◌, ◌≡◌, refl, inl, inr, Bool, true, false, none, some, List, [], ◌∷◌, arith, ◌==◌,
  if◌then◌else◌, Bool-cases, Option-cases, find, update_first, find-holds, find-update_first_self,
  find-update_first_ne, update_first-absent, find-update_first_new, find-update_first_off,
}
use guage.Runtime.Slots.{
  Slot, Slots, max_slots, is_free, has_id, lookup_slot, claim, modify, free, take_slot, change,
  give_up,
}
use guage.Runtime.Slots.Invariant.{IsValid, valid-IsCounted, free_slot, claim_lem, claimed}

module _ {ℓ} {B : Type ℓ} where
  ids_apart : (i j : ℕ) (s : Slot B) → (j == i) ≡ false → has_id i s ≡ true → has_id j s ≡ false
  ids_apart i j s d h = ground arith

  -- The new id finds the new slot; every other id finds what it found before.
  pub lookup-claim :
      (t : Slots B) (b : B) (j : ℕ)
      → IsValid t
      → t.used < max_slots
      → lookup_slot (claim t b).1 j ≡ (
          if j == t.next_id
          then some (record { id = t.next_id; active = true; body = b })
          else lookup_slot t j)
  unfolding claimed
  lookup-claim t b j v h =
      let (s, e) = free_slot t (valid-IsCounted t v) h in
      rw (claim_lem t b (valid-IsCounted t v) h) (elim (Bool-cases (j == t.next_id)) [
        | inl y ↦
            let same : j ≡ t.next_id = ground arith in
            rw y (
              find-update_first_new is_free (has_id j) (take_slot t.next_id b) t.slots s e
                (ground arith) (v.old_ids j (omega arith)))
        | inr n ↦ rw n (
            find-update_first_ne is_free (has_id j) (take_slot t.next_id b) t.slots
              (λ x f. (ground arith, ground arith)))
      ])

  pub lookup-modify :
      (t : Slots B) (i j : ℕ) (f : B → B)
      → lookup_slot (modify t i f) j ≡ (
          if j == i
          then elim (lookup_slot t i) [ none ↦ none | some s ↦ some (change f s) ]
          else lookup_slot t j)
  unfolding modify
  lookup-modify t i j f = elim (Bool-cases (j == i)) [
    | inr n ↦ rw n (
        find-update_first_ne (has_id i) (has_id j) (change f) t.slots
          (λ x h. (ids_apart i j x n h, ids_apart i j x n h)))
    | inl y ↦ rw y (
        let same : j ≡ i = ground arith in
        rw same (elim (Option-cases (find (has_id i) t.slots)) [
          | inl h ↦ rw (update_first-absent (has_id i) (change f) t.slots h, h)
          | inr (s, h) ↦ rw (
            find-update_first_self (has_id i) (change f) t.slots s
                (find-holds (has_id i) t.slots s h) h,
            h,
          )
        ]))
  ]

  pub lookup-free :
      (t : Slots B) (i j : ℕ) (c : B → B)
      → IsValid t
      → lookup_slot (free t i c) j ≡ (if j == i then none else lookup_slot t j)
  unfolding free
  lookup-free t i j c v = elim (Bool-cases (j == i)) [
    | inr n ↦ rw n (
        find-update_first_ne (has_id i) (has_id j) (give_up c) t.slots
          (λ x h. (ids_apart i j x n h, refl)))
    | inl y ↦ rw y (
        let same : j ≡ i = ground arith in
        rw same (find-update_first_off (has_id i) (give_up c) t.slots (λ x. refl) (v.ids i)))
  ]

  -- The sum of a measure over the slots, and how the changes move it.
  abbrev pub total : (B → ℕ) → List (Slot B) → ℕ
  total w [] = 0
  total w (s ∷ ss) = w s.body + total w ss

  pub total-update_first :
      (w : B → ℕ) (p : Slot B → Bool) (g : Slot B → Slot B) (ss : List (Slot B)) (s : Slot B)
      → find p ss ≡ some s
      → total w (update_first p g ss) + w s.body ≡ total w ss + w (g s).body
  total-update_first w p g [] s h = cc
  total-update_first w p g (x ∷ ss) s h = ground (arith, total-update_first w p g ss s)
