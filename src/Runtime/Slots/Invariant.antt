-- ===== src/Runtime/Slots/Invariant.antt =====
-- The invariant of the slot arrays.
use guage.Prelude.{
  ℕ, zero, suc, ◌+◌, ◌%◌, ◌^◌, ◌≤◌, ◌<◌, ◌≡◌, refl, ◌∙◌, inl, inr, Bool, false, none, some, List,
  [], ◌∷◌, arith, Option-cases, length, replicate, to_nat, find, count, update_first, count-eq-zero,
  length-update_first, count-update_first, count-update_first_le, dec_lt,
}
use guage.Runtime.Slots.{
  Slot, Slots, max_slots, is_free, has_id, lookup_slot, claim, modify, free, fresh, take_slot,
  change, give_up,
}

module _ {ℓ} {B : Type ℓ} where
  abbrev pub is_active : Slot B → Bool
  is_active s = s.active

  -- 64 slots, of which as many are active as are counted.
  pub record IsCounted (t : Slots B) : Type ℓ where
    pub width : length t.slots ≡ max_slots
    pub counted : count is_active t.slots ≡ t.used

  -- Besides, no two active slots share an id, and the next id is above all of them.
  pub record IsValid (t : Slots B) : Type ℓ where
    pub width : length t.slots ≡ max_slots
    pub counted : count is_active t.slots ≡ t.used
    pub ids : (i : ℕ) → count (has_id i) t.slots ≤ 1
    pub old_ids : (i : ℕ) → t.next_id ≤ i → count (has_id i) t.slots ≡ 0

  pub valid-IsCounted : (t : Slots B) → IsValid t → IsCounted t
  valid-IsCounted t v = record { width = v.width; counted = v.counted }

  count_free : (xs : List (Slot B)) → count is_free xs + count is_active xs ≡ length xs
  count_free [] = omega arith
  count_free (x ∷ xs) = ground (arith, count_free xs)

  -- One slot changes from `a` active to `b` active.
  count-claim :
      (q : Slot B → Bool) (i : ℕ) (b : B) (xs : List (Slot B)) (y : Slot B)
      → ((x : Slot B) → x.active ≡ false → q x ≡ false)
      → find is_free xs ≡ some y
      → count q (update_first is_free (take_slot i b) xs)
        ≡ count q xs + to_nat (q (take_slot i b y))
  count-claim q i b [] y h k = cc
  count-claim q i b (x ∷ xs) y h k = ground (arith, count-claim q i b xs y h, h x)

  -- A slot is free as long as the count is below the bound, so `claim` fails by its first test only.
  pub free_slot :
      (t : Slots B)
      → IsCounted t
      → t.used < max_slots
      → (s : Slot B) × (find is_free t.slots ≡ some s)
  free_slot t v h = elim (Option-cases (find is_free t.slots)) [
    | inl h' ↦
        absurd
          (omega (arith, count-eq-zero is_free t.slots h', count_free t.slots, v.width, v.counted))
    | inr s ↦ s
  ]

  pub claim_full : (t : Slots B) (b : B) → max_slots ≤ t.used → claim t b ≡ (none, t)
  unfolding claim
  claim_full t b h = ground arith

  unfoldable pub claimed : Slots B → B → Slots B
  claimed t b = record {
    slots = update_first is_free (take_slot t.next_id b) t.slots;
    used = t.used + 1;
    next_id = (t.next_id + 1) % 2 ^ 32;
  }

  pub claim_lem :
      (t : Slots B) (b : B)
      → IsCounted t
      → t.used < max_slots
      → claim t b ≡ (some t.next_id, claimed t b)
  unfolding claim claimed
  claim_lem t b v h = let (s, e) = free_slot t v h in ground arith

  -- Taking a slot keeps the count, whether one is free or not.
  pub claim-IsCounted : (t : Slots B) (b : B) → IsCounted t → IsCounted (claim t b).1
  unfolding claimed
  claim-IsCounted t b v = elim (dec_lt t.used max_slots) [
    | no h ↦ rw (claim_full t b (omega arith)) v
    | yes h ↦
        let (s, e) = free_slot t v h in
        rw (claim_lem t b v h) (record {
          width =
              omega (arith, length-update_first is_free (take_slot t.next_id b) t.slots, v.width);
          counted =
              ground (arith, count-claim is_active t.next_id b t.slots s (λ x p. p) e, v.counted);
        })
  ]

  claimed-IsValid :
      (t : Slots B) (b : B)
      → IsValid t
      → t.used < max_slots
      → t.next_id + 1 < 2 ^ 31
      → IsValid (claimed t b)
  unfolding claimed
  claimed-IsValid t b v h small =
      let (s, e) = free_slot t (valid-IsCounted t v) h in
      let next : (t.next_id + 1) % 2 ^ 32 ≡ t.next_id + 1 = omega arith in
      record {
        width = omega (arith, length-update_first is_free (take_slot t.next_id b) t.slots, v.width);
        counted =
            ground (arith, count-claim is_active t.next_id b t.slots s (λ x p. p) e, v.counted);
        ids = λ i. ground (
          arith,
          count-claim (has_id i) t.next_id b t.slots s (λ x p. rw p) e,
          v.ids i,
          v.old_ids i,
        );
        old_ids = λ i p.
            let above : t.next_id + 1 ≤ i = rw (← next) p in
            ground
              (arith, count-claim (has_id i) t.next_id b t.slots s (λ x p. rw p) e, v.old_ids i);
      }

  -- Taking a slot keeps the invariant, whether one is free or not, while the ids do not wrap.
  pub claim-IsValid :
      (t : Slots B) (b : B) → IsValid t → t.next_id + 1 < 2 ^ 31 → IsValid (claim t b).1
  claim-IsValid t b v small = elim (dec_lt t.used max_slots) [
    | yes h ↦ rw (claim_lem t b (valid-IsCounted t v) h) (claimed-IsValid t b v h small)
    | no h ↦ rw (claim_full t b (omega arith)) v
  ]

  pub modify-IsCounted : (t : Slots B) (i : ℕ) (f : B → B) → IsCounted t → IsCounted (modify t i f)
  unfolding modify
  modify-IsCounted t i f v =
      let g = change f in
      record {
        width = omega (arith, length-update_first (has_id i) g t.slots, v.width);
        counted = count-update_first (has_id i) is_active g t.slots (λ x. refl) ∙ v.counted;
      }

  pub modify-IsValid : (t : Slots B) (i : ℕ) (f : B → B) → IsValid t → IsValid (modify t i f)
  unfolding modify
  modify-IsValid t i f v =
      let g = change f in
      let c = modify-IsCounted t i f (valid-IsCounted t v) in
      record {
        width = c.width;
        counted = c.counted;
        ids = λ j.
            omega (arith, count-update_first (has_id i) (has_id j) g t.slots (λ x. refl), v.ids j);
        old_ids =
            λ j p. count-update_first (has_id i) (has_id j) g t.slots (λ x. refl) ∙ v.old_ids j p;
      }

  count-free :
      (i : ℕ) (g : Slot B → Slot B) (xs : List (Slot B)) (y : Slot B)
      → ((x : Slot B) → (g x).active ≡ false)
      → find (has_id i) xs ≡ some y
      → count is_active (update_first (has_id i) g xs) + 1 ≡ count is_active xs
  count-free i g [] y h k = cc
  count-free i g (x ∷ xs) y h k = ground (arith, count-free i g xs y h, h x)

  -- Freeing a slot that is in use keeps the count and the invariant.
  pub free-IsCounted :
      (t : Slots B) (i : ℕ) (c : B → B) (s : Slot B)
      → lookup_slot t i ≡ some s
      → IsCounted t
      → IsCounted (free t i c)
  unfolding free
  free-IsCounted t i c s h v =
      let g = give_up c in
      record {
        width = omega (arith, length-update_first (has_id i) g t.slots, v.width);
        counted = omega (arith, count-free i g t.slots s (λ x. refl) h, v.counted);
      }

  pub free-IsValid :
      (t : Slots B) (i : ℕ) (c : B → B) (s : Slot B)
      → lookup_slot t i ≡ some s
      → IsValid t
      → IsValid (free t i c)
  unfolding free
  free-IsValid t i c s h v =
      let g = give_up c in
      let k = free-IsCounted t i c s h (valid-IsCounted t v) in
      record {
        width = k.width;
        counted = k.counted;
        ids = λ j.
            omega
              (arith, count-update_first_le (has_id i) (has_id j) g t.slots (λ x p. cc), v.ids j);
        old_ids = λ j p. omega (
          arith,
          count-update_first_le (has_id i) (has_id j) g t.slots (λ x p. cc),
          v.old_ids j p,
        );
      }

  count-replicate :
      (q : Slot B → Bool) (s : Slot B) (n : ℕ) → q s ≡ false → count q (replicate n s) ≡ 0
  count-replicate q s zero h = refl
  count-replicate q s (suc n) h = ground (arith, count-replicate q s n)

  pub fresh-IsValid : (b : B) → IsValid (fresh b)
  unfolding fresh
  fresh-IsValid b = record {
    width = refl;
    counted = refl;
    ids = λ i. omega arith;
    old_ids = λ i p. refl;
  }
