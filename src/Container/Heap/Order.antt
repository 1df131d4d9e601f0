-- ===== src/Container/Heap/Order.antt =====
-- The order of the heap, and what a move of an entry does to keys and entries.
use guage.Prelude.{
  get_elem?-lt, ℕ, zero, suc, ◌+◌, ◌≤◌, ◌<◌, ◌≡◌, refl, ◌∙◌, ◌≢◌, Bool, some, List, [], ◌∷◌, arith,
  ◌==◌, if◌then◌else◌, length, get_elem?, set, length-set, to_nat, count,
}
use guage.Container.Heap.{Entry, heap4_parent, move, key_at}

-- Every key is at least that of its parent.
abbrev pub IsHeap {ℓ} : {K C : Type ℓ} → (K → ℕ) → List (Entry K C) → Type 0
IsHeap rank a = (c : ℕ) → 0 < c → c < length a → key_at rank a (heap4_parent c) ≤ key_at rank a c

-- `b` is a heap with the entries of `a`: any test picks as many.
pub record Sifted {ℓ} {K C : Type ℓ} (rank : K → ℕ) (a b : List (Entry K C)) : Type ℓ where
  pub ordered : IsHeap rank b
  pub size : length b ≡ length a
  pub entries : (q : Entry K C → Bool) → count q b ≡ count q a

module _ {ℓ} {A : Type ℓ} where
  pub get_elem?-set :
      (xs : List A) (i j : ℕ) (v : A)
      → i < length xs
      → get_elem? (set xs i v) j ≡ (if j == i then some v else get_elem? xs j)
  get_elem?-set [] i j v h = absurd (omega arith)
  get_elem?-set (x ∷ xs) zero zero v h = refl
  get_elem?-set (x ∷ xs) zero (suc j) v h = ground arith
  get_elem?-set (x ∷ xs) (suc i) zero v h = ground arith
  get_elem?-set (x ∷ xs) (suc i) (suc j) v h = ground (arith, get_elem?-set xs i j v)

  pub count-set :
      (q : A → Bool) (xs : List A) (i : ℕ) (v x : A)
      → get_elem? xs i ≡ some x
      → count q (set xs i v) + to_nat (q x) ≡ count q xs + to_nat (q v)
  count-set q [] i v x h = cc
  count-set q (y ∷ xs) zero v x h = ground arith
  count-set q (y ∷ xs) (suc i) v x h = ground (arith, count-set q xs i v x)

module _ {ℓ} {K C : Type ℓ} (rank : K → ℕ) (a : List (Entry K C)) where
  pub key_at-set :
      (i c : ℕ) (e : Entry K C)
      → i < length a
      → key_at rank (set a i e) c ≡ (if c == i then rank e.key else key_at rank a c)
  key_at-set i c e h = ground (arith, get_elem?-set a i c e)

  pub move_lem :
      (from to : ℕ) (x : Entry K C) → get_elem? a from ≡ some x → move a from to ≡ set a to x
  unfolding move
  move_lem from to x h = rw (h, move) refl

  pub length-move : (from to : ℕ) → from < length a → length (move a from to) ≡ length a
  length-move from to h =
      let (x, e) = get_elem?-lt a from h in rw (move_lem from to x e) (length-set a to x)

  -- The keys when `e` stands at `from` after the move, against those when it stood at `to`.
  pub key_at-move :
      (from to c : ℕ) (e : Entry K C)
      → from < length a
      → to < length a
      → from ≢ to
      → key_at rank (set (move a from to) from e) c ≡ (
          if c == from then rank e.key else if c == to then key_at rank a from else key_at rank a c)
  key_at-move from to c e h k d =
      let (x, g) = get_elem?-lt a from h in
      rw (move_lem from to x g) (
        ground (
          arith,
          get_elem?-set (set a to x) from c e,
          length-set a to x,
          get_elem?-set a to c x,
          g,
        ))

  pub count-move :
      (q : Entry K C → Bool) (from to : ℕ) (e : Entry K C)
      → from < length a
      → to < length a
      → from ≢ to
      → count q (set (move a from to) from e) ≡ count q (set a to e)
  count-move q from to e h k d =
      let (x, g) = get_elem?-lt a from h in
      let (y, f) = get_elem?-lt a to k in
      let moved : get_elem? (set a to x) from ≡ some x =
        ground (arith, get_elem?-set a to from x) in
      rw (move_lem from to x g) (
        omega (
          arith,
          count-set q (set a to x) from e x moved,
          count-set q a to x y f,
          count-set q a to e y f,
        ))

  pub length-set-move :
      (from to : ℕ) (e : Entry K C)
      → from < length a
      → length (set (move a from to) from e) ≡ length (set a to e)
  length-set-move from to e h =
      omega (arith, length-set (move a from to) from e, length-move from to h, length-set a to e)

pub Sifted-move {ℓ} :
    {K C : Type ℓ} (rank : K → ℕ) (a b : List (Entry K C)) (from to : ℕ) (e : Entry K C)
    → from < length a
    → to < length a
    → from ≢ to
    → Sifted rank (set (move a from to) from e) b
    → Sifted rank (set a to e) b
Sifted-move rank a b from to e h k d s = record {
  ordered = s.ordered;
  size = s.size ∙ length-set-move rank a from to e h;
  entries = λ q. s.entries q ∙ count-move rank a q from to e h k d;
}
