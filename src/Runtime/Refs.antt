-- ===== src/Runtime/Refs.antt =====
-- References to cells. A table that stores a cell retains it (`cell_retain`), and releases it when
-- it lets go (`cell_release`). Each operation returns its retains and releases in program order;
-- `cell_equal`, which finds keys, is an interface.
use guage.Prelude.{
  ℕ, ◌+◌, ◌≡◌, refl, Bool, true, some, List, [], ◌∷◌, ◌++◌, arith, to_nat, find, last, init,
  fill_hole, remove_swap, update_first,
}

-- What the tables ask of `cell_equal`: a cell equals itself (`a == b` is its first test).
pub record CellOps {ℓ} (C : Type ℓ) : Type ℓ where
  pub cell_equal : C → C → Bool
  pub equal_refl : (c : C) → cell_equal c c ≡ true

abbrev pub cell_equal {ℓ} : {C : Type ℓ} ⦃o : CellOps C⦄ → C → C → Bool
cell_equal ⦃o⦄ = o.cell_equal

pub data RefOp {ℓ} (C : Type ℓ) : Type ℓ where
  retain release : C → RefOp C

module _ {ℓ} {C : Type ℓ} where
  -- How often the cells that `q` picks are retained and released.
  abbrev pub retains : (C → Bool) → List (RefOp C) → ℕ
  retains q [] = 0
  retains q (retain c ∷ ops) = to_nat (q c) + retains q ops
  retains q (release c ∷ ops) = retains q ops

  abbrev pub releases : (C → Bool) → List (RefOp C) → ℕ
  releases q [] = 0
  releases q (retain c ∷ ops) = releases q ops
  releases q (release c ∷ ops) = to_nat (q c) + releases q ops

  -- The references that a list of key and value pairs holds.
  abbrev pub held : (C → Bool) → List (C × C) → ℕ
  held q [] = 0
  held q ((k, v) ∷ es) = to_nat (q k) + to_nat (q v) + held q es

  -- `for (...) { cell_release(keys[i]); cell_release(values[i]); }`
  unfoldable pub release_all : List (C × C) → List (RefOp C)
  release_all [] = []
  release_all ((k, v) ∷ es) = release k ∷ release v ∷ release_all es

  pub retains-append :
      (q : C → Bool) (a b : List (RefOp C)) → retains q (a ++ b) ≡ retains q a + retains q b
  retains-append q [] b = omega arith
  retains-append q (retain c ∷ a) b = omega (arith, retains-append q a b)
  retains-append q (release c ∷ a) b = retains-append q a b

  pub releases-append :
      (q : C → Bool) (a b : List (RefOp C)) → releases q (a ++ b) ≡ releases q a + releases q b
  releases-append q [] b = omega arith
  releases-append q (retain c ∷ a) b = releases-append q a b
  releases-append q (release c ∷ a) b = omega (arith, releases-append q a b)

  pub releases-release_all :
      (q : C → Bool) (es : List (C × C)) → releases q (release_all es) ≡ held q es
  unfolding release_all
  releases-release_all q [] = refl
  releases-release_all q ((k, v) ∷ es) = omega (arith, releases-release_all q es)

  pub retains-release_all : (q : C → Bool) (es : List (C × C)) → retains q (release_all es) ≡ 0
  unfolding release_all
  retains-release_all q [] = refl
  retains-release_all q ((k, v) ∷ es) = retains-release_all q es

  pub held-append : (q : C → Bool) (a b : List (C × C)) → held q (a ++ b) ≡ held q a + held q b
  held-append q [] b = omega arith
  held-append q ((k, v) ∷ a) b = omega (arith, held-append q a b)

  held-init :
      (q : C → Bool) (y : C × C) (ys : List (C × C))
      → held q (last y ys ∷ init y ys) ≡ held q (y ∷ ys)
  held-init q y [] = refl
  held-init q y (z ∷ zs) = omega (arith, held-init q z zs)

  held-fill_hole : (q : C → Bool) (xs : List (C × C)) → held q (fill_hole xs) ≡ held q xs
  held-fill_hole q [] = refl
  held-fill_hole q (y ∷ ys) = held-init q y ys

  pub held-remove_swap :
      (q : C → Bool) (p : C × C → Bool) (es : List (C × C)) (x : C × C)
      → find p es ≡ some x
      → held q (remove_swap p es) + to_nat (q x.0) + to_nat (q x.1) ≡ held q es
  held-remove_swap q p [] x h = cc
  held-remove_swap q p ((k, v) ∷ es) x h =
      ground (arith, held-remove_swap q p es x, held-fill_hole q es)

  -- A value is overwritten where the key is found.
  pub held-update_first :
      (q : C → Bool) (p : C × C → Bool) (w : C) (es : List (C × C)) (x : C × C)
      → find p es ≡ some x
      → held q (update_first p (λ e. (e.0, w)) es) + to_nat (q x.1) ≡ held q es + to_nat (q w)
  held-update_first q p w [] x h = cc
  held-update_first q p w ((k, v) ∷ es) x h = ground (arith, held-update_first q p w es x)
