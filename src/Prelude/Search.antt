-- ===== src/Prelude/Search.antt =====
-- First-match loops over an array, and removal that moves the last element into the hole.
use Prim.Native.Nat.{ℕ, suc, ◌+◌, ◌≤◌}
use mathlib.Core.Path.{◌≡◌, refl, ap}
use mathlib.Core.Bool.{Bool, true, false}
use mathlib.Core.List.{List, [], ◌∷◌, ◌++◌}
use mathlib.Core.Option.{Option, none, some}
use native.Mathlib.Omega.{arith}
use guage.Prelude.Tests.{if◌then◌else◌}
use guage.Prelude.Lists.{length}

abbrev pub to_nat : Bool → ℕ
to_nat true = 1
to_nat false = 0

module _ {ℓ} {A : Type ℓ} where
  -- `for (i = 0; i < count; i++) if (p(a[i])) return a[i];`
  abbrev pub find : (A → Bool) → List A → Option A
  find p [] = none
  find p (x ∷ xs) = if p x then some x else find p xs

  abbrev pub count : (A → Bool) → List A → ℕ
  count p [] = 0
  count p (x ∷ xs) = to_nat (p x) + count p xs

  -- The last element of `y ∷ ys`, and what stands before it.
  abbrev pub last : A → List A → A
  last y [] = y
  last y (z ∷ zs) = last z zs

  abbrev pub init : A → List A → List A
  init y [] = []
  init y (z ∷ zs) = y ∷ init z zs

  -- `a[i] = a[--count]` where `y ∷ ys` stands behind the hole.
  abbrev pub fill_hole : List A → List A
  fill_hole [] = []
  fill_hole (y ∷ ys) = last y ys ∷ init y ys

  -- The first match is overwritten by the last element, and the array is one shorter.
  abbrev pub remove_swap : (A → Bool) → List A → List A
  remove_swap p [] = []
  remove_swap p (x ∷ xs) = if p x then fill_hole xs else x ∷ remove_swap p xs

  -- The first match is changed in place.
  abbrev pub update_first : (A → Bool) → (A → A) → List A → List A
  update_first p f [] = []
  update_first p f (x ∷ xs) = if p x then f x ∷ xs else x ∷ update_first p f xs

  pub count-append : (q : A → Bool) (xs ys : List A) → count q (xs ++ ys) ≡ count q xs + count q ys
  count-append q [] ys = omega arith
  count-append q (x ∷ xs) ys = omega (arith, count-append q xs ys)

  pub find-eq-none : (q : A → Bool) (xs : List A) → count q xs ≡ 0 → find q xs ≡ none
  find-eq-none q [] h = refl
  find-eq-none q (x ∷ xs) h = ground (arith, find-eq-none q xs)

  pub count-eq-zero : (q : A → Bool) (xs : List A) → find q xs ≡ none → count q xs ≡ 0
  count-eq-zero q [] h = refl
  count-eq-zero q (x ∷ xs) h = ground (arith, count-eq-zero q xs)

  pub find-holds : (q : A → Bool) (xs : List A) (x : A) → find q xs ≡ some x → q x ≡ true
  find-holds q [] x h = cc
  find-holds q (y ∷ xs) x h = ground (arith, find-holds q xs x)

  pub find-append :
      (q : A → Bool) (xs ys : List A)
      → find q (xs ++ ys) ≡ elim (find q xs) [ none ↦ find q ys | some x ↦ some x ]
  find-append q [] ys = refl
  find-append q (x ∷ xs) ys = ground (arith, find-append q xs ys)

  count-init :
      (q : A → Bool) (y : A) (ys : List A)
      → to_nat (q (last y ys)) + count q (init y ys) ≡ to_nat (q y) + count q ys
  count-init q y [] = refl
  count-init q y (z ∷ zs) = omega (arith, count-init q z zs)

  find-init :
      (q : A → Bool) (y : A) (ys : List A)
      → to_nat (q y) + count q ys ≤ 1
      → find q (last y ys ∷ init y ys) ≡ find q (y ∷ ys)
  find-init q y [] h = refl
  find-init q y (z ∷ zs) h = ground (arith, find-init q z zs, count-init q z zs)

  pub count-fill_hole : (q : A → Bool) (xs : List A) → count q (fill_hole xs) ≡ count q xs
  count-fill_hole q [] = refl
  count-fill_hole q (y ∷ ys) = count-init q y ys

  find-fill_hole : (q : A → Bool) (xs : List A) → count q xs ≤ 1 → find q (fill_hole xs) ≡ find q xs
  find-fill_hole q [] h = refl
  find-fill_hole q (y ∷ ys) h = find-init q y ys h

  pub length-init : (y : A) (ys : List A) → length (init y ys) ≡ length ys
  length-init y [] = refl
  length-init y (z ∷ zs) = ap suc (length-init z zs)

  -- The removal takes out one element, whatever is counted.
  pub count-remove_swap :
      (p q : A → Bool) (xs : List A) (x : A)
      → find p xs ≡ some x
      → to_nat (q x) + count q (remove_swap p xs) ≡ count q xs
  count-remove_swap p q [] x h = cc
  count-remove_swap p q (y ∷ xs) x h =
      ground (arith, count-remove_swap p q xs x, count-fill_hole q xs)

  pub remove_swap-absent : (p : A → Bool) (xs : List A) → find p xs ≡ none → remove_swap p xs ≡ xs
  remove_swap-absent p [] h = refl
  remove_swap-absent p (x ∷ xs) h = ground (arith, remove_swap-absent p xs)

  -- A search that can match one element at most misses the removed one only.
  pub find-remove_swap :
      (p q : A → Bool) (xs : List A) (x : A)
      → find p xs ≡ some x
      → count q xs ≤ 1
      → find q (remove_swap p xs) ≡ (if q x then none else find q xs)
  find-remove_swap p q [] x h u = cc
  find-remove_swap p q (y ∷ xs) x h u = ground (
    arith,
    find-remove_swap p q xs x,
    find-fill_hole q xs,
    count-fill_hole q xs,
    find-eq-none q xs,
    count-remove_swap p q xs x,
  )

  pub length-remove_swap :
      (p : A → Bool) (xs : List A) (x : A)
      → find p xs ≡ some x
      → length (remove_swap p xs) + 1 ≡ length xs
  length-remove_swap p [] x h = cc
  length-remove_swap p (y ∷ []) x h = ground arith
  length-remove_swap p (y ∷ z ∷ zs) x h =
      ground (arith, length-remove_swap p (z ∷ zs) x, length-init z zs)

  pub length-update_first :
      (p : A → Bool) (f : A → A) (xs : List A) → length (update_first p f xs) ≡ length xs
  length-update_first p f [] = refl
  length-update_first p f (x ∷ xs) = ground (arith, length-update_first p f xs)

  pub count-update_first :
      (p q : A → Bool) (f : A → A) (xs : List A)
      → ((x : A) → q (f x) ≡ q x)
      → count q (update_first p f xs) ≡ count q xs
  count-update_first p q f [] h = refl
  count-update_first p q f (x ∷ xs) h = ground (arith, count-update_first p q f xs h, h x)

  pub find-update_first_self :
      (p : A → Bool) (f : A → A) (xs : List A) (x : A)
      → p (f x) ≡ true
      → find p xs ≡ some x
      → find p (update_first p f xs) ≡ some (f x)
  find-update_first_self p f [] x e h = cc
  find-update_first_self p f (y ∷ xs) x e h = ground (arith, find-update_first_self p f xs x e)

  pub find-update_first_ne :
      (p q : A → Bool) (f : A → A) (xs : List A)
      → ((x : A) → p x ≡ true → (q x ≡ false) × (q (f x) ≡ false))
      → find q (update_first p f xs) ≡ find q xs
  find-update_first_ne p q f [] h = refl
  find-update_first_ne p q f (x ∷ xs) h = ground (arith, find-update_first_ne p q f xs h, h x)

  pub update_first-absent :
      (p : A → Bool) (f : A → A) (xs : List A) → find p xs ≡ none → update_first p f xs ≡ xs
  update_first-absent p f [] h = refl
  update_first-absent p f (x ∷ xs) h = ground (arith, update_first-absent p f xs)

  pub count-pos :
      (p q : A → Bool) (xs : List A) (y : A) → find q xs ≡ some y → p y ≡ true → 1 ≤ count p xs
  count-pos p q [] y h k = cc
  count-pos p q (x ∷ xs) y h k = ground (arith, count-pos p q xs y)

  -- Two searches that find what the first of them can match once have found the same element.
  pub find_unique :
      (p q : A → Bool) (xs : List A) (x y : A)
      → find p xs ≡ some x
      → find q xs ≡ some y
      → p y ≡ true
      → count p xs ≤ 1
      → x ≡ y
  find_unique p q [] x y h k t u = cc
  find_unique p q (z ∷ xs) x y h k t u = ground (arith, find_unique p q xs x y, count-pos p q xs y)

  pub count-update_first_le :
      (p q : A → Bool) (f : A → A) (xs : List A)
      → ((x : A) → q (f x) ≡ true → q x ≡ true)
      → count q (update_first p f xs) ≤ count q xs
  count-update_first_le p q f [] h = omega arith
  count-update_first_le p q f (x ∷ xs) h = ground (arith, count-update_first_le p q f xs h, h x)

  -- An element that is overwritten by one that nothing else matches.
  pub find-update_first_new :
      (p q : A → Bool) (f : A → A) (xs : List A) (y : A)
      → find p xs ≡ some y
      → q (f y) ≡ true
      → count q xs ≡ 0
      → find q (update_first p f xs) ≡ some (f y)
  find-update_first_new p q f [] y h k z = cc
  find-update_first_new p q f (x ∷ xs) y h k z = ground (arith, find-update_first_new p q f xs y)

  -- The one element that `p` matches is made not to match.
  pub find-update_first_off :
      (p : A → Bool) (f : A → A) (xs : List A)
      → ((x : A) → p (f x) ≡ false)
      → count p xs ≤ 1
      → find p (update_first p f xs) ≡ none
  find-update_first_off p f [] h u = refl
  find-update_first_off p f (x ∷ xs) h u =
      ground (arith, find-update_first_off p f xs h, h x, find-eq-none p xs)
