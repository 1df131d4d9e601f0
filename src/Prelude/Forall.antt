-- ===== src/Prelude/Forall.antt =====
-- A predicate on every element of a list.
use Prim.Native.Nat.{ℕ, zero, suc, ◌<◌}
use mathlib.Core.Path.{◌≡◌, subst}
use mathlib.Core.Bool.{Bool}
use mathlib.Core.List.{List, [], ◌∷◌, ◌++◌}
use mathlib.Core.Logic.{inl, inr}
use mathlib.Core.Option.{some}
use native.Mathlib.Omega.{arith}
use guage.Prelude.Tests.{Bool-cases}
use guage.Prelude.Lists.{length, get_or}
use guage.Prelude.Search.{find, update_first, remove_swap, fill_hole, last, init}

abbrev pub All {ℓ κ} : {A : Type ℓ} → (A → Type κ) → List A → Type κ
All P [] = Unit
All P (x ∷ xs) = P x × All P xs

module _ {ℓ κ} {A : Type ℓ} (P : A → Type κ) where
  pub All-append : (xs ys : List A) → All P xs → All P ys → All P (xs ++ ys)
  All-append [] ys a b = b
  All-append (x ∷ xs) ys a b = (a.0, All-append xs ys a.1 b)

  pub All-find : (p : A → Bool) (xs : List A) (x : A) → All P xs → find p xs ≡ some x → P x
  All-find p [] x a h = cc
  All-find p (y ∷ ys) x a h = elim (Bool-cases (p y)) [
    | inl b ↦ let e : y ≡ x = ground arith in subst P e a.0
    | inr b ↦ All-find p ys x a.1 (rw b at h)
  ]

  pub All-update_first :
      (p : A → Bool) (f : A → A) (xs : List A)
      → ((x : A) → find p xs ≡ some x → P x → P (f x))
      → All P xs
      → All P (update_first p f xs)
  All-update_first p f [] s a = a
  All-update_first p f (x ∷ xs) s a = elim (Bool-cases (p x)) [
    | inl b ↦ rw b (s x (rw b) a.0, a.1)
    | inr b ↦ rw b (a.0, All-update_first p f xs (λ y h. s y (rw b h)) a.1)
  ]

  All-init : (y : A) (ys : List A) → P y → All P ys → P (last y ys) × All P (init y ys)
  All-init y [] h a = (h, tt)
  All-init y (z ∷ zs) h a = let (l, i) = All-init z zs a.0 a.1 in (l, (h, i))

  All-fill_hole : (xs : List A) → All P xs → All P (fill_hole xs)
  All-fill_hole [] a = tt
  All-fill_hole (y ∷ ys) a = let (l, i) = All-init y ys a.0 a.1 in (l, i)

  pub All-remove_swap : (p : A → Bool) (xs : List A) → All P xs → All P (remove_swap p xs)
  All-remove_swap p [] a = tt
  All-remove_swap p (x ∷ xs) a = elim (Bool-cases (p x)) [
    | inl b ↦ rw b (All-fill_hole xs a.1)
    | inr b ↦ rw b (a.0, All-remove_swap p xs a.1)
  ]

pub All-get_or {ℓ κ} :
    {A : Type ℓ} (P : A → Type κ) (xs : List A) (k : ℕ) (d : A)
    → All P xs
    → k < length xs
    → P (get_or xs k d)
All-get_or P [] k d a h = elim h [ ]
All-get_or P (x ∷ xs) zero d a h = a.0
All-get_or P (x ∷ xs) (suc k) d a h = All-get_or P xs k d a.1 (omega arith)

pub All_mono {ℓ κ} :
    {A : Type ℓ} {P Q : A → Type κ} → ((x : A) → P x → Q x) → (xs : List A) → All P xs → All Q xs
All_mono f [] a = tt
All_mono f (x ∷ xs) a = (f x a.0, All_mono f xs a.1)
