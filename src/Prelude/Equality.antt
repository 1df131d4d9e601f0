-- ===== src/Prelude/Equality.antt =====
-- A test of equality, as `strcmp(a, b) == 0` on names and `==` on ids.
use Prim.Native.Nat.{ℕ}
use Prim.Native.String.{String}
use text.Mathlib.Text.{◌==◌ as str_eq}
use text.Mathlib.TextEquality.{eq_iff}
use mathlib.Core.Path.{◌≡◌, refl}
use mathlib.Core.Logic.{◌↔◌}
use mathlib.Core.Bool.{Bool, true}
use guage.Prelude.Tests.{◌==◌, ==_iff}

pub record Eq {ℓ} (A : Type ℓ) : Type ℓ where
  pub equal : A → A → Bool
  pub equal_iff : (a b : A) → (equal a b ≡ true) ↔ (a ≡ b)

abbrev pub equal {ℓ} : {A : Type ℓ} ⦃e : Eq A⦄ → A → A → Bool
equal ⦃e⦄ = e.equal

module _ {ℓ} {A : Type ℓ} ⦃e : Eq A⦄ where
  pub equal_self : (a : A) → equal a a ≡ true
  equal_self a = (e.equal_iff a a).1 refl

  pub eq_of_equal : (a b : A) → equal a b ≡ true → a ≡ b
  eq_of_equal a b = (e.equal_iff a b).0

instance abbrev pub nat_eq : Eq ℕ
nat_eq = record { equal = ◌==◌; equal_iff = ==_iff }

instance abbrev pub string_eq : Eq String
string_eq = record { equal = str_eq; equal_iff = eq_iff }
