-- ===== src/Runtime/Links/Tests.antt =====
-- Three actors, for tests.
use guage.Prelude.{
  ℕ, zero, suc, ◌+◌, ◌≡◌, refl, inr, true, false, ◌||◌, List, [], ◌∷◌, arith, ◌==◌, if◌then◌else◌,
}
use guage.Runtime.Links.{Links, actor_link}
use guage.Runtime.Links.Halves.{IsTable, linked, between}
use guage.Runtime.Links.Laws.{linked-actor_link, link_one_sided}

abbrev three : Links
three = record {
  links = λ a. if a == 1 then 2 ∷ [] else if a == 2 then 1 ∷ [] else [];
  monitors = λ a. [];
  alive = λ a. true;
}

three-IsTable : IsTable three
three-IsTable = record { once = λ a b. ground arith; fits = λ a. ground arith }

linked-actor_link_example :
    IsTable (actor_link three 1 3)
    × ((x y : ℕ) → linked (actor_link three 1 3) x y ≡ (linked three x y || between 1 3 x y))
linked-actor_link_example =
    linked-actor_link three 1 3 three-IsTable (inr (omega arith)) (inr (omega arith))

-- Actor 1 has 32 links, to the actors from 101 on.
from : ℕ → ℕ → List ℕ
from zero i = []
from (suc n) i = i ∷ from n (i + 1)

abbrev crowded : Links
crowded = record {
  links = λ a. if a == 1 then from 32 101 else [];
  monitors = λ a. [];
  alive = λ a. true;
}

link_one_sided_example :
    (linked (actor_link crowded 1 2) 1 2 ≡ false) × (linked (actor_link crowded 1 2) 2 1 ≡ true)
unfolding from
link_one_sided_example =
    link_one_sided crowded 1 2 (λ e. omega arith) refl (omega arith) (omega arith)
