-- ===== src/Runtime/Links/Halves.antt =====
-- Half a link: one array is written.
use guage.Prelude.{
  ℕ, ◌+◌, ◌≤◌, ◌<◌, ℕ_discrete, ◌≡◌, refl, ◌∙◌, ◌≢◌, ◌⊎◌, inl, inr, Bool, true, false, not, ◌&&◌,
  ◌||◌, List, [], ◌∷◌, ◌++◌, arith, ltb, ◌==◌, if◌then◌else◌, lt→ltb, Bool-cases, Option-cases,
  length, length-append, to_nat, find, count, remove_swap, count-append, count-eq-zero, find-holds,
  count-remove_swap, remove_swap-absent, length-remove_swap,
}
use guage.Runtime.Links.{Links, max_links, is, contains, with_links, add_link, drop_link}

abbrev pub linked : Links → ℕ → ℕ → Bool
linked w a b = contains b (w.links a)

-- The link of `x` to `y` is one of the two between `a` and `b`.
abbrev pub between : ℕ → ℕ → ℕ → ℕ → Bool
between a b x y = ((x == a) && (y == b)) || ((x == b) && (y == a))

-- No id stands twice, and the arrays are large enough.
pub record IsTable (w : Links) : Type 0 where
  pub once : (a b : ℕ) → count (is b) (w.links a) ≤ 1
  pub fits : (a : ℕ) → length (w.links a) ≤ max_links

pub contains-count : (b : ℕ) (xs : List ℕ) → contains b xs ≡ ltb 0 (count (is b) xs)
contains-count b [] = refl
contains-count b (x ∷ xs) = ground (arith, contains-count b xs)

pub count_last :
    (b c : ℕ) (xs : List ℕ) → count (is b) (xs ++ (c ∷ [])) ≡ count (is b) xs + to_nat (c == b)
count_last b c xs = omega (arith, count-append (is b) xs (c ∷ []))

pub count_removed :
    (b c : ℕ) (xs : List ℕ)
    → count (is c) xs ≤ 1
    → count (is c) (remove_swap (is b) xs) ≡ (if c == b then 0 else count (is c) xs)
count_removed b c xs u = elim (Option-cases (find (is b) xs)) [
  | inl e ↦ rw (remove_swap-absent (is b) xs e) (ground (arith, count-eq-zero (is b) xs e))
  | inr f ↦
      let holds = find-holds (is b) xs f.0 f.1 in
      let k = count-remove_swap (is b) (is c) xs f.0 f.1 in ground (arith, k, holds)
]

contains-append_last :
    (y b : ℕ) (xs : List ℕ) → contains y (xs ++ (b ∷ [])) ≡ (contains y xs || (y == b))
contains-append_last y b [] = ground arith
contains-append_last y b (x ∷ xs) = ground (arith, contains-append_last y b xs)

contains-removed :
    (y b : ℕ) (xs : List ℕ)
    → count (is y) xs ≤ 1
    → contains y (remove_swap (is b) xs) ≡ (contains y xs && not (y == b))
contains-removed y b xs u =
    let k = count_removed b y xs u in
    contains-count y (remove_swap (is b) xs) ∙ (ground (arith, k, contains-count y xs))

pub self_test : (a : ℕ) → (a == a) ≡ true
self_test a = ground arith

pub other_test : (x a : ℕ) → x ≢ a → (x == a) ≡ false
other_test x a d = ground arith

absorbed : (p q : Bool) → p ≡ true → p ≡ (p || q)
absorbed p q h = rw h refl

-- Half a link of `a` to `b`.
pub linked-add_link :
    (w : Links) (a b y : ℕ)
    → (linked w a b ≡ true) ⊎ (length (w.links a) < max_links)
    → linked (add_link w a b) a y ≡ (linked w a y || (y == b))
unfolding add_link
linked-add_link w a b y h = elim (Bool-cases (contains b (w.links a))) [
  | inl already ↦ rw already (elim (ℕ_discrete y b) [
    | yes e ↦ rw e (rw already refl)
    | no d ↦ rw (other_test y b d) (ground arith)
  ])
  | inr new ↦ elim h [
    | inl e ↦ cc
    | inr room ↦
        rw (new, lt→ltb (length (w.links a)) max_links room, self_test a)
          (contains-append_last y b (w.links a))
  ]
]

pub linked-add_link_off :
    (w : Links) (a b x y : ℕ) → x ≢ a → linked (add_link w a b) x y ≡ linked w x y
unfolding add_link
linked-add_link_off w a b x y d =
    elim (Bool-cases (not (contains b (w.links a)) && ltb (length (w.links a)) max_links)) [
      | inl adds ↦ rw (adds, other_test x a d) refl
      | inr keeps ↦ rw keeps refl
    ]

pub linked-drop_link :
    (w : Links) (a b y : ℕ)
    → IsTable w
    → linked (drop_link w a b) a y ≡ (linked w a y && not (y == b))
unfolding drop_link
linked-drop_link w a b y t = rw (self_test a) (contains-removed y b (w.links a) (t.once a y))

pub linked-drop_link_off :
    (w : Links) (a b x y : ℕ) → x ≢ a → linked (drop_link w a b) x y ≡ linked w x y
unfolding drop_link
linked-drop_link_off w a b x y d = rw (other_test x a d) refl

with_links-IsTable :
    (w : Links) (a : ℕ) (xs : List ℕ)
    → IsTable w
    → ((b : ℕ) → count (is b) xs ≤ 1)
    → length xs ≤ max_links
    → IsTable (with_links w a xs)
with_links-IsTable w a xs t once fits = record {
  once = λ x b. elim (ℕ_discrete x a) [
    | yes e ↦ rw (e) (rw (self_test a) (once b))
    | no d ↦ rw (other_test x a d) (t.once x b)
  ];
  fits = λ x. elim (ℕ_discrete x a) [
    | yes e ↦ rw (e) (rw (self_test a) fits)
    | no d ↦ rw (other_test x a d) (t.fits x)
  ];
}

pub add_link-IsTable : (w : Links) (a b : ℕ) → IsTable w → IsTable (add_link w a b)
unfolding add_link
add_link-IsTable w a b t =
    elim (Bool-cases (not (contains b (w.links a)) && ltb (length (w.links a)) max_links)) [
      | inr keeps ↦ rw keeps t
      | inl adds ↦ rw adds (
          with_links-IsTable w a (w.links a ++ (b ∷ [])) t
            (λ c.
              ground (arith, count_last c b (w.links a), contains-count b (w.links a), t.once a c))
            (ground (arith, length-append (w.links a) (b ∷ []))))
    ]

pub drop_link-IsTable : (w : Links) (a b : ℕ) → IsTable w → IsTable (drop_link w a b)
unfolding drop_link
drop_link-IsTable w a b t =
    with_links-IsTable w a (remove_swap (is b) (w.links a)) t
      (λ c. ground (arith, count_removed b c (w.links a), t.once a c))
      (elim (Option-cases (find (is b) (w.links a))) [
        | inl e ↦ rw (remove_swap-absent (is b) (w.links a) e) (t.fits a)
        | inr f ↦ omega (arith, length-remove_swap (is b) (w.links a) f.0 f.1, t.fits a)
      ])
