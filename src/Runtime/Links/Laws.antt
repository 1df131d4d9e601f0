-- ===== src/Runtime/Links/Laws.antt =====
-- Links are symmetric while the tables have room.
use guage.Prelude.{
  ℕ, ◌+◌, ◌≤◌, ◌<◌, ℕ_discrete, ◌≡◌, refl, ◌∙◌, ◌≢◌, ◌⊎◌, inl, inr, true, false, not, ◌&&◌, ◌||◌,
  arith, ltb, ◌==◌, Bool-cases, length, to_nat, count,
}
use guage.Runtime.Links.{
  Links, max_links, is, contains, add_link, drop_link, actor_link, actor_unlink, actor_add_monitor,
  max_monitors,
}
use guage.Runtime.Links.Halves.{
  linked, between, IsTable, count_last, self_test, other_test, linked-add_link, linked-add_link_off,
  linked-drop_link, linked-drop_link_off, add_link-IsTable, drop_link-IsTable,
}

links-add_link_off : (w : Links) (a b x : ℕ) → x ≢ a → (add_link w a b).links x ≡ w.links x
unfolding add_link
links-add_link_off w a b x d =
    elim (Bool-cases (not (contains b (w.links a)) && ltb (length (w.links a)) max_links)) [
      | inl adds ↦ rw (adds, other_test x a d) refl
      | inr keeps ↦ rw keeps refl
    ]

half_link :
    (w : Links) (a b x y : ℕ)
    → (linked w a b ≡ true) ⊎ (length (w.links a) < max_links)
    → linked (add_link w a b) x y ≡ (linked w x y || ((x == a) && (y == b)))
half_link w a b x y h = elim (ℕ_discrete x a) [
  | yes e ↦ rw e (linked-add_link w a b y h ∙ rw (self_test a) refl)
  | no d ↦ linked-add_link_off w a b x y d ∙ rw (other_test x a d) (ground arith)
]

half_unlink :
    (w : Links) (a b x y : ℕ)
    → IsTable w
    → linked (drop_link w a b) x y ≡ (linked w x y && not ((x == a) && (y == b)))
half_unlink w a b x y t = elim (ℕ_discrete x a) [
  | yes e ↦ rw e (linked-drop_link w a b y t ∙ rw (self_test a) refl)
  | no d ↦ linked-drop_link_off w a b x y d ∙ rw (other_test x a d) (ground arith)
]

-- Where each of two actors, possibly one and the same, is linked to the other or has fewer than 32
-- links, actor_link adds the links in both directions and changes no other link; no id comes to
-- stand twice in an array, and no array exceeds 32.
pub linked-actor_link :
    (w : Links) (a b : ℕ)
    → IsTable w
    → (linked w a b ≡ true) ⊎ (length (w.links a) < max_links)
    → (linked w b a ≡ true) ⊎ (length (w.links b) < max_links)
    → IsTable (actor_link w a b)
      × ((x y : ℕ) → linked (actor_link w a b) x y ≡ (linked w x y || between a b x y))
unfolding actor_link
linked-actor_link w a b t ha hb =
    let w₁ = add_link w a b in
    let space : (linked w₁ b a ≡ true) ⊎ (length (w₁.links b) < max_links) = elim (ℕ_discrete b a) [
      | yes e ↦ inl (half_link w a b b a ha ∙ rw e (rw (self_test a) (ground arith)))
      | no d ↦ rw (links-add_link_off w a b b d) hb
    ] in
    (
      add_link-IsTable w₁ b a (add_link-IsTable w a b t),
      λ x y. half_link w₁ b a x y space ∙ rw (half_link w a b x y ha) (ground arith),
    )

-- In arrays of at most 32 links without repetition, actor_unlink removes the links of the two
-- actors in both directions, changes no other link, and keeps the arrays so.
pub linked-actor_unlink :
    (w : Links) (a b : ℕ)
    → IsTable w
    → IsTable (actor_unlink w a b)
      × ((x y : ℕ) → linked (actor_unlink w a b) x y ≡ (linked w x y && not (between a b x y)))
unfolding actor_unlink
linked-actor_unlink w a b t =
    let w₁ = drop_link w a b in
    let t₁ = drop_link-IsTable w a b t in
    (
      drop_link-IsTable w₁ b a t₁,
      λ x y. half_unlink w₁ b a x y t₁ ∙ rw (half_unlink w a b x y t) (ground arith),
    )

-- Where an actor with 32 links is to be linked to another one, to which it is not linked and which
-- has room, actor_link leaves a link in one direction only.
pub link_one_sided :
    (w : Links) (a b : ℕ)
    → a ≢ b
    → linked w a b ≡ false
    → max_links ≤ length (w.links a)
    → length (w.links b) < max_links
    → (linked (actor_link w a b) a b ≡ false) × (linked (actor_link w a b) b a ≡ true)
unfolding actor_link add_link
link_one_sided w a b d no_link full room =
    let blocked : ltb (length (w.links a)) max_links ≡ false = ground arith in
    rw (no_link, blocked)
      (
        linked-add_link_off w b a a b d ∙ no_link,
        linked-add_link w b a a (inr room) ∙ rw (self_test a) (ground arith),
      )

-- The answer is whether the target lives; the watcher is added if there is room besides.
pub watchers-add_monitor :
    (w : Links) (target watcher x y : ℕ)
    → ((actor_add_monitor w target watcher).0 ≡ w.alive target)
      × (count (is y) ((actor_add_monitor w target watcher).1.monitors x)
          ≡ count (is y) (w.monitors x)
            + to_nat (
                w.alive target
                && ltb (length (w.monitors target)) max_monitors
                && (x == target)
                && (watcher == y)))
unfolding actor_add_monitor
watchers-add_monitor w target watcher x y = elim (Bool-cases (w.alive target)) [
  | inr dead ↦ rw dead (refl, omega arith)
  | inl live ↦ elim (Bool-cases (ltb (length (w.monitors target)) max_monitors)) [
    | inr full ↦ rw (live, full) (refl, omega arith)
    | inl room ↦
        rw (live, room)
          (
            refl,
            elim (ℕ_discrete x target) [
              | yes e ↦
                  rw e
                    (rw (self_test target) (count_last y watcher (w.monitors target) ∙ omega arith))
              | no d ↦ rw (other_test x target d) (omega arith)
            ],
          )
  ]
]
