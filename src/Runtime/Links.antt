-- ===== src/Runtime/Links.antt =====
-- Links and monitors of actors (bootstrap/actor.c: `actor_link`, `actor_unlink`,
-- `actor_add_monitor`). Both actors exist. They are known by their ids, so that an actor may be
-- linked to itself; each keeps an array of linked ids and one of watchers. The striped locks make
-- each operation one step; traces are left out.
pub mod Halves
pub mod Laws
mod Tests
use guage.Prelude.{
  ℕ, Bool, true, false, not, ◌&&◌, List, [], ◌∷◌, ◌++◌, ltb, ◌==◌, if◌then◌else◌, length,
  remove_swap,
}

pub record Links : Type 0 where
  pub links : ℕ → List ℕ
  pub monitors : ℕ → List ℕ
  pub alive : ℕ → Bool

abbrev pub max_links : ℕ
max_links = 32

abbrev pub max_monitors : ℕ
max_monitors = 32

abbrev pub is : ℕ → ℕ → Bool
is id x = x == id

-- `if (a->links[i] == b->id) { found = true; break; }`
abbrev pub contains : ℕ → List ℕ → Bool
contains id [] = false
contains id (x ∷ xs) = if x == id then true else contains id xs

-- The array of one actor is written.
abbrev pub with_links : Links → ℕ → List ℕ → Links
with_links w a xs = record w { links = λ x. if x == a then xs else w.links x }

-- One half of `actor_link`.
unfoldable pub add_link : Links → ℕ → ℕ → Links
add_link w a b =
    if not (contains b (w.links a)) && ltb (length (w.links a)) max_links
    then with_links w a (w.links a ++ (b ∷ []))
    else w

unfoldable pub actor_link : Links → ℕ → ℕ → Links
unfolding add_link
actor_link w a b = add_link (add_link w a b) b a

-- One half of `actor_unlink`.
unfoldable pub drop_link : Links → ℕ → ℕ → Links
drop_link w a b = with_links w a (remove_swap (is b) (w.links a))

unfoldable pub actor_unlink : Links → ℕ → ℕ → Links
unfolding drop_link
actor_unlink w a b = drop_link (drop_link w a b) b a

unfoldable pub actor_add_monitor : Links → ℕ → ℕ → Bool × Links
actor_add_monitor w target watcher =
    if not (w.alive target)
    then (false, w)
    else if ltb (length (w.monitors target)) max_monitors
    then (
      true,
      record w {
        monitors = λ x. if x == target then w.monitors target ++ (watcher ∷ []) else w.monitors x;
      },
    )
    else (true, w)
