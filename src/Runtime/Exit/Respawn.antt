-- ===== src/Runtime/Exit/Respawn.antt =====
-- The children that a supervisor creates again (bootstrap/actor.c: `supervisor_spawn_child` and the
-- loops of `supervisor_handle_exit` that respawn).
use guage.Prelude.{
  ℕ, zero, suc, ◌+◌, ◌-◌, ◌≤◌, ◌<◌, ℕ_discrete, ◌≡◌, refl, sym, ap, ◌∙◌, ◌≢◌, inl, inr, true, false,
  none, some, List, [], ◌∷◌, arith, leb, Option-cases, length, get_elem?, set, length-append,
  length-set, find-holds, find-update_first_self, get_elem?-set_ne, get_elem?-set_self,
}
use guage.Runtime.Exit.{
  Child, Supervisor, World, max_actors, max_sup_children, is_supervisor, supervisor_lookup,
}
use guage.Runtime.Exit.Children.{
  new_actor, actor_create, set_child_id, child_at, supervisor_spawn_child, respawn,
}
use guage.Runtime.Exit.Sound.{some_inj}

get_elem?_lt {ℓ} :
    {A : Type ℓ} (xs : List A) (k : ℕ) (a : A) → get_elem? xs k ≡ some a → k < length xs
get_elem?_lt [] k a h = absurd cc
get_elem?_lt (x ∷ xs) zero a h = omega arith
get_elem?_lt (x ∷ xs) (suc k) a h = let r = get_elem?_lt xs k a h in omega arith

get_elem?_gone {ℓ} : {A : Type ℓ} (xs : List A) (i : ℕ) → get_elem? xs i ≡ none → length xs ≤ i
get_elem?_gone [] i h = omega arith
get_elem?_gone (x ∷ xs) zero h = absurd cc
get_elem?_gone (x ∷ xs) (suc i) h = let r = get_elem?_gone xs i h in omega arith

module _ {ℓ} {C : Type ℓ} where
  -- One child is given the next id, and nothing else of its supervisor changes.
  pub record IsSpawned (w w' : World C) (sup i : ℕ) (s : Supervisor C) (c : Child C) : Type ℓ where
    pub found :
        supervisor_lookup w' sup
        ≡ some (record s { children = set s.children i (record c { child_id = w.next_actor_id }) })
    pub next : w'.next_actor_id ≡ w.next_actor_id + 1
    pub room : length w'.actors ≡ length w.actors + 1

  pub spawn_child-IsSpawned :
      (w : World C) (sup i : ℕ) (s : Supervisor C) (c : Child C)
      → supervisor_lookup w sup ≡ some s
      → get_elem? s.children i ≡ some c
      → length w.actors < max_actors
      → IsSpawned w (supervisor_spawn_child w sup i).1 sup i s c
  unfolding supervisor_spawn_child actor_create
  spawn_child-IsSpawned w sup i s c h e l =
      let x : child_at w sup i ≡ some c = rw (child_at, h) e in
      let y : leb max_actors (length w.actors) ≡ false = ground arith in
      let f = set_child_id i w.next_actor_id in
      let n = length-append w.actors (new_actor w.next_actor_id ∷ []) in
      let id : is_supervisor sup (f s) ≡ true =
        rw (set_child_id, e) (find-holds (is_supervisor sup) w.supervisors s h) in
      let r = find-update_first_self (is_supervisor sup) f w.supervisors s id h in
      let g : f s
          ≡ record s { children = set s.children i (record c { child_id = w.next_actor_id }) } =
        rw (set_child_id, e) refl in
      rw (supervisor_spawn_child, x, actor_create, y)
        (record { found = r ∙ ap some g; next = refl; room = n })

  -- The children from `i` on have the ids from `first` on, and the others are as they were.
  pub record IsRespawned (s : Supervisor C) (w' : World C) (sup first i : ℕ) : Type ℓ where
    pub after : Supervisor C
    pub found : supervisor_lookup w' sup ≡ some after
    pub kept :
        (j : ℕ) (c : Child C)
        → j < i
        → get_elem? s.children j ≡ some c
        → get_elem? after.children j ≡ some c
    pub fresh :
        (j : ℕ) (c : Child C)
        → i ≤ j
        → get_elem? s.children j ≡ some c
        → get_elem? after.children j ≡ some (record c { child_id = first + (j - i) })

  one_more :
      (s : Supervisor C) (w' : World C) (sup first i : ℕ) (c : Child C)
      → get_elem? s.children i ≡ some c
      → IsRespawned
          (record s { children = set s.children i (record c { child_id = first }) })
          w'
          sup
          (first + 1)
          (i + 1)
      → IsRespawned s w' sup first i
  one_more s w' sup first i c e u =
      let x : Child C = record c { child_id = first } in
      record {
        after = u.after;
        found = u.found;
        kept = λ j d l g.
            let ne : i ≢ j = λ q. let z : ⊥ = omega (arith, q) in z in
            u.kept j d (omega arith) (get_elem?-set_ne s.children x ne ∙ g);
        fresh = λ j d l g. elim (ℕ_discrete i j) [
          | yes q ↦
              let same : d ≡ c = some_inj (sym g ∙ (ap (get_elem? s.children) (sym q) ∙ e)) in
              let at : first + (j - i) ≡ first = omega (arith, q) in
              let k =
                u.kept i x (omega arith)
                  (get_elem?-set_self s.children i x (get_elem?_lt s.children i c e)) in
              rw (at, same) (ap (get_elem? u.after.children) (sym q) ∙ k)
          | no q ↦
              let at : first + 1 + (j - (i + 1)) ≡ first + (j - i) = omega arith in
              rw (sym at) (u.fresh j d (omega arith) (get_elem?-set_ne s.children x q ∙ g))
        ];
      }

  -- The loop, for as many rounds as there are children left.
  respawn_from :
      (n : ℕ) (w : World C) (sup i : ℕ) (s : Supervisor C)
      → supervisor_lookup w sup ≡ some s
      → length s.children ≤ i + n
      → length w.actors + (length s.children - i) ≤ max_actors
      → IsRespawned s (respawn w sup n i) sup w.next_actor_id i
  unfolding respawn
  respawn_from zero w sup i s h b r = record {
    after = s;
    found = h;
    kept = λ j c l e. e;
    fresh = λ j c l e.
        let p = get_elem?_lt s.children j c e in let z : ⊥ = omega (arith, p) in absurd z;
  }
  respawn_from (suc n) w sup i s h b r = elim (Option-cases (get_elem? s.children i)) [
    | inl e ↦
        let x : child_at w sup i ≡ none = rw (child_at, h) e in
        rw (respawn, x)
          (record {
            after = s;
            found = h;
            kept = λ j c l g. g;
            fresh = λ j c l g.
                let p = get_elem?_lt s.children j c g in
                let q = get_elem?_gone s.children i e in
                let z : ⊥ = omega (arith, p, q) in absurd z;
          })
    | inr (c, e) ↦
        let x : child_at w sup i ≡ some c = rw (child_at, h) e in
        let p = get_elem?_lt s.children i c e in
        let t = spawn_child-IsSpawned w sup i s c h e (omega arith) in
        let size = length-set s.children i (record c { child_id = w.next_actor_id }) in
        let u =
          respawn_from n (supervisor_spawn_child w sup i).1 sup (i + 1)
            (record s { children = set s.children i (record c { child_id = w.next_actor_id }) })
            t.found (omega (arith, size)) (omega (arith, size, t.room)) in
        rw (respawn, x)
          (one_more s (respawn (supervisor_spawn_child w sup i).1 sup n (i + 1)) sup w.next_actor_id
            i c e (rw t.next at u))
  ]

  -- For a supervisor of at most 32 children, while there is room for as many actors, the loop that
  -- respawns from child i on gives these children the next ids, in order, and keeps their specs
  -- and restart types and all children before.
  pub respawn-IsRespawned :
      (w : World C) (sup i : ℕ) (s : Supervisor C)
      → supervisor_lookup w sup ≡ some s
      → length s.children ≤ max_sup_children
      → length w.actors + (length s.children - i) ≤ max_actors
      → IsRespawned s (respawn w sup max_sup_children i) sup w.next_actor_id i
  respawn-IsRespawned w sup i s h b r = respawn_from max_sup_children w sup i s h (omega arith) r
