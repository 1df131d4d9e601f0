-- ===== src/Runtime/App/Laws.antt =====
-- The environment of an application, and the references that applications hold.
use guage.Prelude.{
  ℕ, ◌+◌, ◌≡◌, refl, inl, inr, Bool, true, false, Option, none, some, [], ◌∷◌, ◌++◌, arith, leb,
  Bool-cases, Option-cases, length, to_nat, find, update_first, find-holds, find-append,
  find-update_first_self, Eq,
}
use guage.Runtime.Refs.{
  CellOps, retain, release, retains, releases, held, release_all, retains-append, releases-append,
  releases-release_all, retains-release_all, held-append, held-update_first,
}
use guage.Runtime.App.{
  App, Apps, Assigned, max_env, retain_opt, release_opt, is_env, stopped, add_env, put_env,
  is_running, app_start, app_stop, app_get_env, app_set_env, Started, max_apps,
}

module _ {ℓ} {N C : Type ℓ} ⦃e : Eq N⦄ ⦃o : CellOps C⦄ (apps : Apps N C) (n : N) where
  pub set_absent :
      (k v : C)
      → find (is_running n) apps ≡ none
      → app_set_env apps n k v ≡ (Assigned.not_found, apps, [])
  unfolding app_set_env
  set_absent k v h = rw (h, app_set_env)

  pub set_old :
      (k v : C) (a : App N C) (x : C × C)
      → find (is_running n) apps ≡ some a
      → find (is_env k) a.env ≡ some x
      → app_set_env apps n k v
        ≡ (Assigned.ok, update_first (is_running n) (put_env k v) apps, release x.1 ∷ retain v ∷ [])
  unfolding app_set_env
  set_old k v a x h g = rw (h, app_set_env) (rw g refl)

  pub set_full :
      (k v : C) (a : App N C)
      → find (is_running n) apps ≡ some a
      → find (is_env k) a.env ≡ none
      → leb max_env (length a.env) ≡ true
      → app_set_env apps n k v ≡ (Assigned.full, apps, [])
  unfolding app_set_env
  set_full k v a h g b = rw (h, app_set_env) (rw g (rw b refl))

  pub set_new :
      (k v : C) (a : App N C)
      → find (is_running n) apps ≡ some a
      → find (is_env k) a.env ≡ none
      → leb max_env (length a.env) ≡ false
      → app_set_env apps n k v
        ≡ (Assigned.ok, update_first (is_running n) (add_env k v) apps, retain k ∷ retain v ∷ [])
  unfolding app_set_env
  set_new k v a h g b = rw (h, app_set_env) (rw g (rw b refl))

  pub start_dup :
      (sup : ℕ) (f : Option C) (a : App N C)
      → find (is_running n) apps ≡ some a
      → app_start apps n sup f ≡ (Started.dup, apps, [])
  unfolding app_start
  start_dup sup f a h = rw (h, app_start)

  pub start_full :
      (sup : ℕ) (f : Option C)
      → find (is_running n) apps ≡ none
      → leb max_apps (length apps) ≡ true
      → app_start apps n sup f ≡ (Started.full, apps, [])
  unfolding app_start
  start_full sup f h b = rw (h, app_start) (rw b refl)

  pub start_ok :
      (sup : ℕ) (f : Option C)
      → find (is_running n) apps ≡ none
      → leb max_apps (length apps) ≡ false
      → app_start apps n sup f ≡ (
        Started.ok,
        apps
            ++ (record { name = n; supervisor_id = sup; stop_fn = f; env = []; running = true }
                ∷ []),
        retain_opt f,
      )
  unfolding app_start
  start_ok sup f h b = rw (h, app_start) (rw b refl)

  pub stop_absent : find (is_running n) apps ≡ none → app_stop apps n ≡ (false, apps, [])
  unfolding app_stop
  stop_absent h = rw (h, app_stop)

  pub stop_ok :
      (a : App N C)
      → find (is_running n) apps ≡ some a
      → app_stop apps n ≡ (
        true,
        update_first (is_running n) stopped apps,
        release_all a.env ++ release_opt a.stop_fn,
      )
  unfolding app_stop
  stop_ok a h = rw (h, app_stop)

  pub get_found :
      (k : C) (a : App N C)
      → find (is_running n) apps ≡ some a
      → (app_get_env apps n k).0 ≡ elim (find (is_env k) a.env) [ none ↦ none | some x ↦ some x.1 ]
  unfolding app_get_env
  get_found k a h = rw (h, app_get_env) (ground arith)

abbrev pub weight {ℓ} : {C : Type ℓ} → (C → Bool) → Option C → ℕ
weight q none = 0
weight q (some c) = to_nat (q c)

module _ {ℓ} {C : Type ℓ} where
  pub opt-releases :
      (q : C → Bool) (b : Option C)
      → (releases q (release_opt b) ≡ weight q b)
        × (retains q (release_opt b) ≡ 0)
        × (retains q (retain_opt b) ≡ weight q b)
        × (releases q (retain_opt b) ≡ 0)
  opt-releases q none = (refl, refl, refl, refl)
  opt-releases q (some c) = (omega arith, refl, omega arith, refl)

-- The references of the applications: environments and stop functions.
abbrev pub owned {ℓ} : {N C : Type ℓ} → (C → Bool) → Apps N C → ℕ
owned q [] = 0
owned q (a ∷ apps) = held q a.env + weight q a.stop_fn + owned q apps

module _ {ℓ} {N C : Type ℓ} where
  owned-update_first :
      (q : C → Bool) (p : App N C → Bool) (f : App N C → App N C) (apps : Apps N C) (a : App N C)
      → find p apps ≡ some a
      → owned q (update_first p f apps) + held q a.env + weight q a.stop_fn
        ≡ owned q apps + held q (f a).env + weight q (f a).stop_fn
  owned-update_first q p f [] a h = cc
  owned-update_first q p f (b ∷ apps) a h = ground (arith, owned-update_first q p f apps a)

  owned-append :
      (q : C → Bool) (apps bs : Apps N C) → owned q (apps ++ bs) ≡ owned q apps + owned q bs
  owned-append q [] bs = omega arith
  owned-append q (a ∷ apps) bs = omega (arith, owned-append q apps bs)

module _ {ℓ} {N C : Type ℓ} ⦃e : Eq N⦄ ⦃o : CellOps C⦄ where
  -- Where app_set_env reports success, app_get_env of the same application and key returns the
  -- cell that was set.
  pub get-set :
      (apps : Apps N C) (n : N) (k v : C)
      → (app_set_env apps n k v).0 ≡ Assigned.ok
      → (app_get_env (app_set_env apps n k v).1 n k).0 ≡ some v
  get-set apps n k v ok = elim (Option-cases (find (is_running n) apps)) [
    | inl h ↦ absurd (cc (set_absent apps n k v h))
    | inr (a, h) ↦ elim (Option-cases (find (is_env k) a.env)) [
      | inr (x, g) ↦ rw (
        set_old apps n k v a x h g,
        get_found _ n k (put_env k v a) (
            find-update_first_self (is_running n) (put_env k v) apps a
              (find-holds (is_running n) apps a h) h),
        find-update_first_self (is_env k) (λ x. (x.0, v)) a.env x (find-holds (is_env k) a.env x g)
            g,
      )
      | inl g ↦ elim (Bool-cases (leb max_env (length a.env))) [
        | inl b ↦ absurd (cc (set_full apps n k v a h g b))
        | inr b ↦
            rw
              (
                set_new apps n k v a h g b,
                get_found _ n k (add_env k v a) (
                    find-update_first_self (is_running n) (add_env k v) apps a
                      (find-holds (is_running n) apps a h) h),
              )
              (ground (arith, find-append (is_env k) a.env ((k, v) ∷ []), o.equal_refl k))
      ]
    ]
  ]

  -- What the three changes retain and release is what the applications hold more and less.
  pub set-owned :
      (apps : Apps N C) (n : N) (k v : C) (q : C → Bool)
      → owned q (app_set_env apps n k v).1 + releases q (app_set_env apps n k v).2
        ≡ owned q apps + retains q (app_set_env apps n k v).2
  set-owned apps n k v q = elim (Option-cases (find (is_running n) apps)) [
    | inl h ↦ rw (set_absent apps n k v h)
    | inr (a, h) ↦ elim (Option-cases (find (is_env k) a.env)) [
      | inr (x, g) ↦ rw (set_old apps n k v a x h g) (
          omega (
            arith,
            owned-update_first q (is_running n) (put_env k v) apps a h,
            held-update_first q (is_env k) v a.env x g,
          ))
      | inl g ↦ elim (Bool-cases (leb max_env (length a.env))) [
        | inl b ↦ rw (set_full apps n k v a h g b)
        | inr b ↦ rw (set_new apps n k v a h g b) (
            omega (
              arith,
              owned-update_first q (is_running n) (add_env k v) apps a h,
              held-append q a.env ((k, v) ∷ []),
            ))
      ]
    ]
  ]

  pub stop-owned :
      (apps : Apps N C) (n : N) (q : C → Bool)
      → owned q (app_stop apps n).1 + releases q (app_stop apps n).2
        ≡ owned q apps + retains q (app_stop apps n).2
  unfolding app_stop
  stop-owned apps n q = elim (Option-cases (find (is_running n) apps)) [
    | inl h ↦ rw (h, app_stop) refl
    | inr (a, h) ↦
        rw (h, app_stop)
          (omega (
            arith,
            owned-update_first q (is_running n) stopped apps a h,
            opt-releases q a.stop_fn,
            releases-append q (release_all a.env) (release_opt a.stop_fn),
            retains-append q (release_all a.env) (release_opt a.stop_fn),
            releases-release_all q a.env,
            retains-release_all q a.env,
          ))
  ]

  pub start-owned :
      (apps : Apps N C) (n : N) (sup : ℕ) (f : Option C) (q : C → Bool)
      → owned q (app_start apps n sup f).1 + releases q (app_start apps n sup f).2
        ≡ owned q apps + retains q (app_start apps n sup f).2
  unfolding app_start
  start-owned apps n sup f q = ground (
    arith,
    opt-releases q f,
    owned-append q apps
        (record { name = n; supervisor_id = sup; stop_fn = f; env = []; running = true } ∷ []),
  )
