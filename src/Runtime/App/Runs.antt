-- ===== src/Runtime/App/Runs.antt =====
-- Whole runs of application operations.
use guage.Prelude.{
  ℕ, ◌+◌, ◌≡◌, refl, inl, inr, Bool, true, false, Option, none, some, List, [], ◌∷◌, ◌++◌, arith,
  leb, Bool-cases, Option-cases, length, find, find-holds, All, All-append, All-update_first, Eq,
}
use guage.Runtime.Refs.{
  CellOps, RefOp, retains, releases, release_all, retains-append, releases-append,
  releases-release_all, retains-release_all,
}
use guage.Runtime.App.{
  App, Apps, stopped, add_env, put_env, is_running, is_env, max_env, max_apps, app_start, app_stop,
  app_set_env, release_apps, app_reset_all, release_opt,
}
use guage.Runtime.App.Laws.{
  owned, set-owned, stop-owned, start-owned, opt-releases, set_absent, set_old, set_full, set_new,
  start_dup, start_full, start_ok, stop_absent, stop_ok,
}

pub data Op {ℓ} (N C : Type ℓ) : Type ℓ where
  start : N → ℕ → Option C → Op N C
  set_env : N → C → C → Op N C
  stop : N → Op N C

module _ {ℓ} {N C : Type ℓ} ⦃e : Eq N⦄ ⦃o : CellOps C⦄ where
  unfoldable pub step : Apps N C → Op N C → Apps N C × List (RefOp C)
  step apps (start n sup f) = let (r, apps', log) = app_start apps n sup f in (apps', log)
  step apps (set_env n k v) = let (r, apps', log) = app_set_env apps n k v in (apps', log)
  step apps (stop n) = let (r, apps', log) = app_stop apps n in (apps', log)

  unfoldable pub run : Apps N C → List (Op N C) → Apps N C × List (RefOp C)
  run apps [] = (apps, [])
  run apps (op ∷ ops) =
      let (apps', log) = step apps op in let (apps'', log') = run apps' ops in (apps'', log ++ log')

  -- A stopped application holds nothing.
  IsClean : App N C → Type ℓ
  IsClean a = a.running ≡ false → (a.env ≡ []) × (a.stop_fn ≡ none)

  running-IsClean : (a : App N C) → a.running ≡ true → IsClean a
  unfolding IsClean
  running-IsClean a h = λ g. cc

  stopped-IsClean : (a : App N C) → IsClean (stopped a)
  unfolding IsClean
  stopped-IsClean a = λ g. (refl, refl)

  step-IsClean : (apps : Apps N C) (op : Op N C) → All IsClean apps → All IsClean (step apps op).0
  unfolding step
  step-IsClean apps (start n sup f) c = elim (Option-cases (find (is_running n) apps)) [
    | inr (a, h) ↦ rw (start_dup apps n sup f a h) c
    | inl h ↦ elim (Bool-cases (leb max_apps (length apps))) [
      | inl b ↦ rw (start_full apps n sup f h b) c
      | inr b ↦
          rw (start_ok apps n sup f h b) (All-append IsClean apps _ c (running-IsClean _ refl, tt))
    ]
  ]
  step-IsClean apps (set_env n k v) c = elim (Option-cases (find (is_running n) apps)) [
    | inl h ↦ rw (set_absent apps n k v h) c
    | inr (a, h) ↦ elim (Option-cases (find (is_env k) a.env)) [
      | inr (x, g) ↦ rw (set_old apps n k v a x h g) (
          All-update_first IsClean (is_running n) (put_env k v) apps
            (λ b f p. running-IsClean _ (on n b f)) c)
      | inl g ↦ elim (Bool-cases (leb max_env (length a.env))) [
        | inl b ↦ rw (set_full apps n k v a h g b) c
        | inr b ↦ rw (set_new apps n k v a h g b) (
            All-update_first IsClean (is_running n) (add_env k v) apps
              (λ b f p. running-IsClean _ (on n b f)) c)
      ]
    ]
  ]
    where
      on : (n : N) (b : App N C) → find (is_running n) apps ≡ some b → b.running ≡ true
      on n b f = ground (arith, find-holds (is_running n) apps b f)
  step-IsClean apps (stop n) c = elim (Option-cases (find (is_running n) apps)) [
    | inl h ↦ rw (stop_absent apps n h) c
    | inr (a, h) ↦
        rw (stop_ok apps n a h)
          (All-update_first IsClean (is_running n) stopped apps (λ b f p. stopped-IsClean b) c)
  ]

  step-owned :
      (apps : Apps N C) (op : Op N C) (q : C → Bool)
      → owned q (step apps op).0 + releases q (step apps op).1
        ≡ owned q apps + retains q (step apps op).1
  unfolding step
  step-owned apps (start n sup f) q = start-owned apps n sup f q
  step-owned apps (set_env n k v) q = set-owned apps n k v q
  step-owned apps (stop n) q = stop-owned apps n q

  run-owned :
      (apps : Apps N C) (ops : List (Op N C))
      → All IsClean apps
      → ((q : C → Bool)
          → owned q (run apps ops).0 + releases q (run apps ops).1
            ≡ owned q apps + retains q (run apps ops).1)
        × All IsClean (run apps ops).0
  unfolding run
  run-owned apps [] c = ((λ q. refl), c)
  run-owned apps (op ∷ ops) c =
      let (apps', log) = step apps op in
      let rest = run-owned apps' ops (step-IsClean apps op c) in
      (
        λ q. omega (
          arith,
          step-owned apps op q,
          rest.0 q,
          retains-append q log (run apps' ops).1,
          releases-append q log (run apps' ops).1,
        ),
        rest.1,
      )

  release_apps-owned :
      (q : C → Bool) (apps : Apps N C)
      → All IsClean apps
      → (releases q (release_apps apps) ≡ owned q apps) × (retains q (release_apps apps) ≡ 0)
  unfolding release_apps IsClean
  release_apps-owned q [] c = (refl, refl)
  release_apps-owned q (a ∷ apps) c =
      let (l, r) = release_apps-owned q apps c.1 in
      elim (Bool-cases a.running) [
        | inl b ↦ rw b (
          omega (
            arith,
            l,
            opt-releases q a.stop_fn,
            releases-append q (release_all a.env ++ release_opt a.stop_fn) (release_apps apps),
            releases-append q (release_all a.env) (release_opt a.stop_fn),
            releases-release_all q a.env,
          ),
          omega (
            arith,
            r,
            opt-releases q a.stop_fn,
            retains-append q (release_all a.env ++ release_opt a.stop_fn) (release_apps apps),
            retains-append q (release_all a.env) (release_opt a.stop_fn),
            retains-release_all q a.env,
          ),
        )
        | inr b ↦ let (e, f) = c.0 b in rw b (rw (e, f) (omega (arith, l)), r)
      ]

  -- From no applications, through any run of starts, environment changes and stops, and then
  -- app_reset_all, every cell is released exactly as often as it is retained.
  pub app_run-no_leak :
      (ops : List (Op N C)) (q : C → Bool)
      → let (apps, log) = run [] ops in
        retains q log + retains q (app_reset_all apps).1
        ≡ releases q log + releases q (app_reset_all apps).1
  unfolding app_reset_all
  app_run-no_leak ops q =
      let (b, c) = run-owned [] ops tt in
      let (l, r) = release_apps-owned q (run [] ops).0 c in omega (arith, b q, l, r)
